-- ===== src/Enqueue/Finished.antt =====
-- What the plan runs rely on of `enqueue_restores`: it leaves finished jobs alone, and makes a job for
-- each row.
use restore_engine.Common.{
  ℕ, suc, ◌+◌, ◌≡◌, refl, ap, ◌∙◌, String, Bool, true, false, List, [], ◌∷◌, Option, none, some,
  lookup, length, ◌==◌, string_key, eq_iff, arith, inl, inr, ◌⊎◌, Bool-cases,
}
use mathlib.Core.Path.{subst}
use restore_engine.States.{is_terminal}
use restore_engine.Jobs.{Hash, Redis, text_or, hgetall, hget, hset, hget-hset}
use restore_engine.Runs.{Row, Order, Reply, enqueued, raised, Enqueued}
use restore_engine.Runs.Tick.{job_state, is_nil}
use restore_engine.Runs.Ordered.{KeepsFinished}
use restore_engine.Runs.Progress.{MakesJobs}
use restore_engine.Guests.{Proxmox}
use restore_engine.Guests.Destroy.{Session}
use restore_engine.Enqueue.{Checked, good, bad, and_then, Mode, EnqueueError, archive_path}
use restore_engine.Enqueue.Write.{Choice, job_fields, put_job, write_jobs}
use restore_engine.Enqueue.Call.{
  Choices, choices, settle_choices, reclaimed, finish, with_choices, checked_call, enqueue_restores,
  seen, enqueue_callback,
}

pub Checked-cases :
    {A : Type 0} (c : Checked A) → ((a : A) × (c ≡ good a)) ⊎ ((e : EnqueueError) × (c ≡ bad e))
Checked-cases (good a) = inl (a, refl)
Checked-cases (bad e) = inr (e, refl)

-- A job that has no hash is not finished.
terminal_ne_fresh :
    (r : Redis) (fresh id : String)
    → lookup fresh r.jobs ≡ none
    → is_terminal (job_state r id) ≡ true
    → (fresh == id) ≡ false
unfolding hget hgetall lookup
terminal_ne_fresh r fresh id none_yet over = elim (Bool-cases (fresh == id)) [
  | inl same ↦
      let e : fresh ≡ id = (eq_iff fresh id).0 same in
      let missing : lookup id r.jobs ≡ none = rw (← e) none_yet in
      let never : false ≡ true = rw missing at over in cc
  | inr other ↦ other
]

job_state-put_job :
    (fresh id : String) (fields : Hash) (r : Redis)
    → (fresh == id) ≡ false
    → job_state (put_job fresh fields r) id ≡ job_state r id
unfolding put_job hget hgetall
job_state-put_job fresh id fields r other =
    let step : hget (hset fresh fields r) id "state" ≡ hget r id "state" =
      hget-hset fresh id "state" fields r ∙ rw other refl in
    ap (λ o. text_or o "PENDING") step

-- One job for each row.
abbrev AsMany : List Row → Checked (List String) → Type 0
AsMany rows (good ids) = length ids ≡ length rows
AsMany rows (bad e) = Unit

module _ (now : String) (mode : Mode) (o : Order) (uuid : ℕ → String) where
  -- The jobs that are written have other ids.
  write_jobs-keeps :
      (i : ℕ) (rows : List Row) (cs : List Choice) (r : Redis) (id : String)
      → ((j : ℕ) → (uuid j == id) ≡ false)
      → job_state (write_jobs now mode o uuid i rows cs r).0 id ≡ job_state r id
  unfolding write_jobs
  write_jobs-keeps i [] [] r id other = refl
  write_jobs-keeps i [] (c ∷ cs) r id other = refl
  write_jobs-keeps i (row ∷ rows) [] r id other = refl
  write_jobs-keeps i (row ∷ rows) (c ∷ cs) r id other =
      elim (Checked-cases (archive_path row.pve_storage row.voltail)) [
        | inl (archive, named) ↦
            let fields = job_fields now mode o row c archive (uuid i) in
            let r' = put_job (uuid i) fields r in
            rw (named, write_jobs)
              (write_jobs-keeps (i + 1) rows cs r' id other
                ∙ job_state-put_job (uuid i) id fields r (other i))
        | inr (e, unnamed) ↦ rw (unnamed, write_jobs) refl
      ]

  write_jobs-AsMany :
      (i : ℕ) (rows : List Row) (cs : List Choice) (r : Redis)
      → AsMany rows (write_jobs now mode o uuid i rows cs r).1
  unfolding write_jobs
  write_jobs-AsMany i [] [] r = refl
  write_jobs-AsMany i [] (c ∷ cs) r = tt
  write_jobs-AsMany i (row ∷ rows) [] r = tt
  write_jobs-AsMany i (row ∷ rows) (c ∷ cs) r =
      elim (Checked-cases (archive_path row.pve_storage row.voltail)) [
        | inl (archive, named) ↦
            let fields = job_fields now mode o row c archive (uuid i) in
            let r' = put_job (uuid i) fields r in
            rw (named, write_jobs)
              (cons-AsMany (uuid i) row rows _ (write_jobs-AsMany (i + 1) rows cs r'))
        | inr (e, unnamed) ↦ rw (unnamed, write_jobs) tt
      ]
    where
      cons-AsMany :
          (id : String) (row : Row) (rows : List Row) (c : Checked (List String))
          → AsMany rows c
          → AsMany (row ∷ rows) (and_then c λ ids. good (id ∷ ids))
      cons-AsMany id row rows (good ids) h = ap suc h
      cons-AsMany id row rows (bad e) h = tt

nil_by_length :
    (rows : List Row) (ids : List String)
    → is_nil rows ≡ false
    → length ids ≡ length rows
    → is_nil ids ≡ false
nil_by_length [] ids h e = cc
nil_by_length (row ∷ rows) [] h e = absurd (omega (arith, e))
nil_by_length (row ∷ rows) (id ∷ ids) h e = refl

-- What a call leaves in Redis, whether it returns or raises.
abbrev pub redis_of : Reply → Redis
redis_of (enqueued r result) = r
redis_of (raised r) = r

abbrev HasJobs : List Row → Reply → Type 0
HasJobs rows (enqueued r result) = length result.job_ids ≡ length rows
HasJobs rows (raised r) = Unit

module _ {C : Type 0} (api : Proxmox C) (connects : Bool) (now : String) (uuid : ℕ → String)
    (o : Order) (r : Redis) where
  with_choices-keeps :
      (ch : Choices) (t : Session C × Option EnqueueError) (id : String)
      → ((j : ℕ) → (uuid j == id) ≡ false)
      → job_state (redis_of (seen (with_choices api connects now uuid o ch r t))) id
        ≡ job_state r id
  unfolding with_choices
  with_choices-keeps ch (s, some e) id other = refl
  with_choices-keeps ch (s, none) id other = finish-keeps _ (
      write_jobs-keeps now ch.mode o uuid 0 o.rows (choices ch.vmids ch.nodes ch.storages) r id
        other)
    where
      finish-keeps :
          (w : Redis × Checked (List String))
          → job_state w.0 id ≡ job_state r id
          → job_state (redis_of (seen (finish api connects s ch w))) id ≡ job_state r id
      finish-keeps (r', good ids) h = h
      finish-keeps (r', bad e) h = h

  checked_call-keeps :
      (s : Session C) (c : Checked Choices) (id : String)
      → ((j : ℕ) → (uuid j == id) ≡ false)
      → job_state (redis_of (seen (checked_call api connects now uuid o r s c))) id ≡ job_state r id
  unfolding checked_call
  checked_call-keeps s (bad e) id other = refl
  checked_call-keeps s (good ch) id other =
      with_choices-keeps ch (reclaimed api connects o ch s) id other

  with_choices-HasJobs :
      (ch : Choices) (t : Session C × Option EnqueueError)
      → HasJobs o.rows (seen (with_choices api connects now uuid o ch r t))
  unfolding with_choices
  with_choices-HasJobs ch (s, some e) = tt
  with_choices-HasJobs ch (s, none) =
      finish-HasJobs _
        (write_jobs-AsMany now ch.mode o uuid 0 o.rows (choices ch.vmids ch.nodes ch.storages) r)
    where
      finish-HasJobs :
          (w : Redis × Checked (List String))
          → AsMany o.rows w.1
          → HasJobs o.rows (seen (finish api connects s ch w))
      finish-HasJobs (r', good ids) h = h
      finish-HasJobs (r', bad e) h = tt

  checked_call-HasJobs :
      (s : Session C) (c : Checked Choices)
      → HasJobs o.rows (seen (checked_call api connects now uuid o r s c))
  unfolding checked_call
  checked_call-HasJobs s (bad e) = tt
  checked_call-HasJobs s (good ch) = with_choices-HasJobs ch (reclaimed api connects o ch s)

-- `uuid.uuid4()` never returns the id of a job that is there.
abbrev pub IsFresh : (Redis → ℕ → String) → Type 0
IsFresh uuid = (r : Redis) (i : ℕ) → lookup (uuid r i) r.jobs ≡ none

module _ {C : Type 0} (api : Proxmox C) (connects : Bool) (s : Session C) (now : String)
    (uuid : Redis → ℕ → String) where
  -- If the new ids are fresh, a call of `enqueue_restores` leaves every finished job in its state,
  -- whatever the cluster answers, and whether the call returns or raises, also where it raises behind
  -- the jobs of the first rows.
  pub enqueue_callback-keeps :
      IsFresh uuid
      → (o : Order) (r : Redis) (id : String) → is_terminal (job_state r id) ≡ true
      → job_state (redis_of (enqueue_callback api connects s now uuid o r)) id ≡ job_state r id
  unfolding enqueue_callback enqueue_restores
  enqueue_callback-keeps fresh o r id over =
      checked_call-keeps api connects now (uuid r) o r s (settle_choices api connects o s.cluster r)
        id (λ j. terminal_ne_fresh r (uuid r j) id (fresh r j) over)

  -- So it is what the ticks of the plan runs rely on.
  pub enqueue_callback-KeepsFinished :
      IsFresh uuid → KeepsFinished (enqueue_callback api connects s now uuid)
  enqueue_callback-KeepsFinished fresh = record {
    keeps = λ o r r' result id e over.
        subst (λ x. job_state (redis_of x) id ≡ job_state r id) e
          (enqueue_callback-keeps fresh o r id over);
  }

  -- A call of `enqueue_restores` that returns has made as many jobs as it was given rows.
  pub enqueue_restores_count :
      (o : Order) (r r' : Redis) (result : Enqueued)
      → enqueue_callback api connects s now uuid o r ≡ enqueued r' result
      → length result.job_ids ≡ length o.rows
  unfolding enqueue_callback enqueue_restores
  enqueue_restores_count o r r' result e = subst (HasJobs o.rows) e (
      checked_call-HasJobs api connects now (uuid r) o r s
        (settle_choices api connects o s.cluster r))

  -- So `enqueue_restores` makes a job for each group with rows.
  pub enqueue_callback-MakesJobs : MakesJobs (enqueue_callback api connects s now uuid)
  enqueue_callback-MakesJobs = record {
    makes = λ o r r' result some_rows e.
        nil_by_length o.rows result.job_ids some_rows (enqueue_restores_count o r r' result e);
  }
