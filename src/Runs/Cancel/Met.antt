-- ===== src/Runs/Cancel/Met.antt =====
-- What the cancel of one job does to each job, and how such effects add up.
use restore_engine.Common.{
  ◌≡◌, refl, ap, ◌∙◌, String, Bool, true, false, not, ◌&&◌, ◌||◌, List, [], ◌∷◌, ◌++◌, some, lookup,
  put, put_all, lookup-put, contains, ◌==◌, string_key, eq_iff, arith, inl, inr, Bool-cases,
  if◌then◌else◌,
}
use restore_engine.Jobs.{Hash, Redis, hgetall, hget, hset, cancel_requested, hget-hset}
use restore_engine.Queue.{no_fields, lrem}
use restore_engine.Runs.Tick.{job_state}
use restore_engine.Runs.Cancel.{
  Cancelling, cancelled_with_run, requested, cancel_queued, cancel_job,
}

abbrev pub is_there : Redis → String → Bool
is_there r j = not (no_fields (lookup j r.jobs))

-- A job that the cancel of its run cancels, or asks to stop.
abbrev pub is_pending : Redis → String → Bool
is_pending r j = is_there r j && (job_state r j == "PENDING")

abbrev pub is_restoring : Redis → String → Bool
is_restoring r j = is_there r j && (job_state r j == "RESTORING")

put-no_fields : (k v : String) (h : Hash) → no_fields (some (put k v h)) ≡ false
unfolding put
put-no_fields k v [] = refl
put-no_fields k v ((j, w) ∷ h) = ground arith

put_all-no_fields :
    (m h : Hash) → no_fields (some h) ≡ false → no_fields (some (put_all h m)) ≡ false
unfolding put_all
put_all-no_fields [] h filled = filled
put_all-no_fields ((k, v) ∷ m) h filled = put_all-no_fields m (put k v h) (put-no_fields k v h)

is_there-hset :
    (id k v j : String) (m : Hash) (r : Redis)
    → is_there (hset id ((k, v) ∷ m) r) j ≡ (if id == j then true else is_there r j)
unfolding hset put_all
is_there-hset id k v j m r = elim (Bool-cases (id == j)) [
  | inl same ↦
      rw (lookup-put, same)
        (ap not (put_all-no_fields m (put k v (hgetall r id)) (put-no_fields k v (hgetall r id))))
  | inr other ↦ rw (lookup-put, other) refl
]

job_state-cancelled :
    (now id j : String) (r : Redis)
    → job_state (hset id (cancelled_with_run now) r) j
      ≡ (if id == j then "CANCELLED" else job_state r j)
unfolding put_all
job_state-cancelled now id j r = elim (Bool-cases (id == j)) [
  | inl same ↦ rw (hget-hset, same) (simp lookup-put)
  | inr other ↦ rw (hget-hset, other) refl
]

job_state-requested :
    (now id j : String) (r : Redis) → job_state (hset id (requested now) r) j ≡ job_state r j
unfolding put_all hget
job_state-requested now id j r = elim (Bool-cases (id == j)) [
  | inl same ↦ let e : id ≡ j = (eq_iff id j).0 same in rw (hget-hset, same, ← e) (simp lookup-put)
  | inr other ↦ rw (hget-hset, other) refl
]

flag-cancelled :
    (now id j : String) (r : Redis)
    → cancel_requested (hset id (cancelled_with_run now) r) j
      ≡ (if id == j then true else cancel_requested r j)
unfolding cancel_requested put_all
flag-cancelled now id j r = elim (Bool-cases (id == j)) [
  | inl same ↦ rw (hget-hset, same) (simp lookup-put)
  | inr other ↦ rw (hget-hset, other) refl
]

flag-requested :
    (now id j : String) (r : Redis)
    → cancel_requested (hset id (requested now) r) j
      ≡ (if id == j then true else cancel_requested r j)
unfolding cancel_requested put_all
flag-requested now id j r = elim (Bool-cases (id == j)) [
  | inl same ↦ rw (hget-hset, same) (simp lookup-put)
  | inr other ↦ rw (hget-hset, other) refl
]

pub contains-lrem :
    (id j : String) (q : List String) → contains j (lrem id q) ≡ (not (id == j) && contains j q)
unfolding contains
contains-lrem id j [] = ground arith
contains-lrem id j (x ∷ q) =
    ground (arith, contains-lrem id j q, eq_iff x id, eq_iff x j, eq_iff id j)

pub contains-append :
    (j : String) (xs ys : List String) → contains j (xs ++ ys) ≡ (contains j xs || contains j ys)
unfolding contains
contains-append j [] ys = refl
contains-append j (x ∷ xs) ys = ground (arith, contains-append j xs ys)

-- The four facts of a job that the cancel of its run is about, after `ids` were met.
pub record Met (ids : List String) (j : String) (r r' : Redis) : Type 0 where
  pub there : is_there r' j ≡ is_there r j
  pub state :
      job_state r' j ≡ (if contains j ids && is_pending r j then "CANCELLED" else job_state r j)
  pub flag :
      cancel_requested r' j
      ≡ (cancel_requested r j || (contains j ids && (is_pending r j || is_restoring r j)))
  pub queue : contains j r'.queue ≡ (not (contains j ids && is_pending r j) && contains j r.queue)

-- The transaction for a job that is PENDING.
module _ (now id j : String) (r : Redis) where
  there-cancel_queued :
      is_there (cancel_queued now id r) j ≡ (if id == j then true else is_there r j)
  unfolding cancel_queued
  there-cancel_queued =
      is_there-hset id "state" "CANCELLED" j
        (("updated_at", now)
          ∷ ("error", "Cancelled with plan run")
          ∷ ("cancel_requested", "1")
          ∷ ("eta_sec", "")
          ∷ ("speed_bps", "")
          ∷ [])
        r

  job_state-cancel_queued :
      job_state (cancel_queued now id r) j ≡ (if id == j then "CANCELLED" else job_state r j)
  unfolding cancel_queued hget hgetall
  job_state-cancel_queued = job_state-cancelled now id j r

  flag-cancel_queued :
      cancel_requested (cancel_queued now id r) j ≡ (if id == j then true else cancel_requested r j)
  unfolding cancel_queued cancel_requested hget hgetall
  flag-cancel_queued = flag-cancelled now id j r

  queue-cancel_queued :
      contains j (cancel_queued now id r).queue ≡ (not (id == j) && contains j r.queue)
  unfolding cancel_queued
  queue-cancel_queued = contains-lrem id j r.queue

pub queue-hset : (id : String) (m : Hash) (r : Redis) → (hset id m r).queue ≡ r.queue
unfolding hset
queue-hset id m r = refl

pub Met-cancel_job :
    (now id j : String) (c : Cancelling) → Met (id ∷ []) j c.redis (cancel_job now id c).redis
unfolding cancel_job contains
Met-cancel_job now id j c =
    let r = c.redis in
    let there_flagged = is_there-hset id "cancel_requested" "1" j (("updated_at", now) ∷ []) r in
    record {
      there = ground (arith, there-cancel_queued now id j r, there_flagged, eq_iff id j);
      state =
          ground (
            arith,
            job_state-cancel_queued now id j r,
            job_state-requested now id j r,
            eq_iff id j,
          );
      flag = ground (arith, flag-cancel_queued now id j r, flag-requested now id j r, eq_iff id j);
      queue =
          ground
            (arith, queue-cancel_queued now id j r, queue-hset id (requested now) r, eq_iff id j);
    }

pub Met-nil : (j : String) (r : Redis) → Met [] j r r
unfolding contains
Met-nil j r = record { there = refl; state = refl; flag = ground arith; queue = refl }

pub Met-append :
    (xs ys : List String) (j : String) (r r' r'' : Redis)
    → Met xs j r r'
    → Met ys j r' r''
    → Met (xs ++ ys) j r r''
Met-append xs ys j r r' r'' m n =
    let both = contains-append j xs ys in
    record {
      there = n.there ∙ m.there;
      state = ground (arith, both, m.there, m.state, n.state);
      flag = ground (arith, both, m.there, m.state, m.flag, n.flag);
      queue = ground (arith, both, m.there, m.state, m.queue, n.queue);
    }
