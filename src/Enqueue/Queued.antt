-- ===== src/Enqueue/Queued.antt =====
-- What the loop of `enqueue_restores` leaves on the queue, also when it raises.
use restore_engine.Common.{
  ℕ, zero, suc, ◌+◌, ◌≡◌, refl, sym, ap, ◌∙◌, String, Bool, true, false, List, [], ◌∷◌, ◌++◌,
  Option, none, some, length, ◌==◌, nat_key, arith, inl, inr, if◌then◌else◌,
}
use mathlib.Core.List.{append-nil}
use restore_engine.Jobs.{Redis}
use restore_engine.Runs.{Row, Order}
use restore_engine.Enqueue.{Checked, good, bad, and_then, Mode, archive_path}
use restore_engine.Enqueue.Write.{Choice, job_fields, put_job, write_jobs}
use restore_engine.Enqueue.Finished.{Checked-cases}

abbrev pub is_good {ℓ} : {A : Type ℓ} → Checked A → Bool
is_good (good a) = true
is_good (bad e) = false

-- The rows in front of the first one without a path of its archive.
abbrev pub written : List Row → ℕ
written [] = 0
written (row ∷ rows) =
    let rest = written rows in
    if is_good (archive_path row.pve_storage row.voltail) then suc rest else 0

-- The first `n` ids from `i` on.
abbrev pub ids_from : (ℕ → String) → ℕ → ℕ → List String
ids_from uuid i zero = []
ids_from uuid i (suc n) = uuid i ∷ ids_from uuid (i + 1) n

abbrev pub returned : Checked (List String) → Option (List String)
returned (good ids) = some ids
returned (bad e) = none

append-assoc_one : (xs ys : List String) (x : String) → (xs ++ x ∷ []) ++ ys ≡ xs ++ x ∷ ys
append-assoc_one [] ys x = refl
append-assoc_one (y ∷ xs) ys x = ap (λ l. y ∷ l) (append-assoc_one xs ys x)

returned-cons :
    (c : Checked (List String)) (b : Bool) (ids : List String) (id : String)
    → returned c ≡ (if b then some ids else none)
    → returned (and_then c λ l. good (id ∷ l)) ≡ (if b then some (id ∷ ids) else none)
returned-cons (good l) true ids id h = let same : l ≡ ids = cc in rw same refl
returned-cons (good l) false ids id h = cc
returned-cons (bad e) true ids id h = cc
returned-cons (bad e) false ids id h = refl

same_suc : (m n : ℕ) → (suc m == suc n) ≡ (m == n)
same_suc m n = ground arith

zero_ne_suc : (n : ℕ) → (0 == suc n) ≡ false
zero_ne_suc n = ground arith

module _ (now : String) (mode : Mode) (o : Order) (uuid : ℕ → String) where
  -- If each row has its choice: the ids of the rows in front of the first one with no archive path are
  -- put on the queue, in their order. If there is no such row, the ids are returned too; otherwise the
  -- call raises and returns none of them, while they stay queued.
  pub write_jobs_exact :
      (i : ℕ) (rows : List Row) (cs : List Choice) (r : Redis)
      → length cs ≡ length rows
      → let (r', result) = write_jobs now mode o uuid i rows cs r in
        (r'.queue ≡ r.queue ++ ids_from uuid i (written rows))
        × (returned result
            ≡ (if written rows == length rows then some (ids_from uuid i (length rows)) else none))
  unfolding write_jobs put_job
  write_jobs_exact i [] [] r h = (sym (append-nil r.queue), refl)
  write_jobs_exact i [] (c ∷ cs) r h = absurd (omega (arith, h))
  write_jobs_exact i (row ∷ rows) [] r h = absurd (omega (arith, h))
  write_jobs_exact i (row ∷ rows) (c ∷ cs) r h =
      elim (Checked-cases (archive_path row.pve_storage row.voltail)) [
        | inl (archive, named) ↦
            let fields = job_fields now mode o row c archive (uuid i) in
            let r' = put_job (uuid i) fields r in
            let rest = write_jobs_exact (i + 1) rows cs r' (omega (arith, h)) in
            rw (named, write_jobs)
              (
                rest.0 ∙ append-assoc_one r.queue (ids_from uuid (i + 1) (written rows)) (uuid i),
                rw (same_suc (written rows) (length rows)) (
                    returned-cons (write_jobs now mode o uuid (i + 1) rows cs r').1
                      (written rows == length rows) (ids_from uuid (i + 1) (length rows)) (uuid i)
                      rest.1),
              )
        | inr (e, unnamed) ↦
            rw (unnamed, write_jobs) (sym (append-nil r.queue), rw (zero_ne_suc (length rows)) refl)
      ]
