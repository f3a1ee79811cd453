-- ===== src/Slots.antt =====
-- concurrency.py: the Redis counter of concurrency slots. A missing key counts as 0, as INCR, DECR
-- and `active_slots` read it. Each Redis command of an operation may fail: the flags say whether it
-- is answered, and a command that fails has no effect. The logging of failures is left out.
pub mod Sequential
pub mod System
pub mod Safety
use restore_engine.Common.Int.{ℤ, pos, incr, decr, is_neg, above, clip}
use restore_engine.Common.{
  ℕ, zero, suc, ◌+◌, max, String, Bool, true, false, List, [], ◌∷◌, Option, none, some, lookup, ltb,
  string_key, if◌then◌else◌,
}
use restore_engine.Jobs.{Hash, is_text}

-- `max(1, int(… or 2))` of the configured value, which may be missing or 0.
unfoldable pub max_concurrent : Option ℕ → ℕ
max_concurrent none = 2
max_concurrent (some zero) = 2
max_concurrent (some (suc n)) = suc n

unfoldable pub active_slots : ℤ → ℕ
active_slots slots = clip slots

-- `cap = max_concurrent(cfg) if limit is None else max(1, int(limit))`
unfoldable pub cap_of : Option ℕ → Option ℕ → ℕ
unfolding max_concurrent
cap_of configured none = max_concurrent configured
cap_of configured (some limit) = max 1 limit

-- What a Redis server answers to the two commands of an operation.
pub record Answers : Type 0 where
  pub first_ok : Bool
  pub second_ok : Bool

-- INCR, then DECR where the reply is above the cap; the counter and whether the slot was taken.
unfoldable pub try_acquire_slot : Answers → ℕ → ℤ → ℤ × Bool
try_acquire_slot a cap slots =
    if a.first_ok
    then (let n = incr slots in
        if above n cap then (if a.second_ok then decr n else n, false) else (n, true))
    else (slots, false)

-- DECR, then SET to 0 where the reply is negative.
unfoldable pub release_slot : Answers → ℤ → ℤ
release_slot a slots =
    if a.first_ok
    then (let n = decr slots in if is_neg n then (if a.second_ok then pos 0 else n) else n)
    else slots

-- The scan over the jobs of Redis, whose hashes are all read.
unfoldable pub count_restoring_jobs : List (String × Hash) → ℕ
count_restoring_jobs [] = 0
count_restoring_jobs ((key, h) ∷ jobs) =
    let rest = count_restoring_jobs jobs in
    if is_text (lookup "state" h) "RESTORING" then rest + 1 else rest

-- SET to the number of jobs that are RESTORING.
unfoldable pub reconcile_slots : Bool → ℕ → ℤ → ℤ
reconcile_slots set_ok restoring slots = if set_ok then pos restoring else slots
