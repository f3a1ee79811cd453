-- ===== src/Slots/System.antt =====
-- The worker processes over one counter, one Redis command at a time, in any order. All commands
-- are answered here, and no process is killed or restarted; what a worker does with a slot stands between `claim` and `release`.
use restore_engine.Common.Int.{ℤ, pos, incr, decr, is_neg, above}
use restore_engine.Common.{
  ℕ, zero, suc, ◌+◌, ◌≤◌, ◌≡◌, refl, some, List, [], ◌∷◌, get_elem?, set, arith, if◌then◌else◌,
}

-- Where a worker stands in `try_acquire_slot` or `release_slot`.
pub data Pc : Type 0 where
  idle : Pc  -- it has no slot
  rolling_back : Pc  -- INCR answered more than the cap, DECR is next
  holding : Pc  -- `try_acquire_slot` returned True
  clamping : Pc  -- DECR answered a negative number, SET to 0 is next

pub record System : Type 0 where
  pub slots : ℤ
  pub workers : List Pc

abbrev pub claimed : ℕ → ℤ → Pc
claimed cap n = if above n cap then rolling_back else holding

abbrev pub released : ℤ → Pc
released n = if is_neg n then clamping else idle

-- One worker's next command. Each claim has a limit of its own, as the worker loop reads it anew.
pub data Move (limit : ℕ) (slots : ℤ) : Pc → ℤ → Pc → Type 0 where
  claim : (cap : ℕ) → cap ≤ limit → Move limit slots idle (incr slots) (claimed cap (incr slots))
  roll_back : Move limit slots rolling_back (decr slots) idle
  release : Move limit slots holding (decr slots) (released (decr slots))
  clamp : Move limit slots clamping (pos 0) idle

pub data Step (limit : ℕ) (s : System) : System → Type 0 where
  pick :
      (i : ℕ) {p q : Pc} {n : ℤ}
      → get_elem? s.workers i ≡ some p
      → Move limit s.slots p n q
      → Step limit s (record { slots = n; workers = set s.workers i q })

-- The workers start with no slot and the counter at 0.
abbrev pub all_idle : ℕ → List Pc
all_idle zero = []
all_idle (suc n) = idle ∷ all_idle n

abbrev pub start : ℕ → System
start workers = record { slots = pos 0; workers = all_idle workers }

pub data Reach (limit workers : ℕ) : System → Type 0 where
  here : Reach limit workers (start workers)
  next : {s t : System} → Reach limit workers s → Step limit s t → Reach limit workers t

-- The sum of a weight over the workers, and how a step of one worker changes it.
unfoldable pub sum_by : (Pc → ℕ) → List Pc → ℕ
sum_by w [] = 0
sum_by w (p ∷ ps) = w p + sum_by w ps

abbrev pub has_slot : Pc → ℕ
has_slot holding = 1
has_slot _ = 0

-- What the counter counts for a worker: a slot, or an increment not yet taken back.
abbrev pub counted : Pc → ℕ
counted holding = 1
counted rolling_back = 1
counted _ = 0

abbrev pub is_clamping : Pc → ℕ
is_clamping clamping = 1
is_clamping _ = 0

unfoldable pub holders : System → ℕ
holders s = sum_by has_slot s.workers

pub sum_by-set :
    (w : Pc → ℕ) (ps : List Pc) (i : ℕ) (p q : Pc)
    → get_elem? ps i ≡ some p
    → sum_by w (set ps i q) + w p ≡ sum_by w ps + w q
unfolding sum_by
sum_by-set w [] i p q h = cc
sum_by-set w (x ∷ ps) zero p q h = ground arith
sum_by-set w (x ∷ ps) (suc i) p q h = omega (arith, sum_by-set w ps i p q h)

pub sum_by-idle : (w : Pc → ℕ) (n : ℕ) → w idle ≡ 0 → sum_by w (all_idle n) ≡ 0
unfolding sum_by
sum_by-idle w zero h = refl
sum_by-idle w (suc n) h = omega (arith, sum_by-idle w n h)

pub has_slot-le-counted : (ps : List Pc) → sum_by has_slot ps ≤ sum_by counted ps
unfolding sum_by
has_slot-le-counted [] = omega arith
has_slot-le-counted (p ∷ ps) = ground (arith, has_slot-le-counted ps)
