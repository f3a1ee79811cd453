-- ===== src/Vmids.antt =====
-- pve_client.py, `allocate_sequential_free_vmids`: the free guest ids of a cluster.
-- The set `in_use` is a list; `int(desired_start)` is a number, as the API's `ge=100` has it.
pub mod Loop
pub mod Reference
pub mod Room
use restore_engine.Common.{
  ℕ, zero, suc, ◌+◌, ◌-◌, ◌*◌, max, Bool, ◌&&◌, List, [], ◌∷◌, ◌++◌, length, ltb, leb, contains,
  nat_key, if◌then◌else◌,
}

-- The variables of the `while` loop.
pub record Scan : Type 0 where
  pub out : List ℕ
  pub in_use : List ℕ
  pub v : ℕ

-- The body of the loop.
pub visit : Scan → Scan
unfolding contains
visit s =
    if contains s.v s.in_use
    then record s { v = s.v + 1 }
    else record { out = s.out ++ s.v ∷ []; in_use = s.v ∷ s.in_use; v = s.v + 1 }

-- `while len(out) < int(count) and v <= upper`
abbrev pub going : ℕ → ℕ → Scan → Bool
going count upper s = ltb (length s.out) count && leb s.v upper

pub scan : ℕ → ℕ → ℕ → Scan → Scan
unfolding visit
scan zero count upper s = s
scan (suc fuel) count upper s =
    let rest = scan fuel count upper (visit s) in if going count upper s then rest else s

-- `out[-1]` of the list, which is not empty where the code reads it.
abbrev pub last_or : List ℕ → ℕ → ℕ
last_or [] d = d
last_or (x ∷ xs) d = last_or xs x

pub data Allocation : Type 0 where
  allocated : List ℕ → ℕ → Allocation
  exhausted : Allocation  -- RuntimeError

abbrev pub first_candidate : ℕ → ℕ
first_candidate desired_start = max 100 desired_start

abbrev pub window : ℕ → ℕ
window count = max 5000 (count * 250)

abbrev pub finish : ℕ → Scan → Allocation
finish count s =
    if ltb (length s.out) count then exhausted else allocated s.out (last_or s.out 0 + 1)

-- The loop runs through `upper + 1 - v` values at most, which is its fuel.
unfoldable pub allocate_sequential_free_vmids : List ℕ → ℕ → ℕ → Allocation
unfolding scan
allocate_sequential_free_vmids in_use desired_start count =
    if ltb count 1
    then allocated [] desired_start
    else let v = first_candidate desired_start in
      let upper = v + window count in
      finish count
        (scan (suc (window count)) count upper (record { out = []; in_use = in_use; v = v }))
