-- ===== src/Readiness/Run/Fresh.antt =====
-- The guest ids of a DR restore, when the check has no error about them.
use restore_engine.Common.{
  ℕ, ◌≡◌, refl, true, false, List, [], ◌∷◌, ◌++◌, contains, nat_key, arith, if◌then◌else◌,
}
use mathlib.Core.Path.{subst}
use restore_engine.Runs.{Row}
use restore_engine.Runs.Tick.{is_nil}
use restore_engine.Readiness.{Report, fail, ok_item}
use restore_engine.Readiness.Sizes.{flatten}
use restore_engine.Readiness.Members.{DrScan, dr_row, dr_rows, dr_groups, check_dr}

-- The source ids of the rows are not in use, not in `seen`, and all different.
abbrev pub IsFresh : List ℕ → List ℕ → List Row → Type 0
IsFresh in_use seen [] = Unit
IsFresh in_use seen (row ∷ rows) =
    (contains row.vmid in_use ≡ false)
    × (contains row.vmid seen ≡ false)
    × IsFresh in_use (row.vmid ∷ seen) rows

dr_rows-append :
    (in_use : List ℕ) (rows more : List Row) (s : DrScan)
    → dr_rows in_use (rows ++ more) s ≡ dr_rows in_use more (dr_rows in_use rows s)
unfolding dr_rows
dr_rows-append in_use [] more s = refl
dr_rows-append in_use (row ∷ rows) more s =
    dr_rows-append in_use rows more (dr_row in_use row.vmid s)

dr_groups-flatten :
    (in_use : List ℕ) (groups : List (List Row)) (s : DrScan)
    → dr_groups in_use groups s ≡ dr_rows in_use (flatten groups) s
unfolding dr_groups dr_rows
dr_groups-flatten in_use [] s = refl
dr_groups-flatten in_use (rows ∷ groups) s =
    rw dr_rows-append (dr_groups-flatten in_use groups (dr_rows in_use rows s))

is_nil-append : (xs : List ℕ) (x : ℕ) → is_nil (xs ++ x ∷ []) ≡ false
is_nil-append [] x = refl
is_nil-append (y ∷ xs) x = refl

-- One row: no conflict and no duplicate, when neither stands there behind it.
dr_row_clean :
    (in_use : List ℕ) (src : ℕ) (s : DrScan)
    → (dr_row in_use src s).report.errors ≡ 0
    → is_nil (dr_row in_use src s).conflicts ≡ true
    → (s.report.errors ≡ 0)
      × (is_nil s.conflicts ≡ true)
      × (contains src in_use ≡ false)
      × (contains src s.seen_src ≡ false)
unfolding dr_row fail
dr_row_clean in_use src s h k = ground (arith, is_nil-append s.conflicts src)

-- Neither an error nor a conflict goes away.
dr_rows-IsFresh :
    (in_use : List ℕ) (rows : List Row) (s : DrScan)
    → (dr_rows in_use rows s).report.errors ≡ 0
    → is_nil (dr_rows in_use rows s).conflicts ≡ true
    → (s.report.errors ≡ 0) × (is_nil s.conflicts ≡ true) × IsFresh in_use s.seen_src rows
unfolding dr_rows dr_row fail
dr_rows-IsFresh in_use [] s h k = (h, k, tt)
dr_rows-IsFresh in_use (row ∷ rows) s h k =
    let (errors, conflicts, rest) = dr_rows-IsFresh in_use rows (dr_row in_use row.vmid s) h k in
    let (errors', conflicts', free, new) = dr_row_clean in_use row.vmid s errors conflicts in
    (errors', conflicts', (free, new, rest))

dr_end_clean :
    (end : DrScan)
    → (if is_nil end.conflicts
        then ok_item "vmid.dr" end.report
        else fail "vmid.dr_in_use" end.report).errors
      ≡ 0
    → (end.report.errors ≡ 0) × (is_nil end.conflicts ≡ true)
unfolding ok_item fail
dr_end_clean end h = ground arith

pub check_dr-IsFresh :
    (in_use : List ℕ) (groups : List (List Row)) (s : Report)
    → (check_dr in_use groups s).errors ≡ 0
    → (s.errors ≡ 0) × IsFresh in_use [] (flatten groups)
unfolding check_dr fail ok_item
check_dr-IsFresh in_use groups s h =
    let start : DrScan = record { conflicts = []; seen_src = []; report = s } in
    let end_clean = dr_end_clean (dr_groups in_use groups start) h in
    let (errors, conflicts) =
      subst (λ e. (e.report.errors ≡ 0) × (is_nil e.conflicts ≡ true))
        (dr_groups-flatten in_use groups start) end_clean in
    let (errors', _, fresh) = dr_rows-IsFresh in_use (flatten groups) start errors conflicts in
    (errors', fresh)
