-- ===== src/Readiness/Sizes.antt =====
-- `summarize_member_sizes` of plans.py, and the item of the check about it.
use restore_engine.Common.{
  ℕ, suc, ◌+◌, String, not, ◌&&◌, List, [], ◌∷◌, ◌++◌, Option, none, some, map, length, contains,
  ltb, ◌==◌, string_key, if◌then◌else◌,
}
use restore_engine.Common.Text.{strip}
use restore_engine.Runs.{Row}
use restore_engine.Readiness.{Report, warn, ok_item}

pub record SizeSummary : Type 0 where
  pub backup_count : ℕ
  pub gross_bytes : ℕ
  pub nonzero_bytes : Option ℕ
  pub nonzero_estimated_count : ℕ
  pub nonzero_missing_count : ℕ
  pub estimate_errors : List String  -- the backups, without the messages

-- `by_id` with the sizes of the rows.
pub by_backup_id : List (String × ℕ) → List Row → List (String × ℕ)
by_backup_id seen [] = seen
by_backup_id seen (row ∷ rows) =
    let bid = strip row.backup_id in
    let known = contains bid (map (λ kv. kv.0) seen) in
    by_backup_id (if not (bid == "") && not known then seen ++ (bid, row.size_bytes) ∷ [] else seen)
      rows

abbrev pub sum_sizes : List (String × ℕ) → ℕ
sum_sizes [] = 0
sum_sizes ((bid, size) ∷ sizes) = size + sum_sizes sizes

-- The variables of the loop over the backups.
pub record Estimates : Type 0 where
  pub nonzero : ℕ
  pub estimated : ℕ
  pub missing : ℕ
  pub failed : List String

pub add_estimate : Estimates → String → Option (Option ℕ) → Estimates
add_estimate s bid none = record s {
  missing = suc s.missing;
  failed = if ltb (length s.failed) 8 then s.failed ++ bid ∷ [] else s.failed;
}
add_estimate s bid (some none) = record s { missing = suc s.missing }
add_estimate s bid (some (some nz)) = record s {
  nonzero = s.nonzero + nz;
  estimated = suc s.estimated;
}

pub estimate_all : (String → Option (Option ℕ)) → Estimates → List (String × ℕ) → Estimates
unfolding add_estimate
estimate_all estimate_size_fn s [] = s
estimate_all estimate_size_fn s ((bid, size) ∷ sizes) =
    estimate_all estimate_size_fn (add_estimate s bid (estimate_size_fn bid)) sizes

abbrev pub flatten : List (List Row) → List Row
flatten [] = []
flatten (rows ∷ groups) = rows ++ flatten groups

unfoldable pub summarize_member_sizes : (String → Option (Option ℕ)) → List (List Row) → SizeSummary
unfolding by_backup_id estimate_all
summarize_member_sizes estimate_size_fn group_rows =
    let by_id = by_backup_id [] (flatten group_rows) in
    let e =
      estimate_all estimate_size_fn
        (record { nonzero = 0; estimated = 0; missing = 0; failed = [] }) by_id in
    record {
      backup_count = length by_id;
      gross_bytes = sum_sizes by_id;
      nonzero_bytes = if ltb 0 e.estimated then some e.nonzero else none;
      nonzero_estimated_count = e.estimated;
      nonzero_missing_count = e.missing;
      estimate_errors = e.failed;
    }

unfoldable pub size_item : SizeSummary → Report → Report
size_item sizes s =
    if ltb 0 sizes.nonzero_estimated_count && ltb 0 sizes.nonzero_missing_count
    then warn "plan.sizes" s
    else if ltb 0 sizes.nonzero_estimated_count
    then ok_item "plan.sizes" s
    else warn "plan.sizes" s
