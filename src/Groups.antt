-- ===== src/Groups.antt =====
-- plans.py: `resolve_group_rows`, the backups that a group of a plan stands for.
-- `is_match` is what `fnmatch` or `re` answers for one name and one pattern; a pattern that `re`
-- rejects matches nothing. `best` is a dict from VMIDs; the set of selected ids is the part of it that
-- is kept. The ranges are those that `normalize_vmid_ranges` let through, without a negative bound.
pub mod Best
pub mod Order
pub mod Newest
pub mod Candidates
pub mod Members
use restore_engine.Common.{
  ℕ, zero, suc, ◌+◌, String, Bool, true, false, not, ◌&&◌, ◌||◌, List, [], ◌∷◌, Option, none, some,
  map, filter, all, lookup, put, contains, ltb, leb, ◌==◌, nat_key, string_key, if◌then◌else◌,
}
use restore_engine.Common.Text.{strip}
use restore_engine.Common.Parse.{lower}
use restore_engine.Runs.{Row}
use restore_engine.Runs.Tick.{is_nil}
use Prim.Native.String.{compare}
use text.Mathlib.Text.{is_lt, is_le}

-- A row of the inventory of backups.
pub record Backup : Type 0 where
  pub row : Row
  pub source_id : String
  pub server_id : String

pub record VmidRange : Type 0 where
  pub start : ℕ
  pub end : ℕ

pub record Group : Type 0 where
  pub source_ids : List String
  pub vmids : List ℕ
  pub vmid_ranges : List VmidRange
  pub name_patterns : List String
  pub tags : List String
  pub exclude_vmids : List ℕ
  pub exclude_name_patterns : List String

abbrev pub any {ℓ} : {A : Type ℓ} → (A → Bool) → List A → Bool
any p [] = false
any p (x ∷ xs) = p x || any p xs

unfoldable pub vmid_in_ranges : ℕ → List VmidRange → Bool
vmid_in_ranges vmid ranges = any (λ r. leb r.start vmid && leb vmid r.end) ranges

unfoldable pub guest_name_matches : (String → String → Bool) → String → List String → Bool
guest_name_matches is_match name patterns =
    any (λ raw. not (strip raw == "") && is_match name (strip raw)) patterns

-- `row.get("source_id") or row.get("server_id") or ""`
abbrev pub source_of : Backup → String
source_of b = if b.source_id == "" then b.server_id else b.source_id

abbrev pub from_source : List String → Backup → Bool
from_source source_filter b =
    contains (lower (source_of b)) source_filter
    || contains (lower b.row.source_label) source_filter

unfoldable pub candidates_until : String → Group → List Backup → List Backup
candidates_until cutoff group backups =
    let source_filter = map lower group.source_ids in
    let in_time = filter (λ b. is_le (compare b.row.timestamp cutoff)) backups in
    if is_nil source_filter then in_time else filter (from_source source_filter) in_time

abbrev pub is_newer : Backup → Option Backup → Bool
is_newer b none = true
is_newer b (some current) = is_lt (compare current.row.timestamp b.row.timestamp)

-- The loop that fills `best`.
unfoldable pub best_from : List (ℕ × Backup) → List Backup → List (ℕ × Backup)
best_from best [] = best
best_from best (b ∷ bs) =
    best_from (if is_newer b (lookup b.row.vmid best) then put b.row.vmid b best else best) bs

abbrev no_tags : Option (List String) → List String
no_tags none = []
no_tags (some tags) = tags

-- The wanted tags, of which there is one at least, are all tags of the backup.
abbrev pub has_tags : List String → List (String × List String) → Backup → Bool
has_tags tags tags_by_backup_id b =
    let wanted = map lower (filter (λ t. not (strip t == "")) tags) in
    let row_tags = map lower (no_tags (lookup b.row.backup_id tags_by_backup_id)) in
    not (is_nil wanted) && all (λ t. contains t row_tags) wanted

module _ (is_match : String → String → Bool) (group : Group)
    (tags_by_backup_id : List (String × List String)) where
  -- The union of the selectors.
  unfoldable pub is_selected : ℕ → Backup → Bool
  unfolding vmid_in_ranges guest_name_matches
  is_selected vmid b =
      contains vmid group.vmids
      || vmid_in_ranges vmid group.vmid_ranges
      || guest_name_matches is_match b.row.name group.name_patterns
      || has_tags group.tags tags_by_backup_id b

  unfoldable pub is_excluded : ℕ → Backup → Bool
  unfolding guest_name_matches
  is_excluded vmid b =
      contains vmid group.exclude_vmids
      || guest_name_matches is_match b.row.name group.exclude_name_patterns

  abbrev pub is_member : ℕ × Backup → Bool
  is_member entry = is_selected entry.0 entry.1 && not (is_excluded entry.0 entry.1)

insert_entry : ℕ × Backup → List (ℕ × Backup) → List (ℕ × Backup)
insert_entry e [] = e ∷ []
insert_entry e (f ∷ fs) =
    let rest = insert_entry e fs in if leb e.0 f.0 then e ∷ f ∷ fs else f ∷ rest

-- `[best[v] for v in sorted(selected_ids)]`
unfoldable pub sorted_entries : List (ℕ × Backup) → List (ℕ × Backup)
unfolding insert_entry
sorted_entries [] = []
sorted_entries (e ∷ es) = insert_entry e (sorted_entries es)

unfoldable pub resolve_group_rows :
    (String → String → Bool)
    → Group
    → List Backup
    → String
    → List (String × List String)
    → List Backup
unfolding candidates_until best_from sorted_entries
resolve_group_rows is_match group backups cutoff tags_by_backup_id =
    map (λ e. e.1)
      (sorted_entries (
        filter (is_member is_match group tags_by_backup_id)
          (best_from [] (candidates_until cutoff group backups))))
