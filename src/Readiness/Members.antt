-- ===== src/Readiness/Members.antt =====
-- The stages of `run_plan_readiness` about the backups of the groups and the guest ids they would get.
use restore_engine.Common.{
  ℕ, ◌+◌, String, not, ◌&&◌, List, [], ◌∷◌, ◌++◌, Option, none, some, map, filter, contains, length,
  ltb, ◌==◌, nat_key, string_key, if◌then◌else◌,
}
use restore_engine.Common.Text.{strip}
use restore_engine.Common.Parse.{lower}
use Prim.Native.String.{compare}
use text.Mathlib.Text.{is_le}
use restore_engine.Runs.{Row}
use restore_engine.Runs.Tick.{is_nil}
use restore_engine.Runs.Start.{Location}
use restore_engine.Groups.{Backup, Group, best_from}
use restore_engine.Vmids.{Allocation, allocated, exhausted, allocate_sequential_free_vmids}
use restore_engine.Readiness.{Report, fail, ok_item, warn, TagReply, Probes}
use restore_engine.Schedules.Start.{need_tags}
use restore_engine.Readiness.Site.{location_nodes}

abbrev pub listed : Option (List Backup) → List Backup
listed none = []
listed (some backups) = backups

unfoldable pub check_backups : Option (List Backup) → Report → Report
check_backups none s = fail "pbs.backups" s
check_backups (some backups) s = s

-- What reading the tags leaves: the tags, and the report.
pub record Tagged : Type 0 where
  pub tags : List (String × List String)
  pub report : Report

unfoldable pub after_tags : Report → Option TagReply → Tagged
after_tags s none = record { tags = []; report = fail "tags.resolve" s }
after_tags s (some reply) = record {
  tags = reply.tags_by_id;
  report = if ltb 0 reply.tag_errors then warn "tags.resolve" s else s;
}

abbrev pub first_or : List String → String → String
first_or [] d = d
first_or (x ∷ xs) d = x

unfoldable pub check_tags : Probes → Location → String → List Group → List Backup → Report → Tagged
unfolding after_tags
check_tags probes loc cutoff groups backups s =
    if need_tags groups && not (is_nil backups)
    then (let candidates =
          map (λ e. e.1)
            (best_from [] (filter (λ b. is_le (compare b.row.timestamp cutoff)) backups)) in
        let node0 = first_or (location_nodes loc) loc.node in
        if node0 == ""
        then record { tags = []; report = warn "tags.resolve" s }
        else after_tags s (probes.resolve_tags candidates node0))
    else record { tags = []; report = s }

unfoldable pub check_rows : List (List Row) → Report → Report
check_rows [] s = s
check_rows (rows ∷ groups) s =
    check_rows groups (if is_nil rows then fail "group.empty" s else ok_item "group.members" s)

abbrev pub count_members : List (List Row) → ℕ
count_members [] = 0
count_members (rows ∷ groups) = length rows + count_members groups

abbrev pub restore_mode_of : Location → String
restore_mode_of loc = let m = lower (strip loc.restore_mode) in if m == "" then "normal" else m

abbrev pub in_use_of : Option (List ℕ) → List ℕ
in_use_of none = []
in_use_of (some vmids) = vmids

unfoldable pub check_vmids_listed : Option (List ℕ) → Report → Report
check_vmids_listed none s = fail "pve.vmids" s
check_vmids_listed (some vmids) s = s

-- The variables of the loop over the members of a DR restore.
pub record DrScan : Type 0 where
  pub conflicts : List ℕ
  pub seen_src : List ℕ
  pub report : Report

unfoldable pub dr_row : List ℕ → ℕ → DrScan → DrScan
dr_row in_use src s = record {
  conflicts = if contains src in_use then s.conflicts ++ src ∷ [] else s.conflicts;
  seen_src = src ∷ s.seen_src;
  report = if contains src s.seen_src then fail "vmid.dr_duplicate" s.report else s.report;
}

unfoldable pub dr_rows : List ℕ → List Row → DrScan → DrScan
unfolding dr_row
dr_rows in_use [] s = s
dr_rows in_use (row ∷ rows) s = dr_rows in_use rows (dr_row in_use row.vmid s)

unfoldable pub dr_groups : List ℕ → List (List Row) → DrScan → DrScan
unfolding dr_rows
dr_groups in_use [] s = s
dr_groups in_use (rows ∷ groups) s = dr_groups in_use groups (dr_rows in_use rows s)

unfoldable pub check_dr : List ℕ → List (List Row) → Report → Report
unfolding dr_groups
check_dr in_use group_rows s =
    let end = dr_groups in_use group_rows (record { conflicts = []; seen_src = []; report = s }) in
    if is_nil end.conflicts then ok_item "vmid.dr" end.report else fail "vmid.dr_in_use" end.report

abbrev pub start_of : Location → ℕ
start_of loc = if loc.vmid_start == 0 then 100 else loc.vmid_start

unfoldable pub check_allocation : Allocation → Report → Report
check_allocation exhausted s = fail "vmid.normal" s
check_allocation (allocated vmids next) s = ok_item "vmid.normal" s

unfoldable pub check_vmids : Probes → Location → List (List Row) → Report → Report
unfolding check_dr check_allocation check_vmids_listed
check_vmids probes loc group_rows s =
    let in_use = in_use_of probes.vmids_in_use in
    let s' = check_vmids_listed probes.vmids_in_use s in
    if count_members group_rows == 0
    then s
    else if restore_mode_of loc == "dr"
    then check_dr in_use group_rows s'
    else check_allocation
        (allocate_sequential_free_vmids in_use (start_of loc) (count_members group_rows)) s'
