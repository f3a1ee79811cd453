-- ===== src/Readiness/Run.antt =====
-- `run_plan_readiness` as a whole, and `apply_check_result`, which stores the verdict on the plan.
pub mod Stages
pub mod Fresh
pub mod Rows
pub mod Ready
pub mod Sound
pub mod Verified
use restore_engine.Common.{
  ℕ, zero, suc, String, Bool, true, false, not, ◌&&◌, List, [], ◌∷◌, Option, none, some, map,
  lookup, put, ◌==◌, nat_key, string_key, if◌then◌else◌,
}
use restore_engine.Common.Text.{strip}
use restore_engine.States.{PlanVerification, verified, not_verified}
use restore_engine.Runs.{Row, Plan, Plans}
use restore_engine.Runs.Tick.{is_nil}
use restore_engine.Runs.Start.{Location}
use restore_engine.Groups.{Backup, Group, any, resolve_group_rows}
use restore_engine.Readiness.{Item, Report, no_report, fail, Probes}
use restore_engine.Readiness.Sizes.{SizeSummary, summarize_member_sizes, size_item}
use restore_engine.Readiness.Site.{
  check_group_ids, find_location, check_location, found_groups, check_groups, check_pbs,
  has_session, check_pve, check_nodes_listed, location_nodes, check_nodes,
}
use restore_engine.Readiness.Members.{
  listed, check_backups, Tagged, check_tags, check_rows, count_members, check_vmids,
}

-- What the caller reads from outside beside the probes: the stored locations and groups.
pub record Stored : Type 0 where
  pub locations : List (String × Location)
  pub groups : List (String × Group)
  pub is_match : String → String → Bool

abbrev pub member_rows :
    (String → String → Bool) → String → List (String × List String) → List Backup → Group → List Row
member_rows is_match cutoff tags backups group =
    map (λ b. b.row) (resolve_group_rows is_match group backups cutoff tags)

-- `group_rows`, and the report.
pub record SiteResult : Type 0 where
  pub group_rows : List (List Row)
  pub report : Report

pub record Check : Type 0 where
  pub ok : Bool
  pub checked_at : String
  pub cutoff : String
  pub member_count : ℕ
  pub items : List Item
  pub size_summary : Option SizeSummary

module _ (probes : Probes) (stored : Stored) (cutoff : String) where
  unfoldable pub tagged_at : Location → List Group → Report → Tagged
  tagged_at loc groups s =
      let nodes_s =
        check_nodes probes loc (location_nodes loc) (check_nodes_listed probes.list_nodes s) in
      check_tags probes loc cutoff groups (listed probes.list_backups)
        (check_backups probes.list_backups nodes_s)

  -- The part that needs the location and a session.
  unfoldable pub check_site : Location → List Group → Report → SiteResult
  unfolding tagged_at
  check_site loc groups s =
      let tagged = tagged_at loc groups s in
      let group_rows =
        map (member_rows stored.is_match cutoff tagged.tags (listed probes.list_backups)) groups in
      record {
        group_rows = group_rows;
        report = check_vmids probes loc group_rows (check_rows group_rows tagged.report);
      }

  unfoldable pub check_at : Option Location → List Group → Report → SiteResult
  check_at none groups s = record { group_rows = []; report = s }
  check_at (some loc) groups s =
      if has_session probes then check_site loc groups s else record { group_rows = []; report = s }

  unfoldable pub check_start : Plan → Report
  check_start plan = check_pve probes (
      check_pbs probes (
        check_groups stored.groups plan.group_ids (
          check_location (find_location stored.locations (strip plan.location_id))
            (check_group_ids plan.group_ids no_report))))

  unfoldable pub outcome_of : Plan → SiteResult
  outcome_of plan =
      check_at (find_location stored.locations (strip plan.location_id))
        (found_groups stored.groups plan.group_ids) (check_start plan)

abbrev pub has_rows : List (List Row) → Bool
has_rows group_rows = any (λ rows. not (is_nil rows)) group_rows

unfoldable pub check_sizes : Probes → SiteResult → Report
check_sizes probes o =
    if has_rows o.group_rows
    then size_item (summarize_member_sizes probes.estimate_size o.group_rows) o.report
    else o.report

abbrev has_location : Option Location → Bool
has_location none = false
has_location (some loc) = true

-- The last error, for groups that are there and have no members.
unfoldable pub check_empty : Option Location → List Group → ℕ → Report → Report
check_empty location groups member_count s =
    if s.errors == 0
      && (member_count == 0)
      && has_location location
      && not (is_nil groups)
      && not (any (λ item. item.code == "group.empty") s.items)
    then fail "plan.empty" s
    else s

unfoldable pub final_report : Probes → Stored → String → Plan → Report
final_report probes stored cutoff plan =
    let o = outcome_of probes stored cutoff plan in
    check_empty (find_location stored.locations (strip plan.location_id))
      (found_groups stored.groups plan.group_ids) (count_members o.group_rows)
      (check_sizes probes o)

unfoldable pub readiness_check : Probes → Stored → String → String → Plan → Check
readiness_check probes stored checked_at cutoff plan =
    let o = outcome_of probes stored cutoff plan in
    let s = final_report probes stored cutoff plan in
    record {
      ok = s.errors == 0;
      checked_at = checked_at;
      cutoff = cutoff;
      member_count = count_members o.group_rows;
      items = s.items;
      size_summary =
          if has_rows o.group_rows
          then some (summarize_member_sizes probes.estimate_size o.group_rows)
          else none;
    }

-- The plan with the verdict; the check itself and its report are not kept here.
unfoldable pub apply_check_result : Plan → Check → Plans → Plans
apply_check_result plan check p = record p {
  plans =
      put plan.id
        (record plan {
          last_check_at = check.checked_at;
          verification = if check.ok then verified else not_verified;
        })
        p.plans;
}

-- With `persist`, as the worker calls it.
unfoldable pub run_plan_readiness : Probes → Stored → String → String → Plan → Plans → Plans
unfolding readiness_check apply_check_result
run_plan_readiness probes stored checked_at cutoff plan p =
    apply_check_result plan (readiness_check probes stored checked_at cutoff plan) p
