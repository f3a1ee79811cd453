-- ===== src/Examples/Checks.antt =====
-- A readiness check that stores VERIFIED, one that finds the id of a guest taken, and a tick of checks.
use restore_engine.Common.{
  false, if◌then◌else◌, Bool-cases, inl, inr, eq_iff, arith, ◌==◌, string_key, ◌≡◌, refl, true, [],
  ◌∷◌, Option, none, some, lookup, put, contains,
}
use restore_engine.Common.Text.{strip, lstrip, rstrip}
use restore_engine.Common.Parse.{lower}
use restore_engine.States.{PlanVerification, verified, not_verified}
use restore_engine.Runs.{Plan, Plans}
use restore_engine.Groups.{
  candidates_until, best_from, is_selected, is_excluded, sorted_entries, resolve_group_rows,
  vmid_in_ranges, guest_name_matches,
}
use restore_engine.Vmids.{allocate_sequential_free_vmids}
use restore_engine.Placement.Storage.{resolve_storage_for_node}
use restore_engine.Readiness.{fail, ok_item, warn, StorageInfo, Probes}
use restore_engine.Readiness.Sizes.{summarize_member_sizes, size_item}
use restore_engine.Readiness.Site.{
  check_group_ids, check_location, found_groups, check_group, check_groups, check_pbs, check_pve,
  check_nodes_listed, check_storage, check_mapped, check_storages, check_node, check_nodes,
}
use restore_engine.Readiness.Members.{
  check_backups, after_tags, check_tags, check_rows, check_vmids_listed, dr_row, dr_rows, dr_groups,
  check_dr, check_allocation, check_vmids,
}
use restore_engine.Readiness.Run.{
  Stored, tagged_at, check_site, check_at, check_start, outcome_of, check_sizes, check_empty,
  final_report, readiness_check, apply_check_result, run_plan_readiness,
}
use restore_engine.Schedules.{is_past, is_due_for_check, plans_due_for_check}
use restore_engine.Readiness.Tick.{
  CheckReply, checked, crashed, after_check, tick_checks, tick_plan_readiness,
}
use restore_engine.Readiness.Tick.Settled.{
  AreKeyed, IsCheckFn, run_plan_readiness-Stamps, tick_plan_readiness_settles,
}
use restore_engine.Examples.Schedules.{parse_five}
use restore_engine.Readiness.Run.Sound.{IsReady}
use restore_engine.Readiness.Run.Verified.{IsAccepted, run_plan_readiness_sound}
use restore_engine.Examples.{plan, no_plans}
use restore_engine.Examples.Starts.{location}
use restore_engine.Examples.Selections.{group, equal_names, inventory}

abbrev local_storage : StorageInfo
local_storage = record { id = "local"; usable_for_vm_disks = true; enabled = true }

abbrev good_probes : Probes
good_probes = record {
  probe_pbs = some true;
  test_pve = some true;
  connects = true;
  list_nodes = some ("pve1" ∷ "pve2" ∷ []);
  list_storages = λ node. some (local_storage ∷ []);
  list_backups = some inventory;
  resolve_tags = λ candidates node. none;
  vmids_in_use = some (300 ∷ []);
  estimate_size = λ bid. none;
}

-- The site restores under the own ids of the guests.
abbrev stored_dr : Stored
stored_dr = record {
  locations = ("site", record location { restore_mode = "dr" }) ∷ [];
  groups =
      ("g1", group) ∷ ("g2", record group { vmid_ranges = []; name_patterns = "mail" ∷ [] }) ∷ [];
  is_match = equal_names;
}

abbrev free_probes : Probes
free_probes = record good_probes { vmids_in_use = some (500 ∷ []) }

abbrev verdict_of : Option Plan → PlanVerification
verdict_of none = not_verified
verdict_of (some p) = p.verification

abbrev plans_checked : Probes → Plans
plans_checked probes = run_plan_readiness probes stored_dr "t1" "2026-01-31" plan no_plans

abbrev verified_plan : Plan
verified_plan = record plan { last_check_at = "t1"; verification = verified }

stores_verified : lookup "plan" (plans_checked free_probes).plans ≡ some verified_plan
unfolding run_plan_readiness apply_check_result readiness_check final_report check_empty check_sizes
    outcome_of check_start check_at check_site tagged_at check_vmids check_allocation check_dr
    dr_groups dr_rows dr_row check_vmids_listed check_rows check_tags after_tags check_backups
    check_nodes check_node check_storages check_mapped check_storage check_nodes_listed check_pve
    check_pbs check_groups check_group found_groups check_location check_group_ids size_item
    summarize_member_sizes fail ok_item warn resolve_storage_for_node allocate_sequential_free_vmids
    resolve_group_rows candidates_until best_from sorted_entries is_selected is_excluded
    vmid_in_ranges guest_name_matches lookup put contains strip lstrip rstrip lower
stores_verified = refl

-- The guest 300 is still in the cluster.
stores_not_verified : verdict_of (lookup "plan" (plans_checked good_probes).plans) ≡ not_verified
unfolding run_plan_readiness apply_check_result readiness_check final_report check_empty check_sizes
    outcome_of check_start check_at check_site tagged_at check_vmids check_allocation check_dr
    dr_groups dr_rows dr_row check_vmids_listed check_rows check_tags after_tags check_backups
    check_nodes check_node check_storages check_mapped check_storage check_nodes_listed check_pve
    check_pbs check_groups check_group found_groups check_location check_group_ids size_item
    summarize_member_sizes fail ok_item warn resolve_storage_for_node allocate_sequential_free_vmids
    resolve_group_rows candidates_until best_from sorted_entries is_selected is_excluded
    vmid_in_ranges guest_name_matches lookup put contains strip lstrip rstrip lower
stores_not_verified = refl

run_plan_readiness_sound_example :
    let group_rows = (outcome_of free_probes stored_dr "2026-01-31" plan).group_rows in
    IsReady free_probes stored_dr "2026-01-31" plan group_rows × IsAccepted plan group_rows
run_plan_readiness_sound_example =
    run_plan_readiness_sound free_probes stored_dr "t1" "2026-01-31" plan verified_plan no_plans
      stores_verified refl

-- The check of this tick crashes for every plan but the one of the site.
abbrev check_fn : Plan → Plans → CheckReply
check_fn p s =
    if p.id == "plan"
    then checked (run_plan_readiness free_probes stored_dr "t1" "2026-01-31" p s)
    else crashed s

check_fn-IsCheckFn : IsCheckFn "t1" check_fn
check_fn-IsCheckFn p s = elim (Bool-cases (p.id == "plan")) [
  | inl known ↦ rw known (run_plan_readiness-Stamps free_probes stored_dr "t1" "2026-01-31" p s)
  | inr other ↦ rw other refl
]

-- A plan whose check crashes, and what the tick stores of it.
abbrev bad_plan : Plan
bad_plan = record plan { id = "bad" }

abbrev bad_plans : Plans
bad_plans = record no_plans { plans = ("bad", bad_plan) ∷ [] }

abbrev crashed_plan : Plan
crashed_plan = record bad_plan { last_check_at = "t1"; verification = not_verified }

bad_plans-AreKeyed : AreKeyed bad_plans
unfolding lookup
bad_plans-AreKeyed id p e = ground (arith, eq_iff "bad" id)

bad_plan_found : lookup "bad" bad_plans.plans ≡ some bad_plan
unfolding lookup
bad_plan_found = refl

bad_plan_is_due : is_due_for_check parse_five 4 3600 bad_plan ≡ true
unfolding is_due_for_check is_past strip lstrip rstrip
bad_plan_is_due = refl

crash_is_stored :
    lookup "bad" (tick_plan_readiness check_fn "t1" parse_five 3600 4 bad_plans).plans
    ≡ some crashed_plan
unfolding tick_plan_readiness tick_checks after_check plans_due_for_check is_due_for_check is_past
    apply_check_result lookup put strip lstrip rstrip
crash_is_stored = refl

reads_stamp : parse_five (strip "t1") ≡ some 5
unfolding strip lstrip rstrip
reads_stamp = refl

tick_plan_readiness_settles_example : is_due_for_check parse_five 3000 3600 crashed_plan ≡ false
tick_plan_readiness_settles_example =
    tick_plan_readiness_settles check_fn "t1" parse_five 3600 4 5 bad_plans bad_plans-AreKeyed
      check_fn-IsCheckFn reads_stamp (omega arith) "bad" bad_plan crashed_plan 3000 bad_plan_found
      bad_plan_is_due crash_is_stored (omega arith)
