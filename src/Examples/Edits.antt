-- ===== src/Examples/Edits.antt =====
-- A location that can be stored, and updates of a plan with and without a change of its groups.
use restore_engine.Common.{◌≡◌, refl, false, [], ◌∷◌, none, some, lookup, put, contains, string_key}
use restore_engine.Common.Text.{strip, lstrip, rstrip}
use restore_engine.Common.Parse.{lower}
use restore_engine.States.{PlanVerification, verified, needs_verified}
use restore_engine.Runs.{Plan, Plans}
use restore_engine.Runs.Start.{Location}
use restore_engine.Locations.{
  LocationForm, accepted, rejected, unmapped, safe_qga_sec, normalize_network_mode, settle_nodes,
  unique_names, read_storages, fill_storages, build_location, place_storages, check_mode,
  check_bwlimit, check_vmid_start, at_nodes, normalize_location,
}
use restore_engine.Locations.Valid.{IsValid, normalize_location-IsValid}
use restore_engine.PlanEdits.{
  absent, given, PlanForm, clean_ids, Updated, updated, normalize_plan, settle_plan, groups_changed,
  location_changed, membership_changed, merged_verification, save_normalized, update_found,
  update_plan,
}
use restore_engine.PlanEdits.Membership.{update_plan_keeps_verified}
use restore_engine.Examples.{plan, no_plans}

abbrev site_form : LocationForm
site_form = record {
  name = "Site";
  node = "pve2";
  storage = "local";
  nodes = "pve1" ∷ " pve2 " ∷ "pve1" ∷ [];
  vmid_start = some 500;
  bwlimit = some 0;
  restore_mode = some "DR";
  storage_by_node = ("pve1", "ceph") ∷ [];
  live_restore = false;
  power_on = false;
  qga_wait_sec = some 9000;
  network_mode = none;
  lab_bridge = "";
  http_check_url = "";
  isolated = false;
}

abbrev site : Location
site = record {
  id = "site";
  node = "pve2";
  nodes = "pve2" ∷ "pve1" ∷ [];
  storage = "local";
  storage_by_node = ("pve1", "ceph") ∷ ("pve2", "local") ∷ [];
  vmid_start = 500;
  bwlimit = 0;
  live_restore = false;
  power_on = false;
  qga_wait_sec = 3600;
  network_mode = "none";
  lab_bridge = "";
  http_check_url = "";
  restore_mode = "dr";
  isolated = false;
}

accepts_site : normalize_location site_form "site" ≡ accepted site
unfolding normalize_location at_nodes check_vmid_start check_bwlimit check_mode place_storages
    build_location fill_storages read_storages unique_names settle_nodes safe_qga_sec
    normalize_network_mode lookup put contains strip lstrip rstrip lower
accepts_site = refl

-- Without a storage of its own the form has none for its node.
rejects_unmapped :
    normalize_location (record site_form { storage = " " }) "site"
    ≡ rejected (unmapped ("pve2" ∷ []))
unfolding normalize_location at_nodes check_vmid_start check_bwlimit check_mode place_storages
    build_location fill_storages read_storages unique_names settle_nodes safe_qga_sec
    normalize_network_mode lookup put contains strip lstrip rstrip lower
rejects_unmapped = refl

normalize_location-IsValid_example : IsValid site
normalize_location-IsValid_example = normalize_location-IsValid site_form "site" site accepts_site

abbrev rename : PlanForm
rename = record {
  name = given "Weekly";
  group_ids = given (" g1" ∷ "g2" ∷ "" ∷ []);
  location_id = absent;
  halt_on_error = absent;
  enabled = absent;
  schedule_enabled = absent;
  schedule_interval_hours = absent;
  schedule_drill = absent;
  assurance_enabled = absent;
  assurance_require_qga = absent;
  assurance_require_http = absent;
  assurance_max_rto_sec = absent;
  verification = absent;
}

abbrev swap_groups : PlanForm
swap_groups = record rename { group_ids = given ("g2" ∷ "g1" ∷ []) }

abbrev renamed : Plan
renamed = record plan { name = "Weekly" }

abbrev renamed_plans : Plans
renamed_plans = record no_plans { plans = ("plan", renamed) ∷ [] }

renames : update_plan rename "plan" no_plans ≡ updated renamed renamed_plans
unfolding update_plan update_found save_normalized normalize_plan settle_plan merged_verification
    membership_changed groups_changed location_changed lookup put strip lstrip rstrip
renames = refl

abbrev verification_in : Updated → PlanVerification
verification_in (updated p s) = p.verification
verification_in _ = needs_verified

order_counts : verification_in (update_plan swap_groups "plan" no_plans) ≡ needs_verified
unfolding update_plan update_found save_normalized normalize_plan settle_plan merged_verification
    membership_changed groups_changed location_changed lookup put strip lstrip rstrip
order_counts = refl

stored_plan : lookup "plan" no_plans.plans ≡ some plan
unfolding lookup
stored_plan = refl

stored_ids : clean_ids plan.group_ids ≡ plan.group_ids
unfolding strip lstrip rstrip
stored_ids = refl

stored_site : strip plan.location_id ≡ plan.location_id
unfolding strip lstrip rstrip
stored_site = refl

update_plan_keeps_verified_example :
    (plan.verification ≡ verified)
    × (renamed.group_ids ≡ plan.group_ids)
    × (renamed.location_id ≡ plan.location_id)
update_plan_keeps_verified_example =
    update_plan_keeps_verified rename "plan" no_plans renamed_plans plan renamed stored_plan
      stored_ids stored_site refl renames refl
