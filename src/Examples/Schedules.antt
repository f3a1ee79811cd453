-- ===== src/Examples/Schedules.antt =====
-- A tick of the schedules that starts the run of one plan, and the tick behind it.
use restore_engine.Common.{
  ℕ, ◌≡◌, refl, String, List, [], ◌∷◌, Option, none, some, lookup, put, contains, ◌==◌, string_key,
  if◌then◌else◌,
}
use restore_engine.Common.Text.{strip, lstrip, rstrip}
use restore_engine.Runs.{Plans, save_plan_run, record_assigned_targets}
use restore_engine.Runs.Start.{
  Location, start_plan_run, start_found, start_at, after_start, run_shell,
}
use restore_engine.Groups.{
  candidates_until, best_from, is_selected, is_excluded, sorted_entries, resolve_group_rows,
  vmid_in_ranges, guest_name_matches,
}
use restore_engine.Schedules.{
  run_started, start_failed, after_tick, tick_scheduled_plan_runs, tick_plans, tick_at,
  has_active_run, plans_due_for_schedule, is_due_for_schedule, is_past,
}
use restore_engine.Schedules.Start.{
  Inventory, plan_groups, scheduled_tags, start_with, started_reply, start_scheduled,
}
use restore_engine.Schedules.Single.{IsSingle, tick_scheduled-IsSingle}
use restore_engine.Examples.{plan, no_plans, enqueue_b}
use restore_engine.Examples.Starts.{location}
use restore_engine.Examples.Selections.{group, equal_names, inventory}

abbrev two_groups : Inventory
two_groups = record {
  backups = some inventory;
  read_tags = λ candidates node. some [];
  is_match = equal_names;
  groups = ("g1", group) ∷ ("g2", group) ∷ [];
}

abbrev new_id : Plans → String
new_id p = "run"

-- Every text is the time 5.
abbrev pub parse_five : String → Option ℕ
parse_five text = if text == "" then none else some 5

abbrev pub sites : List (String × Location)
sites = ("site", location) ∷ []

abbrev started_plans : Plans
started_plans =
    elim (start_scheduled two_groups enqueue_b "t1" "2026-01-31" new_id plan location no_plans) [
      | run_started p ↦ p
      | start_failed p ↦ p
    ]

no_plans-IsSingle : IsSingle no_plans
unfolding contains
no_plans-IsSingle pid a b ha hb = cc

abbrev after_first : Plans
after_first =
    tick_scheduled_plan_runs sites (start_scheduled two_groups enqueue_b "t1" "2026-01-31" new_id)
      "t2" parse_five 9 no_plans

tick_starts : after_first.active ≡ "run" ∷ []
unfolding start_scheduled start_with started_reply plan_groups scheduled_tags lookup put contains
    resolve_group_rows candidates_until best_from sorted_entries is_selected is_excluded
    vmid_in_ranges guest_name_matches strip lstrip rstrip start_plan_run start_found start_at
    after_start save_plan_run run_shell record_assigned_targets tick_scheduled_plan_runs tick_plans
    tick_at has_active_run plans_due_for_schedule is_due_for_schedule is_past after_tick
tick_starts = refl

tick_scheduled-IsSingle_example : IsSingle after_first
tick_scheduled-IsSingle_example =
    tick_scheduled-IsSingle two_groups enqueue_b "t1" "2026-01-31" new_id sites "t2" parse_five 9
      no_plans no_plans-IsSingle
