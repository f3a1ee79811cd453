-- ===== src/Examples/Apis.antt =====
-- The start of a plan by hand: a recovery that the isolation gate stops, and a drill that it lets through.
use restore_engine.Common.{◌≡◌, refl, true, false, not, ◌&&◌, ◌||◌, none, some, lookup, string_key}
use restore_engine.Common.Text.{strip, lstrip, rstrip}
use restore_engine.Common.Parse.{lower}
use restore_engine.Jobs.{text_or}
use restore_engine.Runs.{Run, Plan, Plans, record_assigned_targets}
use restore_engine.Runs.Start.{
  Location, start_plan_run, start_found, start_at, after_start, run_shell, plan_power, first_group,
  is_verified,
}
use restore_engine.Api.{
  RunPlanBody, RunReply, run_started, denied, not_isolated, normalize_net_mode,
  assert_overwrite_confirm, assert_power_on_isolation, isolation_gate, start_resolved, behind,
  run_at, run_found, api_run_plan,
}
use restore_engine.Api.Boots.{IsGuarded}
use restore_engine.Api.Guarded.{api_run_plan_guards}
use restore_engine.Examples.{no_plans, enqueue_b, run_one}
use restore_engine.Examples.Starts.{groups}
use restore_engine.Examples.Schedules.{sites}

abbrev body : RunPlanBody
body = record {
  location_id = none;
  drill = false;
  auto_teardown = false;
  powered_off = none;
  power_on = false;
  qga_wait_sec = 0;
  allow_unverified = false;
  confirm_dr = false;
  overwrite = false;
  confirm_overwrite = false;
  allow_non_isolated = false;
}

abbrev call : RunPlanBody → RunReply
call b = api_run_plan (λ plan loc. some groups) enqueue_b "t0" "run" b true sites "plan" no_plans

-- The location powers its guests on, and is not isolated.
recovery_denied : call body ≡ denied not_isolated
unfolding api_run_plan run_found run_at behind start_resolved isolation_gate
    assert_power_on_isolation assert_overwrite_confirm normalize_net_mode lookup strip lstrip rstrip
    lower start_plan_run start_found start_at after_start first_group
recovery_denied = refl

abbrev live_drill : RunPlanBody
live_drill = record body { drill = true; powered_off = some false }

abbrev run_in : RunReply → Run
run_in (run_started run p) = run
run_in _ = run_one

abbrev plans_in : RunReply → Plans
plans_in (run_started run p) = p
plans_in _ = no_plans

abbrev live_run : Run
live_run = run_in (call live_drill)

drill_started : call live_drill ≡ run_started live_run (plans_in (call live_drill))
unfolding api_run_plan run_found run_at behind start_resolved isolation_gate
    assert_power_on_isolation assert_overwrite_confirm normalize_net_mode lookup strip lstrip rstrip
    lower start_plan_run start_found start_at after_start first_group
drill_started = refl

restores_live : (live_run.settings.power_on || live_run.settings.live_restore) ≡ true
unfolding api_run_plan run_found run_at behind start_resolved isolation_gate
    assert_power_on_isolation assert_overwrite_confirm normalize_net_mode lookup strip lstrip rstrip
    lower start_plan_run start_found start_at after_start first_group run_shell plan_power
    record_assigned_targets
restores_live = refl

api_run_plan_guards_example :
    (p : Plan) × (loc : Location) × (lookup "plan" no_plans.plans ≡ some p)
    × (p.enabled ≡ true)
    × ((true && not (is_verified p.verification) && not false) ≡ false)
    × (lookup (strip (text_or none p.location_id)) sites ≡ some loc)
    × IsGuarded live_drill loc
api_run_plan_guards_example =
    api_run_plan_guards (λ plan loc. some groups) enqueue_b "t0" "run" live_drill true sites "plan"
      no_plans (plans_in (call live_drill)) live_run refl drill_started restores_live
