-- ===== src/Examples/Starts.antt =====
-- The start of a plan run: with jobs for its first group, and with a callback that raises.
use restore_engine.Common.{◌≡◌, refl, true, false, List, [], ◌∷◌, none}
use restore_engine.Runs.{Row, Run, Plans, record_assigned_targets}
use restore_engine.Runs.Start.{
  Location, Request, Started, started, broken, run_shell, after_start, start_at, start_found,
  start_plan_run,
}
use restore_engine.Runs.Start.Raised.{IsPhantom, Completes, start_raised-Completes}
use restore_engine.Examples.{row, plan, no_plans, enqueue_b, enqueue_raises}

abbrev pub location : Location
location = record {
  id = "loc";
  node = "pve1";
  nodes = "pve1" ∷ "pve2" ∷ [];
  storage = "local";
  storage_by_node = [];
  vmid_start = 100;
  bwlimit = 0;
  live_restore = true;
  power_on = true;
  qga_wait_sec = 60;
  network_mode = "none";
  lab_bridge = "";
  http_check_url = "";
  restore_mode = "normal";
  isolated = false;
}

abbrev drill : Request
drill = record {
  drill = true;
  auto_teardown = true;
  powered_off = none;
  power_on = false;
  qga_wait_sec = 0;
  overwrite = false;
}

abbrev recovery : Request
recovery = record drill { drill = false }

-- The first group is empty, so the run starts at the second.
abbrev pub groups : List (List Row)
groups = [] ∷ (row ∷ []) ∷ []

-- What a call returned and stored.
abbrev run_of : Started → Run → Run
run_of (started run p) d = run
run_of _ d = d

abbrev plans_of : Started → Plans
plans_of (started run p) = p
plans_of (broken p) = p
plans_of _ = no_plans

abbrev drill_start : Started
drill_start = start_plan_run enqueue_b "t0" "run" drill plan location groups no_plans

abbrev started_run : Run
started_run = run_of drill_start (run_shell "" "" 0 drill plan location)

starts_at_second : started_run.job_ids_by_group ≡ [] ∷ ("b" ∷ []) ∷ []
unfolding start_plan_run start_found start_at after_start run_shell record_assigned_targets
starts_at_second = refl

breaks :
    start_plan_run enqueue_raises "t0" "run" drill plan location groups no_plans
    ≡ broken
        (plans_of (start_plan_run enqueue_raises "t0" "run" drill plan location groups no_plans))
unfolding start_plan_run start_found start_at after_start
breaks = refl

start_raised-Completes_example :
    (run : Run) × IsPhantom "run"
      (plans_of (start_plan_run enqueue_raises "t0" "run" drill plan location groups no_plans))
      run
    × Completes run
start_raised-Completes_example =
    start_raised-Completes enqueue_raises "t0" "run" drill plan location groups no_plans
      (plans_of (start_plan_run enqueue_raises "t0" "run" drill plan location groups no_plans))
      breaks
