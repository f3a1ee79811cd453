-- ===== src/Examples.antt =====
-- Test data that the examples share: a plan run with two groups, and the Redis state of its jobs.
mod Ticks
mod Starts
mod Queues
mod Counters
mod Placements
mod Verdicts
mod Teardowns
mod Enqueues
mod Cancels
mod Selections
mod Reads
mod Workers
mod Schedules
mod Checks
mod Edits
mod Apis
mod Finals
use restore_engine.Common.{String, true, false, List, [], ◌∷◌, none}
use restore_engine.States.{running, verified, unknown}
use restore_engine.Jobs.{Redis}
use restore_engine.Runs.{Row, Settings, no_error, Run, Plan, Plans, EnqueueFn, enqueued, raised}

abbrev pub row : Row
row = record {
  backup_id = "vm/200/2026-01-01T00:00:00Z";
  vmid = 200;
  name = "db";
  timestamp = "2026-01-01T00:00:00Z";
  pve_storage = "pbs";
  voltail = "vm/200/2026-01-01T00:00:00Z";
  source_label = "main";
  size_bytes = 1024;
}

abbrev pub settings : Settings
settings = record {
  node = "pve1";
  nodes = "pve1" ∷ "pve2" ∷ [];
  storage = "local";
  storage_by_node = [];
  live_restore = false;
  bwlimit = 0;
  restore_mode = "normal";
  power_on = false;
  qga_wait_sec = 0;
  network_mode = "none";
  lab_bridge = "";
  overwrite = false;
  http_check_url = "";
}

-- The first group has the job "a"; the second has a row and is not enqueued yet.
abbrev pub run_one : Run
run_one = record {
  id = "run";
  plan_id = "plan";
  status = running;
  settings = settings;
  vmid_start = 100;
  powered_off = true;
  drill = true;
  auto_teardown = false;
  halt_on_error = true;
  job_ids_by_group = ("a" ∷ []) ∷ [] ∷ [];
  pending_group_rows = (row ∷ []) ∷ (row ∷ []) ∷ [];
  assigned_targets = [];
  next_vmid = 101;
  current_group_index = 0;
  started_at = "t0";
  finished_at = "";
  error = no_error;
  teardown_status = "";
  teardown_results = [];
  report_id = "";
  rto_sec = none;
  assurance_evaluated = false;
  assurance_status = none;
  assurance_detail = none;
  notification_sent = false;
  updated_at = "t0";
}

abbrev pub plan : Plan
plan = record {
  id = "plan";
  name = "Nightly";
  group_ids = "g1" ∷ "g2" ∷ [];
  location_id = "site";
  halt_on_error = true;
  enabled = true;
  verification = verified;
  schedule_enabled = true;
  schedule_interval_hours = 24;
  schedule_drill = true;
  last_scheduled_run_at = "";
  last_check_at = "";
  last_run_at = "";
  assurance_enabled = true;
  assurance_require_qga = true;
  assurance_require_http = false;
  assurance_max_rto_sec = 600;
  assurance_status = unknown;
  assurance_updated_at = "";
  assurance_last_run_id = "";
  assurance_last_rto_sec = none;
  assurance_detail = none;
  last_run_report_id = "";
}

abbrev pub redis_with : List (String × List (String × String)) → Redis
redis_with jobs = record { jobs = jobs; logs = []; queue = []; paused = none }

abbrev pub a_completed : Redis
a_completed = redis_with (("a", ("job_id", "a") ∷ ("state", "COMPLETED") ∷ []) ∷ [])

abbrev pub no_plans : Plans
no_plans = record { redis = a_completed; runs = []; active = []; plans = ("plan", plan) ∷ [] }

-- A callback that names one job, whose hash another process writes later.
abbrev pub enqueue_b : EnqueueFn
enqueue_b order r = enqueued r (record {
  job_ids = "b" ∷ [];
  proxmox_vmids_assigned = 101 ∷ [];
  proxmox_nodes_assigned = "pve1" ∷ [];
})

abbrev pub enqueue_raises : EnqueueFn
enqueue_raises order r = raised r
