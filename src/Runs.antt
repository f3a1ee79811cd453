-- ===== src/Runs.antt =====
-- plans.py: the plan runs in Redis, and one tick of `advance_plan_runs`.
-- A run is the dict that is stored as JSON; what a run takes over from its location for each call of
-- `enqueue_restores` is the record `Settings`. The fields of reports, notifications and assurance are
-- written by the steps after the end of a run, in Assurance/Finalize.
pub mod Tick
pub mod Ordered
pub mod Progress
pub mod Start
pub mod Teardown
pub mod Cancel
use restore_engine.Common.{
  ℕ, zero, suc, ◌+◌, ◌-◌, max, String, Bool, true, false, not, List, [], ◌∷◌, ◌++◌, Option, none,
  some, map, filter, put, lookup, contains, length, get_or, ltb, ◌==◌, nat_key, string_key,
  if◌then◌else◌,
}
use restore_engine.States.{PlanRunStatus, PlanVerification, PlanAssurance, running}
use restore_engine.Jobs.{Redis}
use restore_engine.Guests.Destroy.{Refusal}

-- A backup row of `pending_group_rows`.
pub record Row : Type 0 where
  pub backup_id : String
  pub vmid : ℕ
  pub name : String
  pub timestamp : String
  pub pve_storage : String
  pub voltail : String
  pub source_label : String
  pub size_bytes : ℕ

pub record Settings : Type 0 where
  pub node : String
  pub nodes : List String
  pub storage : String
  pub storage_by_node : List (String × String)
  pub live_restore : Bool
  pub bwlimit : ℕ
  pub restore_mode : String
  pub power_on : Bool
  pub qga_wait_sec : ℕ
  pub network_mode : String
  pub lab_bridge : String
  pub overwrite : Bool
  pub http_check_url : String

pub record Target : Type 0 where
  pub vmid : ℕ
  pub node : String

-- The text of `error` in a line of `teardown_results`, by what it says.
pub data EntryError : Type 0 where
  no_entry_error node_unknown already_gone : EntryError
  refusal : Refusal → EntryError
  message : String → EntryError

-- One line of `teardown_results`.
pub record Entry : Type 0 where
  pub vmid : ℕ
  pub node : String
  pub ok : Bool
  pub error : EntryError

-- The text of `error`, by what it says.
pub data RunError : Type 0 where
  no_error by_operator : RunError
  jobs_failed : ℕ → ℕ → RunError  -- how many, in which group

-- Why a verdict was given: the text of `assurance_detail`, by what it says.
pub data Detail : Type 0 where
  disabled not_a_drill bad_status bad_teardown no_jobs_qga qga_failed no_jobs_http no_http_url
        http_failed rto_exceeded :
      Detail
  within_policy : List String → Detail  -- the hostname warnings

pub record Run : Type 0 where
  pub id : String
  pub plan_id : String
  pub status : PlanRunStatus
  pub settings : Settings
  pub vmid_start : ℕ
  pub powered_off : Bool
  pub drill : Bool
  pub auto_teardown : Bool
  pub halt_on_error : Bool
  pub job_ids_by_group : List (List String)
  pub pending_group_rows : List (List Row)
  pub assigned_targets : List Target
  pub next_vmid : ℕ  -- 0 where the key is missing
  pub current_group_index : ℕ
  pub started_at : String
  pub finished_at : String
  pub error : RunError
  pub teardown_status : String
  pub teardown_results : List Entry
  pub report_id : String
  pub rto_sec : Option ℕ
  pub assurance_evaluated : Bool
  pub assurance_status : Option PlanAssurance  -- none where the key is missing
  pub assurance_detail : Option Detail
  pub notification_sent : Bool
  pub updated_at : String

-- What the code keeps of a plan between its runs.
pub record Plan : Type 0 where
  pub id : String
  pub name : String
  pub group_ids : List String
  pub location_id : String
  pub halt_on_error : Bool
  pub enabled : Bool
  pub verification : PlanVerification
  pub schedule_enabled : Bool
  pub schedule_interval_hours : ℕ
  pub schedule_drill : Bool
  pub last_scheduled_run_at : String
  pub last_check_at : String
  pub last_run_at : String
  pub assurance_enabled : Bool
  pub assurance_require_qga : Bool
  pub assurance_require_http : Bool
  pub assurance_max_rto_sec : ℕ
  pub assurance_status : PlanAssurance
  pub assurance_updated_at : String
  pub assurance_last_run_id : String
  pub assurance_last_rto_sec : Option ℕ
  pub assurance_detail : Option Detail  -- none where the text is empty
  pub last_run_report_id : String

-- The arguments that `enqueue_restores` is called with beside the settings, and its result.
pub record Order : Type 0 where
  pub rows : List Row
  pub settings : Settings
  pub vmid_start : ℕ
  pub plan_run_id : String
  pub plan_group_index : ℕ

pub record Enqueued : Type 0 where
  pub job_ids : List String
  pub proxmox_vmids_assigned : List ℕ
  pub proxmox_nodes_assigned : List String

-- The callback may raise: what it wrote to Redis stays, and the exception leaves the caller.
pub data Reply : Type 0 where
  enqueued : Redis → Enqueued → Reply
  raised : Redis → Reply

abbrev pub EnqueueFn : Type 0
EnqueueFn = Order → Redis → Reply

-- The runs with the set of the active ones, and the plans, beside the jobs.
pub record Plans : Type 0 where
  pub redis : Redis
  pub runs : List (String × Run)
  pub active : List String
  pub plans : List (String × Plan)

abbrev pub is_running : PlanRunStatus → Bool
is_running running = true
is_running _ = false

abbrev pub sadd : String → List String → List String
sadd id ids = if contains id ids then ids else ids ++ id ∷ []

abbrev pub srem : String → List String → List String
srem id = filter (λ x. not (x == id))

-- One transaction: the run, and its place in the active set.
unfoldable pub save_plan_run : String → Run → Plans → Plans
save_plan_run now run p = record p {
  runs = put run.id (record run { updated_at = now }) p.runs;
  active = if is_running run.status then sadd run.id p.active else srem run.id p.active;
}

-- The node that stands at the place of a VMID, or no node.
targets_from : List ℕ → List String → List Target
targets_from [] nodes = []
targets_from (v ∷ vmids) [] = record { vmid = v; node = "" } ∷ targets_from vmids []
targets_from (v ∷ vmids) (n ∷ nodes) = record { vmid = v; node = n } ∷ targets_from vmids nodes

-- `max(assigned_ids) + 1` over the ids that are not 0, or the old value where there is none.
next_after : ℕ → List Target → ℕ
next_after old [] = old
next_after old (t ∷ ts) =
    let rest = next_after old ts in if t.vmid == 0 then rest else max rest (t.vmid + 1)

abbrev has_vmid : List Target → Bool
has_vmid [] = false
has_vmid (t ∷ ts) = if t.vmid == 0 then has_vmid ts else true

unfoldable pub record_assigned_targets : Enqueued → Run → Run
unfolding targets_from next_after
record_assigned_targets result run =
    let targets =
      run.assigned_targets
      ++ targets_from result.proxmox_vmids_assigned result.proxmox_nodes_assigned in
    record run {
      assigned_targets = targets;
      next_vmid = if has_vmid targets then next_after 0 targets else run.next_vmid;
    }
