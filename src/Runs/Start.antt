-- ===== src/Runs/Start.antt =====
-- `start_plan_run` of plans.py: a new run, and the jobs of its first group with backups.
pub mod Power
pub mod Raised
pub mod Ordered
use restore_engine.Common.{
  ℕ, zero, suc, ◌+◌, max, String, Bool, true, false, not, ◌&&◌, ◌||◌, List, [], ◌∷◌, ◌++◌, Option,
  none, some, map, all, set, put, length, ltb, leb, ◌==◌, nat_key, string_key, if◌then◌else◌,
}
use restore_engine.Common.Text.{strip}
use restore_engine.States.{PlanRunStatus, running, PlanVerification, verified, needs_verified}
use restore_engine.Jobs.{Redis}
use restore_engine.Runs.{
  Row, Settings, no_error, Run, Plan, Order, EnqueueFn, Reply, enqueued, raised, Enqueued, Plans,
  save_plan_run, record_assigned_targets,
}
use restore_engine.Runs.Tick.{is_nil}

-- A normalised location. `restore_mode` and `network_mode` are those that `normalize_location` lets
-- through, so the calls that clean them again change nothing.
pub record Location : Type 0 where
  pub id : String
  pub node : String
  pub nodes : List String
  pub storage : String
  pub storage_by_node : List (String × String)
  pub vmid_start : ℕ
  pub bwlimit : ℕ
  pub live_restore : Bool
  pub power_on : Bool
  pub qga_wait_sec : ℕ
  pub network_mode : String
  pub lab_bridge : String
  pub http_check_url : String
  pub restore_mode : String
  pub isolated : Bool

-- The keyword arguments of the call.
pub record Request : Type 0 where
  pub drill : Bool
  pub auto_teardown : Bool
  pub powered_off : Option Bool
  pub power_on : Bool
  pub qga_wait_sec : ℕ
  pub overwrite : Bool

-- Whether the guests of a run are started, and how.
pub record GuestPower : Type 0 where
  pub power_on : Bool
  pub qga_sec : ℕ
  pub powered_off : Bool
  pub live : Bool

abbrev or_default : Option Bool → Bool → Bool
or_default none d = d
or_default (some b) d = b

pub power_of : Bool → ℕ → Request → Location → GuestPower
power_of do_power_on qga_sec q loc =
    let powered_off =
      if do_power_on then false else or_default q.powered_off (q.drill && not do_power_on) in
    record {
      power_on = do_power_on;
      qga_sec = qga_sec;
      powered_off = powered_off;
      live = loc.live_restore && not powered_off;
    }

-- The location's power-on and guest-agent wait are defaults of recovery runs alone.
unfoldable pub plan_power : Request → Location → GuestPower
unfolding power_of
plan_power q loc =
    if q.drill
    then power_of (q.power_on || ltb 0 q.qga_wait_sec) q.qga_wait_sec q loc
    else let do_power_on = q.power_on || loc.power_on in
      let qga_sec =
        if leb q.qga_wait_sec 0 && do_power_on then loc.qga_wait_sec else q.qga_wait_sec in
      power_of (ltb 0 qga_sec || do_power_on) qga_sec q loc

-- The index of the first group with rows.
unfoldable pub first_group : List (List Row) → ℕ → Option ℕ
first_group [] i = none
first_group ([] ∷ groups) i = first_group groups (i + 1)
first_group ((row ∷ rows) ∷ groups) i = some i

abbrev pub rows_at : List (List Row) → ℕ → List Row
rows_at [] i = []
rows_at (rows ∷ groups) zero = rows
rows_at (rows ∷ groups) (suc i) = rows_at groups i

abbrev pub empty_groups : List String → List (List String)
empty_groups ids = map (λ _. []) ids

-- The run as it is saved before any job is made. `run_id` is the fresh uuid.
unfoldable pub run_shell : String → String → ℕ → Request → Plan → Location → Run
unfolding plan_power
run_shell now run_id start_idx q plan loc =
    let power = plan_power q loc in
    record {
      id = run_id;
      plan_id = plan.id;
      status = running;
      settings = record {
        node = loc.node;
        nodes = if is_nil loc.nodes then loc.node ∷ [] else loc.nodes;
        storage = loc.storage;
        storage_by_node = loc.storage_by_node;
        live_restore = power.live;
        bwlimit = loc.bwlimit;
        restore_mode = loc.restore_mode;
        power_on = power.power_on;
        qga_wait_sec = power.qga_sec;
        network_mode = loc.network_mode;
        lab_bridge = strip loc.lab_bridge;
        overwrite = q.overwrite;
        http_check_url = strip loc.http_check_url;
      };
      vmid_start = loc.vmid_start;
      powered_off = power.powered_off;
      drill = q.drill;
      auto_teardown = q.auto_teardown && q.drill;
      halt_on_error = plan.halt_on_error;
      job_ids_by_group = empty_groups plan.group_ids;
      pending_group_rows = [];
      assigned_targets = [];
      next_vmid = 0;
      current_group_index = start_idx;
      started_at = now;
      finished_at = "";
      error = no_error;
      teardown_status = "";
      teardown_results = [];
      report_id = "";
      rto_sec = none;
      assurance_evaluated = false;
      assurance_status = none;
      assurance_detail = none;
      notification_sent = false;
      updated_at = now;
    }

abbrev pub is_verified : PlanVerification → Bool
is_verified verified = true
is_verified _ = false

-- A verified plan has to be verified again after a run.
unfoldable pub plan_after : String → Plan → Plan
plan_after now plan = record plan {
  last_run_at = now;
  verification = if is_verified plan.verification then needs_verified else plan.verification;
}

pub data Started : Type 0 where
  started : Run → Plans → Started
  refused : Started  -- ValueError, before anything is saved
  broken : Plans → Started  -- the exception of `enqueue_fn`, after the shell is saved

-- What follows the enqueue: the job ids and targets, then the rows of all groups, then the plan.
unfoldable pub after_start :
    String → ℕ → List (List Row) → Plan → Location → Run → Plans → Reply → Started
after_start now start_idx group_rows plan loc run p (raised r') = broken (record p { redis = r' })
after_start now start_idx group_rows plan loc run p (enqueued r' result) =
    let placed =
      record_assigned_targets result
        (record run { job_ids_by_group = set run.job_ids_by_group start_idx result.job_ids }) in
    let numbered = record placed {
      next_vmid = if placed.next_vmid == 0 then loc.vmid_start else placed.next_vmid;
    } in
    let stashed = record numbered { pending_group_rows = group_rows } in
    let saved = save_plan_run now stashed (save_plan_run now numbered (record p { redis = r' })) in
    started stashed (record saved { plans = put plan.id (plan_after now plan) saved.plans })

-- The order for the first group has the location's own VMID start.
unfoldable pub start_order : ℕ → List Row → Run → Order
start_order start_idx rows run = record {
  rows = rows;
  settings = run.settings;
  vmid_start = run.vmid_start;
  plan_run_id = run.id;
  plan_group_index = start_idx;
}

unfoldable pub start_at :
    EnqueueFn → String → String → Request → Plan → Location → List (List Row) → Plans → ℕ → Started
start_at enqueue_fn now run_id q plan loc group_rows p start_idx =
    let run = run_shell now run_id start_idx q plan loc in
    let shell_saved = save_plan_run now run p in
    after_start now start_idx group_rows plan loc run shell_saved
      (enqueue_fn (start_order start_idx (rows_at group_rows start_idx) run) shell_saved.redis)

unfoldable pub start_found :
    EnqueueFn
    → String
    → String
    → Request
    → Plan
    → Location
    → List (List Row)
    → Plans
    → Option ℕ
    → Started
start_found enqueue_fn now run_id q plan loc group_rows p none = refused
start_found enqueue_fn now run_id q plan loc group_rows p (some start_idx) =
    start_at enqueue_fn now run_id q plan loc group_rows p start_idx

unfoldable pub start_plan_run :
    EnqueueFn → String → String → Request → Plan → Location → List (List Row) → Plans → Started
unfolding first_group
start_plan_run enqueue_fn now run_id q plan loc group_rows p =
    if length group_rows == length plan.group_ids
    then start_found enqueue_fn now run_id q plan loc group_rows p (first_group group_rows 0)
    else refused
