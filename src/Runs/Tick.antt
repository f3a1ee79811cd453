-- ===== src/Runs/Tick.antt =====
-- `advance_plan_runs` of plans.py for one active run, and its loop over the active set.
use restore_engine.Common.{
  ℕ, zero, suc, ◌+◌, String, Bool, true, false, not, ◌&&◌, ◌||◌, List, [], ◌∷◌, Option, none, some,
  map, filter, all, lookup, contains, length, get_or, set, ltb, leb, ◌==◌, nat_key, string_key,
  if◌then◌else◌,
}
use restore_engine.States.{run_completed, run_failed, run_cancelled, is_terminal}
use restore_engine.Jobs.{Redis, text_or, hget}
use restore_engine.Runs.{
  Row, Settings, jobs_failed, Run, Order, EnqueueFn, Reply, enqueued, raised, Plans, is_running,
  srem, save_plan_run, record_assigned_targets,
}

abbrev pub is_nil {ℓ} : {A : Type ℓ} → List A → Bool
is_nil [] = true
is_nil (x ∷ xs) = false

-- The group at an index, which is empty out of range: `idx < len(pending) and pending[idx]`.
abbrev pub group_at {ℓ} : {A : Type ℓ} → List (List A) → ℕ → List A
group_at groups idx = get_or groups idx []

-- A group with neither jobs nor rows, which both `while` loops pass over.
abbrev pub is_skipped : List (List String) → List (List Row) → ℕ → Bool
is_skipped jobs pending idx =
    ltb idx (length jobs) && is_nil (group_at jobs idx) && is_nil (group_at pending idx)

-- `while idx < len(job_ids_by_group) …: idx += 1`, which `length jobs` rounds end.
unfoldable pub skip_empty : ℕ → List (List String) → List (List Row) → ℕ → ℕ
skip_empty zero jobs pending idx = idx
skip_empty (suc fuel) jobs pending idx =
    let rest = skip_empty fuel jobs pending (idx + 1) in
    if is_skipped jobs pending idx then rest else idx

-- `(data or {}).get("state") or PENDING`
abbrev pub job_state : Redis → String → String
job_state r id = text_or (hget r id "state") "PENDING"

-- What one tick does with one active run.
pub data Advance : Type 0 where
  waits : Advance  -- nothing is saved
  saved : Redis → Run → Advance  -- the run goes on
  finished : Run → Advance  -- saved with an end status, then the report
  broken : Redis → Advance  -- `enqueue_fn` raised

unfoldable pub complete : String → ℕ → Run → Run
complete now idx run = record run {
  status = run_completed;
  finished_at = now;
  current_group_index = idx;
}

-- The node names that a later group is enqueued with.
abbrev pub first_or : List String → String → String
first_or [] d = d
first_or (x ∷ xs) d = x

abbrev pub run_nodes : Settings → List String
run_nodes s = if is_nil s.nodes && not (s.node == "") then s.node ∷ [] else s.nodes

abbrev pub group_settings : Settings → Settings
group_settings s = record s {
  node = if s.node == "" then first_or (run_nodes s) "" else s.node;
  nodes = run_nodes s;
}

-- The call for a group: its rows, and the VMID behind those that the run has used.
unfoldable pub group_order : ℕ → List Row → Run → Order
group_order idx rows run = record {
  rows = rows;
  settings = group_settings run.settings;
  vmid_start =
      if run.next_vmid == 0
      then (if run.vmid_start == 0 then 100 else run.vmid_start)
      else run.next_vmid;
  plan_run_id = run.id;
  plan_group_index = idx;
}

unfoldable pub after_enqueue : ℕ → Run → Reply → Advance
after_enqueue idx run (raised r') = broken r'
after_enqueue idx run (enqueued r' result) =
    saved r'
      (record (record_assigned_targets result
        (record run { job_ids_by_group = set run.job_ids_by_group idx result.job_ids })) {
          current_group_index = idx;
        })

-- The group has rows and no jobs: they are enqueued.
unfoldable pub enqueue_group : EnqueueFn → Redis → ℕ → List Row → Run → Advance
enqueue_group enqueue_fn r idx rows run =
    after_enqueue idx run (enqueue_fn (group_order idx rows run) r)

abbrev pub count_state : String → List String → ℕ
count_state s states = length (filter (λ x. x == s) states)

-- On to the next group with jobs or rows, or to the end of the run.
unfoldable pub next_group : String → Redis → ℕ → Run → Advance
unfolding complete
next_group now r next_idx run =
    if leb (length run.job_ids_by_group) next_idx
    then finished (complete now next_idx run)
    else saved r (record run { current_group_index = next_idx })

-- Some job was cancelled, none was completed, and each was cancelled or failed.
unfoldable pub is_all_cancelled : List String → Bool
is_all_cancelled states =
    contains "CANCELLED" states
    && not (contains "COMPLETED" states)
    && all (λ s. s == "CANCELLED" || s == "FAILED") states

abbrev pub halt : String → List String → ℕ → Run → Run
halt now states idx run = record run {
  status = run_failed;
  error = jobs_failed (count_state "FAILED" states) idx;
  finished_at = now;
}

-- All jobs of the group are finished.
unfoldable pub close_group : String → Redis → List String → ℕ → Run → Advance
close_group now r states idx run =
    let jobs = run.job_ids_by_group in
    let next_idx = skip_empty (length jobs) jobs run.pending_group_rows (idx + 1) in
    if contains "FAILED" states && run.halt_on_error
    then finished (halt now states idx run)
    else if is_all_cancelled states
    then finished (record run { status = run_cancelled; finished_at = now })
    else next_group now r next_idx run

-- The body of the loop over the active runs, from `idx` on.
unfoldable pub advance_group : EnqueueFn → String → Redis → ℕ → Run → Advance
unfolding complete
advance_group enqueue_fn now r idx run =
    let current_jobs = group_at run.job_ids_by_group idx in
    let states = map (job_state r) current_jobs in
    let rows = group_at run.pending_group_rows idx in
    if leb (length run.job_ids_by_group) idx
    then finished (complete now idx run)
    else if is_nil current_jobs
    then (if is_nil rows
        then saved r (record run { current_group_index = idx + 1 })
        else enqueue_group enqueue_fn r idx rows run)
    else if all is_terminal states
    then close_group now r states idx run
    else waits

unfoldable pub advance_run : EnqueueFn → String → Redis → Run → Advance
advance_run enqueue_fn now r run =
    advance_group enqueue_fn now r
      (skip_empty (length run.job_ids_by_group) run.job_ids_by_group run.pending_group_rows
        run.current_group_index)
      run

pub data Loop : Type 0 where
  done : Plans → ℕ → Loop  -- how many runs were touched
  failed : Plans → Loop  -- the exception of `enqueue_fn`

-- The loop over the active set. `finalize` is `_finalize_plan_run_report`, which writes the report,
-- the teardown, the assurance and the notification of a run that has ended.
module _ (enqueue_fn : EnqueueFn) (finalize : Run → Plans → Plans) (now : String) where
  settle : Plans → ℕ → Advance → Loop
  settle p touched waits = done p touched
  settle p touched (saved r run) =
      done (save_plan_run now run (record p { redis = r })) (touched + 1)
  settle p touched (finished run) = done (finalize run (save_plan_run now run p)) (touched + 1)
  settle p touched (broken r) = failed (record p { redis = r })

  advance_found : String → Plans → ℕ → Option Run → Loop
  advance_found run_id p touched none = done (record p { active = srem run_id p.active }) touched
  advance_found run_id p touched (some run) =
      if is_running run.status
      then settle p touched (advance_run enqueue_fn now p.redis run)
      else done (record p { active = srem run_id p.active }) touched

  advance_all : List String → Loop → Loop
  advance_all [] l = l
  advance_all (run_id ∷ active_ids) (failed p) = failed p
  advance_all (run_id ∷ active_ids) (done p touched) =
      advance_all active_ids (advance_found run_id p touched (lookup run_id p.runs))

  unfoldable pub advance_plan_runs : Plans → Loop
  unfolding advance_all advance_found settle
  advance_plan_runs p = advance_all p.active (done p 0)
