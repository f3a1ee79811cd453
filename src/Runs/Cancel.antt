-- ===== src/Runs/Cancel.antt =====
-- plans.py: `cancel_plan_run`. The statistics it keeps on the run are left out of the stored dict.
pub mod Met
pub mod Queue
pub mod Exact
use restore_engine.Common.{
  ℕ, zero, suc, ◌+◌, String, Bool, true, false, not, List, [], ◌∷◌, Option, none, some, filter,
  lookup, contains, ◌==◌, string_key, if◌then◌else◌,
}
use restore_engine.States.{run_cancelled}
use restore_engine.Jobs.{Hash, Redis, hset}
use restore_engine.Queue.{no_fields, lrem}
use restore_engine.Runs.{RunError, no_error, by_operator, Run, Plans, is_running, save_plan_run}
use restore_engine.Runs.Tick.{job_state}

-- The jobs, and what the loop counts.
pub record Cancelling : Type 0 where
  pub redis : Redis
  pub cancelled_pending : ℕ
  pub cancel_requested : ℕ

-- The mapping for a job that is PENDING.
abbrev pub cancelled_with_run : String → Hash
cancelled_with_run now =
    ("state", "CANCELLED")
    ∷ ("updated_at", now)
    ∷ ("error", "Cancelled with plan run")
    ∷ ("cancel_requested", "1")
    ∷ ("eta_sec", "")
    ∷ ("speed_bps", "")
    ∷ []

abbrev pub requested : String → Hash
requested now = ("cancel_requested", "1") ∷ ("updated_at", now) ∷ []

-- HSET and LREM, in one transaction.
unfoldable pub cancel_queued : String → String → Redis → Redis
cancel_queued now id r =
    let r' = hset id (cancelled_with_run now) r in record r' { queue = lrem id r.queue }

unfoldable pub cancel_job : String → String → Cancelling → Cancelling
cancel_job now id c =
    let state = job_state c.redis id in
    if no_fields (lookup id c.redis.jobs)
    then c
    else if state == "PENDING"
    then record c {
      redis = cancel_queued now id c.redis;
      cancelled_pending = c.cancelled_pending + 1;
    }
    else if state == "RESTORING"
    then record c {
      redis = hset id (requested now) c.redis;
      cancel_requested = c.cancel_requested + 1;
    }
    else c

unfoldable pub cancel_jobs : String → List String → Cancelling → Cancelling
unfolding cancel_job
cancel_jobs now [] c = c
cancel_jobs now (id ∷ ids) c = cancel_jobs now ids (cancel_job now id c)

unfoldable pub cancel_groups : String → List (List String) → Cancelling → Cancelling
unfolding cancel_jobs
cancel_groups now [] c = c
cancel_groups now (ids ∷ groups) c = cancel_groups now groups (cancel_jobs now ids c)

abbrev pub or_by_operator : RunError → RunError
or_by_operator no_error = by_operator
or_by_operator e = e

unfoldable pub cancelled_run : String → Run → Run
cancelled_run now run = record run {
  pending_group_rows = [];
  status = run_cancelled;
  finished_at = now;
  error = or_by_operator run.error;
}

-- A run that is RUNNING, up to the report.
unfoldable pub cancel_running : String → Run → Plans → Plans
unfolding cancel_groups cancelled_run
cancel_running now run p =
    let start : Cancelling = record {
      redis = p.redis;
      cancelled_pending = 0;
      cancel_requested = 0;
    } in
    let c = cancel_groups now run.job_ids_by_group start in
    save_plan_run now (cancelled_run now run) (record p { redis = c.redis })

pub data CancelReply : Type 0 where
  cancelled_plans : Plans → CancelReply
  unchanged : Run → CancelReply
  no_such_run : CancelReply  -- ValueError

unfoldable pub cancel_found : (Run → Plans → Plans) → String → Option Run → Plans → CancelReply
unfolding cancel_running
cancel_found finalize now none p = no_such_run
cancel_found finalize now (some run) p =
    if is_running run.status
    then cancelled_plans (finalize (cancelled_run now run) (cancel_running now run p))
    else unchanged run

-- `finalize` is `_finalize_plan_run_report`.
unfoldable pub cancel_plan_run : (Run → Plans → Plans) → String → String → Plans → CancelReply
unfolding cancel_found
cancel_plan_run finalize now run_id p = cancel_found finalize now (lookup run_id p.runs) p
