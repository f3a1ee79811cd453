-- ===== src/Examples/Cancels.antt =====
-- The cancel of a run with a waiting job and a job that is being restored.
use restore_engine.Common.{◌≡◌, refl, true, [], ◌∷◌, lookup, put, put_all, contains, string_key}
use restore_engine.Jobs.{Redis, hget, hset, hgetall, cancel_requested}
use restore_engine.Runs.{Run, Plans, save_plan_run}
use restore_engine.Runs.Tick.{job_state}
use restore_engine.Runs.Cancel.{
  no_such_run, cancel_queued, cancel_job, cancel_jobs, cancel_groups, cancelled_run, cancel_running,
  cancel_found, cancel_plan_run,
}
use restore_engine.Examples.{run_one, redis_with, no_plans}

abbrev two_jobs : Redis
two_jobs =
    record (redis_with
      (("a", ("state", "PENDING") ∷ []) ∷ ("b", ("state", "RESTORING") ∷ []) ∷ [])) {
        queue = "a" ∷ [];
      }

abbrev busy_run : Run
busy_run = record run_one { job_ids_by_group = ("a" ∷ "b" ∷ []) ∷ [] ∷ [] }

abbrev busy_plans : Plans
busy_plans = record no_plans {
  redis = two_jobs;
  runs = ("run", busy_run) ∷ [];
  active = "run" ∷ [];
}

states_after :
    let p' = cancel_running "t5" busy_run busy_plans in
    (job_state p'.redis "a" ≡ "CANCELLED")
    × (job_state p'.redis "b" ≡ "RESTORING")
    × (cancel_requested p'.redis "b" ≡ true)
    × (p'.redis.queue ≡ [])
    × (p'.active ≡ [])
unfolding cancel_running cancel_groups cancel_jobs cancel_job cancel_queued cancelled_run
    save_plan_run cancel_requested hset hget hgetall lookup put put_all contains
states_after = (refl, refl, refl, refl, refl)

unknown_run : cancel_plan_run (λ run p. p) "t5" "other" busy_plans ≡ no_such_run
unfolding cancel_plan_run cancel_found lookup
unknown_run = refl
