-- ===== src/Assurance/Ended.antt =====
-- The tick that ends a drill: `advance_plan_runs` saves the run and does the end of the run at once.
use mathlib.Core.Path.{subst}
use restore_engine.Common.{
  ℕ, ◌≡◌, refl, sym, ◌∙◌, ap, String, Bool, true, false, ◌&&◌, List, some, all, map, contains,
  length, leb, lookup, lookup-put_self, string_key, by_test,
}
use restore_engine.States.{is_terminal, running}
use restore_engine.Jobs.{Redis}
use restore_engine.Runs.{
  no_error, Run, Plan, EnqueueFn, Reply, enqueued, raised, is_running, save_plan_run,
}
use restore_engine.Runs.Tick.{
  is_nil, group_at, job_state, Advance, waits, saved, finished, broken, complete, group_order,
  after_enqueue, enqueue_group, next_group, is_all_cancelled, close_group, advance_group,
  advance_run,
}
use restore_engine.Guests.{Proxmox}
use restore_engine.Assurance.{evaluate_assurance_policy}
use restore_engine.Assurance.Finalize.{
  EndState, Reporting, jobs_of, rto_of, finalize_plan_run_report,
}
use restore_engine.Assurance.Verdict.{run_before, plan_before, last_run_after}
use restore_engine.Assurance.Final.{finalize_judges}

-- A run but for what ends it.
abbrev unended : Run → Run
unended run = record run {
  status = running;
  error = no_error;
  finished_at = "";
  current_group_index = 0;
}

-- A run that is finished has an end status and is else the same run.
Ends : Run → Advance → Type 0
Ends run waits = Unit
Ends run (saved r run') = Unit
Ends run (finished run') = (is_running run'.status ≡ false) × (unended run' ≡ unended run)
Ends run (broken r) = Unit

module _ (enqueue_fn : EnqueueFn) (now : String) (r : Redis) (idx : ℕ) (run : Run) where
  after_enqueue-Ends : (reply : Reply) → Ends run (after_enqueue idx run reply)
  unfolding Ends after_enqueue
  after_enqueue-Ends (enqueued r' result) = tt
  after_enqueue-Ends (raised r') = tt

  next_group-Ends : (next : ℕ) → Ends run (next_group now r next run)
  unfolding Ends next_group complete
  next_group-Ends next =
      by_test (Ends run) (leb (length run.job_ids_by_group) next) (λ _. (refl, refl)) (λ _. tt)

  close_group-Ends : (states : List String) → Ends run (close_group now r states idx run)
  unfolding Ends close_group
  close_group-Ends states =
      by_test (Ends run) (contains "FAILED" states && run.halt_on_error) (λ _. (refl, refl))
        λ _.
          by_test (Ends run) (is_all_cancelled states) (λ _. (refl, refl)) (λ _. next_group-Ends _)

  advance_group-Ends : Ends run (advance_group enqueue_fn now r idx run)
  unfolding Ends advance_group enqueue_group complete
  advance_group-Ends =
      let jobs = group_at run.job_ids_by_group idx in
      let rows = group_at run.pending_group_rows idx in
      by_test (Ends run) (leb (length run.job_ids_by_group) idx) (λ _. (refl, refl))
        λ _.
          by_test (Ends run) (is_nil jobs)
            (λ _.
              by_test (Ends run) (is_nil rows) (λ _. tt)
                (λ _. after_enqueue-Ends (enqueue_fn (group_order idx rows run) r)))
            λ _.
              by_test (Ends run) (all is_terminal (map (job_state r) jobs))
                (λ _. close_group-Ends (map (job_state r) jobs)) (λ _. tt)

advance_run-Ends :
    (enqueue_fn : EnqueueFn) (now : String) (r : Redis) (run : Run)
    → Ends run (advance_run enqueue_fn now r run)
unfolding advance_run
advance_run-Ends enqueue_fn now r run = advance_group-Ends enqueue_fn now r _ run

-- For an active drill with no verdict yet, whose plan has assurance enabled and is stored under its
-- id: if a tick ends the run and does the end of the run, as the loop over the active runs does,
-- then, whatever its jobs did and whether reports can be saved, Proxmox answers and guests can be
-- removed or not, the run is stored as evaluated and notified and is else as the tick left it, but
-- for its report and its teardown; and its plan is stored, as before but for its report, its
-- assurance and, where it had no time of a last run, that time, which is the end of the run; its
-- verdict is that of the policy on that stored run, its teardown included, and its stored jobs.
pub tick_judges :
    {C : Type 0} (enqueue_fn : EnqueueFn) (reporting : Reporting) (api : Proxmox C) (now : String)
    (connects : Bool) (run run' : Run) (plan : Plan) (e : EndState C)
    → advance_run enqueue_fn now e.plans.redis run ≡ finished run'
    → run.plan_id ≡ plan.id
    → lookup plan.id e.plans.plans ≡ some plan
    → plan.assurance_enabled ≡ true
    → run.drill ≡ true
    → run.assurance_evaluated ≡ false
    → let saved = record e { plans = save_plan_run now run' e.plans } in
      let e' = finalize_plan_run_report reporting api now connects run' saved in
      (final : Run) × (judged : Plan) × ((lookup run.id e'.plans.runs ≡ some final)
        × (lookup plan.id e'.plans.plans ≡ some judged)
        × (run_before final ≡ run_before run')
        × (plan_before judged ≡ plan_before plan)
        × (final.assurance_evaluated ≡ true)
        × (final.notification_sent ≡ true)
        × (judged.assurance_last_run_id ≡ run.id)
        × (judged.last_run_at ≡ last_run_after now plan run')
        × (judged.assurance_status
            ≡ (evaluate_assurance_policy judged final
                (jobs_of reporting final e'.plans)
                (rto_of reporting final)).0))
unfolding Ends save_plan_run
tick_judges enqueue_fn reporting api now connects run run' plan e ends of_plan planned enabled drill
      new =
    let (ended, same) : Ends run (finished run') =
      subst (Ends run) ends (advance_run-Ends enqueue_fn now e.plans.redis run) in
    let same_id : run'.id ≡ run.id = ap (λ x. x.id) same in
    let start = record e { plans = save_plan_run now run' e.plans } in
    let (
      final,
      judged,
      (found, found_plan, kept, plan_kept, evaluated, sent, last, last_run, verdict),
    ) =
      finalize_judges reporting api now now connects run' plan start ended
        (ap (λ x. x.plan_id) same ∙ of_plan) planned (lookup-put_self run'.id _ e.plans.runs)
        enabled (ap (λ x. x.drill) same ∙ drill) (ap (λ x. x.assurance_evaluated) same ∙ new) in
    let e' = finalize_plan_run_report reporting api now connects run' start in
    (
      final,
      judged,
      (
        ap (λ k. lookup k e'.plans.runs) (sym same_id) ∙ found,
        found_plan,
        kept,
        plan_kept,
        evaluated,
        sent,
        last ∙ same_id,
        last_run,
        verdict,
      ),
    )
