-- ===== src/Assurance/Final.antt =====
-- What a plan and a run are when the end of the run is done.
use restore_engine.Common.{
  ◌≡◌, refl, sym, ◌∙◌, ap, String, Bool, true, false, some, lookup, ◌==◌, nat_key, string_key,
  eq_iff, arith,
}
use mathlib.Core.Path.{subst, subst₂}
use restore_engine.Runs.{Run, Plan, Plans, is_running}
use restore_engine.Guests.{Proxmox}
use restore_engine.Assurance.{is_completed, evaluate_assurance_policy}
use restore_engine.Assurance.Policy.{is_assured, meets_policy, evaluate_assurance_exact}
use restore_engine.Assurance.Finalize.{
  EndState, Reporting, jobs_of, rto_of, finalize_plan_run_report,
}
use restore_engine.Assurance.Steps.{
  unfinished, StoredRun, attach_report-Noted, IsTorn, run_auto_teardown-Torn,
}
use restore_engine.Assurance.Verdict.{
  run_before, plan_before, last_run_after, Judged, Settled, noted, reported, torn, finalize-Settled,
}

pub StoredRun-before :
    (P : String → Type 0) (s run : Run) (p : Plans)
    → unfinished s ≡ unfinished run
    → StoredRun P s p
    → StoredRun P run p
StoredRun-before P s run p same (t, found, same_t, h) =
    (t, ap (λ k. lookup k p.runs) (sym (ap (λ x. x.id) same)) ∙ found, same_t ∙ same, h)

module _ {C : Type 0} (reporting : Reporting) (api : Proxmox C) (now stamp : String)
    (connects : Bool) (run : Run) (plan : Plan) (e : EndState C)
    (ended : is_running run.status ≡ false) (of_plan : run.plan_id ≡ plan.id)
    (planned : lookup plan.id e.plans.plans ≡ some plan)
    (stored : lookup run.id e.plans.runs ≡ some (record run { updated_at = stamp }))
    (enabled : plan.assurance_enabled ≡ true) (drill : run.drill ≡ true)
    (new : run.assurance_evaluated ≡ false) where
  abbrev finalized : EndState C
  finalized = finalize_plan_run_report reporting api now connects run e

  as_stored : StoredRun (λ s. s ≡ run.teardown_status) run e.plans
  as_stored = (record run { updated_at = stamp }, stored, refl, refl)

  settled : Settled reporting now (IsTorn api now connects run) run plan e.plans.redis finalized
  settled =
      let (same, status, start) =
        attach_report-Noted reporting now run plan e.plans of_plan planned as_stored in
      let before = noted reporting api now connects run e in
      let (((t, found, same_t, is_torn), torn_plan, torn_redis), _) =
        run_auto_teardown-Torn api now connects before plan e.plans.redis
          (reported reporting api now connects run e) (ap (λ x. is_running x.status) same ∙ ended)
          start in
      let torn_as : IsTorn api now connects run t.teardown_status =
        λ asked answered. is_torn (ap (λ x. x.auto_teardown) same ∙ asked) answered in
      finalize-Settled reporting api now connects run e plan ended of_plan planned as_stored enabled
        drill new (IsTorn api now connects run)
        (StoredRun-before (IsTorn api now connects run) before run
          (torn reporting api now connects run e).plans same (t, found, same_t, torn_as))
        torn_plan torn_redis

  -- The same of what is found in the store.
  settled_at :
      (run' : Run) (plan' : Plan)
      → lookup run.id finalized.plans.runs ≡ some run'
      → lookup plan.id finalized.plans.plans ≡ some plan'
      → Judged reporting now run plan finalized.plans run' plan'
        × IsTorn api now connects run run'.teardown_status
  settled_at run' plan' found found_plan =
      let (run'', plan'', (judged, is_torn, redis)) = settled in
      let same_run : run'' ≡ run' = cc in
      let same_plan : plan'' ≡ plan' = cc in
      (
        subst₂ (λ r q. Judged reporting now run plan finalized.plans r q) same_run same_plan judged,
        subst (λ r. IsTorn api now connects run r.teardown_status) same_run is_torn,
      )

  -- For an ended drill that has no verdict yet, whose plan has assurance enabled and is stored under
  -- its id: when the end of the run is done, whether reports can be saved, Proxmox answers and guests
  -- can be removed or not, the run is stored as evaluated and notified and is else as before, but for
  -- its report and its teardown; and its plan is stored, as before but for its report, its assurance
  -- and, where it had no time of a last run, that time; its verdict is that of the policy on that
  -- stored run, its teardown included, and its stored jobs.
  pub finalize_judges :
      (run' : Run) × (plan' : Plan) × ((lookup run.id finalized.plans.runs ≡ some run')
        × (lookup plan.id finalized.plans.plans ≡ some plan')
        × (run_before run' ≡ run_before run)
        × (plan_before plan' ≡ plan_before plan)
        × (run'.assurance_evaluated ≡ true)
        × (run'.notification_sent ≡ true)
        × (plan'.assurance_last_run_id ≡ run.id)
        × (plan'.last_run_at ≡ last_run_after now plan run)
        × (plan'.assurance_status
            ≡ (evaluate_assurance_policy plan' run'
                (jobs_of reporting run' finalized.plans)
                (rto_of reporting run')).0))
  finalize_judges = let (run', plan', (judged, is_torn, redis)) = settled in (run', plan', judged)

  -- For an ended drill that has no verdict yet and is to be torn down automatically, whose plan has
  -- assurance enabled and is stored under its id: if Proxmox can be reached and the plan is ASSURED
  -- when the end of the run is done, then the run has completed and its teardown is stored as
  -- "completed".
  pub finalize_assured :
      (run' : Run) (plan' : Plan)
      → lookup run.id finalized.plans.runs ≡ some run'
      → lookup plan.id finalized.plans.plans ≡ some plan'
      → is_assured plan'.assurance_status ≡ true
      → run.auto_teardown ≡ true
      → connects ≡ true
      → (is_completed run.status ≡ true) × (run'.teardown_status ≡ "completed")
  finalize_assured run' plan' found found_plan assured asked answered =
      let ((_, _, kept, _, _, _, _, _, verdict), is_torn) =
        settled_at run' plan' found found_plan in
      let jobs = jobs_of reporting run' finalized.plans in
      let exact = evaluate_assurance_exact plan' run' jobs (rto_of reporting run') in
      let policy : meets_policy plan' run' jobs (rto_of reporting run') ≡ true =
        sym exact ∙ sym (ap is_assured verdict) ∙ assured in
      let set : (run'.teardown_status == "") ≡ false = is_torn asked answered in
      let auto : run'.auto_teardown ≡ true = ap (λ x. x.auto_teardown) kept ∙ asked in
      let completed : (run'.teardown_status == "completed") ≡ true = ground arith in
      (
        sym (ap (λ x. is_completed x.status) kept) ∙ ground arith,
        (eq_iff run'.teardown_status "completed").0 completed,
      )
