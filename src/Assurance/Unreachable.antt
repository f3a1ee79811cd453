-- ===== src/Assurance/Unreachable.antt =====
-- The end of a drill whose automatic teardown cannot reach Proxmox.
use mathlib.Core.Path.{subst}
use restore_engine.Common.{
  ℕ, ◌≡◌, refl, sym, ◌∙◌, ap, String, Bool, true, false, ◌&&◌, List, Option, some, lookup, ◌==◌,
  nat_key, string_key, eq_iff, arith, by_test,
}
use restore_engine.Jobs.{Hash, Redis}
use restore_engine.Runs.{Run, Plan, is_running}
use restore_engine.Runs.Tick.{is_nil}
use restore_engine.Runs.Teardown.{collect_plan_run_targets, teardown_plan_run}
use restore_engine.Guests.{Proxmox}
use restore_engine.Assurance.{evaluate_assurance_policy}
use restore_engine.Assurance.Finalize.{
  EndState, Reporting, reload, apply_assurance_from_run, jobs_of, rto_of, attach_report,
  after_auto_teardown, run_auto_teardown, send_plan_run_notification, judge_and_notify,
  finalize_plan_run_report,
}
use restore_engine.Assurance.Steps.{unfinished, StoredRun, StoredPlan, attach_report-Noted}
use restore_engine.Assurance.Verdict.{finalize-Settled}
use restore_engine.Assurance.Final.{StoredRun-before}

-- A teardown that is not noted does not count.
evaluate_untorn :
    (plan : Plan) (run : Run) (jobs : List Hash) (rto : Option ℕ)
    → run.teardown_status ≡ ""
    → evaluate_assurance_policy plan run jobs rto
      ≡ evaluate_assurance_policy plan (record run { auto_teardown = false }) jobs rto
unfolding evaluate_assurance_policy
evaluate_untorn plan run jobs rto blank =
    let is_blank : (run.teardown_status == "") ≡ true = (eq_iff run.teardown_status "").1 blank in
    ground arith

judge_and_notify-session :
    {C : Type 0} (reporting : Reporting) (now : String) (run : Run) (e : EndState C)
    → (judge_and_notify reporting now run e).session ≡ e.session
unfolding judge_and_notify send_plan_run_notification
judge_and_notify-session {C = C} reporting now run e =
    let kept : EndState C → Type 0 = λ x. x.session ≡ e.session in
    by_test kept (reload run (apply_assurance_from_run reporting now run e.plans)).notification_sent
      (λ _. refl) (λ _. refl)

run_auto_teardown-away :
    {C : Type 0} (api : Proxmox C) (now : String) (run : Run) (e : EndState C)
    → run.teardown_status ≡ ""
    → is_running run.status ≡ false
    → is_nil (collect_plan_run_targets e.plans.redis run) ≡ false
    → run_auto_teardown api now false run e ≡ e
unfolding run_auto_teardown teardown_plan_run after_auto_teardown
run_auto_teardown-away api now run e blank ended targets =
    by_test (λ x. x ≡ e) (run.auto_teardown && run.teardown_status == "")
      (λ _. rw (blank, ended, targets) refl) (λ _. refl)

same_targets :
    (r r' : Redis) (run run' : Run)
    → r ≡ r'
    → unfinished run ≡ unfinished run'
    → collect_plan_run_targets r run ≡ collect_plan_run_targets r' run'
unfolding collect_plan_run_targets
same_targets r r' run run' same_redis same =
    ap (λ x. collect_plan_run_targets r x) same
    ∙ ap (λ x. collect_plan_run_targets x run') same_redis

finalize-session :
    {C : Type 0} (reporting : Reporting) (api : Proxmox C) (now : String) (connects : Bool)
    (run : Run) (e : EndState C)
    → let (noted, p) = attach_report reporting now run e.plans in
      (finalize_plan_run_report reporting api now connects run e).session
      ≡ (run_auto_teardown api now connects noted (record e { plans = p })).session
unfolding finalize_plan_run_report
finalize-session reporting api now connects run e =
    let (noted, p) = attach_report reporting now run e.plans in
    let torn = run_auto_teardown api now connects noted (record e { plans = p }) in
    judge_and_notify-session reporting now (reload noted torn.plans) torn

-- For an ended drill that has neither a verdict nor a teardown yet, whose plan has assurance enabled
-- and is stored under its id: if it has guests to remove and Proxmox cannot be reached when the run
-- ends, then nothing is sent and no teardown is noted on the run, which is stored as evaluated; and
-- its plan gets the verdict that it would get if no teardown had been asked for.
pub finalize_unreachable :
    {C : Type 0} (reporting : Reporting) (api : Proxmox C) (now stamp : String) (run : Run)
    (plan : Plan) (e : EndState C)
    → is_running run.status ≡ false
    → run.plan_id ≡ plan.id
    → lookup plan.id e.plans.plans ≡ some plan
    → lookup run.id e.plans.runs ≡ some (record run { updated_at = stamp })
    → plan.assurance_enabled ≡ true
    → run.drill ≡ true
    → run.assurance_evaluated ≡ false
    → run.teardown_status ≡ ""
    → is_nil (collect_plan_run_targets e.plans.redis run) ≡ false
    → let e' = finalize_plan_run_report reporting api now false run e in
      (e'.session ≡ e.session)
      × ((run' : Run) × (plan' : Plan) × ((lookup run.id e'.plans.runs ≡ some run')
            × (lookup plan.id e'.plans.plans ≡ some plan')
            × (run'.teardown_status ≡ "")
            × (run'.assurance_evaluated ≡ true)
            × (plan'.assurance_status
                ≡ (evaluate_assurance_policy plan'
                    (record run' { auto_teardown = false })
                    (jobs_of reporting run' e'.plans)
                    (rto_of reporting run')).0)))
finalize_unreachable {C = C} reporting api now stamp run plan e ended of_plan planned stored enabled
      drill new blank targets =
    let as_stored : StoredRun (λ s. s ≡ run.teardown_status) run e.plans =
      (record run { updated_at = stamp }, stored, refl, refl) in
    let (same, status, ((s, found, same_s, status_s), kept_plan, redis)) =
      attach_report-Noted reporting now run plan e.plans of_plan planned as_stored in
    let (noted, p) = attach_report reporting now run e.plans in
    let start : EndState C = record e { plans = p } in
    let away : run_auto_teardown api now false noted start ≡ start =
      run_auto_teardown-away api now noted start (status ∙ blank)
        (ap (λ x. is_running x.status) same ∙ ended)
        (ap is_nil (same_targets p.redis e.plans.redis noted run redis same) ∙ targets) in
    let is_blank : String → Type 0 = λ status. status ≡ "" in
    let untorn : StoredRun is_blank run p =
      StoredRun-before is_blank noted run p same (s, found, same_s, status_s ∙ status ∙ blank) in
    let (run', plan', ((found', found_plan', _, _, evaluated, _, _, _, verdict), blank', _)) =
      finalize-Settled reporting api now false run e plan ended of_plan planned as_stored enabled
        drill new is_blank (subst (λ x. StoredRun is_blank run x.plans) (sym away) untorn)
        (subst (λ x. StoredPlan plan x.plans) (sym away) kept_plan)
        (ap (λ x. x.plans.redis) away ∙ redis) in
    (
      finalize-session reporting api now false run e ∙ ap (λ x. x.session) away,
      (
        run',
        plan',
        (
          found',
          found_plan',
          blank',
          evaluated,
          verdict ∙ ap (λ v. v.0) (evaluate_untorn plan' run' _ _ blank'),
        ),
      ),
    )
