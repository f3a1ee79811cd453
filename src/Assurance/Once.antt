-- ===== src/Assurance/Once.antt =====
-- The end of a run that has been done already.
use mathlib.Core.Path.{subst}
use restore_engine.Common.{
  ◌≡◌, refl, sym, ◌∙◌, ap, String, Bool, true, false, some, lookup, nat_key, string_key,
}
use restore_engine.Runs.{Run, Plan, Plans, is_running}
use restore_engine.Guests.{Proxmox}
use restore_engine.Assurance.Finalize.{
  EndState, Reporting, reload, attach_report, run_auto_teardown, apply_assurance_from_run,
  send_plan_run_notification, judge_and_notify, finalize_plan_run_report,
}
use restore_engine.Assurance.Steps.{unfinished, attach_report-Noted, run_auto_teardown-Torn}
use restore_engine.Assurance.Verdict.{reload-found}

apply_assurance-done :
    (reporting : Reporting) (now : String) (s : Run) (p : Plans)
    → s.assurance_evaluated ≡ true
    → apply_assurance_from_run reporting now s p ≡ p
unfolding apply_assurance_from_run
apply_assurance-done reporting now s p evaluated = rw evaluated refl

send-done :
    {C : Type 0} (now : String) (s : Run) (e : EndState C)
    → s.notification_sent ≡ true
    → send_plan_run_notification now s e ≡ e
unfolding send_plan_run_notification
send-done now s e sent = rw sent refl

-- A run that is evaluated and notified passes the last steps.
judge_and_notify-done :
    {C : Type 0} (reporting : Reporting) (now : String) (s : Run) (e : EndState C)
    → s.assurance_evaluated ≡ true
    → s.notification_sent ≡ true
    → lookup s.id e.plans.runs ≡ some s
    → judge_and_notify reporting now s e ≡ e
unfolding judge_and_notify
judge_and_notify-done reporting now s e evaluated sent found =
    ap (λ p. send_plan_run_notification now (reload s p) (record e { plans = p }))
      (apply_assurance-done reporting now s e.plans evaluated)
    ∙ ap (λ x. send_plan_run_notification now x e) (reload-found s s e.plans found)
    ∙ send-done now s e sent

-- For an ended run that has been evaluated and notified, and whose plan is stored under its id: when
-- the end of the run is done once more, whatever the reports and the teardown, which may be tried
-- again, come to, no notification is asked for and its plan is stored as it was, but for the id of
-- its last report: the verdict stays.
pub finalize_once :
    {C : Type 0} (reporting : Reporting) (api : Proxmox C) (now : String) (connects : Bool)
    (run : Run) (plan : Plan) (e : EndState C)
    → is_running run.status ≡ false
    → run.plan_id ≡ plan.id
    → lookup plan.id e.plans.plans ≡ some plan
    → lookup run.id e.plans.runs ≡ some run
    → run.assurance_evaluated ≡ true
    → run.notification_sent ≡ true
    → let e' = finalize_plan_run_report reporting api now connects run e in
      (e'.notified ≡ e.notified)
      × ((plan' : Plan) × ((lookup plan.id e'.plans.plans ≡ some plan')
            × (record plan' { last_run_report_id = plan.last_run_report_id } ≡ plan)))
unfolding finalize_plan_run_report
finalize_once {C = C} reporting api now connects run plan e ended of_plan planned stored evaluated
      sent =
    let (same, status, kept) =
      attach_report-Noted reporting now run plan e.plans of_plan planned
        (run, stored, refl, refl) in
    let (noted, p) = attach_report reporting now run e.plans in
    let torn : EndState C = run_auto_teardown api now connects noted (record e { plans = p }) in
    let (((s, found, same_s, _), (q, found_q, same_q), _), notified) =
      run_auto_teardown-Torn api now connects noted plan e.plans.redis (record e { plans = p })
        (ap (λ x. is_running x.status) same ∙ ended) kept in
    let same_run : unfinished s ≡ unfinished run = same_s ∙ same in
    let found_s : lookup s.id torn.plans.runs ≡ some s =
      ap (λ k. lookup k torn.plans.runs) (ap (λ x. x.id) same_s) ∙ found in
    let done : judge_and_notify reporting now (reload noted torn.plans) torn ≡ torn =
      subst (λ x. judge_and_notify reporting now x torn ≡ torn)
        (sym (reload-found noted s torn.plans found))
        (judge_and_notify-done reporting now s torn
          (ap (λ x. x.assurance_evaluated) same_run ∙ evaluated)
          (ap (λ x. x.notification_sent) same_run ∙ sent) found_s) in
    (
      ap (λ x. x.notified) done ∙ notified,
      (
        q,
        (
          ap (λ x. lookup plan.id x.plans.plans) done ∙ found_q,
          ap (λ (x : Plan). record x { last_run_report_id = plan.last_run_report_id }) same_q,
        ),
      ),
    )
