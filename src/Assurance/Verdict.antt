-- ===== src/Assurance/Verdict.antt =====
-- The verdict at the end of a run, with its report, teardown and notification.
use restore_engine.Common.{
  if◌then◌else◌, arith, ◌==◌, string_key, ◌≡◌, refl, sym, ◌∙◌, ap, String, Bool, true, false, none,
  some, lookup, lookup-put_self, nat_key, string_key, by_test,
}
use mathlib.Core.Path.{subst}
use restore_engine.Jobs.{Redis}
use restore_engine.Runs.{Run, Plan, Plans, is_running, save_plan_run}
use restore_engine.Guests.{Proxmox}
use restore_engine.Assurance.{evaluate_assurance_policy}
use restore_engine.Assurance.Finalize.{
  EndState, Reporting, reload, last_run_of, jobs_of, rto_of, attach_report, store_verdict, judge,
  apply_assurance_from_run, send_plan_run_notification, run_auto_teardown, judge_and_notify,
  finalize_plan_run_report,
}
use restore_engine.Assurance.Steps.{
  unfinished, unreported, StoredRun, StoredPlan, attach_report-Noted,
}

-- A run but for what its end writes.
abbrev pub run_before : Run → Run
run_before run = record (unfinished run) {
  assurance_evaluated = false;
  assurance_status = none;
  assurance_detail = none;
  notification_sent = false;
}

-- A plan but for its report, its assurance and the time of its last run.
abbrev pub plan_before : Plan → Plan
plan_before plan = record (unreported plan) {
  assurance_status = restore_engine.States.unknown;
  assurance_updated_at = "";
  assurance_last_run_id = "";
  assurance_last_rto_sec = none;
  assurance_detail = none;
  last_run_at = "";
}

-- The time of the last run that a plan has behind a run: its own, or else the end of the run.
abbrev pub last_run_after : String → Plan → Run → String
last_run_after now plan run =
    if plan.last_run_at == ""
    then (if run.finished_at == "" then now else run.finished_at)
    else plan.last_run_at

pub reload-found : (s t : Run) (p : Plans) → lookup s.id p.runs ≡ some t → reload s p ≡ t
reload-found s t p h = rw (h, reload) refl

module _ (reporting : Reporting) where
  -- The run and the plan as they are stored, with the verdict of the policy on both.
  abbrev pub Judged : String → Run → Plan → Plans → Run → Plan → Type 0
  Judged now run plan p run' plan' =
      (lookup run.id p.runs ≡ some run')
      × (lookup plan.id p.plans ≡ some plan')
      × (run_before run' ≡ run_before run)
      × (plan_before plan' ≡ plan_before plan)
      × (run'.assurance_evaluated ≡ true)
      × (run'.notification_sent ≡ true)
      × (plan'.assurance_last_run_id ≡ run.id)
      × (plan'.last_run_at ≡ last_run_after now plan run)
      × (plan'.assurance_status
          ≡ (evaluate_assurance_policy plan' run' (jobs_of reporting run' p)
              (rto_of reporting run')).0)

  -- What the last steps make of a run that is stored with its report and its teardown.
  abbrev pub Settled :
      {C : Type 0} → String → (String → Type 0) → Run → Plan → Redis → EndState C → Type 0
  Settled now P run plan r e =
      (run' : Run) × (plan' : Plan) × (Judged now run plan e.plans run' plan'
        × P run'.teardown_status
        × (e.plans.redis ≡ r))

  Settled-before :
      {C : Type 0} (now : String) (P : String → Type 0) (s run : Run) (q plan : Plan) (r : Redis)
      (e : EndState C)
      → unfinished s ≡ unfinished run
      → unreported q ≡ unreported plan
      → Settled now P s q r e
      → Settled now P run plan r e
  Settled-before now P s run q plan r e same_run same_plan
        (
          run',
          plan',
          (
            (stored, planned, kept, plan_kept, evaluated, sent, last, last_run, verdict),
            torn,
            same,
          ),
        ) =
      let same_id : s.id ≡ run.id = ap (λ x. x.id) same_run in
      let same_plan_id : q.id ≡ plan.id = ap (λ x. x.id) same_plan in
      (
        run',
        plan',
        (
          (
            ap (λ k. lookup k e.plans.runs) (sym same_id) ∙ stored,
            ap (λ k. lookup k e.plans.plans) (sym same_plan_id) ∙ planned,
            kept ∙ ap run_before same_run,
            plan_kept ∙ ap plan_before same_plan,
            evaluated,
            sent,
            last ∙ same_id,
            last_run
                ∙ ap (λ x. last_run_after now x s) same_plan
                ∙ ap (λ x. last_run_after now plan x) same_run,
            verdict,
          ),
          torn,
          same,
        ),
      )

  last_run_same :
      (now : String) (plan : Plan) (run : Run)
      → last_run_of reporting now plan run ≡ last_run_after now plan run
  last_run_same now plan run = ground arith

  module _ {C : Type 0} (now : String) (P : String → Type 0) (s : Run) (q q0 : Plan)
      (r : Redis) where
    notify-Settled :
        (e : EndState C)
        → lookup s.id e.plans.runs ≡ some s
        → lookup q0.id e.plans.plans ≡ some q
        → plan_before q ≡ plan_before q0
        → q.last_run_at ≡ last_run_after now q0 s
        → s.assurance_evaluated ≡ true
        → q.assurance_last_run_id ≡ s.id
        → q.assurance_status
          ≡ (evaluate_assurance_policy q s (jobs_of reporting s e.plans) (rto_of reporting s)).0
        → P s.teardown_status
        → e.plans.redis ≡ r
        → Settled now P s q0 r (send_plan_run_notification now s e)
    unfolding send_plan_run_notification save_plan_run evaluate_assurance_policy
    notify-Settled e stored planned kept last_run evaluated last verdict h same =
        by_test (Settled now P s q0 r) s.notification_sent
          (λ sent. (
            s,
            q,
            ((stored, planned, refl, kept, evaluated, sent, last, last_run, verdict), h, same),
          ))
          (λ unsent. (
            record s { notification_sent = true; updated_at = now },
            q,
            (
              (
                lookup-put_self s.id _ e.plans.runs,
                planned,
                refl,
                kept,
                evaluated,
                refl,
                last,
                last_run,
                verdict,
              ),
              h,
              same,
            ),
          ))

  module _ {C : Type 0} (now : String) (P : String → Type 0) (s : Run) (q : Plan) (e : EndState C)
      (found : lookup s.plan_id e.plans.plans ≡ some q) (enabled : q.assurance_enabled ≡ true)
      (drill : s.drill ≡ true) (new : s.assurance_evaluated ≡ false) where
    apply_assurance-judged :
        apply_assurance_from_run reporting now s e.plans
        ≡ store_verdict reporting now s q
            (evaluate_assurance_policy q s (jobs_of reporting s e.plans) (rto_of reporting s))
            e.plans
    unfolding apply_assurance_from_run judge
    apply_assurance-judged = rw (new, found, enabled, drill) refl

    judge_and_notify-Settled :
        P s.teardown_status → Settled now P s q e.plans.redis (judge_and_notify reporting now s e)
    unfolding judge_and_notify store_verdict save_plan_run evaluate_assurance_policy
    judge_and_notify-Settled h =
        let verdict =
          evaluate_assurance_policy q s (jobs_of reporting s e.plans) (rto_of reporting s) in
        let judged = store_verdict reporting now s q verdict e.plans in
        let run' : Run = record s {
          assurance_evaluated = true;
          assurance_status = some verdict.0;
          assurance_detail = some verdict.1;
          updated_at = now;
        } in
        let plan' : Plan = record q {
          assurance_status = verdict.0;
          assurance_updated_at = now;
          assurance_last_run_id = s.id;
          assurance_last_rto_sec = rto_of reporting s;
          assurance_detail = some verdict.1;
          last_run_at = last_run_of reporting now q s;
        } in
        let e' : EndState C = record e { plans = judged } in
        let stored : lookup s.id judged.runs ≡ some run' = lookup-put_self s.id _ e.plans.runs in
        let planned : lookup q.id judged.plans ≡ some plan' =
          lookup-put_self q.id _ e.plans.plans in
        rw apply_assurance-judged (
          subst (λ x. Settled now P s q e.plans.redis (send_plan_run_notification now x e'))
            (sym (reload-found s run' judged stored))
            (notify-Settled now P run' plan' q e.plans.redis e' stored planned refl
              (last_run_same now q s) refl refl refl h refl))

  module _ {C : Type 0} (api : Proxmox C) (now : String) (connects : Bool) (run : Run)
      (e : EndState C) where
    -- The run and the plans behind the report, and the state behind the teardown.
    abbrev pub noted : Run
    noted = (attach_report reporting now run e.plans).0

    abbrev pub reported : EndState C
    reported = record e { plans = (attach_report reporting now run e.plans).1 }

    abbrev pub torn : EndState C
    torn = run_auto_teardown api now connects noted reported

    module _ (plan : Plan) (ended : is_running run.status ≡ false) (of_plan : run.plan_id ≡ plan.id)
        (planned : lookup plan.id e.plans.plans ≡ some plan)
        (stored : StoredRun (λ s. s ≡ run.teardown_status) run e.plans)
        (enabled : plan.assurance_enabled ≡ true) (drill : run.drill ≡ true)
        (new : run.assurance_evaluated ≡ false) where
      -- What holds of the status of the teardown as it is stored holds of the run that is judged.
      pub finalize-Settled :
          (P : String → Type 0)
          → StoredRun P run torn.plans
          → StoredPlan plan torn.plans
          → torn.plans.redis ≡ e.plans.redis
          → Settled now P run plan e.plans.redis
              (finalize_plan_run_report reporting api now connects run e)
      unfolding finalize_plan_run_report
      finalize-Settled P (s, found, same_run, h) (q, plan_found, same_plan) same =
          let same_id : noted.id ≡ run.id =
            ap (λ x. x.id)
              (attach_report-Noted reporting now run plan e.plans of_plan planned stored).0 in
          let reloaded : reload noted torn.plans ≡ s =
            reload-found noted s torn.plans (ap (λ k. lookup k torn.plans.runs) same_id ∙ found) in
          let of_s : s.plan_id ≡ plan.id = ap (λ x. x.plan_id) same_run ∙ of_plan in
          subst (λ x. Settled now P run plan e.plans.redis (judge_and_notify reporting now x torn))
            (sym reloaded)
            (subst (λ r. Settled now P run plan r (judge_and_notify reporting now s torn)) same
              (Settled-before now P s run q plan torn.plans.redis
                (judge_and_notify reporting now s torn) same_run same_plan
                (judge_and_notify-Settled now P s q torn
                  (ap (λ k. lookup k torn.plans.plans) of_s ∙ plan_found)
                  (ap (λ x. x.assurance_enabled) same_plan ∙ enabled)
                  (ap (λ x. x.drill) same_run ∙ drill)
                  (ap (λ x. x.assurance_evaluated) same_run ∙ new) h)))
