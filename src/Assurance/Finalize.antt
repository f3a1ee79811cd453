-- ===== src/Assurance/Finalize.antt =====
-- plans.py: `_finalize_plan_run_report`, the end of a run: its report, its automatic teardown, its
-- verdict (`apply_assurance_from_run`) and its notification. Both branches of the source, for a run
-- with a report and without, end with the same steps. The exceptions of each step are swallowed.
use restore_engine.Common.{
  ℕ, String, Bool, true, not, ◌&&◌, ◌||◌, List, [], ◌∷◌, ◌++◌, Option, none, some, put, lookup,
  ◌==◌, nat_key, string_key, if◌then◌else◌,
}
use restore_engine.States.{PlanAssurance}
use restore_engine.Jobs.{Hash}
use restore_engine.Runs.{Detail, Run, Plan, Plans, save_plan_run}
use restore_engine.Runs.Teardown.{
  TeardownReply, torn_down, already_completed, still_running, unreachable, teardown_plan_run,
}
use restore_engine.Guests.{Proxmox}
use restore_engine.Guests.Destroy.{Session}
use restore_engine.Assurance.{summaries, evaluate_assurance_policy}

-- The plans with their runs, the cluster, and the runs that a notification was asked for.
pub record EndState (C : Type 0) : Type 0 where
  pub plans : Plans
  pub session : Session C
  pub notified : List String

-- What reports.py says of a run. A report has an id and a recovery time; none is an exception.
pub record Reporting : Type 0 where
  pub save_run_report : Option Plan → Run → List Hash → Option (String × Option ℕ)
  pub wall_clock_rto_sec : String → String → Option ℕ
  pub index_text : ℕ → String  -- `str` of an index

-- `get_plan_run(r, cfg, run["id"]) or run`
abbrev pub reload : Run → Plans → Run
reload run p = elim (lookup run.id p.runs) [ none ↦ run | some saved ↦ saved ]

abbrev pub with_report : String → Option Plan → Plans → Plans
with_report id none p = p
with_report id (some plan) p = record p {
  plans = put plan.id (record plan { last_run_report_id = id }) p.plans;
}

-- A report that is saved is noted on the run and on its plan.
unfoldable pub note_report :
    String → Run → Option Plan → Plans → Option (String × Option ℕ) → Run × Plans
note_report now run plan p none = (run, p)
note_report now run plan p (some (id, rto)) =
    let noted = record run { report_id = id; rto_sec = rto } in
    (noted, with_report id plan (save_plan_run now noted p))

module _ (reporting : Reporting) where
  abbrev pub jobs_of : Run → Plans → List Hash
  jobs_of run p = summaries reporting.index_text p.redis 0 run.job_ids_by_group

  unfoldable pub attach_report : String → Run → Plans → Run × Plans
  unfolding note_report
  attach_report now run p =
      let plan = lookup run.plan_id p.plans in
      if run.report_id == ""
      then note_report now run plan p (reporting.save_run_report plan run (jobs_of run p))
      else (run, p)

  abbrev pub rto_of : Run → Option ℕ
  rto_of run = reporting.wall_clock_rto_sec run.started_at run.finished_at

  -- `plan.get("last_run_at") or run.get("finished_at") or utc_now_iso()`
  abbrev pub last_run_of : String → Plan → Run → String
  last_run_of now plan run =
      if not (plan.last_run_at == "")
      then plan.last_run_at
      else if not (run.finished_at == "")
      then run.finished_at
      else now

  -- The verdict is stored on the plan, then on the run.
  unfoldable pub store_verdict : String → Run → Plan → PlanAssurance × Detail → Plans → Plans
  store_verdict now run plan (status, detail) p =
      let judged = record plan {
        assurance_status = status;
        assurance_updated_at = now;
        assurance_last_run_id = run.id;
        assurance_last_rto_sec = rto_of run;
        assurance_detail = some detail;
        last_run_at = last_run_of now plan run;
      } in
      save_plan_run now
        (record run {
          assurance_evaluated = true;
          assurance_status = some status;
          assurance_detail = some detail;
        })
        (record p { plans = put plan.id judged p.plans })

  unfoldable pub judge : String → Run → Plans → Option Plan → Plans
  unfolding store_verdict
  judge now run p none = save_plan_run now (record run { assurance_evaluated = true }) p
  judge now run p (some plan) =
      if not plan.assurance_enabled || not run.drill
      then save_plan_run now (record run { assurance_evaluated = true }) p
      else store_verdict now run plan
          (evaluate_assurance_policy plan run (jobs_of run p) (rto_of run)) p

  unfoldable pub apply_assurance_from_run : String → Run → Plans → Plans
  unfolding judge
  apply_assurance_from_run now run p =
      if run.assurance_evaluated then p else judge now run p (lookup run.plan_id p.plans)

module _ {C : Type 0} where
  unfoldable pub after_auto_teardown : EndState C → TeardownReply C → EndState C
  after_auto_teardown e (torn_down run p s) = record e { plans = p; session = s }
  after_auto_teardown e (already_completed run) = e
  after_auto_teardown e still_running = e
  after_auto_teardown e unreachable = e

  -- The flag is saved whether the notification could be sent or not.
  unfoldable pub send_plan_run_notification : String → Run → EndState C → EndState C
  send_plan_run_notification now run e = if run.notification_sent then e else record e {
    plans = save_plan_run now (record run { notification_sent = true }) e.plans;
    notified = e.notified ++ run.id ∷ [];
  }

  unfoldable pub run_auto_teardown : Proxmox C → String → Bool → Run → EndState C → EndState C
  unfolding after_auto_teardown
  run_auto_teardown api now connects run e =
      if run.auto_teardown && run.teardown_status == ""
      then after_auto_teardown e (teardown_plan_run api now connects run e.plans e.session)
      else e

  unfoldable pub judge_and_notify : Reporting → String → Run → EndState C → EndState C
  unfolding apply_assurance_from_run send_plan_run_notification
  judge_and_notify reporting now run e =
      let judged = apply_assurance_from_run reporting now run e.plans in
      send_plan_run_notification now (reload run judged) (record e { plans = judged })

  unfoldable pub finalize_plan_run_report :
      Reporting → Proxmox C → String → Bool → Run → EndState C → EndState C
  unfolding attach_report run_auto_teardown judge_and_notify
  finalize_plan_run_report reporting api now connects run e =
      let (noted, p) = attach_report reporting now run e.plans in
      let torn = run_auto_teardown api now connects noted (record e { plans = p }) in
      judge_and_notify reporting now (reload noted torn.plans) torn
