-- ===== src/Assurance/Steps.antt =====
-- What the steps at the end of a run leave alone: `attach_report` and `run_auto_teardown`.
use restore_engine.Common.{
  ℕ, ◌≡◌, refl, ◌∙◌, ap, String, Bool, true, false, not, ◌&&◌, List, Option, none, some, all,
  filter, lookup, lookup-put_self, ◌==◌, nat_key, string_key, eq_iff, arith, by_test,
}
use restore_engine.Jobs.{Redis}
use restore_engine.Runs.{Entry, Run, Plan, Plans, is_running, save_plan_run}
use restore_engine.Runs.Tick.{is_nil}
use restore_engine.Runs.Teardown.{
  TeardownReply, teardown_status, collect_plan_run_targets, provenance_vmids, teardown_all,
  after_teardown, teardown_plan_run,
}
use restore_engine.Guests.{Proxmox}
use restore_engine.Guests.Destroy.{Session}
use restore_engine.Assurance.Finalize.{
  EndState, Reporting, note_report, jobs_of, attach_report, after_auto_teardown, run_auto_teardown,
}

-- A run but for its report and its teardown.
abbrev pub unfinished : Run → Run
unfinished run = record run {
  report_id = "";
  rto_sec = none;
  teardown_status = "";
  teardown_results = List.[];
  updated_at = "";
}

-- A plan but for its report.
abbrev pub unreported : Plan → Plan
unreported plan = record plan { last_run_report_id = "" }

-- The run is stored, but for its report and its teardown; of its teardown, `P` holds.
abbrev pub StoredRun : (String → Type 0) → Run → Plans → Type 0
StoredRun P run p =
    (s : Run) × (lookup run.id p.runs ≡ some s)
    × (unfinished s ≡ unfinished run)
    × P s.teardown_status

abbrev pub StoredPlan : Plan → Plans → Type 0
StoredPlan plan p =
    (q : Plan) × (lookup plan.id p.plans ≡ some q) × (unreported q ≡ unreported plan)

-- Both are stored, over the given jobs.
abbrev pub Stored : (String → Type 0) → Run → Plan → Redis → Plans → Type 0
Stored P run plan r p = StoredRun P run p × StoredPlan plan p × (p.redis ≡ r)

save-StoredRun :
    (P : String → Type 0) (now : String) (run : Run) (p : Plans)
    → P run.teardown_status
    → StoredRun P run (save_plan_run now run p)
unfolding save_plan_run
save-StoredRun P now run p h =
    (record run { updated_at = now }, lookup-put_self run.id _ p.runs, refl, h)

-- The two results of `attach_report`.
abbrev Noted : Run → Plan → Redis → Run × Plans → Type 0
Noted run plan r (noted, p) =
    (unfinished noted ≡ unfinished run)
    × (noted.teardown_status ≡ run.teardown_status)
    × Stored (λ s. s ≡ noted.teardown_status) noted plan r p

module _ (reporting : Reporting) (now : String) (run : Run) (plan : Plan) (p : Plans)
    (of_plan : run.plan_id ≡ plan.id) (planned : lookup plan.id p.plans ≡ some plan)
    (stored : StoredRun (λ s. s ≡ run.teardown_status) run p) where
  note_report-Noted :
      (reply : Option (String × Option ℕ))
      → Noted run plan p.redis (note_report now run (some plan) p reply)
  unfolding note_report save_plan_run
  note_report-Noted none = (refl, refl, (stored, (plan, planned, refl), refl))
  note_report-Noted (some (id, rto)) = (
    refl,
    refl,
    (
      (
        record run { report_id = id; rto_sec = rto; updated_at = now },
        lookup-put_self run.id _ p.runs,
        refl,
        refl,
      ),
      (record plan { last_run_report_id = id }, lookup-put_self plan.id _ p.plans, refl),
      refl,
    ),
  )

  pub attach_report-Noted : Noted run plan p.redis (attach_report reporting now run p)
  unfolding attach_report
  attach_report-Noted =
      let found : lookup run.plan_id p.plans ≡ some plan =
        ap (λ k. lookup k p.plans) of_plan ∙ planned in
      by_test (Noted run plan p.redis) (run.report_id == "")
        (λ blank.
          rw found (
            note_report-Noted
              (reporting.save_run_report (some plan) run (jobs_of reporting run p))))
        (λ set. (refl, refl, (stored, (plan, planned, refl), refl)))

-- A teardown that is done has a status.
status-IsSet : (results : List Entry) → (teardown_status results == "") ≡ false
unfolding teardown_status
status-IsSet results =
    let is_set : String → Type 0 = λ s. (s == "") ≡ false in
    by_test is_set (all (λ e. e.ok) results) (λ _. refl)
      λ _. by_test is_set (is_nil (filter (λ e. e.ok) results)) (λ _. refl) (λ _. refl)

module _ {C : Type 0} (api : Proxmox C) (now : String) (connects : Bool) where
  -- The status stays, or is set; it is set where the teardown is automatic and Proxmox answers.
  abbrev pub IsTorn : Run → String → Type 0
  IsTorn run s = run.auto_teardown ≡ true → connects ≡ true → (s == "") ≡ false

  module _ (noted : Run) (plan : Plan) (r : Redis) (e : EndState C)
      (ended : is_running noted.status ≡ false) where
    abbrev Torn : EndState C → Type 0
    Torn e' = Stored (IsTorn noted) noted plan r e'.plans × (e'.notified ≡ e.notified)

    after_teardown-Torn :
        StoredPlan plan e.plans
        → e.plans.redis ≡ r
        → (results : Session C × List Entry)
        → Torn (after_auto_teardown e (after_teardown api now noted e.plans results))
    unfolding after_auto_teardown after_teardown save_plan_run
    after_teardown-Torn planned same results = (
      (
        (
          record noted {
            teardown_status = teardown_status results.1;
            teardown_results = results.1;
            updated_at = now;
          },
          lookup-put_self noted.id _ e.plans.runs,
          refl,
          λ _ _. status-IsSet results.1,
        ),
        planned,
        same,
      ),
      refl,
    )

    pub run_auto_teardown-Torn :
        Stored (λ s. s ≡ noted.teardown_status) noted plan r e.plans
        → Torn (run_auto_teardown api now connects noted e)
    unfolding run_auto_teardown teardown_plan_run after_auto_teardown
    run_auto_teardown-Torn ((s, found, same, status), planned, redis) =
        let kept : (noted.auto_teardown ≡ true
              → connects ≡ true
              → (noted.teardown_status == "") ≡ false)
            → Torn e =
          λ h. (((s, found, same, λ a c. rw status (h a c)), planned, redis), refl) in
        let replied : TeardownReply C → Type 0 = λ reply. Torn (after_auto_teardown e reply) in
        by_test Torn (noted.auto_teardown && noted.teardown_status == "")
          (λ asked.
            by_test replied (noted.teardown_status == "completed")
              (λ completed.
                kept (λ a c.
                  ap (λ t. t == "") ((eq_iff noted.teardown_status "completed").0 completed)))
              λ _.
                by_test replied (is_running noted.status) (λ goes_on. absurd (ground arith))
                  λ _.
                    by_test replied
                      (not (is_nil (collect_plan_run_targets e.plans.redis noted)) && not connects)
                      (λ away. kept (λ a c. ground arith))
                      (λ _. after_teardown-Torn planned redis (
                        teardown_all api (provenance_vmids e.plans.redis noted.job_ids_by_group)
                          (collect_plan_run_targets e.plans.redis noted) e.session)))
          (λ left. kept (λ a c. ground arith))
