-- ===== src/Examples/Finals.antt =====
-- The end of a drill with one guest, which is to be torn down.
use restore_engine.Common.{
  ◌≡◌, refl, sym, ap, ◌∙◌, Bool, true, false, List, [], ◌∷◌, none, some, lookup, put, contains,
  nat_key, string_key,
}
use restore_engine.Common.Text.{strip, lstrip, rstrip}
use restore_engine.Common.Parse.{lower, parse_int}
use restore_engine.States.{running, run_completed}
use restore_engine.Jobs.{hget, hgetall}
use restore_engine.Runs.{Run, Plan, is_running, save_plan_run}
use restore_engine.Runs.Tick.{
  is_nil, skip_empty, complete, finished, next_group, is_all_cancelled, close_group, advance_group,
  advance_run,
}
use restore_engine.Runs.Teardown.{
  add_target, add_assigned, add_jobs, add_groups, sorted_targets, collect_plan_run_targets,
  job_provenance, provenance_vmids, teardown_status, destroy_on, teardown_one, teardown_all,
  after_teardown, teardown_plan_run,
}
use restore_engine.Guests.{
  Resource, find_row, cluster_vm_resources, find_guest_resource, qemu_is_managed_by_tool,
}
use restore_engine.Guests.Destroy.{
  attempt, destroy_qemu_vm, destroy_guest, destroy_found, destroy_owned_qemu_vm,
}
use restore_engine.Assurance.{
  job_summary, group_summaries, summaries, is_completed, evaluate_assurance_policy,
}
use restore_engine.Assurance.Policy.{is_assured}
use restore_engine.Assurance.Finalize.{
  EndState, Reporting, reload, jobs_of, rto_of, note_report, attach_report, after_auto_teardown,
  run_auto_teardown, store_verdict, judge, apply_assurance_from_run, send_plan_run_notification,
  judge_and_notify, finalize_plan_run_report,
}
use restore_engine.Assurance.Verdict.{run_before, plan_before, last_run_after}
use restore_engine.Assurance.Final.{finalize_assured}
use restore_engine.Assurance.Ended.{tick_judges}
use restore_engine.Assurance.Unreachable.{finalize_unreachable}
use restore_engine.Assurance.Once.{finalize_once}
use restore_engine.Examples.{plan, enqueue_b}
use restore_engine.Examples.Teardowns.{api_with, ended_run, plans, session}

abbrev reporting : Reporting
reporting = record {
  save_run_report = λ plan run jobs. some ("report", some 60);
  wall_clock_rto_sec = λ started finished. some 60;
  index_text = λ i. "0";
}

abbrev drill_plan : Plan
drill_plan = record plan { assurance_require_qga = false }

abbrev drill : Run
drill = record ended_run {
  auto_teardown = true;
  assigned_targets = record { vmid = 101; node = "pve1" } ∷ [];
}

abbrev start : EndState (List Resource)
start = record {
  plans = record plans { runs = ("run", drill) ∷ []; plans = ("plan", drill_plan) ∷ [] };
  session = session;
  notified = [];
}

abbrev end_with : Bool → EndState (List Resource)
end_with connects = finalize_plan_run_report reporting (api_with true) "t9" connects drill start

abbrev final_run : Bool → Run
final_run connects = reload drill (end_with connects).plans

abbrev plan_in : EndState (List Resource) → Plan
plan_in e = elim (lookup "plan" e.plans.plans) [ none ↦ drill_plan | some p ↦ p ]

planned : lookup "plan" start.plans.plans ≡ some drill_plan
unfolding lookup
planned = refl

stored : lookup "run" start.plans.runs ≡ some drill
unfolding lookup
stored = refl

-- ASSURED with the guest gone, and ASSURED with Proxmox away and nothing sent.
end_facts :
    (connects : Bool)
    → (lookup "run" (end_with connects).plans.runs ≡ some (final_run connects))
      × (lookup "plan" (end_with connects).plans.plans ≡ some (plan_in (end_with connects)))
      × (is_assured (plan_in (end_with connects)).assurance_status ≡ true)
      × ((plan_in (end_with connects)).id ≡ "plan")
      × ((final_run connects).assurance_evaluated ≡ true)
      × ((final_run connects).notification_sent ≡ true)
      × ((final_run connects).id ≡ "run")
      × ((final_run connects).plan_id ≡ "plan")
      × (is_running (final_run connects).status ≡ false)
unfolding finalize_plan_run_report judge_and_notify apply_assurance_from_run judge store_verdict
    send_plan_run_notification run_auto_teardown after_auto_teardown attach_report note_report
    save_plan_run lookup put teardown_plan_run after_teardown evaluate_assurance_policy
    collect_plan_run_targets add_assigned add_groups add_jobs add_target sorted_targets hgetall
    strip lstrip rstrip parse_int teardown_all teardown_one teardown_status destroy_on
    destroy_owned_qemu_vm destroy_found destroy_guest destroy_qemu_vm attempt find_guest_resource
    cluster_vm_resources find_row qemu_is_managed_by_tool provenance_vmids job_provenance contains
    lower summaries group_summaries job_summary
end_facts true = (refl, refl, refl, refl, refl, refl, refl, refl, refl)
end_facts false = (refl, refl, refl, refl, refl, refl, refl, refl, refl)

-- Before its last tick.
abbrev active : Run
active = record drill { status = running; pending_group_rows = [] }

abbrev completed : Run
completed = record active { status = run_completed; finished_at = "t9"; current_group_index = 2 }

ends : advance_run enqueue_b "t9" start.plans.redis active ≡ finished completed
unfolding advance_run skip_empty advance_group close_group next_group complete is_all_cancelled
    lookup contains hget
ends = refl

tick_judges_example :
    let saved = record start { plans = save_plan_run "t9" completed start.plans } in
    let e' = finalize_plan_run_report reporting (api_with true) "t9" true completed saved in
    (final : Run) × (judged : Plan) × ((lookup "run" e'.plans.runs ≡ some final)
      × (lookup "plan" e'.plans.plans ≡ some judged)
      × (run_before final ≡ run_before completed)
      × (plan_before judged ≡ plan_before drill_plan)
      × (final.assurance_evaluated ≡ true)
      × (final.notification_sent ≡ true)
      × (judged.assurance_last_run_id ≡ "run")
      × (judged.last_run_at ≡ last_run_after "t9" drill_plan completed)
      × (judged.assurance_status
          ≡ (evaluate_assurance_policy judged final
              (jobs_of reporting final e'.plans)
              (rto_of reporting final)).0))
tick_judges_example =
    tick_judges enqueue_b reporting (api_with true) "t9" true active completed drill_plan start ends
      refl planned refl refl refl

finalize_assured_example :
    (is_completed drill.status ≡ true) × ((final_run true).teardown_status ≡ "completed")
finalize_assured_example =
    finalize_assured reporting (api_with true) "t9" "t0" true drill drill_plan start refl refl
      planned stored refl refl refl (final_run true) (plan_in (end_with true)) (end_facts true).0
      (end_facts true).1 (end_facts true).2 refl refl

has_a_target : is_nil (collect_plan_run_targets start.plans.redis drill) ≡ false
unfolding collect_plan_run_targets add_assigned add_groups add_jobs add_target sorted_targets
    hgetall lookup put strip lstrip rstrip parse_int
has_a_target = refl

finalize_unreachable_example :
    let e' = end_with false in
    (e'.session ≡ start.session)
    × ((run' : Run) × (plan' : Plan) × ((lookup "run" e'.plans.runs ≡ some run')
          × (lookup "plan" e'.plans.plans ≡ some plan')
          × (run'.teardown_status ≡ "")
          × (run'.assurance_evaluated ≡ true)
          × (plan'.assurance_status
              ≡ (evaluate_assurance_policy plan'
                  (record run' { auto_teardown = false })
                  (jobs_of reporting run' e'.plans)
                  (rto_of reporting run')).0)))
finalize_unreachable_example =
    finalize_unreachable reporting (api_with true) "t9" "t0" drill drill_plan start refl refl
      planned stored refl refl refl refl has_a_target

-- The run as the first end leaves it, and the same end again, with Proxmox back.
abbrev again : EndState (List Resource)
again =
    finalize_plan_run_report reporting (api_with true) "t10" true (final_run false) (end_with false)

finalize_once_example :
    (again.notified ≡ (end_with false).notified)
    × ((plan' : Plan) × ((lookup (plan_in (end_with false)).id again.plans.plans ≡ some plan')
          × (record plan' { last_run_report_id = (plan_in (end_with false)).last_run_report_id }
              ≡ plan_in (end_with false))))
finalize_once_example =
    let (run_there, plan_there, _, id, evaluated, sent, run_id, plan_id, ended) = end_facts false in
    finalize_once reporting (api_with true) "t10" true (final_run false) (plan_in (end_with false))
      (end_with false) ended (plan_id ∙ sym id)
      (ap (λ k. lookup k (end_with false).plans.plans) id ∙ plan_there)
      (ap (λ k. lookup k (end_with false).plans.runs) run_id ∙ run_there) evaluated sent
