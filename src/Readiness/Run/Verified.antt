-- ===== src/Readiness/Run/Verified.antt =====
-- The verdict that the check stores, and the start of a plan that it finds ready.
use restore_engine.Common.{
  ℕ, ◌≡◌, sym, ap, ◌∙◌, String, false, List, [], ◌∷◌, Option, none, some, All, lookup, put,
  lookup-put_self, length, ◌==◌, nat_key, string_key, arith, if◌then◌else◌,
}
use restore_engine.States.{PlanVerification, verified, not_verified}
use restore_engine.Runs.{Row, Run, Plan, Plans, EnqueueFn, save_plan_run, Reply, enqueued, raised}
use restore_engine.Runs.Tick.{is_nil}
use restore_engine.Runs.Start.{
  Location, Request, refused, start_plan_run, start_found, start_at, after_start, first_group,
  run_shell, start_order,
}
use restore_engine.Readiness.{Probes}
use restore_engine.Readiness.Members.{count_members}
use restore_engine.Readiness.Run.{
  Stored, member_rows, outcome_of, final_report, readiness_check, apply_check_result,
  run_plan_readiness,
}
use restore_engine.Readiness.Run.Stages.{IsClean}
use restore_engine.Readiness.Run.Ready.{AreMembersReady, length-map, length-plan_groups}
use restore_engine.Readiness.Run.Sound.{IsReady, outcome_clean, final-IsClean}

-- `start_plan_run` takes the rows: it returns a run, or its enqueue raises.
abbrev pub IsAccepted : Plan → List (List Row) → Type 0
IsAccepted plan group_rows =
    (enqueue_fn : EnqueueFn) (now run_id : String) (q : Request) (loc : Location) (p : Plans)
    → start_plan_run enqueue_fn now run_id q plan loc group_rows p ≡ refused
    → ⊥

after_start_accepted :
    (now : String) (i : ℕ) (groups : List (List Row)) (plan : Plan) (loc : Location) (run : Run)
    (p : Plans) (reply : Reply)
    → after_start now i groups plan loc run p reply ≡ refused
    → ⊥
unfolding after_start
after_start_accepted now i groups plan loc run p (raised r') e = cc
after_start_accepted now i groups plan loc run p (enqueued r' result) e = cc

accepted :
    (plan : Plan) (group_rows : List (List Row))
    → length group_rows ≡ length plan.group_ids
    → (count_members group_rows == 0) ≡ false
    → All (λ rows. is_nil rows ≡ false) group_rows
    → IsAccepted plan group_rows
unfolding start_plan_run start_found start_at first_group
accepted plan [] same some_members not_empty enqueue_fn now run_id q loc p e = absurd (ground arith)
accepted plan ([] ∷ groups) same some_members not_empty enqueue_fn now run_id q loc p e =
    absurd (ground (arith, not_empty.0))
accepted plan ((row ∷ rows) ∷ groups) same some_members not_empty enqueue_fn now run_id q loc p e =
    let run = run_shell now run_id 0 q plan loc in
    let shell_saved = save_plan_run now run p in
    let reply = enqueue_fn (start_order 0 (row ∷ rows) run) shell_saved.redis in
    after_start_accepted now 0 ((row ∷ rows) ∷ groups) plan loc run shell_saved reply (ground arith)

members-IsAccepted :
    (probes : Probes) (stored : Stored) (cutoff : String) (plan : Plan) (loc : Location)
    (group_rows : List (List Row))
    → AreMembersReady probes stored cutoff plan loc group_rows
    → IsAccepted plan group_rows
members-IsAccepted probes stored cutoff plan loc group_rows m =
    let rows_of = member_rows stored.is_match cutoff m.tags m.backups in
    let same_length : length group_rows ≡ length plan.group_ids =
      ap length m.are_resolved
      ∙ length-map rows_of m.groups
      ∙ length-plan_groups stored.groups plan.group_ids m.groups m.are_stored in
    accepted plan group_rows same_length m.some_members m.not_empty

verification_of : Option Plan → PlanVerification
verification_of none = not_verified
verification_of (some plan) = plan.verification

-- The verdict says how many errors there were.
verdict-no_errors :
    (plan saved : Plan) (checked_at : String) (errors : ℕ) (plans : List (String × Plan))
    → lookup plan.id (
        put plan.id
          (record plan {
            last_check_at = checked_at;
            verification = if errors == 0 then verified else not_verified;
          })
          plans)
      ≡ some saved
    → saved.verification ≡ verified
    → errors ≡ 0
unfolding verification_of
verdict-no_errors plan saved checked_at errors plans e v =
    let verdict = if errors == 0 then verified else not_verified in
    let stored = record plan { last_check_at = checked_at; verification = verdict } in
    let same : verdict ≡ verified =
      ap (λ o. verification_of o) (sym (lookup-put_self plan.id stored plans) ∙ e) ∙ v in
    ground (arith, same)

-- When the check stores the plan as VERIFIED, then, of what it saw: PBS and Proxmox answer; the location
-- is stored, and each of its nodes is in the cluster (as far as the cluster names its nodes) and has a
-- mapped storage that is there, enabled and holds disks of guests; every group is stored and has
-- backups; the ids in use are known; a DR restore finds the source ids free and all different, another
-- one as many free ids as there are members. And `start_plan_run` does not reject these rows, whatever
-- the location, the request and the state are by then.
pub run_plan_readiness_sound :
    (probes : Probes) (stored : Stored) (checked_at cutoff : String) (plan saved : Plan) (p : Plans)
    → lookup plan.id (run_plan_readiness probes stored checked_at cutoff plan p).plans ≡ some saved
    → saved.verification ≡ verified
    → let group_rows = (outcome_of probes stored cutoff plan).group_rows in
      IsReady probes stored cutoff plan group_rows × IsAccepted plan group_rows
unfolding run_plan_readiness readiness_check apply_check_result
run_plan_readiness_sound probes stored checked_at cutoff plan saved p e v =
    let s = final_report probes stored cutoff plan in
    let no_error : IsClean s = verdict-no_errors plan saved checked_at s.errors p.plans e v in
    let ready =
      outcome_clean probes stored cutoff plan (final-IsClean probes stored cutoff plan no_error) in
    (ready, members-IsAccepted probes stored cutoff plan ready.0 _ ready.2)
