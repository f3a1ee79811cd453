-- ===== src/Schedules/Adds.antt =====
-- What the start of a plan run adds to the active runs.
use restore_engine.Common.{
  ℕ, ◌≡◌, String, Bool, true, false, not, set, ◌&&◌, ◌||◌, List, [], ◌∷◌, ◌++◌, Option, none, some,
  map, lookup, lookup-put, contains, length, ◌==◌, nat_key, string_key, if◌then◌else◌, eq_iff,
  arith, ◌⊎◌, inl, inr, Bool-cases, by_option,
}
use restore_engine.Groups.{Backup, Group, any}
use restore_engine.Runs.{
  Row, Run, Plan, Plans, EnqueueFn, Reply, enqueued, raised, sadd, srem, save_plan_run, is_running,
  record_assigned_targets,
}
use restore_engine.Runs.Tick.{is_nil}
use restore_engine.Runs.Start.{
  Location, Request, Started, started, refused, broken, run_shell, after_start, start_at,
  start_found, start_plan_run, start_order, first_group, rows_at,
}
use restore_engine.Schedules.{StartReply, run_started, start_failed}
use restore_engine.Schedules.Start.{
  Inventory, plan_groups, scheduled_tags, started_reply, scheduled_request, rows_of, start_with,
  start_scheduled,
}

abbrev pub runs_for : String → Option Run → Bool
runs_for pid none = false
runs_for pid (some run) = run.plan_id == pid && is_running run.status

-- A run of the plan `pid` that is in the active set and RUNNING.
abbrev pub IsActiveRun : String → Plans → String → Type 0
IsActiveRun pid p id = (contains id p.active && runs_for pid (lookup id p.runs)) ≡ true

-- From one state to the next, at most the run `rid` of the plan `pid` is new.
abbrev pub Adds : String → String → Plans → Plans → Type 0
Adds rid pid p p' =
    (q id : String) → IsActiveRun q p' id → ((id ≡ rid) × (q ≡ pid)) ⊎ IsActiveRun q p id

contains-append :
    (x id : String) (ids : List String) → contains x (ids ++ id ∷ []) ≡ (contains x ids || id == x)
unfolding contains
contains-append x id [] = ground arith
contains-append x id (i ∷ ids) = ground (arith, contains-append x id ids)

contains-sadd :
    (x id : String) (ids : List String)
    → contains x (sadd id ids) ≡ true
    → (x ≡ id) ⊎ (contains x ids ≡ true)
contains-sadd x id ids h = ground (arith, contains-append x id ids, eq_iff id x)

contains-srem :
    (x id : String) (ids : List String) → contains x (srem id ids) ≡ true → contains x ids ≡ true
unfolding contains
contains-srem x id [] h = h
contains-srem x id (i ∷ ids) h = ground (arith, contains-srem x id ids)

kept_active :
    (x : String) (run : Run) (p : Plans)
    → contains x (if is_running run.status then sadd run.id p.active else srem run.id p.active)
      ≡ true
    → (x ≡ run.id) ⊎ (contains x p.active ≡ true)
kept_active x run p h =
    ground (arith, contains-sadd x run.id p.active, contains-srem x run.id p.active)

save_plan_run-Adds :
    (now : String) (run : Run) (p : Plans) → Adds run.id run.plan_id p (save_plan_run now run p)
unfolding save_plan_run
save_plan_run-Adds now run p q id h =
    let saved = record run { updated_at = now } in
    ground (
      arith,
      lookup-put run.id id saved p.runs,
      kept_active id run p,
      eq_iff run.id id,
      eq_iff run.plan_id q,
    )

module _ (rid pid : String) where
  Adds-trans : (p p' p'' : Plans) → Adds rid pid p p' → Adds rid pid p' p'' → Adds rid pid p p''
  Adds-trans p p' p'' f g q id h = elim (g q id h) [ inl new ↦ inl new | inr old ↦ f q id old ]

  -- What a start leaves behind adds no other run.
  abbrev AddsStarted : Plans → Started → Type 0
  AddsStarted p (started run p') = Adds rid pid p p'
  AddsStarted p refused = Unit
  AddsStarted p (broken p') = Adds rid pid p p'

  abbrev pub AddsReply : Plans → StartReply → Type 0
  AddsReply p (run_started p') = Adds rid pid p p'
  AddsReply p (start_failed p') = Adds rid pid p p'

  AddsStarted-trans :
      (p p' : Plans) (s : Started) → Adds rid pid p p' → AddsStarted p' s → AddsStarted p s
  AddsStarted-trans p p' (started run p'') f h = Adds-trans p p' p'' f h
  AddsStarted-trans p p' refused f h = tt
  AddsStarted-trans p p' (broken p'') f h = Adds-trans p p' p'' f h

  started_reply-Adds : (p : Plans) (s : Started) → AddsStarted p s → AddsReply p (started_reply p s)
  unfolding started_reply
  started_reply-Adds p (started run p') h = h
  started_reply-Adds p refused h = λ q id k. inr k
  started_reply-Adds p (broken p') h = h

module _ (now : String) (plan : Plan) (loc : Location) (groups : List (List Row)) where
  after_start-Adds :
      (start_idx : ℕ) (run : Run) (p : Plans) (reply : Reply)
      → AddsStarted run.id run.plan_id p (after_start now start_idx groups plan loc run p reply)
  unfolding after_start record_assigned_targets
  after_start-Adds start_idx run p (raised r') = λ q id h. inr h
  after_start-Adds start_idx run p (enqueued r' result) =
      let base = record p { redis = r' } in
      let placed =
        record_assigned_targets result
          (record run { job_ids_by_group = set run.job_ids_by_group start_idx result.job_ids }) in
      let numbered = record placed {
        next_vmid = if placed.next_vmid == 0 then loc.vmid_start else placed.next_vmid;
      } in
      let saved = save_plan_run now numbered base in
      let stashed = record numbered { pending_group_rows = groups } in
      Adds-trans run.id run.plan_id base saved (save_plan_run now stashed saved)
        (save_plan_run-Adds now numbered base) (save_plan_run-Adds now stashed saved)

  start_found-Adds :
      (enqueue_fn : EnqueueFn) (rid : String) (q : Request) (p : Plans) (o : Option ℕ)
      → AddsStarted rid plan.id p (start_found enqueue_fn now rid q plan loc groups p o)
  unfolding start_found start_at run_shell
  start_found-Adds enqueue_fn rid q p none = tt
  start_found-Adds enqueue_fn rid q p (some i) =
      let run = run_shell now rid i q plan loc in
      let shell_saved = save_plan_run now run p in
      let reply = enqueue_fn (start_order i (rows_at groups i) run) shell_saved.redis in
      AddsStarted-trans rid plan.id p shell_saved _ (save_plan_run-Adds now run p)
        (after_start-Adds i run shell_saved reply)

  start_plan_run-Adds :
      (enqueue_fn : EnqueueFn) (rid : String) (q : Request) (p : Plans)
      → AddsStarted rid plan.id p (start_plan_run enqueue_fn now rid q plan loc groups p)
  unfolding start_plan_run
  start_plan_run-Adds enqueue_fn rid q p =
      elim (Bool-cases (length groups == length plan.group_ids)) [
        | inl same ↦ rw same (start_found-Adds enqueue_fn rid q p (first_group groups 0))
        | inr other ↦ rw other tt
      ]

module _ (inv : Inventory) (enqueue_fn : EnqueueFn) (now cutoff : String) (new_id : Plans → String)
    (plan : Plan) (loc : Location) (p : Plans) where
  start_with-Adds :
      (groups : List Group) (backups : List Backup) (tags : List (String × List String))
      → AddsReply
          (new_id p)
          plan.id
          p
          (start_with inv enqueue_fn now cutoff new_id plan loc p groups backups tags)
  unfolding start_with
  start_with-Adds groups backups tags =
      let group_rows = map (rows_of inv enqueue_fn now cutoff new_id tags backups) groups in
      elim (Bool-cases (any (λ rows. not (is_nil rows)) group_rows)) [
        | inl some_rows ↦ rw some_rows (
            started_reply-Adds (new_id p) plan.id p _ (
              start_plan_run-Adds now plan loc group_rows enqueue_fn (new_id p)
                (scheduled_request plan) p))
        | inr no_rows ↦ rw no_rows (λ q id h. inr h)
      ]

  pub start_scheduled-Adds :
      AddsReply (new_id p) plan.id p (start_scheduled inv enqueue_fn now cutoff new_id plan loc p)
  unfolding start_scheduled
  start_scheduled-Adds =
      let P = AddsReply (new_id p) plan.id p in
      let none_started : P (start_failed p) = λ q id h. inr h in
      by_option P none_started inv.backups (λ backups.
        by_option P none_started (plan_groups inv.groups plan.group_ids) (λ groups.
          by_option P none_started (scheduled_tags inv cutoff loc groups backups)
            (λ tags. start_with-Adds groups backups tags)))
