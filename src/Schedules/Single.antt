-- ===== src/Schedules/Single.antt =====
-- One run at a time: a tick of the schedules over runs of which no plan has two.
use restore_engine.Common.{
  ℕ, ◌≡◌, String, Bool, true, false, ◌&&◌, List, [], ◌∷◌, Option, none, some, map, lookup, contains,
  ◌==◌, nat_key, string_key, eq_iff, arith, ap, sym, ◌∙◌, inl, inr, Bool-cases,
}
use mathlib.Core.Path.{subst}
use restore_engine.Groups.{any}
use restore_engine.Runs.{Plan, Plans, EnqueueFn}
use restore_engine.Runs.Start.{Location}
use restore_engine.Schedules.{
  plans_due_for_schedule, is_run_of, has_active_run, StartReply, run_started, start_failed,
  after_tick, tick_at, tick_plans, tick_scheduled_plan_runs,
}
use restore_engine.Schedules.Start.{Inventory, start_scheduled}
use restore_engine.Schedules.Adds.{runs_for, IsActiveRun, Adds, AddsReply, start_scheduled-Adds}

-- No plan has two active runs.
abbrev pub IsSingle : Plans → Type 0
IsSingle p = (pid a b : String) → IsActiveRun pid p a → IsActiveRun pid p b → a ≡ b

any_member :
    (f : String → Bool) (ids : List String) (id : String)
    → any f ids ≡ false
    → contains id ids ≡ true
    → f id ≡ false
unfolding contains
any_member f [] id h k = cc
any_member f (i ∷ ids) id h k = elim (Bool-cases (i == id)) [
  | inl same ↦ ground (arith, ap f ((eq_iff i id).0 same))
  | inr other ↦ any_member f ids id (ground arith) (ground arith)
]

has_no_active_run :
    (plan : Plan) (p : Plans) (id : String)
    → has_active_run plan p ≡ false
    → IsActiveRun plan.id p id
    → ⊥
unfolding has_active_run
has_no_active_run plan p id h k =
    elim (lookup id p.runs)
        as (λ o.
          is_run_of plan o ≡ false → (contains id p.active && runs_for plan.id o) ≡ true → ⊥) [
            | none ↦ λ f k. ground arith
            | some run ↦ λ f k. ground arith
          ]
      (any_member (λ id. is_run_of plan (lookup id p.runs)) p.active id h (ground arith)) k

Adds-IsSingle :
    (rid : String) (plan : Plan) (p p' : Plans)
    → has_active_run plan p ≡ false
    → Adds rid plan.id p p'
    → IsSingle p
    → IsSingle p'
Adds-IsSingle rid plan p p' idle adds single pid a b ha hb = elim (adds pid a ha) [
  | inl (ea, e) ↦ elim (adds pid b hb) [
    | inl (eb, _) ↦ ea ∙ sym eb
    | inr old ↦ absurd (has_no_active_run plan p b idle (subst (λ q. IsActiveRun q p b) e old))
  ]
  | inr old_a ↦ elim (adds pid b hb) [
    | inl (_, e) ↦ absurd (has_no_active_run plan p a idle (subst (λ q. IsActiveRun q p a) e old_a))
    | inr old_b ↦ single pid a b old_a old_b
  ]
]

-- Saving a plan changes no run.
after_tick-Adds :
    (rid pid stamp : String) (plan : Plan) (p : Plans) (reply : StartReply)
    → AddsReply rid pid p reply
    → Adds rid pid p (after_tick stamp plan reply)
unfolding after_tick
after_tick-Adds rid pid stamp plan p (run_started p') h = h
after_tick-Adds rid pid stamp plan p (start_failed p') h = h

module _ (inv : Inventory) (enqueue_fn : EnqueueFn) (now cutoff : String) (new_id : Plans → String)
    (stamp : String) where
  tick_at-IsSingle :
      (p : Plans) (plan : Plan) (o : Option Location)
      → IsSingle p
      → IsSingle (tick_at (start_scheduled inv enqueue_fn now cutoff new_id) stamp p plan o)
  unfolding tick_at
  tick_at-IsSingle p plan none single = single
  tick_at-IsSingle p plan (some loc) single = elim (Bool-cases (has_active_run plan p)) [
    | inl busy ↦ rw busy single
    | inr idle ↦ rw idle (
        Adds-IsSingle (new_id p) plan p
          (after_tick stamp plan (start_scheduled inv enqueue_fn now cutoff new_id plan loc p)) idle
          (after_tick-Adds (new_id p) plan.id stamp plan p _
            (start_scheduled-Adds inv enqueue_fn now cutoff new_id plan loc p))
          single)
  ]

  tick_plans-IsSingle :
      (locations : List (String × Location)) (due : List Plan) (p : Plans)
      → IsSingle p
      → IsSingle
          (tick_plans locations (start_scheduled inv enqueue_fn now cutoff new_id) stamp due p)
  unfolding tick_plans
  tick_plans-IsSingle locations [] p single = single
  tick_plans-IsSingle locations (plan ∷ due) p single =
      tick_plans-IsSingle locations due _
        (tick_at-IsSingle p plan (lookup plan.location_id locations) single)

-- When no plan has two active runs, a tick of the schedules with the worker's start leaves it so:
-- whichever plans are due, in whichever order, whatever the inventory has, whatever the enqueue does
-- (it may raise, and then leaves a run shell that is active), and whatever ids the runs get.
pub tick_scheduled-IsSingle :
    (inv : Inventory) (enqueue_fn : EnqueueFn) (now cutoff : String) (new_id : Plans → String)
    (locations : List (String × Location)) (stamp : String) (parse : String → Option ℕ) (clock : ℕ)
    (p : Plans)
    → IsSingle p
    → IsSingle (
        tick_scheduled_plan_runs locations
          (start_scheduled inv enqueue_fn now cutoff new_id)
          stamp
          parse
          clock
          p)
unfolding tick_scheduled_plan_runs
tick_scheduled-IsSingle inv enqueue_fn now cutoff new_id locations stamp parse clock p single =
    tick_plans-IsSingle inv enqueue_fn now cutoff new_id stamp locations
      (plans_due_for_schedule parse clock (map (λ kv. kv.1) p.plans)) p single
