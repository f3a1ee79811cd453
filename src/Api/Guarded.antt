-- ===== src/Api/Guarded.antt =====
-- The guards of `api_run_plan` as a whole.
use restore_engine.Common.{
  ◌≡◌, refl, String, Bool, true, false, not, ◌&&◌, ◌||◌, List, Option, none, some, lookup, nat_key,
  string_key, arith, by_test,
}
use mathlib.Core.Path.{subst}
use restore_engine.Common.Text.{strip}
use restore_engine.Jobs.{text_or}
use restore_engine.Runs.{Row, Run, Plan, Plans, EnqueueFn}
use restore_engine.Runs.Start.{Location, is_verified}
use restore_engine.Api.{
  RunPlanBody, RunReply, run_started, denied, start_raised, run_at, run_found, api_run_plan,
}
use restore_engine.Api.Boots.{IsGuarded, BootsGuarded, run_at-BootsGuarded}

-- A reply of a started run comes from a plan and a location that are stored.
abbrev IsAllowed :
    RunPlanBody → Bool → List (String × Location) → String → Plans → RunReply → Type 0
IsAllowed body require_verified locations plan_id p (run_started run p') =
    (run.settings.power_on || run.settings.live_restore) ≡ true
    → (plan : Plan) × (loc : Location) × (lookup plan_id p.plans ≡ some plan)
      × (plan.enabled ≡ true)
      × ((require_verified && not (is_verified plan.verification) && not body.allow_unverified)
          ≡ false)
      × (lookup (strip (text_or body.location_id plan.location_id)) locations ≡ some loc)
      × IsGuarded body loc
IsAllowed body require_verified locations plan_id p _ = Unit

module _ (resolve_rows : Plan → Location → Option (List (List Row))) (enqueue_fn : EnqueueFn)
    (now run_id : String) (body : RunPlanBody) (strict : body.allow_non_isolated ≡ false)
    (require_verified : Bool) (locations : List (String × Location)) (plan_id : String)
    (p : Plans) where
  run_at-IsAllowed :
      (plan : Plan) (o : Option Location)
      → lookup plan_id p.plans ≡ some plan
      → plan.enabled ≡ true
      → (require_verified && not (is_verified plan.verification) && not body.allow_unverified)
        ≡ false
      → lookup (strip (text_or body.location_id plan.location_id)) locations ≡ o
      → IsAllowed body require_verified locations plan_id p
          (run_at resolve_rows enqueue_fn now run_id body plan p o)
  unfolding run_at
  run_at-IsAllowed plan none found enabled checked there = tt
  run_at-IsAllowed plan (some loc) found enabled checked there =
      of_guarded _ (run_at-BootsGuarded resolve_rows enqueue_fn now run_id body strict plan p loc)
    where
      of_guarded :
          (reply : RunReply)
          → BootsGuarded body loc reply
          → IsAllowed body require_verified locations plan_id p reply
      of_guarded (run_started run p') h =
          λ boots. (plan, loc, found, enabled, checked, there, h boots)
      of_guarded (denied d) h = tt
      of_guarded (start_raised p') h = tt

  run_found-IsAllowed :
      (o : Option Plan)
      → lookup plan_id p.plans ≡ o
      → IsAllowed body require_verified locations plan_id p
          (run_found resolve_rows enqueue_fn now run_id body require_verified locations p o)
  unfolding run_found
  run_found-IsAllowed none found = tt
  run_found-IsAllowed (some plan) found =
      let unverified =
        require_verified && not (is_verified plan.verification) && not body.allow_unverified in
      let P = IsAllowed body require_verified locations plan_id p in
      by_test P (not plan.enabled) (λ disabled. tt)
        (λ enabled.
          by_test P unverified (λ refused_run. tt)
            (λ checked. run_at-IsAllowed plan _ found (ground (arith, enabled)) checked refl))

-- A run that the API starts, and that powers its guests on or restores them live although the body does not
-- allow exposed guests: its plan is stored and enabled, and verified where that is required and not
-- waived; its location is stored; and the location is isolated, or has a network mode that takes the
-- guests off their network - or else the run is a drill with `powered_off` false on a location with
-- live restore, which the isolation gate does not see.
pub api_run_plan_guards :
    (resolve_rows : Plan → Location → Option (List (List Row))) (enqueue_fn : EnqueueFn)
    (now run_id : String) (body : RunPlanBody) (require_verified : Bool)
    (locations : List (String × Location)) (plan_id : String) (p p' : Plans) (run : Run)
    → body.allow_non_isolated ≡ false
    → api_run_plan resolve_rows enqueue_fn now run_id body require_verified locations plan_id p
      ≡ run_started run p'
    → (run.settings.power_on || run.settings.live_restore) ≡ true
    → (plan : Plan) × (loc : Location) × (lookup plan_id p.plans ≡ some plan)
      × (plan.enabled ≡ true)
      × ((require_verified && not (is_verified plan.verification) && not body.allow_unverified)
          ≡ false)
      × (lookup (strip (text_or body.location_id plan.location_id)) locations ≡ some loc)
      × IsGuarded body loc
unfolding api_run_plan
api_run_plan_guards resolve_rows enqueue_fn now run_id body require_verified locations plan_id p p'
      run strict e =
    subst (IsAllowed body require_verified locations plan_id p) e (
      run_found-IsAllowed resolve_rows enqueue_fn now run_id body strict require_verified locations
        plan_id p (lookup plan_id p.plans) refl)
