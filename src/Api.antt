-- ===== src/Api.antt =====
-- main.py: `api_run_plan`, the start of a plan run by hand, with the guards in front of it.
-- `resolve_rows` stands for `_resolve_plan_group_rows`, which reads the inventory of PBS and may raise;
-- its error counts as a bad request here.
-- The audit entry and the statistics of the answer are not kept.
pub mod Boots
pub mod Guarded
use restore_engine.Common.{
  ℕ, String, Bool, true, false, not, ◌&&◌, ◌||◌, List, [], ◌∷◌, Option, none, some, lookup, ltb,
  ◌==◌, nat_key, string_key, if◌then◌else◌,
}
use restore_engine.Common.Text.{strip}
use restore_engine.Common.Parse.{lower}
use restore_engine.Jobs.{text_or}
use restore_engine.States.{PlanVerification, verified}
use restore_engine.Runs.{Row, Run, Plan, Plans, EnqueueFn}
use restore_engine.Runs.Tick.{is_nil}
use restore_engine.Runs.Start.{
  Location, Request, Started, started, refused, broken, start_plan_run, is_verified,
}
use restore_engine.Groups.{any}

pub record RunPlanBody : Type 0 where
  pub location_id : Option String
  pub drill : Bool
  pub auto_teardown : Bool
  pub powered_off : Option Bool
  pub power_on : Bool
  pub qga_wait_sec : ℕ
  pub allow_unverified : Bool
  pub confirm_dr : Bool
  pub overwrite : Bool
  pub confirm_overwrite : Bool
  pub allow_non_isolated : Bool

-- HTTPException, by its detail.
pub data Denial : Type 0 where
  plan_not_found plan_disabled plan_unverified unknown_location dr_unconfirmed : Denial
  overwrite_without_dr overwrite_unconfirmed not_isolated no_backups bad_request : Denial

-- A guard passes, or raises.
pub data Guard : Type 0 where
  passes : Guard
  denies : Denial → Guard

unfoldable pub normalize_net_mode : String → String
normalize_net_mode raw =
    let mode = lower (strip (if raw == "" then "none" else raw)) in
    if mode == "none" || mode == "unlink" || mode == "remap" then mode else "none"

unfoldable pub assert_overwrite_confirm : Bool → Bool → String → Guard
assert_overwrite_confirm overwrite confirm_overwrite restore_mode =
    if not overwrite
    then passes
    else if not (lower (strip restore_mode) == "dr")
    then denies overwrite_without_dr
    else if confirm_overwrite
    then passes
    else denies overwrite_unconfirmed

-- `isolated`, or a network mode that takes the guests off their network.
abbrev pub is_isolated : String → Bool → Bool
is_isolated network_mode isolated =
    isolated
    || normalize_net_mode network_mode == "unlink"
    || normalize_net_mode network_mode == "remap"

unfoldable pub assert_power_on_isolation : Bool → ℕ → Bool → String → Bool → Bool → Guard
assert_power_on_isolation power_on qga_wait_sec live_restore network_mode isolated
      allow_non_isolated =
    if not (power_on || ltb 0 qga_wait_sec || live_restore) || allow_non_isolated
    then passes
    else if is_isolated network_mode isolated
    then passes
    else denies not_isolated

abbrev pub wants_power : RunPlanBody → Location → Bool
wants_power body loc = body.power_on || (not body.drill && loc.power_on)

-- `powered_off is not True`
abbrev pub not_off : Option Bool → Bool
not_off (some true) = false
not_off _ = true

abbrev pub wants_live : RunPlanBody → Location → Bool
wants_live body loc = loc.live_restore && not body.drill && not_off body.powered_off

-- The gate, in front of which the code looks whether something will boot.
unfoldable pub isolation_gate : RunPlanBody → Location → Guard
unfolding assert_power_on_isolation
isolation_gate body loc =
    if wants_power body loc || wants_live body loc || ltb 0 body.qga_wait_sec
    then assert_power_on_isolation (wants_power body loc)
        (if body.qga_wait_sec == 0 then loc.qga_wait_sec else body.qga_wait_sec)
        (wants_live body loc) (if loc.network_mode == "" then "none" else loc.network_mode)
        loc.isolated body.allow_non_isolated
    else passes

abbrev pub request_of : RunPlanBody → Request
request_of body = record {
  drill = body.drill;
  auto_teardown = body.auto_teardown;
  powered_off = body.powered_off;
  power_on = body.power_on;
  qga_wait_sec = body.qga_wait_sec;
  overwrite = body.overwrite;
}

-- A run with the state it leaves, an HTTP error, or the exception of the enqueue.
pub data RunReply : Type 0 where
  run_started : Run → Plans → RunReply
  denied : Denial → RunReply
  start_raised : Plans → RunReply

abbrev pub reply_of : Started → RunReply
reply_of (started run p) = run_started run p
reply_of refused = denied bad_request
reply_of (broken p) = start_raised p

module _ (resolve_rows : Plan → Location → Option (List (List Row))) (enqueue_fn : EnqueueFn)
    (now run_id : String) (body : RunPlanBody) where
  unfoldable pub start_resolved : Plan → Location → Plans → Option (List (List Row)) → RunReply
  start_resolved plan loc p none = denied bad_request
  start_resolved plan loc p (some group_rows) =
      if any (λ rows. not (is_nil rows)) group_rows
      then reply_of (start_plan_run enqueue_fn now run_id (request_of body) plan loc group_rows p)
      else denied no_backups

  unfoldable pub behind : Guard → RunReply → RunReply
  behind passes reply = reply
  behind (denies denial) reply = denied denial

  unfoldable pub run_at : Plan → Plans → Option Location → RunReply
  unfolding behind start_resolved
  run_at plan p none = denied unknown_location
  run_at plan p (some loc) =
      let restore_mode =
        lower (strip (if loc.restore_mode == "" then "normal" else loc.restore_mode)) in
      if restore_mode == "dr" && not body.confirm_dr
      then denied dr_unconfirmed
      else behind (assert_overwrite_confirm body.overwrite body.confirm_overwrite restore_mode)
          (behind (isolation_gate body loc) (start_resolved plan loc p (resolve_rows plan loc)))

  unfoldable pub run_found : Bool → List (String × Location) → Plans → Option Plan → RunReply
  unfolding run_at
  run_found require_verified locations p none = denied plan_not_found
  run_found require_verified locations p (some plan) =
      if not plan.enabled
      then denied plan_disabled
      else if require_verified && not (is_verified plan.verification) && not body.allow_unverified
      then denied plan_unverified
      else run_at plan p (lookup (strip (text_or body.location_id plan.location_id)) locations)

  unfoldable pub api_run_plan : Bool → List (String × Location) → String → Plans → RunReply
  unfolding run_found
  api_run_plan require_verified locations plan_id p =
      run_found require_verified locations p (lookup plan_id p.plans)
