-- ===== src/Api/Boots.antt =====
-- Which runs that the API starts will boot guests, and where.
use restore_engine.Common.{
  ℕ, ◌≡◌, refl, sym, String, true, false, not, ◌&&◌, ◌||◌, List, Option, none, some, length, ◌==◌,
  nat_key, string_key, if◌then◌else◌, arith, inl, inr, ◌⊎◌, Bool-cases,
}
use restore_engine.Common.Text.{strip}
use restore_engine.Common.Parse.{lower}
use restore_engine.Runs.Tick.{is_nil}
use restore_engine.Groups.{any}
use restore_engine.Runs.{
  raised, Row, Run, Plan, Plans, EnqueueFn, Reply, enqueued, record_assigned_targets,
}
use restore_engine.Runs.Start.{
  Location, Request, plan_power, Started, started, refused, broken, run_shell, after_start,
  start_at, start_found, start_plan_run, first_group,
}
use restore_engine.Api.{
  RunPlanBody, Guard, passes, denies, is_isolated, assert_power_on_isolation, isolation_gate,
  wants_power, wants_live, request_of, RunReply, run_started, start_resolved, behind, run_at,
  reply_of,
}

-- A run has the power settings of its request and location.
abbrev HasPower : Request → Location → Run → Type 0
HasPower q loc run =
    (run.settings.power_on ≡ (plan_power q loc).power_on)
    × (run.settings.live_restore ≡ (plan_power q loc).live)

abbrev StartedHas : Request → Location → Started → Type 0
StartedHas q loc (started run p) = HasPower q loc run
StartedHas q loc _ = Unit

module _ (enqueue_fn : EnqueueFn) (now run_id : String) (q : Request) (plan : Plan) (loc : Location)
    (groups : List (List Row)) where
  after_start-HasPower :
      (i : ℕ) (p : Plans) (reply : Reply)
      → StartedHas q loc
          (after_start now i groups plan loc (run_shell now run_id i q plan loc) p reply)
  unfolding after_start record_assigned_targets run_shell
  after_start-HasPower i p (raised r') = tt
  after_start-HasPower i p (enqueued r' result) = (refl, refl)

  start_found-HasPower :
      (p : Plans) (o : Option ℕ)
      → StartedHas q loc (start_found enqueue_fn now run_id q plan loc groups p o)
  unfolding start_found start_at
  start_found-HasPower p none = tt
  start_found-HasPower p (some i) = after_start-HasPower i _ _

  start_plan_run-HasPower :
      (p : Plans) → StartedHas q loc (start_plan_run enqueue_fn now run_id q plan loc groups p)
  unfolding start_plan_run
  start_plan_run-HasPower p = elim (Bool-cases (length groups == length plan.group_ids)) [
    | inl same ↦ rw same (start_found-HasPower p (first_group groups 0))
    | inr other ↦ rw other tt
  ]

-- The guests are off their networks, or the run is a drill on a location with live restore that asks
-- for guests that are not left powered off.
abbrev pub IsGuarded : RunPlanBody → Location → Type 0
IsGuarded body loc =
    (is_isolated (if loc.network_mode == "" then "none" else loc.network_mode) loc.isolated ≡ true)
    ⊎ ((body.drill ≡ true) × (body.powered_off ≡ some false) × (loc.live_restore ≡ true))

-- What the gate has let through boots nothing by what it looked at, unless the guests are isolated.
gate_asks_nothing :
    (body : RunPlanBody) (loc : Location)
    → body.allow_non_isolated ≡ false
    → isolation_gate body loc ≡ passes
    → is_isolated (if loc.network_mode == "" then "none" else loc.network_mode) loc.isolated ≡ false
    → (wants_power body loc ≡ false) × (wants_live body loc ≡ false) × (body.qga_wait_sec ≡ 0)
unfolding isolation_gate assert_power_on_isolation
gate_asks_nothing body loc strict gate exposed = ground arith

boots_unasked :
    (body : RunPlanBody) (loc : Location)
    → wants_power body loc ≡ false
    → wants_live body loc ≡ false
    → body.qga_wait_sec ≡ 0
    → ((plan_power (request_of body) loc).power_on || (plan_power (request_of body) loc).live)
      ≡ true
    → (body.drill ≡ true) × (body.powered_off ≡ some false) × (loc.live_restore ≡ true)
unfolding plan_power
boots_unasked body loc power live qga boots = ground arith

gate_guards :
    (body : RunPlanBody) (loc : Location)
    → body.allow_non_isolated ≡ false
    → isolation_gate body loc ≡ passes
    → ((plan_power (request_of body) loc).power_on || (plan_power (request_of body) loc).live)
      ≡ true
    → IsGuarded body loc
gate_guards body loc strict gate boots =
    let mode = if loc.network_mode == "" then "none" else loc.network_mode in
    elim (Bool-cases (is_isolated mode loc.isolated)) [
      | inl isolated ↦ inl isolated
      | inr exposed ↦
          let (power, live, qga) = gate_asks_nothing body loc strict gate exposed in
          inr (boots_unasked body loc power live qga boots)
    ]

-- What holds of a run that boots guests, when the body does not allow that they are exposed.
abbrev pub BootsGuarded : RunPlanBody → Location → RunReply → Type 0
BootsGuarded body loc (run_started run p) =
    (run.settings.power_on || run.settings.live_restore) ≡ true → IsGuarded body loc
BootsGuarded body loc _ = Unit

module _ (resolve_rows : Plan → Location → Option (List (List Row))) (enqueue_fn : EnqueueFn)
    (now run_id : String) (body : RunPlanBody) (strict : body.allow_non_isolated ≡ false) where
  reply_of-BootsGuarded :
      (loc : Location) (s : Started)
      → isolation_gate body loc ≡ passes
      → StartedHas (request_of body) loc s
      → BootsGuarded body loc (reply_of s)
  reply_of-BootsGuarded loc (started run p) gate (power, live) =
      λ boots. gate_guards body loc strict gate (rw (sym power, sym live) boots)
  reply_of-BootsGuarded loc refused gate h = tt
  reply_of-BootsGuarded loc (broken p) gate h = tt

  start_resolved-BootsGuarded :
      (plan : Plan) (loc : Location) (p : Plans) (rows : Option (List (List Row)))
      → isolation_gate body loc ≡ passes
      → BootsGuarded body loc
          (start_resolved resolve_rows enqueue_fn now run_id body plan loc p rows)
  unfolding start_resolved
  start_resolved-BootsGuarded plan loc p none gate = tt
  start_resolved-BootsGuarded plan loc p (some group_rows) gate =
      elim (Bool-cases (any (λ rows. not (is_nil rows)) group_rows)) [
        | inl some_rows ↦ rw some_rows (
            reply_of-BootsGuarded loc _ gate (
              start_plan_run-HasPower enqueue_fn now run_id (request_of body) plan loc group_rows
                p))
        | inr no_rows ↦ rw no_rows tt
      ]

  gate-BootsGuarded :
      (loc : Location) (g : Guard) (reply : RunReply)
      → isolation_gate body loc ≡ g
      → (isolation_gate body loc ≡ passes → BootsGuarded body loc reply)
      → BootsGuarded body loc (behind resolve_rows enqueue_fn now run_id body g reply)
  unfolding behind
  gate-BootsGuarded loc passes reply e h = h e
  gate-BootsGuarded loc (denies d) reply e h = tt

  other_guard-BootsGuarded :
      (loc : Location) (g : Guard) (reply : RunReply)
      → BootsGuarded body loc reply
      → BootsGuarded body loc (behind resolve_rows enqueue_fn now run_id body g reply)
  unfolding behind
  other_guard-BootsGuarded loc passes reply h = h
  other_guard-BootsGuarded loc (denies d) reply h = tt

  pub run_at-BootsGuarded :
      (plan : Plan) (p : Plans) (loc : Location)
      → BootsGuarded body loc (run_at resolve_rows enqueue_fn now run_id body plan p (some loc))
  unfolding run_at
  run_at-BootsGuarded plan p loc =
      let restore_mode =
        lower (strip (if loc.restore_mode == "" then "normal" else loc.restore_mode)) in
      let reply =
        start_resolved resolve_rows enqueue_fn now run_id body plan loc p (resolve_rows plan loc) in
      elim (Bool-cases (restore_mode == "dr" && not body.confirm_dr)) [
        | inl unconfirmed ↦ rw unconfirmed tt
        | inr confirmed ↦ rw confirmed (
            other_guard-BootsGuarded loc _ _ (
              gate-BootsGuarded loc (isolation_gate body loc) reply refl
                (start_resolved-BootsGuarded plan loc p (resolve_rows plan loc))))
      ]
