-- ===== src/PlanEdits.antt =====
-- plans.py: `normalize_plan`, `create_plan` and `update_plan`, which store a recovery plan.
-- The payload of an update has the keys of `PlanUpdate` in main.py, and `verification`; the last check
-- and run of a plan are not among them. The reports and the verdict of assurance are not kept.
pub mod Membership
use restore_engine.Common.{
  ℕ, String, Bool, true, false, not, ◌&&◌, ◌||◌, List, [], ◌∷◌, Option, none, some, map, filter,
  lookup, put, ◌==◌, string_key, if◌then◌else◌,
}
use restore_engine.Common.Text.{strip}
use restore_engine.States.{PlanVerification, not_verified, needs_verified, unknown}
use restore_engine.Runs.{Plan, Plans}
use restore_engine.Runs.Tick.{is_nil}

-- A key of the payload: it is missing, its value is None, or it has one.
pub data Patch {ℓ} (A : Type ℓ) : Type ℓ where
  absent : Patch A
  null : Patch A
  given : A → Patch A

pub record PlanForm : Type 0 where
  pub name : Patch String
  pub group_ids : Patch (List String)
  pub location_id : Patch String
  pub halt_on_error : Patch Bool
  pub enabled : Patch Bool
  pub schedule_enabled : Patch Bool
  pub schedule_interval_hours : Patch ℕ
  pub schedule_drill : Patch Bool
  pub assurance_enabled : Patch Bool
  pub assurance_require_qga : Patch Bool
  pub assurance_require_http : Patch Bool
  pub assurance_max_rto_sec : Patch ℕ
  pub verification : Patch (Option PlanVerification)  -- none for a text that is no state

-- `{**existing, **payload}`: the value of a key, of which none is None.
abbrev pub merge {ℓ} : {A : Type ℓ} → Patch A → A → Option A
merge absent old = some old
merge null old = none
merge (given new) old = some new

-- ValueError, by its message.
pub data PlanError : Type 0 where
  no_name no_groups no_location bad_verification : PlanError

pub data NormalizedPlan : Type 0 where
  accepted : Plan → NormalizedPlan
  rejected : PlanError → NormalizedPlan

-- `value or ""`, `value or []`, `bool(value)`, `value or 0`
abbrev pub or_value {ℓ} : {A : Type ℓ} → Option A → A → A
or_value none d = d
or_value (some x) d = x

-- `[str(g).strip() for g in ids if str(g).strip()]`
abbrev pub clean_ids : List String → List String
clean_ids [] = []
clean_ids (gid ∷ ids) =
    let rest = clean_ids ids in if strip gid == "" then rest else strip gid ∷ rest

-- `verification` of the merged payload: none where it is no state.
abbrev pub known_verification : Option (Option PlanVerification) → Option PlanVerification
known_verification none = some not_verified
known_verification (some v) = v

-- What the other keys of the payload make of the plan `old`.
unfoldable pub settle_plan :
    PlanForm → Plan → String → List String → String → PlanVerification → Plan
settle_plan form old name group_ids location_id verification = record old {
  name = name;
  group_ids = group_ids;
  location_id = location_id;
  verification = verification;
  halt_on_error = or_value (merge form.halt_on_error old.halt_on_error) false;
  enabled = or_value (merge form.enabled old.enabled) false;
  schedule_enabled = or_value (merge form.schedule_enabled old.schedule_enabled) false;
  schedule_interval_hours =
      or_value (merge form.schedule_interval_hours old.schedule_interval_hours) 0;
  schedule_drill = or_value (merge form.schedule_drill old.schedule_drill) false;
  assurance_enabled = or_value (merge form.assurance_enabled old.assurance_enabled) false;
  assurance_require_qga =
      or_value (merge form.assurance_require_qga old.assurance_require_qga) false;
  assurance_require_http =
      or_value (merge form.assurance_require_http old.assurance_require_http) false;
  assurance_max_rto_sec = or_value (merge form.assurance_max_rto_sec old.assurance_max_rto_sec) 0;
}

-- `normalize_plan` of the merged payload.
unfoldable pub normalize_plan : PlanForm → Plan → Option PlanVerification → NormalizedPlan
unfolding settle_plan
normalize_plan form old verification =
    let name = strip (or_value (merge form.name old.name) "") in
    let group_ids = clean_ids (or_value (merge form.group_ids old.group_ids) []) in
    let location_id = strip (or_value (merge form.location_id old.location_id) "") in
    if name == ""
    then rejected no_name
    else if is_nil group_ids
    then rejected no_groups
    else if location_id == ""
    then rejected no_location
    else elim verification [
      | none ↦ rejected bad_verification
      | some v ↦ accepted (settle_plan form old name group_ids location_id v)
    ]

abbrev pub same_ids : List String → List String → Bool
same_ids [] [] = true
same_ids [] (y ∷ ys) = false
same_ids (x ∷ xs) [] = false
same_ids (x ∷ xs) (y ∷ ys) = x == y && same_ids xs ys

unfoldable pub groups_changed : Patch (List String) → List String → Bool
groups_changed (given ids) old = not (same_ids (clean_ids ids) old)
groups_changed _ old = false

unfoldable pub location_changed : Patch String → String → Bool
location_changed absent old = false
location_changed null old = not ("" == old)
location_changed (given id) old = not (strip id == old)

unfoldable pub membership_changed : PlanForm → Plan → Bool
unfolding groups_changed location_changed
membership_changed form old =
    groups_changed form.group_ids old.group_ids || location_changed form.location_id old.location_id

-- A change of the members takes the verification back, unless the payload says otherwise.
unfoldable pub merged_verification : PlanForm → Plan → Option PlanVerification
unfolding membership_changed
merged_verification form old = elim form.verification [
  | absent ↦ if membership_changed form old then some needs_verified else some old.verification
  | null ↦ known_verification none
  | given v ↦ known_verification (some v)
]

abbrev pub save_plan : String → Plan → Plans → Plans
save_plan id plan p = record p { plans = put id (record plan { id = id }) p.plans }

pub data Updated : Type 0 where
  updated : Plan → Plans → Updated
  unknown_plan : Updated  -- KeyError
  refused : PlanError → Updated

unfoldable pub save_normalized : String → NormalizedPlan → Plans → Updated
save_normalized id (rejected error) p = refused error
save_normalized id (accepted plan) p = updated (record plan { id = id }) (save_plan id plan p)

unfoldable pub update_found : PlanForm → String → Plans → Option Plan → Updated
unfolding normalize_plan merged_verification save_normalized
update_found form id p none = unknown_plan
update_found form id p (some old) =
    save_normalized id (normalize_plan form old (merged_verification form old)) p

unfoldable pub update_plan : PlanForm → String → Plans → Updated
unfolding update_found
update_plan form id p = update_found form id p (lookup id p.plans)

-- A new plan: what the payload leaves out has these values.
abbrev pub default_plan : Plan
default_plan = record {
  id = "";
  name = "";
  group_ids = [];
  location_id = "";
  halt_on_error = true;
  enabled = true;
  verification = not_verified;
  schedule_enabled = false;
  schedule_interval_hours = 0;
  schedule_drill = true;
  last_scheduled_run_at = "";
  last_check_at = "";
  last_run_at = "";
  assurance_enabled = false;
  assurance_require_qga = false;
  assurance_require_http = false;
  assurance_max_rto_sec = 0;
  assurance_status = unknown;
  assurance_updated_at = "";
  assurance_last_run_id = "";
  assurance_last_rto_sec = none;
  assurance_detail = none;
  last_run_report_id = "";
}

-- `id` is the fresh uuid.
unfoldable pub create_plan : PlanForm → String → Plans → Updated
unfolding normalize_plan save_normalized
create_plan form id p =
    save_normalized id
      (normalize_plan form default_plan
        (known_verification (merge form.verification (some default_plan.verification))))
      p
