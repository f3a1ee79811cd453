-- ===== src/Schedules.antt =====
-- plans.py: which plans are due, and the tick that starts scheduled runs; and `_start_scheduled` of
-- worker.py, which is its `start_fn`. Times are seconds; `parse` is `datetime.fromisoformat` with a
-- missing time zone read as UTC, and none for a text that is no time.
pub mod Start
pub mod Adds
pub mod Single
pub mod Stale
use restore_engine.Common.{
  ℕ, ◌+◌, ◌*◌, String, Bool, true, false, not, ◌&&◌, List, [], ◌∷◌, Option, none, some, map, filter,
  lookup, put, ltb, leb, ◌==◌, string_key, if◌then◌else◌,
}
use restore_engine.Common.Text.{strip}
use restore_engine.Runs.{Plan, Plans, Run, is_running}
use restore_engine.Runs.Start.{Location}
use restore_engine.Groups.{any}

-- `(now - last).total_seconds() >= sec`, and true where there is no last time.
unfoldable pub is_past : Option ℕ → ℕ → ℕ → Bool
is_past none sec now = true
is_past (some last) sec now = leb (last + sec) now

module _ (parse : String → Option ℕ) (now : ℕ) where
  unfoldable pub is_due_for_check : ℕ → Plan → Bool
  unfolding is_past
  is_due_for_check interval_sec plan =
      plan.enabled && is_past (parse (strip plan.last_check_at)) interval_sec now

  unfoldable pub plans_due_for_check : ℕ → List Plan → List Plan
  unfolding is_due_for_check
  plans_due_for_check interval_sec plans = filter (is_due_for_check interval_sec) plans

  -- A blank time parses to none.
  unfoldable pub is_due_for_schedule : Plan → Bool
  unfolding is_past
  is_due_for_schedule plan =
      plan.enabled
      && plan.schedule_enabled
      && ltb 0 plan.schedule_interval_hours
      && is_past (parse (strip plan.last_scheduled_run_at)) (plan.schedule_interval_hours * 3600)
          now

  unfoldable pub plans_due_for_schedule : List Plan → List Plan
  unfolding is_due_for_schedule
  plans_due_for_schedule plans = filter is_due_for_schedule plans

-- A run that goes on for a plan.
abbrev pub is_run_of : Plan → Option Run → Bool
is_run_of plan none = false
is_run_of plan (some run) = run.plan_id == plan.id && is_running run.status

unfoldable pub has_active_run : Plan → Plans → Bool
has_active_run plan p = any (λ id. is_run_of plan (lookup id p.runs)) p.active

-- What `start_fn` leaves behind: it returns, or it raises.
pub data StartReply : Type 0 where
  run_started : Plans → StartReply
  start_failed : Plans → StartReply

abbrev pub StartFn : Type 0
StartFn = Plan → Location → Plans → StartReply

-- The plan is saved as it was listed, with the new time; an exception is only logged.
unfoldable pub after_tick : String → Plan → StartReply → Plans
after_tick stamp plan (start_failed p) = p
after_tick stamp plan (run_started p) = record p {
  plans = put plan.id (record plan { last_scheduled_run_at = stamp }) p.plans;
}

-- One plan of the list.
unfoldable pub tick_at : StartFn → String → Plans → Plan → Option Location → Plans
unfolding has_active_run after_tick
tick_at start_fn stamp p plan none = p
tick_at start_fn stamp p plan (some location) =
    if has_active_run plan p then p else after_tick stamp plan (start_fn plan location p)

module _ (locations : List (String × Location)) (start_fn : StartFn) (stamp : String) where
  -- The `for` loop over the plans that were due when the tick began.
  unfoldable pub tick_plans : List Plan → Plans → Plans
  unfolding tick_at
  tick_plans [] p = p
  tick_plans (plan ∷ plans) p =
      tick_plans plans (tick_at start_fn stamp p plan (lookup plan.location_id locations))

  unfoldable pub tick_scheduled_plan_runs : (String → Option ℕ) → ℕ → Plans → Plans
  unfolding tick_plans plans_due_for_schedule
  tick_scheduled_plan_runs parse now p =
      tick_plans (plans_due_for_schedule parse now (map (λ kv. kv.1) p.plans)) p
