-- ===== src/Readiness/Tick.antt =====
-- `tick_plan_readiness` of plans.py: the checks that are due, one after the other.
pub mod Settled
use restore_engine.Common.{
  ℕ, zero, String, Bool, true, false, List, [], ◌∷◌, Option, none, some, map, ◌==◌, nat_key,
  if◌then◌else◌,
}
use restore_engine.Runs.{Plan, Plans}
use restore_engine.Schedules.{plans_due_for_check}
use restore_engine.Readiness.{error_level, Item}
use restore_engine.Readiness.Run.{Check, apply_check_result}

-- `run_plan_readiness` returns, with the verdict stored, or raises.
pub data CheckReply : Type 0 where
  checked : Plans → CheckReply
  crashed : Plans → CheckReply

-- `_default_cutoff(None)` is the last second of the year 9999.
abbrev pub crash_check : String → Check
crash_check checked_at = record {
  ok = false;
  checked_at = checked_at;
  cutoff = "9999-12-31T23:59:59Z";
  member_count = 0;
  items = record { level = error_level; code = "check.crash" } ∷ [];
  size_summary = none;
}

-- A crash is stored as a failed check. `on_error`, which the worker gives, only writes to its log.
unfoldable pub after_check : String → Plan → CheckReply → Plans
after_check stamp plan (checked p) = p
after_check stamp plan (crashed p) = apply_check_result plan (crash_check stamp) p

module _ (check_fn : Plan → Plans → CheckReply) (stamp : String) where
  unfoldable pub tick_checks : List Plan → Plans → Plans
  unfolding after_check
  tick_checks [] p = p
  tick_checks (plan ∷ due) p = tick_checks due (after_check stamp plan (check_fn plan p))

  -- An interval of 0 turns the checks off.
  unfoldable pub tick_plan_readiness : (String → Option ℕ) → ℕ → ℕ → Plans → Plans
  unfolding tick_checks
  tick_plan_readiness parse interval_sec now p =
      if interval_sec == 0
      then p
      else tick_checks (plans_due_for_check parse now interval_sec (map (λ kv. kv.1) p.plans)) p
