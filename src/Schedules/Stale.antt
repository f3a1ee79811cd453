-- ===== src/Schedules/Stale.antt =====
-- What the tick of the schedules leaves of a plan whose run it started.
use restore_engine.Common.{◌≡◌, String, some, lookup, nat_key, string_key}
use restore_engine.Runs.{Plan}
use restore_engine.Runs.Start.{Started, started, plan_after}
use restore_engine.Schedules.{StartReply, run_started, start_failed}

-- A start that returns has stored the plan as `plan_after` makes it.
abbrev Stamps : String → Plan → Started → Type 0
Stamps now plan (started run p) = lookup plan.id p.plans ≡ some (plan_after now plan)
Stamps now plan _ = Unit

abbrev StampsReply : String → Plan → StartReply → Type 0
StampsReply now plan (run_started p) = lookup plan.id p.plans ≡ some (plan_after now plan)
StampsReply now plan (start_failed p) = Unit
