-- ===== src/States.antt =====
-- states.py, and the sets of terminal job states of plans.py and job_hygiene.py.
use restore_engine.Common.{String, Bool, ◌||◌, ◌==◌, string_key}

pub data RestoreState : Type 0 where
  pending restoring completed failed cancelled : RestoreState

-- `.value` of the members
abbrev pub value : RestoreState → String
value pending = "PENDING"
value restoring = "RESTORING"
value completed = "COMPLETED"
value failed = "FAILED"
value cancelled = "CANCELLED"

pub data PlanVerification : Type 0 where
  not_verified needs_verified verified : PlanVerification

pub data PlanAssurance : Type 0 where
  unknown in_progress assured assurance_failed : PlanAssurance

pub data PlanRunStatus : Type 0 where
  running run_completed run_failed run_cancelled : PlanRunStatus

-- `state in TERMINAL`
abbrev pub is_terminal : String → Bool
is_terminal s = s == "COMPLETED" || s == "FAILED" || s == "CANCELLED"
