-- ===== src/Runs/Cancel/Exact.antt =====
-- What the cancel of a run does to each job.
use restore_engine.Common.{string_key}
