-- ===== src/Runs/Start/Ordered.antt =====
-- A run that `start_plan_run` returns begins in order.
use restore_engine.Common.{nat_key}
use restore_engine.Runs.Ordered.{IsOrdered}
use restore_engine.Runs.Start.{Started, started}

abbrev InOrder : Started → Type 0
InOrder (started run p) = IsOrdered p.redis run
InOrder _ = Unit
