-- ===== src/Examples/Queues.antt =====
-- A queue that is drained, and a job that is stopped.
use restore_engine.Common.{
  ◌≡◌, refl, true, false, ◌&&◌, ◌||◌, [], ◌∷◌, some, if◌then◌else◌, lookup, put, put_all, contains,
  ◌==◌, string_key,
}
use restore_engine.Common.Text.{lstrip, rstrip, strip}
use restore_engine.Jobs.{Redis, hget, hset, hgetall, is_text, state_of}
use restore_engine.Queue.{stopped, is_queue_paused, drain_pending_jobs, stop_job}
use restore_engine.Queue.Drain.{cancel_if, popped_ids, drain_pending_exact}
use restore_engine.Queue.Stop.{is_stoppable, stop_job_exact}
use restore_engine.Examples.{redis_with}

-- "a" waits, "b" is being restored; "c" is queued and has no hash.
abbrev busy : Redis
busy =
    record (redis_with (
      ("a", ("job_id", "a") ∷ ("state", "PENDING") ∷ [])
      ∷ ("b", ("job_id", "b") ∷ ("state", "RESTORING") ∷ [])
      ∷ [])) { queue = "a" ∷ "c" ∷ [] }

drained_states :
    let r' = (drain_pending_jobs "t1" busy).redis in
    (state_of r' "a" ≡ "CANCELLED")
    × (state_of r' "b" ≡ "RESTORING")
    × (state_of r' "c" ≡ "CANCELLED")
unfolding drain_pending_jobs state_of hset hget hgetall lookup put put_all contains strip lstrip
    rstrip
drained_states = (refl, refl, refl)

drain_pending_exact_example :
    let r' = (drain_pending_jobs "t1" busy).redis in
    (is_queue_paused r' ≡ true)
    × (state_of r' "a"
        ≡ cancel_if
            ((state_of busy "a" == "PENDING")
              || (contains "a" (popped_ids busy.queue) && (state_of busy "a" == "")))
            (state_of busy "a"))
drain_pending_exact_example = drain_pending_exact "t1" busy "a"

stoppable : is_stoppable busy "a" ≡ true
unfolding hget hgetall lookup
stoppable = refl

unknown_job : is_stoppable busy "x" ≡ false
unfolding hget hgetall lookup
unknown_job = refl

stop_job_exact_example :
    let (r', reply) = stop_job "t1" "a" busy in
    (hget r' "a" "cancel_requested" ≡ some "1")
    × (hget r' "a" "state" ≡ (
        if is_text (hget busy "a" "state") "PENDING"
        then some "CANCELLED"
        else hget busy "a" "state"))
    × (contains "a" r'.queue ≡ false)
    × (reply ≡ stopped (hgetall r' "a"))
stop_job_exact_example = stop_job_exact "t1" "a" busy stoppable
