-- ===== src/Worker/Loop.antt =====
-- worker.py: `run_job`, which is the thread of one job, and one round of `worker_loop`.
use restore_engine.Common.{
  ℕ, String, Bool, true, false, List, [], ◌∷◌, Option, none, some, if◌then◌else◌,
}
use restore_engine.Common.Int.{ℤ}
use restore_engine.States.{failed}
use restore_engine.Jobs.{Redis}
use restore_engine.Queue.{is_queue_paused}
use restore_engine.Slots.{Answers, try_acquire_slot, release_slot}
use restore_engine.Worker.{
  Host, World, Result, done, task_cancelled, timed_out, error, unfinished, ◌>>=◌, ◌>>◌, pause, say,
  move_to,
}
use restore_engine.Worker.Job.{JobEnding, Config}
use restore_engine.Worker.Boot.{process_job}

-- A worker process: its world and the counter of slots.
pub record Worker (C : Type 0) : Type 0 where
  pub world : World C
  pub slots : ℤ

module _ {C : Type 0} (host : Host C) (id : String) where
  -- The handler of every exception. The notification writes nothing.
  unfoldable pub fail : String → World C → World C
  unfolding ◌>>=◌
  fail msg w =
      ((move_to host id failed (("error", msg) ∷ ("progress", "0") ∷ [])
          >> say host id "ERROR" "FAILED" msg)
        w).0

  -- The slot is released behind the job, however it went. A job that still goes on has not come there.
  unfoldable pub finally : Answers → ℤ → World C × Result JobEnding → Worker C × Bool
  unfolding fail
  finally a slots (w, done e) = (record { world = w; slots = release_slot a slots }, true)
  finally a slots (w, error msg) =
      (record { world = fail msg w; slots = release_slot a slots }, true)
  finally a slots (w, timed_out msg) =
      (record { world = fail msg w; slots = release_slot a slots }, true)
  finally a slots (w, task_cancelled) =
      (record { world = fail "" w; slots = release_slot a slots }, true)
  finally a slots (w, unfinished) = (record { world = w; slots = slots }, false)

  -- The worker behind the job, and whether the job has come to its end.
  unfoldable pub run_job : Config → ℕ → Answers → Worker C → Worker C × Bool
  unfolding finally
  run_job config rounds a k = finally a k.slots (process_job host id config rounds k.world)

-- What a round of the loop did.
pub data Round : Type 0 where
  waited : Round  -- paused, or no slot is free
  nothing_queued : Round
  started_job : String → Round

module _ {C : Type 0} (host : Host C) where
  abbrev slept_world : ℕ → World C → World C
  slept_world ms w = (pause host ms w).0

  abbrev popped : List String → Redis → Redis
  popped queue r = record r { queue = queue }

  -- BLPOP: the first id, for which it waits two seconds.
  unfoldable pub take_id : World C → List String → World C × Option String
  take_id w [] = (w, none)
  take_id w (id ∷ queue) = (record w { redis = popped queue w.redis }, some id)

  unfoldable pub blpop_from : World C → List String → World C × Option String
  unfolding take_id pause
  blpop_from w [] = let w' = slept_world 2000 w in take_id w' w'.redis.queue
  blpop_from w (id ∷ queue) = take_id w (id ∷ queue)

  unfoldable pub blpop : World C → World C × Option String
  unfolding blpop_from
  blpop w = blpop_from w w.redis.queue

  -- With a slot in hand.
  unfoldable pub claim_job : Answers → ℤ → World C × Option String → Worker C × Round
  claim_job a slots (w, none) = (record { world = w; slots = release_slot a slots }, nothing_queued)
  claim_job a slots (w, some id) = (record { world = w; slots = slots }, started_job id)

  -- One round. `ticks` are the plan runs, the readiness checks, the schedules and the purge, each in a
  -- `try` of its own, and `limit` is the limit that is read anew.
  unfoldable pub loop_round :
      (World C → World C) → ℕ → Answers → Answers → Worker C → Worker C × Round
  unfolding blpop claim_job
  loop_round ticks limit a b k =
      if is_queue_paused k.world.redis
      then (record k { world = slept_world 1000 k.world }, waited)
      else (let w = ticks k.world in
          let (slots, acquired) = try_acquire_slot a limit k.slots in
          if acquired
          then claim_job b slots (blpop w)
          else (record { world = slept_world 1000 w; slots = slots }, waited))
