-- ===== src/Worker/Restart.antt =====
-- A worker process that starts while another one has just taken a job: `reconcile_slots` of
-- concurrency.py, and the round of `worker_loop` before it.
use restore_engine.Common.Int.{pos}
use restore_engine.Common.{◌+◌, ◌≡◌, refl, ap, ◌∙◌, String, true, false, List, ◌∷◌, ltb, arith}
use restore_engine.Queue.{is_queue_paused}
use restore_engine.Slots.{try_acquire_slot, count_restoring_jobs, reconcile_slots}
use restore_engine.Slots.Sequential.{try_acquire_exact}
use restore_engine.Worker.{Host, World}
use restore_engine.Worker.Loop.{
  Worker, started_job, take_id, blpop, blpop_from, claim_job, loop_round,
}
use restore_engine.Worker.Claims.{all_answered}

-- A round over a queue with an id, with one slot free, where the counter is the number of jobs that are
-- RESTORING: it starts the job and fills the last slot, so that the next claim is refused; and it
-- leaves the number of jobs that are RESTORING. So if a process starts now and reconciles, the next
-- claim is granted, although no slot has been released.
pub reconcile_overbooks :
    {C : Type 0} (host : Host C) (ticks : World C → World C) (k : Worker C) (id : String)
    (queue : List String)
    → is_queue_paused k.world.redis ≡ false
    → (ticks k.world).redis.queue ≡ id ∷ queue
    → k.slots ≡ pos (count_restoring_jobs (ticks k.world).redis.jobs)
    → let limit = count_restoring_jobs (ticks k.world).redis.jobs + 1 in
      let (k', round) = loop_round host ticks limit all_answered all_answered k in
      let reconciled = reconcile_slots true (count_restoring_jobs k'.world.redis.jobs) k'.slots in
      (round ≡ started_job id)
      × (k'.slots ≡ pos limit)
      × (count_restoring_jobs k'.world.redis.jobs ≡ count_restoring_jobs (ticks k.world).redis.jobs)
      × ((try_acquire_slot all_answered limit k'.slots).1 ≡ false)
      × ((try_acquire_slot all_answered limit reconciled).1 ≡ true)
unfolding loop_round blpop blpop_from take_id claim_job reconcile_slots
reconcile_overbooks host ticks k id queue runs queued counted =
    let n = count_restoring_jobs (ticks k.world).redis.jobs in
    let free : ltb n (n + 1) ≡ true = ground arith in
    let full : ltb (n + 1) (n + 1) ≡ false = ground arith in
    let refused = ap (λ x. x.1) (try_acquire_exact all_answered (n + 1) (n + 1)) in
    let granted = ap (λ x. x.1) (try_acquire_exact all_answered (n + 1) n) in
    rw (runs, counted, try_acquire_exact all_answered (n + 1) n, free, queued)
      (refl, refl, refl, refused ∙ rw full refl, granted ∙ rw free refl)
