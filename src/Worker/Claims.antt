-- ===== src/Worker/Claims.antt =====
-- One round of the worker loop: the slot that it claims, and the id that it takes off the queue.
use restore_engine.Common.{
  ℕ, ◌+◌, ◌<◌, ◌≡◌, refl, String, true, List, [], ◌∷◌, Option, none, some, ◌⊎◌, inl, inr,
  Bool-cases, ltb, ltb→lt, arith, sym, ◌∙◌,
}
use restore_engine.Common.Int.{pos}
use restore_engine.Queue.{is_queue_paused}
use restore_engine.Slots.{Answers, release_slot}
use restore_engine.Slots.Sequential.{try_acquire_exact}
use restore_engine.Worker.{Host, World, pause}
use restore_engine.Worker.Loop.{
  Worker, Round, waited, nothing_queued, started_job, take_id, blpop, blpop_from, claim_job,
  loop_round,
}

abbrev pub all_answered : Answers
all_answered = record { first_ok = true; second_ok = true }

module _ {C : Type 0} (host : Host C) where
  abbrev later : ℕ → World C → World C
  later ms w = (pause host ms w).0

  -- The queues that the round may find: at once, and after the two seconds of BLPOP.
  abbrev pub Takes : World C → String → List String → Type 0
  Takes w id queue = (id ∷ queue ≡ w.redis.queue) ⊎ (id ∷ queue ≡ (later 2000 w).redis.queue)

  -- What a round that met `slots` slots in use has done, where `w` is the world behind the ticks.
  abbrev pub Claimed : ℕ → ℕ → World C → Worker C × Round → Type 0
  Claimed limit slots w (k, waited) = k.slots ≡ pos slots
  Claimed limit slots w (k, nothing_queued) = (k.slots ≡ pos slots) × (k.world.redis.queue ≡ [])
  Claimed limit slots w (k, started_job id) =
      (k.slots ≡ pos (slots + 1)) × (slots < limit) × Takes w id k.world.redis.queue

  abbrev Popped : World C → World C × Option String → Type 0
  Popped w (w', none) = w'.redis.queue ≡ []
  Popped w (w', some id) = Takes w id w'.redis.queue

  Popped-take_id :
      (w w' : World C) (queue : List String)
      → w'.redis.queue ≡ queue
      → ((w'.redis.queue ≡ w.redis.queue) ⊎ (w'.redis.queue ≡ (later 2000 w).redis.queue))
      → Popped w (take_id host w' queue)
  unfolding take_id
  Popped-take_id w w' [] e from = e
  Popped-take_id w w' (id ∷ queue) e (inl now) = inl (sym e ∙ now)
  Popped-take_id w w' (id ∷ queue) e (inr then_) = inr (sym e ∙ then_)

  Popped-blpop :
      (w : World C) (queue : List String)
      → w.redis.queue ≡ queue
      → Popped w (blpop_from host w queue)
  unfolding blpop_from
  Popped-blpop w [] e = Popped-take_id w (later 2000 w) _ refl (inr refl)
  Popped-blpop w (id ∷ queue) e = Popped-take_id w w (id ∷ queue) e (inl refl)

  Claimed-claim_job :
      (limit slots : ℕ) (w : World C) (x : World C × Option String)
      → slots < limit
      → Popped w x
      → Claimed limit slots w (claim_job host all_answered (pos (slots + 1)) x)
  unfolding claim_job release_slot
  Claimed-claim_job limit slots w (w', none) h p = (ground arith, p)
  Claimed-claim_job limit slots w (w', some id) h p = (refl, h, p)

  -- With every command of the slot operations answered: a round that starts a job has claimed one
  -- slot for it, of which fewer than the limit were in use, and has taken the job's id off the front of
  -- the queue; every other round leaves the number of slots; and a paused queue starts no job.
  pub loop_round_exact :
      (ticks : World C → World C) (limit slots : ℕ) (k : Worker C)
      → k.slots ≡ pos slots
      → Claimed limit slots
          (ticks k.world)
          (loop_round host ticks limit all_answered all_answered k)
        × (is_queue_paused k.world.redis ≡ true
            → (loop_round host ticks limit all_answered all_answered k).1 ≡ waited)
  unfolding loop_round blpop
  loop_round_exact ticks limit slots k e = elim (Bool-cases (is_queue_paused k.world.redis)) [
    | inl paused ↦ rw paused (e, λ _. refl)
    | inr runs ↦ elim (Bool-cases (ltb slots limit)) [
      | inl free ↦
          rw (runs, e, try_acquire_exact all_answered limit slots, free)
            (
              Claimed-claim_job limit slots (ticks k.world)
                  (blpop_from host (ticks k.world) (ticks k.world).redis.queue) (ltb→lt _ _ free)
                  (Popped-blpop (ticks k.world) _ refl),
              λ h. cc,
            )
      | inr full ↦ rw (runs, e, try_acquire_exact all_answered limit slots, full) (refl, λ h. cc)
    ]
  ]
