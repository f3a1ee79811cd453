-- ===== src/Worker/Final.antt =====
-- The end of a job's thread.
use restore_engine.Common.{
  ℕ, ◌*◌, ◌<◌, max, String, ◌≡◌, refl, Bool, true, [], ◌⊎◌, inl, inr, contains, put, ap,
}
use restore_engine.Common.Int.{ℤ}
use restore_engine.States.{is_terminal, failed}
use restore_engine.Jobs.{Hash, hgetall, state_of, append_log}
use restore_engine.Slots.{Answers, release_slot}
use restore_engine.Worker.{
  Host, World, Result, done, task_cancelled, timed_out, error, unfinished, ◌>>=◌, say, move_to,
}
use restore_engine.Worker.Job.{JobEnding, absent, stopped, restored, Config, number_or_0}
use restore_engine.Worker.Boot.{process_job, boot_power}
use restore_engine.Worker.Loop.{Worker, run_job, finally, fail}
use restore_engine.Worker.Ends.{EndsWell, Ends-process_job, state_of-set_state}
use restore_engine.Worker.Rules.{Post}
use restore_engine.Worker.Waits.{TimePasses}
use restore_engine.Worker.Stages.{Post-process_job, Meets-restore_guest}

-- The time limits of a job with this hash, in milliseconds.
abbrev pub agent_limit : Hash → ℕ
agent_limit d = max 1000 (1000 * number_or_0 d "qga_wait_sec")

module _ {C : Type 0} (host : Host C) (config : Config) (rounds : ℕ) (id : String) where
  -- The rounds are never used up.
  process_job-Ends_in_time :
      TimePasses host
      → 0 < config.task_timeout_ms
      → config.task_timeout_ms < rounds
      → (w : World C) → agent_limit (hgetall w.redis id) < rounds
      → Post (λ _. Unit {0}) ⊥ (process_job host id config rounds w)
  unfolding boot_power
  process_job-Ends_in_time passes limited enough w agent =
      Post-process_job host id (λ _. Unit {0}) ⊥ (λ q c l s g. tt) config rounds w
        (λ o r.
          Meets-restore_guest host id (λ _. Unit {0}) ⊥ (λ q c l s g. tt) config rounds o _
            (inr (passes, limited, enough)) (inr (passes, agent)) (λ _. Unit {0}) (λ c l r' g. tt)
            (λ w1 w2 e. tt))
        tt

  state_of-fail : (msg : String) (w : World C) → state_of (fail host id msg w).redis id ≡ "FAILED"
  unfolding fail ◌>>=◌ move_to say append_log state_of put contains
  state_of-fail msg w = state_of-set_state (host.utc_now w.cluster) id failed _ w.redis refl

  abbrev Finished : ℤ → Answers → Worker C × Bool → Type 0
  Finished slots a (k, ended) =
      (ended ≡ true)
      × ((is_terminal (state_of k.world.redis id) ≡ true) ⊎ (hgetall k.world.redis id ≡ []))
      × (k.slots ≡ release_slot a slots)

  Finished-finally :
      (slots : ℤ) (a : Answers) (x : World C × Result JobEnding)
      → EndsWell id x
      → Post (λ _. Unit {0}) ⊥ x
      → Finished slots a (finally host id a slots x)
  unfolding finally
  Finished-finally slots a (w, done absent) e p = (refl, inr e, refl)
  Finished-finally slots a (w, done stopped) e p = (refl, inl (ap is_terminal e), refl)
  Finished-finally slots a (w, done restored) e p = (refl, inl (ap is_terminal e), refl)
  Finished-finally slots a (w, task_cancelled) e p =
      (refl, inl (ap is_terminal (state_of-fail "" w)), refl)
  Finished-finally slots a (w, timed_out msg) e p =
      (refl, inl (ap is_terminal (state_of-fail msg w)), refl)
  Finished-finally slots a (w, error msg) e p =
      (refl, inl (ap is_terminal (state_of-fail msg w)), refl)
  Finished-finally slots a (w, unfinished) e p = absurd p.1

  -- If a time limit for tasks is set and time goes on while the worker sleeps, the thread of a job
  -- comes to its end, whatever the hypervisor answers and whatever other processes do in between: the
  -- job is then COMPLETED, FAILED or CANCELLED, or there is no such job, and the slot is released.
  -- As many rounds as milliseconds in the longest time limit are enough for each wait.
  pub run_job-finishes :
      TimePasses host
      → 0 < config.task_timeout_ms
      → config.task_timeout_ms < rounds
      → (a : Answers) (k : Worker C) → agent_limit (hgetall k.world.redis id) < rounds
      → ((run_job host id config rounds a k).1 ≡ true)
        × ((is_terminal (state_of (run_job host id config rounds a k).0.world.redis id) ≡ true)
            ⊎ (hgetall (run_job host id config rounds a k).0.world.redis id ≡ []))
        × ((run_job host id config rounds a k).0.slots ≡ release_slot a k.slots)
  unfolding run_job
  run_job-finishes passes limited enough a k agent =
      Finished-finally k.slots a (process_job host id config rounds k.world)
        (Ends-process_job host id config rounds k.world)
        (process_job-Ends_in_time passes limited enough k.world agent)
