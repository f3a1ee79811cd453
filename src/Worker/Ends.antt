-- ===== src/Worker/Ends.antt =====
-- How `process_job` ends: each way out that is no exception leaves the state that belongs to it.
use restore_engine.Common.{
  ℕ, String, ◌≡◌, refl, Bool, true, false, [], ◌∷◌, Option, none, some, put, put_all, lookup-put,
  Bool-cases, inl, inr, lookup-put_all, contains, keys, string_key, if◌then◌else◌, ltb,
}
use text.Mathlib.TextPositions.{eq_refl}
use restore_engine.States.{RestoreState, value, pending, restoring, completed, failed, cancelled}
use restore_engine.Jobs.{
  Hash, Redis, hgetall, hget, cancel_requested, set_state, append_log, mark_cancelled, state_of,
  text_or, hget-hset,
}
use restore_engine.Worker.{
  Host, World, Result, continue, done, task_cancelled, timed_out, error, unfinished, M, ◌>>=◌, ◌>>◌,
  pure, cancel, move_to, say,
}
use restore_engine.Worker.Job.{
  JobOrder, JobEnding, absent, stopped, restored, Config, after_wait, on_cancel,
}
use restore_engine.Worker.Boot.{
  complete_job, checks, await_agent, power_on_result, boot_as, boot, after_restore, restore_guest,
  is_empty, boot_power, process_found, process_job,
}

module _ {C : Type 0} (id : String) where
  -- What an ending says of the job; an exception says nothing here.
  abbrev pub EndsWell : World C × Result JobEnding → Type 0
  EndsWell (w, done restored) = state_of w.redis id ≡ "COMPLETED"
  EndsWell (w, done stopped) = state_of w.redis id ≡ "CANCELLED"
  EndsWell (w, done absent) = hgetall w.redis id ≡ []
  EndsWell (w, task_cancelled) = Unit {0}
  EndsWell (w, timed_out msg) = Unit {0}
  EndsWell (w, error msg) = Unit {0}
  EndsWell (w, unfinished) = Unit {0}

  abbrev pub Ends : M C JobEnding → Type 0
  Ends m = (w : World C) → EndsWell (m w)

value_text : (s : RestoreState) → text_or (some (value s)) "" ≡ value s
value_text pending = refl
value_text restoring = refl
value_text completed = refl
value_text failed = refl
value_text cancelled = refl

pub state_of-set_state :
    (now id : String) (s : RestoreState) (extra : Hash) (r : Redis)
    → contains "state" (keys extra) ≡ false
    → state_of (set_state now id s extra r) id ≡ value s
unfolding state_of set_state put_all
state_of-set_state now id s extra r h =
    rw (hget-hset, eq_refl, lookup-put_all _ _ extra h) (simp lookup-put (value_text s))

state_of-append_log :
    (now id level stage message job : String) (r : Redis)
    → state_of (append_log now id level stage message r) job ≡ state_of r job
unfolding state_of append_log hget hgetall
state_of-append_log now id level stage message job r = refl

Ends-complete :
    {C : Type 0} (host : Host C) (id : String) (o : JobOrder) → Ends id (complete_job host id o)
unfolding complete_job ◌>>=◌ contains append_log put state_of move_to say pure
Ends-complete host id o w =
    state_of-set_state (host.utc_now w.cluster) id completed
      (("progress", "100") ∷ ("eta_sec", "0") ∷ ("speed_bps", "") ∷ []) w.redis refl

Ends-on_cancel :
    {C : Type 0} (host : Host C) (id : String) (message : String)
    → Ends id (on_cancel host id message)
unfolding on_cancel ◌>>=◌ contains mark_cancelled put state_of cancel say pure
Ends-on_cancel host id message w =
    state_of-set_state (host.utc_now w.cluster) id cancelled [] w.redis refl

module _ {C : Type 0} (host : Host C) (id : String) where
  module _ {A : Type 0} where
    EndsWell-continue :
        (x : World C × Result A) (f : A → M C JobEnding)
        → ((a : A) → Ends id (f a))
        → EndsWell id (continue x f)
    unfolding continue
    EndsWell-continue (w, done a) f h = h a w
    EndsWell-continue (w, task_cancelled) f h = tt
    EndsWell-continue (w, timed_out msg) f h = tt
    EndsWell-continue (w, error msg) f h = tt
    EndsWell-continue (w, unfinished) f h = tt

    -- Only the last step of a chain decides.
    Ends-bind : (m : M C A) (f : A → M C JobEnding) → ((a : A) → Ends id (f a)) → Ends id (m >>= f)
    unfolding ◌>>=◌
    Ends-bind m f h w = EndsWell-continue (m w) f h

    EndsWell-after_wait :
        (x : World C × Result A) (message : String) (f : A → M C JobEnding)
        → ((a : A) → Ends id (f a))
        → EndsWell id (after_wait x (on_cancel host id message) f)
    unfolding after_wait
    EndsWell-after_wait (w, done a) message f h = h a w
    EndsWell-after_wait (w, task_cancelled) message f h = Ends-on_cancel host id message w
    EndsWell-after_wait (w, timed_out msg) message f h = tt
    EndsWell-after_wait (w, error msg) message f h = tt
    EndsWell-after_wait (w, unfinished) message f h = tt

  module _ (config : Config) (rounds : ℕ) (o : JobOrder) (d : Hash) where
    Ends-checks : Ends id (checks host id config rounds o d)
    unfolding checks
    Ends-checks = Ends-bind _ _ λ _. Ends-bind _ _ λ _. Ends-complete host id o

    Ends-await_agent : (qga : ℕ) → Ends id (await_agent host id config rounds o d qga)
    unfolding await_agent
    Ends-await_agent qga w = elim (Bool-cases (ltb 0 qga)) [
      | inl waits ↦ rw waits (
          Ends-bind _ _
            (λ _. λ w'. EndsWell-after_wait _ _ _ (λ a. Ends-bind _ _ (λ _. Ends-checks))) w)
      | inr none_asked ↦ rw none_asked (Ends-checks w)
    ]

    Ends-power_on_result :
        (qga : ℕ) (upid : Option String)
        → Ends id (power_on_result host id config rounds o d qga upid)
    unfolding power_on_result
    Ends-power_on_result qga none w = Ends-bind _ _ (λ _. Ends-await_agent qga) w
    Ends-power_on_result qga (some upid) w =
        EndsWell-after_wait _ _ _ (λ _. Ends-bind _ _ (λ _. Ends-await_agent qga))

    Ends-boot_as :
        (power_on live : Bool) (qga : ℕ)
        → Ends id (boot_as host id config rounds o d power_on live qga)
    unfolding boot_as
    Ends-boot_as false live qga = Ends-bind _ _ (λ _. Ends-complete host id o)
    Ends-boot_as true true qga = Ends-await_agent qga
    Ends-boot_as true false qga = Ends-bind _ _ (λ _. Ends-bind _ _ (Ends-power_on_result qga))

    Ends-boot : Ends id (boot host id config rounds o d)
    unfolding boot
    Ends-boot = Ends-boot_as (boot_power o d).power_on o.live_restore (boot_power o d).qga_wait_sec

    Ends-after_restore : Ends id (after_restore host id config rounds o d)
    unfolding after_restore
    Ends-after_restore = Ends-bind _ _ λ _. Ends-bind _ _ λ _. Ends-boot

    Ends-restore_guest : Ends id (restore_guest host id config rounds o d)
    unfolding restore_guest
    Ends-restore_guest =
        Ends-bind _ _
          λ _. Ends-bind _ _ λ _. λ w. EndsWell-after_wait _ _ _ (λ _. Ends-after_restore)

  Ends-cancel : Ends id (cancel host id >> pure stopped)
  unfolding ◌>>=◌ contains mark_cancelled put state_of cancel pure
  Ends-cancel w = state_of-set_state (host.utc_now w.cluster) id cancelled [] w.redis refl

  Ends-process_found :
      (config : Config) (rounds : ℕ) (d : Hash) → Ends id (process_found host id config rounds d)
  unfolding process_found
  Ends-process_found config rounds d w = elim (Bool-cases (cancel_requested w.redis id)) [
    | inl asked ↦ rw asked (Ends-cancel w)
    | inr goes_on ↦ rw goes_on (Ends-bind _ _ (λ o. Ends-restore_guest config rounds o d) w)
  ]

  found_kinds :
      (config : Config) (rounds : ℕ) (d : Hash) (w : World C)
      → hgetall w.redis id ≡ d
      → EndsWell id
          (if is_empty d then (w, done absent) else process_found host id config rounds d w)
  found_kinds config rounds [] w e = e
  found_kinds config rounds (kv ∷ d) w e = Ends-process_found config rounds (kv ∷ d) w

  pub Ends-process_job :
      (config : Config) (rounds : ℕ) → Ends id (process_job host id config rounds)
  unfolding process_job
  Ends-process_job config rounds w = found_kinds config rounds (hgetall w.redis id) w refl
