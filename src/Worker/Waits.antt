-- ===== src/Worker/Waits.antt =====
-- The polls: what they keep, and that they come to an end where there is a time limit.
use restore_engine.Common.{
  ℕ, zero, suc, ◌+◌, ◌<◌, ◌≡◌, refl, Bool, true, false, String, List, [], ◌∷◌, Option, none, some,
  Bool-cases, inl, inr, ◌⊎◌, ltb→lt, leb→lt, nat_key, arith, leb, max, ◌==◌, string_key,
  if◌then◌else◌,
}
use restore_engine.Common.Parse.{lower}
use restore_engine.Jobs.{Hash, Redis, cancel_requested}
use restore_engine.Worker.{
  Answer, answered, refused, StatusReply, not_a_dict, task_status, ApiRequest, stop_task_of, Host,
  World, M, continue, ◌>>=◌, ◌>>◌, when_so, pause, send_request, pure,
}
use restore_engine.Worker.Task.{
  Polling, poll_task, poll_round, see_status, wait_for_task, is_before, deadline_of, on_tick,
  write_metrics, exit_with, stop_task,
}
use restore_engine.Worker.Guest.{qemu_agent_ping, agent_round, poll_agent, wait_for_qemu_agent}
use restore_engine.Worker.Rules.{Post, Meets, Meets-if, Meets-raise, Meets-pure, starts}

deadline_limited : (now timeout : ℕ) → 0 < timeout → deadline_of now timeout ≡ some (now + timeout)
deadline_limited now timeout h = ground arith

module _ {C : Type 0} (host : Host C) (G : List (ApiRequest × C) → Type 0) (R : Type 0) where
  -- A call that goes on over the same cluster and with the same requests.
  abbrev Goes : M C (Unit {0}) → World C → Type 0
  Goes m w = (w' : World C) → w'.cluster ≡ w.cluster → G w'.sent → Post G R (m w')

  metrics_keep :
      (id now : String) (mapping : Option Hash) (k : ℕ) (m : M C (Unit {0})) (w : World C)
      → G w.sent
      → Goes m w
      → Post G R (m (write_metrics host id now mapping k w))
  unfolding write_metrics
  metrics_keep id now none k m w g go = go (record w { samples = k }) refl g
  metrics_keep id now (some mapping) k m w g go = go _ refl g

  Post-tick :
      (ticks : Bool) (id : String) (lines : List String) (m : M C (Unit {0})) (w : World C)
      → G w.sent
      → Goes m w
      → Post G R ((when_so ticks (on_tick host id lines) >> m) w)
  unfolding when_so on_tick ◌>>=◌ continue pure
  Post-tick false id lines m w g go = go w refl g
  Post-tick true id [] m w g go = go w refl g
  Post-tick true id (line ∷ lines) m w g go =
      metrics_keep id (host.utc_now w.cluster)
        (host.tick_metrics w.cluster (w.samples + 1) (line ∷ lines)) (w.samples + 1) m w g go

  Meets-exit_with : (exitstatus : String) → Meets G R (exit_with host exitstatus)
  unfolding exit_with
  Meets-exit_with exitstatus = Meets-if _ _ _ (Meets-raise _) (Meets-pure tt)

  module _ (p : Polling) (ticks : Bool) (upid : String) (again : ℕ → M C (Unit {0})) where
    Goes-stopped :
        (b : Bool) (exitstatus : String) (offset : ℕ) (w : World C)
        → Goes (again offset) w
        → Goes (if b then exit_with host exitstatus else again offset) w
    Goes-stopped true exitstatus offset w go w' e g = (Meets-exit_with exitstatus).at w' g
    Goes-stopped false exitstatus offset w go w' e g = go w' e g

    Post-seen :
        (offset : ℕ) (a : Answer StatusReply) (w : World C)
        → G w.sent
        → ((offset : ℕ) → Goes (again offset) w)
        → Post G R (see_status host p ticks upid again offset a w)
    unfolding see_status
    Post-seen offset (refused msg) w g go = g
    Post-seen offset (answered not_a_dict) w g go = go offset w refl g
    Post-seen offset (answered (task_status state exitstatus)) w g go =
        Post-tick ticks p.job_id _ _ w g
          (Goes-stopped (lower state == "stopped") exitstatus _ w (go _))

    module _
        (keeps : (q : ApiRequest) (c : C) (l : List (ApiRequest × C))
          → starts q ≡ false
          → G l
          → G ((q, c) ∷ l)) where
      Post-poll_round :
          (deadline : Option ℕ) (offset : ℕ) (w : World C)
          → G w.sent
          → (is_before (host.clock w.cluster) deadline ≡ true
              → (offset : ℕ) → Goes (again offset) w)
          → Post G R (poll_round host p ticks upid again deadline offset w)
      unfolding poll_round stop_task send_request
      Post-poll_round deadline offset w g go =
          elim (Bool-cases (is_before (host.clock w.cluster) deadline)) [
            | inr late ↦ rw late g
            | inl early ↦ elim (Bool-cases (cancel_requested w.redis p.job_id)) [
              | inl asked ↦ rw (early, asked) (keeps (stop_task_of upid) w.cluster w.sent refl g)
              | inr goes_on ↦
                  rw (early, goes_on)
                    (Post-seen offset (host.get_status w.cluster p.node upid) w g (go early))
            ]
          ]

abbrev slept : {C : Type 0} → Host C → ℕ → World C → World C
slept host ms w =
    let (c, r) = host.sleep ms (w.cluster, w.redis) in record w { cluster = c; redis = r }

-- Time goes on while the worker sleeps.
abbrev pub TimePasses : {C : Type 0} → Host C → Type 0
TimePasses {C} host =
    (ms : ℕ) (c : C) (r : Redis) → host.clock c < host.clock (host.sleep ms (c, r)).0

module _ {C : Type 0} (host : Host C) (G : List (ApiRequest × C) → Type 0) (R : Type 0)
    (keeps : (q : ApiRequest) (c : C) (l : List (ApiRequest × C))
      → starts q ≡ false
      → G l
      → G ((q, c) ∷ l)) where
  module _ (p : Polling) (ticks : Bool) (upid : String) where
    -- Where no more is asked of the last round.
    Post-poll_task :
        R
        → (rounds : ℕ) (deadline : Option ℕ) (offset : ℕ) (w : World C) → G w.sent
        → Post G R (poll_task host p ticks upid rounds deadline offset w)
    unfolding poll_task ◌>>=◌ continue pause
    Post-poll_task r zero deadline offset w g = (g, r)
    Post-poll_task r (suc rounds) deadline offset w g =
        Post-poll_round host G R p ticks upid
          (λ next. pause host p.poll_ms >> poll_task host p ticks upid rounds deadline next) keeps
          deadline offset w g
          (λ _ next w' e g'. Post-poll_task r rounds deadline next (slept host p.poll_ms w') g')

    -- The rounds reach behind the deadline.
    Post-poll_until :
        TimePasses host
        → (rounds : ℕ) (deadline offset : ℕ) (w : World C) → G w.sent
        → 0 < rounds
        → deadline < host.clock w.cluster + rounds
        → Post G R (poll_task host p ticks upid rounds (some deadline) offset w)
    unfolding poll_task ◌>>=◌ continue pause
    Post-poll_until passes zero deadline offset w g pos enough = absurd (omega arith)
    Post-poll_until passes (suc rounds) deadline offset w g pos enough =
        Post-poll_round host G R p ticks upid
          (λ next. pause host p.poll_ms >> poll_task host p ticks upid rounds (some deadline) next)
          keeps (some deadline) offset w g
          λ early next w' e g'.
            let later : host.clock w.cluster
                < host.clock (host.sleep p.poll_ms (w'.cluster, w'.redis)).0 =
              rw (← e) (passes p.poll_ms w'.cluster w'.redis) in
            let first : host.clock w.cluster < deadline = ltb→lt _ _ early in
            Post-poll_until passes rounds deadline next (slept host p.poll_ms w') g' (omega arith)
              (omega arith)

    pub Meets-wait_for_task :
        (rounds : ℕ)
        → R ⊎ (TimePasses host × (0 < p.timeout_ms) × (p.timeout_ms < rounds))
        → Meets G R (wait_for_task host p ticks upid rounds)
    unfolding wait_for_task
    Meets-wait_for_task rounds (inl r) = record { at = λ w g. Post-poll_task r rounds _ 0 w g }
    Meets-wait_for_task rounds (inr (passes, limited, enough)) = record {
      at = λ w g.
          rw (deadline_limited (host.clock w.cluster) p.timeout_ms limited)
            (Post-poll_until passes rounds _ 0 w g (omega arith) (omega arith));
    }

  module _ (node : String) (vmid : ℕ) (id : String) (timeout poll started : ℕ) where
    Post-agent_round :
        (again : M C ℕ) (deadline : ℕ) (w : World C)
        → G w.sent
        → (host.clock w.cluster < deadline → Post G R (again w))
        → Post G R (agent_round host node vmid again id timeout deadline started w)
    unfolding agent_round
    Post-agent_round again deadline w g go = elim (Bool-cases (cancel_requested w.redis id)) [
      | inl asked ↦ rw asked g
      | inr goes_on ↦ elim (Bool-cases (qemu_agent_ping host node vmid w.cluster)) [
        | inl up ↦ rw (goes_on, up) g
        | inr down ↦ elim (Bool-cases (leb deadline (host.clock w.cluster))) [
          | inl late ↦ rw (goes_on, down, late) g
          | inr early ↦ rw (goes_on, down, early) (go (leb→lt _ _ early))
        ]
      ]
    ]

    Post-poll_agent :
        R
        → (rounds deadline : ℕ) (w : World C) → G w.sent
        → Post G R (poll_agent host node vmid rounds id timeout poll deadline started w)
    unfolding poll_agent ◌>>=◌ continue pause
    Post-poll_agent r zero deadline w g = (g, r)
    Post-poll_agent r (suc rounds) deadline w g =
        Post-agent_round
          (pause host (max 500 poll)
            >> poll_agent host node vmid rounds id timeout poll deadline started)
          deadline w g (λ _. Post-poll_agent r rounds deadline (slept host (max 500 poll) w) g)

    Post-agent_until :
        TimePasses host
        → (rounds deadline : ℕ) (w : World C) → G w.sent
        → 0 < rounds
        → deadline < host.clock w.cluster + rounds
        → Post G R (poll_agent host node vmid rounds id timeout poll deadline started w)
    unfolding poll_agent ◌>>=◌ continue pause
    Post-agent_until passes zero deadline w g pos enough = absurd (omega arith)
    Post-agent_until passes (suc rounds) deadline w g pos enough =
        Post-agent_round
          (pause host (max 500 poll)
            >> poll_agent host node vmid rounds id timeout poll deadline started)
          deadline w g
          λ early.
            let later = passes (max 500 poll) w.cluster w.redis in
            Post-agent_until passes rounds deadline (slept host (max 500 poll) w) g (omega arith)
              (omega arith)

  pub Meets-wait_for_agent :
      (node : String) (vmid : ℕ) (rounds : ℕ) (id : String) (timeout poll : ℕ)
      → R ⊎ (TimePasses host × (max 1000 timeout < rounds))
      → Meets G R (wait_for_qemu_agent host node vmid rounds id timeout poll)
  unfolding wait_for_qemu_agent
  Meets-wait_for_agent node vmid rounds id timeout poll (inl r) = record {
    at = λ w g. Post-poll_agent node vmid id timeout poll _ r rounds _ w g;
  }
  Meets-wait_for_agent node vmid rounds id timeout poll (inr (passes, enough)) = record {
    at = λ w g.
        Post-agent_until node vmid id timeout poll _ passes rounds _ w g (omega arith)
          (omega arith);
  }
