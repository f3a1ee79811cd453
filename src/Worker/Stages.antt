-- ===== src/Worker/Stages.antt =====
-- The stages of `process_job` by the rules: each keeps what holds of the requests that were sent, if
-- the start of the guest does.
use restore_engine.Common.{
  ℕ, zero, suc, ◌*◌, ◌<◌, ◌≡◌, refl, Bool, true, false, String, List, [], ◌∷◌, Option, none, some,
  Bool-cases, inl, inr, ◌⊎◌, max, string_key,
}
use restore_engine.Jobs.{Hash, hgetall, cancel_requested}
use restore_engine.Worker.{
  Estimate, Answer, answered, refused, TaskReply, ApiRequest, start_vm, Host, World, Result, done,
  task_cancelled, timed_out, error, unfinished, M, continue, ◌>>=◌, ◌>>◌, pure, raise, or_raise,
  send_request, write, write_with, say, cancel, Restore,
}
use restore_engine.Worker.Task.{submit_restore}
use restore_engine.Worker.Guest.{
  Items, put_items, put_changes, apply_network_isolation, mark_qemu_managed_by_tool, start_qemu_vm,
  start_upid,
}
use restore_engine.Worker.Job.{
  JobOrder, read_order, marked, not_marked, JobEnding, stopped, Config, polling, begin_restore,
  sampled, stamp, stamp_outcome, stamp_failed, info, prefixed,
}
use restore_engine.Worker.Boot.{
  boot_power, isolate_network, check_guest_hostname, hostname_result, pve_name_of, http_check,
  http_result, complete_job, power_off, checks, agent_ok, agent_timeout, on_timeout, await_agent,
  power_on_result, start_guest, boot_as, boot, after_restore, restore_guest, process_found,
  process_job, is_empty,
}
use restore_engine.Worker.Rules.{
  Post, Meets, starts, Meets-pure, Meets-raise, Meets-asks, Meets-or_raise, Meets-if, Meets-when_so,
  Post-continue, Meets-bind, Meets-pause, Meets-write, Meets-write_with, Meets-say, Meets-move_to,
  Meets-cancel, Meets-fresh_ticks, Meets-info, Post-after_wait, Meets-send, Meets-prefixed,
}
use restore_engine.Worker.Waits.{TimePasses, Meets-wait_for_task, Meets-wait_for_agent}

module _ {C : Type 0} (host : Host C) (id : String) (G : List (ApiRequest × C) → Type 0)
    (R : Type 0)
    (keeps : (q : ApiRequest) (c : C) (l : List (ApiRequest × C))
      → starts q ≡ false
      → G l
      → G ((q, c) ∷ l)) where
  ruleset rules = (
    Meets-bind, Meets-pure, Meets-raise, Meets-asks, Meets-or_raise, Meets-if, Meets-when_so,
    Meets-pause, Meets-write, Meets-write_with, Meets-say, Meets-move_to, Meets-info,
    Meets-prefixed, Meets-fresh_ticks,
  )

  Meets-complete : (o : JobOrder) → Meets G R (complete_job host id o)
  unfolding complete_job
  Meets-complete o = search rules

  Meets-sampled : (est : Option Estimate) → Meets G R (sampled host id est)
  unfolding sampled
  Meets-sampled none = search rules
  Meets-sampled (some est) = search rules

  Meets-submit_restore : (p : Restore) → Meets G R (submit_restore host p)
  unfolding submit_restore
  Meets-submit_restore p = Meets-bind _ _ (Meets-send keeps _ _ refl) (λ reply. Meets-or_raise _)

  Meets-begin_restore : (o : JobOrder) → Meets G R (begin_restore host id o)
  unfolding begin_restore
  Meets-begin_restore o = search (rules, Meets-sampled, Meets-submit_restore) depth 16

  Meets-put_items :
      (node : String) (vmid : ℕ) (items : Items) → Meets G R (put_items host node vmid items)
  unfolding put_items
  Meets-put_items node vmid items = Meets-bind _ _ (Meets-send keeps _ _ refl) Meets-or_raise

  Meets-put_changes :
      (node : String) (vmid : ℕ) (items : Items) → Meets G R (put_changes host node vmid items)
  unfolding put_changes
  Meets-put_changes node vmid [] = Meets-pure _
  Meets-put_changes node vmid (item ∷ items) = search (rules, Meets-put_items)

  Meets-mark :
      (node : String) (vmid : ℕ) (job run : String)
      → Meets G R (mark_qemu_managed_by_tool host node vmid job run)
  unfolding mark_qemu_managed_by_tool
  Meets-mark node vmid job run = search (rules, Meets-put_items)

  Meets-apply :
      (node : String) (vmid : ℕ) (mode bridge : String)
      → Meets G R (apply_network_isolation host node vmid mode bridge)
  unfolding apply_network_isolation
  Meets-apply node vmid mode bridge = search (rules, Meets-put_changes)

  Post-stamp_outcome :
      (marked : M C (Unit {0})) (again : String → M C (Unit {0})) (x : World C × Result (Unit {0}))
      → Meets G R marked
      → ((msg : String) → Meets G R (again msg))
      → Post G R x
      → Post G R (stamp_outcome marked again x)
  unfolding stamp_outcome
  Post-stamp_outcome marked again (w, done a) km ka g = km.at w g
  Post-stamp_outcome marked again (w, error msg) km ka g = (ka msg).at w g
  Post-stamp_outcome marked again (w, timed_out msg) km ka g = (ka msg).at w g
  Post-stamp_outcome marked again (w, task_cancelled) km ka g = (ka "").at w g
  Post-stamp_outcome marked again (w, unfinished) km ka g = g

  Meets-stamp_failed :
      (vmid : ℕ) (msg : String)
      → Meets {A = Unit {0}} G R
          (write host id (("managed_marked", "0") ∷ []) >> raise (stamp_failed host id vmid msg))
  Meets-stamp_failed vmid msg = search rules

  Meets-marked : (vmid : ℕ) → Meets G R (marked host id vmid)
  unfolding marked
  Meets-marked vmid = search rules

  Meets-not_marked :
      (attempt vmid : ℕ) (msg : String) → Meets G R (not_marked host id attempt vmid msg)
  unfolding not_marked
  Meets-not_marked attempt vmid msg = search rules

  Meets-stamp :
      (left attempt : ℕ) (err : String) (o : JobOrder) (run : String)
      → Meets G R (stamp host id left attempt err o run)
  unfolding stamp
  Meets-stamp zero attempt err o run = record { at = λ w g. (Meets-stamp_failed o.vmid err).at w g }
  Meets-stamp (suc left) attempt err o run = record {
    at = λ w g.
        Post-stamp_outcome (marked host id o.vmid) _
          (mark_qemu_managed_by_tool host o.node o.vmid id run w) (Meets-marked o.vmid)
          (λ msg.
            Meets-bind _ _ (Meets-not_marked attempt o.vmid msg)
              λ _. Meets-stamp left (suc attempt) msg o run)
          ((Meets-mark o.node o.vmid id run).at w g);
  }

  Meets-isolate_network : (o : JobOrder) (d : Hash) → Meets G R (isolate_network host id o d)
  unfolding isolate_network
  Meets-isolate_network o d = search (rules, Meets-apply) depth 12

  Meets-hostname_result :
      (name : String) (host_name : Option String)
      → Meets G R (hostname_result host id name host_name)
  unfolding hostname_result
  Meets-hostname_result name none = search rules
  Meets-hostname_result name (some h) = search rules depth 8

  Meets-pve_name_of : (o : JobOrder) (a : Answer Items) → Meets G R (pve_name_of host id o a)
  unfolding pve_name_of
  Meets-pve_name_of o (answered items) = search rules
  Meets-pve_name_of o (refused msg) = search rules

  Meets-check_guest_hostname : (o : JobOrder) → Meets G R (check_guest_hostname host id o)
  unfolding check_guest_hostname
  Meets-check_guest_hostname o = search (rules, Meets-pve_name_of, Meets-hostname_result) depth 8

  Meets-http_result : (url : String) (a : Answer ℕ) → Meets G R (http_result host id url a)
  unfolding http_result
  Meets-http_result url (answered code) = search rules
  Meets-http_result url (refused msg) = search rules

  Meets-http_check : (d : Hash) → Meets G R (http_check host id d)
  unfolding http_check
  Meets-http_check d = search (rules, Meets-http_result) depth 8

  Meets-power_off : (o : JobOrder) → Meets G R (power_off host id o)
  unfolding power_off
  Meets-power_off o = Meets-bind _ _ (Meets-send keeps _ _ refl) λ _. search rules

  module _ (config : Config) (rounds : ℕ) (o : JobOrder) (d : Hash)
      (task_ends : R
        ⊎ (TimePasses host × (0 < config.task_timeout_ms) × (config.task_timeout_ms < rounds)))
      (agent_ends : R
        ⊎ (TimePasses host × (max 1000 (1000 * (boot_power o d).qga_wait_sec) < rounds))) where
    Meets-checks : Meets G R (checks host id config rounds o d)
    unfolding checks
    Meets-checks = search (rules, Meets-check_guest_hostname, Meets-http_check, Meets-complete)

    Meets-agent_ok : (waited : ℕ) → Meets G R (agent_ok host id config rounds o d waited)
    unfolding agent_ok
    Meets-agent_ok waited = search rules

    Post-on_timeout :
        {A : Type 0} (m : M C (Unit {0})) (x : World C × Result A) (f : A → M C JobEnding)
        → ((w : World C) → (m w).0.sent ≡ w.sent)
        → ((a : A) → Meets G R (f a))
        → Post G R x
        → Post G R (on_timeout m x)
    unfolding on_timeout
    Post-on_timeout m (w, done a) f h kf g = g
    Post-on_timeout m (w, task_cancelled) f h kf g = g
    Post-on_timeout m (w, timed_out msg) f h kf g = rw (h w) g
    Post-on_timeout m (w, error msg) f h kf g = g
    Post-on_timeout m (w, unfinished) f h kf g = g

    sent-agent_timeout :
        (qga : ℕ) (w : World C) → (agent_timeout host id config rounds o d qga w).0.sent ≡ w.sent
    unfolding agent_timeout write write_with
    sent-agent_timeout qga w = refl

    Meets-agent_then :
        (waited : ℕ)
        → Meets G R (agent_ok host id config rounds o d waited >> checks host id config rounds o d)
    Meets-agent_then waited = search (rules, Meets-agent_ok, Meets-checks)

    Meets-await_agent :
        Meets G R (await_agent host id config rounds o d (boot_power o d).qga_wait_sec)
    unfolding await_agent
    Meets-await_agent =
        Meets-if _ _ _
          (Meets-bind _ _ (Meets-info host _ _) λ _. record {
            at = λ w g.
                Post-after_wait host _ _ _ _
                  (Post-on_timeout _ _ _ (sent-agent_timeout _) Meets-agent_then (
                    (Meets-wait_for_agent host G R keeps o.node o.vmid rounds id _ _ agent_ends).at
                      w g))
                  Meets-agent_then;
          })
          Meets-checks

    Meets-power_on_result :
        (upid : Option String)
        → Meets G R (power_on_result host id config rounds o d (boot_power o d).qga_wait_sec upid)
    unfolding power_on_result polling
    Meets-power_on_result none = record {
      at = λ w g. (Meets-bind _ _ (Meets-write host _ _) (λ _. Meets-await_agent)).at w g;
    }
    Meets-power_on_result (some upid) = record {
      at = λ w g.
          Post-after_wait host _ _ _ _
            ((Meets-wait_for_task host G R keeps (polling id config o) false upid rounds
                task_ends).at
              w g)
            (λ _. Meets-bind _ _ (Meets-write host _ _) (λ _. Meets-await_agent));
    }

    Post-prefixed :
        {A : Type 0} (text : String) (x : World C × Result A)
        → Post G R x
        → Post G R (prefixed text x)
    Post-prefixed text (w, done a) g = g
    Post-prefixed text (w, task_cancelled) g = g
    Post-prefixed text (w, timed_out msg) g = g
    Post-prefixed text (w, error msg) g = g
    Post-prefixed text (w, unfinished) g = g

    Meets-start_reply :
        (a : Answer TaskReply) → Meets G R (or_raise {C = C} a >>= λ reply. pure (start_upid reply))
    Meets-start_reply a = search rules

    -- Where the cluster has what the start of the guest asks for.
    module _ (Ready : C → Type 0)
        (startable : (c : C) (l : List (ApiRequest × C))
          → Ready c
          → G l
          → G ((start_vm o.node o.vmid, c) ∷ l)) where
      Post-start_qemu_vm :
          (w : World C) → Ready w.cluster → G w.sent → Post G R (start_qemu_vm host o.node o.vmid w)
      unfolding start_qemu_vm ◌>>=◌ continue send_request
      Post-start_qemu_vm w r g = (Meets-start_reply _).at _ (startable w.cluster w.sent r g)

      Post-start_guest :
          (w : World C)
          → Ready w.cluster
          → G w.sent
          → Post G R (start_guest host id config rounds o d (boot_power o d).qga_wait_sec w)
      unfolding start_guest ◌>>=◌ continue info say
      Post-start_guest w r g =
          Post-continue (prefixed _ (start_qemu_vm host o.node o.vmid _)) _
            (Post-prefixed _ _ (Post-start_qemu_vm _ r g)) Meets-power_on_result

      Post-boot_as :
          (power_on live : Bool) (w : World C)
          → Ready w.cluster
          → G w.sent
          → Post G R
              (boot_as host id config rounds o d power_on live (boot_power o d).qga_wait_sec w)
      unfolding boot_as
      Post-boot_as false live w r g =
          (Meets-bind _ _ (Meets-power_off o) (λ _. Meets-complete o)).at w g
      Post-boot_as true true w r g = Meets-await_agent.at w g
      Post-boot_as true false w r g = Post-start_guest w r g

      -- What `isolate_network` comes to.
      Post-isolated :
          (x : World C × Result (Unit {0}))
          → Post G R x
          → ((w : World C) → x ≡ (w, done tt) → Ready w.cluster)
          → Post G R (continue x (λ _. boot host id config rounds o d))
      unfolding continue boot
      Post-isolated (w, done a) g ready = Post-boot_as _ _ w (ready w refl) g
      Post-isolated (w, task_cancelled) g ready = g
      Post-isolated (w, timed_out msg) g ready = g
      Post-isolated (w, error msg) g ready = g
      Post-isolated (w, unfinished) g ready = g

      module _
          (isolated : (w w' : World C)
            → isolate_network host id o d w ≡ (w', done tt)
            → Ready w'.cluster) where
        Meets-boot : Meets G R (isolate_network host id o d >>= λ _. boot host id config rounds o d)
        unfolding ◌>>=◌
        Meets-boot = record {
          at = λ w g.
              Post-isolated (isolate_network host id o d w) ((Meets-isolate_network o d).at w g)
                (isolated w);
        }

        Meets-after_restore : Meets G R (after_restore host id config rounds o d)
        unfolding after_restore
        Meets-after_restore = Meets-bind _ _ (Meets-stamp 3 1 "" o _) (λ _. Meets-boot)

        pub Meets-restore_guest : Meets G R (restore_guest host id config rounds o d)
        unfolding restore_guest polling
        Meets-restore_guest = Meets-bind _ _ (Meets-begin_restore o) λ upid.
            Meets-bind _ _ (Meets-fresh_ticks host id) λ _. record {
              at = λ w g.
                  Post-after_wait host _ _ _ _
                    ((Meets-wait_for_task host G R keeps (polling id config o) true upid rounds
                        task_ends).at
                      w g)
                    (λ _. Meets-after_restore);
            }

  module _ (config : Config) (rounds : ℕ) where
    -- The rest of the job, where its hash can be read.
    abbrev pub Restores : Hash → Type 0
    Restores d =
        (o : JobOrder)
        → read_order id d ≡ answered o
        → Meets G R (restore_guest host id config rounds o d)

    Meets-read :
        (d : Hash) (a : Answer JobOrder)
        → ((o : JobOrder) → a ≡ answered o → Meets G R (restore_guest host id config rounds o d))
        → Meets G R (or_raise a >>= λ o. restore_guest host id config rounds o d)
    unfolding or_raise ◌>>=◌ continue
    Meets-read d (answered o) go = record { at = λ w g. (go o refl).at w g }
    Meets-read d (refused msg) go = record { at = λ w g. g }

    Meets-asked : Meets G R (cancel host id >> pure stopped)
    Meets-asked = Meets-bind _ _ (Meets-cancel host id) λ _. Meets-pure stopped

    Meets-process_found :
        (d : Hash) → Restores d → Meets G R (process_found host id config rounds d)
    unfolding process_found
    Meets-process_found d go = record {
      at = λ w g. elim (Bool-cases (cancel_requested w.redis id)) [
        | inl asked ↦ rw asked (Meets-asked.at w g)
        | inr goes_on ↦ rw goes_on ((Meets-read d (read_order id d) go).at w g)
      ];
    }

    pub Post-process_job :
        (w : World C)
        → Restores (hgetall w.redis id)
        → G w.sent
        → Post G R (process_job host id config rounds w)
    unfolding process_job
    Post-process_job w go g = elim (Bool-cases (is_empty (hgetall w.redis id))) [
      | inl none_there ↦ rw none_there g
      | inr there ↦ rw there ((Meets-process_found _ go).at w g)
    ]
