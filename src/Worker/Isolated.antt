-- ===== src/Worker/Isolated.antt =====
-- A guest is started by the worker only behind its isolation.
use restore_engine.Common.{
  ℕ, String, ◌≡◌, refl, Bool, true, false, ◌||◌, List, [], ◌∷◌, ◌⊎◌, inl, inr, lookup, put_all,
  Bool-cases, ◌==◌, string_key, if◌then◌else◌, arith, All, eq_iff, ap, sym, ◌∙◌,
}
use mathlib.Core.Path.{subst}
use text.Mathlib.Text.{starts_with}
use restore_engine.Common.Text.{strip}
use restore_engine.Common.Parse.{lower}
use restore_engine.Jobs.{Hash, hgetall}
use restore_engine.Worker.{
  Answer, answered, refused, ApiRequest, restore_vm, stop_task_of, put_config_of, start_vm, stop_vm,
  Host, World, Result, done, task_cancelled, timed_out, error, unfinished, continue, ◌>>=◌, pure,
  asks, or_raise, send_request, say, when_so,
}
use restore_engine.Worker.Guest.{
  Items, isolation_changes, has_nets, unlinked, apply_network_isolation, put_items, put_changes,
}
use restore_engine.Worker.Job.{JobOrder, Config, info, prefixed}
use restore_engine.Worker.Boot.{
  isolate_network, isolate_as, isolates, net_mode_of, lab_bridge_of, process_job,
}
use restore_engine.Worker.Rules.{Post, starts}
use restore_engine.Worker.Stages.{Post-process_job, Meets-restore_guest}
use restore_engine.Worker.Isolation.{
  NetsHave, HasPart, OnBridge, Settles-unlinked, Settles-remapped, NetsHave-changed,
}

or_right : (a b : Bool) → (a || b) ≡ false → b ≡ false
or_right true b h = cc
or_right false b h = h

not_both : (a b : Bool) → (a || b) ≡ false → a ≡ true → ⊥
not_both true b h e = cc
not_both false b h e = cc

answered_inj : {A : Type 0} (a b : A) → answered a ≡ answered b → a ≡ b
answered_inj a b e = cc

NetsHave-none : (P : String → Type 0) (items : Items) → has_nets items ≡ false → NetsHave P items
unfolding lookup
NetsHave-none P [] h key val net found = cc
NetsHave-none P ((k, u) ∷ items) h key val net found = elim (Bool-cases (k == key)) [
  | inl same ↦
      let e : starts_with k "net" ≡ true =
        ap (λ t. starts_with t "net") ((eq_iff k key).0 same) ∙ net in
      absurd (not_both (starts_with k "net") (has_nets items) h e)
  | inr differ ↦ NetsHave-none P items (or_right _ _ h) key val net (rw differ at found)
]

no_nets_put :
    (P : String → Type 0) (items : Items) → has_nets items ≡ false → NetsHave P (put_all items [])
unfolding put_all
no_nets_put P items h = NetsHave-none _ items h

-- What a mode asks for.
abbrev pub WantedOf : String → String → String → Type 0
WantedOf mode bridge = if mode == "unlink" then HasPart "link_down=1" else OnBridge bridge

NetsHave-unlink :
    (bridge : String) (items changes : Items)
    → isolation_changes "unlink" bridge items ≡ answered changes
    → NetsHave (HasPart "link_down=1") (put_all items changes)
unfolding isolation_changes
NetsHave-unlink bridge items changes e =
    subst (λ c. NetsHave (HasPart "link_down=1") (put_all items c)) (answered_inj _ _ e)
      (NetsHave-changed _ unlinked Settles-unlinked items)

NetsHave-remap :
    (bridge : String) (items changes : Items)
    → isolation_changes "remap" bridge items ≡ answered changes
    → NetsHave (OnBridge bridge) (put_all items changes)
unfolding isolation_changes
NetsHave-remap bridge items changes e = elim (Bool-cases (has_nets items)) [
  | inr no_nets ↦
      subst (λ c. NetsHave (OnBridge bridge) (put_all items c))
        (answered_inj [] changes (rw no_nets at e)) (no_nets_put _ items no_nets)
  | inl nets ↦ elim (Bool-cases (bridge == "")) [
    | inl no_bridge ↦ cc (rw (nets, no_bridge) at e)
    | inr bridged ↦
        subst (λ c. NetsHave (OnBridge bridge) (put_all items c))
          (answered_inj _ changes (rw (nets, bridged) at e))
          (NetsHave-changed _ _ (Settles-remapped bridge) items)
  ]
]

isolates_cases : (mode : String) → isolates mode ≡ true → (mode ≡ "unlink") ⊎ (mode ≡ "remap")
isolates_cases mode h = ground (arith, eq_iff mode "unlink", eq_iff mode "remap")

-- Proxmox's PUT of a config that is answered: the items that are sent take the place of the old ones.
abbrev pub Applies : {C : Type 0} → Host C → Type 0
Applies {C} host =
    (node : String) (vmid : ℕ) (changes items : Items) (c : C)
    → host.config_items c node vmid ≡ answered items
    → (host.put_config node vmid changes c).1 ≡ answered tt
    → host.config_items (host.put_config node vmid changes c).0 node vmid
      ≡ answered (put_all items changes)

-- Every network device of a guest is as wanted.
abbrev pub Ready : {C : Type 0} → Host C → (String → Type 0) → String → ℕ → C → Type 0
Ready host wanted node vmid c =
    (items : Items) × (host.config_items c node vmid ≡ answered items) × NetsHave wanted items

-- What holds of the cluster behind a call that returns.
abbrev Done : {C A : Type 0} → (C → Type 0) → World C × Result A → Type 0
Done P (w, done a) = P w.cluster
Done P (w, task_cancelled) = Unit {0}
Done P (w, timed_out msg) = Unit {0}
Done P (w, error msg) = Unit {0}
Done P (w, unfinished) = Unit {0}

module _ {C : Type 0} (host : Host C) (applies : Applies host) (wanted : String → Type 0)
    (node : String) (vmid : ℕ) where
  abbrev IsReady : C → Type 0
  IsReady = Ready host wanted node vmid

  Done-reply :
      (a : Answer (Unit {0})) (w : World C) (changes : Items)
      → (a ≡ answered tt → IsReady w.cluster)
      → Done IsReady (continue (or_raise a w) (λ _. pure changes))
  unfolding continue or_raise pure
  Done-reply (answered u) w changes h = h refl
  Done-reply (refused msg) w changes h = tt

  Done-put_changes :
      (items changes : Items) (w : World C)
      → host.config_items w.cluster node vmid ≡ answered items
      → NetsHave wanted (put_all items changes)
      → Done IsReady (put_changes host node vmid changes w)
  unfolding put_changes put_items ◌>>=◌ continue send_request pure put_all
  Done-put_changes items [] w e h = (items, e, h)
  Done-put_changes items (change ∷ changes) w e h =
      Done-reply _ _ (change ∷ changes)
        λ ok. (_, applies node vmid (change ∷ changes) items w.cluster e ok, h)

  -- What the changes of a mode come to.
  abbrev Isolates : String → String → Type 0
  Isolates mode bridge =
      (items changes : Items)
      → isolation_changes mode bridge items ≡ answered changes
      → NetsHave wanted (put_all items changes)

  Done-changes :
      (items : Items) (a : Answer Items) (w : World C)
      → host.config_items w.cluster node vmid ≡ answered items
      → ((changes : Items) → a ≡ answered changes → NetsHave wanted (put_all items changes))
      → Done IsReady (continue (or_raise a w) (λ changes. put_changes host node vmid changes))
  unfolding continue or_raise
  Done-changes items (answered changes) w e h = Done-put_changes items changes w e (h changes refl)
  Done-changes items (refused msg) w e h = tt

  Done-items :
      (mode bridge : String) (a : Answer Items) (w : World C)
      → host.config_items w.cluster node vmid ≡ a
      → Isolates mode bridge
      → Done IsReady (
          continue (or_raise a w) (λ items.
            or_raise (isolation_changes mode bridge items) >>= λ changes.
            put_changes host node vmid changes))
  unfolding continue or_raise ◌>>=◌
  Done-items mode bridge (answered items) w e h =
      Done-changes items (isolation_changes mode bridge items) w e (h items)
  Done-items mode bridge (refused msg) w e h = tt

  Done-unlink :
      (bridge : String) (w : World C)
      → Isolates "unlink" (strip bridge)
      → Done IsReady (apply_network_isolation host node vmid "unlink" bridge w)
  unfolding apply_network_isolation ◌>>=◌ continue asks lower strip
  Done-unlink bridge w h =
      Done-items "unlink" (strip bridge) (host.config_items w.cluster node vmid) w refl h

  Done-remap :
      (bridge : String) (w : World C)
      → Isolates "remap" (strip bridge)
      → Done IsReady (apply_network_isolation host node vmid "remap" bridge w)
  unfolding apply_network_isolation ◌>>=◌ continue asks lower strip
  Done-remap bridge w h =
      Done-items "remap" (strip bridge) (host.config_items w.cluster node vmid) w refl h

module _ {C : Type 0} (host : Host C) (applies : Applies host) (id : String) (o : JobOrder) where
  Done-said :
      (P : C → Type 0) (text : String) (line : Items → String) (x : World C × Result Items)
      → Done P x
      → Done P (continue (prefixed text x) (λ changed. info host id (line changed)))
  unfolding continue info say
  Done-said P text line (w, done changed) h = h
  Done-said P text line (w, task_cancelled) h = tt
  Done-said P text line (w, timed_out msg) h = tt
  Done-said P text line (w, error msg) h = tt
  Done-said P text line (w, unfinished) h = tt

  Done-isolate_unlink :
      (bridge : String) (w : World C)
      → Done
          (Ready host (HasPart "link_down=1") o.node o.vmid)
          (isolate_as host id o "unlink" bridge w)
  unfolding isolate_as when_so ◌>>=◌ continue info say
  Done-isolate_unlink bridge w =
      Done-said (Ready host (HasPart "link_down=1") o.node o.vmid) _ _ _ (
        Done-unlink host applies (HasPart "link_down=1") o.node o.vmid bridge _
          (NetsHave-unlink (strip bridge)))

  Done-isolate_remap :
      (bridge : String) (w : World C)
      → Done
          (Ready host (OnBridge (strip bridge)) o.node o.vmid)
          (isolate_as host id o "remap" bridge w)
  unfolding isolate_as when_so ◌>>=◌ continue info say
  Done-isolate_remap bridge w =
      Done-said (Ready host (OnBridge (strip bridge)) o.node o.vmid) _ _ _ (
        Done-remap host applies (OnBridge (strip bridge)) o.node o.vmid bridge _
          (NetsHave-remap (strip bridge)))

  -- What the job asks for.
  abbrev Wanted : String → String → C → Type 0
  Wanted mode bridge = Ready host (WantedOf mode (strip bridge)) o.node o.vmid

  Done-isolate_as :
      (mode bridge : String) (w : World C)
      → isolates mode ≡ true
      → Done (Wanted mode bridge) (isolate_as host id o mode bridge w)
  Done-isolate_as mode bridge w h = elim (isolates_cases mode h) [
    | inl u ↦
        subst (λ m. Done (Wanted m bridge) (isolate_as host id o m bridge w)) (sym u)
          (Done-isolate_unlink bridge w)
    | inr r ↦
        subst (λ m. Done (Wanted m bridge) (isolate_as host id o m bridge w)) (sym r)
          (Done-isolate_remap bridge w)
  ]

  isolate_network-Ready :
      (d : Hash) (w w' : World C)
      → isolates (net_mode_of d) ≡ true
      → isolate_network host id o d w ≡ (w', done tt)
      → Wanted (net_mode_of d) (lab_bridge_of d) w'.cluster
  unfolding isolate_network
  isolate_network-Ready d w w' h e =
      subst (Done (Wanted (net_mode_of d) (lab_bridge_of d))) e
        (Done-isolate_as (net_mode_of d) (lab_bridge_of d) w h)

-- A request to start a guest, sent while every network device of the guest is as wanted.
abbrev pub StartsReady : {C : Type 0} → Host C → (String → Type 0) → ApiRequest × C → Type 0
StartsReady host wanted (start_vm node vmid, c) = Ready host wanted node vmid c
StartsReady host wanted (restore_vm p, c) = Unit {0}
StartsReady host wanted (stop_task_of upid, c) = Unit {0}
StartsReady host wanted (put_config_of node vmid items, c) = Unit {0}
StartsReady host wanted (stop_vm node vmid, c) = Unit {0}

StartsReady-other :
    {C : Type 0} (host : Host C) (wanted : String → Type 0) (q : ApiRequest) (c : C)
    → starts q ≡ false
    → StartsReady host wanted (q, c)
StartsReady-other host wanted (start_vm node vmid) c h = cc
StartsReady-other host wanted (restore_vm p) c h = tt
StartsReady-other host wanted (stop_task_of upid) c h = tt
StartsReady-other host wanted (put_config_of node vmid items) c h = tt
StartsReady-other host wanted (stop_vm node vmid) c h = tt

sent_of_Post :
    {C A : Type 0} (G : List (ApiRequest × C) → Type 0) (x : World C × Result A)
    → Post G (Unit {0}) x
    → G x.0.sent
sent_of_Post G (w, done a) g = g
sent_of_Post G (w, task_cancelled) g = g
sent_of_Post G (w, timed_out msg) g = g
sent_of_Post G (w, error msg) g = g
sent_of_Post G (w, unfinished) g = g.0

-- For every job that asks for isolation and every way that its requests and waits turn out: whenever
-- the worker sends a request to start the guest, the text of each network device in the guest's
-- config contains "link_down=1" under `unlink`; and under `remap` it is, joined by commas, a list of
-- options without commas that do not begin with "bridge=", and then "bridge=" with the name of the lab
-- bridge. This holds if an answered PUT of a config puts the items that it sends in the place of the
-- old ones.
pub process_job-isolates :
    {C : Type 0} (host : Host C)
    → Applies host
    → (config : Config) (rounds : ℕ) (id : String) (w : World C)
    → isolates (net_mode_of (hgetall w.redis id)) ≡ true
    → w.sent ≡ []
    → All
        (StartsReady host (
          WantedOf (net_mode_of (hgetall w.redis id)) (strip (lab_bridge_of (hgetall w.redis id)))))
        (process_job host id config rounds w).0.sent
process_job-isolates host applies config rounds id w asked fresh =
    let d = hgetall w.redis id in
    let wanted = WantedOf (net_mode_of d) (strip (lab_bridge_of d)) in
    sent_of_Post (All (StartsReady host wanted)) (process_job host id config rounds w) (
      Post-process_job host id (All (StartsReady host wanted)) (Unit {0})
        (λ q c l s g. (StartsReady-other host wanted q c s, g)) config rounds w
        (λ o r.
          Meets-restore_guest host id (All (StartsReady host wanted)) (Unit {0})
            (λ q c l s g. (StartsReady-other host wanted q c s, g)) config rounds o d (inl tt)
            (inl tt) (Ready host wanted o.node o.vmid) (λ c l ready g. (ready, g))
            (λ w1 w2 e. isolate_network-Ready host applies id o d w1 w2 asked e))
        (rw fresh tt))
