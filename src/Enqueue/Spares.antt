-- ===== src/Enqueue/Spares.antt =====
-- What the overwrite of a DR restore never deletes.
use restore_engine.Common.{
  ℕ, ◌≡◌, refl, ◌∙◌, String, Bool, true, false, not, ◌&&◌, List, [], ◌∷◌, Option, none, some,
  contains, ◌==◌, nat_key, string_key, arith, inl, inr, Bool-cases, if◌then◌else◌,
}
use restore_engine.Jobs.{Redis}
use restore_engine.Runs.{Order}
use restore_engine.Guests.{Proxmox, find_guest_resource, qemu_is_managed_by_tool}
use restore_engine.Guests.Destroy.{Session, destroy_owned_qemu_vm}
use restore_engine.Guests.Owned.{
  is_sent, is_spared, Steady, destroy_owned-spared, destroy_owned-Kept,
}
use restore_engine.Enqueue.{
  EnqueueError, foreign_guest, node_unknown, is_container, Checked, good, bad,
}
use restore_engine.Enqueue.Reclaim.{
  is_lxc, destroy_error, reclaim_node, reclaim_at, reclaim_one, reclaim,
}
use restore_engine.Enqueue.Call.{
  Choices, Call, queued, stopped, is_dr, settle_choices, reclaimed, finish, with_choices,
  checked_call, enqueue_restores,
}

module _ {C : Type 0} (api : Proxmox C) (v : ℕ) (k : Steady api false v) where
  abbrev Spared : Session C → Type 0
  Spared s = (n : String) → is_spared api false n v s.cluster ≡ true

  -- No new DELETE for `v`, which is still spared.
  abbrev Safe : Session C → Session C → Type 0
  Safe s s' = (is_sent v s'.sent ≡ is_sent v s.sent) × Spared s'

  Safe-if :
      (s : Session C) (b : Bool) (x y : Session C × Option EnqueueError)
      → Safe s x.0
      → Safe s y.0
      → Safe s (if b then x else y).0
  Safe-if s true x y h h' = h
  Safe-if s false x y h h' = h'

  destroy_owned-Safe :
      (vmid : ℕ) (node : String) (s : Session C)
      → Spared s
      → Safe s (destroy_owned_qemu_vm api false true true node vmid s).0
  destroy_owned-Safe vmid node s spared = elim (Bool-cases (vmid == v)) [
    | inl target ↦
        let same : vmid ≡ v = ground arith in
        let kept : (destroy_owned_qemu_vm api false true true node vmid s).0 ≡ s =
          rw same (destroy_owned-spared api false true true node v s (spared node)) in
        rw kept (refl, spared)
    | inr other ↦ (
      (destroy_owned-Kept api false v k "" false true true node vmid s other).0,
      λ n. (destroy_owned-Kept api false v k n false true true node vmid s other).1 ∙ spared n,
    )
  ]

  reclaim_at-Safe :
      (vmid : ℕ) (node : String) (candidates : List String) (s : Session C)
      → Spared s
      → Safe s (reclaim_at api candidates vmid node s).0
  unfolding reclaim_at
  reclaim_at-Safe vmid node candidates s spared =
      let refusal : Session C × Option EnqueueError = (s, some (foreign_guest vmid)) in
      let unknown : Session C × Option EnqueueError = (s, some (node_unknown vmid)) in
      let (s', outcome) = destroy_owned_qemu_vm api false true true node vmid s in
      let gone : Session C × Option EnqueueError = (s', destroy_error vmid outcome) in
      let is_foreign = not (qemu_is_managed_by_tool api node vmid s.cluster) in
      Safe-if s (node == "") unknown (if is_foreign then refusal else gone) (refl, spared)
        (Safe-if s is_foreign refusal gone (refl, spared) (destroy_owned-Safe vmid node s spared))

  reclaim_one-Safe :
      (in_use : List ℕ) (vmid : ℕ) (candidates : List String) (s : Session C)
      → Spared s
      → Safe s (reclaim_one api candidates in_use vmid s).0
  unfolding reclaim_one
  reclaim_one-Safe in_use vmid candidates s spared =
      let container : Session C × Option EnqueueError = (s, some (is_container vmid)) in
      let here = is_lxc (find_guest_resource api vmid s.cluster) in
      let gone = reclaim_at api candidates vmid (reclaim_node api candidates vmid s) s in
      Safe-if s (not (contains vmid in_use)) (s, none) (if here then container else gone)
        (refl, spared)
        (Safe-if s here container gone (refl, spared)
          (reclaim_at-Safe vmid (reclaim_node api candidates vmid s) candidates s spared))

  -- An error leaves the loop.
  goes_on :
      (in_use vmids : List ℕ) (candidates : List String) (s s' : Session C)
      (error : Option EnqueueError)
      → Safe s s'
      → Safe s' (reclaim api candidates in_use vmids s').0
      → Safe s
          (elim error as (λ _. Session C × Option EnqueueError) [
            | none ↦ reclaim api candidates in_use vmids s'
            | some e ↦ (s', some e)
          ]).0
  goes_on in_use vmids candidates s s' none one rest = (rest.0 ∙ one.0, rest.1)
  goes_on in_use vmids candidates s s' (some e) one rest = one

  reclaim-Safe :
      (in_use vmids : List ℕ) (candidates : List String) (s : Session C)
      → Spared s
      → Safe s (reclaim api candidates in_use vmids s).0
  unfolding reclaim
  reclaim-Safe in_use [] candidates s spared = (refl, spared)
  reclaim-Safe in_use (vmid ∷ vmids) candidates s spared =
      goes_on in_use vmids candidates s (reclaim_one api candidates in_use vmid s).0
        (reclaim_one api candidates in_use vmid s).1
        (reclaim_one-Safe in_use vmid candidates s spared)
        (reclaim-Safe in_use vmids candidates (reclaim_one api candidates in_use vmid s).0
          (reclaim_one-Safe in_use vmid candidates s spared).1)

abbrev pub session_of : {C : Type 0} → Call C → Session C
session_of (queued s r result) = s
session_of (stopped s r e) = s

module _ {C : Type 0} (api : Proxmox C) (connects : Bool) (now : String) (uuid : ℕ → String)
    (o : Order) (r : Redis) where
  session_of-with_choices :
      (ch : Choices) (t : Session C × Option EnqueueError)
      → session_of (with_choices api connects now uuid o ch r t) ≡ t.0
  unfolding with_choices
  session_of-with_choices ch (s, some e) = refl
  session_of-with_choices ch (s, none) = after _
    where
      after : (w : Redis × Checked (List String)) → session_of (finish api connects s ch w) ≡ s
      after (r', good ids) = refl
      after (r', bad e) = refl

  checked_call-spares :
      (v : ℕ) (k : Steady api false v) (s : Session C) (c : Checked Choices)
      → ((n : String) → is_spared api false n v s.cluster ≡ true)
      → is_sent v (session_of (checked_call api connects now uuid o r s c)).sent ≡ is_sent v s.sent
  unfolding checked_call reclaimed
  checked_call-spares v k s (bad e) spared = refl
  checked_call-spares v k s (good ch) spared =
      rw (session_of-with_choices ch (reclaimed api connects o ch s))
        (Safe-if api v k s (is_dr api connects ch.mode && o.settings.overwrite)
          (reclaim api ch.candidates ch.in_use ch.vmids s) (s, none)
          (reclaim-Safe api v k ch.in_use ch.vmids ch.candidates s spared) (refl, spared)).0

-- A call of `enqueue_restores`, in either mode and with overwrite or without, sends no DELETE for a
-- guest that, on every node, is an LXC container, of another type than QEMU, or a QEMU guest with no
-- marker, as long as requests for other guests do not change what this guest is.
pub enqueue_restores_spares :
    {C : Type 0} (api : Proxmox C) (connects : Bool) (now : String) (uuid : ℕ → String) (o : Order)
    (r : Redis) (s : Session C) (v : ℕ)
    → Steady api false v
    → ((node : String) → is_spared api false node v s.cluster ≡ true)
    → is_sent v (session_of (enqueue_restores api connects now uuid o r s)).sent ≡ is_sent v s.sent
unfolding enqueue_restores
enqueue_restores_spares api connects now uuid o r s v k spared =
    checked_call-spares api connects now uuid o r v k s (settle_choices api connects o s.cluster r)
      spared
