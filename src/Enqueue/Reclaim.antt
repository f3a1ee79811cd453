-- ===== src/Enqueue/Reclaim.antt =====
-- jobs.py: the guests that a DR restore with `overwrite` destroys before it makes jobs.
use restore_engine.Common.{
  ℕ, String, Bool, true, false, not, List, [], ◌∷◌, Option, none, some, contains, ◌==◌, nat_key,
  string_key, if◌then◌else◌,
}
use restore_engine.Guests.{
  Proxmox, Guest, find_guest_resource, find_qemu_node, qemu_is_managed_by_tool,
}
use restore_engine.Guests.Destroy.{
  Session, Outcome, absent, managed, run_provenance, not_owned, failed, destroy_owned_qemu_vm,
}
use restore_engine.Enqueue.{EnqueueError, is_container, node_unknown, foreign_guest, destroy_failed}

abbrev pub is_lxc : Option Guest → Bool
is_lxc none = false
is_lxc (some guest) = guest.kind == "lxc"

abbrev guest_node : Option Guest → String
guest_node none = ""
guest_node (some guest) = guest.node

abbrev or_first : Option String → List String → String
or_first (some node) candidates = node
or_first none [] = ""
or_first none (x ∷ xs) = x

-- A destroy that raised is an error; one that found nothing is not.
abbrev pub destroy_error : ℕ → Outcome → Option EnqueueError
destroy_error vmid absent = none
destroy_error vmid managed = none
destroy_error vmid run_provenance = none
destroy_error vmid (not_owned r) = some (destroy_failed vmid)
destroy_error vmid (failed msg) = some (destroy_failed vmid)

module _ {C : Type 0} (api : Proxmox C) (candidates : List String) where
  -- `(guest or {}).get("node") or find_qemu_node(…) or candidates[0]`
  abbrev pub reclaim_node : ℕ → Session C → String
  reclaim_node vmid s =
      let known = guest_node (find_guest_resource api vmid s.cluster) in
      if known == "" then or_first (find_qemu_node api vmid s.cluster) candidates else known

  unfoldable pub reclaim_at : ℕ → String → Session C → Session C × Option EnqueueError
  reclaim_at vmid node s =
      if node == ""
      then (s, some (node_unknown vmid))
      else if not (qemu_is_managed_by_tool api node vmid s.cluster)
      then (s, some (foreign_guest vmid))
      else (let (s', outcome) = destroy_owned_qemu_vm api false true true node vmid s in
          (s', destroy_error vmid outcome))

  unfoldable pub reclaim_one : List ℕ → ℕ → Session C → Session C × Option EnqueueError
  unfolding reclaim_at
  reclaim_one in_use vmid s =
      if not (contains vmid in_use)
      then (s, none)
      else if is_lxc (find_guest_resource api vmid s.cluster)
      then (s, some (is_container vmid))
      else reclaim_at vmid (reclaim_node vmid s) s

  -- The loop over the allocated ids, which the first error leaves.
  unfoldable pub reclaim : List ℕ → List ℕ → Session C → Session C × Option EnqueueError
  unfolding reclaim_one
  reclaim in_use [] s = (s, none)
  reclaim in_use (vmid ∷ vmids) s =
      let (s', error) = reclaim_one in_use vmid s in
      elim error [ none ↦ reclaim in_use vmids s' | some e ↦ (s', some e) ]
