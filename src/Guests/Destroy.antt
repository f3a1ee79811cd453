-- ===== src/Guests/Destroy.antt =====
-- pve_client.py: `destroy_qemu_vm` and `destroy_owned_qemu_vm`. A session has the state of the cluster
-- and the DELETE requests that were sent to it. `stop_qemu_vm` only waits beside its one request,
-- and raises nothing.
use restore_engine.Common.{
  ℕ, zero, suc, String, Bool, true, false, not, ◌&&◌, List, [], ◌∷◌, ◌++◌, Option, none, some, ltb,
  ◌==◌, string_key, if◌then◌else◌,
}
use restore_engine.Common.Text.{strip}
use restore_engine.Common.Parse.{lower, has_text}
use restore_engine.Guests.{
  Proxmox, DeleteReply, deleted, type_error, rejected, Guest, find_guest_resource,
  qemu_is_managed_by_tool,
}

-- A DELETE request for a guest.
pub record Deletion : Type 0 where
  pub vmid : ℕ
  pub node : String

pub record Session (C : Type 0) : Type 0 where
  pub cluster : C
  pub sent : List Deletion

-- The messages of a GuestOwnershipError.
pub data Refusal : Type 0 where
  is_lxc foreign : Refusal
  unsupported_kind : String → Refusal

-- The returned reason, a GuestOwnershipError, or another exception with its message.
pub data Outcome : Type 0 where
  absent managed run_provenance : Outcome
  not_owned : Refusal → Outcome
  failed : String → Outcome

-- A failed attempt is repeated while the message says that the guest is running.
abbrev pub is_retried : ℕ → String → Bool
is_retried attempts msg = has_text "running" (lower msg) && ltb 0 attempts

module _ {C : Type 0} (api : Proxmox C) where
  abbrev pub send : Bool → Bool → String → ℕ → Session C → Session C × DeleteReply
  send purge disks node vmid s =
      let (c, reply) = api.delete purge disks node vmid s.cluster in
      (record { cluster = c; sent = s.sent ++ record { vmid = vmid; node = node } ∷ [] }, reply)

  abbrev pub stopped : String → ℕ → Session C → Session C
  stopped node vmid s = record s { cluster = api.stop node vmid s.cluster }

  -- The `for` loop: the attempts left, whether `destroy-unreferenced-disks` is still sent, and
  -- `last_exc`. It ends with no message after a success.
  unfoldable pub attempt :
      ℕ → Bool → Bool → Option String → String → ℕ → Session C → Session C × Option String
  attempt zero purge disks last_exc node vmid s = (s, last_exc)
  attempt (suc left) purge disks last_exc node vmid s =
      let first = send purge disks node vmid s in
      elim first.1 [
        | deleted ↦ (first.0, none)
        | type_error _ ↦
            let second = send purge false node vmid first.0 in
            elim second.1 [
              | deleted ↦ (second.0, none)
              | type_error msg ↦ attempt left purge false (some msg) node vmid second.0
              | rejected msg ↦ attempt left purge false (some msg) node vmid second.0
            ]
        | rejected msg ↦ elim (is_retried left msg) [
          | true ↦ attempt left purge disks (some msg) node vmid (stopped node vmid first.0)
          | false ↦ (first.0, some msg)
        ]
      ]

  unfoldable pub destroy_qemu_vm : Bool → Bool → String → ℕ → Session C → Session C × Option String
  unfolding attempt
  destroy_qemu_vm purge disks node vmid s =
      if strip node == ""
      then (s, some "node is required to destroy a VM")
      else attempt 3 purge disks none (strip node) vmid (stopped (strip node) vmid s)

  abbrev pub ended : Outcome → Session C × Option String → Session C × Outcome
  ended reason (s, none) = (s, reason)
  ended reason (s, some msg) = (s, failed msg)

  -- The QEMU guest that was found, on its node.
  unfoldable pub destroy_guest : Bool → Bool → Bool → String → ℕ → Session C → Session C × Outcome
  unfolding destroy_qemu_vm
  destroy_guest allow_run_provenance purge disks node vmid s =
      if qemu_is_managed_by_tool api node vmid s.cluster
      then ended managed (destroy_qemu_vm purge disks node vmid s)
      else if allow_run_provenance
      then ended run_provenance (destroy_qemu_vm purge disks node vmid s)
      else (s, not_owned foreign)

  -- `str(guest.get("node") or node).strip()`
  abbrev pub node_of : Guest → String → String
  node_of guest node = if guest.node == "" then strip node else strip guest.node

  unfoldable pub destroy_found :
      Bool → Bool → Bool → String → ℕ → Session C → Option Guest → Session C × Outcome
  unfolding destroy_guest
  destroy_found allow_run_provenance purge disks node vmid s none = (s, absent)
  destroy_found allow_run_provenance purge disks node vmid s (some guest) =
      if guest.kind == "lxc"
      then (s, not_owned is_lxc)
      else if not (guest.kind == "") && not (guest.kind == "qemu")
      then (s, not_owned (unsupported_kind guest.kind))
      else destroy_guest allow_run_provenance purge disks (node_of guest (strip node)) vmid s

  unfoldable pub destroy_owned_qemu_vm :
      Bool → Bool → Bool → String → ℕ → Session C → Session C × Outcome
  unfolding destroy_found
  destroy_owned_qemu_vm allow_run_provenance purge disks node vmid s =
      destroy_found allow_run_provenance purge disks node vmid s
        (find_guest_resource api vmid s.cluster)
