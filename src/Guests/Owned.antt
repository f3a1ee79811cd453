-- ===== src/Guests/Owned.antt =====
-- `destroy_owned_qemu_vm` sends no DELETE for a guest that is not the program's own.
use restore_engine.Common.{
  ℕ, zero, suc, ◌≡◌, refl, ◌∙◌, String, Bool, true, false, not, ◌&&◌, ◌||◌, List, [], ◌∷◌, ◌++◌,
  Option, none, some, ◌==◌, nat_key, string_key, arith, inl, inr, ◌⊎◌, Bool-cases, if◌then◌else◌,
}
use restore_engine.Common.Text.{strip}
use restore_engine.Guests.{
  Proxmox, DeleteReply, deleted, type_error, rejected, Guest, find_guest_resource,
  qemu_is_managed_by_tool,
}
use restore_engine.Guests.Destroy.{
  Session, Deletion, Outcome, is_retried, send, stopped, attempt, destroy_qemu_vm, ended, managed,
  run_provenance, not_owned, is_lxc, foreign, unsupported_kind, destroy_guest, node_of,
  destroy_found, destroy_owned_qemu_vm,
}

abbrev pub is_sent : ℕ → List Deletion → Bool
is_sent v [] = false
is_sent v (d ∷ ds) = d.vmid == v || is_sent v ds

is_sent-append :
    (v : ℕ) (d : Deletion) (ds : List Deletion)
    → (d.vmid == v) ≡ false
    → is_sent v (ds ++ d ∷ []) ≡ is_sent v ds
is_sent-append v d [] h = ground arith
is_sent-append v d (e ∷ ds) h = ground (arith, is_sent-append v d ds h)

Reply-cases :
    (r : DeleteReply)
    → (r ≡ deleted)
      ⊎ ((msg : String) × (r ≡ type_error msg))
      ⊎ ((msg : String) × (r ≡ rejected msg))
Reply-cases deleted = inl refl
Reply-cases (type_error msg) = inr (inl (msg, refl))
Reply-cases (rejected msg) = inr (inr (msg, refl))

module _ {C : Type 0} (api : Proxmox C) where
  -- What the call leaves alone on a node: no guest, an LXC container, another type, or a QEMU guest
  -- without the marker where no job of the run restored it.
  abbrev spares : Bool → String → ℕ → C → Option Guest → Bool
  spares allow_run_provenance node vmid c none = true
  spares allow_run_provenance node vmid c (some guest) =
      guest.kind == "lxc"
      || (not (guest.kind == "") && not (guest.kind == "qemu"))
      || not (
          qemu_is_managed_by_tool api (node_of api guest (strip node)) vmid c
          || allow_run_provenance)

  abbrev pub is_spared : Bool → String → ℕ → C → Bool
  is_spared allow_run_provenance node vmid c =
      spares allow_run_provenance node vmid c (find_guest_resource api vmid c)

  pub destroy_owned-spared :
      (allow_run_provenance purge disks : Bool) (node : String) (vmid : ℕ) (s : Session C)
      → is_spared allow_run_provenance node vmid s.cluster ≡ true
      → (destroy_owned_qemu_vm api allow_run_provenance purge disks node vmid s).0 ≡ s
  unfolding destroy_owned_qemu_vm destroy_found destroy_guest
  destroy_owned-spared allow purge disks node vmid s h = ground arith

  -- Requests about other guests do not change what is spared.
  pub record Steady (allow_run_provenance : Bool) (v : ℕ) : Type 0 where
    pub stop_keeps :
        (c : C) (n node : String) (vmid : ℕ)
        → (vmid == v) ≡ false
        → is_spared allow_run_provenance n v (api.stop node vmid c)
          ≡ is_spared allow_run_provenance n v c
    pub delete_keeps :
        (c : C) (n node : String) (vmid : ℕ) (purge disks : Bool)
        → (vmid == v) ≡ false
        → is_spared allow_run_provenance n v (api.delete purge disks node vmid c).0
          ≡ is_spared allow_run_provenance n v c

  module _ (allow : Bool) (v : ℕ) (k : Steady allow v) (n : String) where
    -- The DELETE requests for `v`, and whether it is spared, are as before.
    abbrev pub Kept : Session C → Session C → Type 0
    Kept s s' =
        (is_sent v s'.sent ≡ is_sent v s.sent)
        × (is_spared allow n v s'.cluster ≡ is_spared allow n v s.cluster)

    Kept-trans : (s t u : Session C) → Kept s t → Kept t u → Kept s u
    Kept-trans s t u h k = (k.0 ∙ h.0, k.1 ∙ h.1)

    module _ (node : String) (vmid : ℕ) (ne : (vmid == v) ≡ false) where
      Kept-send : (purge disks : Bool) (s : Session C) → Kept s (send api purge disks node vmid s).0
      Kept-send purge disks s = (
        is_sent-append v (record { vmid = vmid; node = node }) s.sent ne,
        k.delete_keeps s.cluster n node vmid purge disks ne,
      )

      Kept-stopped : (s : Session C) → Kept s (stopped api node vmid s)
      Kept-stopped s = (refl, k.stop_keeps s.cluster n node vmid ne)

      attempt-Kept :
          (attempts : ℕ) (purge disks : Bool) (last_exc : Option String) (s : Session C)
          → Kept s (attempt api attempts purge disks last_exc node vmid s).0
      unfolding attempt
      attempt-Kept zero purge disks last_exc s = (refl, refl)
      attempt-Kept (suc left) purge disks last_exc s =
          let first = send api purge disks node vmid s in
          let one = Kept-send purge disks s in
          let second = send api purge false node vmid first.0 in
          let two = Kept-trans s first.0 second.0 one (Kept-send purge false first.0) in
          elim (Reply-cases first.1) [
            | inl done ↦ rw (done, attempt) one
            | inr (inl (msg, bad)) ↦
                rw (bad, attempt)
                  (elim (Reply-cases second.1) [
                    | inl done ↦ rw (done, attempt) two
                    | inr (inl (msg, again)) ↦
                        rw (again, attempt)
                          (Kept-trans s second.0 _ two
                            (attempt-Kept left purge false (some msg) second.0))
                    | inr (inr (msg, refused)) ↦
                        rw (refused, attempt)
                          (Kept-trans s second.0 _ two
                            (attempt-Kept left purge false (some msg) second.0))
                  ])
            | inr (inr (msg, refused)) ↦
                rw (refused, attempt)
                  (elim (Bool-cases (is_retried left msg)) [
                    | inl again ↦
                        let third = stopped api node vmid first.0 in
                        rw (again, attempt)
                          (Kept-trans s third _
                            (Kept-trans s first.0 third one (Kept-stopped first.0))
                            (attempt-Kept left purge disks (some msg) third))
                    | inr over ↦ rw (over, attempt) one
                  ])
          ]

    destroy_qemu_vm-Kept :
        (purge disks : Bool) (node : String) (vmid : ℕ) (s : Session C)
        → (vmid == v) ≡ false
        → Kept s (destroy_qemu_vm api purge disks node vmid s).0
    unfolding destroy_qemu_vm
    destroy_qemu_vm-Kept purge disks node vmid s ne = elim (Bool-cases (strip node == "")) [
      | inl blank ↦ rw blank (refl, refl)
      | inr named ↦
          let first = stopped api (strip node) vmid s in
          rw named (
            Kept-trans s first _ (Kept-stopped (strip node) vmid ne s)
              (attempt-Kept (strip node) vmid ne 3 purge disks none first))
    ]

    Kept-if :
        (s : Session C) (b : Bool) (x y : Session C × Outcome)
        → Kept s x.0
        → Kept s y.0
        → Kept s (if b then x else y).0
    Kept-if s true x y h k = h
    Kept-if s false x y h k = k

    Kept-ended :
        (s : Session C) (reason : Outcome) (r : Session C × Option String)
        → Kept s r.0
        → Kept s (ended api reason r).0
    Kept-ended s reason (t, none) h = h
    Kept-ended s reason (t, some msg) h = h

    destroy_guest-Kept :
        (prov purge disks : Bool) (node : String) (vmid : ℕ) (s : Session C)
        → (vmid == v) ≡ false
        → Kept s (destroy_guest api prov purge disks node vmid s).0
    unfolding destroy_guest
    destroy_guest-Kept prov purge disks node vmid s ne =
        let gone = destroy_qemu_vm-Kept purge disks node vmid s ne in
        let (t, msg) = destroy_qemu_vm api purge disks node vmid s in
        let refusal : Session C × Outcome = (s, not_owned foreign) in
        let proven = if prov then ended api run_provenance (t, msg) else refusal in
        Kept-if s (qemu_is_managed_by_tool api node vmid s.cluster) (ended api managed (t, msg))
          proven (Kept-ended s managed (t, msg) gone)
          (Kept-if s prov (ended api run_provenance (t, msg)) refusal
            (Kept-ended s run_provenance (t, msg) gone) (refl, refl))

    destroy_found-Kept :
        (prov purge disks : Bool) (node : String) (vmid : ℕ) (s : Session C) (o : Option Guest)
        → (vmid == v) ≡ false
        → Kept s (destroy_found api prov purge disks node vmid s o).0
    unfolding destroy_found
    destroy_found-Kept prov purge disks node vmid s none ne = (refl, refl)
    destroy_found-Kept prov purge disks node vmid s (some guest) ne =
        let lxc : Session C × Outcome = (s, not_owned is_lxc) in
        let unsupported : Session C × Outcome = (s, not_owned (unsupported_kind guest.kind)) in
        let there = node_of api guest (strip node) in
        let gone = destroy_guest api prov purge disks there vmid s in
        let is_other = not (guest.kind == "") && not (guest.kind == "qemu") in
        Kept-if s (guest.kind == "lxc") lxc (if is_other then unsupported else gone) (refl, refl)
          (Kept-if s is_other unsupported gone (refl, refl)
            (destroy_guest-Kept prov purge disks there vmid s ne))

    -- The removal of another guest.
    pub destroy_owned-Kept :
        (prov purge disks : Bool) (node : String) (vmid : ℕ) (s : Session C)
        → (vmid == v) ≡ false
        → Kept s (destroy_owned_qemu_vm api prov purge disks node vmid s).0
    unfolding destroy_owned_qemu_vm
    destroy_owned-Kept prov purge disks node vmid s ne =
        destroy_found-Kept prov purge disks node vmid s (find_guest_resource api vmid s.cluster) ne
