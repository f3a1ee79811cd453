-- ===== src/Runs/Teardown/Spares.antt =====
-- What a teardown never deletes.
use restore_engine.Common.{
  ℕ, ◌≡◌, refl, ◌∙◌, String, Bool, true, List, [], ◌∷◌, contains, ◌==◌, nat_key, string_key, arith,
  inl, inr, Bool-cases, if◌then◌else◌,
}
use restore_engine.Common.Text.{strip}
use restore_engine.Runs.{Target, Run, Plans}
use restore_engine.Guests.{Proxmox, find_qemu_node}
use restore_engine.Guests.Destroy.{Session, destroy_owned_qemu_vm}
use restore_engine.Guests.Owned.{
  is_sent, is_spared, Steady, destroy_owned-spared, destroy_owned-Kept,
}
use restore_engine.Runs.Teardown.Results.{torn_down_lem}
use restore_engine.Runs.Teardown.{
  torn_down, or_blank, provenance_vmids, collect_plan_run_targets, destroy_on, teardown_one,
  teardown_all, after_teardown, teardown_plan_run,
}

module _ {C : Type 0} (api : Proxmox C) (provenance : List ℕ) (v : ℕ)
    (k : Steady api (contains v provenance) v) where
  abbrev allow : Bool
  allow = contains v provenance

  -- No new DELETE for `v`, which is still spared on every node.
  abbrev Safe : Session C → Session C → Type 0
  Safe s s' =
      (is_sent v s'.sent ≡ is_sent v s.sent)
      × ((n : String) → is_spared api allow n v s'.cluster ≡ true)

  destroy_on-Safe :
      (vmid : ℕ) (node : String) (s : Session C)
      → ((n : String) → is_spared api allow n v s.cluster ≡ true)
      → Safe s (destroy_on api provenance vmid node s).0
  unfolding destroy_on
  destroy_on-Safe vmid node s spared = elim (Bool-cases (node == "")) [
    | inl blank ↦ rw blank (refl, spared)
    | inr named ↦ elim (Bool-cases (vmid == v)) [
      | inl target ↦
          let same : vmid ≡ v = ground arith in
          let kept : (destroy_owned_qemu_vm api (contains vmid provenance) true true node vmid s).0
              ≡ s =
            rw same (destroy_owned-spared api allow true true node v s (spared node)) in
          rw (named, kept) (refl, spared)
      | inr other ↦ rw named (
        (destroy_owned-Kept api allow v k "" (contains vmid provenance) true true node vmid s
            other).0,
        λ n.
            (destroy_owned-Kept api allow v k n (contains vmid provenance) true true node vmid s
              other).1
            ∙ spared n,
      )
    ]
  ]

  teardown_all-Safe :
      (ts : List Target) (s : Session C)
      → ((n : String) → is_spared api allow n v s.cluster ≡ true)
      → Safe s (teardown_all api provenance ts s).0
  unfolding teardown_all teardown_one
  teardown_all-Safe [] s spared = (refl, spared)
  teardown_all-Safe (t ∷ ts) s spared =
      let node = strip t.node in
      let one =
        destroy_on-Safe t.vmid
          (if node == "" then or_blank (find_qemu_node api t.vmid s.cluster) else node) s spared in
      let rest = teardown_all-Safe ts (teardown_one api provenance t s).0 one.1 in
      (rest.0 ∙ one.0, rest.1)

-- A teardown sends no DELETE for a guest that, on every node, is none of the program's: an LXC container
-- or a guest of another type than QEMU, or a QEMU guest with no marker that no job of the run began
-- to restore. This holds whatever the targets are and however requests fail, as long as requests for
-- other guests do not change what this guest is.
pub teardown_spares :
    {C : Type 0} (api : Proxmox C) (now : String) (connects : Bool) (run run' : Run) (p p' : Plans)
    (s s' : Session C) (v : ℕ)
    → Steady api (contains v (provenance_vmids p.redis run.job_ids_by_group)) v
    → ((node : String)
        → is_spared api
            (contains v (provenance_vmids p.redis run.job_ids_by_group))
            node
            v
            s.cluster
          ≡ true)
    → teardown_plan_run api now connects run p s ≡ torn_down run' p' s'
    → is_sent v s'.sent ≡ is_sent v s.sent
unfolding after_teardown
teardown_spares api now connects run run' p p' s s' v k spared e =
    let provenance = provenance_vmids p.redis run.job_ids_by_group in
    let targets = collect_plan_run_targets p.redis run in
    let done = torn_down_lem api now connects run run' p p' s s' e in
    let same : (teardown_all api provenance targets s).0 ≡ s' = cc in
    rw (← same) (teardown_all-Safe api provenance v k targets s spared).0
