-- ===== src/Enqueue/Call.antt =====
-- jobs.py: the whole call of `enqueue_restores`.
use restore_engine.Common.{
  ℕ, String, Bool, true, false, ◌&&◌, List, [], ◌∷◌, Option, none, some, length, if◌then◌else◌,
}
use restore_engine.Jobs.{Redis}
use restore_engine.Runs.{Order, Reply, enqueued, raised, Enqueued, EnqueueFn}
use restore_engine.Placement.{
  Assignment, assigned, no_node as no_candidate, assign_nodes_least_loaded,
}
use restore_engine.Guests.{Proxmox, qemu_vmids_in_use_cluster}
use restore_engine.Guests.Destroy.{Session}
use restore_engine.Enqueue.{
  EnqueueError, unreachable, no_node, Checked, good, bad, and_then, Mode, normal, dr, mode_of,
  candidates_of, clean_storages, resolve_all, target_vmids, active_counts,
}
use restore_engine.Enqueue.Reclaim.{reclaim}
use restore_engine.Enqueue.Write.{Choice, write_jobs}

-- What is settled before any guest is destroyed and any job is written.
pub record Choices : Type 0 where
  pub mode : Mode
  pub candidates : List String
  pub in_use : List ℕ
  pub vmids : List ℕ
  pub nodes : List String
  pub storages : List String

abbrev checked_nodes : Assignment → Checked (List String)
checked_nodes (assigned nodes) = good nodes
checked_nodes no_candidate = bad no_node

-- The rows of `zip(…, allocated_ids, node_for_row, storage_for_row, strict=True)`; a list that is too
-- short makes the whole too short, which `write_jobs` answers.
abbrev pub choices : List ℕ → List String → List String → List Choice
choices (v ∷ vmids) (n ∷ nodes) (s ∷ storages) =
    record { vmid = v; node = n; storage = s } ∷ choices vmids nodes storages
choices _ _ _ = []

-- The reply, with what became of the cluster.
pub data Call (C : Type 0) : Type 0 where
  queued : Session C → Redis → Enqueued → Call C
  stopped : Session C → Redis → EnqueueError → Call C

module _ {C : Type 0} (api : Proxmox C) (connects : Bool) where
  unfoldable pub settle_choices : Order → C → Redis → Checked Choices
  settle_choices o c r =
      let st = o.settings in
      let by_node = clean_storages [] st.storage_by_node in
      let in_use = qemu_vmids_in_use_cluster api c in
      and_then (mode_of st.restore_mode) λ mode. and_then (candidates_of st) λ candidates.
        and_then (resolve_all by_node st.storage candidates) λ _.
          and_then (if connects then good connects else bad unreachable) λ _.
            and_then (target_vmids mode st.overwrite in_use o.vmid_start o.rows) λ vmids.
              and_then
                (checked_nodes
                  (assign_nodes_least_loaded candidates (length o.rows) (active_counts r.jobs)))
                λ nodes. and_then (resolve_all by_node st.storage nodes) λ storages. good (record {
                  mode = mode;
                  candidates = candidates;
                  in_use = in_use;
                  vmids = vmids;
                  nodes = nodes;
                  storages = storages;
                })

  abbrev pub is_dr : Mode → Bool
  is_dr dr = true
  is_dr normal = false

  unfoldable pub reclaimed : Order → Choices → Session C → Session C × Option EnqueueError
  reclaimed o ch s =
      if is_dr ch.mode && o.settings.overwrite
      then reclaim api ch.candidates ch.in_use ch.vmids s
      else (s, none)

  abbrev pub finish : Session C → Choices → Redis × Checked (List String) → Call C
  finish s ch (r, bad e) = stopped s r e
  finish s ch (r, good ids) = queued s r (record {
    job_ids = ids;
    proxmox_vmids_assigned = ch.vmids;
    proxmox_nodes_assigned = ch.nodes;
  })

  unfoldable pub with_choices :
      String → (ℕ → String) → Order → Choices → Redis → Session C × Option EnqueueError → Call C
  with_choices now uuid o ch r (s, some e) = stopped s r e
  with_choices now uuid o ch r (s, none) =
      finish s ch (write_jobs now ch.mode o uuid 0 o.rows (choices ch.vmids ch.nodes ch.storages) r)

  unfoldable pub checked_call :
      String → (ℕ → String) → Order → Redis → Session C → Checked Choices → Call C
  checked_call now uuid o r s (bad e) = stopped s r e
  checked_call now uuid o r s (good ch) = with_choices now uuid o ch r (reclaimed o ch s)

  unfoldable pub enqueue_restores : String → (ℕ → String) → Order → Redis → Session C → Call C
  unfolding settle_choices
  enqueue_restores now uuid o r s = checked_call now uuid o r s (settle_choices o s.cluster r)

-- What the caller sees, as the callback of the plan runs. The ids that `uuid.uuid4()` returns are
-- taken to depend on the state in which the call begins.
abbrev pub seen : {C : Type 0} → Call C → Reply
seen (queued s r result) = enqueued r result
seen (stopped s r e) = raised r

unfoldable pub enqueue_callback :
    {C : Type 0} → Proxmox C → Bool → Session C → String → (Redis → ℕ → String) → EnqueueFn
unfolding enqueue_restores
enqueue_callback api connects s now uuid o r =
    seen (enqueue_restores api connects now (uuid r) o r s)
