-- ===== src/Runs/Teardown.antt =====
-- plans.py: `collect_plan_run_targets` and `teardown_plan_run`, the removal of what a run restored.
-- The run is given as a dict, and the injected functions of the tests are left at their defaults.
pub mod Spares
pub mod Results
use restore_engine.Common.{
  ℕ, zero, suc, ◌+◌, String, Bool, true, false, not, ◌&&◌, ◌||◌, List, [], ◌∷◌, ◌++◌, Option, none,
  some, map, all, filter, put, lookup, contains, length, leb, ◌==◌, nat_key, string_key,
  if◌then◌else◌,
}
use restore_engine.Common.Text.{strip}
use restore_engine.Common.Parse.{lower, has_text, parse_int}
use restore_engine.States.{PlanRunStatus, running}
use restore_engine.Jobs.{Hash, Redis, text_or, is_text, hgetall}
use restore_engine.Runs.{
  Target, Entry, EntryError, no_entry_error, node_unknown, already_gone, refusal, message, Run,
  Plans, is_running, save_plan_run,
}
use restore_engine.Runs.Tick.{is_nil}
use restore_engine.Guests.{Proxmox, find_qemu_node}
use restore_engine.Guests.Destroy.{
  Session, Outcome, absent, managed, run_provenance, not_owned, failed, destroy_owned_qemu_vm,
}

-- `by_vmid`: the first node that is not blank wins.
unfoldable pub add_target : ℕ → String → List (ℕ × String) → List (ℕ × String)
add_target vid node by_vmid = if vid == 0 then by_vmid else elim (lookup vid by_vmid) [
  | none ↦ put vid node by_vmid
  | some old ↦ if not (node == "") && (old == "") then put vid node by_vmid else by_vmid
]

unfoldable pub add_assigned : List Target → List (ℕ × String) → List (ℕ × String)
unfolding add_target
add_assigned [] by_vmid = by_vmid
add_assigned (t ∷ ts) by_vmid = add_assigned ts (add_target t.vmid (strip t.node) by_vmid)

abbrev pub or_zero : Option ℕ → ℕ
or_zero none = 0
or_zero (some n) = n

-- The guest of a job; 0, which is passed over, where the number cannot be read.
abbrev pub vmid_of : Hash → ℕ
vmid_of h = or_zero (parse_int (text_or (lookup "proxmox_vmid" h) "0"))

abbrev pub node_of_job : Hash → String
node_of_job h = strip (text_or (lookup "proxmox_node" h) "")

unfoldable pub add_jobs : Redis → List String → List (ℕ × String) → List (ℕ × String)
unfolding add_target
add_jobs r [] by_vmid = by_vmid
add_jobs r (id ∷ ids) by_vmid =
    let h = hgetall r id in add_jobs r ids (add_target (vmid_of h) (node_of_job h) by_vmid)

unfoldable pub add_groups : Redis → List (List String) → List (ℕ × String) → List (ℕ × String)
unfolding add_jobs
add_groups r [] by_vmid = by_vmid
add_groups r (ids ∷ groups) by_vmid = add_groups r groups (add_jobs r ids by_vmid)

insert_target : ℕ → String → List Target → List Target
insert_target vid node [] = record { vmid = vid; node = node } ∷ []
insert_target vid node (t ∷ ts) =
    let rest = insert_target vid node ts in
    if leb vid t.vmid then record { vmid = vid; node = node } ∷ t ∷ ts else t ∷ rest

-- `sorted(by_vmid.items())`
unfoldable pub sorted_targets : List (ℕ × String) → List Target
unfolding insert_target
sorted_targets [] = []
sorted_targets ((vid, node) ∷ by_vmid) = insert_target vid node (sorted_targets by_vmid)

unfoldable pub collect_plan_run_targets : Redis → Run → List Target
unfolding add_assigned add_groups sorted_targets
collect_plan_run_targets r run =
    sorted_targets (add_groups r run.job_ids_by_group (add_assigned run.assigned_targets []))

-- `data.get(field)` is a text that is not empty.
abbrev pub is_set : Option String → Bool
is_set none = false
is_set (some s) = not (s == "")

-- The job has started a restore on Proxmox.
abbrev pub has_provenance : Hash → Bool
has_provenance h =
    is_set (lookup "pve_upid" h)
    || is_set (lookup "restore_started_at" h)
    || is_text (lookup "managed_marked" h) "1"

unfoldable pub job_provenance : Redis → List String → List ℕ
job_provenance r [] = []
job_provenance r (id ∷ ids) =
    let h = hgetall r id in
    let rest = job_provenance r ids in
    if has_provenance h
    then elim (parse_int (text_or (lookup "proxmox_vmid" h) "")) [ none ↦ rest | some v ↦ v ∷ rest ]
    else rest

unfoldable pub provenance_vmids : Redis → List (List String) → List ℕ
unfolding job_provenance
provenance_vmids r [] = []
provenance_vmids r (ids ∷ groups) = job_provenance r ids ++ provenance_vmids r groups

abbrev pub is_gone : String → Bool
is_gone msg =
    has_text "does not exist" (lower msg)
    || has_text "no such" (lower msg)
    || has_text "not found" (lower msg)
    || has_text "absent" (lower msg)

abbrev pub entry_of : ℕ → String → Outcome → Entry
entry_of vmid node absent = record { vmid = vmid; node = node; ok = true; error = no_entry_error }
entry_of vmid node managed = record { vmid = vmid; node = node; ok = true; error = no_entry_error }
entry_of vmid node run_provenance = record {
  vmid = vmid;
  node = node;
  ok = true;
  error = no_entry_error;
}
entry_of vmid node (not_owned r) = record {
  vmid = vmid;
  node = node;
  ok = false;
  error = refusal r;
}
entry_of vmid node (failed msg) = record {
  vmid = vmid;
  node = node;
  ok = is_gone msg;
  error = if is_gone msg then already_gone else message msg;
}

unfoldable pub teardown_status : List Entry → String
teardown_status results =
    if all (λ e. e.ok) results
    then "completed"
    else if is_nil (filter (λ e. e.ok) results)
    then "failed"
    else "partial"

abbrev pub or_blank : Option String → String
or_blank none = ""
or_blank (some node) = node

pub data TeardownReply (C : Type 0) : Type 0 where
  torn_down : Run → Plans → Session C → TeardownReply C
  already_completed : Run → TeardownReply C
  still_running : TeardownReply C  -- ValueError
  unreachable : TeardownReply C  -- the exception of `connect_proxmox`

module _ {C : Type 0} (api : Proxmox C) where
  -- A target on its node, which may still be unknown.
  unfoldable pub destroy_on : List ℕ → ℕ → String → Session C → Session C × Entry
  destroy_on provenance vmid node s =
      if node == ""
      then (s, record { vmid = vmid; node = node; ok = false; error = node_unknown })
      else (let (s', outcome) =
            destroy_owned_qemu_vm api (contains vmid provenance) true true node vmid s in
          (s', entry_of vmid node outcome))

  unfoldable pub teardown_one : List ℕ → Target → Session C → Session C × Entry
  unfolding destroy_on
  teardown_one provenance t s =
      let node = strip t.node in
      destroy_on provenance t.vmid
        (if node == "" then or_blank (find_qemu_node api t.vmid s.cluster) else node) s

  unfoldable pub teardown_all : List ℕ → List Target → Session C → Session C × List Entry
  unfolding teardown_one
  teardown_all provenance [] s = (s, [])
  teardown_all provenance (t ∷ ts) s =
      let (s', entry) = teardown_one provenance t s in
      let (s'', entries) = teardown_all provenance ts s' in (s'', entry ∷ entries)

  unfoldable pub after_teardown : String → Run → Plans → Session C × List Entry → TeardownReply C
  unfolding teardown_status
  after_teardown now run p (s, results) =
      let run' = record run {
        teardown_status = teardown_status results;
        teardown_results = results;
      } in
      torn_down run' (save_plan_run now run' p) s

  -- `connects` is false where `connect_proxmox` raises; it is called only if there are targets.
  unfoldable pub teardown_plan_run : String → Bool → Run → Plans → Session C → TeardownReply C
  unfolding collect_plan_run_targets provenance_vmids teardown_all after_teardown
  teardown_plan_run now connects run p s =
      let targets = collect_plan_run_targets p.redis run in
      if run.teardown_status == "completed"
      then already_completed run
      else if is_running run.status
      then still_running
      else if not (is_nil targets) && not connects
      then unreachable
      else after_teardown now run p
          (teardown_all (provenance_vmids p.redis run.job_ids_by_group) targets s)
