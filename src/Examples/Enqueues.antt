-- ===== src/Examples/Enqueues.antt =====
-- Calls of `enqueue_restores`, with ids that are longer than all job keys.
use Prim.Native.String as Str
use restore_engine.Common.{
  ℕ, zero, suc, ◌+◌, ◌<◌, ◌≡◌, refl, ap, ◌∙◌, String, true, false, ◌++◌, List, [], ◌∷◌, none, some,
  lookup, contains, ◌==◌, nat_key, string_key, eq_iff, arith, inl, inr, Bool-cases, if◌then◌else◌,
}
use restore_engine.Common.Text.{strip, lstrip, rstrip}
use restore_engine.Common.Parse.{lower}
use restore_engine.Jobs.{Hash, Redis, hget, hgetall}
use restore_engine.Runs.{Row, Order, Reply, enqueued, raised, Enqueued}
use restore_engine.Runs.Tick.{job_state}
use restore_engine.States.{is_terminal}
use restore_engine.Placement.{min_by_key, assign_nodes_least_loaded}
use restore_engine.Placement.Storage.{resolve_storage_for_node}
use restore_engine.Guests.{
  Resource, Proxmox, deleted, cluster_vm_resources, find_row, find_guest_resource, vmids_of,
  qemu_vmids_in_use_cluster,
}
use restore_engine.Guests.Destroy.{Session}
use restore_engine.Guests.Owned.{is_sent, is_spared, Steady}
use restore_engine.Enqueue.Spares.{session_of, enqueue_restores_spares}
use restore_engine.Enqueue.{
  normal, mode_of, candidates_of, clean_storages, resolve_all, source_vmids, target_vmids,
  archive_path,
}
use restore_engine.Enqueue.Write.{Choice, write_jobs}
use restore_engine.Enqueue.Call.{
  settle_choices, reclaimed, with_choices, checked_call, enqueue_restores, enqueue_callback,
}
use restore_engine.Enqueue.Finished.{IsFresh, redis_of, enqueue_callback-keeps}
use restore_engine.Enqueue.Queued.{written, ids_from, returned, write_jobs_exact}
use restore_engine.Examples.{row, settings, a_completed}

size : String → ℕ
size Str.[] = 0
size (Str.◌∷◌ c s) = suc (size s)

repeated : ℕ → String
repeated zero = Str.[]
repeated (suc n) = Str.◌∷◌ "x" (repeated n)

size-repeated : (n : ℕ) → size (repeated n) ≡ n
unfolding size repeated
size-repeated zero = refl
size-repeated (suc n) = ap suc (size-repeated n)

total : List (String × Hash) → ℕ
unfolding size
total [] = 0
total ((key, h) ∷ jobs) = size key + total jobs

long_id : Redis → ℕ → String
unfolding repeated total
long_id r i = repeated (suc (total r.jobs + i))

lookup_longer :
    (n : ℕ) (jobs : List (String × Hash)) → total jobs < n → lookup (repeated n) jobs ≡ none
unfolding lookup total
lookup_longer n [] h = refl
lookup_longer n ((key, fields) ∷ jobs) h = elim (Bool-cases (key == repeated n)) [
  | inl same ↦
      let e : size key ≡ n = ap size ((eq_iff key (repeated n)).0 same) ∙ size-repeated n in
      absurd (omega (arith, e, h))
  | inr other ↦ rw other (lookup_longer n jobs (omega (arith, h)))
]

long_id-IsFresh : IsFresh long_id
unfolding long_id
long_id-IsFresh r i = lookup_longer (suc (total r.jobs + i)) r.jobs (omega arith)

abbrev empty_cluster : Proxmox (List Resource)
empty_cluster = record {
  vm_resources = λ c. some c;
  qemu_config = λ c node vmid. none;
  stop = λ node vmid c. c;
  delete = λ purge disks node vmid c. (c, deleted);
}

abbrev session : Session (List Resource)
session = record { cluster = []; sent = [] }

abbrev dr_order : Order
dr_order = record {
  rows = row ∷ [];
  settings = record settings { restore_mode = "dr" };
  vmid_start = 100;
  plan_run_id = "run";
  plan_group_index = 0;
}

abbrev call : Reply
call = enqueue_callback empty_cluster true session "t1" long_id dr_order a_completed

abbrev redis_after : Reply → Redis
redis_after (enqueued r result) = r
redis_after (raised r) = r

abbrev result_of : Reply → Enqueued
result_of (enqueued r result) = result
result_of (raised r) = record {
  job_ids = [];
  proxmox_vmids_assigned = [];
  proxmox_nodes_assigned = [];
}

makes_one :
    enqueue_callback empty_cluster true session "t1" long_id dr_order a_completed
    ≡ enqueued (redis_after call) (result_of call)
unfolding enqueue_callback enqueue_restores settle_choices checked_call with_choices reclaimed
    write_jobs mode_of candidates_of clean_storages resolve_all resolve_storage_for_node
    target_vmids source_vmids archive_path assign_nodes_least_loaded min_by_key strip lstrip rstrip
    lower contains qemu_vmids_in_use_cluster cluster_vm_resources vmids_of lookup
makes_one = refl

one_job_on_its_guest :
    ((result_of call).proxmox_vmids_assigned ≡ 200 ∷ [])
    × ((result_of call).job_ids ≡ long_id a_completed 0 ∷ [])
unfolding enqueue_callback enqueue_restores settle_choices checked_call with_choices reclaimed
    write_jobs mode_of candidates_of clean_storages resolve_all resolve_storage_for_node
    target_vmids source_vmids archive_path assign_nodes_least_loaded min_by_key strip lstrip rstrip
    lower contains qemu_vmids_in_use_cluster cluster_vm_resources vmids_of lookup long_id
one_job_on_its_guest = (refl, refl)

a_is_finished : is_terminal (job_state a_completed "a") ≡ true
unfolding hget hgetall lookup
a_is_finished = refl

-- The second row has no storage of its backup.
abbrev two_rows : List Row
two_rows = row ∷ record row { pve_storage = " " } ∷ []

-- The call raises behind its first job.
enqueue_callback-keeps_example :
    job_state
      (redis_of (
        enqueue_callback empty_cluster true session "t1" long_id
          (record dr_order { rows = two_rows })
          a_completed))
      "a"
    ≡ job_state a_completed "a"
enqueue_callback-keeps_example =
    enqueue_callback-keeps empty_cluster true session "t1" long_id long_id-IsFresh
      (record dr_order { rows = two_rows }) a_completed "a" a_is_finished

abbrev two_choices : List Choice
two_choices =
    record { vmid = 200; node = "pve1"; storage = "local" }
    ∷ record { vmid = 201; node = "pve1"; storage = "local" }
    ∷ []

write_jobs_exact_example :
    let (r', result) =
      write_jobs "t1" normal dr_order (long_id a_completed) 0 two_rows two_choices a_completed in
    (r'.queue ≡ [] ++ ids_from (long_id a_completed) 0 (written two_rows))
    × (returned result
        ≡ (if written two_rows == 2 then some (ids_from (long_id a_completed) 0 2) else none))
write_jobs_exact_example =
    write_jobs_exact "t1" normal dr_order (long_id a_completed) 0 two_rows two_choices a_completed
      refl

second_row_fails : written two_rows ≡ 1
unfolding archive_path strip lstrip rstrip
second_row_fails = refl

-- A container holds the VMID that a DR restore with overwrite would take.
abbrev container_session : Session (List Resource)
container_session = record {
  cluster = record { kind = "lxc"; node = "pve1"; vmid = some 200 } ∷ [];
  sent = [];
}

abbrev overwrite_order : Order
overwrite_order = record dr_order {
  settings = record settings { restore_mode = "dr"; overwrite = true };
}

steady : Steady empty_cluster false 200
steady = record {
  stop_keeps = λ c n node vmid ne. refl;
  delete_keeps = λ c n node vmid purge disks ne. refl;
}

container_is_spared :
    (node : String) → is_spared empty_cluster false node 200 container_session.cluster ≡ true
unfolding find_guest_resource cluster_vm_resources find_row lower strip lstrip rstrip
container_is_spared node = refl

enqueue_restores_spares_example :
    is_sent 200
      (session_of (
        enqueue_restores empty_cluster true "t1"
          (long_id a_completed)
          overwrite_order
          a_completed
          container_session)).sent
    ≡ is_sent 200 container_session.sent
enqueue_restores_spares_example =
    enqueue_restores_spares empty_cluster true "t1" (long_id a_completed) overwrite_order
      a_completed container_session 200 steady container_is_spared
