-- ===== src/Examples/Teardowns.antt =====
-- The teardown of a finished run with two guests, one of which is an LXC container by now.
use restore_engine.Common.{
  ◌≡◌, ◌≢◌, refl, All, String, Bool, true, false, List, [], ◌∷◌, Option, none, some, map, all,
  lookup, put, contains, ◌==◌, nat_key, string_key, ne_of_same,
}
use restore_engine.Common.Text.{strip, lstrip, rstrip}
use restore_engine.Common.Parse.{lower, parse_int, split_tags}
use restore_engine.States.{run_completed}
use restore_engine.Jobs.{Redis, hgetall}
use restore_engine.Runs.{Run, Plans}
use restore_engine.Guests.{
  Resource, Proxmox, deleted, tag_text, GuestConfig, is_marked, qemu_tags_from_config,
  sanitize_tag_token, find_row, cluster_vm_resources, find_guest_resource, qemu_is_managed_by_tool,
}
use restore_engine.Guests.Destroy.{
  Session, attempt, destroy_qemu_vm, destroy_guest, destroy_found, destroy_owned_qemu_vm,
}
use restore_engine.Guests.Owned.{is_sent, is_spared, Steady}
use restore_engine.Runs.Teardown.{
  TeardownReply, torn_down, already_completed, add_target, add_assigned, add_jobs, add_groups,
  sorted_targets, collect_plan_run_targets, job_provenance, provenance_vmids, teardown_status,
  destroy_on, teardown_one, teardown_all, after_teardown, teardown_plan_run,
}
use restore_engine.Runs.Teardown.Results.{teardown_results_exact, teardown_unlisted}
use restore_engine.Runs.Teardown.Spares.{teardown_spares}
use restore_engine.Examples.{run_one, no_plans, redis_with}

abbrev a_tagged_guest : GuestConfig
a_tagged_guest = record { tags = tag_text "prod;Restore-Engine"; description = "" }

tag_is_found : is_marked a_tagged_guest ≡ true
unfolding is_marked qemu_tags_from_config sanitize_tag_token strip lstrip rstrip lower contains
    split_tags
tag_is_found = refl

abbrev if_listed : Bool → List Resource → Option (List Resource)
if_listed true c = some c
if_listed false c = none

-- A cluster that keeps its list, which `listed` says is answered.
abbrev pub api_with : Bool → Proxmox (List Resource)
api_with listed = record {
  vm_resources = λ c. if_listed listed c;
  qemu_config = λ c node vmid. none;
  stop = λ node vmid c. c;
  delete = λ purge disks node vmid c. (c, deleted);
}

abbrev guests : List Resource
guests =
    record { kind = "qemu"; node = "pve1"; vmid = some 101 }
    ∷ record { kind = "LXC"; node = "pve2"; vmid = some 102 }
    ∷ []

abbrev pub ended_run : Run
ended_run = record run_one {
  status = run_completed;
  assigned_targets =
      record { vmid = 101; node = "pve1" } ∷ record { vmid = 102; node = "pve2" } ∷ [];
}

abbrev restored : Redis
restored = redis_with (
    ("a", ("state", "COMPLETED") ∷ ("proxmox_vmid", "101") ∷ ("restore_started_at", "t0") ∷ [])
    ∷ [])

abbrev pub plans : Plans
plans = record no_plans { redis = restored }

abbrev pub session : Session (List Resource)
session = record { cluster = guests; sent = [] }

abbrev outcome : Bool → TeardownReply (List Resource)
outcome listed = teardown_plan_run (api_with listed) "t9" true ended_run plans session

abbrev run_of : TeardownReply (List Resource) → Run
run_of (torn_down run p s) = run
run_of _ = ended_run

abbrev plans_of : TeardownReply (List Resource) → Plans
plans_of (torn_down run p s) = p
plans_of _ = plans

abbrev session_of : TeardownReply (List Resource) → Session (List Resource)
session_of (torn_down run p s) = s
session_of _ = session

tears_down :
    teardown_plan_run (api_with true) "t9" true ended_run plans session
    ≡ torn_down (run_of (outcome true)) (plans_of (outcome true)) (session_of (outcome true))
unfolding teardown_plan_run after_teardown parse_int strip lookup hgetall put
tears_down = refl

only_the_qemu_guest :
    ((session_of (outcome true)).sent ≡ record { vmid = 101; node = "pve1" } ∷ [])
    × ((run_of (outcome true)).teardown_status ≡ "partial")
unfolding teardown_plan_run after_teardown teardown_all teardown_one teardown_status destroy_on
    destroy_owned_qemu_vm destroy_found destroy_guest destroy_qemu_vm attempt find_guest_resource
    cluster_vm_resources find_row qemu_is_managed_by_tool collect_plan_run_targets add_assigned
    add_groups add_jobs add_target sorted_targets provenance_vmids job_provenance hgetall lookup put
    contains parse_int strip lstrip rstrip lower
only_the_qemu_guest = (refl, refl)

steady :
    Steady (api_with true) (contains 102 (provenance_vmids restored (("a" ∷ []) ∷ [] ∷ []))) 102
steady = record {
  stop_keeps = λ c n node vmid ne. refl;
  delete_keeps = λ c n node vmid purge disks ne. refl;
}

container_is_spared :
    (node : String)
    → is_spared
        (api_with true)
        (contains 102 (provenance_vmids restored (("a" ∷ []) ∷ [] ∷ [])))
        node
        102
        guests
      ≡ true
unfolding find_guest_resource cluster_vm_resources find_row lower strip lstrip rstrip
container_is_spared node = refl

teardown_spares_example : is_sent 102 (session_of (outcome true)).sent ≡ is_sent 102 session.sent
teardown_spares_example =
    teardown_spares (api_with true) "t9" true ended_run (run_of (outcome true)) plans
      (plans_of (outcome true)) session (session_of (outcome true)) 102 steady container_is_spared
      tears_down

teardown_results_exact_example :
    (map (λ e. e.vmid) (run_of (outcome true)).teardown_results
      ≡ map (λ t. t.vmid) (collect_plan_run_targets restored ended_run))
    × (((run_of (outcome true)).teardown_status == "completed")
        ≡ all (λ e. e.ok) (run_of (outcome true)).teardown_results)
    × (lookup "run" (plans_of (outcome true)).runs
        ≡ some (record (run_of (outcome true)) { updated_at = "t9" }))
teardown_results_exact_example =
    teardown_results_exact (api_with true) "t9" true ended_run (run_of (outcome true)) plans
      (plans_of (outcome true)) session (session_of (outcome true)) tears_down

tears_down_unlisted :
    teardown_plan_run (api_with false) "t9" true ended_run plans session
    ≡ torn_down (run_of (outcome false)) (plans_of (outcome false)) (session_of (outcome false))
unfolding teardown_plan_run after_teardown parse_int strip lookup hgetall put
tears_down_unlisted = refl

nodes_are_known : All (λ t. strip t.node ≢ "") (collect_plan_run_targets restored ended_run)
unfolding collect_plan_run_targets add_assigned add_groups add_jobs add_target sorted_targets
    hgetall lookup put parse_int strip lstrip rstrip
nodes_are_known = (ne_of_same "pve1" "" refl, (ne_of_same "pve2" "" refl, tt))

abbrev skipped : Run
skipped = record (run_of (outcome false)) { updated_at = "t9" }

teardown_unlisted_example :
    (session_of (outcome false) ≡ session)
    × (lookup "run" (plans_of (outcome false)).runs ≡ some skipped)
    × (skipped.teardown_status ≡ "completed")
    × (teardown_plan_run (api_with false) "t10" true skipped plans session
        ≡ already_completed skipped)
teardown_unlisted_example =
    teardown_unlisted (api_with false) "t9" ended_run (run_of (outcome false)) plans
      (plans_of (outcome false)) session (session_of (outcome false)) refl nodes_are_known
      tears_down_unlisted "t10" true plans session
