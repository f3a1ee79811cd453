-- ===== src/Examples/Workers.antt =====
-- A worker over a hypervisor on which every request is answered, and its job.
use restore_engine.Common.{
  ℕ, ◌+◌, ◌<◌, String, ◌≡◌, refl, sym, ap, true, false, [], ◌∷◌, none, some, ◌⊎◌, lookup, put,
  put_all, contains, map, string_key, arith, All,
}
use restore_engine.Common.Int.{pos}
use restore_engine.Common.Text.{strip, lstrip, rstrip}
use restore_engine.Common.Parse.{lower, parse_int, split_on, join, concat, rstrip_dots}
use restore_engine.States.{is_terminal}
use restore_engine.Jobs.{Hash, hgetall, hset, cancel_requested, append_log, set_state, state_of}
use restore_engine.Slots.{
  Answers, try_acquire_slot, count_restoring_jobs, reconcile_slots, release_slot,
}
use restore_engine.Guests.{Proxmox, qemu_tags_from_config, no_tags, deleted}
use restore_engine.Worker.{
  ◌>>=◌, continue, pure, or_raise, asks, when_so, send_request, write, write_with, say, move_to,
  answered, task_text, task_status, plain, ApiRequest, restore_vm, stop_task_of, put_config_of,
  start_vm, stop_vm, Host, World,
}
use restore_engine.Worker.Task.{
  submit_restore, wait_for_task, see_status, stop_task, on_tick, exit_with,
}
use restore_engine.Worker.Guest.{
  Items, mark_qemu_managed_by_tool, put_items, put_changes, marked_tags, marked_description,
  apply_network_isolation, start_qemu_vm, get_qemu_guest_hostname, hostname_matches_pve_name,
}
use restore_engine.Worker.Job.{
  Config, read_order, begin_restore, sampled, fresh_ticks, after_wait, stamp, marked, info, polling,
}
use restore_engine.Worker.Boot.{
  process_job, boot_power, isolate_network, check_guest_hostname, http_check, complete_job, checks,
  isolates, net_mode_of, lab_bridge_of,
}
use restore_engine.Worker.Loop.{Worker, run_job, loop_round, waited, started_job}
use restore_engine.Worker.Waits.{TimePasses}
use restore_engine.Worker.Final.{agent_limit, run_job-finishes}
use restore_engine.Worker.Isolated.{Applies, StartsReady, WantedOf, process_job-isolates}
use restore_engine.Worker.Restart.{reconcile_overbooks}
use restore_engine.Worker.Claims.{Claimed, loop_round_exact}
use restore_engine.Queue.{is_queue_paused}
use restore_engine.Examples.{redis_with}

-- The clock, and the config of the one guest.
record Lab : Type 0 where
  time : ℕ
  items : Items

abbrev lab_guests : Proxmox Lab
lab_guests = record {
  vm_resources = λ c. none;
  qemu_config = λ c node vmid. some (record { tags = no_tags; description = "" });
  stop = λ node vmid c. c;
  delete = λ purge disks node vmid c. (c, deleted);
}

abbrev lab_host : Host Lab
lab_host = record {
  guests = lab_guests;
  connect = λ c. answered tt;
  post_restore = λ p c. (c, answered (task_text "UPID:1"));
  get_status = λ c node upid. answered (task_status "stopped" "OK");
  get_log = λ c node upid start. none;
  delete_task = λ node upid c. c;
  config_items = λ c node vmid. answered c.items;
  put_config = λ node vmid changes c. (record c { items = put_all c.items changes }, answered tt);
  post_start = λ node vmid c. (c, answered (task_text "UPID:2"));
  ping_get = λ c node vmid. true;
  ping_post = λ c node vmid. true;
  host_name = λ c node vmid. some (plain "db");
  http_get = λ url c. answered 200;
  sleep = λ ms (c, r). (record c { time = c.time + ms + 1 }, r);
  clock = λ c. c.time;
  utc_now = λ c. "t1";
  wire_estimate = λ c backup. none;
  tick_metrics = λ c samples lines. none;
}

-- A job that starts its guest on an unlinked network.
abbrev lab_job : Hash
lab_job =
    ("job_id", "a")
    ∷ ("state", "PENDING")
    ∷ ("proxmox_node", "pve1")
    ∷ ("proxmox_vmid", "101")
    ∷ ("backup_id", "vm/200/2026-01-01T00:00:00Z")
    ∷ ("proxmox_storage", "local")
    ∷ ("archive", "pbs:backup/vm/200/2026-01-01T00:00:00Z")
    ∷ ("power_on", "1")
    ∷ ("network_mode", "unlink")
    ∷ []

abbrev lab_world : World Lab
lab_world = record {
  redis = record (redis_with (("a", lab_job) ∷ [])) { queue = "a" ∷ [] };
  cluster = record { time = 0; items = ("name", "db") ∷ ("net0", "virtio,bridge=vmbr0") ∷ [] };
  sent = [];
  samples = 0;
}

abbrev lab_worker : Worker Lab
lab_worker = record { world = lab_world; slots = pos 1 }

abbrev lab_config : Config
lab_config = record { task_poll_ms = 3000; task_timeout_ms = 60000 }

abbrev ok : Answers
ok = record { first_ok = true; second_ok = true }

time_passes : TimePasses lab_host
time_passes ms c r = omega arith

lab_limit : agent_limit (hgetall lab_world.redis "a") < 70000
unfolding hgetall lookup parse_int strip lstrip rstrip
lab_limit = omega arith

run_job-finishes_example :
    let (k, ended) = run_job lab_host "a" lab_config 70000 ok lab_worker in
    (ended ≡ true)
    × ((is_terminal (state_of k.world.redis "a") ≡ true) ⊎ (hgetall k.world.redis "a" ≡ []))
    × (k.slots ≡ release_slot ok (pos 1))
run_job-finishes_example =
    run_job-finishes lab_host lab_config 70000 "a" time_passes (omega arith) (omega arith) ok
      lab_worker lab_limit

applies : Applies lab_host
applies node vmid changes items c e ok = cc

abbrev request_kind : ApiRequest → String
request_kind (restore_vm p) = "restore"
request_kind (stop_task_of upid) = "cancel"
request_kind (put_config_of node vmid items) = "put"
request_kind (start_vm node vmid) = "start"
request_kind (stop_vm node vmid) = "stop"

asks_isolation : isolates (net_mode_of (hgetall lab_world.redis "a")) ≡ true
unfolding hgetall lookup lower strip lstrip rstrip
asks_isolation = refl

process_job-isolates_example :
    All
      (StartsReady lab_host (
        WantedOf
          (net_mode_of (hgetall lab_world.redis "a"))
          (strip (lab_bridge_of (hgetall lab_world.redis "a")))))
      (process_job lab_host "a" lab_config 5 lab_world).0.sent
process_job-isolates_example =
    process_job-isolates lab_host applies lab_config 5 "a" lab_world asks_isolation refl

loop_round_exact_example :
    Claimed lab_host 2 1 lab_world (loop_round lab_host (λ w. w) 2 ok ok lab_worker)
    × (is_queue_paused lab_world.redis ≡ true
        → (loop_round lab_host (λ w. w) 2 ok ok lab_worker).1 ≡ waited)
loop_round_exact_example = loop_round_exact lab_host (λ w. w) 2 1 lab_worker refl

-- No job is RESTORING, and the counter is right.
abbrev free_worker : Worker Lab
free_worker = record { world = lab_world; slots = pos 0 }

not_paused : is_queue_paused lab_world.redis ≡ false
unfolding is_queue_paused
not_paused = refl

none_restoring : count_restoring_jobs lab_world.redis.jobs ≡ 0
unfolding count_restoring_jobs lookup
none_restoring = refl

reconcile_overbooks_example :
    let limit = count_restoring_jobs lab_world.redis.jobs + 1 in
    let (k', round) = loop_round lab_host (λ w. w) limit ok ok free_worker in
    let reconciled = reconcile_slots true (count_restoring_jobs k'.world.redis.jobs) k'.slots in
    (round ≡ started_job "a")
    × (k'.slots ≡ pos limit)
    × (count_restoring_jobs k'.world.redis.jobs ≡ count_restoring_jobs lab_world.redis.jobs)
    × ((try_acquire_slot ok limit k'.slots).1 ≡ false)
    × ((try_acquire_slot ok limit reconciled).1 ≡ true)
reconcile_overbooks_example =
    reconcile_overbooks lab_host (λ w. w) free_worker "a" [] not_paused refl
      (ap pos (sym none_restoring))

-- The job of the lab: restored, marked, cut off its network and started, in this order.
lab_run :
    let (w, r) = process_job lab_host "a" lab_config 5 lab_world in
    (state_of w.redis "a" ≡ "COMPLETED")
    × (map (λ qc. request_kind qc.0) w.sent ≡ "start" ∷ "put" ∷ "put" ∷ "restore" ∷ [])
    × (lookup "net0" w.cluster.items ≡ some "virtio,bridge=vmbr0,link_down=1")
unfolding process_job state_of hgetall lookup put put_all contains cancel_requested hset append_log
    set_state ◌>>=◌ continue pure or_raise asks when_so send_request write write_with say move_to
    read_order parse_int strip lstrip rstrip lower begin_restore sampled submit_restore fresh_ticks
    after_wait wait_for_task see_status stop_task on_tick exit_with stamp marked
    mark_qemu_managed_by_tool put_items put_changes qemu_tags_from_config split_on join concat
    boot_power isolate_network apply_network_isolation start_qemu_vm check_guest_hostname
    get_qemu_guest_hostname hostname_matches_pve_name rstrip_dots http_check complete_job info
    marked_tags marked_description polling checks
lab_run = (refl, refl, refl)
