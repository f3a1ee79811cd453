-- ===== src/Lib.antt =====
-- Verification of restore-engine: a service that restores backups of Proxmox Backup Server to a
-- Proxmox VE cluster, one guest at a time or as recovery plans with groups.
--
-- The parts and their interaction. The API (main.py) and the worker (worker.py) share a Redis server.
-- A job is a hash, with its id on a queue; the worker claims a concurrency slot (concurrency.py),
-- takes an id and restores the guest (pve_client.py). A plan run (plans.py) is a list of groups of
-- jobs: `start_plan_run` enqueues the first group, and the worker calls `advance_plan_runs` again and
-- again, which enqueues the next group when all jobs of one are finished. After the end of a drill the
-- assurance policy gives a verdict on the plan. Between its jobs the worker also checks whether plans
-- could be restored (`tick_plan_readiness`) and starts those that are due (`tick_scheduled_plan_runs`);
-- the API starts them by hand (`api_run_plan`). Placement on nodes and guest ids are chosen by
-- pve_client.py when jobs are enqueued.
--
-- Which file models which part:
--   Common            Python's `dict` as an association list in insertion order (lookup is `d.get`,
--                     put is `d[k] = v`), the methods of `str`, lists, and a signed counter.
--   States            states.py: the four enumerations.
--   Jobs              The job hashes, logs and the queue in Redis; append_log, set_state,
--                     cancel_requested and mark_cancelled of worker.py.
--   Queue             queue_control.py (is_queue_paused, set_queue_paused, drain_pending_jobs) and
--                     stop_job of main.py.
--   Slots             concurrency.py (max_concurrent, active_slots, try_acquire_slot, release_slot,
--                     count_restoring_jobs, reconcile_slots); Slots/System has the worker processes as a step relation, one
--                     Redis command for each step.
--   Vmids             allocate_sequential_free_vmids of pve_client.py.
--   Placement         assign_nodes_least_loaded and resolve_storage_for_node of pve_client.py.
--   Runs              save_plan_run and _record_assigned_targets of plans.py, and the records of a run.
--   Runs/Tick         advance_plan_runs: `advance_run` is the body of its loop for one run,
--                     `advance_group` what follows the first `while`, `enqueue_group` the branch with
--                     `enqueue_fn`, `close_group` the branch of a group with all jobs finished.
--   Runs/Start        start_plan_run: `plan_power` has its rules for power and live restore,
--                     `run_shell` the dict it saves first, `after_start` what follows the enqueue.
--   Runs/Teardown     collect_plan_run_targets and teardown_plan_run.
--   Runs/Cancel       cancel_plan_run; `cancel_running` is what it does before the report.
--   Guests            pve_client.py: the list of guests (`find_guest_resource`, `find_qemu_node`,
--                     `qemu_vmids_in_use_cluster`) and the ownership marker
--                     (`qemu_is_managed_by_tool`); Guests/Destroy has destroy_qemu_vm and
--                     destroy_owned_qemu_vm.
--   Enqueue           enqueue_restores of jobs.py: its checks here, `reclaim` (the overwrite of a DR
--                     restore) in Enqueue/Reclaim, the loop that writes the jobs in Enqueue/Write, and
--                     the whole in Enqueue/Call, where `enqueue_callback` is the `enqueue_fn` that the
--                     worker passes to the plan runs.
--   Groups            resolve_group_rows of plans.py with vmid_in_ranges and guest_name_matches.
--   Records           paginate of job_hygiene.py; append_audit and list_audit of audit.py.
--   Assurance         aggregate_plan_run, as far as the verdict reads it, and
--                     evaluate_assurance_policy; Assurance/Finalize has _finalize_plan_run_report with
--                     apply_assurance_from_run and _send_plan_run_notification, over the plans, the
--                     cluster and the list of runs that a notification was asked for.
--   Worker            The state of a worker process and the requests it sends: a monad in which each
--                     Redis or Proxmox call may raise. Worker/Task has submit_restore, fetch_task_log
--                     and wait_for_task of pve_client.py; Worker/Guest the ownership mark, the network
--                     isolation, the start, the guest agent and the host name (pve_client.py).
--   Worker/Job        worker.py: the first half of process_job, up to the provenance stamp.
--   Worker/Boot       The second half: isolation, start, checks of the guest, and the end of the job.
--   Worker/Loop       run_job with its `finally`, and one round of worker_loop; Worker/Restart has a
--                     process that starts beside it.
--   Api               api_run_plan of main.py with its guards.
--   Locations         normalize_location of plans.py.
--   PlanEdits         normalize_plan, create_plan and update_plan of plans.py.
--   Schedules         plans_due_for_check, plans_due_for_schedule and tick_scheduled_plan_runs of
--                     plans.py; Schedules/Start has `_start_scheduled` of worker.py.
--   Readiness         run_plan_readiness of plans.py: Readiness/Site has its stages about the plan, the
--                     connections and the nodes, Readiness/Members those about backups and guest ids,
--                     Readiness/Sizes summarize_member_sizes, Readiness/Run the whole with
--                     apply_check_result, and Readiness/Tick tick_plan_readiness.
--   Examples          The theorems at concrete inputs, and tests of the definitions.
-- The other children prove what their comments say.
--
-- Numbers. All numbers are naturals, but for the slot counter, which Redis lets go below 0: the
-- program clamps or rejects negative inputs before the code that is modelled here.
--
-- Bounds and fuel. The loop of `allocate_sequential_free_vmids` gets as fuel the number of ids in its
-- window, which it cannot exceed since each round goes to the next id. Both loops that pass over empty
-- groups get the number of groups, after which the index is out of range. The other loops are
-- structural recursions; the attempts of a DELETE are counted down from 3. The polls of a task and of
-- a guest agent get the milliseconds of their longest limit as rounds, and each round that goes on takes
-- one at least, so that they are enough.
--
-- The cluster. Proxmox is a type of states with the requests of the record `Proxmox`: reads that
-- depend on the state, and writes that change it in any way and may fail with any message. What was
-- sent is kept as a list of DELETE requests, so that a theorem can say that a guest was left alone.
-- The new ids of `uuid.uuid4` are a function, and that they are fresh is a hypothesis.
--
-- Time and interleaving. `now` is the clock's text, one for each call. A call runs over one Redis
-- state; only the slot operations are interleaved command by command. The set of active runs is walked
-- in the order of a list. `enqueue_fn` and the end of a run (`finalize`) are parameters of the tick,
-- and `enqueue_fn` may raise, with what it wrote to Redis kept.
--
-- The host of a worker. What process_job reads from outside is the record `Host`: the replies of
-- Proxmox and of the guest, the configuration, and two functions that stand for other files, the
-- metrics of a poll (progress_parse.py) and the estimate of the bytes on the wire (pbs_wire.py). The
-- messages of exceptions are kept where a job stores them.
--
-- The checks of a plan. The `*_fn` arguments of run_plan_readiness are the record `Probes`, in which an
-- exception is none. The items of a check keep their level and code.
--
-- What is not modelled: the HTTP clients of PBS and Proxmox (`stop_qemu_vm` is one request), the
-- web pages, reports, notifications and metrics, which are input and output (that a report can be
-- saved, with which id and recovery time, is a function of the record `Reporting`); the fields of a run
-- that only those read; the times to live of keys; the text of log lines and messages, where they
-- are constants of a data type instead; normalize_group and the deletes of groups, locations and
-- plans; and the other handlers of the API in main.py.
pub mod Common
pub mod Vmids
pub mod Placement
pub mod Slots
pub mod States
pub mod Jobs
pub mod Queue
pub mod Groups
pub mod Records
pub mod Guests
pub mod Runs
pub mod Enqueue
pub mod Assurance
pub mod Api
pub mod Locations
pub mod PlanEdits
pub mod Readiness
pub mod Schedules
pub mod Worker
mod Examples
