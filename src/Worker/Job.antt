-- ===== src/Worker/Job.antt =====
-- worker.py: `process_job`, in the order of its stages.
use restore_engine.Common.{
  ℕ, zero, suc, ◌+◌, ◌*◌, ◌/◌, ◌%◌, min, String, Bool, true, false, not, [], ◌∷◌, Option, none,
  some, lookup, ltb, ◌==◌, string_key, if◌then◌else◌,
}
use restore_engine.Common.Text.{strip}
use restore_engine.Common.Parse.{lower, parse_int, concat, show}
use restore_engine.States.{restoring}
use restore_engine.Jobs.{Hash, text_or, is_text}
use restore_engine.Worker.{
  Answer, answered, refused, Restore, Estimate, Host, World, Result, done, task_cancelled,
  timed_out, error, unfinished, M, ◌>>=◌, ◌>>◌, pure, raise, asks, or_raise, pause, write,
  write_with, say, move_to, cancel,
}
use restore_engine.Worker.Task.{Polling, submit_restore}
use restore_engine.Worker.Guest.{mark_qemu_managed_by_tool}

-- What `process_job` reads of the job's hash before the restore.
pub record JobOrder : Type 0 where
  pub node : String
  pub vmid : ℕ
  pub backup_id : String
  pub storage : String
  pub live_restore : Bool
  pub bwlimit : ℕ
  pub unique : Bool
  pub force : Bool
  pub restore_mode : String
  pub archive : String

-- `data[field]`, which raises a KeyError with the quoted name.
abbrev pub item : Hash → String → Answer String
item d field = elim (lookup field d) [
  | none ↦ refused (concat ("'" ∷ field ∷ "'" ∷ []))
  | some s ↦ answered s
]

abbrev pub and_then : {A B : Type 0} → Answer A → (A → Answer B) → Answer B
and_then (answered a) f = f a
and_then (refused msg) f = refused msg

-- `int(s)`
abbrev pub int_of : String → Answer ℕ
int_of s = elim (parse_int s) [
  | none ↦ refused (concat ("invalid literal for int() with base 10: '" ∷ s ∷ "'" ∷ []))
  | some n ↦ answered n
]

-- `int(data.get(field) or 0)`, and 0 where that raises or is negative
abbrev pub number_or_0 : Hash → String → ℕ
number_or_0 d field = elim (parse_int (text_or (lookup field d) "0")) [ none ↦ 0 | some n ↦ n ]

unfoldable pub read_order : String → Hash → Answer JobOrder
read_order job_id d = and_then (item d "proxmox_node") λ node.
    and_then (and_then (item d "proxmox_vmid") int_of) λ vmid.
      and_then (item d "backup_id") λ backup_id. and_then (item d "proxmox_storage") λ storage.
        let archive = text_or (lookup "archive" d) "" in
        if archive == ""
        then refused (concat ("Job " ∷ job_id ∷ " has no archive volid stored" ∷ []))
        else answered (record {
          node = node;
          vmid = vmid;
          backup_id = backup_id;
          storage = storage;
          live_restore = is_text (lookup "live_restore" d) "1";
          bwlimit = number_or_0 d "bwlimit";
          unique = not (is_text (lookup "unique" d) "0");
          force = not (is_text (lookup "force" d) "0");
          restore_mode = lower (strip (text_or (lookup "restore_mode" d) "normal"));
          archive = archive;
        })

-- How a call of `process_job` returns.
pub data JobEnding : Type 0 where
  absent : JobEnding  -- there is no such job
  stopped : JobEnding  -- it was cancelled
  restored : JobEnding

-- The settings of the worker, in milliseconds.
pub record Config : Type 0 where
  pub task_poll_ms : ℕ
  pub task_timeout_ms : ℕ

abbrev pub flag : Bool → String
flag true = "1"
flag false = "0"

-- `f"{seconds:.1f}"`
abbrev pub tenths : ℕ → String
tenths ms = let t = (ms + 50) / 100 in concat (show (t / 10) ∷ "." ∷ show (t % 10) ∷ [])

-- What follows a wait. A cancelled wait ends the job; a TimeoutError is raised again as another
-- exception with the same message.
unfoldable pub after_wait :
    {C A : Type 0}
    → World C × Result A
    → M C JobEnding
    → (A → M C JobEnding)
    → World C × Result JobEnding
after_wait (w, done a) on_cancel rest = rest a w
after_wait (w, task_cancelled) on_cancel rest = on_cancel w
after_wait (w, timed_out msg) on_cancel rest = (w, error msg)
after_wait (w, error msg) on_cancel rest = (w, error msg)
after_wait (w, unfinished) on_cancel rest = (w, unfinished)

-- An exception is raised again with a text before its message.
abbrev pub prefixed : {C A : Type 0} → String → World C × Result A → World C × Result A
prefixed text (w, done a) = (w, done a)
prefixed text (w, task_cancelled) = (w, task_cancelled)
prefixed text (w, timed_out msg) = (w, error (concat (text ∷ msg ∷ [])))
prefixed text (w, error msg) = (w, error (concat (text ∷ msg ∷ [])))
prefixed text (w, unfinished) = (w, unfinished)

unfoldable pub polling : String → Config → JobOrder → Polling
polling id config o = record {
  job_id = id;
  node = o.node;
  poll_ms = config.task_poll_ms;
  timeout_ms = config.task_timeout_ms;
}

-- The two ways on from an attempt to stamp the guest.
unfoldable pub stamp_outcome :
    {C : Type 0}
    → M C (Unit {0})
    → (String → M C (Unit {0}))
    → World C × Result (Unit {0})
    → World C × Result (Unit {0})
stamp_outcome marked again (w, done a) = marked w
stamp_outcome marked again (w, error msg) = again msg w
stamp_outcome marked again (w, timed_out msg) = again msg w
stamp_outcome marked again (w, task_cancelled) = again "" w
stamp_outcome marked again (w, unfinished) = (w, unfinished)

module _ {C : Type 0} (host : Host C) (id : String) where
  unfoldable pub info : String → M C (Unit {0})
  info message = say host id "INFO" "RESTORING" message

  -- What a sample of the backup's chunks says, if there is one.
  unfoldable pub sampled : Option Estimate → M C (Unit {0})
  unfolding info
  sampled none =
      say host id "WARN" "RESTORING"
        "Wire compression sample unavailable; showing logical non-zero rates"
  sampled (some est) = do
    write host id (
        ("wire_compression_ratio", est.ratio)
        ∷ ("wire_sample_chunks", est.samples)
        ∷ ("disk_sparsity_ratio", est.sparsity_ratio)
        ∷ ("disk_nonzero_chunks", est.nonzero_positions)
        ∷ ("disk_total_chunks", est.total_positions)
        ∷ [])
    info est.summary

  unfoldable pub params_of : JobOrder → Restore
  params_of o = record {
    node = o.node;
    vmid = o.vmid;
    archive = o.archive;
    storage = o.storage;
    live_restore = o.live_restore;
    unique = o.unique;
    force = o.force;
    bwlimit = if ltb 0 o.bwlimit then some o.bwlimit else none;
  }

  -- The restore is submitted, and its UPID is kept.
  unfoldable pub begin_restore : JobOrder → M C String
  unfolding info sampled params_of
  begin_restore o = do
    move_to host id restoring (("progress", "5") ∷ [])
    info (
        concat (
          "Submitting "
          ∷ o.restore_mode
          ∷ " restore for "
          ∷ o.backup_id
          ∷ " -> VMID "
          ∷ show o.vmid
          ∷ " (unique="
          ∷ flag o.unique
          ∷ ", force="
          ∷ flag o.force
          ∷ ", live="
          ∷ flag o.live_restore
          ∷ ")"
          ∷ []))
    est ← asks (λ w. host.wire_estimate w.cluster o.backup_id)
    sampled est
    answer ← asks (λ w. host.connect w.cluster)
    or_raise answer
    upid ← submit_restore host (params_of o)
    write_with host id (λ now.
        ("pve_upid", upid)
        ∷ ("progress", "15")
        ∷ ("restore_started_at", now)
        ∷ ("updated_at", now)
        ∷ ("progress_samples", "0")
        ∷ [])
    info (concat ("PVE task started: " ∷ upid ∷ []))
    pure upid

  -- `tick_state` is new for each job.
  unfoldable pub fresh_ticks : M C (Unit {0})
  fresh_ticks w = (record w { samples = 0 }, done tt)

  unfoldable pub on_cancel : String → M C JobEnding
  on_cancel message = do cancel host id; say host id "INFO" "CANCELLED" message; pure stopped

  unfoldable pub stamp_failed : ℕ → String → String
  stamp_failed vmid stamp_err = concat (
      "Failed to stamp ownership marker on VMID "
      ∷ show vmid
      ∷ " after retries: "
      ∷ stamp_err
      ∷ ". Guest was restored but is unmarked — reclaim/teardown will refuse it until tagged "
      ∷ "'restore-engine' manually or the guest is removed in Proxmox."
      ∷ [])

  -- What is written after an attempt, and the wait behind one that failed.
  unfoldable pub marked : ℕ → M C (Unit {0})
  unfolding info
  marked vmid =
      write host id (("managed_marked", "1") ∷ [])
      >> info (concat ("Marked VMID " ∷ show vmid ∷ " as restore-engine managed" ∷ []))

  unfoldable pub not_marked : ℕ → ℕ → String → M C (Unit {0})
  not_marked attempt vmid msg =
      say host id "WARN" "RESTORING" (
        concat (
          "Ownership stamp attempt "
          ∷ show attempt
          ∷ "/3 failed for VMID "
          ∷ show vmid
          ∷ ": "
          ∷ msg
          ∷ []))
      >> pause host (min (2000 * attempt) 5000)

  -- The attempts left, the number of this one, and the last exception.
  unfoldable pub stamp : ℕ → ℕ → String → JobOrder → String → M C (Unit {0})
  unfolding marked not_marked stamp_failed stamp_outcome
  stamp zero attempt stamp_err o plan_run_id w =
      (write host id (("managed_marked", "0") ∷ []) >> raise (stamp_failed o.vmid stamp_err)) w
  stamp (suc left) attempt stamp_err o plan_run_id w =
      stamp_outcome (marked o.vmid)
        (λ msg. not_marked attempt o.vmid msg >> stamp left (suc attempt) msg o plan_run_id)
        (mark_qemu_managed_by_tool host o.node o.vmid id plan_run_id w)
