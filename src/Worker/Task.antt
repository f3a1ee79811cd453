-- ===== src/Worker/Task.antt =====
-- pve_client.py: `submit_restore`, `fetch_task_log` and `wait_for_task`, with `on_tick` of worker.py.
use restore_engine.Common.{
  ℕ, zero, suc, ◌+◌, ◌/◌, max, String, Bool, true, not, ◌&&◌, List, [], ◌∷◌, Option, none, some,
  length, ltb, put, ◌==◌, nat_key, string_key, if◌then◌else◌,
}
use restore_engine.Common.Text.{strip, rstrip}
use restore_engine.Common.Parse.{lower, has_text, concat, show}
use restore_engine.Jobs.{Hash, cancel_requested, hset}
use restore_engine.Worker.{
  Answer, answered, refused, TaskReply, task_text, task_dict, task_other, StatusReply, not_a_dict,
  task_status, LogRow, numbered, bare, other_row, Restore, restore_vm, stop_task_of, Host, World,
  done, task_cancelled, timed_out, error, unfinished, M, ◌>>=◌, ◌>>◌, pure, raise, or_raise,
  send_request, pause, when_so,
}

-- The UPID in the reply to a restore.
unfoldable pub upid_of : Answer TaskReply → Answer String
upid_of (refused msg) = refused msg
upid_of (answered (task_text upid)) = answered upid
upid_of (answered (task_dict upid shown)) =
    if upid == ""
    then refused (concat ("Unexpected restore response: " ∷ shown ∷ []))
    else answered upid
upid_of (answered (task_other shown)) =
    refused (concat ("Unexpected restore response: " ∷ shown ∷ []))

-- The lines of a piece of a task log.
unfoldable pub log_lines : List LogRow → List String
log_lines [] = []
log_lines (numbered text n ∷ rows) =
    let rest = log_lines rows in if rstrip text == "" then rest else rstrip text ∷ rest
log_lines (bare text ∷ rows) =
    let rest = log_lines rows in if strip text == "" then rest else strip text ∷ rest
log_lines (other_row ∷ rows) = log_lines rows

-- `max_n + 1`, which begins at `start`.
unfoldable pub after_rows : ℕ → List LogRow → ℕ
after_rows m [] = m
after_rows m (numbered text (some n) ∷ rows) = after_rows (max m (suc n)) rows
after_rows m (numbered text none ∷ rows) = after_rows m rows
after_rows m (bare text ∷ rows) = after_rows m rows
after_rows m (other_row ∷ rows) = after_rows m rows

-- The lines and the next offset, from the rows of the reply or a request that failed.
unfoldable pub fetch_task_log : ℕ → Option (List LogRow) → List String × ℕ
unfolding log_lines after_rows
fetch_task_log start none = ([], start)
fetch_task_log start (some rows) =
    let lines = log_lines rows in
    let next = after_rows start rows in
    (lines, if ltb start next then next else start + length lines)

unfoldable pub explain_pve_task_failure : String → String
explain_pve_task_failure exitstatus =
    let low = lower exitstatus in
    let msg = concat ("PVE task failed: " ∷ exitstatus ∷ []) in
    if has_text "hostpci" low && has_text "only root" low
    then concat (
        msg ∷ " — this backup includes PCI passthrough; Proxmox requires root "
        ∷ "(or mapped PCI devices) to restore hostpci* config. Use root "
        ∷ "credentials, or remove passthrough from the source before backup." ∷ [])
    else msg

-- `deadline is None or time.time() < deadline`
abbrev pub is_before : ℕ → Option ℕ → Bool
is_before now none = true
is_before now (some deadline) = ltb now deadline

-- `None if timeout <= 0 else time.time() + timeout`
abbrev pub deadline_of : ℕ → ℕ → Option ℕ
deadline_of now timeout = if timeout == 0 then none else some (now + timeout)

-- What the polls of a job have in common.
pub record Polling : Type 0 where
  pub job_id : String
  pub node : String
  pub poll_ms : ℕ
  pub timeout_ms : ℕ  -- 0 for no limit

too_late_for : String → Polling → String
too_late_for upid p =
    concat (
      "PVE task "
      ∷ upid
      ∷ " did not finish within "
      ∷ show ((p.timeout_ms + 500) / 1000)
      ∷ "s"
      ∷ [])

module _ {C : Type 0} (host : Host C) where
  unfoldable pub submit_restore : Restore → M C String
  unfolding upid_of
  submit_restore params = send_request (restore_vm params) (host.post_restore params) >>= λ reply.
      or_raise (upid_of reply)

  unfoldable pub stop_task : String → String → M C (Unit {0})
  stop_task node upid = send_request (stop_task_of upid) (λ c. (host.delete_task node upid c, tt))

  -- What the metrics of a poll write to the job; an exception is swallowed by the caller.
  unfoldable pub write_metrics : String → String → Option Hash → ℕ → World C → World C
  write_metrics id now none samples w = record w { samples = samples }
  write_metrics id now (some mapping) samples w = record w {
    redis = hset id (put "updated_at" now (put "progress_samples" (show samples) mapping)) w.redis;
    samples = samples;
  }

  unfoldable pub on_tick : String → List String → M C (Unit {0})
  unfolding write_metrics
  on_tick id [] w = (w, done tt)
  on_tick id (line ∷ lines) w =
      let samples = w.samples + 1 in
      let metrics = host.tick_metrics w.cluster samples (line ∷ lines) in
      (write_metrics id (host.utc_now w.cluster) metrics samples w, done tt)

  -- The end of a task that has stopped.
  unfoldable pub exit_with : String → M C (Unit {0})
  unfolding explain_pve_task_failure
  exit_with exitstatus =
      if not (exitstatus == "") && not (lower exitstatus == "ok")
      then raise (explain_pve_task_failure exitstatus)
      else pure tt

  module _ (p : Polling) (ticks : Bool) (upid : String) where
    -- What a poll does with the answer, where `again` goes on with the next round.
    unfoldable pub see_status : (ℕ → M C (Unit {0})) → ℕ → Answer StatusReply → M C (Unit {0})
    unfolding fetch_task_log on_tick exit_with
    see_status again offset (refused msg) w = (w, error msg)
    see_status again offset (answered not_a_dict) w = again offset w
    see_status again offset (answered (task_status state exitstatus)) w =
        let (lines, next) = fetch_task_log offset (host.get_log w.cluster p.node upid offset) in
        (when_so ticks (on_tick p.job_id lines)
            >> (if lower state == "stopped" then exit_with exitstatus else again next))
          w

    -- One round of the `while` loop.
    unfoldable pub poll_round : (ℕ → M C (Unit {0})) → Option ℕ → ℕ → M C (Unit {0})
    unfolding see_status stop_task too_late_for
    poll_round again deadline offset w =
        if is_before (host.clock w.cluster) deadline
        then (if cancel_requested w.redis p.job_id
            then ((stop_task p.node upid w).0, task_cancelled)
            else see_status again offset (host.get_status w.cluster p.node upid) w)
        else (w, timed_out (too_late_for upid p))

    -- The rounds that are left; a round sleeps before the next one.
    unfoldable pub poll_task : ℕ → Option ℕ → ℕ → M C (Unit {0})
    unfolding poll_round
    poll_task zero deadline offset w = (w, unfinished)
    poll_task (suc rounds) deadline offset w =
        poll_round (λ next. pause host p.poll_ms >> poll_task rounds deadline next) deadline offset
          w

    unfoldable pub wait_for_task : ℕ → M C (Unit {0})
    unfolding poll_task
    wait_for_task rounds w = poll_task rounds (deadline_of (host.clock w.cluster) p.timeout_ms) 0 w
