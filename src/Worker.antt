-- ===== src/Worker.antt =====
-- worker.py: the restore worker. A call runs over a world: the Redis state, the state of the cluster
-- with everything else outside Redis, and the requests that were sent to it. `Host` has the requests,
-- and what other processes do while this one sleeps.
pub mod Task
pub mod Guest
pub mod Job
pub mod Boot
pub mod Ends
pub mod Rules
pub mod Waits
pub mod Stages
pub mod Loop
pub mod Final
pub mod Isolation
pub mod Isolated
pub mod Claims
pub mod Restart
use restore_engine.Common.{ℕ, String, Bool, true, false, List, [], ◌∷◌, ◌++◌, Option}
use restore_engine.Jobs.{Redis, Hash, hset}
use restore_engine.Jobs
use restore_engine.States.{RestoreState}
use restore_engine.Guests.{Proxmox}

-- A reply, or the message of the exception that a request raises.
pub data Answer (A : Type 0) : Type 0 where
  answered : A → Answer A
  refused : String → Answer A

-- What a POST that starts a task returns.
pub data TaskReply : Type 0 where
  task_text : String → TaskReply
  task_dict : String → String → TaskReply  -- `data` or `upid`, empty if missing, and the `repr`
  task_other : String → TaskReply  -- another value, with its `repr`

-- The status of a task; the texts are `status` and `exitstatus`.
pub data StatusReply : Type 0 where
  not_a_dict : StatusReply
  task_status : String → String → StatusReply

-- A row of a task log: a dict with its text and number, a text, or another value.
pub data LogRow : Type 0 where
  numbered : String → Option ℕ → LogRow
  bare : String → LogRow
  other_row : LogRow

-- The nesting of an agent's answer, and the keys `host-name`, `hostname` and `name` of a dict.
pub data AgentReply : Type 0 where
  under_data : AgentReply → AgentReply
  under_result : AgentReply → AgentReply
  names : String → String → String → AgentReply
  plain : String → AgentReply

-- The parameters of a restore POST.
pub record Restore : Type 0 where
  pub node : String
  pub vmid : ℕ
  pub archive : String
  pub storage : String
  pub live_restore : Bool
  pub unique : Bool
  pub force : Bool
  pub bwlimit : Option ℕ

-- `estimate_wire_compression_for_job`, as it is written to the job.
pub record Estimate : Type 0 where
  pub ratio : String
  pub samples : String
  pub sparsity_ratio : String
  pub nonzero_positions : String
  pub total_positions : String
  pub summary : String  -- the line for the log

-- A request that may change the cluster.
pub data ApiRequest : Type 0 where
  restore_vm : Restore → ApiRequest
  stop_task_of : String → ApiRequest
  put_config_of : String → ℕ → List (String × String) → ApiRequest
  start_vm : String → ℕ → ApiRequest
  stop_vm : String → ℕ → ApiRequest

-- Times are milliseconds.
pub record Host (C : Type 0) : Type 0 where
  pub guests : Proxmox C
  pub connect : C → Answer (Unit {0})
  pub post_restore : Restore → C → C × Answer TaskReply
  pub get_status : C → String → String → Answer StatusReply
  pub get_log : C → String → String → ℕ → Option (List LogRow)
  pub delete_task : String → String → C → C
  pub config_items : C → String → ℕ → Answer (List (String × String))
  pub put_config : String → ℕ → List (String × String) → C → C × Answer (Unit {0})
  pub post_start : String → ℕ → C → C × Answer TaskReply
  pub ping_get : C → String → ℕ → Bool
  pub ping_post : C → String → ℕ → Bool
  pub host_name : C → String → ℕ → Option AgentReply
  pub http_get : String → C → Answer ℕ
  pub sleep : ℕ → C × Redis → C × Redis
  pub clock : C → ℕ
  pub utc_now : C → String
  pub wire_estimate : C → String → Option Estimate
  -- The metrics of a poll, from the number of samples and the new lines; none where it raises.
  pub tick_metrics : C → ℕ → List String → Option Hash

-- The requests in reverse order, each with the state of the cluster that it met.
pub record World (C : Type 0) : Type 0 where
  pub redis : Redis
  pub cluster : C
  pub sent : List (ApiRequest × C)
  pub samples : ℕ  -- `tick_state["samples"]`

-- How a call ends: `unfinished` is a poll that still goes on when the rounds are used up.
pub data Result (A : Type 0) : Type 0 where
  done : A → Result A
  task_cancelled : Result A
  timed_out : String → Result A
  error : String → Result A
  unfinished : Result A

abbrev pub M : Type 0 → Type 0 → Type 0
M C A = World C → World C × Result A

module _ {C A B : Type 0} where
  -- An exception keeps what was done before it.
  unfoldable pub continue : World C × Result A → (A → M C B) → World C × Result B
  continue (w, done a) f = f a w
  continue (w, task_cancelled) f = (w, task_cancelled)
  continue (w, timed_out msg) f = (w, timed_out msg)
  continue (w, error msg) f = (w, error msg)
  continue (w, unfinished) f = (w, unfinished)

  infixl 5 ◌>>=◌
  unfoldable pub ◌>>=◌ : M C A → (A → M C B) → M C B
  unfolding continue
  ◌>>=◌ m f w = continue (m w) f

infixl 5 ◌>>◌
abbrev pub ◌>>◌ : {C B : Type 0} → M C (Unit {0}) → M C B → M C B
m >> k = m >>= λ _. k

module _ {C A : Type 0} where
  unfoldable pub pure : A → M C A
  pure a w = (w, done a)

  unfoldable pub raise : String → M C A
  raise msg w = (w, error msg)

  unfoldable pub asks : (World C → A) → M C A
  asks f w = (w, done (f w))

  unfoldable pub or_raise : Answer A → M C A
  or_raise (answered a) w = (w, done a)
  or_raise (refused msg) w = (w, error msg)

module _ {C : Type 0} where
  unfoldable pub when_so : Bool → M C (Unit {0}) → M C (Unit {0})
  when_so true m = m
  when_so false m = pure tt

  module _ {A : Type 0} where
    -- A request with its effect and its reply.
    unfoldable pub send_request : ApiRequest → (C → C × A) → M C A
    send_request request f w =
        let (c, a) = f w.cluster in
        (record w { cluster = c; sent = (request, w.cluster) ∷ w.sent }, done a)

module _ {C : Type 0} (host : Host C) where
  unfoldable pub pause : ℕ → M C (Unit {0})
  pause ms w =
      let (c, r) = host.sleep ms (w.cluster, w.redis) in
      (record w { cluster = c; redis = r }, done tt)

  unfoldable pub write_with : String → (String → Hash) → M C (Unit {0})
  write_with id mapping w =
      (record w { redis = hset id (mapping (host.utc_now w.cluster)) w.redis }, done tt)

  -- `r.hset(key, mapping={…, "updated_at": utc_now_iso()})`
  unfoldable pub write : String → Hash → M C (Unit {0})
  unfolding write_with
  write id mapping = write_with id (λ now. mapping ++ ("updated_at", now) ∷ [])

  unfoldable pub say : String → String → String → String → M C (Unit {0})
  say id level stage message w = (
    record w { redis = Jobs.append_log (host.utc_now w.cluster) id level stage message w.redis },
    done tt,
  )

  unfoldable pub move_to : String → RestoreState → Hash → M C (Unit {0})
  move_to id state extra w =
      (record w { redis = Jobs.set_state (host.utc_now w.cluster) id state extra w.redis }, done tt)

  unfoldable pub cancel : String → M C (Unit {0})
  cancel id w =
      (record w { redis = Jobs.mark_cancelled (host.utc_now w.cluster) id w.redis }, done tt)
