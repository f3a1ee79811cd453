-- ===== src/Queue.antt =====
-- queue_control.py: pause, resume and stop of the queue; and `stop_job` of main.py.
-- Each function runs to its end over one Redis state; `now` is what `utc_now_iso` returns in it.
pub mod Drain
pub mod Stop
use restore_engine.Common.{
  String, ◌≡◌, refl, Bool, true, false, ◌||◌, not, List, [], ◌∷◌, ◌++◌, Option, none, some, lookup,
  keys, filter, contains, ◌==◌, string_key, if◌then◌else◌,
}
use restore_engine.Common.Text.{strip}
use restore_engine.States.{RestoreState, value, cancelled, is_terminal}
use restore_engine.Jobs.{Hash, Redis, text_or, is_text, hgetall, hget, hset, state_of}

unfoldable pub is_queue_paused : Redis → Bool
is_queue_paused r = text_or r.paused "" == "1"

unfoldable pub set_queue_paused : Bool → Redis → Redis
set_queue_paused paused r = record r { paused = if paused then some "1" else none }

-- The mapping that a drain writes to a job.
abbrev pub drained : String → Hash
drained now =
    ("state", value cancelled)
    ∷ ("updated_at", now)
    ∷ ("error", "Cancelled by queue stop (pending drain)")
    ∷ ("eta_sec", "")
    ∷ ("speed_bps", "")
    ∷ []

-- The state of the jobs, with the list of the ids that were cancelled.
pub record Draining : Type 0 where
  pub redis : Redis
  pub ids : List String

-- One id from the queue: a job with no state counts as PENDING.
pub drain_popped : String → String → Draining → Draining
unfolding hset
drain_popped now id d =
    if text_or (hget d.redis id "state") "PENDING" == "PENDING"
    then record { redis = hset id (drained now) d.redis; ids = d.ids ++ id ∷ [] }
    else d

-- The `while` loop: LPOP until the queue is empty, or an empty text comes.
pub drain_queue : String → List String → Draining → Draining
unfolding drain_popped
drain_queue now [] d = record d { redis = record d.redis { queue = [] } }
drain_queue now (job_id ∷ queue) d =
    let id = strip job_id in
    let rest = drain_queue now queue (if id == "" then d else drain_popped now id d) in
    if job_id == "" then record d { redis = record d.redis { queue = queue } } else rest

-- One key of the scan.
pub sweep_one : String → String → Draining → Draining
unfolding hset
sweep_one now key d =
    if state_of d.redis key == "PENDING"
    then (let id = text_or (hget d.redis key "job_id") key in
        record {
          redis = hset key (drained now) d.redis;
          ids = if contains id d.ids then d.ids else d.ids ++ id ∷ [];
        })
    else d

pub sweep : String → List String → Draining → Draining
unfolding sweep_one
sweep now [] d = d
sweep now (key ∷ scanned) d = sweep now scanned (sweep_one now key d)

-- The scan lists the keys that are there when it starts.
unfoldable pub drain_pending_jobs : String → Redis → Draining
unfolding set_queue_paused drain_queue sweep
drain_pending_jobs now r =
    let popped = drain_queue now r.queue (record { redis = set_queue_paused true r; ids = [] }) in
    sweep now (keys popped.redis.jobs) popped

pub data StopReply : Type 0 where
  stopped : Hash → StopReply
  not_found : StopReply  -- HTTP 404

-- LREM of all occurrences
abbrev pub lrem : String → List String → List String
lrem id = filter (λ x. not (x == id))

abbrev pub no_fields : Option Hash → Bool
no_fields none = true
no_fields (some []) = true
no_fields (some (f ∷ fs)) = false

-- The two writes of `stop_job`: the transaction, and the state of a job that is PENDING after it.
unfoldable pub request_cancel : String → Redis → Redis
unfolding hset
request_cancel id r =
    let r' = hset id (("cancel_requested", "1") ∷ []) r in record r' { queue = lrem id r.queue }

unfoldable pub cancel_pending : String → String → Redis → Redis
unfolding hset
cancel_pending now id r =
    if is_text (hget r id "state") "PENDING"
    then hset id (("state", value cancelled) ∷ ("updated_at", now) ∷ []) r
    else r

-- `data.get("state", PENDING)`: the default is for a missing field alone.
abbrev pub state_or_pending : Option String → String
state_or_pending none = "PENDING"
state_or_pending (some s) = s

unfoldable pub stop_job : String → String → Redis → Redis × StopReply
stop_job now id r =
    if no_fields (lookup id r.jobs)
    then (r, not_found)
    else if is_terminal (state_or_pending (hget r id "state"))
    then (r, stopped (hgetall r id))
    else (let r' = cancel_pending now id (request_cancel id r) in (r', stopped (hgetall r' id)))
