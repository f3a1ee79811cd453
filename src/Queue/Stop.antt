-- ===== src/Queue/Stop.antt =====
-- What `stop_job` does on each of its branches.
use restore_engine.Common.{
  String, ◌≢◌, ◌≡◌, refl, ◌∙◌, Bool, true, false, ◌&&◌, not, List, [], ◌∷◌, some, lookup, put_all,
  lookup-put, contains, ◌==◌, string_key, eq_iff, arith, inl, inr, if◌then◌else◌, Bool-cases,
}
use restore_engine.Jobs.{Hash, Redis, is_text, hgetall, hget, hset, hget-hset}
use restore_engine.States.{is_terminal}
use restore_engine.Queue.{
  stopped, not_found, no_fields, state_or_pending, lrem, request_cancel, cancel_pending, stop_job,
}

-- `stop_job` goes on to its writes.
abbrev pub is_stoppable : Redis → String → Bool
is_stoppable r id =
    not (no_fields (lookup id r.jobs)) && not (is_terminal (state_or_pending (hget r id "state")))

contains-lrem : (id : String) (q : List String) → contains id (lrem id q) ≡ false
unfolding contains
contains-lrem id [] = refl
contains-lrem id (x ∷ q) = ground (arith, contains-lrem id q)

-- A missing job is answered with 404, and a finished one with its fields: neither changes anything.
pub stop_job_keeps :
    (now id : String) (r : Redis)
    → is_stoppable r id ≡ false
    → stop_job now id r
      ≡ (r, if no_fields (lookup id r.jobs) then not_found else stopped (hgetall r id))
unfolding stop_job
stop_job_keeps now id r h = ground arith

hget-queue :
    (q : List String) (j field : String) (r : Redis)
    → hget (record r { queue = q }) j field ≡ hget r j field
unfolding hget
hget-queue q j field r = refl

abbrev flag : Hash
flag = ("cancel_requested", "1") ∷ []

hget_lem : (r : Redis) (id field : String) → lookup field (hgetall r id) ≡ hget r id field
unfolding hget
hget_lem r id field = refl

abbrev cancelled_at : String → Hash
cancelled_at now = ("state", "CANCELLED") ∷ ("updated_at", now) ∷ []

-- The two writes, seen at the fields of the job and of the other jobs.
module _ (now id : String) (r : Redis) where
  hget-request_cancel_self :
      (field : String)
      → hget (request_cancel id r) id field
        ≡ (if "cancel_requested" == field then some "1" else hget r id field)
  unfolding request_cancel put_all hget lookup
  hget-request_cancel_self field =
      hget-queue (lrem id r.queue) id field (hset id flag r)
      ∙ hget-hset id id field flag r
      ∙ (let self : (id == id) ≡ true = (eq_iff id id).1 refl in
          rw self (lookup-put "cancel_requested" field "1" (hgetall r id)))

  hget-request_cancel_other :
      (j field : String) → id ≢ j → hget (request_cancel id r) j field ≡ hget r j field
  unfolding request_cancel
  hget-request_cancel_other j field ne =
      let other : (id == j) ≡ false = ground (arith, eq_iff id j) in
      hget-queue (lrem id r.queue) j field (hset id flag r)
      ∙ hget-hset id j field flag r
      ∙ rw other refl

  hget-cancel_pending_self :
      (hget (cancel_pending now id r) id "state"
        ≡ (if is_text (hget r id "state") "PENDING" then some "CANCELLED" else hget r id "state"))
      × (hget (cancel_pending now id r) id "cancel_requested" ≡ hget r id "cancel_requested")
      × ((cancel_pending now id r).queue ≡ r.queue)
  unfolding cancel_pending put_all
  hget-cancel_pending_self =
      let self : (id == id) ≡ true = (eq_iff id id).1 refl in
      elim (Bool-cases (is_text (hget r id "state") "PENDING")) [
        | inl waiting ↦ rw waiting (
          hget-hset id id "state" (cancelled_at now) r ∙ rw self (simp lookup-put),
          hget-hset id id "cancel_requested" (cancelled_at now) r
              ∙ rw self (simp lookup-put (hget_lem r id "cancel_requested")),
          refl,
        )
        | inr busy ↦ rw busy (refl, refl, refl)
      ]

  hget-cancel_pending_other :
      (j field : String) → id ≢ j → hget (cancel_pending now id r) j field ≡ hget r j field
  unfolding cancel_pending
  hget-cancel_pending_other j field ne =
      let other : (id == j) ≡ false = ground (arith, eq_iff id j) in
      elim (Bool-cases (is_text (hget r id "state") "PENDING")) [
        | inl waiting ↦ rw (waiting, hget-hset, other) refl
        | inr busy ↦ rw busy refl
      ]

queue-request_cancel : (id : String) (r : Redis) → (request_cancel id r).queue ≡ lrem id r.queue
unfolding request_cancel
queue-request_cancel id r = refl

stop_job_goes :
    (now id : String) (r : Redis)
    → is_stoppable r id ≡ true
    → let r' = cancel_pending now id (request_cancel id r) in
      stop_job now id r ≡ (r', stopped (hgetall r' id))
unfolding stop_job
stop_job_goes now id r h = ground arith

-- A job that is there and not finished: its cancel flag is set, it is off the queue, it is CANCELLED
-- if it was PENDING and keeps its state otherwise, and the reply holds its new fields.
pub stop_job_exact :
    (now id : String) (r : Redis)
    → is_stoppable r id ≡ true
    → let (r', reply) = stop_job now id r in
      (hget r' id "cancel_requested" ≡ some "1")
      × (hget r' id "state"
          ≡ (if is_text (hget r id "state") "PENDING" then some "CANCELLED" else hget r id "state"))
      × (contains id r'.queue ≡ false)
      × (reply ≡ stopped (hgetall r' id))
stop_job_exact now id r h =
    let r' = request_cancel id r in
    let (state, flagged, queue) = hget-cancel_pending_self now id r' in
    rw (stop_job_goes now id r h) (
      flagged ∙ hget-request_cancel_self now id r "cancel_requested",
      state ∙ rw (hget-request_cancel_self now id r "state") refl,
      rw (queue ∙ queue-request_cancel id r) (contains-lrem id r.queue),
      refl,
    )

-- No branch touches a field of another job.
pub stop_job_other :
    (now id j field : String) (r : Redis)
    → id ≢ j
    → hget (stop_job now id r).0 j field ≡ hget r j field
stop_job_other now id j field r ne = elim (Bool-cases (is_stoppable r id)) [
  | inl on ↦ rw (stop_job_goes now id r on) (
      hget-cancel_pending_other now id (request_cancel id r) j field ne
      ∙ hget-request_cancel_other now id r j field ne)
  | inr off ↦ rw (stop_job_keeps now id r off) refl
]
