-- ===== src/Queue/Drain.antt =====
-- What `drain_pending_jobs` does to every job.
use restore_engine.Common.{
  String, ◌≢◌, ◌≡◌, refl, ◌∙◌, Bool, true, false, ◌&&◌, ◌||◌, List, [], ◌∷◌, Option, none, some,
  lookup, put_all, lookup-put, keys, contains, contains-keys_of_lookup, ◌==◌, string_key, eq_iff,
  arith, All, inl, inr, if◌then◌else◌, Bool-cases,
}
use restore_engine.Common.Text.{strip}
use restore_engine.Jobs.{Redis, text_or, hget, hset, state_of, hget-hset}
use restore_engine.Queue.{
  Draining, drained, drain_popped, drain_queue, sweep_one, sweep, drain_pending_jobs,
  set_queue_paused, is_queue_paused,
}

-- The cancelled mapping is seen at its own key alone.
state_of-drained :
    (now id j : String) (r : Redis)
    → state_of (hset id (drained now) r) j ≡ (if id == j then "CANCELLED" else state_of r j)
unfolding state_of put_all
state_of-drained now id j r = elim (Bool-cases (id == j)) [
  | inl same ↦ rw (hget-hset, same) (simp lookup-put)
  | inr other ↦ rw (hget-hset, other) refl
]

-- What one round of each loop does to the state of every job.
abbrev or_pending : String → String
or_pending s = if s == "" then "PENDING" else s

text_or_pending : (o : Option String) → text_or o "PENDING" ≡ or_pending (text_or o "")
text_or_pending none = refl
text_or_pending (some s) = ground (arith, eq_iff s "")

pending_of :
    (r : Redis) (id : String) → text_or (hget r id "state") "PENDING" ≡ or_pending (state_of r id)
unfolding state_of
pending_of r id = text_or_pending (hget r id "state")

-- `CANCELLED` where the job is named and counts as PENDING, and the old state elsewhere.
abbrev pub cancel_if : Bool → String → String
cancel_if true s = "CANCELLED"
cancel_if false s = s

state_of-drain_popped :
    (now id j : String) (d : Draining)
    → state_of (drain_popped now id d).redis j
      ≡ cancel_if ((id == j) && (or_pending (state_of d.redis j) == "PENDING")) (state_of d.redis j)
unfolding drain_popped
state_of-drain_popped now id j d =
    ground (arith, state_of-drained now id j d.redis, pending_of d.redis id, eq_iff id j)

state_of-sweep_one :
    (now id j : String) (d : Draining)
    → state_of (sweep_one now id d).redis j
      ≡ cancel_if ((id == j) && (state_of d.redis j == "PENDING")) (state_of d.redis j)
unfolding sweep_one
state_of-sweep_one now id j d = ground (arith, state_of-drained now id j d.redis, eq_iff id j)

-- The ids that the first loop pops: up to an empty text, stripped, without the blank ones.
abbrev pub popped_ids : List String → List String
popped_ids [] = []
popped_ids (x ∷ queue) =
    let rest = popped_ids queue in
    if x == "" then [] else if strip x == "" then rest else strip x ∷ rest

state_of-queue :
    (q : List String) (j : String) (r : Redis) → state_of (record r { queue = q }) j ≡ state_of r j
unfolding state_of
state_of-queue q j r = refl

state_of-paused :
    (p : Option String) (j : String) (r : Redis)
    → state_of (record r { paused = p }) j ≡ state_of r j
unfolding state_of
state_of-paused p j r = refl

state_of-drain_queue :
    (now j : String) (queue : List String) (d : Draining)
    → state_of (drain_queue now queue d).redis j
      ≡ cancel_if
          (contains j (popped_ids queue) && (or_pending (state_of d.redis j) == "PENDING"))
          (state_of d.redis j)
unfolding drain_queue contains
state_of-drain_queue now j [] d = state_of-queue [] j d.redis
state_of-drain_queue now j (x ∷ queue) d = ground (
  arith,
  state_of-queue queue j d.redis,
  state_of-drain_popped now (strip x) j d,
  state_of-drain_queue now j queue (if strip x == "" then d else drain_popped now (strip x) d),
)

state_of-sweep :
    (now j : String) (scanned : List String) (d : Draining)
    → state_of (sweep now scanned d).redis j
      ≡ cancel_if (contains j scanned && (state_of d.redis j == "PENDING")) (state_of d.redis j)
unfolding sweep contains
state_of-sweep now j [] d = refl
state_of-sweep now j (key ∷ scanned) d =
    ground
      (arith, state_of-sweep_one now key j d, state_of-sweep now j scanned (sweep_one now key d))

no_job :
    (b : Bool) (r : Redis) (j : String)
    → lookup j r.jobs ≡ none
    → (b && (state_of r j == "PENDING")) ≡ (state_of r j == "PENDING")
unfolding state_of lookup
no_job true r j absent = refl
no_job false r j absent = rw absent refl

-- Only a job that is there can be PENDING, so the scan meets it.
scan_meets :
    (r : Redis) (j : String)
    → (contains j (keys r.jobs) && (state_of r j == "PENDING")) ≡ (state_of r j == "PENDING")
scan_meets r j = elim (contains-keys_of_lookup j r.jobs) [
  | inl absent ↦ no_job (contains j (keys r.jobs)) r j absent
  | inr there ↦ rw there refl
]

-- What neither loop touches.
paused-drain_queue :
    (now : String) (queue : List String) (d : Draining)
    → (drain_queue now queue d).redis.paused ≡ d.redis.paused
unfolding drain_queue drain_popped hset
paused-drain_queue now [] d = refl
paused-drain_queue now (x ∷ queue) d = ground (
  arith,
  paused-drain_queue now queue (if strip x == "" then d else drain_popped now (strip x) d),
)

queue-drain_queue :
    (now : String) (queue : List String) (d : Draining)
    → All (λ x. x ≢ "") queue
    → (drain_queue now queue d).redis.queue ≡ []
unfolding drain_queue
queue-drain_queue now [] d h = refl
queue-drain_queue now (x ∷ queue) d h = ground (
  arith,
  eq_iff x "",
  queue-drain_queue now queue (if strip x == "" then d else drain_popped now (strip x) d),
)

sweep_keeps :
    (now : String) (scanned : List String) (d : Draining)
    → ((sweep now scanned d).redis.paused ≡ d.redis.paused)
      × ((sweep now scanned d).redis.queue ≡ d.redis.queue)
unfolding sweep sweep_one hset
sweep_keeps now [] d = (refl, refl)
sweep_keeps now (key ∷ scanned) d = ground (arith, sweep_keeps now scanned (sweep_one now key d))

-- Both loops together, on the state of one job.
cancel_twice :
    (b : Bool) (s : String)
    → let popped = cancel_if (b && (or_pending s == "PENDING")) s in
      cancel_if (popped == "PENDING") popped ≡ cancel_if ((s == "PENDING") || (b && (s == ""))) s
cancel_twice b s = elim (Bool-cases (s == "")) [
  | inl blank ↦ rw ((eq_iff s "").0 blank) (blank_case b)
  | inr named ↦ elim (Bool-cases (s == "PENDING")) [
    | inl waiting ↦ rw ((eq_iff s "PENDING").0 waiting) (waiting_case b)
    | inr other ↦ rw (named, other) (other_case b s other)
  ]
]
  where
    blank_case :
        (b : Bool)
        → cancel_if (cancel_if (b && true) "" == "PENDING") (cancel_if (b && true) "")
          ≡ cancel_if (false || (b && true)) ""
    blank_case true = refl
    blank_case false = refl

    waiting_case :
        (b : Bool)
        → cancel_if (cancel_if (b && true) "PENDING" == "PENDING") (cancel_if (b && true) "PENDING")
          ≡ cancel_if (true || (b && false)) "PENDING"
    waiting_case true = refl
    waiting_case false = refl

    other_case :
        (b : Bool) (s : String)
        → (s == "PENDING") ≡ false
        → cancel_if (cancel_if (b && false) s == "PENDING") (cancel_if (b && false) s)
          ≡ cancel_if (false || (b && false)) s
    other_case true s h = rw h refl
    other_case false s h = rw h refl

-- Whatever jobs and queue there are: after a drain the queue is paused; each job that was PENDING is
-- CANCELLED, and so is each id that was popped from the queue and has no state; and the state of
-- every other job is what it was.
pub drain_pending_exact :
    (now : String) (r : Redis) (j : String)
    → let r' = (drain_pending_jobs now r).redis in
      (is_queue_paused r' ≡ true)
      × (state_of r' j
          ≡ cancel_if
              ((state_of r j == "PENDING")
                || (contains j (popped_ids r.queue) && (state_of r j == "")))
              (state_of r j))
unfolding drain_pending_jobs is_queue_paused set_queue_paused
drain_pending_exact now r j =
    let start : Draining = record { redis = record r { paused = some "1" }; ids = [] } in
    let popped = drain_queue now r.queue start in
    let scanned = keys popped.redis.jobs in
    (
      rw ((sweep_keeps now scanned popped).0, paused-drain_queue now r.queue start) refl,
      rw
          (
            state_of-sweep now j scanned popped,
            scan_meets popped.redis j,
            state_of-drain_queue now j r.queue start,
            state_of-paused (some "1") j r,
          )
          (cancel_twice (contains j (popped_ids r.queue)) (state_of r j)),
    )

-- If no empty text was queued, a drain leaves the queue empty.
pub drain_empties_queue :
    (now : String) (r : Redis)
    → All (λ x. x ≢ "") r.queue
    → (drain_pending_jobs now r).redis.queue ≡ []
unfolding drain_pending_jobs set_queue_paused
drain_empties_queue now r named =
    let start : Draining = record { redis = record r { paused = some "1" }; ids = [] } in
    let popped = drain_queue now r.queue start in
    (sweep_keeps now (keys popped.redis.jobs) popped).1 ∙ queue-drain_queue now r.queue start named
