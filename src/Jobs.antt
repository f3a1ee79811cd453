-- ===== src/Jobs.antt =====
-- The job hashes, the job logs and the queue of Redis, and what worker.py writes to them.
-- A hash is the dict of its fields. Job keys are the job ids: `job_key` puts one fixed prefix before
-- the id, and the log keys, which every scan skips by their suffix, are a dict of their own.
use restore_engine.Common.{
  String, ◌≡◌, refl, Bool, false, List, [], ◌∷◌, ◌++◌, Option, none, some, lookup, put, put_all,
  lookup-put, Bool-cases, inl, inr, ◌==◌, string_key, if◌then◌else◌,
}
use restore_engine.States.{RestoreState, value, cancelled}

abbrev pub Hash : Type 0
Hash = List (String × String)

pub record LogLine : Type 0 where
  pub ts : String
  pub level : String
  pub stage : String
  pub message : String

pub record Redis : Type 0 where
  pub jobs : List (String × Hash)
  pub logs : List (String × List LogLine)
  pub queue : List String
  pub paused : Option String

-- `data.get(field) or default`, which takes the default for an empty text too
abbrev pub text_or : Option String → String → String
text_or none d = d
text_or (some s) d = if s == "" then d else s

-- `data.get(field) == text`
abbrev pub is_text : Option String → String → Bool
is_text none t = false
is_text (some s) t = s == t

-- `r.hgetall(key) or {}`
abbrev pub or_empty : Option Hash → Hash
or_empty none = []
or_empty (some h) = h

unfoldable pub hgetall : Redis → String → Hash
hgetall r id = or_empty (lookup id r.jobs)

-- `r.hget(key, field)`
unfoldable pub hget : Redis → String → String → Option String
unfolding hgetall
hget r id field = lookup field (hgetall r id)

-- `r.hset(key, mapping=…)`
unfoldable pub hset : String → Hash → Redis → Redis
unfolding hgetall
hset id mapping r = record r { jobs = put id (put_all (hgetall r id) mapping) r.jobs }

abbrev or_no_lines : Option (List LogLine) → List LogLine
or_no_lines none = []
or_no_lines (some l) = l

-- RPUSH of one line to the job's log.
unfoldable pub append_log : String → String → String → String → String → Redis → Redis
append_log now id level stage message r = record r {
  logs =
      put id
        (or_no_lines (lookup id r.logs)
          ++ record { ts = now; level = level; stage = stage; message = message } ∷ [])
        r.logs;
}

-- The time-to-live that `set_state` puts on a finished job only makes the key go away later.
unfoldable pub set_state : String → String → RestoreState → Hash → Redis → Redis
unfolding hset
set_state now id state extra r = hset id (("state", value state) ∷ ("updated_at", now) ∷ extra) r

unfoldable pub cancel_requested : Redis → String → Bool
unfolding hget
cancel_requested r id = is_text (hget r id "cancel_requested") "1"

unfoldable pub mark_cancelled : String → String → Redis → Redis
unfolding set_state append_log
mark_cancelled now id r =
    append_log now id "INFO" "CANCELLED" "Job cancelled by operator"
      (set_state now id cancelled [] r)

-- `(r.hgetall(key) or {}).get("state") or ""`
unfoldable pub state_of : Redis → String → String
unfolding hget
state_of r id = text_or (hget r id "state") ""

-- What a read finds after a write, at every key and field.
pub hget-hset :
    (id j field : String) (mapping : Hash) (r : Redis)
    → hget (hset id mapping r) j field
      ≡ (if id == j then lookup field (put_all (hgetall r id) mapping) else hget r j field)
unfolding hget hset
hget-hset id j field mapping r = elim (Bool-cases (id == j)) [
  | inl same ↦ rw (lookup-put, same) refl
  | inr other ↦ rw (lookup-put, other) refl
]
