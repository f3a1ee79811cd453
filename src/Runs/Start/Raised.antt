-- ===== src/Runs/Start/Raised.antt =====
-- What a failed enqueue in `start_plan_run` leaves behind.
use restore_engine.Common.{
  ℕ, zero, suc, ◌+◌, ◌≤◌, ◌≡◌, refl, String, true, List, [], ◌∷◌, ◌++◌, Option, none, some, lookup,
  lookup-put, contains, length, leb, ◌==◌, nat_key, string_key, eq_iff, arith, inl, inr, Bool-cases,
}
use restore_engine.States.{running}
use restore_engine.Jobs.{Redis}
use restore_engine.Runs.{
  Row, Run, Plan, EnqueueFn, Reply, enqueued, raised, Plans, sadd, save_plan_run,
}
use restore_engine.Runs.Tick.{finished, group_at, skip_empty, advance_group, advance_run, complete}
use restore_engine.Runs.Start.{
  Request, Location, broken, empty_groups, first_group, run_shell, after_start, start_at,
  start_found, start_plan_run,
}

group_at-empty_groups : (ids : List String) (i : ℕ) → group_at (empty_groups ids) i ≡ []
group_at-empty_groups [] i = refl
group_at-empty_groups (x ∷ ids) zero = refl
group_at-empty_groups (x ∷ ids) (suc i) = group_at-empty_groups ids i

-- With no jobs and no rows at all, `skip_empty` runs to the end.
skip_empty_all :
    (ids : List String) (fuel idx : ℕ)
    → length (empty_groups ids) ≤ fuel + idx
    → length (empty_groups ids) ≤ skip_empty fuel (empty_groups ids) [] idx
unfolding skip_empty
skip_empty_all ids zero idx h = omega arith
skip_empty_all ids (suc fuel) idx h =
    ground (arith, group_at-empty_groups ids idx, skip_empty_all ids fuel (idx + 1))

contains-append_self : (id : String) (ids : List String) → contains id (ids ++ id ∷ []) ≡ true
unfolding contains
contains-append_self id [] = ground (arith, eq_iff id id)
contains-append_self id (x ∷ ids) = ground (arith, contains-append_self id ids)

contains-sadd : (id : String) (ids : List String) → contains id (sadd id ids) ≡ true
contains-sadd id ids = elim (Bool-cases (contains id ids)) [
  | inl old ↦ rw old old
  | inr new ↦ rw new (contains-append_self id ids)
]

-- A run that is stored and active, RUNNING, with no job in any of its groups.
pub record IsPhantom (run_id : String) (p : Plans) (run : Run) : Type 0 where
  pub stored : lookup run_id p.runs ≡ some run
  pub active : contains run_id p.active ≡ true
  pub is_open : run.status ≡ running
  pub no_jobs : (i : ℕ) → group_at run.job_ids_by_group i ≡ []

-- A tick over the run ends it, as `complete` writes it, whatever Redis and `enqueue_fn` are then.
abbrev pub Completes : Run → Type 0
Completes run =
    (enqueue_fn : EnqueueFn) (now : String) (r : Redis)
    → (idx : ℕ) × (advance_run enqueue_fn now r run ≡ finished (complete now idx run))

module _ (now run_id : String) (q : Request) (plan : Plan) (loc : Location) where
  shell-IsPhantom :
      (p : Plans) (start_idx : ℕ) (r' : Redis)
      → let run = run_shell now run_id start_idx q plan loc in
        IsPhantom run_id (record (save_plan_run now run p) { redis = r' }) run
  unfolding save_plan_run run_shell
  shell-IsPhantom p start_idx r' =
      let self : (run_id == run_id) ≡ true = (eq_iff run_id run_id).1 refl in
      record {
        stored = rw (lookup-put, self) refl;
        active = contains-sadd run_id p.active;
        is_open = refl;
        no_jobs = group_at-empty_groups plan.group_ids;
      }

  shell-Completes : (start_idx : ℕ) → Completes (run_shell now run_id start_idx q plan loc)
  unfolding run_shell advance_run advance_group
  shell-Completes start_idx enqueue_fn now' r =
      let jobs = empty_groups plan.group_ids in
      let idx = skip_empty (length jobs) jobs [] start_idx in
      let past : leb (length jobs) idx ≡ true =
        ground (arith, skip_empty_all plan.group_ids (length jobs) start_idx) in
      (idx, rw past refl)

  after_start_broken :
      (start_idx : ℕ) (groups : List (List Row)) (run : Run) (p p' : Plans) (reply : Reply)
      → after_start now start_idx groups plan loc run p reply ≡ broken p'
      → (r' : Redis) × (p' ≡ record p { redis = r' })
  unfolding after_start
  after_start_broken start_idx groups run p p' (raised r') e = (r', cc)
  after_start_broken start_idx groups run p p' (enqueued r' result) e = cc

  start_at_broken :
      (enqueue_fn : EnqueueFn) (groups : List (List Row)) (p p' : Plans) (start_idx : ℕ)
      → start_at enqueue_fn now run_id q plan loc groups p start_idx ≡ broken p'
      → (run : Run) × IsPhantom run_id p' run × Completes run
  unfolding start_at
  start_at_broken enqueue_fn groups p p' start_idx e =
      let run = run_shell now run_id start_idx q plan loc in
      let (r', same) = after_start_broken start_idx groups run (save_plan_run now run p) p' _ e in
      (run, rw same (shell-IsPhantom p start_idx r'), shell-Completes start_idx)

  start_found_broken :
      (enqueue_fn : EnqueueFn) (groups : List (List Row)) (p p' : Plans) (o : Option ℕ)
      → start_found enqueue_fn now run_id q plan loc groups p o ≡ broken p'
      → (run : Run) × IsPhantom run_id p' run × Completes run
  unfolding start_found
  start_found_broken enqueue_fn groups p p' none e = cc
  start_found_broken enqueue_fn groups p p' (some start_idx) e =
      start_at_broken enqueue_fn groups p p' start_idx e

-- If the enqueue of a new run's first group raises, the run shell stays behind: stored, active and
-- RUNNING, with no job. And a tick over it, under any later state of the jobs, ends it as COMPLETED,
-- although nothing was restored.
pub start_raised-Completes :
    (enqueue_fn : EnqueueFn) (now run_id : String) (q : Request) (plan : Plan) (loc : Location)
    (groups : List (List Row)) (p p' : Plans)
    → start_plan_run enqueue_fn now run_id q plan loc groups p ≡ broken p'
    → (run : Run) × IsPhantom run_id p' run × Completes run
unfolding start_plan_run
start_raised-Completes enqueue_fn now run_id q plan loc groups p p' e =
    start_found_broken now run_id q plan loc enqueue_fn groups p p' (first_group groups 0)
      (ground arith)
