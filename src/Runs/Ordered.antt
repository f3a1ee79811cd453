-- ===== src/Runs/Ordered.antt =====
-- The order of the groups of a plan run, and what it asks of `enqueue_fn`.
pub mod Kept
use restore_engine.Common.{
  ℕ, zero, suc, ◌+◌, ◌≡◌, refl, String, Bool, true, false, ◌&&◌, List, [], ◌∷◌, map, all, All,
  All-imp, All-take_suc, All-drop_suc, All-of_take, take-set, drop-set, take, drop, contains,
  length, leb, ◌==◌, nat_key, string_key, arith, tests, inl, inr, Bool-cases, if◌then◌else◌,
}
use mathlib.Core.Path.{subst}
use restore_engine.States.{PlanRunStatus, run_completed, run_cancelled, is_terminal}
use restore_engine.Jobs.{Redis}
use restore_engine.Runs.{
  Row, Run, Order, EnqueueFn, Reply, enqueued, raised, Enqueued, record_assigned_targets,
}
use restore_engine.Runs.Tick.{
  Advance, waits, saved, finished, group_at, is_nil, is_skipped, skip_empty, job_state,
  enqueue_group, is_all_cancelled, group_order, after_enqueue, next_group, close_group,
  advance_group, advance_run, complete,
}

-- All jobs of a group are finished; under `halt_on_error` none of them has failed.
abbrev pub JobDone : Redis → Bool → String → Type 0
JobDone r halt id =
    (is_terminal (job_state r id) ≡ true) × ((halt && (job_state r id == "FAILED")) ≡ false)

abbrev pub GroupDone : Redis → Bool → List String → Type 0
GroupDone r halt ids = All (JobDone r halt) ids

-- The groups before the current one are done, and those behind it have no jobs yet.
pub record IsOrdered (r : Redis) (run : Run) : Type 0 where
  pub before :
      All (GroupDone r run.halt_on_error) (take run.current_group_index run.job_ids_by_group)
  pub after : All (λ ids. ids ≡ []) (drop (run.current_group_index + 1) run.job_ids_by_group)

-- `skip_empty` stops at a group with jobs or rows, or at the end; what it passes over has neither.
module _ (jobs : List (List String)) (pending : List (List Row)) where
  pub skip_empty-keeps :
      {Q : ℕ → Type 0}
      → ((i : ℕ) → Q i → is_nil (group_at jobs i) ≡ true → Q (i + 1))
      → (fuel idx : ℕ) → Q idx
      → Q (skip_empty fuel jobs pending idx)
  unfolding skip_empty
  skip_empty-keeps go zero idx q = q
  skip_empty-keeps go (suc fuel) idx q = elim (Bool-cases (is_skipped jobs pending idx)) [
    | inl skipped ↦ rw skipped (skip_empty-keeps go fuel (idx + 1) (go idx q (ground arith)))
    | inr stops ↦ rw stops q
  ]

-- `enqueue_fn` adds jobs and leaves the finished ones as they are.
pub record KeepsFinished (enqueue_fn : EnqueueFn) : Type 0 where
  pub keeps :
      (order : Order) (r r' : Redis) (result : Enqueued) (id : String)
      → enqueue_fn order r ≡ enqueued r' result
      → is_terminal (job_state r id) ≡ true
      → job_state r' id ≡ job_state r id
