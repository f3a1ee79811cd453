-- ===== src/Runs/Ordered/Kept.antt =====
-- The order of the groups of a plan run: what one tick of `advance_plan_runs` keeps.
use restore_engine.Common.{
  ℕ, ◌+◌, ◌≡◌, refl, String, Bool, true, false, ◌&&◌, List, [], ◌∷◌, map, all, All, All-imp,
  All-take_suc, All-drop_suc, All-of_take, take-set, drop-set, take, drop, contains, length, leb,
  nat_key, string_key, arith, tests, if◌then◌else◌,
}
use mathlib.Core.Path.{subst}
use restore_engine.States.{PlanRunStatus, run_completed, run_cancelled, is_terminal}
use restore_engine.Jobs.{Redis}
use restore_engine.Runs.{
  Row, Run, Order, EnqueueFn, Reply, enqueued, raised, Enqueued, record_assigned_targets,
}
use restore_engine.Runs.Tick.{
  Advance, waits, saved, finished, group_at, is_nil, skip_empty, job_state, enqueue_group,
  is_all_cancelled, group_order, after_enqueue, next_group, close_group, advance_group, advance_run,
  complete,
}
use restore_engine.Runs.Ordered.{JobDone, GroupDone, IsOrdered, skip_empty-keeps, KeepsFinished}

GroupDone-nil :
    (r : Redis) (halt : Bool) (ids : List String) → is_nil ids ≡ true → GroupDone r halt ids
GroupDone-nil r halt [] h = tt
GroupDone-nil r halt (x ∷ ids) h = cc

-- What the invariant says at an index, which the loops move.
abbrev At : Redis → Run → ℕ → Type 0
At r run i =
    All (GroupDone r run.halt_on_error) (take i run.job_ids_by_group)
    × All (λ ids. ids ≡ []) (drop (i + 1) run.job_ids_by_group)

At-step :
    (r : Redis) (run : Run) (i : ℕ)
    → At r run i
    → GroupDone r run.halt_on_error (group_at run.job_ids_by_group i)
    → At r run (i + 1)
At-step r run i at done = (
  All-take_suc (GroupDone r run.halt_on_error) run.job_ids_by_group i [] at.0 done,
  All-drop_suc (λ ids. ids ≡ []) run.job_ids_by_group (i + 1) at.1,
)

At-skip :
    (r : Redis) (run : Run) (fuel idx : ℕ)
    → At r run idx
    → At r run (skip_empty fuel run.job_ids_by_group run.pending_group_rows idx)
At-skip r run fuel idx at =
    skip_empty-keeps run.job_ids_by_group run.pending_group_rows {Q = At r run}
      (λ i q nil. At-step r run i q (GroupDone-nil r run.halt_on_error _ nil)) fuel idx at

-- The jobs of a closed group: all finished, and none failed where that halts the run.
closed_group :
    (r : Redis) (halt : Bool) (ids : List String)
    → all is_terminal (map (job_state r) ids) ≡ true
    → (contains "FAILED" (map (job_state r) ids) && halt) ≡ false
    → GroupDone r halt ids
unfolding contains
closed_group r halt [] h k = tt
closed_group r halt (x ∷ ids) h k =
    ((ground arith, ground arith), closed_group r halt ids (ground arith) (ground arith))

-- What holds of each outcome of a tick over a run that is in order.
abbrev pub Ending : Redis → PlanRunStatus → Run → Type 0
Ending r run_completed run' = All (GroupDone r run'.halt_on_error) run'.job_ids_by_group
Ending r _ run' = Unit

abbrev pub Good : Redis → Advance → Type 0
Good r (saved r' run') = IsOrdered r' run'
Good r (finished run') = Ending r run'.status run'
Good r _ = Unit

At-end :
    (r : Redis) (run : Run) (i : ℕ)
    → At r run i
    → leb (length run.job_ids_by_group) i ≡ true
    → All (GroupDone r run.halt_on_error) run.job_ids_by_group
At-end r run i at le =
    All-of_take (GroupDone r run.halt_on_error) run.job_ids_by_group i (omega tests) at.0

IsOrdered-At :
    (r : Redis) (run : Run) (i : ℕ)
    → At r run i
    → IsOrdered r (record run { current_group_index = i })
IsOrdered-At r run i at = record { before = at.0; after = at.1 }

Good-if :
    (r : Redis) (b : Bool) (x y : Advance)
    → (b ≡ true → Good r x)
    → (b ≡ false → Good r y)
    → Good r (if b then x else y)
Good-if r true x y f g = f refl
Good-if r false x y f g = g refl

Good-next_group :
    (now : String) (r : Redis) (next : ℕ) (run : Run)
    → At r run next
    → Good r (next_group now r next run)
unfolding next_group
Good-next_group now r next run at =
    Good-if r (leb (length run.job_ids_by_group) next) (finished (complete now next run))
      (saved r (record run { current_group_index = next })) (At-end r run next at)
      (λ _. IsOrdered-At r run next at)

Good-close_group :
    (now : String) (r : Redis) (idx : ℕ) (run : Run)
    → At r run idx
    → all is_terminal (map (job_state r) (group_at run.job_ids_by_group idx)) ≡ true
    → Good r (close_group now r (map (job_state r) (group_at run.job_ids_by_group idx)) idx run)
unfolding close_group
Good-close_group now r idx run at over =
    let ids = group_at run.job_ids_by_group idx in
    Good-if r _ _ _ (λ halted. tt)
      λ goes_on.
        let done = closed_group r run.halt_on_error ids over goes_on in
        let next =
          skip_empty (length run.job_ids_by_group) run.job_ids_by_group run.pending_group_rows
            (idx + 1) in
        Good-if r (is_all_cancelled (map (job_state r) ids))
          (finished (record run { status = run_cancelled; finished_at = now }))
          (next_group now r next run) (λ cancelled. tt)
          λ _.
            Good-next_group now r next run
              (At-skip r run (length run.job_ids_by_group) (idx + 1) (At-step r run idx at done))

module _ (enqueue_fn : EnqueueFn) (k : KeepsFinished enqueue_fn) where
  GroupDone-keeps :
      (order : Order) (r r' : Redis) (result : Enqueued) (halt : Bool)
      → enqueue_fn order r ≡ enqueued r' result
      → (groups : List (List String)) → All (GroupDone r halt) groups
      → All (GroupDone r' halt) groups
  GroupDone-keeps order r r' result halt e groups =
      All-imp (GroupDone r halt) (GroupDone r' halt) groups λ ids.
        All-imp (JobDone r halt) (JobDone r' halt) ids
          λ id done. rw (k.keeps order r r' result id e done.0) done

  Good-after_enqueue :
      (r : Redis) (idx : ℕ) (run : Run) (order : Order) (reply : Reply)
      → enqueue_fn order r ≡ reply
      → At r run idx
      → Good r (after_enqueue idx run reply)
  unfolding after_enqueue record_assigned_targets
  Good-after_enqueue r idx run order (raised r') e at = tt
  Good-after_enqueue r idx run order (enqueued r' result) e at = record {
    before = rw take-set (GroupDone-keeps order r r' result run.halt_on_error e _ at.0);
    after = rw drop-set at.1;
  }

  Good-enqueue_group :
      (r : Redis) (idx : ℕ) (rows : List Row) (run : Run)
      → At r run idx
      → Good r (enqueue_group enqueue_fn r idx rows run)
  unfolding enqueue_group
  Good-enqueue_group r idx rows run at =
      Good-after_enqueue r idx run (group_order idx rows run) _ refl at

  Good-advance_group :
      (now : String) (r : Redis) (idx : ℕ) (run : Run)
      → At r run idx
      → Good r (advance_group enqueue_fn now r idx run)
  unfolding advance_group
  Good-advance_group now r idx run at =
      let ids = group_at run.job_ids_by_group idx in
      let rows = group_at run.pending_group_rows idx in
      let states = map (job_state r) ids in
      let passed : Advance = saved r (record run { current_group_index = idx + 1 }) in
      let enqueues = enqueue_group enqueue_fn r idx rows run in
      let closes = close_group now r states idx run in
      Good-if r (leb (length run.job_ids_by_group) idx) (finished (complete now idx run))
        (if is_nil ids
          then (if is_nil rows then passed else enqueues)
          else (if all is_terminal states then closes else waits))
        (At-end r run idx at)
        λ _.
          Good-if r (is_nil ids) (if is_nil rows then passed else enqueues)
            (if all is_terminal states then closes else waits)
            (λ no_jobs.
              Good-if r (is_nil rows) passed enqueues
                (λ _.
                  IsOrdered-At r run (idx + 1)
                    (At-step r run idx at (GroupDone-nil r run.halt_on_error ids no_jobs)))
                (λ _. Good-enqueue_group r idx rows run at))
            (λ _.
              Good-if r (all is_terminal states) closes waits (Good-close_group now r idx run at)
                (λ _. tt))

  Good-advance_run :
      (now : String) (r : Redis) (run : Run)
      → IsOrdered r run
      → Good r (advance_run enqueue_fn now r run)
  unfolding advance_run
  Good-advance_run now r run ordered = Good-advance_group now r _ run (
      At-skip r run (length run.job_ids_by_group) run.current_group_index
        (ordered.before, ordered.after))

-- A tick that saves the run keeps its groups in order, over every Redis state and with every
-- `enqueue_fn` that leaves finished jobs alone: the groups before the current one are done, with no
-- failed job under `halt_on_error`, and none behind it has jobs. So the jobs of a group are enqueued
-- only after all jobs of the groups before it are finished.
pub advance_run-IsOrdered :
    (enqueue_fn : EnqueueFn) (now : String) (r r' : Redis) (run run' : Run)
    → KeepsFinished enqueue_fn
    → IsOrdered r run
    → advance_run enqueue_fn now r run ≡ saved r' run'
    → IsOrdered r' run'
advance_run-IsOrdered enqueue_fn now r r' run run' k ordered e =
    subst (Good r) e (Good-advance_run enqueue_fn k now r run ordered)

-- A run in order that a tick ends as COMPLETED has all jobs of all its groups finished, and none of
-- them failed if the run halts on errors.
pub advance_run_completed :
    (enqueue_fn : EnqueueFn) (now : String) (r : Redis) (run run' : Run)
    → KeepsFinished enqueue_fn
    → IsOrdered r run
    → advance_run enqueue_fn now r run ≡ finished run'
    → run'.status ≡ run_completed
    → All (GroupDone r run'.halt_on_error) run'.job_ids_by_group
advance_run_completed enqueue_fn now r run run' k ordered e done =
    subst (λ s. Ending r s run') done
      (subst (Good r) e (Good-advance_run enqueue_fn k now r run ordered))
