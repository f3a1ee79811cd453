-- ===== src/Runs/Progress.antt =====
-- A plan run ends: what a tick that saves the run uses up, and when a tick waits.
use restore_engine.Common.{
  ℕ, zero, suc, ◌+◌, ◌-◌, ◌*◌, ◌≤◌, ◌<◌, ◌≡◌, refl, String, Bool, true, false, not, ◌&&◌, List, [],
  ◌∷◌, map, all, contains, length-set, length, set, ltb, leb, ◌==◌, nat_key, string_key, arith,
  tests, inl, inr, Bool-cases, if◌then◌else◌,
}
use mathlib.Core.Path.{subst}
use restore_engine.States.{run_cancelled, is_terminal}
use restore_engine.Jobs.{Redis}
use restore_engine.Runs.{
  Row, Run, Order, EnqueueFn, Reply, enqueued, raised, Enqueued, record_assigned_targets,
}
use restore_engine.Runs.Tick.{
  Advance, waits, saved, finished, group_at, is_nil, skip_empty, job_state, enqueue_group,
  is_all_cancelled, halt, group_order, after_enqueue, next_group, close_group, advance_group,
  advance_run, complete,
}
use restore_engine.Runs.Ordered.{skip_empty-keeps}

-- Two ticks for each group from the current one on, and one less where its jobs are enqueued.
abbrev pub ticks_left : Run → ℕ
ticks_left run =
    2 * (length run.job_ids_by_group - run.current_group_index)
    + (if is_nil (group_at run.job_ids_by_group run.current_group_index) then 1 else 0)

skip_empty-ge :
    (jobs : List (List String)) (pending : List (List Row)) (fuel idx : ℕ)
    → idx ≤ skip_empty fuel jobs pending idx
skip_empty-ge jobs pending fuel idx =
    skip_empty-keeps jobs pending {Q = λ i. idx ≤ i} (λ i q _. omega arith) fuel idx (omega arith)

-- `enqueue_fn` creates at least one job for rows that are not empty.
pub record MakesJobs (enqueue_fn : EnqueueFn) : Type 0 where
  pub makes :
      (order : Order) (r r' : Redis) (result : Enqueued)
      → is_nil order.rows ≡ false
      → enqueue_fn order r ≡ enqueued r' result
      → is_nil result.job_ids ≡ false

-- A tick that saves leaves fewer ticks than `n`.
abbrev pub Uses : ℕ → Advance → Type 0
Uses n (saved r run) = ticks_left run < n
Uses n _ = Unit

Uses-if :
    (n : ℕ) (b : Bool) (x y : Advance)
    → (b ≡ true → Uses n x)
    → (b ≡ false → Uses n y)
    → Uses n (if b then x else y)
Uses-if n true x y f g = f refl
Uses-if n false x y f g = g refl

ticks_at :
    (run : Run) (i n : ℕ)
    → i < length run.job_ids_by_group
    → 2 * (length run.job_ids_by_group - i) ≤ n
    → ticks_left (record run { current_group_index = i + 1 }) < n
ticks_at run i n lt le = ground arith

group_at-set :
    (xs : List (List String)) (i : ℕ) (v : List String)
    → i < length xs
    → group_at (set xs i v) i ≡ v
group_at-set [] i v h = absurd (omega arith)
group_at-set (x ∷ xs) zero v h = refl
group_at-set (x ∷ xs) (suc i) v h = group_at-set xs i v (omega arith)

module _ (run : Run) where
  rounds_below :
      (idx : ℕ)
      → run.current_group_index ≤ idx
      → idx < length run.job_ids_by_group
      → is_nil (group_at run.job_ids_by_group idx) ≡ true
      → 2 * (length run.job_ids_by_group - idx) < ticks_left run
  rounds_below idx le lt nil = elim (Bool-cases (run.current_group_index == idx)) [
    | inl same ↦
        let e : run.current_group_index ≡ idx = ground arith in
        let here : is_nil (group_at run.job_ids_by_group run.current_group_index) ≡ true =
          rw e nil in
        rw here (omega arith)
    | inr behind ↦ ground arith
  ]

  Uses-next_group :
      (now : String) (r : Redis) (next : ℕ)
      → run.current_group_index < next
      → Uses (ticks_left run) (next_group now r next run)
  unfolding next_group
  Uses-next_group now r next lt =
      Uses-if (ticks_left run) (leb (length run.job_ids_by_group) next)
        (finished (complete now next run)) (saved r (record run { current_group_index = next }))
        (λ _. tt) (λ more. ground arith)

  Uses-close_group :
      (now : String) (r : Redis) (states : List String) (idx : ℕ)
      → run.current_group_index ≤ idx
      → Uses (ticks_left run) (close_group now r states idx run)
  unfolding close_group
  Uses-close_group now r states idx le =
      let jobs = run.job_ids_by_group in
      let next = skip_empty (length jobs) jobs run.pending_group_rows (idx + 1) in
      let ahead : run.current_group_index < next =
        omega (arith, skip_empty-ge jobs run.pending_group_rows (length jobs) (idx + 1)) in
      let cancels : Advance = finished (record run { status = run_cancelled; finished_at = now }) in
      Uses-if (ticks_left run) (contains "FAILED" states && run.halt_on_error)
        (finished (halt now states idx run))
        (if is_all_cancelled states then cancels else next_group now r next run) (λ _. tt)
        λ _.
          Uses-if (ticks_left run) (is_all_cancelled states) cancels (next_group now r next run)
            (λ _. tt) (λ _. Uses-next_group now r next ahead)

  module _ (enqueue_fn : EnqueueFn) (m : MakesJobs enqueue_fn) where
    Uses-after_enqueue :
        (r : Redis) (idx : ℕ) (rows : List Row) (reply : Reply)
        → enqueue_fn (group_order idx rows run) r ≡ reply
        → is_nil rows ≡ false
        → run.current_group_index ≤ idx
        → idx < length run.job_ids_by_group
        → is_nil (group_at run.job_ids_by_group idx) ≡ true
        → Uses (ticks_left run) (after_enqueue idx run reply)
    unfolding after_enqueue record_assigned_targets group_order
    Uses-after_enqueue r idx rows (raised r') e some_rows le lt nil = tt
    Uses-after_enqueue r idx rows (enqueued r' result) e some_rows le lt nil =
        let made : is_nil result.job_ids ≡ false =
          m.makes (group_order idx rows run) r r' result some_rows e in
        rw (length-set, group_at-set run.job_ids_by_group idx result.job_ids lt, made)
          (omega (arith, rounds_below idx le lt nil))

    Uses-advance_group :
        (now : String) (r : Redis) (idx : ℕ)
        → run.current_group_index ≤ idx
        → Uses (ticks_left run) (advance_group enqueue_fn now r idx run)
    unfolding advance_group enqueue_group
    Uses-advance_group now r idx le =
        let n = ticks_left run in
        let ids = group_at run.job_ids_by_group idx in
        let rows = group_at run.pending_group_rows idx in
        let states = map (job_state r) ids in
        let passed : Advance = saved r (record run { current_group_index = idx + 1 }) in
        let enqueues = enqueue_group enqueue_fn r idx rows run in
        let closes = close_group now r states idx run in
        Uses-if n (leb (length run.job_ids_by_group) idx) (finished (complete now idx run))
          (if is_nil ids
            then (if is_nil rows then passed else enqueues)
            else (if all is_terminal states then closes else waits))
          (λ _. tt)
          λ inside.
            let lt : idx < length run.job_ids_by_group = omega tests in
            Uses-if n (is_nil ids) (if is_nil rows then passed else enqueues)
              (if all is_terminal states then closes else waits)
              (λ no_jobs.
                Uses-if n (is_nil rows) passed enqueues
                  (λ _. ticks_at run idx n lt (omega (arith, rounds_below idx le lt no_jobs)))
                  (λ some_rows. Uses-after_enqueue r idx rows _ refl some_rows le lt no_jobs))
              (λ _.
                Uses-if n (all is_terminal states) closes waits
                  (λ _. Uses-close_group now r states idx le) (λ _. tt))

-- Each tick that saves a run uses up one of its ticks, of which a run with n groups has at most
-- 2 * n + 1: whatever the jobs do, a run is saved at most that often before it ends, as long as
-- `enqueue_fn` makes a job for each group with rows.
pub advance_run-ticks_left :
    (enqueue_fn : EnqueueFn) (now : String) (r r' : Redis) (run run' : Run)
    → MakesJobs enqueue_fn
    → advance_run enqueue_fn now r run ≡ saved r' run'
    → (ticks_left run' < ticks_left run) × (ticks_left run ≤ 2 * length run.job_ids_by_group + 1)
unfolding advance_run
advance_run-ticks_left enqueue_fn now r r' run run' m e =
    let jobs = run.job_ids_by_group in
    (
      subst (Uses (ticks_left run)) e (
          Uses-advance_group run enqueue_fn m now r _
            (skip_empty-ge jobs run.pending_group_rows (length jobs) run.current_group_index)),
      ground arith,
    )

abbrev pub is_waiting : Advance → Bool
is_waiting waits = true
is_waiting _ = false

next_group-acts :
    (now : String) (r : Redis) (next : ℕ) (run : Run)
    → is_waiting (next_group now r next run) ≡ false
unfolding next_group
next_group-acts now r next run = ground arith

close_group-acts :
    (now : String) (r : Redis) (states : List String) (idx : ℕ) (run : Run)
    → is_waiting (close_group now r states idx run) ≡ false
unfolding close_group next_group
close_group-acts now r states idx run = ground arith

enqueue_group-acts :
    (enqueue_fn : EnqueueFn) (r : Redis) (idx : ℕ) (rows : List Row) (run : Run)
    → is_waiting (enqueue_group enqueue_fn r idx rows run) ≡ false
unfolding enqueue_group
enqueue_group-acts enqueue_fn r idx rows run = after (enqueue_fn (group_order idx rows run) r)
  where
    after : (reply : Reply) → is_waiting (after_enqueue idx run reply) ≡ false
    after (raised r') = unfold after_enqueue in refl
    after (enqueued r' result) = unfold after_enqueue in refl

-- The group at which a tick over a run looks.
abbrev pub group_in_sight : Run → List String
group_in_sight run = group_at run.job_ids_by_group (
    skip_empty (length run.job_ids_by_group) run.job_ids_by_group run.pending_group_rows
      run.current_group_index)

-- As long as `enqueue_fn` makes a job for each group with rows: a tick leaves the run as it is exactly
-- if there is a group in sight with jobs of which one at least is not finished; and any other tick
-- ends the run, or stops with the exception of `enqueue_fn`, or saves the run with fewer ticks left.
pub advance_run-goes_on :
    (enqueue_fn : EnqueueFn) (now : String) (r : Redis) (run : Run)
    → MakesJobs enqueue_fn
    → let jobs = group_in_sight run in
      (is_waiting (advance_run enqueue_fn now r run) ≡ (
        ltb
          (skip_empty
            (length run.job_ids_by_group)
            run.job_ids_by_group
            run.pending_group_rows
            run.current_group_index)
          (length run.job_ids_by_group)
        && not (is_nil jobs)
        && not (all is_terminal (map (job_state r) jobs))))
      × Uses (ticks_left run) (advance_run enqueue_fn now r run)
unfolding advance_run advance_group
advance_run-goes_on enqueue_fn now r run m =
    let idx =
      skip_empty (length run.job_ids_by_group) run.job_ids_by_group run.pending_group_rows
        run.current_group_index in
    let rows = group_at run.pending_group_rows idx in
    (
      ground (
        arith,
        close_group-acts now r (map (job_state r) (group_in_sight run)) idx run,
        enqueue_group-acts enqueue_fn r idx rows run,
      ),
      Uses-advance_group run enqueue_fn m now r _ (
          skip_empty-ge run.job_ids_by_group run.pending_group_rows (length run.job_ids_by_group)
            run.current_group_index),
    )
