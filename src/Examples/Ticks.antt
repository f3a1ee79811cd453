-- ===== src/Examples/Ticks.antt =====
-- One tick over the run of the test data, up to its end.
use restore_engine.Common.{
  not, ◌+◌, ◌*◌, ◌<◌, ◌≤◌, ◌≡◌, refl, true, [], ◌∷◌, map, all, All, lookup, contains,
}
use restore_engine.States.{run_completed, is_terminal}
use restore_engine.Jobs.{Redis, hget, hgetall}
use restore_engine.Runs.{Run, record_assigned_targets}
use restore_engine.Runs.Tick.{
  saved, finished, skip_empty, complete, after_enqueue, enqueue_group, next_group, is_all_cancelled,
  close_group, advance_group, advance_run, job_state,
}
use restore_engine.Runs.Ordered.{GroupDone, IsOrdered, KeepsFinished}
use restore_engine.Runs.Ordered.Kept.{advance_run-IsOrdered, advance_run_completed}
use restore_engine.Runs.Progress.{
  MakesJobs, ticks_left, Uses, is_waiting, advance_run-ticks_left, advance_run-goes_on,
}
use restore_engine.Examples.{run_one, a_completed, redis_with, enqueue_b}

-- The second group is next, and then its job "b" is there.
abbrev run_two : Run
run_two = record run_one { current_group_index = 1 }

abbrev run_three : Run
run_three = record run_two {
  job_ids_by_group = ("a" ∷ []) ∷ ("b" ∷ []) ∷ [];
  assigned_targets = record { vmid = 101; node = "pve1" } ∷ [];
  next_vmid = 102;
}

abbrev both_completed : Redis
both_completed =
    redis_with (("a", ("state", "COMPLETED") ∷ []) ∷ ("b", ("state", "COMPLETED") ∷ []) ∷ [])

abbrev run_end : Run
run_end = record run_three { status = run_completed; finished_at = "t3"; current_group_index = 2 }

closes_first : advance_run enqueue_b "t1" a_completed run_one ≡ saved a_completed run_two
unfolding advance_run advance_group close_group next_group skip_empty is_all_cancelled hget hgetall
    lookup contains
closes_first = refl

enqueues_second : advance_run enqueue_b "t2" a_completed run_two ≡ saved a_completed run_three
unfolding advance_run advance_group enqueue_group after_enqueue skip_empty record_assigned_targets
enqueues_second = refl

ends : advance_run enqueue_b "t3" both_completed run_three ≡ finished run_end
unfolding advance_run advance_group close_group next_group complete skip_empty is_all_cancelled hget
    hgetall lookup contains
ends = refl

keeps : KeepsFinished enqueue_b
keeps = record { keeps = λ order r r' result id e over. let same : r ≡ r' = cc in rw same refl }

makes : MakesJobs enqueue_b
makes = record { makes = λ order r r' result some_rows e. cc }

one_in_order : IsOrdered a_completed run_one
one_in_order = record { before = tt; after = (refl, tt) }

three_in_order : IsOrdered both_completed run_three
unfolding hget hgetall lookup
three_in_order = record { before = (((refl, refl), tt), tt); after = tt }

advance_run-IsOrdered_example : IsOrdered a_completed run_two
advance_run-IsOrdered_example =
    advance_run-IsOrdered enqueue_b "t1" a_completed a_completed run_one run_two keeps one_in_order
      closes_first

advance_run_completed_example : All (GroupDone both_completed true) (("a" ∷ []) ∷ ("b" ∷ []) ∷ [])
advance_run_completed_example =
    advance_run_completed enqueue_b "t3" both_completed run_three run_end keeps three_in_order ends
      refl

advance_run-ticks_left_example :
    (ticks_left run_three < ticks_left run_two) × (ticks_left run_two ≤ 2 * 2 + 1)
advance_run-ticks_left_example =
    advance_run-ticks_left enqueue_b "t2" a_completed a_completed run_two run_three makes
      enqueues_second

advance_run-goes_on_example :
    (is_waiting (advance_run enqueue_b "t3" a_completed run_three)
      ≡ not (all is_terminal (map (job_state a_completed) ("b" ∷ []))))
    × Uses (ticks_left run_three) (advance_run enqueue_b "t3" a_completed run_three)
unfolding skip_empty
advance_run-goes_on_example = advance_run-goes_on enqueue_b "t3" a_completed run_three makes
