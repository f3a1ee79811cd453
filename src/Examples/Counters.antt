-- ===== src/Examples/Counters.antt =====
-- Two workers that share one slot, and a claim and a release of one worker.
use restore_engine.Common.Int.{pos}
use restore_engine.Common.{◌≤◌, ◌≡◌, refl, Bool, true, false, [], ◌∷◌, arith, some}
use restore_engine.Slots.{Answers, release_slot, active_slots, cap_of, max_concurrent}
use restore_engine.Slots.System.{
  idle, holding, rolling_back, System, claim, roll_back, release, Reach, here, next, pick, holders,
}
use restore_engine.Slots.Safety.{slots_safe, no_slot_leaks}

abbrev answered : Answers
answered = record { first_ok = true; second_ok = true }

configured_limit : cap_of (some 4) (some 0) ≡ 1
unfolding cap_of max_concurrent
configured_limit = refl

never_below_zero : active_slots (release_slot answered (pos 0)) ≡ 0
unfolding active_slots release_slot
never_below_zero = refl

-- The first worker takes the slot; the second claims it too, and has not yet rolled back.
abbrev contended : System
contended = record { slots = pos 2; workers = holding ∷ rolling_back ∷ [] }

reached : Reach 1 2 contended
reached =
    next (next here (pick 0 refl (claim 1 (omega arith)))) (pick 1 refl (claim 1 (omega arith)))

abbrev all_done : System
all_done = record { slots = pos 0; workers = idle ∷ idle ∷ [] }

all_released : Reach 1 2 all_done
all_released = next (next reached (pick 1 refl roll_back)) (pick 0 refl release)

slots_safe_example :
    (holders contended ≤ 1) × (holders contended ≤ 2) × (◌≡◌ {A = Bool} false false)
slots_safe_example = slots_safe contended reached

no_slot_leaks_example : all_done.slots ≡ pos 0
no_slot_leaks_example = no_slot_leaks all_done all_released (refl, (refl, tt))
