-- ===== src/Slots/Sequential.antt =====
-- What each slot operation does when no other worker interferes.
use restore_engine.Common.Int.{pos}
use restore_engine.Common.{ℕ, ◌+◌, ◌≡◌, true, false, ltb, arith, if◌then◌else◌}
use restore_engine.Slots.{Answers, try_acquire_slot}

-- On every branch: a claim is granted exactly if INCR is answered and fewer slots than the cap are in
-- use, and adds one slot; a claim that is refused leaves the counter, but one too high where the
-- roll-back is not answered.
pub try_acquire_exact :
    (a : Answers) (cap : ℕ) (slots : ℕ)
    → try_acquire_slot a cap (pos slots) ≡ (
        if a.first_ok
        then (if ltb slots cap
            then (pos (slots + 1), true)
            else (if a.second_ok then pos slots else pos (slots + 1), false))
        else (pos slots, false))
unfolding try_acquire_slot
try_acquire_exact a cap slots = ground arith
