-- ===== src/Slots/Safety.antt =====
-- What holds in every reachable state of the workers and their counter.
use restore_engine.Common.Int.{ℤ, pos, incr, decr, is_neg, clip}
use restore_engine.Common.{
  ℕ, zero, suc, ◌≤◌, ◌≡◌, refl, false, some, List, [], ◌∷◌, get_elem?, set, arith,
}
use restore_engine.Slots.System.{
  Pc, idle, rolling_back, holding, clamping, System, claimed, released, Move, claim, roll_back,
  release, clamp, pick, start, Reach, here, next, sum_by, has_slot, counted, is_clamping, holders,
  sum_by-set, sum_by-idle, has_slot-le-counted,
}

-- The counter is the number of slots held and of increments not yet taken back, no worker is about
-- to clamp it, and the slots held are at most the limit.
pub record Inv (limit : ℕ) (s : System) : Type 0 where
  pub exact : s.slots ≡ pos (sum_by counted s.workers)
  pub no_clamp : sum_by is_clamping s.workers ≡ 0
  pub bounded : sum_by has_slot s.workers ≤ limit

start-Inv : (limit n : ℕ) → Inv limit (start n)
start-Inv limit n = record {
  exact = rw (sum_by-idle counted n refl) refl;
  no_clamp = sum_by-idle is_clamping n refl;
  bounded = omega (arith, sum_by-idle has_slot n refl);
}

sum_by-pos :
    (w : Pc → ℕ) (ps : List Pc) (i : ℕ) (p : Pc) → get_elem? ps i ≡ some p → w p ≤ sum_by w ps
unfolding sum_by
sum_by-pos w [] i p h = cc
sum_by-pos w (x ∷ ps) zero p h = ground arith
sum_by-pos w (x ∷ ps) (suc i) p h = omega (arith, sum_by-pos w ps i p h)

module _ {limit : ℕ} {s : System} (inv : Inv limit s) (i : ℕ) where
  Move-Inv :
      {p q : Pc} {n : ℤ}
      → get_elem? s.workers i ≡ some p
      → Move limit s.slots p n q
      → Inv limit (record { slots = n; workers = set s.workers i q })
  Move-Inv at (claim cap le) =
      let q = claimed cap (incr s.slots) in
      let c = sum_by-set counted s.workers i idle q at in
      let k = sum_by-set is_clamping s.workers i idle q at in
      let h = sum_by-set has_slot s.workers i idle q at in
      let fewer = has_slot-le-counted s.workers in
      record {
        exact = ground (arith, inv.exact, c);
        no_clamp = ground (arith, inv.no_clamp, k);
        bounded = ground (arith, inv.exact, inv.bounded, h, fewer);
      }
  Move-Inv at roll_back =
      let c = sum_by-set counted s.workers i rolling_back idle at in
      let k = sum_by-set is_clamping s.workers i rolling_back idle at in
      let h = sum_by-set has_slot s.workers i rolling_back idle at in
      record {
        exact = ground (arith, inv.exact, c);
        no_clamp = ground (arith, inv.no_clamp, k);
        bounded = ground (arith, inv.bounded, h);
      }
  Move-Inv at release =
      let q = released (decr s.slots) in
      let c = sum_by-set counted s.workers i holding q at in
      let k = sum_by-set is_clamping s.workers i holding q at in
      let h = sum_by-set has_slot s.workers i holding q at in
      record {
        exact = ground (arith, inv.exact, c);
        no_clamp = ground (arith, inv.exact, inv.no_clamp, c, k);
        bounded = ground (arith, inv.exact, inv.bounded, c, h);
      }
  Move-Inv at clamp =
      absurd (omega (arith, inv.no_clamp, sum_by-pos is_clamping s.workers i clamping at))

pub Reach-Inv : {limit n : ℕ} {s : System} → Reach limit n s → Inv limit s
Reach-Inv {limit} {n} here = start-Inv limit n
Reach-Inv (next r (pick i at mv)) = Move-Inv (Reach-Inv r) i at mv

-- Any number of worker processes, each claiming and releasing slots one Redis command at a time, in
-- any interleaving, with a limit of its own at each claim: at most as many slots are held as the
-- largest limit, the counter never falls below them, and it never goes negative.
pub slots_safe :
    {limit workers : ℕ} (s : System)
    → Reach limit workers s
    → (holders s ≤ limit) × (holders s ≤ clip s.slots) × (is_neg s.slots ≡ false)
unfolding holders
slots_safe s r =
    let inv = Reach-Inv r in
    (inv.bounded, rw inv.exact (has_slot-le-counted s.workers), rw inv.exact refl)

abbrev pub IsQuiet : List Pc → Type 0
IsQuiet [] = Unit
IsQuiet (p ∷ ps) = (p ≡ idle) × IsQuiet ps

sum_by-quiet : (ps : List Pc) → IsQuiet ps → sum_by counted ps ≡ 0
unfolding sum_by
sum_by-quiet [] h = refl
sum_by-quiet (p ∷ ps) h = ground (arith, sum_by-quiet ps h.1)

-- While every Redis command is answered and no worker process is killed or restarted, no slot leaks:
-- whatever the workers did before, in any interleaving, once all are idle the counter is 0 again.
pub no_slot_leaks :
    {limit workers : ℕ} (s : System) → Reach limit workers s → IsQuiet s.workers → s.slots ≡ pos 0
no_slot_leaks s r quiet = rw ((Reach-Inv r).exact, sum_by-quiet s.workers quiet) refl
