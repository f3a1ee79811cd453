-- ===== src/Vmids/Reference.antt =====
-- `allocate_sequential_free_vmids` without its loop, and what its callers rely on.
use restore_engine.Common.{
  ℕ, ◌-◌, zero, suc, ◌+◌, ◌<◌, ◌≤◌, ◌≡◌, refl, ap, sym, ◌∙◌, false, List, [], ◌∷◌, length, take,
  arith, tests, inl, inr, contains, nat_key, ltb, Bool-cases, if◌then◌else◌,
}
use native.Mathlib.Nat.{le_refl}
use restore_engine.Vmids.{
  Scan, scan, Allocation, allocated, exhausted, last_or, first_candidate, window, finish,
  allocate_sequential_free_vmids,
}
use restore_engine.Vmids.Loop.{free_ids, scan-eq-take}

-- The first `count` free ids of the window, and the id behind the last one; or the error.
abbrev pub choose : ℕ → List ℕ → Allocation
choose count free =
    if ltb (length free) count
    then exhausted
    else allocated (take count free) (last_or (take count free) 0 + 1)

abbrev pub candidates : List ℕ → ℕ → ℕ → List ℕ
candidates in_use desired_start count =
    free_ids in_use (first_candidate desired_start) (suc (window count))

abbrev pub reference : List ℕ → ℕ → ℕ → Allocation
reference in_use desired_start zero = allocated [] desired_start
reference in_use desired_start (suc n) = choose (suc n) (candidates in_use desired_start (suc n))

sub_zero : (n : ℕ) → n - 0 ≡ n
sub_zero n = omega arith

length-take_lt : (n : ℕ) (xs : List ℕ) → ltb (length (take n xs)) n ≡ ltb (length xs) n
length-take_lt zero xs = ground arith
length-take_lt (suc n) [] = refl
length-take_lt (suc n) (x ∷ xs) = ground (arith, length-take_lt n xs)

finish-eq-choose :
    (count : ℕ) (s : Scan) (free : List ℕ)
    → s.out ≡ take count free
    → finish count s ≡ choose count free
finish-eq-choose count s free e = rw (e, length-take_lt) refl

-- For every set of used ids, start and count, the result is that of the plain description: the
-- first `count` ids from `max(100, start)` on that are free, with the id behind the last of them;
-- the error exactly if the window of `max(5000, 250 * count) + 1` ids holds fewer; and no ids with
-- the unchanged start for a count of 0.
pub allocate_sequential-eq-reference :
    (in_use : List ℕ) (desired_start count : ℕ)
    → allocate_sequential_free_vmids in_use desired_start count
      ≡ reference in_use desired_start count
unfolding allocate_sequential_free_vmids
allocate_sequential-eq-reference in_use desired_start zero = refl
allocate_sequential-eq-reference in_use desired_start (suc n) =
    let e : ltb (suc n) 1 ≡ false = ground arith in
    let start : Scan = record { out = []; in_use = in_use; v = first_candidate desired_start } in
    let upper = first_candidate desired_start + window (suc n) in
    rw e (
      finish-eq-choose (suc n) (scan (suc (window (suc n))) (suc n) upper start) _ (
        scan-eq-take (suc (window (suc n))) (suc n) upper start (omega arith)
        ∙ ap (λ k. take k (candidates in_use desired_start (suc n))) (sub_zero (suc n))))

-- A strictly ascending list of ids, all at least `lo`, below `hi` and outside of `in_use`.
abbrev pub IsBatch : List ℕ → ℕ → ℕ → List ℕ → Type 0
IsBatch in_use lo hi [] = Unit
IsBatch in_use lo hi (x ∷ xs) =
    (lo ≤ x) × (x < hi) × (contains x in_use ≡ false) × IsBatch in_use (x + 1) hi xs

IsBatch-weaken :
    (in_use : List ℕ) (lo lo' hi : ℕ) (xs : List ℕ)
    → lo' ≤ lo
    → IsBatch in_use lo hi xs
    → IsBatch in_use lo' hi xs
IsBatch-weaken in_use lo lo' hi [] h b = tt
IsBatch-weaken in_use lo lo' hi (x ∷ xs) h b = (omega arith, b.1, b.2, b.3)

IsBatch-free_ids :
    (in_use : List ℕ) (k v hi : ℕ) → v + k ≤ hi → IsBatch in_use v hi (free_ids in_use v k)
unfolding free_ids
IsBatch-free_ids in_use zero v hi h = tt
IsBatch-free_ids in_use (suc k) v hi h = elim (Bool-cases (contains v in_use)) [
  | inl used ↦ rw used (
      IsBatch-weaken in_use (v + 1) v hi _ (omega arith)
        (IsBatch-free_ids in_use k (v + 1) hi (omega arith)))
  | inr free ↦
      rw free (omega arith, omega arith, free, IsBatch-free_ids in_use k (v + 1) hi (omega arith))
]

-- Below `last + 1` for the last id of the batch.
IsBatch-take :
    (n : ℕ) (in_use : List ℕ) (lo hi d : ℕ) (xs : List ℕ)
    → IsBatch in_use lo hi xs
    → d < lo
    → IsBatch in_use lo (last_or (take n xs) d + 1) (take n xs) × (d ≤ last_or (take n xs) d)
IsBatch-take zero in_use lo hi d xs b h = (tt, omega arith)
IsBatch-take (suc n) in_use lo hi d [] b h = (tt, omega arith)
IsBatch-take (suc n) in_use lo hi d (x ∷ xs) b h =
    let rest = IsBatch-take n in_use (x + 1) hi x xs b.3 (omega arith) in
    ((b.0, omega arith, b.2, rest.0), omega arith)

length-take_of_le : (n : ℕ) (xs : List ℕ) → n ≤ length xs → length (take n xs) ≡ n
length-take_of_le zero xs h = refl
length-take_of_le (suc n) [] h = absurd (omega arith)
length-take_of_le (suc n) (x ∷ xs) h = ap suc (length-take_of_le n xs (omega arith))

choose-IsBatch :
    (count : ℕ) (in_use : List ℕ) (lo hi : ℕ) (free ids : List ℕ) (next : ℕ)
    → 0 < lo
    → IsBatch in_use lo hi free
    → choose count free ≡ allocated ids next
    → (length ids ≡ count) × IsBatch in_use lo next ids
choose-IsBatch count in_use lo hi free ids next pos b e =
    elim (Bool-cases (ltb (length free) count)) [
      | inl few ↦ absurd (never (rw few at e))
      | inr enough ↦
          let e' : allocated (take count free) (last_or (take count free) 0 + 1)
              ≡ allocated ids next =
            rw enough at e in
          let same : take count free ≡ ids = cc in
          let after : last_or (take count free) 0 + 1 ≡ next = cc in
          rw (← same, ← after)
            (
              length-take_of_le count free (omega tests),
              (IsBatch-take count in_use lo hi 0 free b pos).0,
            )
    ]
  where
    never : exhausted ≡ allocated ids next → ⊥
    never p = cc

-- Whenever the call returns, it returns as many ids as were asked for, in strictly ascending order,
-- none in use, none below `max(100, start)` and each below the returned next id.
pub allocate_sequential-IsBatch :
    (in_use : List ℕ) (desired_start count : ℕ) (ids : List ℕ) (next : ℕ)
    → allocate_sequential_free_vmids in_use desired_start count ≡ allocated ids next
    → (length ids ≡ count) × IsBatch in_use (first_candidate desired_start) next ids
allocate_sequential-IsBatch in_use desired_start zero ids next e =
    let none_asked : reference in_use desired_start zero ≡ allocated ids next =
      sym (allocate_sequential-eq-reference in_use desired_start zero) ∙ e in
    let nil : [] ≡ ids = cc in rw (← nil) (refl, tt)
allocate_sequential-IsBatch in_use desired_start (suc n) ids next e =
    choose-IsBatch (suc n) in_use (first_candidate desired_start)
      (first_candidate desired_start + suc (window (suc n)))
      (candidates in_use desired_start (suc n)) ids next (omega arith)
      (IsBatch-free_ids in_use (suc (window (suc n))) _ _ (le_refl _))
      (sym (allocate_sequential-eq-reference in_use desired_start (suc n)) ∙ e)
