-- ===== src/Vmids/Room.antt =====
-- When `allocate_sequential_free_vmids` cannot fail.
use restore_engine.Common.{
  ℕ, zero, suc, ◌+◌, ◌≤◌, ◌≡◌, refl, ◌∙◌, false, List, [], ◌∷◌, length, take, arith, contains,
  nat_key, ltb, leb, ◌&&◌, if◌then◌else◌,
}
use restore_engine.Vmids.{
  allocated, last_or, first_candidate, window, allocate_sequential_free_vmids,
}
use restore_engine.Vmids.Loop.{free_ids}
use restore_engine.Vmids.Reference.{allocate_sequential-eq-reference}

abbrev in_window : ℕ → ℕ → ℕ → ℕ
in_window x v k = if leb v x && ltb x (v + k) then 1 else 0

-- One more used id takes at most one free id away, and only one from the window.
free_ids-cons :
    (in_use : List ℕ) (x k v : ℕ)
    → length (free_ids in_use v k) ≤ length (free_ids (x ∷ in_use) v k) + in_window x v k
unfolding free_ids contains
free_ids-cons in_use x zero v = omega arith
free_ids-cons in_use x (suc k) v = ground (arith, free_ids-cons in_use x k (v + 1))

length-free_ids_nil : (k v : ℕ) → k ≤ length (free_ids [] v k)
unfolding free_ids contains
length-free_ids_nil zero v = omega arith
length-free_ids_nil (suc k) v = omega (arith, length-free_ids_nil k (v + 1))

length-free_ids : (in_use : List ℕ) (v k : ℕ) → k ≤ length (free_ids in_use v k) + length in_use
length-free_ids [] v k = omega (arith, length-free_ids_nil k v)
length-free_ids (x ∷ in_use) v k =
    ground (arith, free_ids-cons in_use x k v, length-free_ids in_use v k)

-- While the used ids and the count together do not exceed the window, the call returns its ids: the
-- RuntimeError needs more than `window - count` guests.
pub allocate_sequential_total :
    (in_use : List ℕ) (desired_start count : ℕ)
    → length in_use + count ≤ window count + 1
    → (ids : List ℕ) × (next : ℕ) × (allocate_sequential_free_vmids in_use desired_start count
        ≡ allocated ids next)
allocate_sequential_total in_use desired_start zero h =
    ([], desired_start, allocate_sequential-eq-reference in_use desired_start zero)
allocate_sequential_total in_use desired_start (suc n) h =
    let free = free_ids in_use (first_candidate desired_start) (suc (window (suc n))) in
    let enough : ltb (length free) (suc n) ≡ false =
      ground
        (arith, length-free_ids in_use (first_candidate desired_start) (suc (window (suc n)))) in
    (
      take (suc n) free,
      last_or (take (suc n) free) 0 + 1,
      allocate_sequential-eq-reference in_use desired_start (suc n) ∙ rw enough refl,
    )
