-- ===== src/Groups/Order.antt =====
-- The sort of the selected VMIDs.
use restore_engine.Common.{
  ℕ, ◌<◌, ◌≡◌, refl, ◌∙◌, false, ◌||◌, List, [], ◌∷◌, All, keys, contains, leb, ◌==◌, nat_key,
  string_key, arith, inl, inr, Bool-cases,
}
use restore_engine.Groups.{Backup, insert_entry, sorted_entries}
use restore_engine.Groups.Best.{Entries, Unique}

-- `sorted_entries` keeps the entries, and brings their keys in order.
contains-insert_entry :
    (u : ℕ) (e : ℕ × Backup) (m : Entries)
    → contains u (keys (insert_entry e m)) ≡ ((e.0 == u) || contains u (keys m))
unfolding insert_entry contains
contains-insert_entry u e [] = refl
contains-insert_entry u e (f ∷ m) = ground (arith, contains-insert_entry u e m)

pub contains-sorted_entries :
    (u : ℕ) (m : Entries) → contains u (keys (sorted_entries m)) ≡ contains u (keys m)
unfolding sorted_entries contains
contains-sorted_entries u [] = refl
contains-sorted_entries u (e ∷ m) =
    ground (arith, contains-insert_entry u e (sorted_entries m), contains-sorted_entries u m)

module _ (P : ℕ × Backup → Type 0) where
  All-insert_entry : (e : ℕ × Backup) (m : Entries) → P e → All P m → All P (insert_entry e m)
  unfolding insert_entry
  All-insert_entry e [] pe h = (pe, tt)
  All-insert_entry e (f ∷ m) pe h = elim (Bool-cases (leb e.0 f.0)) [
    | inl first ↦ rw first (pe, h)
    | inr later ↦ rw later (h.0, All-insert_entry e m pe h.1)
  ]

  pub All-sorted_entries : (m : Entries) → All P m → All P (sorted_entries m)
  unfolding sorted_entries
  All-sorted_entries [] h = tt
  All-sorted_entries (e ∷ m) h =
      All-insert_entry e (sorted_entries m) h.0 (All-sorted_entries m h.1)

-- Strictly ascending numbers, each above `lo` where that is given.
abbrev pub Above : ℕ → List ℕ → Type 0
Above lo [] = Unit
Above lo (v ∷ vs) = (lo < v) × Above v vs

abbrev pub Ascending : List ℕ → Type 0
Ascending [] = Unit
Ascending (v ∷ vs) = Above v vs

Above-insert_entry :
    (lo : ℕ) (e : ℕ × Backup) (m : Entries)
    → lo < e.0
    → contains e.0 (keys m) ≡ false
    → Above lo (keys m)
    → Above lo (keys (insert_entry e m))
unfolding insert_entry contains
Above-insert_entry lo e [] lt new h = (lt, tt)
Above-insert_entry lo e (f ∷ m) lt new h = elim (Bool-cases (leb e.0 f.0)) [
  | inl first ↦ rw first (lt, (ground arith, h.1))
  | inr later ↦ rw later (h.0, Above-insert_entry f.0 e m (ground arith) (ground arith) h.1)
]

Ascending-insert_entry :
    (e : ℕ × Backup) (m : Entries)
    → contains e.0 (keys m) ≡ false
    → Ascending (keys m)
    → Ascending (keys (insert_entry e m))
unfolding insert_entry contains
Ascending-insert_entry e [] new h = tt
Ascending-insert_entry e (f ∷ m) new h = elim (Bool-cases (leb e.0 f.0)) [
  | inl first ↦ rw first (ground arith, h)
  | inr later ↦ rw later (Above-insert_entry f.0 e m (ground arith) (ground arith) h)
]

pub Ascending-sorted_entries : (m : Entries) → Unique m → Ascending (keys (sorted_entries m))
unfolding sorted_entries
Ascending-sorted_entries [] h = tt
Ascending-sorted_entries (e ∷ m) h =
    Ascending-insert_entry e (sorted_entries m) (contains-sorted_entries e.0 m ∙ h.0)
      (Ascending-sorted_entries m h.1)
