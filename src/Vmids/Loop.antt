-- ===== src/Vmids/Loop.antt =====
-- The loop of `allocate_sequential_free_vmids` against the plain list of the free ids of its window.
use restore_engine.Common.{
  ℕ, zero, suc, ◌+◌, ◌-◌, ◌<◌, ◌≤◌, ◌≡◌, refl, ◌∙◌, true, false, List, [], ◌∷◌, ◌++◌, length,
  length-append, take, arith, tests, inl, inr, contains, nat_key, ltb, Bool-cases, if◌then◌else◌,
}
use mathlib.Core.List.{append-nil, append_assoc}
use restore_engine.Vmids.{Scan, visit, going, scan}

-- The ids of `v, v + 1, …, v + k - 1` that are not in use, in order.
unfoldable pub free_ids : List ℕ → ℕ → ℕ → List ℕ
unfolding contains
free_ids in_use v zero = []
free_ids in_use v (suc k) =
    let rest = free_ids in_use (v + 1) k in if contains v in_use then rest else v ∷ rest

-- Marking an id as used that lies below the window changes nothing in the window.
free_ids_below :
    (in_use : List ℕ) (x v k : ℕ) → x < v → free_ids (x ∷ in_use) v k ≡ free_ids in_use v k
unfolding free_ids
free_ids_below in_use x v zero h = refl
free_ids_below in_use x v (suc k) h =
    ground (arith, free_ids_below in_use x (v + 1) k (omega arith))

pub take-nil : (n : ℕ) → ◌≡◌ {A = List ℕ} (take n []) []
take-nil zero = refl
take-nil (suc n) = refl

take-cons_of_lt :
    (n m x : ℕ) (xs : List ℕ) → m < n → take (n - m) (x ∷ xs) ≡ x ∷ take (n - (m + 1)) xs
take-cons_of_lt n m x xs h = let e : n - m ≡ suc (n - (m + 1)) = omega arith in rw e refl

take-nil_of_le : (n m : ℕ) (xs : List ℕ) → n ≤ m → take (n - m) xs ≡ []
take-nil_of_le n m xs h = let e : n - m ≡ 0 = omega arith in rw e refl

collect_one :
    (count v k : ℕ) (out in_use : List ℕ)
    → length out < count
    → out ++ v ∷ [] ++ take (count - length (out ++ v ∷ [])) (free_ids (v ∷ in_use) (v + 1) k)
      ≡ out ++ take (count - length out) (v ∷ free_ids in_use (v + 1) k)
collect_one count v k out in_use lt = rw (
  length-append,
  free_ids_below in_use v (v + 1) k (omega arith),
  take-cons_of_lt count (length out) v (free_ids in_use (v + 1) k) lt,
  append_assoc,
)

-- The three ways in which a round of the loop goes on.
scan_stop :
    (k count upper : ℕ) (s : Scan) → ltb (length s.out) count ≡ false → scan k count upper s ≡ s
unfolding scan
scan_stop zero count upper s h = refl
scan_stop (suc k) count upper s h = rw h refl

scan_used :
    (k count upper : ℕ) (s : Scan)
    → going count upper s ≡ true
    → contains s.v s.in_use ≡ true
    → scan (suc k) count upper s ≡ scan k count upper (record s { v = s.v + 1 })
unfolding scan visit
scan_used k count upper s g used = rw (g, used) refl

scan_free :
    (k count upper : ℕ) (s : Scan)
    → going count upper s ≡ true
    → contains s.v s.in_use ≡ false
    → scan (suc k) count upper s
      ≡ scan k count upper
          (record { out = s.out ++ s.v ∷ []; in_use = s.v ∷ s.in_use; v = s.v + 1 })
unfolding scan visit
scan_free k count upper s g free = rw (g, free) refl

-- With fuel for the whole window the loop collects the first free ids, up to the count.
pub scan-eq-take :
    (k count upper : ℕ) (s : Scan)
    → s.v + k ≡ upper + 1
    → (scan k count upper s).out ≡ s.out ++ take (count - length s.out) (free_ids s.in_use s.v k)
unfolding free_ids
scan-eq-take zero count upper s h = unfold scan in rw (take-nil, append-nil)
scan-eq-take (suc k) count upper s h = elim (Bool-cases (ltb (length s.out) count)) [
  | inl more ↦ elim (Bool-cases (contains s.v s.in_use)) [
    | inl used ↦
        rw (scan_used k count upper s (ground arith) used, used)
          (scan-eq-take k count upper (record s { v = s.v + 1 }) (omega arith))
    | inr free ↦
        rw (scan_free k count upper s (ground arith) free, free)
          (scan-eq-take k count upper
              (record { out = s.out ++ s.v ∷ []; in_use = s.v ∷ s.in_use; v = s.v + 1 })
              (omega arith)
            ∙ collect_one count s.v k s.out s.in_use (omega tests))
  ]
  | inr enough ↦
      rw (scan_stop (suc k) count upper s enough)
        (rw (take-nil_of_le count (length s.out) _ (omega tests), append-nil))
]
