-- ===== src/Common/Lists.antt =====
-- Lists measured and indexed by native numbers, under the library's names.
use Prim.Native.Nat.{ℕ, zero, suc, ◌+◌, ◌≤◌}
use mathlib.Core.Path.{◌≡◌, refl, ap}
use mathlib.Core.Bool.{Bool, true, ◌&&◌}
use mathlib.Core.List.{List, [], ◌∷◌, ◌++◌}
use mathlib.Core.Option.{Option, none, some}
use native.Mathlib.Omega.{arith}
use native.Mathlib.Numerals.{add-one}
use restore_engine.Common.Tests.{if◌then◌else◌}

module _ {ℓ} {A : Type ℓ} where
  abbrev pub length : List A → ℕ
  length [] = 0
  length (x ∷ xs) = suc (length xs)

  abbrev pub get_elem? : List A → ℕ → Option A
  get_elem? [] i = none
  get_elem? (x ∷ xs) zero = some x
  get_elem? (x ∷ xs) (suc i) = get_elem? xs i

  -- A write out of bounds changes nothing.
  abbrev pub set : List A → ℕ → A → List A
  set [] i v = []
  set (x ∷ xs) zero v = v ∷ xs
  set (x ∷ xs) (suc i) v = x ∷ set xs i v

  abbrev pub get_or : List A → ℕ → A → A
  get_or [] i d = d
  get_or (x ∷ xs) zero d = x
  get_or (x ∷ xs) (suc i) d = get_or xs i d

  abbrev pub take : ℕ → List A → List A
  take zero xs = []
  take (suc n) [] = []
  take (suc n) (x ∷ xs) = x ∷ take n xs

  abbrev pub drop : ℕ → List A → List A
  drop zero xs = xs
  drop (suc n) [] = []
  drop (suc n) (x ∷ xs) = drop n xs

  -- The library's `filter` takes a decision; the program's tests are Boolean.
  abbrev pub filter : (A → Bool) → List A → List A
  filter p [] = []
  filter p (x ∷ xs) = let rest = filter p xs in if p x then x ∷ rest else rest

  abbrev pub all : (A → Bool) → List A → Bool
  all p [] = true
  all p (x ∷ xs) = p x && all p xs

  pub length-append : (xs ys : List A) → length (xs ++ ys) ≡ length xs + length ys
  length-append [] ys = omega arith
  length-append (x ∷ xs) ys = omega (arith, length-append xs ys)

-- A property of every element, which computes to tuples.
abbrev pub All {ℓ κ} : {A : Type ℓ} → (A → Type κ) → List A → Type κ
All P [] = Unit
All P (x ∷ xs) = P x × All P xs

module _ {ℓ κ} {A : Type ℓ} (P : A → Type κ) where
  pub All-append : (xs ys : List A) → All P xs → All P ys → All P (xs ++ ys)
  All-append [] ys h k = k
  All-append (x ∷ xs) ys h k = (h.0, All-append xs ys h.1 k)

module _ {ℓ κ μ} {A : Type ℓ} (P : A → Type κ) (Q : A → Type μ) where
  pub All-imp : (xs : List A) → ((x : A) → P x → Q x) → All P xs → All Q xs
  All-imp [] f h = tt
  All-imp (x ∷ xs) f h = (f x h.0, All-imp xs f h.1)

module _ {ℓ κ} {A : Type ℓ} (P : A → Type κ) where
  take-suc_lem :
      (xs : List A) (i : ℕ) (d : A)
      → All P (take i xs)
      → P (get_or xs i d)
      → All P (take (suc i) xs)
  take-suc_lem [] zero d h p = tt
  take-suc_lem [] (suc i) d h p = tt
  take-suc_lem (x ∷ xs) zero d h p = (p, tt)
  take-suc_lem (x ∷ xs) (suc i) d h p = (h.0, take-suc_lem xs i d h.1 p)

  pub All-take_suc :
      (xs : List A) (i : ℕ) (d : A)
      → All P (take i xs)
      → P (get_or xs i d)
      → All P (take (i + 1) xs)
  All-take_suc xs i d h p = rw add-one (take-suc_lem xs i d h p)

  drop-suc_lem : (xs : List A) (i : ℕ) → All P (drop i xs) → All P (drop (suc i) xs)
  drop-suc_lem [] zero h = tt
  drop-suc_lem [] (suc i) h = tt
  drop-suc_lem (x ∷ xs) zero h = h.1
  drop-suc_lem (x ∷ xs) (suc i) h = drop-suc_lem xs i h

  pub All-drop_suc : (xs : List A) (i : ℕ) → All P (drop i xs) → All P (drop (i + 1) xs)
  All-drop_suc xs i h = rw add-one (drop-suc_lem xs i h)

  -- A default that has the property stands for what is out of range.
  pub get_or_of_drop : (xs : List A) (i : ℕ) (d : A) → P d → All P (drop i xs) → P (get_or xs i d)
  get_or_of_drop [] zero d p h = p
  get_or_of_drop [] (suc i) d p h = p
  get_or_of_drop (x ∷ xs) zero d p h = h.0
  get_or_of_drop (x ∷ xs) (suc i) d p h = get_or_of_drop xs i d p h

  pub All-of_take : (xs : List A) (i : ℕ) → length xs ≤ i → All P (take i xs) → All P xs
  All-of_take [] i le h = tt
  All-of_take (x ∷ xs) zero le h = absurd (omega arith)
  All-of_take (x ∷ xs) (suc i) le h = (h.0, All-of_take xs i (omega arith) h.1)

module _ {ℓ κ} {A : Type ℓ} (P : A → Type κ) where
  pub All-take : (xs : List A) (i : ℕ) → All P xs → All P (take i xs)
  All-take xs zero h = tt
  All-take [] (suc i) h = tt
  All-take (x ∷ xs) (suc i) h = (h.0, All-take xs i h.1)

  pub All-drop : (xs : List A) (i : ℕ) → All P xs → All P (drop i xs)
  All-drop xs zero h = h
  All-drop [] (suc i) h = tt
  All-drop (x ∷ xs) (suc i) h = All-drop xs i h.1

module _ {ℓ} {A : Type ℓ} where
  pub take-set : (xs : List A) (i : ℕ) (v : A) → take i (set xs i v) ≡ take i xs
  take-set [] i v = refl
  take-set (x ∷ xs) zero v = refl
  take-set (x ∷ xs) (suc i) v = ap (λ l. x ∷ l) (take-set xs i v)

  drop-set-suc : (xs : List A) (i : ℕ) (v : A) → drop (suc i) (set xs i v) ≡ drop (suc i) xs
  drop-set-suc [] i v = refl
  drop-set-suc (x ∷ xs) zero v = refl
  drop-set-suc (x ∷ xs) (suc i) v = drop-set-suc xs i v

  pub drop-set : (xs : List A) (i : ℕ) (v : A) → drop (i + 1) (set xs i v) ≡ drop (i + 1) xs
  drop-set xs i v = rw add-one (drop-set-suc xs i v)

  pub length-set : (xs : List A) (i : ℕ) (v : A) → length (set xs i v) ≡ length xs
  length-set [] i v = refl
  length-set (x ∷ xs) zero v = refl
  length-set (x ∷ xs) (suc i) v = ap suc (length-set xs i v)
