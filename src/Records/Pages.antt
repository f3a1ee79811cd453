-- ===== src/Records/Pages.antt =====
-- A client that asks for page after page sees each item once.
use restore_engine.Common.{
  ℕ, zero, suc, ◌+◌, ◌-◌, ◌≤◌, ◌≡◌, refl, sym, ap, List, [], ◌∷◌, ◌++◌, length, take, drop, ltb,
  arith, inl, inr, Bool-cases, if◌then◌else◌,
}
use restore_engine.Records.{clamped, paginate}

-- The items of the pages from an offset on, as long as a page says that there is more.
abbrev pub read_pages {ℓ} : {A : Type ℓ} → ℕ → ℕ → ℕ → List A → List A
read_pages zero offset limit items = []
read_pages (suc fuel) offset limit items =
    let page = paginate items offset limit in
    let rest = read_pages fuel (offset + page.limit) limit items in
    if page.has_more then page.items ++ rest else page.items

clamped_pos : (limit : ℕ) → 1 ≤ clamped limit
clamped_pos limit = omega arith

module _ {ℓ} {A : Type ℓ} where
  take-append-drop : (n : ℕ) (xs : List A) → take n xs ++ drop n xs ≡ xs
  take-append-drop zero xs = refl
  take-append-drop (suc n) [] = refl
  take-append-drop (suc n) (x ∷ xs) = ap (λ l. x ∷ l) (take-append-drop n xs)

  take_all : (n : ℕ) (xs : List A) → length xs ≤ n → take n xs ≡ xs
  take_all zero [] h = refl
  take_all zero (x ∷ xs) h = absurd (omega (arith, h))
  take_all (suc n) [] h = refl
  take_all (suc n) (x ∷ xs) h = ap (λ l. x ∷ l) (take_all n xs (omega (arith, h)))

  length-drop : (n : ℕ) (xs : List A) → length (drop n xs) ≡ length xs - n
  length-drop zero xs = omega arith
  length-drop (suc n) [] = omega arith
  length-drop (suc n) (x ∷ xs) = omega (arith, length-drop n xs)

  drop-nil : (n : ℕ) → ◌≡◌ {A = List A} (drop n []) []
  drop-nil zero = refl
  drop-nil (suc n) = refl

  drop_all : (n : ℕ) (xs : List A) → length xs ≤ n → drop n xs ≡ []
  drop_all n [] h = drop-nil n
  drop_all zero (x ∷ xs) h = absurd (omega (arith, h))
  drop_all (suc n) (x ∷ xs) h = drop_all n xs (omega (arith, h))

  drop-drop : (m n k : ℕ) (xs : List A) → m + n ≡ k → drop n (drop m xs) ≡ drop k xs
  drop-drop zero n k xs e = ap (λ j. drop j xs) (omega (arith, e))
  drop-drop (suc m) n zero xs e = absurd (omega (arith, e))
  drop-drop (suc m) n (suc k) [] e = drop-nil n
  drop-drop (suc m) n (suc k) (x ∷ xs) e = drop-drop m n k xs (omega (arith, e))

  -- For every list, limit and offset: the pages read from the offset on, as long as each says that
  -- there is more, are together the items behind the offset, each once and in order. As many rounds as
  -- there are items are enough.
  pub read_pages_exact :
      (fuel offset limit : ℕ) (items : List A)
      → length items ≤ fuel + offset
      → read_pages fuel offset limit items ≡ drop offset items
  unfolding paginate
  read_pages_exact zero offset limit items h = sym (drop_all offset items (omega (arith, h)))
  read_pages_exact (suc fuel) offset limit items h =
      let n = clamped limit in
      let pos = clamped_pos limit in
      elim (Bool-cases (ltb (offset + n) (length items))) [
        | inl more ↦
            rw (more, read_pages_exact fuel (offset + n) limit items (omega (arith, pos, h)))
              (rw (← drop-drop offset n (offset + n) items refl)
                (take-append-drop n (drop offset items)))
        | inr last ↦
            let len = length-drop offset items in
            rw last (take_all n (drop offset items) (ground (arith, len)))
      ]
