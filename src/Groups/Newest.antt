-- ===== src/Groups/Newest.antt =====
-- Which backup of a guest `best` keeps: the newest of those that the loop has seen.
use Prim.Native.String as Str
use Prim.Native.String.compare
use Prim.Native.String.{String, compare, then as first_of}
use Prim.Native.Char.{code}
use Prim.Native.Nat.{compare as compare_nat}
use text.Mathlib.Text.{is_lt}
use text.Mathlib.TextPositions.{compare_refl}
use restore_engine.Common.{
  ℕ, ◌≡◌, refl, sym, ap, ◌∙◌, Bool, true, false, ◌&&◌, List, [], ◌∷◌, Option, none, some, ◌⊎◌, inl,
  inr, lookup, put, lookup-put, ◌==◌, nat_key, arith, Bool-cases, if◌then◌else◌,
}
use mathlib.Core.Path.{subst}
use restore_engine.Groups.{Backup, is_newer, best_from}
use restore_engine.Groups.Best.{Entries}

lt_trans :
    (a b c : String)
    → is_lt (compare a b) ≡ true
    → is_lt (compare b c) ≡ true
    → is_lt (compare a c) ≡ true
lt_trans Str.[] Str.[] c h k = k
lt_trans Str.[] (Str.◌∷◌ y b) Str.[] h k = sym (ap is_lt (compare.cons-nil y b)) ∙ k
lt_trans Str.[] (Str.◌∷◌ y b) (Str.◌∷◌ z c) h k = ap is_lt (compare.nil-cons z c)
lt_trans (Str.◌∷◌ x a) Str.[] c h k =
    let never : false ≡ true = sym (ap is_lt (compare.cons-nil x a)) ∙ h in cc
lt_trans (Str.◌∷◌ x a) (Str.◌∷◌ y b) Str.[] h k =
    let never : false ≡ true = sym (ap is_lt (compare.cons-nil y b)) ∙ k in cc
lt_trans (Str.◌∷◌ x a) (Str.◌∷◌ y b) (Str.◌∷◌ z c) h k =
    let h' : is_lt (first_of (compare_nat (code x) (code y)) (compare a b)) ≡ true =
      sym (ap is_lt (compare.cons-cons x y a b)) ∙ h in
    let k' : is_lt (first_of (compare_nat (code y) (code z)) (compare b c)) ≡ true =
      sym (ap is_lt (compare.cons-cons y z b c)) ∙ k in
    let rest : is_lt (first_of (compare_nat (code x) (code z)) (compare a c)) ≡ true =
      ground (arith, lt_trans a b c) in
    ap is_lt (compare.cons-cons x z a c) ∙ rest

-- A backup is not newer than one of the same guest that is newer than one it is not newer than.
later_stays :
    (a b c : Backup) (same : Bool)
    → is_lt (compare a.row.timestamp b.row.timestamp) ≡ true
    → (same && is_lt (compare a.row.timestamp c.row.timestamp)) ≡ false
    → (same && is_lt (compare b.row.timestamp c.row.timestamp)) ≡ false
later_stays a b c same ab ac =
    ground (arith, lt_trans a.row.timestamp b.row.timestamp c.row.timestamp)

never_newer : (b : Backup) → is_lt (compare b.row.timestamp b.row.timestamp) ≡ false
never_newer b = rw (compare_refl b.row.timestamp) refl

-- The backup `c` is one of the guest, and newer than `b`.
abbrev pub newer_of : ℕ → Backup → Backup → Bool
newer_of v b c = c.row.vmid == v && is_lt (compare b.row.timestamp c.row.timestamp)

-- What is kept of a guest, where `S` says which backups were seen.
abbrev pub Kept : (Backup → Type 0) → ℕ → Option Backup → Type 0
Kept S v none = (c : Backup) → S c → (c.row.vmid == v) ≡ false
Kept S v (some b) = S b × (b.row.vmid ≡ v) × ((c : Backup) → S c → newer_of v b c ≡ false)

-- One more backup is seen.
abbrev And : (Backup → Type 0) → Backup → Backup → Type 0
And S b c = S c ⊎ (b ≡ c)

Kept-other :
    (S : Backup → Type 0) (b : Backup) (v : ℕ) (o : Option Backup)
    → (b.row.vmid == v) ≡ false
    → Kept S v o
    → Kept (And S b) v o
Kept-other S b v none other h =
    λ c seen. elim seen [ inl s ↦ h c s | inr same ↦ ap (λ x. x.row.vmid == v) (sym same) ∙ other ]
Kept-other S b v (some a) other (seen_a, own, h) = (
  inl seen_a,
  own,
  λ c seen. elim seen [
    | inl s ↦ h c s
    | inr same ↦ subst (λ x. newer_of v a x ≡ false) same (rw other refl)
  ],
)

Kept-newer :
    (S : Backup → Type 0) (b : Backup) (o : Option Backup)
    → is_newer b o ≡ true
    → Kept S b.row.vmid o
    → Kept (And S b) b.row.vmid (some b)
Kept-newer S b o newer h = (
  inr refl,
  refl,
  λ c seen. elim seen [
    | inl s ↦ earlier o newer h c s
    | inr same ↦ subst (λ x. newer_of b.row.vmid b x ≡ false) same (ground (arith, never_newer b))
  ],
)
  where
    earlier :
        (o : Option Backup)
        → is_newer b o ≡ true
        → Kept S b.row.vmid o
        → (c : Backup) → S c
        → newer_of b.row.vmid b c ≡ false
    earlier none newer h c s = rw (h c s) refl
    earlier (some a) newer (_, _, h) c s = later_stays a b c _ newer (h c s)

Kept-older :
    (S : Backup → Type 0) (b : Backup) (o : Option Backup)
    → is_newer b o ≡ false
    → Kept S b.row.vmid o
    → Kept (And S b) b.row.vmid o
Kept-older S b none older h = cc
Kept-older S b (some a) older (seen_a, own, h) = (
  inl seen_a,
  own,
  λ c seen. elim seen [
    | inl s ↦ h c s
    | inr same ↦ subst (λ x. newer_of b.row.vmid a x ≡ false) same (ground arith)
  ],
)

abbrev pub AllKept : (Backup → Type 0) → Entries → Type 0
AllKept S m = (v : ℕ) → Kept S v (lookup v m)

AllKept-newer :
    (S : Backup → Type 0) (b : Backup) (m : Entries)
    → is_newer b (lookup b.row.vmid m) ≡ true
    → AllKept S m
    → AllKept (And S b) (put b.row.vmid b m)
AllKept-newer S b m newer h v =
    subst (Kept (And S b) v) (sym (lookup-put b.row.vmid v b m))
      (elim (Bool-cases (b.row.vmid == v)) [
        | inl same ↦
            let e : b.row.vmid ≡ v = ground arith in
            rw same (
              subst (λ u. Kept (And S b) u (some b)) e
                (Kept-newer S b (lookup b.row.vmid m) newer (h b.row.vmid)))
        | inr other ↦ rw other (Kept-other S b v (lookup v m) other (h v))
      ])

AllKept-older :
    (S : Backup → Type 0) (b : Backup) (m : Entries)
    → is_newer b (lookup b.row.vmid m) ≡ false
    → AllKept S m
    → AllKept (And S b) m
AllKept-older S b m older h v = elim (Bool-cases (b.row.vmid == v)) [
  | inl same ↦
      let e : b.row.vmid ≡ v = ground arith in
      subst (λ u. Kept (And S b) u (lookup u m)) e
        (Kept-older S b (lookup b.row.vmid m) older (h b.row.vmid))
  | inr other ↦ Kept-other S b v (lookup v m) other (h v)
]

-- A backup is one of a list.
abbrev pub Among : Backup → List Backup → Type 0
Among c [] = ⊥
Among c (b ∷ bs) = (b ≡ c) ⊎ Among c bs

pub Kept-same :
    (S T : Backup → Type 0) (v : ℕ) (o : Option Backup)
    → ((c : Backup) → S c → T c)
    → ((c : Backup) → T c → S c)
    → Kept S v o
    → Kept T v o
Kept-same S T v none to from h = λ c t. h c (from c t)
Kept-same S T v (some b) to from (seen, own, h) = (to b seen, own, λ c t. h c (from c t))

pub best_from-AllKept :
    (bs : List Backup) (S : Backup → Type 0) (m : Entries)
    → AllKept S m
    → AllKept (λ c. S c ⊎ Among c bs) (best_from m bs)
unfolding best_from
best_from-AllKept [] S m h v =
    Kept-same S (λ c. S c ⊎ ⊥) v (lookup v m) (λ c s. inl s)
      (λ c t. elim t [ inl s ↦ s | inr never ↦ absurd never ]) (h v)
best_from-AllKept (b ∷ bs) S m h v =
    let m' = if is_newer b (lookup b.row.vmid m) then put b.row.vmid b m else m in
    let step : AllKept (And S b) m' = elim (Bool-cases (is_newer b (lookup b.row.vmid m))) [
      | inl newer ↦ rw newer (AllKept-newer S b m newer h)
      | inr older ↦ rw older (AllKept-older S b m older h)
    ] in
    Kept-same (λ c. And S b c ⊎ Among c bs) (λ c. S c ⊎ Among c (b ∷ bs)) v
      (lookup v (best_from m' bs))
      (λ c t. elim t [
        | inl seen ↦ elim seen [ inl s ↦ inl s | inr same ↦ inr (inl same) ]
        | inr later ↦ inr (inr later)
      ])
      (λ c t. elim t [
        | inl s ↦ inl (inl s)
        | inr among ↦ elim among [ inl same ↦ inl (inr same) | inr later ↦ inr later ]
      ])
      (best_from-AllKept bs (And S b) m' step v)
