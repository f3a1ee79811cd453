-- ===== src/Groups/Best.antt =====
-- The dict of the newest backups: each VMID once, under its own key.
use restore_engine.Common.{
  ℕ, ◌≡◌, refl, ap, ◌∙◌, Bool, true, false, ◌&&◌, ◌||◌, List, [], ◌∷◌, Option, none, some, filter,
  All, keys, lookup, put, contains, ◌==◌, nat_key, string_key, arith, inl, inr, Bool-cases,
  if◌then◌else◌,
}
use restore_engine.Groups.{Backup, is_newer, best_from}

abbrev pub Entries : Type 0
Entries = List (ℕ × Backup)

-- Each key stands once, and the key of a backup is its VMID.
abbrev pub Unique : Entries → Type 0
Unique [] = Unit
Unique ((v, b) ∷ m) = (contains v (keys m) ≡ false) × Unique m

abbrev pub OwnKey : ℕ × Backup → Type 0
OwnKey e = e.1.row.vmid ≡ e.0

contains-put :
    (u v : ℕ) (b : Backup) (m : Entries)
    → contains u (keys (put v b m)) ≡ ((v == u) || contains u (keys m))
unfolding contains put
contains-put u v b [] = ground arith
contains-put u v b ((w, c) ∷ m) = ground (arith, contains-put u v b m)

Unique-put : (v : ℕ) (b : Backup) (m : Entries) → Unique m → Unique (put v b m)
unfolding put contains
Unique-put v b [] h = (refl, tt)
Unique-put v b ((w, c) ∷ m) h = elim (Bool-cases (w == v)) [
  | inl same ↦ rw same h
  | inr other ↦ rw other (ground (arith, contains-put w v b m, h.0), Unique-put v b m h.1)
]

OwnKey-put : (b : Backup) (m : Entries) → All OwnKey m → All OwnKey (put b.row.vmid b m)
unfolding put
OwnKey-put b [] h = (refl, tt)
OwnKey-put b ((w, c) ∷ m) h = elim (Bool-cases (w == b.row.vmid)) [
  | inl same ↦ let e : b.row.vmid ≡ w = ground arith in rw same (e, h.1)
  | inr other ↦ rw other (h.0, OwnKey-put b m h.1)
]

pub best_from-keys :
    (bs : List Backup) (m : Entries)
    → Unique m
    → All OwnKey m
    → Unique (best_from m bs) × All OwnKey (best_from m bs)
unfolding best_from
best_from-keys [] m u k = (u, k)
best_from-keys (b ∷ bs) m u k = elim (Bool-cases (is_newer b (lookup b.row.vmid m))) [
  | inl newer ↦
      rw (newer, best_from)
        (best_from-keys bs (put b.row.vmid b m) (Unique-put b.row.vmid b m u) (OwnKey-put b m k))
  | inr older ↦ rw (older, best_from) (best_from-keys bs m u k)
]

-- Whether the entry of a VMID is kept.
abbrev pub held : (ℕ × Backup → Bool) → ℕ → Option Backup → Bool
held p u none = false
held p u (some b) = p (u, b)

cons-key :
    (b : Bool) (u : ℕ) (e : ℕ × Backup) (m : Entries)
    → contains u (keys (if b then e ∷ m else m)) ≡ ((b && (e.0 == u)) || contains u (keys m))
unfolding contains
cons-key true u e m = refl
cons-key false u e m = refl

or_false : (b : Bool) → ((b && true) || false) ≡ b
or_false b = ground arith

and_false : (b c : Bool) → ((b && false) || c) ≡ c
and_false b c = ground arith

module _ (p : ℕ × Backup → Bool) where
  no_key-filter :
      (u : ℕ) (m : Entries) → contains u (keys m) ≡ false → contains u (keys (filter p m)) ≡ false
  unfolding contains
  no_key-filter u [] h = refl
  no_key-filter u (e ∷ m) h = ground (arith, no_key-filter u m)

  pub Unique-filter : (m : Entries) → Unique m → Unique (filter p m)
  Unique-filter [] h = tt
  Unique-filter ((v, b) ∷ m) h = elim (Bool-cases (p (v, b))) [
    | inl kept ↦ rw kept (no_key-filter v m h.0, Unique-filter m h.1)
    | inr dropped ↦ rw dropped (Unique-filter m h.1)
  ]

  pub OwnKey-filter : (m : Entries) → All OwnKey m → All OwnKey (filter p m)
  OwnKey-filter [] h = tt
  OwnKey-filter (e ∷ m) h = elim (Bool-cases (p e)) [
    | inl kept ↦ rw kept (h.0, OwnKey-filter m h.1)
    | inr dropped ↦ rw dropped (OwnKey-filter m h.1)
  ]

  pub contains-filter :
      (u : ℕ) (m : Entries) → Unique m → contains u (keys (filter p m)) ≡ held p u (lookup u m)
  unfolding contains lookup
  contains-filter u [] h = refl
  contains-filter u ((v, b) ∷ m) h =
      cons-key (p (v, b)) u (v, b) (filter p m) ∙ elim (Bool-cases (v == u)) [
        | inl same ↦
            let e : v ≡ u = ground arith in
            let gone : contains u (keys (filter p m)) ≡ false = rw (← e) (no_key-filter v m h.0) in
            let kept : p (v, b) ≡ p (u, b) = ap (λ x. p (x, b)) e in
            rw (same, gone) (or_false (p (v, b)) ∙ kept)
        | inr other ↦ rw other (and_false (p (v, b)) _ ∙ contains-filter u m h.1)
      ]
