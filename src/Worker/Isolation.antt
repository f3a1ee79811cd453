-- ===== src/Worker/Isolation.antt =====
-- The network of a restored guest: what `apply_network_isolation` changes.
use restore_engine.Common.{
  not, ◌&&◌, filter, String, ◌≡◌, refl, Bool, true, false, List, [], ◌∷◌, Option, none, some, ◌⊎◌,
  inl, inr, lookup, put, put_all, contains, keys, lookup-put, Bool-cases, ◌==◌, string_key,
  if◌then◌else◌, arith, All, eq_iff, ap, sym, suc, ◌∙◌,
}
use restore_engine.Common.Parse.{concat, join, has_text, split_on, IsWhole, split_on-IsWhole}
use Prim.Native.String.{◌++◌, find, len}
use text.Mathlib.Text.{starts_with}
use text.Mathlib.TextLemmas.{append_assoc}
use mathlib.Core.List.{◌++◌ as append}
use mathlib.Core.Path.{subst}
use mathlib.Core.Option.{some-injective}
use text.Mathlib.TextFind.{find_cases}
use restore_engine.Worker.Guest.{Items, unlinked, remapped, device_changes}

-- A device's text has a part.
abbrev pub HasPart : String → String → Type 0
HasPart wanted text = (u : String) × (v : String) × (text ≡ u ++ (wanted ++ v))

abbrev pub bridge_part : String → String
bridge_part bridge = concat ("bridge=" ∷ bridge ∷ [])

-- The options of a device, between commas, are some that name no bridge, and one that names this one.
abbrev pub OnBridge : String → String → Type 0
OnBridge bridge text =
    (options : List String) × (All (λ p. (starts_with p "bridge=" ≡ false) × IsWhole b',' p) options
      × (text ≡ join "," (append options (bridge_part bridge ∷ []))))

-- Something holds of every network device.
abbrev pub NetsHave : (String → Type 0) → Items → Type 0
NetsHave P items =
    (key val : String) → starts_with key "net" ≡ true → lookup key items ≡ some val → P val

not_found_past :
    (text wanted : String) → find text wanted ≡ suc (len text) → has_text wanted text ≡ true → ⊥
not_found_past text wanted miss h = ground (arith)

HasPart-has_text : (wanted text : String) → has_text wanted text ≡ true → HasPart wanted text
HasPart-has_text wanted text h = elim (find_cases text wanted) [
  | inl hit ↦ (hit.0, hit.1, hit.2)
  | inr miss ↦ absurd (not_found_past text wanted miss h)
]

HasPart-before : (u wanted text : String) → HasPart wanted text → HasPart wanted (u ++ text)
HasPart-before u wanted text h =
    (u ++ h.0, h.1, ap (λ t. u ++ t) h.2 ∙ sym (append_assoc u h.0 (wanted ++ h.1)))

-- The options that `remapped` keeps.
kept_options :
    (ps : List String)
    → All (IsWhole b',') ps
    → All
        (λ p. (starts_with p "bridge=" ≡ false) × IsWhole b',' p)
        (filter (λ p. not (p == "") && not (starts_with p "bridge=")) ps)
kept_options [] h = tt
kept_options (p ∷ ps) h = elim (Bool-cases (not (p == "") && not (starts_with p "bridge="))) [
  | inl kept ↦ rw kept ((ground arith, h.0), kept_options ps h.1)
  | inr dropped ↦ rw dropped (kept_options ps h.1)
]

OnBridge-remapped : (bridge text : String) → OnBridge bridge (remapped bridge text)
unfolding remapped
OnBridge-remapped bridge text =
    (_, (kept_options (split_on b',' text) (split_on-IsWhole b',' text), refl))

unlinked_part :
    (blank : Bool) (text : String)
    → HasPart "link_down=1" (concat (text ∷ (if blank then "link_down=1" else ",link_down=1") ∷ []))
unfolding concat
unlinked_part true text = HasPart-before text _ _ ("", "", refl)
unlinked_part false text = HasPart-before text _ _ (",", "", refl)

-- A device that is to be changed is as wanted afterwards, and one that is left is so already.
abbrev pub Settles : (String → Type 0) → (String → Option String) → Type 0
Settles P change =
    (text : String)
    → ((change text ≡ none) × P text) ⊎ ((v : String) × (change text ≡ some v) × P v)

pub Settles-unlinked : Settles (HasPart "link_down=1") unlinked
unfolding unlinked
Settles-unlinked text = elim (Bool-cases (has_text "link_down=1" text)) [
  | inl there ↦ inl (rw there refl, HasPart-has_text _ text there)
  | inr missing ↦ inr (_, rw missing refl, unlinked_part (text == "") text)
]

pub Settles-remapped :
    (bridge : String) → Settles (OnBridge bridge) (λ text. some (remapped bridge text))
Settles-remapped bridge text = inr (_, refl, OnBridge-remapped bridge text)

-- The devices that are as wanted already, or are to be changed.
abbrev Covered : (String → Type 0) → Items → Items → Type 0
Covered P items changes =
    (key val : String)
    → starts_with key "net" ≡ true
    → lookup key items ≡ some val
    → P val ⊎ (contains key (keys changes) ≡ true)

abbrev Changed : (String → Type 0) → Items → Type 0
Changed P = All (λ kv. P kv.1)

Covered-put :
    (P : String → Type 0) (k v : String) (items changes : Items)
    → P v
    → Covered P items ((k, v) ∷ changes)
    → Covered P (put k v items) changes
unfolding contains
Covered-put P k v items changes part covered key val net found = elim (Bool-cases (k == key)) [
  | inl same ↦
      inl
        (subst (P) (some-injective _ _ (sym (rw same at (lookup-put k key v items)) ∙ found)) part)
  | inr other ↦ elim (covered key val net (sym (rw other at (lookup-put k key v items)) ∙ found)) [
    | inl h ↦ inl h
    | inr among ↦ inr (rw other at among)
  ]
]

NetsHave-put_all :
    (P : String → Type 0) (changes items : Items)
    → Changed P changes
    → Covered P items changes
    → NetsHave P (put_all items changes)
unfolding put_all contains
NetsHave-put_all P [] items parts covered key val net found = elim (covered key val net found) [
  | inl h ↦ h
  | inr none_there ↦ cc
]
NetsHave-put_all P ((k, v) ∷ changes) items parts covered key val net found =
    NetsHave-put_all P changes (put k v items) parts.1
      (Covered-put P k v items changes parts.0 covered) key val net found

module _ (P : String → Type 0) (change : String → Option String) (settles : Settles P change) where
  Changed-device_changes : (items : Items) → Changed P (device_changes change items)
  unfolding device_changes
  Changed-device_changes [] = tt
  Changed-device_changes ((key, val) ∷ items) = elim (Bool-cases (starts_with key "net")) [
    | inr other ↦ rw other (Changed-device_changes items)
    | inl net ↦ elim (settles val) [
      | inl (same, h) ↦ rw (net, same) (Changed-device_changes items)
      | inr (v, new, h) ↦ rw (net, new) (h, Changed-device_changes items)
    ]
  ]

  contains-later :
      (k key u : String) (items : Items)
      → (k == key) ≡ false
      → contains key (keys (device_changes change items)) ≡ true
      → contains key (keys (device_changes change ((k, u) ∷ items))) ≡ true
  unfolding device_changes contains
  contains-later k key u items differ among = elim (Bool-cases (starts_with k "net")) [
    | inr other ↦ rw other among
    | inl net ↦ elim (settles u) [
      | inl (same, h) ↦ rw (net, same) among
      | inr (v, new, h) ↦ rw (net, new) (rw (differ, among) refl)
    ]
  ]

  Covered-device_changes : (items : Items) → Covered P items (device_changes change items)
  unfolding device_changes lookup contains
  Covered-device_changes [] key val net found = cc
  Covered-device_changes ((k, u) ∷ items) key val net found = elim (Bool-cases (k == key)) [
    | inl same ↦
        let e : u ≡ val = some-injective _ _ (rw same at found) in
        let n : starts_with k "net" ≡ true =
          ap (λ t. starts_with t "net") ((eq_iff k key).0 same) ∙ net in
        elim (settles u) [
          | inl (_, h) ↦ inl (subst (P) e h)
          | inr (v, new, h) ↦ inr (rw (n, new, same) refl)
        ]
    | inr differ ↦ elim (Covered-device_changes items key val net (rw differ at found)) [
      | inl h ↦ inl h
      | inr among ↦ inr (contains-later k key u items differ among)
    ]
  ]

  -- The devices of a guest whose config takes on the changes.
  pub NetsHave-changed : (items : Items) → NetsHave P (put_all items (device_changes change items))
  NetsHave-changed items =
      NetsHave-put_all P _ items (Changed-device_changes items) (Covered-device_changes items)
