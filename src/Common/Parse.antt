-- ===== src/Common/Parse.antt =====
-- `str.lower`, `in`, `split` and `int` of texts.
use Prim.Native.Char.{Char, code}
use Prim.Native.String as Str
use Prim.Native.String.{String, char_at, ◌++◌}
use Prim.Native.Nat.{ℕ, zero, suc, ◌+◌, ◌-◌, ◌*◌, ◌/◌, ◌%◌}
use mathlib.Core.Path.{◌≡◌, refl}
use mathlib.Core.Bool.{Bool, true, false, ◌&&◌, ◌||◌}
use mathlib.Core.Option.{Option, none, some}
use mathlib.Core.List.{List, [], ◌∷◌}
use text.Mathlib.Text.{find?}
use mathlib.Core.Logic.{inl, inr}
use restore_engine.Common.Tests.{leb, nat_same, Bool-cases, if◌then◌else◌}
use restore_engine.Common.Lists.{All}
use restore_engine.Common.Text.{strip, lstrip, rstrip}

lower_char : Char → Char
lower_char c =
    if leb 65 (code c) && leb (code c) 90
    then char_at "abcdefghijklmnopqrstuvwxyz" (code c - 65)
    else c

-- The ASCII letters. The other capitals have no lower case among the letters of the texts that the
-- program compares with.
unfoldable pub lower : String → String
unfolding lower_char
lower Str.[] = Str.[]
lower (Str.◌∷◌ c s) = Str.◌∷◌ (lower_char c) (lower s)

-- `part in s`
abbrev pub has_text : String → String → Bool
has_text part s = elim (find? s part) [ none ↦ false | some i ↦ true ]

-- The pieces of a text, the first of which is still open.
cons_piece : Char → List String → List String
cons_piece c [] = Str.◌∷◌ c Str.[] ∷ []
cons_piece c (p ∷ ps) = Str.◌∷◌ c p ∷ ps

-- `s.replace(",", ";").split(";")`
unfoldable pub split_tags : String → List String
unfolding cons_piece
split_tags Str.[] = Str.[] ∷ []
split_tags (Str.◌∷◌ c s) =
    let rest = split_tags s in
    if nat_same (code c) b',' || nat_same (code c) b';' then Str.[] ∷ rest else cons_piece c rest

digits : ℕ → String → Option ℕ
digits n Str.[] = some n
digits n (Str.◌∷◌ c s) =
    let rest = digits (n * 10 + (code c - 48)) s in
    if leb 48 (code c) && leb (code c) 57 then rest else none

some_digits : String → Option ℕ
unfolding digits
some_digits Str.[] = none
some_digits (Str.◌∷◌ c s) = digits 0 (Str.◌∷◌ c s)

-- `int(s)` of a decimal numeral; none for a ValueError and for a negative number, which the callers
-- treat alike. A sign `+` and the grouping by `_`, which `int` would allow, count as errors here.
unfoldable pub parse_int : String → Option ℕ
unfolding some_digits
parse_int s = some_digits (strip s)

-- The digits of a number in front of a text; `suc n` rounds are enough, since each divides by 10.
show_from : ℕ → ℕ → String → String
show_from zero n acc = acc
show_from (suc fuel) n acc =
    let acc' = Str.◌∷◌ (char_at "0123456789" (n % 10)) acc in
    let rest = show_from fuel (n / 10) acc' in if leb 10 n then rest else acc'

-- `str(n)`
unfoldable pub show : ℕ → String
unfolding show_from
show n = show_from (suc n) n ""

shows : (show 0 ≡ "0") × (show 8006 ≡ "8006")
unfolding show
shows = (refl, refl)

lowers : lower "QeMu-1" ≡ "qemu-1"
unfolding lower
lowers = refl

splits : split_tags "a;bc,;d" ≡ "a" ∷ "bc" ∷ "" ∷ "d" ∷ []
unfolding split_tags
splits = refl

parses : (parse_int " 104 " ≡ some 104) × (parse_int "" ≡ none) × (parse_int "1a" ≡ none)
unfolding parse_int strip lstrip rstrip
parses = (refl, refl, refl)

-- An f-string: its parts, one behind the other.
unfoldable pub concat : List String → String
concat [] = ""
concat (s ∷ parts) = s ++ concat parts

-- `s.split(c)` for one character.
unfoldable pub split_on : ℕ → String → List String
unfolding cons_piece
split_on sep Str.[] = Str.[] ∷ []
split_on sep (Str.◌∷◌ c s) =
    let rest = split_on sep s in if nat_same (code c) sep then Str.[] ∷ rest else cons_piece c rest

-- A text that `split` leaves whole.
abbrev pub IsWhole : ℕ → String → Type 0
IsWhole sep p = split_on sep p ≡ p ∷ []

IsWhole-cons_piece :
    (sep : ℕ) (c : Char) (ps : List String)
    → nat_same (code c) sep ≡ false
    → All (IsWhole sep) ps
    → All (IsWhole sep) (cons_piece c ps)
unfolding cons_piece split_on
IsWhole-cons_piece sep c [] other h = (rw other refl, tt)
IsWhole-cons_piece sep c (p ∷ ps) other h = (rw (other, h.0) refl, h.1)

pub split_on-IsWhole : (sep : ℕ) (s : String) → All (IsWhole sep) (split_on sep s)
unfolding split_on
split_on-IsWhole sep Str.[] = (refl, tt)
split_on-IsWhole sep (Str.◌∷◌ c s) =
    let rest = split_on-IsWhole sep s in
    elim (Bool-cases (nat_same (code c) sep)) [
      | inl same ↦ rw same (refl, rest)
      | inr other ↦ rw other (IsWhole-cons_piece sep c (split_on sep s) other rest)
    ]

-- `sep.join(parts)`
unfoldable pub join : String → List String → String
join sep [] = ""
join sep (s ∷ []) = s
join sep (s ∷ t ∷ parts) = s ++ (sep ++ join sep (t ∷ parts))

drop_dot : Char → String → String
drop_dot c Str.[] = if nat_same (code c) b'.' then Str.[] else Str.◌∷◌ c Str.[]
drop_dot c (Str.◌∷◌ d s) = Str.◌∷◌ c (Str.◌∷◌ d s)

-- `s.rstrip(".")`
unfoldable pub rstrip_dots : String → String
unfolding drop_dot
rstrip_dots Str.[] = Str.[]
rstrip_dots (Str.◌∷◌ c s) = drop_dot c (rstrip_dots s)
