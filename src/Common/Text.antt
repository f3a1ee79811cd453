-- ===== src/Common/Text.antt =====
-- The methods of `str` that the program uses, over native texts.
use Prim.Native.Char.{Char, code}
use Prim.Native.String as Str
use restore_engine.Common.Tests.{leb, nat_same, if◌then◌else◌}
use Prim.Native.Nat.{ℕ}
use Prim.Native.String.{String}
use mathlib.Core.Path.{◌≡◌, refl}
use mathlib.Core.Bool.{Bool, ◌&&◌, ◌||◌}

-- `str.isspace` of one character.
pub is_space : ℕ → Bool
is_space c =
    (leb 9 c && leb c 13)
    || (leb 28 c && leb c 32)
    || nat_same c 133
    || nat_same c 160
    || nat_same c 5760
    || (leb 8192 c && leb c 8202)
    || nat_same c 8232
    || nat_same c 8233
    || nat_same c 8239
    || nat_same c 8287
    || nat_same c 12288

unfoldable pub lstrip : String → String
unfolding is_space
lstrip Str.[] = Str.[]
lstrip (Str.◌∷◌ c s) = let rest = lstrip s in if is_space (code c) then rest else Str.◌∷◌ c s

-- A space is kept only if something else stands behind it.
cons_rstrip : Char → String → String
unfolding is_space
cons_rstrip c Str.[] = if is_space (code c) then Str.[] else Str.◌∷◌ c Str.[]
cons_rstrip c (Str.◌∷◌ d s) = Str.◌∷◌ c (Str.◌∷◌ d s)

unfoldable pub rstrip : String → String
unfolding cons_rstrip
rstrip Str.[] = Str.[]
rstrip (Str.◌∷◌ c s) = cons_rstrip c (rstrip s)

unfoldable pub strip : String → String
unfolding lstrip rstrip
strip s = rstrip (lstrip s)

strip_both_ends : strip "  pve 1 " ≡ "pve 1"
unfolding strip
strip_both_ends = refl

strip_blank : strip "   " ≡ ""
unfolding strip
strip_blank = refl
