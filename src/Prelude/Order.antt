-- ===== src/Prelude/Order.antt =====
-- The order of texts by code points, which is SQLite's BINARY collation of UTF-8 and Python's `<`
-- on `str`, and the comparisons of SQL on nullable texts: NULL makes each of them not true.
use Prim.Native.Char.{Char, code}
use Prim.Native.String.{String}
use mathlib.Core.Path.{◌≡◌, refl}
use mathlib.Core.Bool.{Bool, true, false}
use mathlib.Core.Option.{Option, none, some}
use native.Mathlib.Omega.{arith}
use text.Mathlib.TextEquality.{Char-path}
use pcomirror.Prelude.Tests.{ltb, if◌then◌else◌}

unfoldable pub text_lt : String → String → Bool
text_lt String.[] String.[] = false
text_lt String.[] (String.◌∷◌ d t) = true
text_lt (String.◌∷◌ c s) String.[] = false
text_lt (String.◌∷◌ c s) (String.◌∷◌ d t) =
    if ltb (code c) (code d) then true else if ltb (code d) (code c) then false else text_lt s t

-- a > b
abbrev pub text_gt : String → String → Bool
text_gt s t = text_lt t s

-- SQL's `a > b` on nullable columns.
abbrev pub newer : Option String → Option String → Bool
newer (some a) (some b) = text_lt b a
newer (some a) none = false
newer none b = false

-- SQL's `a >= b` on nullable columns.
abbrev pub not_older : Option String → Option String → Bool
not_older (some a) (some b) = elim (text_lt a b) [ true ↦ false | false ↦ true ]
not_older (some a) none = false
not_older none b = false

pub lt_irrefl : (s : String) → text_lt s s ≡ false
unfolding text_lt
lt_irrefl String.[] = refl
lt_irrefl (String.◌∷◌ c s) = ground (arith, lt_irrefl s)

pub lt_trans : (s t u : String) → text_lt s t ≡ true → text_lt t u ≡ true → text_lt s u ≡ true
unfolding text_lt
lt_trans String.[] String.[] u p q = cc
lt_trans String.[] (String.◌∷◌ d t) String.[] p q = cc
lt_trans String.[] (String.◌∷◌ d t) (String.◌∷◌ e u) p q = refl
lt_trans (String.◌∷◌ c s) String.[] u p q = cc
lt_trans (String.◌∷◌ c s) (String.◌∷◌ d t) String.[] p q = cc
lt_trans (String.◌∷◌ c s) (String.◌∷◌ d t) (String.◌∷◌ e u) p q = ground (arith, lt_trans s t u)

same_code : (c d : Char) → ltb (code c) (code d) ≡ false → ltb (code d) (code c) ≡ false → c ≡ d
same_code c d p q = Char-path c d (ground arith)

-- Neither is before the other only if they are equal.
pub lt_total : (s t : String) → text_lt s t ≡ false → text_lt t s ≡ false → s ≡ t
unfolding text_lt
lt_total String.[] String.[] p q = refl
lt_total String.[] (String.◌∷◌ d t) p q = cc
lt_total (String.◌∷◌ c s) String.[] p q = cc
lt_total (String.◌∷◌ c s) (String.◌∷◌ d t) p q = ground (arith, same_code c d, lt_total s t)

-- Two texts are not each before the other.
pub lt_asym : (s t : String) → text_lt s t ≡ true → text_lt t s ≡ false
lt_asym s t p = ground (arith, lt_trans s t s, lt_irrefl s)
