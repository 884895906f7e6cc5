-- ===== src/Prelude/Split.antt =====
-- `str.strip`, `str.split(sep)` and `str.partition(sep)` for separators of one character.
use Prim.Native.Char.{Char, code}
use Prim.Native.Nat.{ℕ}
use Prim.Native.String.{String, ◌++◌}
use Prim.Native.String.append
use mathlib.Core.Path.{◌≡◌, refl, sym, ap, ◌∙◌}
use mathlib.Core.Bool.{Bool, true, false, ◌&&◌, ◌||◌}
use mathlib.Core.List.{List, [], ◌∷◌}
use mathlib.Core.Option.{Option, none, some}
use text.Mathlib.Text.{◌==◌}
use mathlib.Core.Logic.{inl, inr}
use native.Mathlib.Omega.{arith}
use text.Mathlib.TextEquality.{eq_iff}
use pcomirror.Prelude.Tests.{leb, if◌then◌else◌, Bool-cases}

-- The white space of Python's `str`, by its code points.
is_space : ℕ → Bool
is_space c =
    leb 9 c && leb c 13
    || leb 28 c && leb c 32
    || leb 133 c && leb c 133
    || leb 160 c && leb c 160
    || leb 5760 c && leb c 5760
    || leb 8192 c && leb c 8202
    || leb 8232 c && leb c 8233
    || leb 8239 c && leb c 8239
    || leb 8287 c && leb c 8287
    || leb 12288 c && leb c 12288

lstrip : String → String
lstrip String.[] = ""
lstrip (String.◌∷◌ c s) = if is_space (code c) then lstrip s else String.◌∷◌ c s

take_word : String → String
unfolding is_space
take_word String.[] = ""
take_word (String.◌∷◌ c s) = if is_space (code c) then "" else String.◌∷◌ c (take_word s)

-- `s.split()[0]`, of a text that is not blank.
unfoldable pub first_word : String → String
unfolding lstrip take_word
first_word s = take_word (lstrip s)

rstrip : String → String
rstrip String.[] = ""
rstrip (String.◌∷◌ c s) =
    let t = rstrip s in if is_space (code c) && t == "" then "" else String.◌∷◌ c t

unfoldable pub strip : String → String
unfolding is_space lstrip rstrip
strip s = lstrip (rstrip s)

prepend : Char → List String → List String
prepend c [] = String.◌∷◌ c "" ∷ []
prepend c (t ∷ ts) = String.◌∷◌ c t ∷ ts

is_char : ℕ → Char → Bool
is_char k c = leb k (code c) && leb (code c) k

-- The separator is given by its code point.
unfoldable pub split : ℕ → String → List String
unfolding prepend is_char
split k String.[] = "" ∷ []
split k (String.◌∷◌ c s) = let rest = split k s in if is_char k c then "" ∷ rest else prepend c rest

-- What follows the first separator, if there is one: `sep in s` and `s.partition(sep)[2]`.
unfoldable pub after_first : ℕ → String → Option String
unfolding is_char
after_first k String.[] = none
after_first k (String.◌∷◌ c s) = if is_char k c then some s else after_first k s

-- A text without white space in it.
unfoldable pub is_word : String → Bool
unfolding is_space
is_word String.[] = true
is_word (String.◌∷◌ c s) = if is_space (code c) then false else is_word s

take_word-append : (s t : String) → is_word s ≡ true → take_word (s ++ (" " ++ t)) ≡ s
unfolding is_word take_word
take_word-append String.[] t h = ap take_word (append.nil (" " ++ t) ∙ append.cons _ "" t)
take_word-append (String.◌∷◌ c s) t h =
    ap take_word (append.cons c s (" " ++ t))
    ∙ kept (is_space (code c)) (λ k. take_word-append s t k) h
  where
    kept :
        (b : Bool)
        → (is_word s ≡ true → take_word (s ++ (" " ++ t)) ≡ s)
        → (if b then false else is_word s) ≡ true
        → (if b then "" else String.◌∷◌ c (take_word (s ++ (" " ++ t)))) ≡ String.◌∷◌ c s
    kept true ih h = cc
    kept false ih h = ap (String.◌∷◌ c) (ih h)

lstrip-append :
    (c : Char) (s t : String)
    → is_word (String.◌∷◌ c s) ≡ true
    → lstrip (String.◌∷◌ c s ++ t) ≡ String.◌∷◌ c s ++ t
unfolding is_word lstrip
lstrip-append c s t h =
    ap lstrip (append.cons c s t) ∙ (kept (is_space (code c)) h ∙ sym (append.cons c s t))
  where
    kept :
        (b : Bool)
        → (if b then false else is_word s) ≡ true
        → (if b then lstrip (s ++ t) else String.◌∷◌ c (s ++ t)) ≡ String.◌∷◌ c (s ++ t)
    kept true h = cc
    kept false h = refl

-- The word before a blank is the first one.
pub first_word-append :
    (c : Char) (s t : String)
    → is_word (String.◌∷◌ c s) ≡ true
    → first_word (String.◌∷◌ c s ++ (" " ++ t)) ≡ String.◌∷◌ c s
unfolding first_word
first_word-append c s t h =
    ap take_word (lstrip-append c s (" " ++ t) h) ∙ take_word-append (String.◌∷◌ c s) t h

tail_of : String → String
tail_of String.[] = ""
tail_of (String.◌∷◌ c s) = s

pub append-cancel : (p a b : String) → p ++ a ≡ p ++ b → a ≡ b
unfolding tail_of
append-cancel String.[] a b e = sym (append.nil a) ∙ (e ∙ append.nil b)
append-cancel (String.◌∷◌ c p) a b e =
    append-cancel p a b (ap tail_of (sym (append.cons c p a) ∙ (e ∙ append.cons c p b)))

pub append-not_empty : (c : Char) (s t : String) → (String.◌∷◌ c s ++ t == "") ≡ false
append-not_empty c s t = ap (λ x. x == "") (append.cons c s t) ∙ not_nil (s ++ t)
  where
    not_nil : (x : String) → (String.◌∷◌ c x == "") ≡ false
    not_nil x = elim (Bool-cases (String.◌∷◌ c x == "")) [
      | inr f ↦ f
      | inl t ↦ (let bad : String.◌∷◌ c x ≡ "" = ground (arith, eq_iff (String.◌∷◌ c x) "") in cc)
    ]
