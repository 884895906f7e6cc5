-- ===== src/Text.antt =====
-- The methods of Python's `str` that cors.py and apikeys.py use, over ASCII where they fold letters.
use Prim.Native.Char.{Char, code}
use Prim.Native.String.{◌++◌}
use pcomirror.Prelude.{
  ℕ, zero, suc, String, Bool, true, false, List, [], ◌∷◌, ◌==◌, ◌&&◌, if◌then◌else◌, leb, length,
  codes, contains, strip, split,
}

-- The letter of the second alphabet at the place of `c` in the first one.
unfoldable pub exchange : String → String → Char → Char
exchange String.[] _ c = c
exchange _ String.[] c = c
exchange (String.◌∷◌ u us) (String.◌∷◌ l ls) c =
    if leb (code u) (code c) && leb (code c) (code u) then l else exchange us ls c

unfoldable pub map_text : (Char → Char) → String → String
map_text f String.[] = ""
map_text f (String.◌∷◌ c s) = String.◌∷◌ (f c) (map_text f s)

abbrev capitals : String
capitals = "ABCDEFGHIJKLMNOPQRSTUVWXYZ"

abbrev smalls : String
smalls = "abcdefghijklmnopqrstuvwxyz"

unfoldable pub lower : String → String
unfolding map_text exchange
lower = map_text (exchange capitals smalls)

unfoldable pub upper : String → String
unfolding map_text exchange
upper = map_text (exchange smalls capitals)

unfoldable pub starts_with : String → String → Bool
starts_with String.[] s = true
starts_with (String.◌∷◌ c p) String.[] = false
starts_with (String.◌∷◌ c p) (String.◌∷◌ d s) =
    if leb (code c) (code d) && leb (code d) (code c) then starts_with p s else false

unfoldable pub ends_with : String → String → Bool
ends_with p String.[] = p == ""
ends_with p (String.◌∷◌ c s) = if String.◌∷◌ c s == p then true else ends_with p s

unfoldable pub drop_text : ℕ → String → String
drop_text zero s = s
drop_text (suc n) String.[] = ""
drop_text (suc n) (String.◌∷◌ c s) = drop_text n s

unfoldable pub take_text : ℕ → String → String
take_text zero s = ""
take_text (suc n) String.[] = ""
take_text (suc n) (String.◌∷◌ c s) = String.◌∷◌ c (take_text n s)

unfoldable pub size : String → ℕ
size s = length (codes s)

-- `s.partition("://")`, without the separator.
unfoldable pub cut_scheme : String → String × String
unfolding starts_with drop_text
cut_scheme String.[] = ("", "")
cut_scheme (String.◌∷◌ c s) =
    let (scheme, rest) = cut_scheme s in
    if starts_with "://" (String.◌∷◌ c s)
    then ("", drop_text 3 (String.◌∷◌ c s))
    else (String.◌∷◌ c scheme, rest)

-- `tuple(dict.fromkeys(ts))`: each text once, where it came first.
unfoldable pub unique_in : List String → List String → List String
unique_in seen [] = []
unique_in seen (t ∷ ts) =
    let skip = unique_in seen ts in
    let keep = unique_in (t ∷ seen) ts in if contains seen t then skip else t ∷ keep

unfoldable pub unique : List String → List String
unfolding unique_in
unique ts = unique_in [] ts

unfoldable pub strip_all : List String → List String
strip_all [] = []
strip_all (t ∷ ts) = let rest = strip_all ts in if strip t == "" then rest else strip t ∷ rest

-- `_items`: a comma-separated text as a clean list.
unfoldable pub clean_items : String → List String
unfolding strip_all
clean_items s = strip_all (split b',' s)

unfoldable pub clean_list : List String → List String
unfolding strip_all
clean_list ts = strip_all ts

-- `", ".join(ts)`
unfoldable pub join : List String → String
join [] = ""
join (t ∷ []) = t
join (t ∷ u ∷ us) = t ++ (", " ++ join (u ∷ us))
