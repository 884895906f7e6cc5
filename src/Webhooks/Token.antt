-- ===== src/Webhooks/Token.antt =====
-- webhooks.py: when a receiver token is well formed, and when it can stand in for a signature.
use Prim.Native.Nat.{◌^◌, ◌+◌}
use pcomirror.Prelude.{
  ℕ, String, Bool, true, false, List, [], ◌∷◌, ◌&&◌, ◌||◌, if◌then◌else◌, leb, length, codes,
}

-- [A-Za-z0-9_-]
is_token_char : ℕ → Bool
is_token_char c =
    leb b'A' c && leb c b'Z'
    || leb b'a' c && leb c b'z'
    || leb b'0' c && leb c b'9'
    || leb b'_' c && leb c b'_'
    || leb b'-' c && leb c b'-'

-- The characters that are left once those of the class are read: none, or one final newline, which
-- `$` admits.
token_tail : List ℕ → Bool
token_tail [] = true
token_tail (c ∷ []) = leb c 10 && leb 10 c
token_tail (c ∷ d ∷ cs) = false

-- How many leading characters are of the class, and what follows them.
leading : List ℕ → ℕ × List ℕ
leading [] = (0, [])
leading (c ∷ cs) =
    let (n, rest) = leading cs in if is_token_char c then (n + 1, rest) else (0, c ∷ cs)

-- `TOKEN_RE.match(token)`
unfoldable pub is_token : String → Bool
unfolding is_token_char token_tail leading
is_token s = let (n, rest) = leading (codes s) in leb 8 n && leb n 64 && token_tail rest

has_code : ℕ → List ℕ → Bool
has_code c [] = false
has_code c (d ∷ ds) = if leb c d && leb d c then true else has_code c ds

-- `len(set(token))`
unfoldable pub distinct : List ℕ → ℕ
unfolding has_code
distinct [] = 0
distinct (c ∷ cs) = let n = distinct cs in if has_code c cs then n else n + 1

-- `len(token) >= 24 and token_bits(token) >= 100`, where `token_bits` is `len × log2(distinct)`, and
-- 0 for fewer than two symbols: the powers are compared instead of the logarithms.
unfoldable pub token_is_credential : String → Bool
unfolding distinct
token_is_credential s =
    let n = length (codes s) in
    let d = distinct (codes s) in leb 24 n && leb 2 d && leb (2 ^ 100) (d ^ n)
