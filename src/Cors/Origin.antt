-- ===== src/Cors/Origin.antt =====
-- cors.py: what an origin is, and which configured entry allows it.
use pcomirror.Prelude.{
  ℕ, ◌+◌, String, Bool, true, false, Option, none, some, List, [], ◌∷◌, ◌==◌, ◌&&◌, ◌||◌, not,
  if◌then◌else◌, leb, ltb, codes, strip,
}
use pcomirror.Result.{Result, ok, err, value_error}
use pcomirror.Text.{lower, starts_with, ends_with, drop_text, size, cut_scheme}

abbrev is_between : ℕ → ℕ → ℕ → Bool
is_between a b c = leb a c && leb c b

unfoldable pub is_digit : ℕ → Bool
is_digit c = is_between b'0' b'9' c

-- [A-Za-z0-9._~-]
unfoldable pub is_host : ℕ → Bool
unfolding is_digit
is_host c =
    is_between b'A' b'Z' c
    || is_between b'a' b'z' c
    || is_digit c
    || is_between b'-' b'.' c
    || is_between b'_' b'_' c
    || is_between b'~' b'~' c

-- [0-9A-Fa-f:.]
unfoldable pub is_address : ℕ → Bool
unfolding is_digit
is_address c =
    is_digit c
    || is_between b'A' b'F' c
    || is_between b'a' b'f' c
    || is_between b':' b':' c
    || is_between b'.' b'.' c

-- How many leading characters are of a class, and what follows them.
unfoldable pub span : (ℕ → Bool) → List ℕ → ℕ × List ℕ
span p [] = (0, [])
span p (c ∷ cs) = let (n, rest) = span p cs in if p c then (n + 1, rest) else (0, c ∷ cs)

-- One final newline, which `$` admits, or nothing.
unfoldable pub is_end : List ℕ → Bool
is_end [] = true
is_end (c ∷ []) = is_between 10 10 c
is_end (c ∷ d ∷ cs) = false

-- (?::[0-9]{1,5})?$
unfoldable pub is_port : List ℕ → Bool
unfolding span is_end is_digit
is_port [] = true
is_port (c ∷ cs) =
    if is_between b':' b':' c
    then (let (n, rest) = span is_digit cs in leb 1 n && leb n 5 && is_end rest)
    else is_end (c ∷ cs)

-- What follows a bracketed address's characters.
unfoldable pub is_bracketed : ℕ × List ℕ → Bool
unfolding is_port
is_bracketed (n, []) = false
is_bracketed (n, c ∷ cs) = leb 1 n && is_between b']' b']' c && is_port cs

unfoldable pub is_authority : List ℕ → Bool
unfolding span is_bracketed is_host is_address is_port
is_authority [] = false
is_authority (c ∷ cs) =
    if is_between b'[' b'[' c
    then is_bracketed (span is_address cs)
    else (let (n, rest) = span is_host (c ∷ cs) in leb 1 n && is_port rest)

-- A leading `*.` label and a host.
unfoldable pub is_wild : List ℕ → Bool
unfolding span is_host is_port
is_wild (s ∷ d ∷ cs) =
    is_between b'*' b'*' s
    && is_between b'.' b'.' d
    && (let (n, rest) = span is_host cs in leb 1 n && is_port rest)
is_wild _ = false

-- What follows `https?://`, if that is how the text starts.
unfoldable pub after_scheme : String → Option String
after_scheme s =
    if starts_with "http://" s
    then some (drop_text 7 s)
    else if starts_with "https://" s
    then some (drop_text 8 s)
    else none

-- `_ORIGIN_RE.match`
unfoldable pub is_origin : String → Bool
unfolding after_scheme is_authority
is_origin s = elim (after_scheme s) [ none ↦ false | some t ↦ is_authority (codes t) ]

-- `_PATTERN_RE.match`
unfoldable pub is_pattern : String → Bool
unfolding after_scheme is_wild
is_pattern s = elim (after_scheme s) [ none ↦ false | some t ↦ is_wild (codes t) ]

unfoldable pub normalise : String → String
normalise origin = lower (strip origin)

-- `_pattern`; the hint of the message is left out.
unfoldable pub pattern_of : String → Result String
pattern_of raw =
    let value = strip raw in
    if value == "*" || lower value == "null"
    then ok (lower value)
    else if is_origin (lower value) || is_pattern (lower value)
    then ok (lower value)
    else err (value_error "bad entry")

-- `_matches`
unfoldable pub matches : String → String → Bool
matches entry origin =
    let (scheme, hostport) = cut_scheme entry in
    let (o_scheme, o_hostport) = cut_scheme origin in
    let suffix = drop_text 1 hostport in
    if entry == origin
    then true
    else if not (starts_with "*." hostport)
    then false
    else if not (o_scheme == scheme)
    then false
    else ends_with suffix o_hostport && ltb (size suffix) (size o_hostport)
