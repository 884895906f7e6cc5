-- ===== src/ApiKeys/Keys.antt =====
-- apikeys.py: minting, parsing, checking and revoking a key, and what its scopes allow.
use Prim.Native.Char.{code}
use Prim.Native.String.{◌++◌}
use pcomirror.Prelude.{
  ℕ, zero, suc, ◌+◌, String, Bool, true, false, Option, none, some, List, [], ◌∷◌, ◌==◌, ◌&&◌, ◌||◌,
  not, if◌then◌else◌, is_some, contains, text_lt, strip, leb, or_default,
}
use pcomirror.Result.{Result, ok, err, io_error}
use pcomirror.Text.{lower, starts_with, size, clean_items}

-- SHA-256, the strict decoding of base64 into UTF-8, the clock, and `_floor`, which takes a minute
-- off a time.
pub record Services : Type 0 where
  pub hash : String → String
  pub decode : String → Option String
  pub now : String
  pub floor : String → String

pub record Key : Type 0 where
  pub id : String
  pub prefix : String
  pub key_hash : String
  pub name : String
  pub scopes : String
  pub last_used_at : Option String
  pub disabled_at : Option String

abbrev pub token_prefix : String
token_prefix = "pcm"

abbrev pub prefix_len : ℕ
prefix_len = 8

unfoldable pub parse_scopes : String → List String
parse_scopes raw = clean_items raw

unfoldable pub allows_read : List String → String → Bool
allows_read scopes endpoint = contains scopes "read:*" || contains scopes ("read:" ++ endpoint)

-- SELECT 1 FROM api_key WHERE prefix = p
unfoldable pub has_prefix : String → List Key → Bool
has_prefix p [] = false
has_prefix p (k ∷ ks) = if k.prefix == p then true else has_prefix p ks

-- The first unused one of the drawn prefixes, among so many of them.
unfoldable pub choose_prefix : ℕ → (ℕ → String) → ℕ → List Key → Option String
choose_prefix zero draw n ks = none
choose_prefix (suc tries) draw n ks =
    let rest = choose_prefix tries draw (n + 1) ks in
    if has_prefix (draw n) ks then rest else some (draw n)

unfoldable pub new_key : Services → String → String → String → String → String → Key
new_key w id prefix key name scopes = record {
  id = id;
  prefix = prefix;
  key_hash = w.hash key;
  name = name;
  scopes = scopes;
  last_used_at = none;
  disabled_at = none;
}

-- `create`; `draw` are the prefixes that the loop draws, `secret` and `id` what is drawn after it.
unfoldable pub create :
    Services
    → (ℕ → String)
    → String
    → String
    → String
    → String
    → List Key
    → Result (List Key × String)
unfolding choose_prefix new_key
create w draw secret id name scopes ks = elim (choose_prefix 10 draw 0 ks) [
  | none ↦ err (io_error "could not allocate a unique key prefix")
  | some p ↦
      (let key = "pcm_" ++ (p ++ ("_" ++ secret)) in ok (new_key w id p key name scopes ∷ ks, key))
]

-- `s.partition(c)` for a separator that is there.
unfoldable pub cut : ℕ → String → Option (String × String)
cut c String.[] = none
cut c (String.◌∷◌ d s) =
    if leb c (code d) && leb (code d) c
    then some ("", s)
    else elim (cut c s) [ none ↦ none | some (a, b) ↦ some (String.◌∷◌ d a, b) ]

-- `s.partition(c)`, without the separator.
unfoldable pub partition : ℕ → String → String × String
unfolding cut
partition c s = or_default (cut c s) (s, "")

unfoldable pub nonempty : String → Option String
nonempty s = if s == "" then none else some s

unfoldable pub is_key : String → Bool
is_key s = starts_with "pcm_" s

-- The key in either field of a Basic credential.
unfoldable pub basic_key : Option String → Option String
unfolding is_key
basic_key none = none
basic_key (some decoded) =
    let (user, password) = partition b':' decoded in
    if is_key user then some user else if is_key password then some password else none

unfoldable pub bearer_token : Services → Option String → Option String
unfolding nonempty basic_key is_key
bearer_token w none = none
bearer_token w (some h) =
    let value = strip h in
    let (scheme, rest) = partition b' ' value in
    if h == ""
    then none
    else if lower scheme == "bearer"
    then nonempty (strip rest)
    else if lower scheme == "basic"
    then basic_key (w.decode (strip rest))
    else if is_key value
    then some value
    else none

-- The public half of a well-formed key: the second one of the three parts of `key.split("_", 2)`.
unfoldable pub public_half : String → Option String
unfolding cut
public_half key = elim (cut b'_' key) [
  | none ↦ none
  | some (head, tail) ↦ elim (cut b'_' tail) [
    | none ↦ none
    | some (prefix, secret) ↦
        if head == token_prefix && leb (size prefix) prefix_len && leb prefix_len (size prefix)
        then some prefix
        else none
  ]
]

-- The first enabled key of the prefix with the digest.
unfoldable pub find_key : String → String → List Key → Option Key
find_key p digest [] = none
find_key p digest (k ∷ ks) =
    if k.prefix == p && not (is_some k.disabled_at) && k.key_hash == digest
    then some k
    else find_key p digest ks

unfoldable pub is_current : Services → Key → Bool
is_current w k = elim k.last_used_at [
  | none ↦ false
  | some last ↦ not (last == "") && not (text_lt last (w.floor w.now))
]

unfoldable pub stamp : Services → String → Key → Key
stamp w id k = if k.id == id then record k { last_used_at = some w.now } else k

unfoldable pub stamps : Services → String → List Key → List Key
unfolding stamp
stamps w id [] = []
stamps w id (k ∷ ks) = stamp w id k ∷ stamps w id ks

-- `_touch`
unfoldable pub touch_key : Services → Key → List Key → List Key
unfolding is_current stamps
touch_key w k ks = if is_current w k then ks else stamps w k.id ks

unfoldable pub accepted : Services → Option Key → List Key → List Key × Option Key
accepted w none ks = (ks, none)
accepted w (some k) ks = (touch_key w k ks, some k)

unfoldable pub with_half : Services → String → Option String → List Key → List Key × Option Key
unfolding accepted
with_half w key none ks = (ks, none)
with_half w key (some p) ks = accepted w (find_key p (w.hash key) ks) ks

unfoldable pub with_key : Services → Option String → List Key → List Key × Option Key
unfolding with_half
with_key w none ks = (ks, none)
with_key w (some key) ks = if key == "" then (ks, none) else with_half w key (public_half key) ks

unfoldable pub authenticate : Services → Option String → List Key → List Key × Option Key
unfolding with_key
authenticate w h ks = with_key w (bearer_token w h) ks

unfoldable pub any_enabled : List Key → Bool
any_enabled [] = false
any_enabled (k ∷ ks) = if is_some k.disabled_at then any_enabled ks else true

unfoldable pub has_enabled : String → List Key → Bool
has_enabled p [] = false
has_enabled p (k ∷ ks) =
    if k.prefix == p && not (is_some k.disabled_at) then true else has_enabled p ks

unfoldable pub disable_all : String → String → List Key → List Key
disable_all now p [] = []
disable_all now p (k ∷ ks) =
    (if k.prefix == p then record k { disabled_at = some now } else k) ∷ disable_all now p ks

unfoldable pub revoke : String → String → List Key → List Key × Bool
unfolding has_enabled disable_all
revoke now p ks = if has_enabled p ks then (disable_all now p ks, true) else (ks, false)
