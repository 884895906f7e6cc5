-- ===== src/Cors/Policy.antt =====
-- cors.py: `Policy`, and what it allows.
use pcomirror.Prelude.{
  ℕ, String, Bool, true, false, Option, List, [], ◌∷◌, ◌++◌, ◌==◌, ◌&&◌, ◌||◌, not, if◌then◌else◌,
  contains, map, or_default, strip,
}
use pcomirror.Text.{lower, upper, clean_items}
use pcomirror.Cors.Origin.{is_origin, normalise, matches}

pub record Policy : Type 0 where
  pub origins : List String
  pub methods : List String
  pub headers : List String
  pub expose : List String
  pub max_age : ℕ
  pub allow_credentials : Bool

abbrev pub supported_methods : List String
supported_methods = "GET" ∷ "POST" ∷ "PATCH" ∷ "DELETE" ∷ []

abbrev pub default_headers : List String
default_headers = "Authorization" ∷ "Content-Type" ∷ []

abbrev pub default_expose : List String
default_expose = "X-Mirror-Source" ∷ "Location" ∷ []

abbrev pub default_max_age : ℕ
default_max_age = 600

abbrev pub safelisted : List String
safelisted = "accept" ∷ "accept-language" ∷ "content-language" ∷ "content-type" ∷ "range" ∷ []

abbrev pub client_cache_headers : List String
client_cache_headers =
    "Cache-Control" ∷ "Pragma" ∷ "Expires" ∷ "If-None-Match" ∷ "If-Modified-Since" ∷ []

-- `Policy()`
abbrev pub closed : Policy
closed = record {
  origins = [];
  methods = supported_methods;
  headers = default_headers;
  expose = default_expose;
  max_age = default_max_age;
  allow_credentials = false;
}

unfoldable pub is_enabled : Policy → Bool
is_enabled p = elim p.origins [ [] ↦ false | o ∷ os ↦ true ]

unfoldable pub any_origin : Policy → Bool
any_origin p = contains p.origins "*"

unfoldable pub varies_by_origin : Policy → Bool
unfolding any_origin
varies_by_origin p = not (any_origin p) || p.allow_credentials

unfoldable pub any_matches : List String → String → Bool
any_matches [] o = false
any_matches (e ∷ es) o = if matches e o then true else any_matches es o

-- `allows_origin`, for the normalised candidate.
unfoldable pub allows_candidate : Policy → String → Bool
unfolding any_matches
allows_candidate p o =
    if o == ""
    then false
    else if not (o == "null") && not (is_origin o)
    then false
    else if any_origin p
    then true
    else any_matches p.origins o

unfoldable pub allows_origin : Policy → Option String → Bool
unfolding allows_candidate
allows_origin p origin = allows_candidate p (normalise (or_default origin ""))

unfoldable pub echo : Policy → String → String
unfolding any_origin
echo p origin = if any_origin p && not p.allow_credentials then "*" else normalise origin

unfoldable pub allows_method : Policy → String → Bool
allows_method p m = contains p.methods (upper m)

unfoldable pub lowers : List String → List String
lowers hs = map lower hs

unfoldable pub allows_header : Policy → String → Bool
unfolding lowers
allows_header p name =
    let lowered = lower (strip name) in
    if lowered == ""
      || contains safelisted lowered
      || contains (lowers client_cache_headers) lowered
    then true
    else contains p.headers "*" || contains (lowers p.headers) lowered

unfoldable pub without_named : List String → List String → List String
without_named named [] = []
without_named named (h ∷ hs) =
    let rest = without_named named hs in if contains named (lower h) then rest else h ∷ rest

unfoldable pub advertised_headers : Policy → List String
unfolding without_named lowers
advertised_headers p =
    if contains p.headers "*"
    then "*" ∷ []
    else p.headers ++ without_named (lowers p.headers) client_cache_headers

unfoldable pub refused_of : Policy → List String → List String
refused_of p [] = []
refused_of p (n ∷ ns) = let rest = refused_of p ns in if allows_header p n then rest else n ∷ rest

unfoldable pub refused_headers : Policy → String → List String
unfolding refused_of
refused_headers p asked = refused_of p (clean_items asked)
