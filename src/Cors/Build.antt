-- ===== src/Cors/Build.antt =====
-- cors.py: `build`, the one validator of a policy.
use pcomirror.Prelude.{
  ℕ, String, Bool, true, false, Option, none, some, List, [], ◌∷◌, ◌==◌, ◌&&◌, ◌||◌, not,
  if◌then◌else◌, contains, length, ltb, map, strip,
}
use pcomirror.Result.{Result, ok, err, value_error, ◌>>=◌}
use pcomirror.Text.{lower, upper, unique, clean_items, clean_list}
use pcomirror.Cors.Origin.{pattern_of}
use pcomirror.Cors.Policy.{
  Policy, closed, supported_methods, default_headers, default_expose, default_max_age,
}

-- A list argument: `None`, a comma-separated text, or a sequence.
pub data Given : Type 0 where
  absent : Given
  commas : String → Given
  listed : List String → Given

-- The credentials argument: a `bool`, or what the environment has.
pub data Flag : Type 0 where
  flag : Bool → Flag
  word : Option String → Flag

pub record Settings : Type 0 where
  pub origins : Given
  pub methods : Given
  pub headers : Given
  pub expose : Given
  pub max_age : Option String
  pub allow_credentials : Flag

-- `_listish`
unfoldable pub listish : Given → List String
listish absent = []
listish (commas s) = clean_items s
listish (listed ts) = clean_list ts

unfoldable pub patterns : List String → Result (List String)
patterns [] = ok []
patterns (o ∷ os) = do p ← pattern_of o; ps ← patterns os; ok (p ∷ ps)

-- `ts or default`
unfoldable pub or_these : List String → List String → List String
or_these [] default = default
or_these (t ∷ ts) default = t ∷ ts

unfoldable pub all_supported : List String → Bool
all_supported [] = true
all_supported (m ∷ ms) = contains supported_methods m && all_supported ms

unfoldable pub reads_of : Given → List String
reads_of absent = default_expose
reads_of (commas s) = unique (listish (commas s))
reads_of (listed ts) = unique (listish (listed ts))

-- `int` of a text: its sign (is it negative?) and its magnitude, or none where it raises.
abbrev pub ToInt : Type 0
ToInt = String → Option (Bool × ℕ)

unfoldable pub seconds_of_int : Option (Bool × ℕ) → Result ℕ
seconds_of_int none = err (value_error "max_age takes a number of seconds")
seconds_of_int (some (negative, n)) =
    if negative && ltb 0 n then err (value_error "max_age cannot be negative") else ok n

unfoldable pub seconds_of : ToInt → Option String → Result ℕ
unfolding seconds_of_int
seconds_of int none = ok default_max_age
seconds_of int (some s) =
    if strip s == "" then ok default_max_age else seconds_of_int (int (strip s))

-- `_truthy`, or the `bool` itself.
unfoldable pub is_on : Flag → Bool
is_on (flag b) = b
is_on (word none) = false
is_on (word (some s)) =
    not (s == "") && contains ("1" ∷ "true" ∷ "yes" ∷ "on" ∷ []) (lower (strip s))

-- Does a credentialed policy name '*'?
unfoldable pub names_any : List String → List String → List String → Bool
names_any allowed sends reads = contains allowed "*" || contains sends "*" || contains reads "*"

unfoldable pub is_contradictory : List String → Bool
is_contradictory allowed = contains allowed "*" && ltb 1 (length allowed)

-- The policy of the values, once the origins are known.
unfoldable pub policy_of : ToInt → Settings → List String → Result Policy
unfolding or_these all_supported reads_of seconds_of is_on names_any
policy_of int s allowed =
    let verbs = or_these (unique (map upper (listish s.methods))) supported_methods in
    let sends = or_these (unique (listish s.headers)) default_headers in
    let reads = reads_of s.expose in
    if not (all_supported verbs) then err (value_error "unsupported method") else (do
      seconds ← seconds_of int s.max_age
      if is_on s.allow_credentials && names_any allowed sends reads
          then err (value_error "credentials cannot be combined with '*'")
          else ok (record {
            origins = allowed;
            methods = verbs;
            headers = sends;
            expose = reads;
            max_age = seconds;
            allow_credentials = is_on s.allow_credentials;
          }))

unfoldable pub built : ToInt → Settings → List String → Result Policy
unfolding is_contradictory
built int s allowed =
    if is_contradictory allowed
    then err (value_error "'*' beside a specific origin")
    else policy_of int s allowed

-- `build`, for the list of the origins.
unfoldable pub build_from : ToInt → Settings → List String → Result Policy
unfolding patterns built
build_from int s [] = ok closed
build_from int s (o ∷ os) = do allowed ← patterns (o ∷ os); built int s (unique allowed)

-- The messages are left out.
unfoldable pub build : ToInt → Settings → Result Policy
build int s = build_from int s (listish s.origins)
