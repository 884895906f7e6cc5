-- ===== src/Cors/Attach.antt =====
-- cors.py: the headers of a response, and the answer to a preflight.
use Prim.Native.Char.{Char, code}
use Prim.Native.String.{◌++◌}
use pcomirror.Prelude.{
  ℕ, String, Bool, Option, none, some, List, [], ◌∷◌, ◌==◌, ◌&&◌, not, if◌then◌else◌, contains, leb,
  ltb, map, length, is_some, or_default, strip, split,
}
use pcomirror.Text.{lower, upper, take_text, join}
use pcomirror.Cors.Policy.{
  Policy, is_enabled, varies_by_origin, allows_origin, echo, allows_method, advertised_headers,
  refused_headers,
}

abbrev pub Headers : Type 0
Headers = List (String × String)

-- `headers.get(k)`, and `headers[k] = v`.
unfoldable pub header : String → Headers → Option String
header k [] = none
header k ((j, v) ∷ hs) = if j == k then some v else header k hs

unfoldable pub put : String → String → Headers → Headers
put k v [] = (k, v) ∷ []
put k v ((j, w) ∷ hs) = if j == k then (j, v) ∷ hs else (j, w) ∷ put k v hs

unfoldable pub is_printable : Char → Bool
is_printable c = leb 32 (code c) && leb (code c) 126

unfoldable pub printable : String → String
unfolding is_printable
printable String.[] = ""
printable (String.◌∷◌ c s) = if is_printable c then String.◌∷◌ c (printable s) else printable s

-- `_safe`
unfoldable pub safe : String → ℕ → String
unfolding printable
safe s limit = take_text limit (printable s)

abbrev pub diagnostic_header : String
diagnostic_header = "X-Mirror-Cors"

-- `_explain`
unfoldable pub explain : String → Headers → Headers
explain reason hs = put diagnostic_header (safe reason 300) hs

unfoldable pub strips : List String → List String
strips ts = map (λ t. lower (strip t)) ts

-- The value of a `Vary` header with the token.
unfoldable pub with_token : String → String → String
unfolding strips
with_token token v =
    let present = strips (split b',' v) in
    if not (contains present (lower token)) && not (contains present "*")
    then v ++ (", " ++ token)
    else v

-- `add_vary`: the first header of that name in any case, or else a new one.
unfoldable pub add_vary : String → Headers → Headers
unfolding with_token
add_vary token [] = ("Vary", token) ∷ []
add_vary token ((k, v) ∷ hs) =
    if lower k == "vary" then (k, with_token token v) ∷ hs else (k, v) ∷ add_vary token hs

unfoldable pub put_if : Bool → String → String → Headers → Headers
put_if b k v hs = if b then put k v hs else hs

-- The headers of an allowed origin.
unfoldable pub grant : Policy → String → Headers → Headers
unfolding put_if
grant p origin hs =
    put_if (ltb 0 (length p.expose)) "Access-Control-Expose-Headers" (join p.expose) (
      put_if p.allow_credentials "Access-Control-Allow-Credentials" "true"
        (put "Access-Control-Allow-Origin" (echo p origin) hs))

unfoldable pub attach : Headers → Policy → Option String → Headers
attach hs p origin =
    let varied = if varies_by_origin p then add_vary "Origin" hs else hs in
    if not (is_enabled p)
    then hs
    else if not (allows_origin p origin)
    then varied
    else grant p (or_default origin "") varied

-- What a preflight asks. `repr` and `show` are Python's, of a text and of a number.
pub record Ask : Type 0 where
  pub origin : Option String
  pub method : Option String
  pub headers : Option String
  pub repr : String → String
  pub show : ℕ → String

unfoldable pub where_origins : String
where_origins = "set the allowed origins at /admin/cors or in PCOMIRROR_CORS_ORIGINS"

unfoldable pub where_methods : String
where_methods = "set the allowed methods at /admin/cors or in PCOMIRROR_CORS_METHODS"

unfoldable pub where_headers : String
where_headers = "set the allowed request headers at /admin/cors or in PCOMIRROR_CORS_HEADERS"

unfoldable pub origin_refusal : Policy → Ask → String
unfolding where_origins
origin_refusal p a =
    if is_enabled p
    then "origin "
      ++ (a.repr (safe (or_default a.origin "") 120) ++ (" is not allowed: " ++ where_origins))
    else "cross-origin access is off: " ++ where_origins

unfoldable pub safes : List String → List String
safes [] = []
safes (t ∷ ts) = safe t 40 ∷ safes ts

unfoldable pub first_five : List String → List String
first_five (a ∷ b ∷ c ∷ d ∷ e ∷ f ∷ ts) = a ∷ b ∷ c ∷ d ∷ e ∷ []
first_five ts = ts

unfoldable pub header_refusal : List String → String
unfolding safes first_five where_headers
header_refusal refused =
    let many = ltb 1 (length refused) in
    ((if many then "headers " else "header ") ++ join (safes (first_five refused)))
    ++ (((if many then " are" else " is") ++ " not allowed: ") ++ where_headers)

-- The allowed sets, whole, whatever was asked for.
unfoldable pub told_sets : Policy → Ask → Headers → Headers
told_sets p a hs = put "Access-Control-Max-Age" (a.show p.max_age) (
    put "Access-Control-Allow-Headers" (join (advertised_headers p))
      (put "Access-Control-Allow-Methods" (join p.methods) hs))

-- The answer to an allowed origin, with the reason where the ask is outside the sets.
unfoldable pub answer_ask : Policy → Ask → Headers → Headers
unfolding header_refusal where_methods
answer_ask p a hs =
    let method = upper (strip (or_default a.method "")) in
    let refused = refused_headers p (or_default a.headers "") in
    let told = told_sets p a hs in
    if not (method == "") && not (allows_method p method)
    then explain ("method " ++ (safe method 16 ++ (" is not allowed: " ++ where_methods))) told
    else if ltb 0 (length refused)
    then explain (header_refusal refused) told
    else told

-- The status, and the headers; the body is an empty object.
unfoldable pub preflight : Policy → Ask → ℕ × Headers
unfolding origin_refusal
preflight p a =
    let hs = attach (("Cache-Control", "no-store") ∷ []) p a.origin in
    (
      200,
      if is_some (header "Access-Control-Allow-Origin" hs)
          then answer_ask p a hs
          else explain (origin_refusal p a) hs,
    )
