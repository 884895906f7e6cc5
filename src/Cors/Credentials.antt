-- ===== src/Cors/Credentials.antt =====
-- cors.py: what a validated policy can tell a browser about an origin.
use pcomirror.Prelude.{
  String, Bool, true, false, Option, some, List, [], ◌∷◌, ◌==◌, ◌&&◌, ◌≡◌, refl, inl, inr, ◌⊎◌,
  Bool-cases, ◌∙◌, ap, sym, arith, if◌then◌else◌, or_default, eq_iff, eq_refl, ltb, length, map,
}
use pcomirror.Result.{Holds, bind-Holds}
use pcomirror.Text.{lower, upper, join, unique}
use pcomirror.Cors.Origin.{is_origin, normalise}
use pcomirror.Cors.Policy.{
  Policy, supported_methods, default_headers, is_enabled, varies_by_origin, allows_origin,
  allows_candidate, echo,
}
use pcomirror.Cors.Build.{
  ToInt, Settings, listish, patterns, built, build_from, build, policy_of, all_supported, names_any,
  is_on, or_these, reads_of, seconds_of, is_contradictory,
}
use pcomirror.Cors.Attach.{Headers, header, put, put_if, add_vary, grant, attach}

-- With credentials, no wildcard; and no method that is not served.
abbrev pub IsSafe : Policy → Type 0
IsSafe p =
    ((p.allow_credentials && names_any p.origins p.headers p.expose) ≡ false)
    × (all_supported p.methods ≡ true)

policy_of-IsSafe :
    (int : ToInt) (s : Settings) (allowed : List String) → Holds IsSafe (policy_of int s allowed)
unfolding policy_of
policy_of-IsSafe int s allowed =
    let verbs = or_these (unique (map upper (listish s.methods))) supported_methods in
    let sends = or_these (unique (listish s.headers)) default_headers in
    elim (Bool-cases (all_supported verbs)) [
      | inr e ↦ rw (e) tt
      | inl e ↦ rw (e) (
          bind-Holds IsSafe (seconds_of int s.max_age) _ (λ seconds _.
            elim (Bool-cases
              (is_on s.allow_credentials && names_any allowed sends (reads_of s.expose))) [
                | inl f ↦ rw (f) tt
                | inr f ↦ rw (f) (f, e)
              ]))
    ]

built-IsSafe :
    (int : ToInt) (s : Settings) (allowed : List String) → Holds IsSafe (built int s allowed)
unfolding built
built-IsSafe int s allowed = elim (Bool-cases (is_contradictory allowed)) [
  | inl e ↦ rw (e) tt
  | inr e ↦ rw (e) (policy_of-IsSafe int s allowed)
]

build_from-IsSafe :
    (int : ToInt) (s : Settings) (os : List String) → Holds IsSafe (build_from int s os)
unfolding build_from all_supported
build_from-IsSafe int s [] = (refl, refl)
build_from-IsSafe int s (o ∷ os) =
    bind-Holds IsSafe (patterns (o ∷ os)) _ (λ allowed _. built-IsSafe int s (unique allowed))

-- What `build` returns is a policy that allows served methods only, and that does not name '*' as an
-- origin, a request header or a readable header while it allows credentials.
pub build-IsSafe : (int : ToInt) (s : Settings) → Holds IsSafe (build int s)
unfolding build
build-IsSafe int s = build_from-IsSafe int s (listish s.origins)

pub header-put : (k v : String) (hs : Headers) → header k (put k v hs) ≡ some v
unfolding header put
header-put k v [] = rw (eq_refl k) refl
header-put k v ((j, w) ∷ hs) = elim (Bool-cases (j == k)) [
  | inl e ↦ rw (e, e) refl
  | inr e ↦ rw (e, e) (header-put k v hs)
]

pub header-put_ne :
    (k j v : String) (hs : Headers) → (j == k) ≡ false → header k (put j v hs) ≡ header k hs
unfolding header put
header-put_ne k j v [] n = rw (n) refl
header-put_ne k j v ((i, w) ∷ hs) n = elim (Bool-cases (i == j)) [
  | inl e ↦ let other : (i == k) ≡ false = ground (arith, eq_iff i j) in rw (e, other) refl
  | inr e ↦ elim (Bool-cases (i == k)) [
    | inl f ↦ rw (e, f) refl
    | inr f ↦ rw (e, f) (header-put_ne k j v hs n)
  ]
]

pub header-put_if_ne :
    (b : Bool) (k j v : String) (hs : Headers)
    → (j == k) ≡ false
    → header k (put_if b j v hs) ≡ header k hs
unfolding put_if
header-put_if_ne true k j v hs n = header-put_ne k j v hs n
header-put_if_ne false k j v hs n = refl

-- A name that is not `Vary` in some case keeps its value.
pub header-add_vary :
    (k token : String) (hs : Headers)
    → (lower k == "vary") ≡ false
    → ("Vary" == k) ≡ false
    → header k (add_vary token hs) ≡ header k hs
unfolding header add_vary
header-add_vary k token [] n m = rw (m) refl
header-add_vary k token ((j, v) ∷ hs) n m = elim (Bool-cases (lower j == "vary")) [
  | inl e ↦ elim (Bool-cases (j == k)) [
    | inl f ↦
        let same : j ≡ k = ground (arith, eq_iff j k) in
        let bad : true ≡ false = sym e ∙ (ap (λ x. lower x == "vary") same ∙ n) in cc
    | inr f ↦ rw (e, f) refl
  ]
  | inr e ↦ elim (Bool-cases (j == k)) [
    | inl f ↦ rw (e, f) refl
    | inr f ↦ rw (e, f) (header-add_vary k token hs n m)
  ]
]

abbrev pub allow_origin : String
allow_origin = "Access-Control-Allow-Origin"

grant-allow_origin :
    (p : Policy) (o : String) (hs : Headers) → header allow_origin (grant p o hs) ≡ some (echo p o)
unfolding grant
grant-allow_origin p o hs =
    header-put_if_ne (ltb 0 (length p.expose)) allow_origin "Access-Control-Expose-Headers"
      (join p.expose) _ refl
    ∙ (header-put_if_ne p.allow_credentials allow_origin "Access-Control-Allow-Credentials" "true" _
          refl
        ∙ header-put allow_origin (echo p o) hs)

varied-allow_origin :
    (p : Policy) (hs : Headers)
    → header allow_origin (if varies_by_origin p then add_vary "Origin" hs else hs)
      ≡ header allow_origin hs
unfolding lower
varied-allow_origin p hs = elim (Bool-cases (varies_by_origin p)) [
  | inl e ↦ rw (e) (header-add_vary allow_origin "Origin" hs refl refl)
  | inr e ↦ rw (e) refl
]

-- `attach` names an origin in `Access-Control-Allow-Origin` exactly where the policy is on and allows
-- the origin of the request, and then it is the policy's echo; otherwise the header is what it was.
pub attach-allow_origin :
    (hs : Headers) (p : Policy) (origin : Option String)
    → header allow_origin (attach hs p origin) ≡ (
        if is_enabled p && allows_origin p origin
        then some (echo p (or_default origin ""))
        else header allow_origin hs)
unfolding attach
attach-allow_origin hs p origin = elim (Bool-cases (is_enabled p)) [
  | inr e ↦ rw (e) refl
  | inl e ↦ elim (Bool-cases (allows_origin p origin)) [
    | inr f ↦ rw (e, f) (varied-allow_origin p hs)
    | inl f ↦ rw (e, f) (grant-allow_origin p (or_default origin "") _)
  ]
]

-- What may stand in the header for a request with credentials.
abbrev pub IsConcrete : String → Type 0
IsConcrete o = (o ≡ "null") ⊎ (is_origin o ≡ true)

allows_candidate-IsConcrete : (p : Policy) (o : String) → allows_candidate p o ≡ true → IsConcrete o
unfolding allows_candidate
allows_candidate-IsConcrete p o h = elim (Bool-cases (o == "null")) [
  | inl e ↦ inl (ground (arith, eq_iff o "null"))
  | inr e ↦ elim (Bool-cases (is_origin o)) [
    | inl f ↦ inr f
    | inr f ↦ elim (Bool-cases (o == "")) [
      | inl g ↦ let bad : false ≡ true = rw (g) at h in cc
      | inr g ↦ let bad : false ≡ true = rw (g, e, f) at h in cc
    ]
  ]
]

-- A policy that allows credentials never answers with a wildcard, whatever its list of origins is:
-- where it allows an origin, `Access-Control-Allow-Origin` is that origin in lower case, and it is
-- the text 'null' or has the syntax of an origin.
pub attach-IsConcrete :
    (p : Policy) (hs : Headers) (o : String)
    → p.allow_credentials ≡ true
    → (is_enabled p && allows_origin p (some o)) ≡ true
    → (header allow_origin (attach hs p (some o)) ≡ some (normalise o)) × IsConcrete (normalise o)
unfolding echo allows_origin
attach-IsConcrete p hs o c h =
    let allowed : allows_origin p (some o) ≡ true = ground arith in
    (
      attach-allow_origin hs p (some o) ∙ rw (h, c) (ground arith),
      allows_candidate-IsConcrete p (normalise o) allowed,
    )
