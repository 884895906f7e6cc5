-- ===== src/Cors/Diagnostic.antt =====
-- cors.py: what of a request comes back in the header that explains a refusal.
use pcomirror.Prelude.{
  ℕ, zero, suc, ◌≤◌, String, Bool, true, false, Option, none, some, [], ◌∷◌, ◌==◌, ◌&&◌, not, ◌≡◌,
  refl, inl, inr, Bool-cases, ◌∙◌, arith, if◌then◌else◌, or_default, ltb, length, codes, strip,
  is_some,
}
use pcomirror.Text.{lower, upper, take_text, join, size}
use pcomirror.Cors.Policy.{
  Policy, is_enabled, varies_by_origin, allows_origin, echo, allows_method, advertised_headers,
  refused_headers,
}
use pcomirror.Cors.Attach.{
  Headers, header, add_vary, grant, attach, Ask, is_printable, printable, safe, explain,
  diagnostic_header, told_sets, answer_ask, preflight,
}
use pcomirror.Cors.Credentials.{
  allow_origin, header-put, header-put_ne, header-put_if_ne, header-add_vary,
}

abbrev pub all_printable : String → Bool
all_printable String.[] = true
all_printable (String.◌∷◌ c s) = if is_printable c then all_printable s else false

printable-all : (s : String) → all_printable (printable s) ≡ true
unfolding printable
printable-all String.[] = refl
printable-all (String.◌∷◌ c s) = elim (Bool-cases (is_printable c)) [
  | inl e ↦ rw (e, e) (printable-all s)
  | inr e ↦ rw (e) (printable-all s)
]

take_text-all : (n : ℕ) (s : String) → all_printable s ≡ true → all_printable (take_text n s) ≡ true
unfolding take_text
take_text-all zero s h = refl
take_text-all (suc n) String.[] h = refl
take_text-all (suc n) (String.◌∷◌ c s) h = elim (Bool-cases (is_printable c)) [
  | inl e ↦ rw (e) (take_text-all n s (rw (e) at h))
  | inr e ↦ let bad : false ≡ true = rw (e) at h in cc
]

take_text-size : (n : ℕ) (s : String) → size (take_text n s) ≤ n
unfolding take_text size
take_text-size zero s = omega arith
take_text-size (suc n) String.[] = omega arith
take_text-size (suc n) (String.◌∷◌ c s) =
    let shorter : length (codes (take_text n s)) ≤ n = take_text-size n s in omega arith

-- Printable ASCII, and at most three hundred characters.
abbrev pub IsHarmless : Option String → Type 0
IsHarmless none = Unit
IsHarmless (some v) = (all_printable v ≡ true) × (size v ≤ 300)

safe-IsHarmless : (s : String) → IsHarmless (some (safe s 300))
unfolding safe
safe-IsHarmless s =
    (take_text-all 300 (printable s) (printable-all s), take_text-size 300 (printable s))

explain-IsHarmless :
    (s : String) (hs : Headers) → IsHarmless (header diagnostic_header (explain s hs))
unfolding explain
explain-IsHarmless s hs = rw (header-put diagnostic_header (safe s 300) hs) (safe-IsHarmless s)

varied-diagnostic :
    (p : Policy) (hs : Headers)
    → header diagnostic_header (if varies_by_origin p then add_vary "Origin" hs else hs)
      ≡ header diagnostic_header hs
unfolding lower
varied-diagnostic p hs = elim (Bool-cases (varies_by_origin p)) [
  | inl e ↦ rw (e) (header-add_vary diagnostic_header "Origin" hs refl refl)
  | inr e ↦ rw (e) refl
]

grant-diagnostic :
    (p : Policy) (o : String) (hs : Headers)
    → header diagnostic_header (grant p o hs) ≡ header diagnostic_header hs
unfolding grant
grant-diagnostic p o hs =
    header-put_if_ne (ltb 0 (length p.expose)) diagnostic_header "Access-Control-Expose-Headers"
      (join p.expose) _ refl
    ∙ (header-put_if_ne p.allow_credentials diagnostic_header "Access-Control-Allow-Credentials"
          "true" _ refl
        ∙ header-put_ne diagnostic_header allow_origin (echo p o) hs refl)

attach-diagnostic :
    (hs : Headers) (p : Policy) (origin : Option String)
    → header diagnostic_header (attach hs p origin) ≡ header diagnostic_header hs
unfolding attach
attach-diagnostic hs p origin = elim (Bool-cases (is_enabled p)) [
  | inr e ↦ rw (e) refl
  | inl e ↦ elim (Bool-cases (allows_origin p origin)) [
    | inr f ↦ rw (e, f) (varied-diagnostic p hs)
    | inl f ↦ rw (e, f) (grant-diagnostic p (or_default origin "") _ ∙ varied-diagnostic p hs)
  ]
]

no_header : header diagnostic_header (("Cache-Control", "no-store") ∷ []) ≡ none
unfolding header
no_header = refl

-- The allowed sets of a preflight's answer.
sets-diagnostic :
    (p : Policy) (a : Ask) (hs : Headers)
    → header diagnostic_header (told_sets p a hs) ≡ header diagnostic_header hs
unfolding told_sets
sets-diagnostic p a hs =
    header-put_ne diagnostic_header "Access-Control-Max-Age" (a.show p.max_age) _ refl
    ∙ (header-put_ne diagnostic_header "Access-Control-Allow-Headers" (join (advertised_headers p))
          _ refl
        ∙ header-put_ne diagnostic_header "Access-Control-Allow-Methods" (join p.methods) hs refl)

answer_ask-IsHarmless :
    (p : Policy) (a : Ask) (hs : Headers)
    → header diagnostic_header hs ≡ none
    → IsHarmless (header diagnostic_header (answer_ask p a hs))
unfolding answer_ask
answer_ask-IsHarmless p a hs h =
    let method = upper (strip (or_default a.method "")) in
    elim (Bool-cases (not (method == "") && not (allows_method p method))) [
      | inl e ↦ rw (e) (explain-IsHarmless _ _)
      | inr e ↦ elim (Bool-cases (ltb 0 (length (refused_headers p (or_default a.headers ""))))) [
        | inl f ↦ rw (e, f) (explain-IsHarmless _ _)
        | inr f ↦ rw (e, f, sets-diagnostic p a hs, h) tt
      ]
    ]

-- Whatever a preflight asks, and whatever the policy is: the header that explains a refusal, if
-- there is one, has printable ASCII characters only, and at most three hundred of them.
pub preflight-IsHarmless :
    (p : Policy) (a : Ask) → IsHarmless (header diagnostic_header (preflight p a).1)
unfolding preflight
preflight-IsHarmless p a =
    let hs = attach (("Cache-Control", "no-store") ∷ []) p a.origin in
    elim (Bool-cases (is_some (header allow_origin hs))) [
      | inl e ↦ rw (e) (
          answer_ask-IsHarmless p a hs
            (attach-diagnostic (("Cache-Control", "no-store") ∷ []) p a.origin ∙ no_header))
      | inr e ↦ rw (e) (explain-IsHarmless _ _)
    ]
