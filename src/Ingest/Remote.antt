-- ===== src/Ingest/Remote.antt =====
-- ingest.py: the client's `get`, what is read of its answers, and statements one after another.
use mathlib.Core.Path.{subst}
use pcomirror.Prelude.{
  ℕ, String, Bool, true, false, none, some, List, [], ◌∷◌, ◌==◌, if◌then◌else◌, leb, ◌&&◌, length,
  ltb, ◌≡◌, refl, ap,
}
use pcomirror.Result.{Result, ok, err, value_error, type_error, attribute_error, ◌>>=◌}
use pcomirror.Json.{Json, null, str, arr, obj, item, or_obj, iterate, lookup_field, has_field, nil}
use pcomirror.Store.{Row}
use pcomirror.Client.Request.{Response}
use pcomirror.Webhooks.State.{World}

-- The query of a request.
pub data Param : Type 0 where
  per_page offset : ℕ → Param
  including ordered_by : String → Param
  fields : (kind : String) → String → Param
  since before : (column : String) → String → Param

-- `self.client.get(path, params, …)` within one operation, in which no request is made twice.
abbrev pub Remote : Type 0
Remote = String → List Param → Result Response

-- `resp.status == 404`
unfoldable pub is_absent : Response → Bool
is_absent resp = leb 404 resp.status && leb resp.status 404

-- `resp.json()`
unfoldable pub json_of : World → Response → Result Json
json_of w resp =
    if resp.body == ""
    then ok null
    else elim (w.loads resp.body) [ none ↦ err (value_error "json") | some j ↦ ok j ]

-- `resp.json() or {}`
unfoldable pub body_of : World → Response → Result Json
unfolding json_of
body_of w resp = do j ← json_of w resp; ok (or_obj j)

-- `body.get("data", [])`
unfoldable pub listed : Json → Result Json
listed (obj fs) = ok (if has_field "data" fs then lookup_field "data" fs else arr nil)
listed _ = err attribute_error

-- A value that is put in a set: lists and dicts are not hashable. A text is kept; another scalar is
-- an element that no `pco_id` is equal to.
abbrev pub add_id : Json → List String → Result (List String)
add_id (str s) seen = ok (s ∷ seen)
add_id (arr js) seen = err type_error
add_id (obj fs) seen = err type_error
add_id _ seen = ok seen

-- The answer's body, and what it lists.
unfoldable pub page_of : World → Response → Result (Json × Json)
unfolding body_of listed
page_of w resp = do body ← body_of w resp; data' ← listed body; ok (body, data')

-- `seen.update(d["id"] for d in data)`
unfoldable pub add_ids : List Json → List String → Result (List String)
add_ids [] seen = ok seen
add_ids (j ∷ js) seen = do i ← item "id" j; seen' ← add_id i seen; add_ids js seen'

-- The listed resources added to the ids so far, and whether the page is the last.
unfoldable pub after_page : List String → Json → Result (List String × Bool)
unfolding add_ids
after_page seen data' = do
  ds ← iterate data'
  seen' ← add_ids ds seen
  ok (seen', ltb (length ds) 100)

-- What is left in the tables, and what came out or was raised.
abbrev pub Step : Type 0 → Type 0
Step A = List Row × Result A

infixl 5 ◌and◌
abbrev pub ◌and◌ : {A B : Type 0} → Step A → (A → List Row → Step B) → Step B
(rs, ok a) and f = f a rs
(rs, err e) and f = (rs, err e)

-- What reads the tables only, or nothing of them.
abbrev pub reading : {A : Type 0} → Result A → List Row → Step A
reading m rs = (rs, m)

-- A statement that is refused leaves the tables as they were.
abbrev pub writing : Result (List Row) → List Row → Step (Unit {0})
writing (ok rs') rs = (rs', ok tt)
writing (err e) rs = (rs, err e)

-- A chain that went through went through its first step.
pub and_ok :
    {A B : Type 0} (s : Step A) (f : A → List Row → Step B) {rs' : List Row} {b : B}
    → (s and f) ≡ (rs', ok b)
    → (a : A) × (rs1 : List Row) × (s ≡ (rs1, ok a)) × (f a rs1 ≡ (rs', ok b))
and_ok (rs, ok a) f e = (a, rs, refl, e)
and_ok (rs, err x) f {rs'} {b} e = (let bad : err x ≡ ok b = ap (λ p. p.1) e in cc)

pub writing_ok :
    (m : Result (List Row)) (rs : List Row) {rs1 : List Row} {u : Unit {0}}
    → writing m rs ≡ (rs1, ok u)
    → m ≡ ok rs1
writing_ok (ok x) rs e = ap (λ p. ok p.0) e
writing_ok (err x) rs {rs1} {u} e = (let bad : err x ≡ ok u = ap (λ p. p.1) e in cc)

-- What holds of the outcome of a step that goes through.
abbrev pub After : {A : Type 0} → (A → List Row → Type 0) → Step A → Type 0
After P (rs, ok a) = P a rs
After P (rs, err e) = Unit

pub and-After :
    {A B : Type 0} (P : B → List Row → Type 0) (s : Step A) (f : A → List Row → Step B)
    → ((a : A) (rs1 : List Row) → s ≡ (rs1, ok a) → After P (f a rs1))
    → After P (s and f)
and-After P (rs, ok a) f h = h a rs refl
and-After P (rs, err e) f h = tt

pub reading-After :
    {A B : Type 0} (P : B → List Row → Type 0) (m : Result A) (rs : List Row)
    (f : A → List Row → Step B)
    → ((a : A) → m ≡ ok a → After P (f a rs))
    → After P (reading m rs and f)
reading-After P (ok a) rs f h = h a refl
reading-After P (err e) rs f h = tt

pub writing-After :
    {B : Type 0} (P : B → List Row → Type 0) (m : Result (List Row)) (rs : List Row)
    (f : Unit {0} → List Row → Step B)
    → ((rs1 : List Row) → m ≡ ok rs1 → After P (f tt rs1))
    → After P (writing m rs and f)
writing-After P (ok rs1) rs f h = h rs1 refl
writing-After P (err e) rs f h = tt

pub After_ok :
    {A : Type 0} (P : A → List Row → Type 0) (s : Step A) {a : A} {rs : List Row}
    → After P s
    → s ≡ (rs, ok a)
    → P a rs
After_ok P s {a} {rs} h e = subst (After P) e h

pub both-After :
    {A : Type 0} (P Q : A → List Row → Type 0) (s : Step A)
    → After P s
    → After Q s
    → After (λ a rs. P a rs × Q a rs) s
both-After P Q (rs, ok a) p q = (p, q)
both-After P Q (rs, err e) p q = tt

pub map-After :
    {A : Type 0} (P Q : A → List Row → Type 0) (s : Step A)
    → ((a : A) (rs : List Row) → P a rs → Q a rs)
    → After P s
    → After Q s
map-After P Q (rs, ok a) h p = h a rs p
map-After P Q (rs, err e) h p = tt

pub branch-After :
    {A : Type 0} (P : A → List Row → Type 0) (b : Bool) (x y : Step A)
    → (b ≡ true → After P x)
    → (b ≡ false → After P y)
    → After P (if b then x else y)
branch-After P true x y h k = h refl
branch-After P false x y h k = k refl
