-- ===== src/Scheduler/Ring.antt =====
-- scheduler.py: turning the ring past the unit that ran takes it from the front to the end.
use mathlib.Core.Path.{subst}
use pcomirror.Prelude.{
  String, ◌≡◌, refl, Bool, true, false, Option, none, some, List, [], ◌∷◌, ◌++◌, ◌==◌,
  if◌then◌else◌, arith, eq_iff, eq_refl, Bool-cases, inl, inr, ap, sym, ◌∙◌, contains,
}
use pcomirror.Scheduler.Cold.{Ring, cut_after, turned, rotated}

abbrev pub keys {ℓ} : {A : Type ℓ} → List (String × A) → List String
keys [] = []
keys ((k, a) ∷ ring) = k ∷ keys ring

-- No key stands twice.
abbrev pub IsDistinct : List String → Type 0
IsDistinct [] = Unit
IsDistinct (k ∷ ks) = (contains ks k ≡ false) × IsDistinct ks

-- The same as a test.
unfoldable pub is_distinct : List String → Bool
is_distinct [] = true
is_distinct (k ∷ ks) = if contains ks k then false else is_distinct ks

pub as_distinct : (ks : List String) → is_distinct ks ≡ true → IsDistinct ks
unfolding is_distinct
as_distinct [] e = tt
as_distinct (k ∷ ks) e = elim (Bool-cases (contains ks k)) [
  | inl y ↦ (let e' = rw (y, is_distinct) at e in (cc, as_distinct ks cc))
  | inr n ↦ (n, as_distinct ks (let e' = rw (n, is_distinct) at e in e'))
]

pub append_assoc : {A : Type 0} (xs ys zs : List A) → (xs ++ ys) ++ zs ≡ xs ++ (ys ++ zs)
append_assoc [] ys zs = refl
append_assoc (x ∷ xs) ys zs = ap (◌∷◌ x) (append_assoc xs ys zs)

pub append_nil : {A : Type 0} (xs : List A) → xs ++ [] ≡ xs
append_nil [] = refl
append_nil (x ∷ xs) = ap (◌∷◌ x) (append_nil xs)

-- The ring is cut at a key that does not stand before.
cut_after-here :
    {A : Type 0} (k : String) (a : A) (xs ys : Ring A)
    → contains (keys xs) k ≡ false
    → cut_after k (xs ++ ((k, a) ∷ ys)) ≡ some (xs ++ ((k, a) ∷ []), ys)
unfolding cut_after
cut_after-here k a [] ys n = rw (eq_refl k) refl
cut_after-here k a ((j, b) ∷ xs) ys n = elim (Bool-cases (j == k)) [
  | inl y ↦ (let bad = rw (y) at n in cc)
  | inr f ↦ (let n' = rw (f) at n in rw (f) (rw (cut_after-here k a xs ys n') refl))
]

-- One list is the other, cut and put together the other way round.
abbrev pub IsTurned : {A : Type 0} → Ring A → Ring A → Type 0
IsTurned {A} ring l = (xs : Ring A) × (ys : Ring A) × (ring ≡ xs ++ ys) × (l ≡ ys ++ xs)

abbrev pub Cuts : {A : Type 0} → Ring A → Option (Ring A × Ring A) → Type 0
Cuts ring none = Unit
Cuts ring (some (before, after)) = ring ≡ before ++ after

cut_after-Cuts : {A : Type 0} (k : String) (ring : Ring A) → Cuts ring (cut_after k ring)
unfolding cut_after
cut_after-Cuts k [] = tt
cut_after-Cuts {A} k ((j, a) ∷ ring) =
    by_key (j == k) _ (extended (cut_after k ring) (cut_after-Cuts k ring))
  where
    longer : Option (Ring A × Ring A) → Option (Ring A × Ring A)
    longer none = none
    longer (some (before, after)) = some ((j, a) ∷ before, after)

    extended :
        (o : Option (Ring A × Ring A))
        → Cuts ring o
        → Cuts ((j, a) ∷ ring) (elim o as (λ _. Option (Ring A × Ring A)) [
          | none ↦ none
          | some (before, after) ↦ some ((j, a) ∷ before, after)
        ])
    extended none c = tt
    extended (some (before, after)) c = ap (◌∷◌ (j, a)) c

    by_key :
        (b : Bool) (o : Option (Ring A × Ring A))
        → Cuts ((j, a) ∷ ring) o
        → Cuts ((j, a) ∷ ring) (if b then some ((j, a) ∷ [], ring) else o)
    by_key true o c = refl
    by_key false o c = c

turned-IsTurned :
    {A : Type 0} (ring : Ring A) (o : Option (Ring A × Ring A))
    → Cuts ring o
    → IsTurned ring (turned ring o)
unfolding turned
turned-IsTurned ring none c = ([], ring, refl, sym (append_nil ring))
turned-IsTurned ring (some (before, after)) c = (before, after, c, refl)

pub rotated-IsTurned :
    {A : Type 0} (last : Option String) (ring : Ring A) → IsTurned ring (rotated last ring)
unfolding rotated
rotated-IsTurned none ring = ([], ring, refl, sym (append_nil ring))
rotated-IsTurned (some k) ring = turned-IsTurned ring (cut_after k ring) (cut_after-Cuts k ring)

if_true : (b : Bool) (c : Bool) → c ≡ true → (if b then true else c) ≡ true
if_true true c e = refl
if_true false c e = e

distinct_before :
    {A : Type 0} (k : String) (a : A) (xs ys : Ring A)
    → IsDistinct (keys (xs ++ ((k, a) ∷ ys)))
    → contains (keys xs) k ≡ false
distinct_before k a [] ys d = refl
distinct_before k a ((j, b) ∷ xs) ys d = elim (Bool-cases (j == k)) [
  | inr f ↦ rw (f) (distinct_before k a xs ys d.1)
  | inl y ↦
      (let same : j ≡ k = ground (arith, eq_iff j k) in
        let held : contains (keys (xs ++ ((k, a) ∷ ys))) j ≡ true =
          subst (λ x. contains (keys (xs ++ ((k, a) ∷ ys))) x ≡ true) (sym same)
            (within k a xs ys) in
        let bad : true ≡ false = sym held ∙ d.0 in cc)
]
  where
    within :
        {A : Type 0} (k : String) (a : A) (xs ys : Ring A)
        → contains (keys (xs ++ ((k, a) ∷ ys))) k ≡ true
    within k a [] ys = rw (eq_refl k) refl
    within k a ((j, b) ∷ xs) ys = if_true (j == k) _ (within k a xs ys)

turned_past :
    {A : Type 0} (ring t pre post : Ring A) (k : String) (a : A)
    → IsDistinct (keys ring)
    → ring ≡ pre ++ ((k, a) ∷ post)
    → t ≡ post ++ pre
    → rotated (some k) ring ≡ t ++ ((k, a) ∷ [])
unfolding rotated turned
turned_past {A} ring t pre post k a d er et =
    let d' : IsDistinct (keys (pre ++ ((k, a) ∷ post))) = subst (λ x. IsDistinct (keys x)) er d in
    ap (λ x. turned x (cut_after k x)) er
    ∙ (ap (turned (pre ++ ((k, a) ∷ post)))
          (cut_after-here k a pre post (distinct_before k a pre post d'))
        ∙ (sym (append_assoc post pre ((k, a) ∷ [])) ∙ ap (λ x. x ++ ((k, a) ∷ [])) (sym et)))

-- From a turned ring, turning past its first unit takes that unit to the end.
pub rotated-first :
    {A : Type 0} (ring t : Ring A) (k : String) (a : A)
    → IsDistinct (keys ring)
    → IsTurned ring ((k, a) ∷ t)
    → rotated (some k) ring ≡ t ++ ((k, a) ∷ [])
rotated-first ring t k a d (xs, [], er, el) =
    turned_past ring t [] t k a d (er ∙ (append_nil xs ∙ sym el)) (sym (append_nil t))
rotated-first ring t k a d (xs, (j, b) ∷ ys, er, el) =
    let head : (k, a) ≡ (j, b) = first_of el in
    let rest : t ≡ ys ++ xs = rest_of el in
    turned_past ring t xs ys k a d (er ∙ ap (λ x. xs ++ (x ∷ ys)) (sym head)) rest
  where
    first_of : {B : Type 0} {x y : B} {u v : List B} → x ∷ u ≡ y ∷ v → x ≡ y
    first_of e = cc

    rest_of : {B : Type 0} {x y : B} {u v : List B} → x ∷ u ≡ y ∷ v → u ≡ v
    rest_of e = cc
