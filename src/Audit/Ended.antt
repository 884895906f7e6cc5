-- ===== src/Audit/Ended.antt =====
-- ingest.py: what a phase of the audit leaves when it comes to its end.
use mathlib.Core.Path.{subst}
use Prim.Native.Nat.{◌+◌}
use pcomirror.Prelude.{
  String, ◌≡◌, refl, true, none, some, List, [], ◌∷◌, ◌<◌, ◌≤◌, if◌then◌else◌, arith, eq_refl,
  Bool-cases, inl, inr, ap, sym, ◌∙◌, length, contains,
}
use pcomirror.Result.{ok, err}
use pcomirror.Store.{Row}
use pcomirror.Ingest.Remote.{Step}
use pcomirror.Audit.Round.{Audit, Going, ◌going◌, least, least_of, delete_id, is_before}
use pcomirror.Audit.Settle.{on_rows}

pub least_of-held : (i : String) (js : List String) → contains (i ∷ js) (least_of i js) ≡ true
unfolding least_of
least_of-held i [] = ground (arith, eq_refl i)
least_of-held i (j ∷ js) = elim (Bool-cases (is_before j i)) [
  | inl y ↦ rw (y, least_of) (let h = least_of-held j js in ground arith)
  | inr n ↦ rw (n, least_of) (let h = least_of-held i js in ground arith)
]

pub delete_id-shorter :
    (i : String) (js : List String)
    → length (delete_id i js) + (if contains js i then 1 else 0) ≤ length js
unfolding delete_id
delete_id-shorter i [] = omega arith
delete_id-shorter i (j ∷ js) = let h = delete_id-shorter i js in ground arith

-- What a request was spent on is one less of what is left.
pub least-shorter :
    (i : String) (js : List String) → least js ≡ some i → length (delete_id i js) < length js
unfolding least
least-shorter i [] e =
    subst (λ o. elim o [ none ↦ Unit | some x ↦ length (delete_id i []) < 0 ]) e tt
least-shorter i (j ∷ js) e =
    let held : contains (j ∷ js) i ≡ true =
      ap (contains (j ∷ js)) (sym (some_inj e)) ∙ least_of-held j js in
    let shorter = delete_id-shorter i (j ∷ js) in ground arith
  where
    some_inj : {a b : String} → some a ≡ some b → a ≡ b
    some_inj e = cc

-- What holds of the outcome of what goes through.
abbrev pub Ended : {A : Type 0} → (A → Audit → Type 0) → Going A → Type 0
Ended P (a, ok x) = P x a
Ended P (a, err e) = Unit

pub going-Ended :
    {A B : Type 0} (P : B → Audit → Type 0) (m : Going A) (f : A → Audit → Going B)
    → ((x : A) (a : Audit) → m ≡ (a, ok x) → Ended P (f x a))
    → Ended P (m going f)
going-Ended P (a, ok x) f h = h x a refl
going-Ended P (a, err e) f h = tt

pub map-Ended :
    {A : Type 0} (P Q : A → Audit → Type 0) (m : Going A)
    → ((x : A) (a : Audit) → P x a → Q x a)
    → Ended P m
    → Ended Q m
map-Ended P Q (a, ok x) h p = h x a p
map-Ended P Q (a, err e) h p = tt

pub Ended_ok :
    {A : Type 0} (P : A → Audit → Type 0) (m : Going A) {a : Audit} {x : A}
    → Ended P m
    → m ≡ (a, ok x)
    → P x a
Ended_ok P m h e = subst (Ended P) e h

-- The scratch sets as they were.
abbrev pub SameSets : {A : Type 0} → Audit → A → Audit → Type 0
SameSets a x a' = (a'.candidates ≡ a.candidates) × (a'.live ≡ a.live)

pub on_rows-SameSets :
    {A : Type 0} (a : Audit) (step : List Row → Step A) → Ended (SameSets a) (on_rows a step)
unfolding on_rows
on_rows-SameSets {A} a step = either_way (step a.db.rows)
  where
    either_way :
        (s : Step A)
        → Ended (SameSets {A = A} a) (record a { db = record a.db { rows = s.0 } }, s.1)
    either_way (rs, ok x) = (refl, refl)
    either_way (rs, err e) = tt
