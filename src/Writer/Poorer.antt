-- ===== src/Writer/Poorer.antt =====
-- writer.py, `upsert`: what one delivery leaves of a stored payload.

use pcomirror.Store.{SyncSource}
use pcomirror.Prelude.{
  String, ◌≡◌, refl, true, false, some, List, [], ◌∷◌, arith, ◌∙◌, Bool-cases, inl, inr, ap,
  eq_refl, newer, ◌⊎◌, length, ◌<◌,
}
use pcomirror.Result.{ok}
use pcomirror.Json.{Json}
use pcomirror.Store.{Row, uat}
use pcomirror.Writer.Ops.{Env, is_table}
use pcomirror.Writer.Upsert.{keep_raw, covers, rel_keys, upsert}
use pcomirror.Writer.Convergence.{raw_at, kept, raw_at-upsert, newer_asym, newer_irrefl}

covers-cons : (ks ls : List String) (k : String) → covers ks ls ≡ true → covers ks (k ∷ ls) ≡ true
covers-cons [] ls k h = refl
covers-cons (j ∷ ks) ls k h = ground (arith, covers-cons ks ls k)

covers_self : (ks : List String) → covers ks ks ≡ true
covers_self [] = refl
covers_self (k ∷ ks) = ground (arith, eq_refl k, covers-cons ks ks k (covers_self ks))

-- A payload that names no fewer relationships than `held`: all of those, or more in number.
abbrev pub NotPoorer : Json → Json → Type 0
NotPoorer held p =
    (covers (rel_keys held) (rel_keys p) ≡ true) ⊎ (length (rel_keys held) < length (rel_keys p))

keep_raw-newer : (held q : Json) → newer (uat q) (uat held) ≡ true → keep_raw held q ≡ q
unfolding keep_raw
keep_raw-newer held q n = rw n refl

keep_raw-NotPoorer :
    (held q : Json) → newer (uat q) (uat held) ≡ false → NotPoorer held (keep_raw held q)
unfolding keep_raw
keep_raw-NotPoorer held q h = elim (Bool-cases (covers (rel_keys held) (rel_keys q))) [
  | inl c ↦ ground (arith, covers_self (rel_keys held))
  | inr c ↦ ground (arith, covers_self (rel_keys held))
]

keep_raw-not_older :
    (held q : Json)
    → (newer (uat held) (uat (keep_raw held q)) ≡ false)
      × (newer (uat q) (uat (keep_raw held q)) ≡ false)
unfolding keep_raw
keep_raw-not_older held q =
    ground (arith, newer_asym (uat q) (uat held), newer_irrefl (uat q), newer_irrefl (uat held))

newer_or_richer :
    (held q : Json)
    → (newer (uat (keep_raw held q)) (uat held) ≡ true) ⊎ NotPoorer held (keep_raw held q)
newer_or_richer held q = elim (Bool-cases (newer (uat q) (uat held))) [
  | inl n ↦ inl (rw (keep_raw-newer held q n) n)
  | inr n ↦ inr (keep_raw-NotPoorer held q n)
]

-- An `upsert` over a stored payload goes through and leaves one that is older than neither, and
-- that is strictly newer than the stored one or names no fewer relationships.
pub upsert-NotPoorer :
    (env : Env) (t i : String) (raw : Json) (source : SyncSource) (rs : List Row) (held : Json)
    → is_table t ≡ true
    → raw_at t i rs ≡ some held
    → (rs' : List Row) × (p : Json) × (upsert env t i raw source rs ≡ ok rs')
      × (raw_at t i rs' ≡ some p)
      × (newer (uat held) (uat p) ≡ false)
      × (newer (uat raw) (uat p) ≡ false)
      × ((newer (uat p) (uat held) ≡ true) ⊎ NotPoorer held p)
upsert-NotPoorer env t i raw source rs held h e =
    let (rs', went, now) = raw_at-upsert env t i raw source rs h in
    let (one, two) = keep_raw-not_older held raw in
    (
      rs',
      keep_raw held raw,
      went,
      now ∙ ap some (ap (kept raw) e),
      one,
      two,
      newer_or_richer held raw,
    )
