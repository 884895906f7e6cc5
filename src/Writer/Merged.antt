-- ===== src/Writer/Merged.antt =====
-- writer.py: a merged row through one settled write.
use pcomirror.Store.{SyncSource}
use mathlib.Core.Path.{subst}
use pcomirror.Prelude.{
  String, ◌≡◌, refl, Bool, true, false, some, List, ◌==◌, ◌&&◌, if◌then◌else◌, arith, ◌∙◌, ◌⊎◌,
  is_some, Bool-cases, Option-cases, inl, inr, ap, sym, eq_iff,
}
use pcomirror.Result.{Exn, ok, err}
use pcomirror.Json.{Json}
use pcomirror.Store.{Row, select, put_row, is_at}
use pcomirror.Store.Laws.{select-put_row, KeepsKey}
use pcomirror.Writer.Ops.{Env, fresh}
use pcomirror.Writer.Upsert.{upsert_change, untimed_change, settle}
use pcomirror.Writer.Routing.{ok_injective}
use pcomirror.Writer.Cascade.{unbury_if}
use pcomirror.Writer.Look.{look, untyped, look-settle_self, look-settle_ne, is_at-fresh}

-- The row is a merge's tombstone.
abbrev pub RowIsMerged : Row → Type 0
RowIsMerged r = (is_some r.deleted_at ≡ true) × (r.tombstone_reason ≡ some "merged")

abbrev pub IsMerged : String → String → List Row → Type 0
IsMerged t i rs = (r : Row) × (look t i rs ≡ some r) × RowIsMerged r

-- The row that stands behind `look`.
pub found :
    (t i : String) (rs : List Row)
    → IsMerged t i rs
    → (r : Row) × (select t i rs ≡ some r) × RowIsMerged r
found t i rs (r, e, m) = elim (Option-cases (select t i rs)) [
  | inl n ↦ ground arith
  | inr (s, n) ↦ (s, n, ground arith)
]

module _ (env : Env) (t i : String) (raw : Json) (source : SyncSource) where
  pub upsert_change-RowIsMerged :
      (r : Row) → RowIsMerged r → RowIsMerged (upsert_change env raw source r)
  unfolding upsert_change
  upsert_change-RowIsMerged r m = ground arith

  pub untimed_change-RowIsMerged :
      (r : Row) → RowIsMerged r → RowIsMerged (untimed_change env raw source r)
  unfolding untimed_change
  untimed_change-RowIsMerged r m = m

unbury_if-RowIsMerged : (env : Env) (b : Bool) (r : Row) → RowIsMerged r → unbury_if env b r ≡ r
unbury_if-RowIsMerged env b r m = ground arith

-- A record's own write, whose change respects merges, once it is settled.
pub no_result : (x : Exn) (rs : List Row) → ¬ (err x ≡ ok rs)
no_result x rs e = cc

settle-IsMerged_self :
    (env : Env) (t i : String) (raw : Json) (source : SyncSource) (change : Row → Row)
    (rs : List Row)
    → KeepsKey change
    → ((r : Row) → RowIsMerged r → RowIsMerged (change r))
    → IsMerged t i rs
    → IsMerged t i (settle env t i (put_row (fresh env t i raw source) change rs))
settle-IsMerged_self env t i raw source change rs keeps respects m =
    let (r, e, mr) = found t i rs m in
    (
      untyped (change r),
      look-settle_self env t i (fresh env t i raw source) change rs (is_at-fresh env t i raw source)
            keeps
          ∙ rw e refl,
      respects r mr,
    )

-- Two keys are one, or different.
same_key : (t i t' i' : String) → ((t' ≡ t) × (i' ≡ i)) ⊎ ((t' == t && i' == i) ≡ false)
same_key t i t' i' = ground (arith, eq_iff t' t, eq_iff i' i)

-- A write of another record leaves a merged row alone: what it brings back was buried with it.
pub settle-IsMerged_ne :
    (env : Env) (t i t' i' : String) (raw : Json) (source : SyncSource) (change : Row → Row)
    (rs : List Row)
    → KeepsKey change
    → (t' == t && i' == i) ≡ false
    → IsMerged t i rs
    → IsMerged t i (settle env t' i' (put_row (fresh env t' i' raw source) change rs))
settle-IsMerged_ne env t i t' i' raw source change rs keeps other m =
    let (r, e, mr) = found t i rs m in
    (
      untyped r,
      look-settle_ne env t' i' (fresh env t' i' raw source) change rs
            (is_at-fresh env t' i' raw source) keeps t i other
          ∙ rw e (ap some (ap untyped (unbury_if-RowIsMerged env _ r mr))),
      mr,
    )

pub put-IsMerged :
    (t i : String) (new : Row) (change : Row → Row) (rs : List Row)
    → KeepsKey change
    → ((r : Row) → RowIsMerged r → RowIsMerged (change r))
    → IsMerged t i rs
    → IsMerged t i (put_row new change rs)
put-IsMerged t i new change rs keeps respects m =
    let (r, e, mr) = found t i rs m in
    elim (Bool-cases (is_at t i new)) [
      | inl same ↦ (
        untyped (change r),
        rw (select-put_row t i new change rs keeps) (rw (same, e) refl),
        respects r mr,
      )
      | inr other ↦
          (untyped r, rw (select-put_row t i new change rs keeps) (rw (other, e) refl), mr)
    ]

pub guarded-IsMerged :
    (t i : String) (b : Bool) (x : Exn) (rs rs' : List Row)
    → IsMerged t i rs
    → (if b then ok rs else err x) ≡ ok rs'
    → IsMerged t i rs'
guarded-IsMerged t i true x rs rs' m e = subst (IsMerged t i) (ok_injective rs rs' e) m
guarded-IsMerged t i false x rs rs' m e = cc

-- The same for a write of any record.
pub settle-IsMerged :
    (env : Env) (t i t' i' : String) (raw : Json) (source : SyncSource) (change : Row → Row)
    (rs : List Row)
    → KeepsKey change
    → ((r : Row) → RowIsMerged r → RowIsMerged (change r))
    → IsMerged t i rs
    → IsMerged t i (settle env t' i' (put_row (fresh env t' i' raw source) change rs))
settle-IsMerged env t i t' i' raw source change rs keeps respects m = elim (same_key t i t' i') [
  | inl (p, q) ↦
      subst (λ u. IsMerged u i (settle env t' i' (put_row (fresh env t' i' raw source) change rs)))
        p
        (subst
          (λ v. IsMerged t' v (settle env t' i' (put_row (fresh env t' i' raw source) change rs))) q
          (settle-IsMerged_self env t' i' raw source change rs keeps respects
            (subst (λ u. IsMerged u i' rs) (sym p) (subst (λ v. IsMerged t v rs) (sym q) m))))
  | inr other ↦ settle-IsMerged_ne env t i t' i' raw source change rs keeps other m
]
