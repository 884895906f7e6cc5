-- ===== src/Writer/Merges.antt =====
-- writer.py: merges are terminal.

use pcomirror.Store.{SyncSource}
use mathlib.Core.Path.{subst}
use pcomirror.Prelude.{
  String, ◌≡◌, refl, Bool, true, false, Option, List, [], ◌∷◌, ◌==◌, ◌&&◌, arith, ◌∙◌, ◌⊎◌,
  Bool-cases, inl, inr, sym, eq_iff, contains,
}
use pcomirror.Result.{ok}
use pcomirror.Json.{Json}
use pcomirror.Store.{Row, is_at}
use pcomirror.Writer.Ops.{Env, is_table, fresh}
use pcomirror.Writer.Project.{project_field_datum, project_each, data_of, reproject_field_data}
use pcomirror.Writer.Upsert.{
  upsert, upsert_untimed, confirm_live, upsert_change, untimed_change, confirm_change,
}
use pcomirror.Writer.Tombstone.{tombstone, stable_ts, gone, tombstone_change}
use pcomirror.Writer.Routing.{Keeps, route_page-Keeps, ok_injective}
use pcomirror.Writer.Cascade.{owned_by, select-key, bury_if}
use pcomirror.Writer.Look.{untyped, look-project}
use pcomirror.Writer.Burials.{select-tombstone, buried, marked}
use pcomirror.Writer.Steps.{Write, Writes, Spares, AllSpare}
use pcomirror.Writer.Merged.{
  upsert_change-RowIsMerged, untimed_change-RowIsMerged, RowIsMerged, IsMerged, found, no_result,
  settle-IsMerged_ne, put-IsMerged, guarded-IsMerged, settle-IsMerged,
}

upsert-IsMerged :
    (t i : String) (env : Env) (t' i' : String) (raw : Json) (source : SyncSource)
    → Keeps (IsMerged t i) (upsert env t' i' raw source)
unfolding upsert upsert_change
upsert-IsMerged t i env t' i' raw source rs rs' m e =
    guarded-IsMerged t i (is_table t') _ _ rs'
      (settle-IsMerged env t i t' i' raw source (upsert_change env raw source) rs
        (λ r. (refl, refl)) (upsert_change-RowIsMerged env t' i' raw source) m)
      e

untimed-IsMerged :
    (t i : String) (env : Env) (t' i' : String) (raw : Json) (source : SyncSource)
    → Keeps (IsMerged t i) (upsert_untimed env t' i' raw source)
unfolding upsert_untimed
untimed-IsMerged t i env t' i' raw source rs rs' m e =
    guarded-IsMerged t i (is_table t') _ _ rs'
      (put-IsMerged t i (fresh env t' i' raw source) (untimed_change env raw source) rs
        (λ r. (refl, refl)) (untimed_change-RowIsMerged env t' i' raw source) m)
      e

confirm-IsMerged :
    (t i : String) (env : Env) (t' i' : String) (raw : Json) (source : SyncSource)
    → (t' == t && i' == i) ≡ false
    → Keeps (IsMerged t i) (confirm_live env t' i' raw source)
unfolding confirm_live confirm_change
confirm-IsMerged t i env t' i' raw source other rs rs' m e =
    guarded-IsMerged t i (is_table t') _ _ rs'
      (settle-IsMerged_ne env t i t' i' raw source (confirm_change env raw source) rs
        (λ r. (refl, refl)) other m)
      e

bury_if-RowIsMerged :
    (env : Env) (b : Bool) (r : Row) → RowIsMerged r → RowIsMerged (bury_if env b r)
bury_if-RowIsMerged env b r m = ground arith

marked-RowIsMerged :
    (env : Env) (t i : String) (at : Option String) (reason : String) (into : Option String)
    (r : Row)
    → (is_at t i r ≡ false) ⊎ (reason ≡ "merged")
    → RowIsMerged r
    → RowIsMerged (marked env t i at reason into r)
unfolding tombstone_change
marked-RowIsMerged env t i at reason into r (inl other) m = ground arith
marked-RowIsMerged env t i at reason into r (inr merge) m = ground arith

spared_row :
    (t i t' i' reason : String) (r : Row)
    → r.table ≡ t
    → r.pco_id ≡ i
    → ((t' == t && i' == i) ≡ false) ⊎ (reason ≡ "merged")
    → (is_at t' i' r ≡ false) ⊎ (reason ≡ "merged")
spared_row t i t' i' reason r p q (inl other) =
    inl (ground (arith, eq_iff r.table t', eq_iff r.pco_id i', eq_iff t' t, eq_iff i' i))
spared_row t i t' i' reason r p q (inr merge) = inr merge

tombstone-goes :
    (env : Env) (t i : String) (at : Json) (reason : String) (into : Option String)
    (rs rs' : List Row)
    → tombstone env t i at reason into rs ≡ ok rs'
    → is_table t ≡ true
unfolding tombstone
tombstone-goes env t i at reason into rs rs' e = elim (Bool-cases (is_table t)) [
  | inl h ↦ h
  | inr h ↦ absurd (no_result _ _ (rw h at e))
]

tombstone-IsMerged :
    (t i : String) (env : Env) (t' i' : String) (at : Json) (reason : String) (into : Option String)
    → ((t' == t && i' == i) ≡ false) ⊎ (reason ≡ "merged")
    → Keeps (IsMerged t i) (tombstone env t' i' at reason into)
tombstone-IsMerged t i env t' i' at reason into spared rs rs' m e =
    let (x, went, rows) =
      select-tombstone env t' i' at reason into rs
        (tombstone-goes env t' i' at reason into rs rs' e) in
    let (r, f, mr) = found t i rs m in
    let (p, q) = select-key t i rs r f in
    let r' = marked env t' i' (stable_ts at) reason into r in
    subst (IsMerged t i) (ok_injective x rs' (sym went ∙ e)) (
      untyped (buried env t' i' (stable_ts at) reason into r),
      rw (rows t i) (rw f refl),
      bury_if-RowIsMerged env (contains gone reason && owned_by t' i' r') r' (
          marked-RowIsMerged env t' i' (stable_ts at) reason into r
            (spared_row t i t' i' reason r p q spared) mr),
    )

project_each-IsMerged :
    (t i : String) (env : Env) (is : List String) (rs : List Row)
    → IsMerged t i rs
    → IsMerged t i (project_each env is rs)
unfolding project_each
project_each-IsMerged t i env [] rs m = m
project_each-IsMerged t i env (j ∷ js) rs (r, e, mr) =
    project_each-IsMerged t i env js (project_field_datum env j rs)
      (r, look-project t i env j rs ∙ e, mr)

Write-IsMerged :
    (t i : String) {rs rs' : List Row} (w : Write rs rs')
    → Spares t i w
    → IsMerged t i rs
    → IsMerged t i rs'
unfolding reproject_field_data
Write-IsMerged t i {rs} {rs'} (Write.upserts env t' i' raw source e) s m =
    upsert-IsMerged t i env t' i' raw source rs rs' m e
Write-IsMerged t i {rs} {rs'} (Write.untimed env t' i' raw source e) s m =
    untimed-IsMerged t i env t' i' raw source rs rs' m e
Write-IsMerged t i {rs} {rs'} (Write.confirms env t' i' raw source e) s m =
    confirm-IsMerged t i env t' i' raw source s rs rs' m e
Write-IsMerged t i {rs} {rs'} (Write.buries env t' i' at reason into e) s m =
    tombstone-IsMerged t i env t' i' at reason into s rs rs' m e
Write-IsMerged t i {rs} {rs'} (Write.pages env source synthesized hint body e) s m =
    subst (IsMerged t i) e (
      route_page-Keeps (IsMerged t i) (upsert-IsMerged t i) (untimed-IsMerged t i) env source
        synthesized hint body rs m)
Write-IsMerged t i {rs} {rs'} (Write.reprojects env definition e) s m =
    subst (IsMerged t i) e (project_each-IsMerged t i env (data_of definition rs) rs m)

-- A merge is terminal: a merged record stays deleted and merged through any run of writes and
-- pages, unless one of them confirms it live or tombstones it for another reason.
pub Writes-IsMerged :
    (t i : String) {rs rs' : List Row} (ws : Writes rs rs')
    → AllSpare t i ws
    → IsMerged t i rs
    → IsMerged t i rs'
Writes-IsMerged t i Writes.here s m = m
Writes-IsMerged t i (Writes.next ws w) s m = Write-IsMerged t i w s.1 (Writes-IsMerged t i ws s.0 m)
