-- ===== src/Writer/Overwrites.antt =====
-- writer.py: how a merge's tombstone is lost.

use pcomirror.Store.{SyncSource}
use pcomirror.Prelude.{
  String, ◌≡◌, refl, true, false, none, some, List, ◌==◌, arith, ◌∙◌, ap, eq_iff, text_lt,
}
use pcomirror.Result.{ok}
use pcomirror.Json.{Json, str}
use pcomirror.Store.{Row, uat, select, put_row}
use pcomirror.Store.Laws.{KeepsKey}
use pcomirror.Writer.Ops.{Env, is_table, fresh}
use pcomirror.Writer.Upsert.{upsert, upsert_change, settle, clears}
use pcomirror.Writer.Tombstone.{tombstone, stable_ts, tombstone_change, may_bury}
use pcomirror.Writer.Cascade.{select-key}
use pcomirror.Writer.Look.{look, untyped, look-settle_self, is_at-fresh}
use pcomirror.Writer.Burials.{select-tombstone, buried}
use pcomirror.Writer.Merged.{IsMerged, RowIsMerged, found}

revived :
    (env : Env) (raw : Json) (source : SyncSource) (r : Row)
    → clears raw r ≡ true
    → (upsert_change env raw source r).deleted_at ≡ none
unfolding upsert_change
revived env raw source r c = ground arith

overwritten :
    (env : Env) (t i at : String) (r : Row)
    → (r.table ≡ t) × (r.pco_id ≡ i)
    → (at == "") ≡ false
    → RowIsMerged r
    → buried env t i (stable_ts (str at)) "destroyed" none r
      ≡ tombstone_change env (some at) "destroyed" none r
unfolding stable_ts may_bury tombstone_change
overwritten env t i at r (p, q) dated m = ground (arith, eq_iff r.table t, eq_iff r.pco_id i)

overwritten-clears :
    (env : Env) (at u : String) (raw : Json) (r : Row)
    → uat raw ≡ some u
    → text_lt at u ≡ true
    → clears raw (tombstone_change env (some at) "destroyed" none r) ≡ true
unfolding tombstone_change
overwritten-clears env at u raw r e later = rw e later

upsert_change-KeepsKey :
    (env : Env) (raw : Json) (source : SyncSource) → KeepsKey (upsert_change env raw source)
unfolding upsert_change
upsert_change-KeepsKey env raw source r = (refl, refl)

upsert-goes :
    (env : Env) (t i : String) (raw : Json) (source : SyncSource) (rs : List Row)
    → is_table t ≡ true
    → upsert env t i raw source rs
      ≡ ok (settle env t i (put_row (fresh env t i raw source) (upsert_change env raw source) rs))
unfolding upsert
upsert-goes env t i raw source rs h = rw h refl

-- A `destroyed` tombstone on a merged record takes the merge's reason away, after which an update
-- that is newer than the event makes the record live again.
pub destroyed_ends_merge :
    (env env' : Env) (t i : String) (u at : String) (raw : Json) (source : SyncSource)
    (rs : List Row)
    → is_table t ≡ true
    → (at == "") ≡ false
    → IsMerged t i rs
    → uat raw ≡ some u
    → text_lt at u ≡ true
    → (rs1 rs2 : List Row) × (r : Row) × (tombstone env t i (str at) "destroyed" none rs ≡ ok rs1)
      × (upsert env' t i raw source rs1 ≡ ok rs2)
      × (look t i rs2 ≡ some r)
      × (r.deleted_at ≡ none)
destroyed_ends_merge env env' t i u at raw source rs h dated m newer_update later =
    let (rs1, went1, rows) = select-tombstone env t i (str at) "destroyed" none rs h in
    let (r, f, mr) = found t i rs m in
    let b = tombstone_change env (some at) "destroyed" none r in
    let there : select t i rs1 ≡ some b =
      rows t i ∙ rw f (ap some (overwritten env t i at r (select-key t i rs r f) dated mr)) in
    (
      rs1,
      settle env' t i (put_row (fresh env' t i raw source) (upsert_change env' raw source) rs1),
      untyped (upsert_change env' raw source b),
      went1,
      upsert-goes env' t i raw source rs1 h,
      look-settle_self env' t i (fresh env' t i raw source) (upsert_change env' raw source) rs1
            (is_at-fresh env' t i raw source) (upsert_change-KeepsKey env' raw source)
          ∙ rw there refl,
      revived env' raw source b (overwritten-clears env at u raw r newer_update later),
    )
