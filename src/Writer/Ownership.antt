-- ===== src/Writer/Ownership.antt =====
-- writer.py: a child does not outlive its owner, and comes back with it.
use pcomirror.Store.{SyncSource, from_reconcile}
use mathlib.Core.Option
use mathlib.Core.Path.{subst}
use pcomirror.Prelude.{
  String, ◌≡◌, refl, true, false, Option, none, some, List, ◌==◌, arith, ◌∙◌, is_some, is_text,
  Bool-cases, inl, inr, ap, sym, eq_iff, contains, newer,
}
use pcomirror.Result.{ok}
use pcomirror.Json.{Json}
use pcomirror.Store.Laws.{upserted}
use pcomirror.Store.{Row, is_at, select, uat, is_live, put_row}
use pcomirror.Writer.Ops.{Env, is_table, fresh, owner_deleted, bury}
use pcomirror.Writer.Upsert.{confirm_live, confirm_change, settle}
use pcomirror.Writer.Tombstone.{gone, stable_ts, may_bury, tombstone}
use pcomirror.Writer.Cascade.{select-key, owned_by, unbury_if}
use pcomirror.Writer.Owned.{owned_by-own, owned_by-congr}
use pcomirror.Writer.Look.{select-settle_put, is_at-fresh}
use pcomirror.Writer.Burials.{select-tombstone, buried, buried-owned, buried-deleted}

-- Every row that the record owns is deleted.
abbrev pub NoLiveChild : String → String → List Row → Type 0
NoLiveChild t i rs =
    (t' i' : String) (r : Row)
    → select t' i' rs ≡ some r
    → owned_by t i r ≡ true
    → is_some r.deleted_at ≡ true

-- A row that an operation leaves is the image of one that was there.
from_row :
    (f : Row → Row) (o : Option Row) (r : Row)
    → Option.map f o ≡ some r
    → (s : Row) × (o ≡ some s) × (f s ≡ r)
from_row f none r e = cc
from_row f (some s) r e = (s, refl, cc)

buried-NoLiveChild :
    (env : Env) (t i : String) (at : Option String) (reason : String) (into : Option String)
    (rs rs' : List Row)
    → contains gone reason ≡ true
    → ((t' i' : String)
        → select t' i' rs' ≡ Option.map (buried env t i at reason into) (select t' i' rs))
    → NoLiveChild t i rs'
buried-NoLiveChild env t i at reason into rs rs' g rows t' i' r e o =
    let (s, found, image) = from_row _ (select t' i' rs) r (sym (rows t' i') ∙ e) in
    subst (λ (u : Row). is_some u.deleted_at ≡ true) image
      (buried-deleted env t i at reason into s g
        (sym (buried-owned env t i at reason into s) ∙ (ap (owned_by t i) image ∙ o)))

-- A tombstone for a reason that means gone goes through, and leaves no live child of the record.
pub tombstone-NoLiveChild :
    (env : Env) (t i : String) (at : Json) (reason : String) (into : Option String) (rs : List Row)
    → is_table t ≡ true
    → contains gone reason ≡ true
    → (rs' : List Row) × (tombstone env t i at reason into rs ≡ ok rs') × NoLiveChild t i rs'
tombstone-NoLiveChild env t i at reason into rs h g =
    let (rs', went, rows) = select-tombstone env t i at reason into rs h in
    (rs', went, buried-NoLiveChild env t i (stable_ts at) reason into rs rs' g rows)

refused :
    (at : Option String) (r : Row)
    → r.deleted_at ≡ none
    → newer (uat r.raw) at ≡ true
    → may_bury at "destroyed" r ≡ false
unfolding may_bury
refused none r live old = ground arith
refused (some a) r live old = ground arith

stale_row :
    (env : Env) (t i : String) (at : Option String) (r : Row)
    → r.table ≡ t
    → r.deleted_at ≡ none
    → newer (uat r.raw) at ≡ true
    → buried env t i at "destroyed" none r ≡ r
stale_row env t i at r here live old =
    ground (arith, refused at r live old, owned_by-own t i r here)

-- A `destroyed` event that is older than the stored record is refused for the record itself, and
-- buries its children all the same: the record stays live, and none of its children does.
pub stale_destroyed_buries :
    (env : Env) (t i : String) (at : Json) (rs : List Row) (r : Row)
    → is_table t ≡ true
    → select t i rs ≡ some r
    → r.deleted_at ≡ none
    → newer (uat r.raw) (stable_ts at) ≡ true
    → (rs' : List Row) × (tombstone env t i at "destroyed" none rs ≡ ok rs')
      × (select t i rs' ≡ some r)
      × NoLiveChild t i rs'
stale_destroyed_buries env t i at rs r h e live old =
    let (rs', went, rows) = select-tombstone env t i at "destroyed" none rs h in
    (
      rs',
      went,
      rows t i
          ∙ rw e (ap some (stale_row env t i (stable_ts at) r (select-key t i rs r e).0 live old)),
      buried-NoLiveChild env t i (stable_ts at) "destroyed" none rs rs' refl rows,
    )

-- The child is no row of the owner's table.
not_own : (t i : String) (c : Row) → owned_by t i c ≡ true → (c.table == t) ≡ false
not_own t i c o = elim (Bool-cases (c.table == t)) [
  | inl same ↦ ground (arith, owned_by-own t i c ((eq_iff c.table t).0 same))
  | inr other ↦ other
]

buried-live_child :
    (env : Env) (t i : String) (at : Option String) (reason : String) (into : Option String)
    (c : Row)
    → contains gone reason ≡ true
    → owned_by t i c ≡ true
    → c.deleted_at ≡ none
    → buried env t i at reason into c ≡ bury env c
buried-live_child env t i at reason into c g o live = ground (arith, not_own t i c o)

buried-dead_child :
    (env : Env) (t i : String) (at : Option String) (reason : String) (into : Option String)
    (c : Row) {d : String}
    → owned_by t i c ≡ true
    → c.deleted_at ≡ some d
    → buried env t i at reason into c ≡ c
buried-dead_child env t i at reason into c o dead = ground (arith, not_own t i c o)

ne_child :
    (t i t' i' : String) (env : Env) (raw : Json) (source : SyncSource) (c : Row)
    → (c.table == t) ≡ false
    → c.table ≡ t'
    → is_at t' i' (fresh env t i raw source) ≡ false
ne_child t i t' i' env raw source c ne e = ground (arith, eq_iff t t', eq_iff c.table t)

elsewhere : (t t' : String) (c : Row) → (c.table == t) ≡ false → c.table ≡ t' → (t' == t) ≡ false
elsewhere t t' c ne e = ap (λ x. x == t) (sym e) ∙ ne

confirmed-live :
    (env : Env) (t i : String) (raw : Json) (source : SyncSource) (o : Option Row)
    → is_live (some (upserted (fresh env t i raw source) (confirm_change env raw source) o)) ≡ true
unfolding confirm_change
confirmed-live env t i raw source none = refl
confirmed-live env t i raw source (some r) = refl

-- `confirm_live` goes through, and any other row that the record owns is brought back if it was
-- buried with its owner, and else left alone.
confirm-child :
    (env : Env) (t i : String) (raw : Json) (source : SyncSource) (rs : List Row) (t' i' : String)
    (c : Row)
    → is_table t ≡ true
    → select t' i' rs ≡ some c
    → owned_by t i c ≡ true
    → (rs' : List Row) × (confirm_live env t i raw source rs ≡ ok rs')
      × (select t' i' rs' ≡ some (unbury_if env true c))
unfolding confirm_live confirm_change
confirm-child env t i raw source rs t' i' c h e o = (
  settle env t i (put_row (fresh env t i raw source) (confirm_change env raw source) rs),
  rw h refl,
  select-settle_put env t i (fresh env t i raw source) (confirm_change env raw source) rs
        (is_at-fresh env t i raw source) (λ r. (refl, refl)) t' i'
        (elsewhere t t' c (not_own t i c o) (select-key t' i' rs c e).0)
        (ne_child t i t' i' env raw source c (not_own t i c o) (select-key t' i' rs c e).0)
      ∙ rw e (rw o (rw (confirmed-live env t i raw source (select t i rs)) refl)),
)

-- A record that is found gone and then confirmed live gets back every child that was live before:
-- both operations go through, and the child's whole row is what it was, its payload and its typed
-- columns included, but for when and from where it was last written and that it carries no trace of
-- a tombstone.
pub tombstone-confirm_live :
    (env env' : Env) (t i : String) (at : Json) (reason : String) (into : Option String)
    (raw : Json) (source : SyncSource) (rs : List Row) (t' i' : String) (c : Row)
    → is_table t ≡ true
    → contains gone reason ≡ true
    → select t' i' rs ≡ some c
    → owned_by t i c ≡ true
    → c.deleted_at ≡ none
    → (rs1 rs2 : List Row) × (tombstone env t i at reason into rs ≡ ok rs1)
      × (confirm_live env' t i raw source rs1 ≡ ok rs2)
      × (select t' i' rs2
          ≡ some (record c {
            deleted_at = none;
            tombstone_uat = none;
            tombstone_reason = none;
            last_synced_at = env'.now;
            source = from_reconcile;
          }))
tombstone-confirm_live env env' t i at reason into raw source rs t' i' c h g e o live =
    let (rs1, went1, rows) = select-tombstone env t i at reason into rs h in
    let found =
      rows t' i'
      ∙ rw e (ap some (buried-live_child env t i (stable_ts at) reason into c g o live)) in
    let (rs2, went2, seen) =
      confirm-child env' t i raw source rs1 t' i' (bury env c) h found
        (owned_by-congr t i (bury env c) c refl refl ∙ o) in
    (rs1, rs2, went1, went2, seen)

-- A child that was deleted on its own evidence stays as it was through the same two operations.
pub tombstone-confirm_live_dead :
    (env env' : Env) (t i : String) (at : Json) (reason : String) (into : Option String)
    (raw : Json) (source : SyncSource) (rs : List Row) (t' i' : String) (c : Row) {d : String}
    → is_table t ≡ true
    → select t' i' rs ≡ some c
    → owned_by t i c ≡ true
    → c.deleted_at ≡ some d
    → is_text c.tombstone_reason owner_deleted ≡ false
    → (rs1 rs2 : List Row) × (tombstone env t i at reason into rs ≡ ok rs1)
      × (confirm_live env' t i raw source rs1 ≡ ok rs2)
      × (select t' i' rs2 ≡ some c)
tombstone-confirm_live_dead env env' t i at reason into raw source rs t' i' c h e o dead
      own_reason =
    let (rs1, went1, rows) = select-tombstone env t i at reason into rs h in
    let found =
      rows t' i' ∙ rw e (ap some (buried-dead_child env t i (stable_ts at) reason into c o dead)) in
    let (rs2, went2, seen) = confirm-child env' t i raw source rs1 t' i' c h found o in
    (rs1, rs2, went1, went2, seen ∙ rw own_reason refl)
