-- ===== src/Store/Rows.antt =====
-- db.py: rows and the statements that read and write them. `_BOOKKEEPING` names the columns.
use pcomirror.Prelude.{
  String, Bool, false, Option, none, some, List, [], ◌∷◌, ◌==◌, ◌&&◌, if◌then◌else◌, is_some, not,
  map,
}
use pcomirror.Json.{Json, extract}

-- The plain columns of `field_datum`, filled by the writer. A number keeps its text.
pub record Typed : Type 0 where
  pub value_text : Option String
  pub value_number : Option String
  pub value_date : Option String
  pub value_bool : Option Bool

abbrev pub blank : Typed
blank = record { value_text = none; value_number = none; value_date = none; value_bool = none }

-- What the column `source` may hold.
pub data SyncSource : Type 0 where
  from_webhook from_backfill from_reconcile from_passthrough : SyncSource

pub record Row : Type 0 where
  pub table : String
  pub pco_id : String
  pub raw : Json
  pub first_seen_at : String
  pub last_synced_at : String
  pub source : SyncSource
  pub api_version : String
  pub deleted_at : Option String
  pub tombstone_uat : Option String
  pub tombstone_reason : Option String
  pub merged_into_pco_id : Option String
  pub typed : Typed

-- `raw ->> '$.attributes.updated_at'`
unfoldable pub uat : Json → Option String
uat raw = extract ("attributes" ∷ "updated_at" ∷ []) raw

abbrev pub is_at : String → String → Row → Bool
is_at t i r = r.table == t && r.pco_id == i

-- SELECT … FROM t WHERE pco_id = i
unfoldable pub select : String → String → List Row → Option Row
select t i [] = none
select t i (r ∷ rs) = if is_at t i r then some r else select t i rs

-- INSERT … ON CONFLICT(pco_id) DO UPDATE SET …: `change` computes the row after the conflict.
unfoldable pub put_row : Row → (Row → Row) → List Row → List Row
put_row new change [] = new ∷ []
put_row new change (r ∷ rs) =
    if is_at new.table new.pco_id r then change r ∷ rs else r ∷ put_row new change rs

-- UPDATE … SET … WHERE …
unfoldable pub update_where : (Row → Bool) → (Row → Row) → List Row → List Row
update_where p change rs = map (λ r. if p r then change r else r) rs

-- EXISTS (SELECT 1 FROM t WHERE pco_id = i AND deleted_at IS NULL), at the row that a primary key
-- makes the only one.
abbrev pub is_live : Option Row → Bool
is_live none = false
is_live (some r) = not (is_some r.deleted_at)
