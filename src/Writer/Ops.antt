-- ===== src/Writer/Ops.antt =====
-- writer.py: what the statements share, and the cascade to and from the records that a record owns.
use pcomirror.Store.{SyncSource, from_reconcile}
use pcomirror.Prelude.{
  String, Bool, Option, none, some, List, [], ◌∷◌, ◌==◌, ◌&&◌, ◌||◌, not, is_some, is_text,
  or_default,
}
use pcomirror.Json.{Json}
use pcomirror.Registry.{Resource, by_table, owned_children}
use pcomirror.Registry.Columns.{column}
use pcomirror.Store.{Row, blank, uat, select, update_where, is_live}

pub record Env : Type 0 where
  pub now : String
  pub api_version : String
  pub float : String → Option String

-- `_table`: the tables that a statement may name.
unfoldable pub is_table : String → Bool
is_table t = is_some (by_table t) || t == "person_merger"

-- `INSERT INTO t(pco_id,raw,first_seen_at,last_synced_at,source,api_version) VALUES …`
abbrev pub fresh : Env → String → String → Json → SyncSource → Row
fresh env t i raw source = record {
  table = t;
  pco_id = i;
  raw = raw;
  first_seen_at = env.now;
  last_synced_at = env.now;
  source = source;
  api_version = env.api_version;
  deleted_at = none;
  tombstone_uat = none;
  tombstone_reason = none;
  merged_into_pco_id = none;
  typed = blank;
}

abbrev pub owner_deleted : String
owner_deleted = "owner_deleted"

-- A row of the child's table whose foreign key names the owner.
abbrev pub belongs : Resource × String → String → Row → Bool
belongs (child, fk) i r = r.table == child.table && is_text (column child fk r.raw) i

abbrev pub bury : Env → Row → Row
bury env r = record r {
  deleted_at = some env.now;
  tombstone_uat = some (or_default (uat r.raw) env.now);
  tombstone_reason = some owner_deleted;
  last_synced_at = env.now;
  source = from_reconcile;
}

unfoldable pub cascade_children : Env → String → List (Resource × String) → List Row → List Row
cascade_children env i [] rs = rs
cascade_children env i (c ∷ cs) rs =
    cascade_children env i cs
      (update_where (λ r. belongs c i r && not (is_some r.deleted_at)) (bury env) rs)

-- `_cascade`
unfoldable pub cascade : Env → String → String → List Row → List Row
unfolding cascade_children
cascade env t i rs = elim (by_table t) [
  | none ↦ rs
  | some owner ↦ cascade_children env i (owned_children owner.name) rs
]

abbrev pub unbury : Env → Row → Row
unbury env r = record r {
  deleted_at = none;
  tombstone_uat = none;
  tombstone_reason = none;
  last_synced_at = env.now;
}

unfoldable pub uncascade_children :
    Env → Resource → String → List (Resource × String) → List Row → List Row
uncascade_children env owner i [] rs = rs
uncascade_children env owner i (c ∷ cs) rs = uncascade_children env owner i cs (
    update_where
      (λ r.
        belongs c i r
        && is_text r.tombstone_reason owner_deleted
        && is_live (select owner.table i rs))
      (unbury env) rs)

-- `_uncascade`
unfoldable pub uncascade : Env → String → String → List Row → List Row
unfolding uncascade_children
uncascade env t i rs = elim (by_table t) [
  | none ↦ rs
  | some owner ↦ uncascade_children env owner i (owned_children owner.name) rs
]
