-- ===== src/Writer/Upsert.antt =====
-- writer.py: `upsert`, `upsert_untimed` and `confirm_live`.
use pcomirror.Store.{SyncSource}
use pcomirror.Prelude.{
  String, Bool, true, false, Option, none, some, List, [], ◌∷◌, ◌==◌, ◌&&◌, not, if◌then◌else◌,
  is_some, is_text, length, contains, ltb, newer, not_older,
}
use pcomirror.Result.{Result, ok, err, value_error}
use pcomirror.Json.{Json, each_key}
use pcomirror.Store.{Row, uat, put_row}
use pcomirror.Writer.Ops.{Env, is_table, fresh, uncascade}
use pcomirror.Writer.Project.{project_field_datum}

abbrev pub rel_keys : Json → List String
rel_keys raw = each_key "relationships" raw

-- NOT EXISTS (a held key that is NOT IN the incoming ones)
abbrev pub covers : List String → List String → Bool
covers [] incoming = true
covers (k ∷ ks) incoming = if contains incoming k then covers ks incoming else false

-- Which of two payloads a row keeps.
unfoldable pub keep_raw : Json → Json → Json
keep_raw held incoming =
    if newer (uat incoming) (uat held)
    then incoming
    else if newer (uat held) (uat incoming)
    then held
    else if covers (rel_keys held) (rel_keys incoming)
    then incoming
    else if ltb (length (rel_keys held)) (length (rel_keys incoming))
    then incoming
    else held

-- `tombstone_reason <> s`, which is not true of NULL.
abbrev pub is_other : Option String → String → Bool
is_other none s = false
is_other (some t) s = not (t == s)

-- The tombstone is cleared by a payload that is strictly newer, unless it is a merge's.
abbrev pub clears : Json → Row → Bool
clears incoming r =
    is_some r.deleted_at
    && is_other r.tombstone_reason "merged"
    && newer (uat incoming) r.tombstone_uat

unfoldable pub upsert_change : Env → Json → SyncSource → Row → Row
unfolding keep_raw
upsert_change env incoming source r = record r {
  last_synced_at = env.now;
  source = source;
  raw = keep_raw r.raw incoming;
  api_version = if not_older (uat incoming) (uat r.raw) then env.api_version else r.api_version;
  deleted_at =
      if not (is_some r.deleted_at)
      then none
      else if is_text r.tombstone_reason "merged"
      then r.deleted_at
      else if newer (uat incoming) r.tombstone_uat
      then none
      else r.deleted_at;
  tombstone_uat = if clears incoming r then none else r.tombstone_uat;
  tombstone_reason = if clears incoming r then none else r.tombstone_reason;
}

-- What follows the statement of `upsert` and of `confirm_live`.
unfoldable pub settle : Env → String → String → List Row → List Row
settle env t i rs =
    let rs' = uncascade env t i rs in
    if t == "field_datum" then project_field_datum env i rs' else rs'

unfoldable pub upsert : Env → String → String → Json → SyncSource → List Row → Result (List Row)
unfolding upsert_change settle
upsert env t i raw source rs =
    if is_table t
    then ok (settle env t i (put_row (fresh env t i raw source) (upsert_change env raw source) rs))
    else err (value_error t)

unfoldable pub untimed_change : Env → Json → SyncSource → Row → Row
untimed_change env incoming source r = record r {
  last_synced_at = env.now;
  source = source;
  raw = if is_some r.deleted_at then r.raw else incoming;
  api_version = if is_some r.deleted_at then r.api_version else env.api_version;
}

unfoldable pub upsert_untimed :
    Env → String → String → Json → SyncSource → List Row → Result (List Row)
unfolding untimed_change
upsert_untimed env t i raw source rs =
    if is_table t
    then ok (put_row (fresh env t i raw source) (untimed_change env raw source) rs)
    else err (value_error t)

unfoldable pub confirm_change : Env → Json → SyncSource → Row → Row
confirm_change env incoming source r = record r {
  raw = incoming;
  api_version = env.api_version;
  source = source;
  last_synced_at = env.now;
  deleted_at = none;
  tombstone_uat = none;
  tombstone_reason = none;
  merged_into_pco_id = none;
}

unfoldable pub confirm_live :
    Env → String → String → Json → SyncSource → List Row → Result (List Row)
unfolding confirm_change settle
confirm_live env t i raw source rs =
    if is_table t
    then ok (settle env t i (put_row (fresh env t i raw source) (confirm_change env raw source) rs))
    else err (value_error t)
