-- ===== src/Writer/Tombstone.antt =====
-- writer.py: `tombstone`, with the cascade to the owned records.
use pcomirror.Store.{from_reconcile}
use pcomirror.Prelude.{
  String, Bool, Option, none, some, List, [], ◌∷◌, ◌==◌, ◌&&◌, ◌||◌, not, if◌then◌else◌, is_some,
  or_else, or_default, contains, not_older,
}
use pcomirror.Result.{Result, ok, err, value_error}
use pcomirror.Json.{Json, str}
use pcomirror.Store.{Row, uat, is_at, update_where}
use pcomirror.Writer.Ops.{Env, is_table, cascade}

abbrev pub gone : List String
gone = "destroyed" ∷ "audit_absent" ∷ "absent" ∷ []

-- `_stable_ts`
unfoldable pub stable_ts : Json → Option String
stable_ts (str s) = if s == "" then none else some s
stable_ts _ = none

-- The statement's WHERE, besides the key.
unfoldable pub may_bury : Option String → String → Row → Bool
may_bury at reason r =
    reason == "merged"
    || is_some r.deleted_at
    || not (is_some (uat r.raw))
    || not_older (or_else at (uat r.raw)) (uat r.raw)

unfoldable pub tombstone_change : Env → Option String → String → Option String → Row → Row
tombstone_change env at reason merged_into r = record r {
  deleted_at = some env.now;
  tombstone_uat = some (or_default (or_else at (uat r.raw)) env.now);
  tombstone_reason = some reason;
  merged_into_pco_id = or_else merged_into r.merged_into_pco_id;
  last_synced_at = env.now;
  source = from_reconcile;
}

-- The UPDATE alone.
unfoldable pub mark :
    Env → String → String → Option String → String → Option String → List Row → List Row
unfolding may_bury tombstone_change
mark env t i at reason merged_into rs =
    update_where (λ r. is_at t i r && may_bury at reason r)
      (tombstone_change env at reason merged_into) rs

unfoldable pub tombstone :
    Env → String → String → Json → String → Option String → List Row → Result (List Row)
unfolding mark stable_ts
tombstone env t i at reason merged_into rs =
    if is_table t
    then ok (
        let rs' = mark env t i (stable_ts at) reason merged_into rs in
        if contains gone reason then cascade env t i rs' else rs')
    else err (value_error t)
