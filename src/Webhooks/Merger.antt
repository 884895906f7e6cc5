-- ===== src/Webhooks/Merger.antt =====
-- webhooks.py: `_handle_merge`. ingest.py: the merger record.
use pcomirror.Store.{SyncSource, from_webhook}
use Prim.Native.String.{◌++◌}
use pcomirror.Prelude.{
  String, Bool, Option, none, some, ◌∷◌, not, if◌then◌else◌, is_some, or_default,
}
use pcomirror.Result.{Result, ok, err, attribute_error, ◌>>=◌}
use pcomirror.Json.{
  Json, null, bool, num, str, arr, obj, end, get, truthy, lookup_field, has_field, bind_text,
}
use pcomirror.Store.{select}
use pcomirror.Writer.Ops.{fresh}
use pcomirror.Writer.Tombstone.{tombstone}
use pcomirror.Webhooks.State.{World, Db, Run}
use pcomirror.Webhooks.Inbox.{◌and_then◌}
use pcomirror.Webhooks.Hydration.{enqueue_hydration, in_rows}

-- `str(a[k]) if a.get(k) else None`
unfoldable pub number_text : World → Json → Option String
number_text w (str s) = some s
number_text w (num t) = some t
number_text w (bool b) = some "True"
number_text w null = none
number_text w (arr js) = some (w.show (arr js))
number_text w (obj fs) = some (w.show (obj fs))

unfoldable pub id_of : World → String → Json → Result (Option String)
unfolding number_text
id_of w k attrs = do i ← get k attrs; ok (if truthy i then number_text w i else none)

-- `payload.get("attributes", {})`
unfoldable pub attributes_of : Json → Result Json
attributes_of (obj fs) =
    ok (if has_field "attributes" fs then lookup_field "attributes" fs else obj end)
attributes_of _ = err attribute_error

pub record Merge : Type 0 where
  pub merger_id : String
  pub keep : Option String
  pub gone : Option String

-- `payload.get("id") or f"merge-{keep}-{gone}"`
unfoldable pub merger_key : Json → Option String → Option String → Result String
merger_key i keep gone =
    if truthy i
    then bind_text i
    else ok ("merge-" ++ (or_default keep "None" ++ ("-" ++ or_default gone "None")))

unfoldable pub merge_of : World → Json → Result Merge
unfolding id_of attributes_of merger_key
merge_of w payload = do
  attrs ← attributes_of payload
  keep ← id_of w "person_to_keep_id" attrs
  gone ← id_of w "person_to_remove_id" attrs
  i ← get "id" payload
  key ← merger_key i keep gone
  ok (record { merger_id = key; keep = keep; gone = gone })

unfoldable pub merger_is_new : String → Db → Bool
merger_is_new i db = not (is_some (select "person_merger" i db.rows))

-- INSERT OR IGNORE INTO person_merger
unfoldable pub record_merger : World → String → Json → SyncSource → Db → Db
record_merger w i raw source db =
    if merger_is_new i db
    then record db { rows = fresh w.env "person_merger" i raw source ∷ db.rows }
    else db

unfoldable pub bury_gone : World → Merge → Db → Run (Unit {0})
bury_gone w m db = elim m.gone [
  | none ↦ (db, ok tt)
  | some g ↦ in_rows db (tombstone w.env "person" g null "merged" m.keep db.rows)
]

unfoldable pub queue_survivor : World → Merge → Db → Run (Unit {0})
queue_survivor w m db = elim m.keep [
  | none ↦ (db, ok tt)
  | some k ↦ enqueue_hydration w "person" (str k) "merge_survivor" db
]

unfoldable pub apply_merge : World → Json → Merge → Db → Run (Unit {0})
unfolding bury_gone queue_survivor
apply_merge w payload m db =
    if merger_is_new m.merger_id db
    then bury_gone w m db
      and_then (λ d. queue_survivor w m d)
      and_then (λ d. (record_merger w m.merger_id payload from_webhook d, ok tt))
    else (db, ok tt)

unfoldable pub handle_merge : World → Json → Db → Run (Unit {0})
handle_merge w payload db = elim (merge_of w payload) [
  | err e ↦ (db, err e)
  | ok m ↦ apply_merge w payload m db
]
