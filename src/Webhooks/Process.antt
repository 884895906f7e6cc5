-- ===== src/Webhooks/Process.antt =====
-- webhooks.py: `process_event`, which sends an event to the writer.
use pcomirror.Store.{from_webhook}
use pcomirror.Prelude.{
  String, Bool, true, false, Option, none, some, [], ◌∷◌, ◌==◌, ◌&&◌, not, if◌then◌else◌, is_some,
}
use pcomirror.Result.{Result, ok, err, ◌>>=◌}
use pcomirror.Json.{Json, obj, end, get, item, or_obj}
use pcomirror.Registry.{Resource, resources, by_event_resource}
use pcomirror.Writer.Tombstone.{tombstone}
use pcomirror.Writer.Route.{route}
use pcomirror.Webhooks.State.{
  World, Event, done, no_table, unparseable_payload, Db, Run, bind, unwrap,
}
use pcomirror.Webhooks.Inbox.{◌and_then◌, set_events, ignore, bury_event, retry_or_dead}
use pcomirror.Webhooks.Hydration.{enqueue_or_defer, forget_child_walks, in_rows}
use pcomirror.Webhooks.Merger.{handle_merge}

-- `tombstone(r.table, payload["id"], uat, "destroyed")`; a null id is no record's.
unfoldable pub bury_key : World → String → Option String → Json → Db → Run (Unit {0})
bury_key w t none at db = (db, ok tt)
bury_key w t (some i) at db = in_rows db (tombstone w.env t i at "destroyed" none db.rows)

unfoldable pub pair : Option String → Json → Result (Option String × Json)
pair i at = ok (i, at)

-- The record that is gone, and when it was last updated.
unfoldable pub target_of : Json → Result (Option String × Json)
target_of payload = do
  attrs ← get "attributes" payload
  at ← get "updated_at" (or_obj attrs)
  key ← item "id" payload
  i ← bind key
  pair i at

unfoldable pub handle_destroyed : World → Resource → Json → Db → Run (Unit {0})
unfolding bury_key target_of pair
handle_destroyed w r payload db = elim (target_of payload) [
  | err e ↦ (db, err e)
  | ok (i, at) ↦ bury_key w r.table i at db
]

unfoldable pub is_thin : Resource → Bool
is_thin r = elim r.includes [ [] ↦ false | i ∷ is ↦ true ]

unfoldable pub with_id : Json → (Json → Db → Run (Unit {0})) → Db → Run (Unit {0})
with_id payload f db = elim (item "id" payload) [ err e ↦ (db, err e) | ok key ↦ f key db ]

-- created, updated, refreshed
unfoldable pub handle_changed : World → Resource → String → Json → Db → Run (Unit {0})
unfolding is_thin with_id
handle_changed w r action payload db =
    in_rows db (route w.env from_webhook none [] payload db.rows)
    and_then (λ d. if is_thin r then with_id payload (enqueue_or_defer w r.name) d else (d, ok tt))
    and_then (λ d.
        if action == "refreshed"
        then with_id payload (forget_child_walks resources r.name) d
        else (d, ok tt))

unfoldable pub dispatch : World → Event → Option Resource → Json → Db → Run (Unit {0})
dispatch w ev r payload db =
    if ev.resource_type == "person_merger" then handle_merge w payload db else elim r [
      | none ↦ (db, ok tt)
      | some r ↦
          if ev.action == "destroyed"
          then handle_destroyed w r payload db
          else handle_changed w r ev.action payload db
    ]

unfoldable pub finish : World → Event → Run (Unit {0}) → Db
unfolding set_events
finish w ev (db, err e) = retry_or_dead w ev e db
finish w ev (db, ok u) =
    set_events ev.event_id (λ e. record e { status = done; processed_at = some w.env.now }) db

-- `json.loads(ev["payload"]) if ev["payload"] else {}`
unfoldable pub payload_of : World → String → Option Json
payload_of w p = if p == "" then some (obj end) else w.loads p

unfoldable pub has_no_table : Option Resource → String → Bool
has_no_table r token = not (is_some r) && not (token == "person_merger")

-- An error is an exception that leaves `process_event`.
unfoldable pub process_event : World → Event → Db → Run (Unit {0})
unfolding payload_of has_no_table
process_event w ev db =
    let r = by_event_resource ev.resource_type in
    elim (payload_of w ev.payload) [
      | none ↦ (bury_event ev unparseable_payload db, ok tt)
      | some j ↦ elim (unwrap j) [
        | err e ↦ (db, err e)
        | ok payload ↦ (
          if has_no_table r ev.resource_type
              then ignore w ev (no_table ev.resource_type) db
              else finish w ev (dispatch w ev r payload db),
          ok tt,
        )
      ]
    ]
