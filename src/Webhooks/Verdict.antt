-- ===== src/Webhooks/Verdict.antt =====
-- webhooks.py: what `process_event` does to the row of its event, and to the rows of the others.
use pcomirror.Prelude.{
  ◌+◌, String, Bool, true, false, Option, none, some, ◌≡◌, refl, inl, inr, Bool-cases, ◌∙◌, ap, leb,
  ◌⊎◌,
}
use pcomirror.Result.{Exn, Result, ok, err}
use pcomirror.Json.{Json, null, bool, num, str, arr, obj, Fields, lookup_field}
use pcomirror.Registry.{by_event_resource}
use pcomirror.Webhooks.State.{World, Event, Status, pending, done, ignored, dead, Db, Run, unwrap}
use pcomirror.Webhooks.Inbox.{set_event, set_events, ignore, bury_event, retry_or_dead}
use pcomirror.Webhooks.Process.{payload_of, has_no_table, process_event, finish, dispatch}
use pcomirror.Webhooks.Untouched.{dispatch-events}

-- A status that `drain` does not select.
abbrev pub is_final : Status → Bool
is_final pending = false
is_final done = true
is_final ignored = true
is_final dead = true

-- The event is finished, or it has one more failure than it had and fewer than eight.
abbrev pub IsDecided : Event → Event → Type 0
IsDecided ev e =
    (is_final e.status ≡ true)
    ⊎ ((e.process_attempts ≡ ev.process_attempts + 1) × (leb 8 e.process_attempts ≡ false))

-- A change of a row that decides the event and keeps its key and its payload.
abbrev pub IsVerdict : Event → (Event → Event) → Type 0
IsVerdict ev c =
    (e : Event) → ((c e).event_id ≡ e.event_id) × ((c e).payload ≡ e.payload) × IsDecided ev (c e)

-- What is left of the inbox is the inbox with one verdict.
abbrev pub Decides : Event → Db → Db → Type 0
Decides ev db db' =
    (c : Event → Event) × IsVerdict ev c × (db'.events ≡ set_event ev.event_id c db.events)

retry_or_dead-Decides :
    (w : World) (ev : Event) (e : Exn) (db : Db) → Decides ev db (retry_or_dead w ev e db)
unfolding retry_or_dead bury_event set_events
retry_or_dead-Decides w ev e db = elim (Bool-cases (leb 8 (ev.process_attempts + 1))) [
  | inl f ↦ rw (f) (_, (λ r. (refl, refl, inl refl)), refl)
  | inr f ↦ rw (f) (_, (λ r. (refl, refl, inr (refl, f))), refl)
]

-- The step that finishes an event also decides it where the handler kept the inbox.
finish-Decides :
    (w : World) (ev : Event) (ran : Run (Unit {0})) (db : Db)
    → ran.0.events ≡ db.events
    → Decides ev db (finish w ev ran)
unfolding finish set_events
finish-Decides w ev (db', ok u) db p =
    (_, (λ r. (refl, refl, inl refl)), ap (set_event ev.event_id _) p)
finish-Decides w ev (db', err e) db p =
    let (c, v, q) = retry_or_dead-Decides w ev e db' in (c, v, q ∙ ap (set_event ev.event_id c) p)

unfoldable pub is_dict : Option Json → Bool
is_dict (some (obj fs)) = true
is_dict _ = false

-- Can the payload be read: is it empty, or the text of an object?
unfoldable pub readable : World → String → Bool
unfolding is_dict
readable w p = is_dict (payload_of w p)

unwrap-total : (fs : Fields) → (k : Json) × (unwrap (obj fs) ≡ ok k)
unfolding unwrap
unwrap-total fs =
    elim (lookup_field "data" fs)
      as (λ j.
        (k : Json) × (Path (Result Json) (elim j [ obj gs ↦ ok (obj gs) | _ ↦ ok (obj fs) ])
          (ok k))) [ obj gs ↦ (obj gs, refl) | _ ↦ (obj fs, refl) ]

pub is_dict-unwrap :
    (o : Option Json) → is_dict o ≡ true → (j k : Json) × (o ≡ some j) × (unwrap j ≡ ok k)
unfolding is_dict
is_dict-unwrap none p = cc
is_dict-unwrap (some null) p = cc
is_dict-unwrap (some (bool b)) p = cc
is_dict-unwrap (some (num t)) p = cc
is_dict-unwrap (some (str s)) p = cc
is_dict-unwrap (some (arr js)) p = cc
is_dict-unwrap (some (obj fs)) p = let (k, e) = unwrap-total fs in (obj fs, k, refl, e)

-- Of a readable event, `process_event` always returns, and it decides the event.
pub process_event-Decides :
    (w : World) (ev : Event) (db : Db)
    → readable w ev.payload ≡ true
    → ((process_event w ev db).1 ≡ ok tt) × Decides ev db (process_event w ev db).0
unfolding readable process_event ignore set_events
process_event-Decides w ev db p =
    let (j, k, e, f) = is_dict-unwrap (payload_of w ev.payload) p in
    let r = by_event_resource ev.resource_type in
    elim (Bool-cases (has_no_table r ev.resource_type)) [
      | inl g ↦ rw (process_event, e, f, g) (refl, (_, (λ x. (refl, refl, inl refl)), refl))
      | inr g ↦
          rw (process_event, e, f, g)
            (refl, finish-Decides w ev (dispatch w ev r k db) db (dispatch-events w ev r k db))
    ]
