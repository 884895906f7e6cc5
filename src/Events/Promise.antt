-- ===== src/Events/Promise.antt =====
-- pcoevents.py and webhooks.py: the console's description of an event against its processing.
use mathlib.Core.Path.{subst}
use pcomirror.Prelude.{
  String, Bool, true, false, Option, some, none, ◌==◌, ◌≡◌, refl, inl, inr, Bool-cases,
  Option-cases, if◌then◌else◌, ap, ◌∙◌, ◌+◌, leb,
}
use pcomirror.Result.{Exn, ok, err}
use pcomirror.Registry.{Resource, by_event_resource}
use pcomirror.Webhooks.State.{World, Event, Status, pending, done, ignored, dead, Db, Run, no_table}
use pcomirror.Webhooks.Subscriptions.{parse_event_name}
use pcomirror.Webhooks.Inbox.{set_event, set_events, ignore, bury_event, retry_or_dead}
use pcomirror.Webhooks.Process.{process_event, payload_of, has_no_table, finish, dispatch}
use pcomirror.Webhooks.Untouched.{dispatch-events}
use pcomirror.Webhooks.Verdict.{readable, is_dict-unwrap}
use pcomirror.Webhooks.Attempts.{find_event, find_event-set_event}
use pcomirror.Events.Handling.{Verdict, merge, recorded, mirrored, handling, verdict_of}

abbrev pub is_ignored : Status → Bool
is_ignored ignored = true
is_ignored pending = false
is_ignored done = false
is_ignored dead = false

abbrev pub is_recorded : Verdict → Bool
is_recorded recorded = true
is_recorded merge = false
is_recorded mirrored = false

-- The inbox with one event changed, which does not become ignored by it.
abbrev pub Handles : Event → Db → Db → Type 0
Handles ev db db' =
    (c : Event → Event) × ((e : Event)
      → ((c e).event_id ≡ e.event_id)
        × (is_ignored e.status ≡ false → is_ignored (c e).status ≡ false))
    × (db'.events ≡ set_event ev.event_id c db.events)

retry_or_dead-Handles :
    (w : World) (ev : Event) (e : Exn) (db : Db) → Handles ev db (retry_or_dead w ev e db)
unfolding retry_or_dead bury_event set_events
retry_or_dead-Handles w ev e db = elim (Bool-cases (leb 8 (ev.process_attempts + 1))) [
  | inl y ↦ rw (retry_or_dead, y) (_, (λ x. (refl, λ h. refl)), refl)
  | inr n ↦ rw (retry_or_dead, n) (_, (λ x. (refl, λ h. h)), refl)
]

finish-Handles :
    (w : World) (ev : Event) (ran : Run (Unit {0})) (db : Db)
    → ran.0.events ≡ db.events
    → Handles ev db (finish w ev ran)
unfolding finish set_events
finish-Handles w ev (db', ok u) db p = (_, (λ r. (refl, λ h. refl)), ap (set_event ev.event_id _) p)
finish-Handles w ev (db', err e) db p =
    let (c, v, q) = retry_or_dead-Handles w ev e db' in (c, v, q ∙ ap (set_event ev.event_id c) p)

-- The row of the processed event says whether it was ignored; if it was, nothing else changed.
abbrev pub Keeps : Bool → String → Db → Db → Type 0
Keeps is k db db' =
    (e : Event) × (find_event k db'.events ≡ some e)
    × (is_ignored e.status ≡ is)
    × (is ≡ true → db' ≡ record db { events = db'.events })

handled-Keeps :
    (k : String) (ev : Event) (db db' : Db)
    → ev.event_id ≡ some k
    → find_event k db.events ≡ some ev
    → ev.status ≡ pending
    → Handles ev db db'
    → Keeps false k db db'
handled-Keeps k ev db db' i f s (c, keeps, events) = (
  c ev,
  ap (find_event k) (events ∙ ap (λ o. set_event o c db.events) i)
      ∙ find_event-set_event k c db.events ev (λ x. (keeps x).0) f,
  (keeps ev).1 (ap is_ignored s),
  λ e. (let bad : false ≡ true = e in cc),
)

ignored-Keeps :
    (w : World) (k : String) (ev : Event) (db : Db)
    → ev.event_id ≡ some k
    → find_event k db.events ≡ some ev
    → Keeps true k db (ignore w ev (no_table ev.resource_type) db)
unfolding ignore set_events
ignored-Keeps w k ev db i f =
    let c = λ (e : Event). record e {
      status = ignored;
      processed_at = some w.env.now;
      last_error = some (no_table ev.resource_type);
    } in
    (
      c ev,
      ap (λ o. find_event k (set_event o c db.events)) i
          ∙ find_event-set_event k c db.events ev (λ x. refl) f,
      refl,
      λ e. refl,
    )

process_event-Keeps :
    (w : World) (ev : Event) (db : Db) (k : String)
    → readable w ev.payload ≡ true
    → ev.event_id ≡ some k
    → find_event k db.events ≡ some ev
    → ev.status ≡ pending
    → Keeps
        (is_recorded (
          if ev.resource_type == "person_merger"
          then merge
          else verdict_of (by_event_resource ev.resource_type)))
        k
        db
        (process_event w ev db).0
unfolding readable process_event has_no_table verdict_of
process_event-Keeps w ev db k p i f s =
    let (j, payload, e, u) = is_dict-unwrap (payload_of w ev.payload) p in
    let handled = λ (r : Option Resource).
      handled-Keeps k ev db (finish w ev (dispatch w ev r payload db)) i f s
        (finish-Handles w ev (dispatch w ev r payload db) db (dispatch-events w ev r payload db)) in
    elim (Bool-cases (ev.resource_type == "person_merger")) [
      | inl m ↦ elim (Option-cases (by_event_resource ev.resource_type)) [
        | inl n ↦ rw (process_event, e, u, m, n) (handled none)
        | inr (x, n) ↦ rw (process_event, e, u, m, n) (handled (some x))
      ]
      | inr m ↦ elim (Option-cases (by_event_resource ev.resource_type)) [
        | inl n ↦ rw (process_event, e, u, m, n) (ignored-Keeps w k ev db i f)
        | inr (x, n) ↦ rw (process_event, e, u, m, n) (handled (some x))
      ]
    ]

-- The console keeps its promise. For a pending event of the inbox that can be read and that was filed
-- under the resource of its name: the processor leaves it marked as ignored exactly where `handling` says
-- recorded, and there it changes nothing besides the inbox; where `handling` says merge or mirrored
-- the event is done, dead or waits for another attempt.
pub handling-process_event :
    (w : World) (ev : Event) (db : Db) (k : String)
    → ev.resource_type ≡ (parse_event_name ev.event_name).0
    → readable w ev.payload ≡ true
    → ev.event_id ≡ some k
    → find_event k db.events ≡ some ev
    → ev.status ≡ pending
    → (e : Event) × (find_event k (process_event w ev db).0.events ≡ some e)
      × (is_ignored e.status ≡ is_recorded (handling ev.event_name))
      × (is_recorded (handling ev.event_name) ≡ true
          → (process_event w ev db).0 ≡ record db { events = (process_event w ev db).0.events })
unfolding handling
handling-process_event w ev db k t p i f s =
    subst
      (λ x.
        Keeps
          (is_recorded (if x == "person_merger" then merge else verdict_of (by_event_resource x))) k
          db (process_event w ev db).0)
      t (process_event-Keeps w ev db k p i f s)
