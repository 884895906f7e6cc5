-- ===== src/Webhooks/Inbox.antt =====
-- webhooks.py: what the processor writes on an event of the inbox, and the dead letters.
use Prim.Native.Nat.{◌+◌, ◌*◌, ◌^◌, min}
use pcomirror.Prelude.{String, Option, some, List, [], ◌∷◌, if◌then◌else◌, leb}
use pcomirror.Result.{Exn, ok, err}
use pcomirror.Webhooks.State.{
  World, Event, ignored, dead, Note, raised, DeadLetter, Db, Run, same_key,
}

-- One statement after another, each on what the one before left.
infixl 5 ◌and_then◌
abbrev pub ◌and_then◌ : Run (Unit {0}) → (Db → Run (Unit {0})) → Run (Unit {0})
(db, ok u) and_then f = f db
(db, err e) and_then f = (db, err e)

-- UPDATE webhook_event SET … WHERE event_id = k
unfoldable pub set_event : Option String → (Event → Event) → List Event → List Event
set_event k change [] = []
set_event k change (e ∷ es) =
    (if same_key e.event_id k then change e else e) ∷ set_event k change es

unfoldable pub set_events : Option String → (Event → Event) → Db → Db
set_events k change db = record db { events = set_event k change db.events }

-- INSERT OR REPLACE INTO webhook_dead_letter
unfoldable pub put_dead : DeadLetter → List DeadLetter → List DeadLetter
put_dead new [] = new ∷ []
put_dead new (d ∷ ds) =
    if same_key d.event_id new.event_id then put_dead new ds else d ∷ put_dead new ds

unfoldable pub ignore : World → Event → Note → Db → Db
unfolding set_events
ignore w ev why db =
    set_events ev.event_id
      (λ e. record e { status = ignored; processed_at = some w.env.now; last_error = some why }) db

unfoldable pub bury_event : Event → Note → Db → Db
unfolding set_events
bury_event ev why db = record db {
  dead_letters =
      put_dead
        (record {
          event_id = ev.event_id;
          event_name = ev.event_name;
          payload = ev.payload;
          last_error = why;
          attempts = ev.process_attempts + 1;
        })
        db.dead_letters;
  events = set_event ev.event_id (λ e. record e { status = dead; last_error = some why }) db.events;
}

-- `_retry_or_dead`
unfoldable pub retry_or_dead : World → Event → Exn → Db → Db
unfolding set_events
retry_or_dead w ev e db =
    let attempts = ev.process_attempts + 1 in
    if leb 8 attempts
    then bury_event ev (raised e) db
    else set_events ev.event_id
        (λ r. record r {
          process_attempts = attempts;
          last_error = some (raised e);
          next_attempt_at = some (w.later (min 3600 (5 * 2 ^ attempts)));
        })
        db
