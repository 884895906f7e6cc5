-- ===== src/Events/Examples.antt =====
-- The console's promise for an event about a resource that the mirror has no table for.
use pcomirror.Prelude.{false, true, none, some, [], ◌∷◌, ◌≡◌, refl, split}
use pcomirror.Json.{obj, end}
use pcomirror.Webhooks.State.{World, Event, Db, pending, same_key}
use pcomirror.Webhooks.Subscriptions.{parse_event_name}
use pcomirror.Webhooks.Process.{process_event, payload_of}
use pcomirror.Webhooks.Verdict.{readable}
use pcomirror.Events.Handling.{handling}
use pcomirror.Events.Promise.{is_ignored, is_recorded, handling-process_event}
use pcomirror.Webhooks.Attempts.{find_event}

abbrev world : World
world = record {
  env = record { now = "2026-03-01T00:00:00Z"; api_version = "2025-11-10"; float = λ s. some s };
  later = λ n. "2026-03-01T00:01:00Z";
  decodes = λ s. true;
  loads = λ s. some (obj end);
  dumps = λ j. "";
  show = λ j. "";
  hex_digest = λ secret raw. secret;
  base64_digest = λ secret raw. secret;
}

abbrev event : Event
event = record {
  event_id = some "e1";
  delivery_id = "d1";
  event_name = "people.v2.events.birthday_cake.created";
  resource_type = "birthday_cake";
  action = "created";
  pco_id = none;
  payload = "{}";
  status = pending;
  process_attempts = 0;
  next_attempt_at = none;
  received_at = "2026-02-28T00:00:00Z";
  processed_at = none;
  last_error = none;
}

abbrev inbox : Db
inbox = record {
  rows = [];
  subscriptions = [];
  deliveries = [];
  events = event ∷ [];
  dead_letters = [];
  tasks = [];
  walks = [];
  next_run = [];
  meta = [];
}

filed : event.resource_type ≡ (parse_event_name event.event_name).0
unfolding parse_event_name split
filed = refl

is_readable : readable world event.payload ≡ true
unfolding readable payload_of
is_readable = refl

stands : find_event "e1" inbox.events ≡ some event
unfolding same_key
stands = refl

handling-process_event_example :
    (e : Event) × (find_event "e1" (process_event world event inbox).0.events ≡ some e)
    × (is_ignored e.status ≡ is_recorded (handling event.event_name))
    × (is_recorded (handling event.event_name) ≡ true
        → (process_event world event inbox).0
          ≡ record inbox { events = (process_event world event inbox).0.events })
handling-process_event_example =
    handling-process_event world event inbox "e1" filed is_readable refl stands refl

-- The console says recorded of it.
recorded_test : is_recorded (handling event.event_name) ≡ true
unfolding handling parse_event_name split pcomirror.Registry.by_event_resource
recorded_test = refl

-- The console says mirrored of an event about a resource of the registry.
mirrored_test : is_recorded (handling "people.v2.events.email.updated") ≡ false
unfolding handling parse_event_name split pcomirror.Registry.by_event_resource
mirrored_test = refl
