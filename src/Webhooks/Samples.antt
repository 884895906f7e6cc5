-- ===== src/Webhooks/Samples.antt =====
-- A small receiver for tests: one signed subscription, and the delivery of a merge.
use pcomirror.Prelude.{true, none, some, [], ◌∷◌, ◌==◌, if◌then◌else◌}
use pcomirror.Json.{Json, str, num, obj, arr, nil, cons, field, end}
use pcomirror.Writer.Ops.{Env}
use pcomirror.Webhooks.State.{World, Subscription, Event, Db, pending}

abbrev pub env : Env
env = record { now = "2026-03-01T00:00:00Z"; api_version = "2025-11-10"; float = λ s. some s }

abbrev pub merge : Json
merge = obj (
    field "id" (str "77") (
      field "attributes"
        (obj (field "person_to_keep_id" (num "1") (field "person_to_remove_id" (num "2") end)))
        end))

abbrev pub delivery : Json
delivery = obj (
    field "data"
      (arr (
        cons
          (obj (
            field "id" (str "e1") (
              field "attributes"
                (obj (
                  field "name" (str "people.v2.events.person_merger.created")
                    (field "payload" (str "merge") end)))
                end)))
          nil))
      end)

-- A reader of two texts, and a digest that is the secret itself.
abbrev pub world : World
world = record {
  env = env;
  later = λ n. "2026-03-01T00:01:00Z";
  decodes = λ s. true;
  loads = λ s. if s == "merge" then some merge else if s == "body" then some delivery else none;
  dumps = λ j. "";
  show = λ j. "";
  hex_digest = λ secret raw. secret;
  base64_digest = λ secret raw. secret;
}

abbrev pub sub : Subscription
sub = record {
  subscription_pco_id = "5";
  event_name = "people.v2.events.person_merger.created";
  resource = "person_merger";
  action = "created";
  url_token = "token-of-this-church";
  authenticity_secret = "secret";
  active = true;
  last_event_at = none;
  managed = "env";
}

abbrev pub event : Event
event = record {
  event_id = some "e1";
  delivery_id = "d1";
  event_name = "people.v2.events.person_merger.created";
  resource_type = "person_merger";
  action = "created";
  pco_id = some "77";
  payload = "merge";
  status = pending;
  process_attempts = 0;
  next_attempt_at = none;
  received_at = "2026-02-28T00:00:00Z";
  processed_at = none;
  last_error = none;
}

abbrev pub empty : Db
empty = record {
  rows = [];
  subscriptions = sub ∷ [];
  deliveries = [];
  events = [];
  dead_letters = [];
  tasks = [];
  walks = [];
  next_run = [];
  meta = [];
}

abbrev pub waiting : Db
waiting = record empty { events = event ∷ [] }
