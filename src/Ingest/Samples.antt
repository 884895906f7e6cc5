-- ===== src/Ingest/Samples.antt =====
-- A small mirror and a small Planning Center for tests.
use pcomirror.Store.{from_backfill}
use pcomirror.Prelude.{ℕ, String, none, some, List, [], ◌∷◌, ◌==◌, if◌then◌else◌}
use pcomirror.Result.{ok}
use pcomirror.Json.{Json, str, num, obj, arr, nil, cons, field, end}
use pcomirror.Store.{Row, blank}
use pcomirror.Client.Request.{Response}
use pcomirror.Webhooks.State.{World, Db, Task}
use pcomirror.Webhooks.Samples.{empty}
use pcomirror.Webhooks.Samples.{world as receiver}
use pcomirror.Ingest.Remote.{Remote}

abbrev pub to_one : String → String → String → Json
to_one rel kind i = obj (
    field rel (obj (field "data" (obj (field "type" (str kind) (field "id" (str i) end))) end)) end)

abbrev pub entry : String → String → Json → Json
entry kind i rels = obj (
    field "type" (str kind) (
      field "id" (str i) (
        field "attributes"
          (obj (
            field "created_at" (str "2026-01-01T00:00:00Z")
              (field "updated_at" (str "2026-02-01T00:00:00Z") end)))
          (field "relationships" rels end))))

abbrev pub page : Json → Json
page data' = obj (field "data" data' end)

abbrev pub membership : String → Json
membership i = entry "HouseholdMembership" i (to_one "household" "Household" "5")

abbrev pub person : Json
person = entry "Person" "1" (
    obj (
      field "emails"
        (obj (
          field "data"
            (arr (cons (obj (field "type" (str "Email") (field "id" (str "7") end))) nil)) end))
        end))

abbrev pub merger : Json
merger = obj (
    field "id" (str "77") (
      field "attributes"
        (obj (
          field "created_at" (str "2026-02-01T00:00:00Z")
            (field "person_to_keep_id" (num "1") (field "person_to_remove_id" (num "2") end))))
        end))

abbrev pub world : World
world = record receiver {
  loads = λ s.
      if s == "memberships"
      then some (page (arr (cons (membership "1") nil)))
      else if s == "campuses"
      then some (page (arr (cons (entry "Campus" "3" (obj end)) nil)))
      else if s == "person"
      then some (obj (field "data" person (field "included" (arr nil) end)))
      else if s == "people"
      then some (page (arr (cons (entry "Person" "1" (obj end)) nil)))
      else none;
}

abbrev pub answer : ℕ → String → Response
answer status body = record {
  status = status;
  headers = [];
  body = body;
  request_id = none;
  duration_ms = none;
  attempts = 1;
}

-- One household's memberships, one campus, one person; anything else is not found.
abbrev pub remote : Remote
remote path query =
    if path == "/households/5/household_memberships"
    then ok (answer 200 "memberships")
    else if path == "/campuses"
    then ok (answer 200 "campuses")
    else if path == "/people/1"
    then ok (answer 200 "person")
    else if path == "/people"
    then ok (answer 200 "people")
    else ok (answer 404 "")

abbrev pub row : String → String → Json → Row
row t i raw = record {
  table = t;
  pco_id = i;
  raw = raw;
  first_seen_at = "2026-01-01T00:00:00Z";
  last_synced_at = "2026-01-01T00:00:00Z";
  source = from_backfill;
  api_version = "2025-11-10";
  deleted_at = none;
  tombstone_uat = none;
  tombstone_reason = none;
  merged_into_pco_id = none;
  typed = blank;
}

-- Two memberships of one household, of which one is gone, a campus that is gone, and two e-mail
-- addresses, of which the person names one.
abbrev pub rows : List Row
rows =
    row "household_membership" "1" (membership "1")
    ∷ row "household_membership" "9" (membership "9")
    ∷ row "campus" "4" (entry "Campus" "4" (obj end))
    ∷ row "email" "7" (entry "Email" "7" (to_one "person" "Person" "1"))
    ∷ row "email" "8" (entry "Email" "8" (to_one "person" "Person" "1"))
    ∷ row "person" "1" (entry "Person" "1" (obj end))
    ∷ row "person" "2" (entry "Person" "2" (obj end))
    ∷ []

abbrev pub task : Task
task = record {
  resource_type = "person";
  pco_id = "2";
  includes = [];
  reason = "thin_webhook";
  not_before = "2026-02-28T00:00:00Z";
}

abbrev pub db : Db
db = record empty { rows = rows; tasks = task ∷ [] }
