-- ===== src/Ingest/Examples.antt =====
-- ingest.py: the theorems at a small mirror.
use pcomirror.Store.{from_reconcile}
use pcomirror.Prelude.{
  ℕ, String, ◌≡◌, refl, Bool, true, false, Option, none, some, List, [], ◌∷◌, All, ◌<◌, arith,
}
use pcomirror.Result.{ok}
use pcomirror.Json.{Json, str, arr, nil, obj, end}
use pcomirror.Ingest.Fetched.{lists}
use pcomirror.Registry.{resources}
use pcomirror.Registry.Groups.{household_membership_resource, household_resource}
use pcomirror.Registry.Lite.{reference}
use pcomirror.Registry.People.{person_resource}
use pcomirror.Registry.Columns.{column}
use pcomirror.Store.{Row, uat, select, is_live}
use pcomirror.Writer.Ops.{is_table}
use pcomirror.Ingest.Remote.{Remote, After}
use pcomirror.Ingest.Walk.{walk_one, whole, Pages, tombstone_if_absent}
use pcomirror.Ingest.Ends.{walk_one-ends, is_full, IsSome}
use pcomirror.Ingest.Ends.{refresh-ends}
use pcomirror.Ingest.Refresh.{refresh}
use pcomirror.Ingest.Exact.{refresh-IsExact}
use pcomirror.Ingest.Confirmed.{IsLive}
use pcomirror.Ingest.Walk.{live_in}
use pcomirror.Ingest.Hydrate.{hydrate, drain_hydration, first_tasks, ready_tasks}
use pcomirror.Ingest.Verdict.{IsVerdict, hydrate-IsVerdict}
use pcomirror.Ingest.Diff.{include_diff, Answered, asked_for}
use pcomirror.Ingest.Compared.{include_diff-spares, include_diff-IsCompared, IsCompared}
use pcomirror.Ingest.Drained.{is_none_of, drain_hydration-drained}
use pcomirror.Ingest.Mergers.{poll_page}
use pcomirror.Ingest.Queue.{Change, task_for, changed, planned, asks, takes, changed-planned}
use pcomirror.Ingest.Replayed.{poll_page-again}
use pcomirror.Ingest.Requests.{request_audit, request_all, audit_request, drift, operator}
use pcomirror.Ingest.Escalation.{request_all-operator}
use pcomirror.Webhooks.State.{Db, World}
use pcomirror.Ingest.Samples.{entry, world, remote, rows, db, person, answer, merger, task}

walked : Pages
walked = whole ("1" ∷ [])

walk_one-ends_example : After IsSome (
    walk_one world remote 1 household_membership_resource household_resource "5" from_reconcile
      rows)
unfolding is_full pcomirror.Ingest.Refresh.entries_of
walk_one-ends_example =
    walk_one-ends world remote 1 0 household_membership_resource household_resource "5"
      from_reconcile rows (omega arith) refl

abbrev campuses : List Json
campuses = entry "Campus" "3" (obj end) ∷ []

refresh-IsExact_example :
    ((i : String)
      → lists i campuses ≡ true
      → IsLive "campus" i (refresh world remote 1 (reference "campus" "Campus" "/campuses") rows).0)
    × All
        (λ row. live_in "campus" (λ raw. true) row ≡ true → lists row.pco_id campuses ≡ true)
        (refresh world remote 1 (reference "campus" "Campus" "/campuses") rows).0
unfolding refresh pcomirror.Writer.Upsert.confirm_live is_table pcomirror.Registry.by_table
    pcomirror.Writer.Ops.uncascade pcomirror.Registry.owned_children pcomirror.Store.put_row
    pcomirror.Writer.Tombstone.tombstone pcomirror.Ingest.Descended.listing
refresh-IsExact_example =
    refresh-IsExact world remote 1 (reference "campus" "Campus" "/campuses") rows campuses []
      (answer 200 "campuses", refl, refl, refl) refl

refresh-ends_test :
    After IsSome (refresh world remote 1 (reference "campus" "Campus" "/campuses") rows)
unfolding is_full pcomirror.Ingest.Refresh.entries_of
refresh-ends_test =
    refresh-ends world remote 1 0 (reference "campus" "Campus" "/campuses") rows (omega arith) refl

-- An answer that is no success is read as the end of an empty list.
refused : Remote
refused path query = ok (answer 403 "")

unauthorized_test :
    is_live (
      select "campus" "4"
        (refresh world refused 1 (reference "campus" "Campus" "/campuses") rows).0)
    ≡ false
unfolding refresh refused select pcomirror.Writer.Tombstone.tombstone is_table
    pcomirror.Registry.by_table pcomirror.Writer.Ops.cascade pcomirror.Registry.owned_children
    pcomirror.Store.update_where uat pcomirror.Prelude.text_lt
unauthorized_test = refl

hydrate-IsVerdict_example :
    IsVerdict person_resource "2"
      (ok (answer 404 ""))
      rows
      (hydrate world remote person_resource "2" [] rows).0
unfolding is_table pcomirror.Registry.by_table
hydrate-IsVerdict_example = hydrate-IsVerdict world remote person_resource "2" [] rows refl

abbrev answered : Answered
answered = record { key = str "1"; present = []; claimed = ("Email", "7") ∷ [] }

include_diff-spares_example :
    select "email" "7" (include_diff world person (arr nil) ("emails" ∷ []) rows).0
    ≡ select "email" "7" rows
unfolding include_diff pcomirror.Webhooks.State.same_key column pcomirror.Writer.Tombstone.tombstone
    is_table pcomirror.Registry.by_table
include_diff-spares_example =
    include_diff-spares world person (arr nil) ("emails" ∷ []) "email" "7" rows answered refl refl
      refl

include_diff-IsCompared_example :
    All
      (IsCompared world
        (str "1")
        (asked_for ("emails" ∷ []))
        []
        (("Email", "7") ∷ [])
        (include_diff world person (arr nil) ("emails" ∷ []) rows).0)
      resources
unfolding include_diff pcomirror.Webhooks.State.same_key column pcomirror.Writer.Tombstone.tombstone
    is_table pcomirror.Registry.by_table
include_diff-IsCompared_example =
    include_diff-IsCompared world person (arr nil) ("emails" ∷ []) rows answered refl refl

buried_test :
    is_live (select "email" "8" (include_diff world person (arr nil) ("emails" ∷ []) rows).0)
    ≡ false
unfolding include_diff select pcomirror.Webhooks.State.same_key column
    pcomirror.Writer.Tombstone.tombstone is_table pcomirror.Registry.by_table
    pcomirror.Writer.Ops.cascade pcomirror.Registry.owned_children pcomirror.Store.update_where uat
    pcomirror.Prelude.text_lt
buried_test = refl

drain_hydration-drained_example :
    All
      (λ u. is_none_of (first_tasks 25 (ready_tasks world.env.now db.tasks)) u ≡ true)
      (drain_hydration world remote 25 db).0.tasks
unfolding drain_hydration pcomirror.Prelude.text_lt pcomirror.Ingest.Walk.declared
    pcomirror.Registry.by_name pcomirror.Ingest.Walk.in_db pcomirror.Ingest.Remote.is_absent
    pcomirror.Writer.Tombstone.tombstone is_table pcomirror.Registry.by_table
drain_hydration-drained_example = drain_hydration-drained world remote 25 db refl

-- A day after the other readings.
abbrev next_day : World
next_day = record world { env = record world.env { now = "2026-03-02T00:00:00Z" } }

poll_page-again_example :
    poll_page next_day
      (merger ∷ [])
      ("2026-02-01T00:00:00Z", 0)
      (poll_page world (merger ∷ []) ("", 0) db).0
    ≡ ((poll_page world (merger ∷ []) ("", 0) db).0, ok ("2026-02-01T00:00:00Z", 0))
unfolding poll_page pcomirror.Webhooks.Merger.merger_is_new select pcomirror.Ingest.Walk.in_db
    pcomirror.Writer.Tombstone.tombstone is_table pcomirror.Registry.by_table
    pcomirror.Webhooks.Hydration.enqueue_hydration pcomirror.Prelude.text_lt
poll_page-again_example = poll_page-again world next_day (merger ∷ []) "" 0 db refl

abbrev requested : Db
requested = (request_audit world "person" operator db).0

request_all-operator_example :
    audit_request "person"
      (request_all ((world, ("person", drift)) ∷ (world, ("email", operator)) ∷ []) requested).0
    ≡ ok (some "operator")
unfolding request_audit pcomirror.Webhooks.State.get_key pcomirror.Webhooks.State.set_key
    pcomirror.Prelude.first_word
request_all-operator_example =
    request_all-operator ((world, ("person", drift)) ∷ (world, ("email", operator)) ∷ []) "person"
      requested refl

-- A record is asked for twice, hydrated, and asked for once more.
abbrev changes : List Change
changes =
    asks world "person" "2" "thin_webhook" [] 60
    ∷ asks world "person" "2" "merge_survivor" ("emails" ∷ []) 0
    ∷ takes task
    ∷ asks world "person" "2" "thin_webhook" ("emails" ∷ []) 0
    ∷ []

changed-planned_example :
    task_for "person" "2" (changed changes db).tasks
    ≡ planned changes (λ n j. task_for n j db.tasks) "person" "2"
changed-planned_example = changed-planned changes db "person" "2"
