-- ===== src/Ingest/Resumption.antt =====
-- ingest.py: a backfill of one person, cut into units, and a sweep of one page in either order.
use pcomirror.Prelude.{length, ℕ, ◌≡◌, refl, Bool, true, false, Option, none, some, [], ◌∷◌, arith}
use pcomirror.Result.{Result, ok}
use pcomirror.Registry.People.{person_resource}
use pcomirror.Ingest.Backfill.{
  Sync, Stored, Feed, End, finished, stopped, backfill_unit, backfill_units,
}
use pcomirror.Ingest.Resumed.{backfill_units-one}
use pcomirror.Json.{Json, obj, end}
use pcomirror.Ingest.Backfill.{◌filling◌, on_tables}
use pcomirror.Ingest.Descend.{descending_sweep, entries_at}
use pcomirror.Ingest.Descended.{
  Timed, routed, newer_than, newest, swept_until, descending_sweep-listing, IsListed,
}
use pcomirror.Ingest.Sweep.{incremental_sweep}
use pcomirror.Ingest.Samples.{world, remote, entry}
use pcomirror.Webhooks.Samples.{empty}

abbrev person_entry : Json
person_entry = entry "Person" "1" (obj end)

abbrev unsynced : Sync
unsynced = record {
  phase = "backfilling";
  backfill_cursor_ts = none;
  backfill_seen_ids = [];
  backfill_completed_at = none;
  reconcile_watermark = none;
  reconcile_cursor = none;
  last_sweep_completed_at = none;
  updated_at = "2026-01-01T00:00:00Z";
}

abbrev start : Stored
start = record { db = empty; sync = unsynced }

abbrev feed : Feed
feed = record {
  world = world;
  answers = λ n. remote;
  next_second = λ s. ok s;
  fuel = 2;
  resource = person_resource;
}

abbrev is_finished : Result End → Bool
is_finished (ok finished) = true
is_finished _ = false

abbrev is_stopped : Result End → Bool
is_stopped (ok stopped) = true
is_stopped _ = false

backfill_units-one_example : backfill_units feed (0 ∷ []) 1 0 start ≡ backfill_unit feed 3 0 start
backfill_units-one_example = backfill_units-one feed (0 ∷ []) 1 0 start

-- The first page is new, and the second is the same and ends the backfill.
one_page_test : is_stopped (backfill_unit feed 1 0 start).1 ≡ true
unfolding backfill_unit pcomirror.Client.Request.is_ok pcomirror.Ingest.Walk.in_db
    pcomirror.Writer.Route.route_page pcomirror.Writer.Route.route pcomirror.Registry.by_type
    pcomirror.Writer.Upsert.upsert pcomirror.Writer.Ops.is_table pcomirror.Registry.by_table
one_page_test = refl

all_pages_test : is_finished (backfill_units feed (0 ∷ []) 1 0 start).1 ≡ true
unfolding backfill_units pcomirror.Client.Request.is_ok pcomirror.Ingest.Walk.in_db
    pcomirror.Writer.Route.route_page pcomirror.Writer.Route.route pcomirror.Registry.by_type
    pcomirror.Writer.Upsert.upsert pcomirror.Writer.Ops.is_table pcomirror.Registry.by_table
all_pages_test = refl

-- The sweep meets one person, and no watermark.
IsListed-person : IsListed world remote person_resource 0 (person_entry ∷ []) []
unfolding entries_at
IsListed-person = (refl, refl)

abbrev timed_person : Timed
timed_person = (person_entry, "2026-02-01T00:00:00Z") ∷ []

descending_sweep-listing_example : descending_sweep world remote 1 person_resource start ≡ (
    on_tables start (λ rs. routed world (newer_than "" timed_person) rs) filling (λ u s'. (
      swept_until world (newest "" (newer_than "" timed_person)) s',
      ok (some (length (newer_than "" timed_person))),
    )))
unfolding pcomirror.Ingest.Descended.listing
descending_sweep-listing_example =
    descending_sweep-listing world remote 1 person_resource start (person_entry ∷ []) []
      timed_person (omega arith) IsListed-person refl ((_, refl, refl), tt)

abbrev counts : Result (Option ℕ) → ℕ
counts (ok (some n)) = n
counts _ = 0

swept_test : counts (descending_sweep world remote 1 person_resource start).1 ≡ 1
unfolding descending_sweep pcomirror.Ingest.Walk.in_db pcomirror.Writer.Route.route
    pcomirror.Registry.by_type pcomirror.Writer.Upsert.upsert pcomirror.Writer.Ops.is_table
    pcomirror.Registry.by_table
swept_test = refl

incremental_test : counts (incremental_sweep feed 1 start).1 ≡ 1
unfolding incremental_sweep pcomirror.Ingest.Walk.in_db pcomirror.Writer.Route.route_page
    pcomirror.Writer.Route.route pcomirror.Registry.by_type pcomirror.Writer.Upsert.upsert
    pcomirror.Writer.Ops.is_table pcomirror.Registry.by_table pcomirror.Ingest.Diff.include_diff
    pcomirror.Writer.Ops.uncascade pcomirror.Registry.owned_children
    pcomirror.Store.Rows.update_where pcomirror.Store.Rows.put_row
incremental_test = refl
