-- ===== src/Writer/Examples.antt =====
-- The writer's theorems at a small mirror: a person with an e-mail address, and a merged person.
use pcomirror.Store.{from_webhook, from_backfill, from_reconcile}
use pcomirror.Prelude.{String, ◌≡◌, refl, true, none, some, List, [], ◌∷◌, inl, inr, text_lt}
use pcomirror.Result.{ok}
use pcomirror.Json.{Json, str, obj, null, field, end, arr, cons, nil}
use pcomirror.Registry.{by_table, owned_children}
use pcomirror.Registry.Columns.{column}
use pcomirror.Store.{Row, blank, uat, select}
use pcomirror.Writer.Ops.{Env, is_table}
use pcomirror.Writer.Upsert.{upsert, confirm_live}
use pcomirror.Writer.Tombstone.{tombstone, stable_ts}
use pcomirror.Writer.Route.{route_page}
use pcomirror.Writer.Cascade.{owned_by}
use pcomirror.Writer.Look.{look}
use pcomirror.Writer.Convergence.{deliver, deliver-newest, raw_at}
use pcomirror.Writer.Ownership.{
  NoLiveChild, tombstone-NoLiveChild, stale_destroyed_buries, tombstone-confirm_live,
}
use pcomirror.Writer.Steps.{Write, Writes}
use pcomirror.Writer.Merges.{Writes-IsMerged}
use pcomirror.Writer.Merged.{IsMerged}
use pcomirror.Writer.Overwrites.{destroyed_ends_merge}

abbrev env : Env
env = record { now = "2026-03-01T00:00:00Z"; api_version = "2025-11-10"; float = λ s. some s }

-- A payload with an `updated_at` and a name.
abbrev dated : String → String → Json
dated at name = obj (
    field "type" (str "Person") (
      field "id" (str "1")
        (field "attributes" (obj (field "updated_at" (str at) (field "name" (str name) end))) end)))

abbrev old : Json
old = dated "2026-01-01T00:00:00Z" "Ada"

abbrev new : Json
new = dated "2026-02-01T00:00:00Z" "Ada Byron"

abbrev address : Json
address = obj (
    field "relationships"
      (obj (
        field "person"
          (obj (field "data" (obj (field "type" (str "Person") (field "id" (str "1") end))) end))
          end))
      end)

abbrev row : String → String → Json → Row
row t i raw = record {
  table = t;
  pco_id = i;
  raw = raw;
  first_seen_at = "2026-01-01T00:00:00Z";
  last_synced_at = "2026-01-01T00:00:00Z";
  source = from_backfill;
  api_version = "2025-11-10";
  deleted_at = none;
  tombstone_uat = none;
  tombstone_reason = none;
  merged_into_pco_id = none;
  typed = blank;
}

abbrev email : Row
email = row "email" "9" address

abbrev email_row : Row
email_row = row "email" "8" address

abbrev dead_email : Row
dead_email = record email_row {
  deleted_at = some "2026-01-15T00:00:00Z";
  tombstone_reason = some "destroyed";
}

abbrev loser : Row
loser = row "person" "2" old

abbrev merged : Row
merged = record loser {
  deleted_at = some "2026-01-15T00:00:00Z";
  tombstone_uat = some "2026-01-15T00:00:00Z";
  tombstone_reason = some "merged";
}

abbrev mirror : List Row
mirror = row "person" "1" new ∷ email ∷ dead_email ∷ merged ∷ []

person_table : is_table "person" ≡ true
unfolding is_table by_table
person_table = refl

deliver-newest_example :
    (rs' : List Row) × (deliver "person" "1"
        (record { env = env; source = from_webhook; payload = new }
          ∷ record { env = env; source = from_webhook; payload = old }
          ∷ record { env = env; source = from_webhook; payload = new }
          ∷ [])
        []
      ≡ ok rs')
    × (raw_at "person" "1" rs' ≡ some new)
unfolding uat select text_lt
deliver-newest_example =
    deliver-newest "person" "1" new _ [] person_table tt (inl refl, (inr refl, (inl refl, tt)))
      (inl refl)

email_owned : owned_by "person" "1" email ≡ true
unfolding owned_by by_table owned_children column
email_owned = refl

dead_email_owned : owned_by "person" "1" dead_email ≡ true
unfolding owned_by by_table owned_children column
dead_email_owned = refl

tombstone-NoLiveChild_example :
    (rs' : List Row) × (tombstone env "person" "1" null "audit_absent" none mirror ≡ ok rs')
    × NoLiveChild "person" "1" rs'
tombstone-NoLiveChild_example =
    tombstone-NoLiveChild env "person" "1" null "audit_absent" none mirror person_table refl

-- The event is a month older than the stored person.
stale_destroyed_buries_example :
    (rs' : List Row) × (tombstone env "person" "1"
        (str "2026-01-01T00:00:00Z")
        "destroyed"
        none
        mirror
      ≡ ok rs')
    × (select "person" "1" rs' ≡ some (row "person" "1" new))
    × NoLiveChild "person" "1" rs'
unfolding select uat stable_ts text_lt
stale_destroyed_buries_example =
    stale_destroyed_buries env "person" "1" (str "2026-01-01T00:00:00Z") mirror
      (row "person" "1" new) person_table refl refl refl

tombstone-confirm_live_example :
    (rs1 rs2 : List Row) × (tombstone env "person" "1" null "absent" none mirror ≡ ok rs1)
    × (confirm_live env "person" "1" new from_reconcile rs1 ≡ ok rs2)
    × (select "email" "9" rs2
        ≡ some (record email {
          deleted_at = none;
          tombstone_uat = none;
          tombstone_reason = none;
          last_synced_at = env.now;
          source = from_reconcile;
        }))
unfolding select
tombstone-confirm_live_example =
    tombstone-confirm_live env env "person" "1" null "absent" none new from_reconcile mirror "email"
      "9" email person_table refl refl email_owned refl

-- A page that holds both persons again, the merged one with a newer payload.
abbrev page : Json
page = obj (
    field "data"
      (arr (
        cons new (
          cons
            (obj (
              field "type" (str "Person") (
                field "id" (str "2") (
                  field "attributes" (obj (field "updated_at" (str "2026-05-01T00:00:00Z") end))
                    end))))
            nil)))
      end)

mirror-IsMerged : IsMerged "person" "2" mirror
unfolding select
mirror-IsMerged = (merged, refl, (refl, refl))

Writes-IsMerged_example :
    IsMerged "person" "2" (route_page env from_reconcile [] none page mirror).0
Writes-IsMerged_example =
    Writes-IsMerged "person" "2"
      (Writes.next Writes.here (Write.pages env from_reconcile [] none page refl)) (tt, tt)
      mirror-IsMerged

destroyed_ends_merge_example :
    (rs1 rs2 : List Row) × (r : Row) × (tombstone env "person" "2"
        (str "2026-01-16T00:00:00Z")
        "destroyed"
        none
        mirror
      ≡ ok rs1)
    × (upsert env "person" "2" new from_webhook rs1 ≡ ok rs2)
    × (look "person" "2" rs2 ≡ some r)
    × (r.deleted_at ≡ none)
unfolding uat text_lt
destroyed_ends_merge_example =
    destroyed_ends_merge env env "person" "2" "2026-02-01T00:00:00Z" "2026-01-16T00:00:00Z" new
      from_webhook mirror person_table refl mirror-IsMerged refl refl
