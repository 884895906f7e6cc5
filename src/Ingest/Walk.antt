-- ===== src/Ingest/Walk.antt =====
-- ingest.py: `_walk_one`, `_tombstone_if_absent`, `walk_parent` and `ensure_parent_walked`.
use pcomirror.Store.{SyncSource, from_passthrough}
use Prim.Native.String.{◌++◌}
use Prim.Native.Nat.{◌+◌}
use pcomirror.Prelude.{
  ℕ, zero, suc, String, Bool, true, false, Option, none, some, List, [], ◌∷◌, ◌==◌, ◌&&◌, not,
  is_some, if◌then◌else◌, contains, is_text, or_default,
}
use pcomirror.Result.{Result, ok, err, key_error, ingest_error, ◌>>=◌}
use pcomirror.Json.{Json, null}
use pcomirror.Registry.{Resource, by_name}
use pcomirror.Registry.Columns.{column}
use pcomirror.Store.{Row}
use pcomirror.Client.Request.{Response, is_ok}
use pcomirror.Webhooks.State.{World, Db, Run}
use pcomirror.Writer.Tombstone.{tombstone}
use pcomirror.Writer.Route.{route_page}
use pcomirror.Ingest.Remote.{
  Remote, per_page, offset, is_absent, page_of, after_page, Step, ◌and◌, reading, writing,
}

-- A live row of a table whose payload passes a test.
abbrev pub live_in : String → (Json → Bool) → Row → Bool
live_in t test row = row.table == t && (test row.raw && not (is_some row.deleted_at))

-- SELECT pco_id FROM r.table WHERE r.parent_fk = i AND deleted_at IS NULL
abbrev pub is_child : Resource → String → Row → Bool
is_child r i = live_in r.table (λ raw. is_text (column r (or_default r.parent_fk "") raw) i)

unfoldable pub ids_where : (Row → Bool) → List Row → List String
ids_where p [] = []
ids_where p (row ∷ rs) = if p row then row.pco_id ∷ ids_where p rs else ids_where p rs

-- `for row in stale: if row["pco_id"] not in …: self.writer.tombstone(…)`
unfoldable pub bury_unseen :
    World → String → String → (String → Bool) → List String → List Row → Step (Unit {0})
bury_unseen w t reason spared [] rs = (rs, ok tt)
bury_unseen w t reason spared (i ∷ rest) rs =
    if spared i
    then bury_unseen w t reason spared rest rs
    else writing (tombstone w.env t i null reason none rs) rs
      and (λ u rs'. bury_unseen w t reason spared rest rs')

-- The same for the live rows that a query finds first.
unfoldable pub bury_where :
    World → String → String → (Json → Bool) → (String → Bool) → List Row → Step (Unit {0})
unfolding ids_where bury_unseen
bury_where w t reason test spared rs =
    bury_unseen w t reason spared (ids_where (live_in t test) rs) rs

unfoldable pub tombstone_if_absent : World → Remote → Resource → String → List Row → Step Bool
tombstone_if_absent w remote r i rs = elim (remote (r.endpoint ++ ("/" ++ i)) []) [
  | err e ↦ (rs, ok false)
  | ok resp ↦
      if is_absent resp
      then writing (tombstone w.env r.table i null "audit_absent" none rs) rs
        and (λ u rs'. (rs', ok true))
      else (rs, ok false)
]

-- How the pages of one parent ended: its collection answered 404, or these ids were listed.
pub data Pages : Type 0 where
  vanished : Pages
  whole : List String → Pages

-- What a page leaves, with the ids so far and whether it was the last.
unfoldable pub walk_page :
    World → SyncSource → List String → Response → List Row → Step (List String × Bool)
walk_page w source seen resp rs = reading (page_of w resp) rs and (λ page rs1.
    route_page w.env source [] none page.0 rs1 and (λ n rs2. reading (after_page seen page.1) rs2))

abbrev pub path_of : Resource → Resource → String → String
path_of r parent i = parent.endpoint ++ ("/" ++ (i ++ or_default r.parent_path ""))

-- The loop over the pages, with fuel for the answers that never end.
unfoldable pub walk_pages :
    World → Remote → String → SyncSource → ℕ → ℕ → List String → List Row → Step (Option Pages)
walk_pages w remote path source zero off seen rs = (rs, ok none)
walk_pages w remote path source (suc fuel) off seen rs =
    reading (remote path (per_page 100 ∷ offset off ∷ [])) rs and (λ resp rs1.
      if is_absent resp
      then (rs1, ok (some vanished))
      else if is_ok resp
      then walk_page w source seen resp rs1 and (λ out rs2.
        if out.1
        then (rs2, ok (some (whole out.0)))
        else walk_pages w remote path source fuel (off + 100) out.0 rs2)
      else (rs1, err (ingest_error path)))

-- What follows the pages: a vanished collection's parent is asked for, and of a whole collection
-- whatever the mirror still holds and was not listed is gone.
unfoldable pub after_pages :
    World → Remote → Resource → Resource → String → Option Pages → List Row → Step (Option Pages)
unfolding tombstone_if_absent bury_where
after_pages w remote r parent i none rs = (rs, ok none)
after_pages w remote r parent i (some vanished) rs =
    tombstone_if_absent w remote parent i rs and (λ b rs'. (rs', ok (some vanished)))
after_pages w remote r parent i (some (whole seen)) rs =
    bury_where w r.table "destroyed" (λ raw. is_text (column r (or_default r.parent_fk "") raw) i)
      (contains seen) rs
    and (λ u rs'. (rs', ok (some (whole seen))))

-- `_walk_one`
unfoldable pub walk_one :
    World → Remote → ℕ → Resource → Resource → String → SyncSource → List Row → Step (Option Pages)
unfolding walk_pages after_pages
walk_one w remote fuel r parent i source rs =
    walk_pages w remote (path_of r parent i) source fuel 0 [] rs
    and (λ ended rs'. after_pages w remote r parent i ended rs')

-- INSERT INTO nested_walk_state … ON CONFLICT … DO UPDATE
unfoldable pub has_walk : String → String → List (String × String) → Bool
has_walk name i [] = false
has_walk name i ((n, p) ∷ ws) = if n == name && p == i then true else has_walk name i ws

unfoldable pub put_walk : String → String → List (String × String) → List (String × String)
unfolding has_walk
put_walk name i ws = if has_walk name i ws then ws else (name, i) ∷ ws

-- A walk that was cut off by the fuel is not recorded.
record_walk : String → String → Option Pages → Db → Db
unfolding put_walk
record_walk name i none db = db
record_walk name i (some p) db = record db { walks = put_walk name i db.walks }

-- `registry.by_name(name)`, and of its parent: an unknown name is a KeyError.
unfoldable pub declared : String → Result Resource
declared name = elim (by_name name) [ none ↦ err (key_error name) | some r ↦ ok r ]

unfoldable pub with_parent : String → Result (Resource × Resource)
unfolding declared
with_parent name = do
  r ← declared name
  parent ← declared (or_default r.parent "None")
  ok (r, parent)

-- A step on the tables, in the database.
unfoldable pub in_db : {A : Type 0} → Db → (List Row → Step A) → Db × Result A
in_db db step = let (rs, out) = step db.rows in (record db { rows = rs }, out)

unfoldable pub after_walk : String → String → Db × Result (Option Pages) → Run Bool
unfolding record_walk
after_walk name i (db, err e) = (db, err e)
after_walk name i (db, ok ended) = (record_walk name i ended db, ok (is_some ended))

-- `walk_parent`. The result says whether the fuel was enough.
unfoldable pub walk_parent : World → Remote → ℕ → String → String → SyncSource → Db → Run Bool
unfolding with_parent in_db walk_one after_walk
walk_parent w remote fuel name i source db = elim (with_parent name) [
  | err e ↦ (db, err e)
  | ok (r, parent) ↦
      after_walk name i (in_db db (λ rs. walk_one w remote fuel r parent i source rs))
]

-- `ensure_parent_walked`, with `parent_walked`
unfoldable pub ensure_parent_walked : World → Remote → ℕ → String → String → Db → Run Bool
unfolding has_walk walk_parent
ensure_parent_walked w remote fuel name i db =
    if has_walk name i db.walks
    then (db, ok true)
    else walk_parent w remote fuel name i from_passthrough db
