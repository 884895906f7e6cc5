-- ===== src/Ingest/Refresh.antt =====
-- ingest.py: `reference_refresh`, list and replace.
use pcomirror.Store.{from_reconcile}
use Prim.Native.Nat.{◌+◌}
use pcomirror.Prelude.{
  ℕ, zero, suc, String, true, Option, none, some, List, [], ◌∷◌, ◌==◌, if◌then◌else◌, contains,
  length, ltb,
}
use pcomirror.Result.{Result, ok, err, ◌>>=◌}
use pcomirror.Json.{Json, item, iterate, bind_text}
use pcomirror.Registry.{Resource}
use pcomirror.Store.{Row}
use pcomirror.Client.Request.{Response}
use pcomirror.Webhooks.State.{World, Db}
use pcomirror.Writer.Upsert.{confirm_live}
use pcomirror.Writer.Project.{reproject_field_data}
use pcomirror.Ingest.Remote.{
  Remote, per_page, offset, page_of, add_id, Step, ◌and◌, reading, writing,
}
use pcomirror.Ingest.Walk.{bury_where, declared, in_db}

-- `d["id"]`, bound to a TEXT column
unfoldable pub key_of : Json → Result String
key_of d = do i ← item "id" d; bind_text i

-- `fetched.add(d["id"])`
unfoldable pub fetched_with : Json → List String → Result (List String)
fetched_with d fetched = do i ← item "id" d; add_id i fetched

-- The loop's body: the record is live, and a definition's values are projected again.
unfoldable pub confirm_one : World → Resource → Json → List String → List Row → Step (List String)
unfolding key_of fetched_with
confirm_one w r d fetched rs = reading (key_of d) rs and (λ k rs1.
    writing (confirm_live w.env r.table k d from_reconcile rs1) rs1 and (λ u rs2.
      reading (fetched_with d fetched) rs2 and (λ fetched' rs3. (
        if r.name == "field_definition" then reproject_field_data w.env k rs3 else rs3,
        ok fetched',
      ))))

unfoldable pub confirm_all :
    World → Resource → List Json → List String → List Row → Step (List String)
unfolding confirm_one
confirm_all w r [] fetched rs = (rs, ok fetched)
confirm_all w r (d ∷ ds) fetched rs =
    confirm_one w r d fetched rs and (λ fetched' rs'. confirm_all w r ds fetched' rs')

-- `resp.json() or {}` and its list: the status is not looked at.
unfoldable pub entries_of : World → Response → Result (List Json)
unfolding page_of
entries_of w resp = do page ← page_of w resp; iterate page.1

-- The loop over the pages, with fuel for the answers that never end.
unfoldable pub refresh_pages :
    World → Remote → Resource → ℕ → ℕ → List String → List Row → Step (Option (List String))
unfolding entries_of confirm_all
refresh_pages w remote r zero off fetched rs = (rs, ok none)
refresh_pages w remote r (suc fuel) off fetched rs =
    reading (remote r.endpoint (per_page 100 ∷ offset off ∷ [])) rs and (λ resp rs1.
      reading (entries_of w resp) rs1 and (λ ds rs2.
        confirm_all w r ds fetched rs2 and (λ fetched' rs3.
          if ltb (length ds) 100
          then (rs3, ok (some fetched'))
          else refresh_pages w remote r fuel (off + 100) fetched' rs3)))

-- What is not on the list is buried.
unfoldable pub replace :
    World → Resource → Option (List String) → List Row → Step (Option (List String))
unfolding bury_where
replace w r none rs = (rs, ok none)
replace w r (some fetched) rs =
    bury_where w r.table "absent" (λ raw. true) (contains fetched) rs
    and (λ u rs'. (rs', ok (some fetched)))

-- `reference_refresh` on the tables; the result is the list of what was fetched.
unfoldable pub refresh : World → Remote → ℕ → Resource → List Row → Step (Option (List String))
unfolding refresh_pages replace
refresh w remote fuel r rs =
    refresh_pages w remote r fuel 0 [] rs and (λ fetched rs'. replace w r fetched rs')

unfoldable pub reference_refresh :
    World → Remote → ℕ → String → Db → Db × Result (Option (List String))
unfolding declared in_db refresh
reference_refresh w remote fuel name db = elim (declared name) [
  | err e ↦ (db, err e)
  | ok r ↦ in_db db (λ rs. refresh w remote fuel r rs)
]
