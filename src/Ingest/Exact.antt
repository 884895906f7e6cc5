-- ===== src/Ingest/Exact.antt =====
-- ingest.py: `reference_refresh` as a whole.
use pcomirror.Prelude.{
  Bool, false, ◌||◌, sym, arith, ℕ, String, ◌≡◌, true, Option, none, some, List, [], contains, All,
  ap, ◌∙◌,
}
use pcomirror.Result.{ok}
use pcomirror.Json.{Json}
use pcomirror.Ingest.Buried.{All-map}
use pcomirror.Ingest.Descended.{listing}
use pcomirror.Ingest.Fetched.{IsPaged, lists, Fetches, refresh_pages-Fetches, replace-Fetches}
use pcomirror.Registry.{Resource}
use pcomirror.Store.{Row, is_live}
use pcomirror.Webhooks.State.{World}
use pcomirror.Ingest.Remote.{Remote, and-After, After, After_ok}
use pcomirror.Ingest.Walk.{live_in, bury_where}
use pcomirror.Ingest.Refresh.{refresh, refresh_pages, replace}
use pcomirror.Ingest.Authority.{bury_where-Spared}
use pcomirror.Ingest.Replaced.{select-bury_where}
use pcomirror.Ingest.Confirmed.{IsLive, EndLive, refresh_pages-AllLive}

-- The live rows of the table are the fetched ones.
abbrev pub IsExact : Resource → Option (List String) → List Row → Type 0
IsExact r none rs = Unit
IsExact r (some fetched) rs =
    ((i : String) → contains fetched i ≡ true → IsLive r.table i rs)
    × All (λ row. live_in r.table (λ raw. true) row ≡ true → contains fetched row.pco_id ≡ true) rs

replace-IsExact :
    (w : World) (r : Resource) (got : Option (List String)) (rs : List Row)
    → ((i : String) → EndLive w r i got rs)
    → After (IsExact r) (replace w r got rs)
unfolding replace
replace-IsExact w r none rs h = tt
replace-IsExact w r (some fetched) rs h =
    and-After (IsExact r) (bury_where w r.table "absent" (λ raw. true) (contains fetched) rs) _
      (λ u rs' e. (
        (λ i c.
            ap is_live
              (select-bury_where w r.table "absent" i (λ raw. true) (contains fetched) c rs e)
            ∙ h i c),
        bury_where-Spared w r.table "absent" (λ raw. true) (contains fetched) rs e,
      ))

-- List and replace: where the collection answers with these pages, the last of them short, a refresh
-- that goes through with fuel enough leaves every resource that they list, by a text as its id, live
-- in the reference table, and every live row of the table is one that they list.
pub refresh-IsExact :
    (w : World) (remote : Remote) (fuel : ℕ) (r : Resource) (rs : List Row) (p : List Json)
    (qs : List (List Json)) {rs' : List Row} {fetched : List String}
    → IsPaged w remote r 0 p qs
    → refresh w remote fuel r rs ≡ (rs', ok (some fetched))
    → ((i : String) → lists i (listing p qs) ≡ true → IsLive r.table i rs')
      × All
          (λ row. live_in r.table (λ raw. true) row ≡ true → lists row.pco_id (listing p qs) ≡ true)
          rs'
unfolding refresh
refresh-IsExact w remote fuel r rs p qs {rs'} {fetched} pages e =
    let (alive, named) =
      After_ok (IsExact r) _
        (and-After (IsExact r) (refresh_pages w remote r fuel 0 [] rs) _ (λ got rs1 e1.
          replace-IsExact w r got rs1 (λ i.
            After_ok (EndLive w r i) _ (refresh_pages-AllLive w r i remote fuel 0 [] rs (λ c. cc))
              e1)))
        e in
    let ids = λ (i : String).
      After_ok (Fetches w r i (listing p qs) []) _
        (and-After (Fetches w r i (listing p qs) []) (refresh_pages w remote r fuel 0 [] rs) _
          (λ got rs1 e1. replace-Fetches w r i (listing p qs) [] got rs1 (
            After_ok (Fetches w r i (listing p qs) []) _
              (refresh_pages-Fetches w r i remote fuel 0 [] rs p qs pages) e1)))
        e in
    (
      λ i l. alive i (ids i ∙ either_none (lists i (listing p qs)) l),
      All-map (λ row. live_in r.table (λ raw. true) row ≡ true → contains fetched row.pco_id ≡ true)
          (λ row. live_in r.table (λ raw. true) row ≡ true → lists row.pco_id (listing p qs) ≡ true)
          rs'
          (λ row h live.
            none_else (lists row.pco_id (listing p qs)) (sym (ids row.pco_id) ∙ h live))
          named,
    )
  where
    either_none : (b : Bool) → b ≡ true → (b || false) ≡ true
    either_none b h = ground arith

    none_else : (b : Bool) → (b || false) ≡ true → b ≡ true
    none_else b h = ground arith
