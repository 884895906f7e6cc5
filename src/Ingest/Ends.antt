-- ===== src/Ingest/Ends.antt =====
-- ingest.py: how the loops over the pages of a list end.
use pcomirror.Store.{SyncSource}
use Prim.Native.Nat.{◌+◌, ◌*◌}
use pcomirror.Prelude.{
  ℕ, zero, suc, String, ◌≡◌, refl, Bool, true, false, Option, none, some, List, [], ◌∷◌, ◌<◌,
  contains, arith, inl, inr, ap, sym, ◌∙◌, length, ltb, if◌then◌else◌, not, is_some,
}
use pcomirror.Result.{Result, ok, err, Result-cases, ok_of_bind}
use pcomirror.Json.{Json, iterate}
use pcomirror.Registry.{Resource}
use pcomirror.Store.{Row}
use pcomirror.Client.Request.{Response, is_ok}
use pcomirror.Webhooks.State.{World}
use pcomirror.Writer.Route.{route_page}
use pcomirror.Ingest.Remote.{
  Remote, Step, per_page, offset, and-After, After, After_ok, reading-After, page_of, after_page,
  add_ids, is_absent, reading,
}
use pcomirror.Ingest.Walk.{
  walk_pages, walk_page, walk_one, after_pages, vanished, whole, Pages, path_of, bury_where,
  tombstone_if_absent,
}
use pcomirror.Ingest.Refresh.{refresh, refresh_pages, replace, entries_of, confirm_all}
use pcomirror.Ingest.Buried.{if_both, ok_inj}

-- Is the answer at this offset a page of a hundred resources or more?
unfoldable pub is_full : World → Result Response → Bool
is_full w (err e) = false
is_full w (ok resp) = elim (entries_of w resp) [ err e ↦ false | ok ds ↦ not (ltb (length ds) 100) ]

abbrev pub IsSome : {A : Type 0} → Option A → List Row → Type 0
IsSome o rs = is_some o ≡ true

short_last :
    (w : World) (answer : Result Response) (resp : Response) (ds : List Json)
    → answer ≡ ok resp
    → entries_of w resp ≡ ok ds
    → is_full w answer ≡ false
    → ltb (length ds) 100 ≡ true
unfolding is_full
short_last w (err x) resp ds e0 e1 f = cc
short_last w (ok resp') resp ds e0 e1 f =
    let e2 : entries_of w resp' ≡ ok ds = ap (entries_of w) (ok_inj e0) ∙ e1 in
    let f' = rw (e2, is_full) at f in ground arith

off_zero : (off : ℕ) → off + 100 * 0 ≡ off
off_zero off = omega arith

from_zero : (k : ℕ) → 0 + 100 * k ≡ 100 * k
from_zero k = omega arith

chosen :
    {A : Type 0} (b : Bool) (x y : Step (Option A))
    → b ≡ true
    → After IsSome x
    → After IsSome (if b then x else y)
chosen b x y e h = rw (e) h

further : (off k : ℕ) → (off + 100) + 100 * k ≡ off + 100 * suc k
further off k = omega arith

refresh_pages-IsSome :
    (w : World) (remote : Remote) (r : Resource) (fuel off k : ℕ) (fetched : List String)
    (rs : List Row)
    → k < fuel
    → is_full w (remote r.endpoint (per_page 100 ∷ offset (off + 100 * k) ∷ [])) ≡ false
    → After IsSome (refresh_pages w remote r fuel off fetched rs)
unfolding refresh_pages
refresh_pages-IsSome w remote r zero off k fetched rs lt short = ground arith
refresh_pages-IsSome w remote r (suc fuel) off zero fetched rs lt short =
    let s0 = rw (off_zero off) at short in
    reading-After IsSome (remote r.endpoint _) rs _ (λ resp e0.
      reading-After IsSome (entries_of w resp) rs _ (λ ds e1.
        and-After IsSome (confirm_all w r ds fetched rs) _ (λ fetched' rs3 e2.
          chosen (ltb (length ds) 100) (rs3, ok (some fetched')) _
            (short_last w (remote r.endpoint (per_page 100 ∷ offset off ∷ [])) resp ds e0 e1 s0)
            refl)))
refresh_pages-IsSome w remote r (suc fuel) off (suc k) fetched rs lt short =
    reading-After IsSome (remote r.endpoint _) rs _ (λ resp e0.
      reading-After IsSome (entries_of w resp) rs _ (λ ds e1.
        and-After IsSome (confirm_all w r ds fetched rs) _ (λ fetched' rs3 e2.
          if_both (After IsSome) (ltb (length ds) 100) _ _ refl (
            refresh_pages-IsSome w remote r fuel (off + 100) k fetched' rs3 (omega arith)
              (rw (further off k) short)))))

replace-IsSome :
    (w : World) (r : Resource) (got : Option (List String)) (rs : List Row)
    → is_some got ≡ true
    → After IsSome (replace w r got rs)
unfolding replace
replace-IsSome w r none rs h = h
replace-IsSome w r (some fetched) rs h =
    and-After IsSome (bury_where w r.table "absent" (λ raw. true) (contains fetched) rs) _
      (λ u rs' e. refl)

-- A refresh ends: if the k-th answer is an error, is unreadable or lists fewer than a hundred
-- resources, then any fuel above k is enough for the loop to come to its end or to raise.
pub refresh-ends :
    (w : World) (remote : Remote) (fuel k : ℕ) (r : Resource) (rs : List Row)
    → k < fuel
    → is_full w (remote r.endpoint (per_page 100 ∷ offset (100 * k) ∷ [])) ≡ false
    → After IsSome (refresh w remote fuel r rs)
unfolding refresh
refresh-ends w remote fuel k r rs lt short =
    and-After IsSome (refresh_pages w remote r fuel 0 [] rs) _ (λ got rs1 e.
      replace-IsSome w r got rs1 (
        After_ok IsSome _
          (refresh_pages-IsSome w remote r fuel 0 k [] rs lt (rw (from_zero k) short)) e))

page_last :
    (w : World) (answer : Result Response) (resp : Response) (page : Json × Json)
    (seen : List String) (out : List String × Bool)
    → answer ≡ ok resp
    → page_of w resp ≡ ok page
    → after_page seen page.1 ≡ ok out
    → is_full w answer ≡ false
    → out.1 ≡ true
unfolding after_page entries_of
page_last w answer resp page seen out e0 e1 e2 f =
    let (ds, ei, e3) = ok_of_bind _ (iterate page.1) e2 in
    let (ids, ea, e4) = ok_of_bind _ (add_ids ds seen) e3 in
    let e5 : (ids, ltb (length ds) 100) ≡ out = ok_inj e4 in
    let listed : entries_of w resp ≡ ok ds = rw (e1) ei in
    sym (ap (λ p. p.1) e5) ∙ short_last w answer resp ds e0 listed f

-- The page is said to be the last.
abbrev pub Last : List String × Bool → List Row → Type 0
Last out rs = out.1 ≡ true

module _ (w : World) (remote : Remote) (path : String) (source : SyncSource) where
  walk_page-Last :
      (resp : Response) (off : ℕ) (seen : List String) (rs : List Row)
      → remote path (per_page 100 ∷ offset off ∷ []) ≡ ok resp
      → is_full w (remote path (per_page 100 ∷ offset off ∷ [])) ≡ false
      → After Last (walk_page w source seen resp rs)
  unfolding walk_page
  walk_page-Last resp off seen rs e0 short = reading-After Last (page_of w resp) rs _ (λ page e1.
      and-After Last (route_page w.env source [] none page.0 rs) _
        (λ n rs2 e2. last_read resp page off seen rs2 e0 e1 short))
    where
      last_read :
          (resp : Response) (page : Json × Json) (off : ℕ) (seen : List String) (rs2 : List Row)
          → remote path (per_page 100 ∷ offset off ∷ []) ≡ ok resp
          → page_of w resp ≡ ok page
          → is_full w (remote path (per_page 100 ∷ offset off ∷ [])) ≡ false
          → After Last (reading (after_page seen page.1) rs2)
      last_read resp page off seen rs2 e0 e1 short = elim (Result-cases (after_page seen page.1)) [
        | inl (out, e) ↦ rw (e) (
            page_last w (remote path (per_page 100 ∷ offset off ∷ [])) resp page seen out e0 e1 e
              short)
        | inr (x, e) ↦ rw (e) tt
      ]

  walk_pages-IsSome :
      (fuel off k : ℕ) (seen : List String) (rs : List Row)
      → k < fuel
      → is_full w (remote path (per_page 100 ∷ offset (off + 100 * k) ∷ [])) ≡ false
      → After IsSome (walk_pages w remote path source fuel off seen rs)
  unfolding walk_pages
  walk_pages-IsSome zero off k seen rs lt short = ground arith
  walk_pages-IsSome (suc fuel) off zero seen rs lt short =
      let s0 = rw (off_zero off) at short in
      reading-After IsSome (remote path (per_page 100 ∷ offset off ∷ [])) rs _ (λ resp e0.
        if_both (After IsSome) (is_absent resp) _ _ refl (
          if_both (After IsSome) (is_ok resp) _ _
            (and-After IsSome (walk_page w source seen resp rs) _ (λ out rs2 e1.
              chosen out.1 (rs2, ok (some (whole out.0))) _
                (After_ok Last _ (walk_page-Last resp off seen rs e0 s0) e1) refl))
            tt))
  walk_pages-IsSome (suc fuel) off (suc k) seen rs lt short =
      reading-After IsSome (remote path (per_page 100 ∷ offset off ∷ [])) rs _ (λ resp e0.
        if_both (After IsSome) (is_absent resp) _ _ refl (
          if_both (After IsSome) (is_ok resp) _ _
            (and-After IsSome (walk_page w source seen resp rs) _ (λ out rs2 e1.
              if_both (After IsSome) out.1 _ _ refl (
                walk_pages-IsSome fuel (off + 100) k out.0 rs2 (omega arith)
                  (rw (further off k) short))))
            tt))

after_pages-IsSome :
    (w : World) (remote : Remote) (r parent : Resource) (i : String) (got : Option Pages)
    (rs : List Row)
    → is_some got ≡ true
    → After IsSome (after_pages w remote r parent i got rs)
unfolding after_pages
after_pages-IsSome w remote r parent i none rs h = h
after_pages-IsSome w remote r parent i (some vanished) rs h =
    and-After IsSome (tombstone_if_absent w remote parent i rs) _ (λ b rs' e. refl)
after_pages-IsSome w remote r parent i (some (whole seen)) rs h =
    and-After IsSome (bury_where w r.table "destroyed" _ (contains seen) rs) _ (λ u rs' e. refl)

-- A walk of one parent ends: if the k-th answer about its collection is an error, is unreadable or
-- lists fewer than a hundred resources, then any fuel above k is enough for the walk to come to its
-- end or to raise.
pub walk_one-ends :
    (w : World) (remote : Remote) (fuel k : ℕ) (r parent : Resource) (i : String)
    (source : SyncSource) (rs : List Row)
    → k < fuel
    → is_full w (remote (path_of r parent i) (per_page 100 ∷ offset (100 * k) ∷ [])) ≡ false
    → After IsSome (walk_one w remote fuel r parent i source rs)
unfolding walk_one
walk_one-ends w remote fuel k r parent i source rs lt short =
    and-After IsSome (walk_pages w remote (path_of r parent i) source fuel 0 [] rs) _ (λ got rs1 e.
      after_pages-IsSome w remote r parent i got rs1 (
        After_ok IsSome _
          (walk_pages-IsSome w remote (path_of r parent i) source fuel 0 k [] rs lt
            (rw (from_zero k) short))
          e))
