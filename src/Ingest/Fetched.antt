-- ===== src/Ingest/Fetched.antt =====
-- ingest.py: the ids that a refresh remembers are those of the pages that were answered.
use pcomirror.Store.{from_reconcile}
use mathlib.Core.Path.{subst}
use Prim.Native.Nat.{◌+◌}
use pcomirror.Prelude.{
  ℕ, zero, suc, String, ◌≡◌, refl, Bool, true, false, Option, none, some, List, [], ◌∷◌, ◌++◌, ◌==◌,
  ◌||◌, if◌then◌else◌, contains, arith, ap, sym, ◌∙◌, length, ltb,
}
use pcomirror.Result.{Result, ok, err, ok_of_bind}
use pcomirror.Json.{Json, null, bool, num, str, arr, obj, item}
use pcomirror.Registry.{Resource}
use pcomirror.Store.{Row}
use pcomirror.Client.Request.{Response}
use pcomirror.Webhooks.State.{World}
use pcomirror.Ingest.Remote.{
  Remote, ◌and◌, per_page, offset, add_id, After, reading-After, writing-After, and-After, After_ok,
}
use pcomirror.Ingest.Refresh.{
  confirm_one, confirm_all, refresh_pages, replace, key_of, fetched_with, entries_of,
}
use pcomirror.Ingest.Walk.{bury_where}
use pcomirror.Ingest.Buried.{ok_inj}
use pcomirror.Ingest.Descended.{listing}
use pcomirror.Writer.Upsert.{confirm_live}

-- The resource has this text as its id.
unfoldable pub text_is : String → Result Json → Bool
text_is i (ok (str s)) = s == i
text_is i _ = false

abbrev pub has_id : String → Json → Bool
has_id i d = text_is i (item "id" d)

unfoldable pub lists : String → List Json → Bool
unfolding text_is
lists i [] = false
lists i (d ∷ ds) = has_id i d || lists i ds

-- The pages that a collection answers with, from an offset on: each but the last is full.
abbrev pub IsPaged : World → Remote → Resource → ℕ → List Json → List (List Json) → Type 0
IsPaged w remote r off p [] =
    (resp : Response) × (remote r.endpoint (per_page 100 ∷ offset off ∷ []) ≡ ok resp)
    × (entries_of w resp ≡ ok p)
    × (ltb (length p) 100 ≡ true)
IsPaged w remote r off p (q ∷ qs) =
    (resp : Response) × (remote r.endpoint (per_page 100 ∷ offset off ∷ []) ≡ ok resp)
    × (entries_of w resp ≡ ok p)
    × (ltb (length p) 100 ≡ false)
    × IsPaged w remote r (off + 100) q qs

lists-append : (i : String) (ds es : List Json) → lists i (ds ++ es) ≡ (lists i ds || lists i es)
unfolding lists
lists-append i [] es = refl
lists-append i (d ∷ ds) es = let h = lists-append i ds es in ground arith

read_id :
    (i : String) (d j : Json) (fetched fetched' : List String) {more : List String}
    → item "id" d ≡ ok j
    → more ≡ fetched'
    → contains more i ≡ (text_is i (ok j) || contains fetched i)
    → contains fetched' i ≡ (has_id i d || contains fetched i)
read_id i d j fetched fetched' e a h =
    sym (ap (λ x. contains x i) a) ∙ (h ∙ sym (ap (λ r. text_is i r || contains fetched i) e))

contains-add_id :
    (i : String) (d j : Json) (fetched fetched' : List String)
    → item "id" d ≡ ok j
    → add_id j fetched ≡ ok fetched'
    → contains fetched' i ≡ (has_id i d || contains fetched i)
unfolding text_is
contains-add_id i d (str s) fetched fetched' e a =
    read_id i d _ fetched fetched' e (ok_inj a) (ground arith)
contains-add_id i d (num s) fetched fetched' e a = read_id i d _ fetched fetched' e (ok_inj a) refl
contains-add_id i d (bool s) fetched fetched' e a = read_id i d _ fetched fetched' e (ok_inj a) refl
contains-add_id i d null fetched fetched' e a = read_id i d _ fetched fetched' e (ok_inj a) refl
contains-add_id i d (arr s) fetched fetched' e a = cc
contains-add_id i d (obj s) fetched fetched' e a = cc

module _ (w : World) (r : Resource) (i : String) where
  -- The ids so far are those before and those of the resources.
  abbrev Adds : List Json → List String → List String → List Row → Type 0
  Adds ds fetched fetched' rs = contains fetched' i ≡ (lists i ds || contains fetched i)

  confirm_one-Adds :
      (d : Json) (fetched : List String) (rs : List Row)
      → After (Adds (d ∷ []) fetched) (confirm_one w r d fetched rs)
  unfolding confirm_one fetched_with lists
  confirm_one-Adds d fetched rs = reading-After (Adds (d ∷ []) fetched) (key_of d) rs _ (λ k ek.
      writing-After (Adds (d ∷ []) fetched) (confirm_live w.env r.table k d from_reconcile rs) rs _
        (λ rs1 ec.
          reading-After (Adds (d ∷ []) fetched) (fetched_with d fetched) rs1 _ (λ fetched' ef.
            let (j, ej, aj) = ok_of_bind (λ x. add_id x fetched) (item "id" d) ef in
            let h = contains-add_id i d j fetched fetched' ej aj in ground arith)))

  confirm_all-Adds :
      (ds : List Json) (fetched : List String) (rs : List Row)
      → After (Adds ds fetched) (confirm_all w r ds fetched rs)
  unfolding confirm_all lists
  confirm_all-Adds [] fetched rs = refl
  confirm_all-Adds (d ∷ ds) fetched rs =
      and-After (Adds (d ∷ ds) fetched) (confirm_one w r d fetched rs) _ (λ fetched' rs1 e.
        let one = After_ok (Adds (d ∷ []) fetched) _ (confirm_one-Adds d fetched rs) e in
        and_more d ds fetched fetched' one (confirm_all w r ds fetched' rs1)
          (confirm_all-Adds ds fetched' rs1))
    where
      and_more :
          (d : Json) (ds : List Json) (fetched fetched' : List String)
          → contains fetched' i ≡ (lists i (d ∷ []) || contains fetched i)
          → (s : List Row × Result (List String)) → After (Adds ds fetched') s
          → After (Adds (d ∷ ds) fetched) s
      and_more d ds fetched fetched' one (rs, ok f) h = ground arith
      and_more d ds fetched fetched' one (rs, err e) h = tt

  -- The same of a loop that came to the end of the pages.
  abbrev pub Fetches : List Json → List String → Option (List String) → List Row → Type 0
  Fetches ds fetched none rs = Unit
  Fetches ds fetched (some got) rs = Adds ds fetched got rs

  -- The loop's turn on a page that is known.
  page_read :
      (remote : Remote) (fuel off : ℕ) (fetched : List String) (rs : List Row) (p all : List Json)
      (resp : Response)
      → remote r.endpoint (per_page 100 ∷ offset off ∷ []) ≡ ok resp
      → entries_of w resp ≡ ok p
      → After (Fetches all fetched) (
          confirm_all w r p fetched rs and (λ got rs3.
            if ltb (length p) 100
            then (rs3, ok (some got))
            else refresh_pages w remote r fuel (off + 100) got rs3))
      → After (Fetches all fetched) (refresh_pages w remote r (suc fuel) off fetched rs)
  unfolding refresh_pages
  page_read remote fuel off fetched rs p all resp e e' h =
      reading-After (Fetches all fetched) (remote r.endpoint (per_page 100 ∷ offset off ∷ [])) rs _
        (λ resp0 e0. reading-After (Fetches all fetched) (entries_of w resp0) rs _ (λ ds e1.
          let same : p ≡ ds = ok_inj (sym e' ∙ ap (entries_of w) (ok_inj (sym e ∙ e0)) ∙ e1) in
          subst
            (λ x. After (Fetches all fetched) (
              confirm_all w r x fetched rs and (λ got rs3.
                if ltb (length x) 100
                then (rs3, ok (some got))
                else refresh_pages w remote r fuel (off + 100) got rs3)))
            same h))

  pub refresh_pages-Fetches :
      (remote : Remote) (fuel off : ℕ) (fetched : List String) (rs : List Row) (p : List Json)
      (qs : List (List Json))
      → IsPaged w remote r off p qs
      → After (Fetches (listing p qs) fetched) (refresh_pages w remote r fuel off fetched rs)
  unfolding refresh_pages listing
  refresh_pages-Fetches remote zero off fetched rs p qs h = tt
  refresh_pages-Fetches remote (suc fuel) off fetched rs p [] (resp, e, e', short) =
      page_read remote fuel off fetched rs p (listing p []) resp e e' (
        and-After (Fetches p fetched) (confirm_all w r p fetched rs) _ (λ got rs1 e1.
          rw (short) (After_ok (Adds p fetched) _ (confirm_all-Adds p fetched rs) e1)))
  refresh_pages-Fetches remote (suc fuel) off fetched rs p (q ∷ qs) (resp, e, e', long, h) =
      page_read remote fuel off fetched rs p (listing p (q ∷ qs)) resp e e' (
        and-After (Fetches (p ++ listing q qs) fetched) (confirm_all w r p fetched rs) _
          (λ got rs1 e1. rw (long) (
            and_rest p (listing q qs) fetched got
              (After_ok (Adds p fetched) _ (confirm_all-Adds p fetched rs) e1)
              (refresh_pages w remote r fuel (off + 100) got rs1)
              (refresh_pages-Fetches remote fuel (off + 100) got rs1 q qs h))))
    where
      and_rest :
          (ds es : List Json) (fetched got : List String)
          → contains got i ≡ (lists i ds || contains fetched i)
          → (s : List Row × Result (Option (List String))) → After (Fetches es got) s
          → After (Fetches (ds ++ es) fetched) s
      and_rest ds es fetched got one (rs, ok none) h = tt
      and_rest ds es fetched got one (rs, ok (some f)) h =
          let both = lists-append i ds es in ground arith
      and_rest ds es fetched got one (rs, err e) h = tt

  -- The burial keeps what is known of the ids.
  pub replace-Fetches :
      (ds : List Json) (fetched : List String) (got : Option (List String)) (rs : List Row)
      → Fetches ds fetched got rs
      → After (Fetches ds fetched) (replace w r got rs)
  unfolding replace
  replace-Fetches ds fetched none rs h = tt
  replace-Fetches ds fetched (some f) rs h =
      and-After (Fetches ds fetched) (bury_where w r.table "absent" (λ raw. true) (contains f) rs) _
        (λ u rs' e. h)
