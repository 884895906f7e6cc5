-- ===== src/Writer/Routing.antt =====
-- writer.py: what holds of every page that is routed.
use pcomirror.Store.{SyncSource}
use mathlib.Core.Path.{subst}
use pcomirror.Prelude.{
  String, ◌≡◌, Bool, true, false, Option, none, some, List, [], ◌∷◌, ◌&&◌, not, if◌then◌else◌, ℕ,
  ◌+◌, Bool-cases, inl, inr,
}
use pcomirror.Result.{Result, ok, ◌>>=◌, ok_of_bind, Result-cases}
use pcomirror.Json.{Json, null, obj, get, item, bind_text, truthy, iterate, or_arr, lookup_field}
use pcomirror.Registry.{Resource}
use pcomirror.Store.{Row}
use pcomirror.Writer.Ops.{Env}
use pcomirror.Writer.Upsert.{upsert, upsert_untimed}
use pcomirror.Writer.Route.{
  route, route_known, route_all, route_page, route_included, resource_of, is_partial, add_owner,
  stored, write, primary,
}

-- An operation that keeps `P` where it goes through.
abbrev pub Keeps : (List Row → Type 0) → (List Row → Result (List Row)) → Type 0
Keeps P op = (rs rs' : List Row) → P rs → op rs ≡ ok rs' → P rs'

pub ok_injective : (rs rs' : List Row) → ok rs ≡ ok rs' → rs ≡ rs'
ok_injective rs rs' e = cc

module _ (P : List Row → Type 0)
    (upserts : (env : Env) (t i : String) (raw : Json) (source : SyncSource)
      → Keeps P (upsert env t i raw source))
    (untimed : (env : Env) (t i : String) (raw : Json) (source : SyncSource)
      → Keeps P (upsert_untimed env t i raw source)) where
  write-Keeps :
      (env : Env) (source : SyncSource) (r : Resource) (j : Json) → Keeps P (write env source r j)
  unfolding write
  write-Keeps env source r j rs rs' p e =
      let (key, _, rest) = ok_of_bind _ (item "id" j) e in
      let (i, _, rest2) = ok_of_bind _ (bind_text key) rest in by_kind r.timestamped i rest2
    where
      by_kind :
          (b : Bool) (i : String)
          → (if b
              then upsert env r.table i j source rs
              else upsert_untimed env r.table i j source rs)
            ≡ ok rs'
          → P rs'
      by_kind true i h = upserts env r.table i j source rs rs' p h
      by_kind false i h = untimed env r.table i j source rs rs' p h

  route_known-Keeps :
      (env : Env) (source : SyncSource) (hint : Option Json) (synthesized : List String)
      (r : Resource) (j : Json)
      → Keeps P (route_known env source hint synthesized r j)
  unfolding route_known
  route_known-Keeps env source hint synthesized r j rs rs' p e =
      let (partial, _, rest) = ok_of_bind _ (is_partial r j) e in skip_partial partial rest
    where
      skip_partial :
          (b : Bool)
          → (if b
              then ok rs
              else (add_owner r.owner_rel hint j >>= λ owned.
                  write env source r (stored r synthesized owned) rs))
            ≡ ok rs'
          → P rs'
      skip_partial true h = subst P (ok_injective rs rs' h) p
      skip_partial false h =
          let (owned, _, rest2) = ok_of_bind _ (add_owner r.owner_rel hint j) h in
          write-Keeps env source r (stored r synthesized owned) rs rs' p rest2

  pub route-Keeps :
      (env : Env) (source : SyncSource) (hint : Option Json) (synthesized : List String) (j : Json)
      → Keeps P (route env source hint synthesized j)
  unfolding route
  route-Keeps env source hint synthesized j rs rs' p e =
      let (ty, _, rest) = ok_of_bind _ (get "type" j) e in
      let (found, _, rest2) = ok_of_bind _ (resource_of ty) rest in known found rest2
    where
      known :
          (o : Option Resource)
          → elim o as (λ _. Result (List Row)) [
            | none ↦ ok rs
            | some r ↦ route_known env source hint synthesized r j rs
          ]
            ≡ ok rs'
          → P rs'
      known none h = subst P (ok_injective rs rs' h) p
      known (some r) h = route_known-Keeps env source hint synthesized r j rs rs' p h

  route_all-Keeps :
      (env : Env) (source : SyncSource) (hint : Option Json) (synthesized : List String)
      (only_true : Bool) (js : List Json) (n : ℕ) (rs : List Row)
      → P rs
      → P (route_all env source hint synthesized only_true js n rs).0
  unfolding route_all
  route_all-Keeps env source hint synthesized only_true [] n rs p = p
  route_all-Keeps env source hint synthesized only_true (j ∷ js) n rs p =
      elim (Bool-cases (only_true && not (truthy j))) [
        | inl skipped ↦ rw skipped (route_all-Keeps env source hint synthesized only_true js n rs p)
        | inr taken ↦ elim (Result-cases (route env source hint synthesized j rs)) [
          | inl (rs', e) ↦
              rw (taken, e)
                (route_all-Keeps env source hint synthesized only_true js (n + 1) rs'
                  (route-Keeps env source hint synthesized j rs rs' p e))
          | inr (x, e) ↦ rw (taken, e) p
        ]
      ]

  route_included-Keeps :
      (env : Env) (source : SyncSource) (synthesized : List String) (included : Json)
      (rs : List Row)
      → P rs
      → P (route_included env source synthesized included rs).0
  unfolding route_included
  route_included-Keeps env source synthesized included rs p =
      elim (Result-cases (iterate (or_arr included))) [
        | inl (js, e) ↦
            rw (e, route_included) (route_all-Keeps env source none synthesized false js 0 rs p)
        | inr (x, e) ↦ rw (e, route_included) p
      ]

  -- What `upsert` and `upsert_untimed` keep, a page keeps, also one that stops at an exception.
  pub route_page-Keeps :
      (env : Env) (source : SyncSource) (synthesized : List String) (hint : Option Json)
      (body : Json) (rs : List Row)
      → P rs
      → P (route_page env source synthesized hint body rs).0
  unfolding route_page
  route_page-Keeps env source synthesized hint (obj fs) rs p =
      let p' = route_included-Keeps env source synthesized (lookup_field "included" fs) rs p in
      elim (Result-cases
        (route_included env source synthesized (lookup_field "included" fs) rs).1) [
          | inl (n, e) ↦
              rw (e, route_page)
                (route_all-Keeps env source hint synthesized true (primary (lookup_field "data" fs))
                  0 _ p')
          | inr (x, e) ↦ rw (e, route_page) p'
        ]
  route_page-Keeps env source synthesized hint null rs p = p
  route_page-Keeps env source synthesized hint j rs p = p
