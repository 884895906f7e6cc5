-- ===== src/Writer/Route.antt =====
-- writer.py: the sideload router, `route` and `route_page`.
use pcomirror.Store.{SyncSource}
use Prim.Native.Nat.{◌+◌}
use pcomirror.Prelude.{
  String, ℕ, Bool, true, false, Option, none, some, List, [], ◌∷◌, ◌==◌, ◌&&◌, not, if◌then◌else◌,
  contains,
}
use pcomirror.Result.{Result, ok, err, type_error, attribute_error, ◌>>=◌}
use pcomirror.Json.{
  Json, str, arr, obj, Fields, end, field, get, item, truthy, or_obj, or_arr, iterate, lookup_field,
  has_field, set_field, bind_text, items,
}
use pcomirror.Registry.{Resource, by_type}
use pcomirror.Registry.Types.{Rel}
use pcomirror.Store.{Row}
use pcomirror.Writer.Ops.{Env}
use pcomirror.Writer.Upsert.{upsert, upsert_untimed}

-- `_BY_TYPE.get(resource.get("type", ""))`: an array or an object is no dict key.
unfoldable pub resource_of : Json → Result (Option Resource)
resource_of (str s) = ok (by_type s)
resource_of (arr js) = err type_error
resource_of (obj fs) = err type_error
resource_of _ = ok none

-- `rels[owner_rel] = {"data": owner_hint}`, unless one is there already.
link_hint : String → Json → Fields → Fields → Result Json
link_hint rel hint gs fs =
    let linked =
      obj (set_field "relationships" (obj (set_field rel (obj (field "data" hint end)) gs)) fs) in
    if has_field rel gs
    then (do held ← get "data" (lookup_field rel gs); ok (if truthy held then obj fs else linked))
    else ok linked

-- `rels = resource.setdefault("relationships", {})`
own : String → Json → Json → Result Json
unfolding link_hint
own rel hint (obj fs) =
    elim (if has_field "relationships" fs then lookup_field "relationships" fs else obj end) [
      | obj gs ↦ link_hint rel hint gs fs
      | _ ↦ err type_error
    ]
own rel hint _ = err attribute_error

-- An owned child gets its back-reference where the caller knows the owner.
unfoldable pub add_owner : Option String → Option Json → Json → Result Json
unfolding own
add_owner none hint j = ok j
add_owner (some rel) none j = ok j
add_owner (some rel) (some hint) j = own rel hint j

-- Is `n` one of the relationships that the registry declares?
abbrev pub declares : List (String × Rel) → String → Bool
declares [] n = false
declares ((k, r) ∷ rs) n = if k == n then true else declares rs n

-- `n in synthesized and n not in r.relationships`
abbrev pub is_artefact : Resource → List String → String → Bool
is_artefact r synthesized n = contains synthesized n && not (declares r.relationships n)

abbrev pub drop_artefacts : Resource → List String → Fields → Fields
drop_artefacts r synthesized end = end
drop_artefacts r synthesized (field k v fs) =
    if is_artefact r synthesized k
    then drop_artefacts r synthesized fs
    else field k v (drop_artefacts r synthesized fs)

-- What is stored: a copy of the resource without the relationships that the request made up.
unfoldable pub stored : Resource → List String → Json → Json
stored r synthesized (obj fs) = elim (lookup_field "relationships" fs) [
  | obj gs ↦ obj (set_field "relationships" (obj (drop_artefacts r synthesized gs)) fs)
  | _ ↦ obj fs
]
stored r synthesized j = j

-- `(resource.get("attributes") or {}).get("updated_at")` is there.
unfoldable pub has_updated_at : Json → Result Bool
has_updated_at j = do
  attrs ← get "attributes" j
  at ← get "updated_at" (or_obj attrs)
  ok (truthy at)

unfoldable pub write : Env → SyncSource → Resource → Json → List Row → Result (List Row)
write env source r j rs = do
  key ← item "id" j
  i ← bind_text key
  if r.timestamped
      then upsert env r.table i j source rs
      else upsert_untimed env r.table i j source rs

-- `r.timestamped and not (resource.get("attributes") or {}).get("updated_at")`
unfoldable pub is_partial : Resource → Json → Result Bool
unfolding has_updated_at
is_partial r j = if r.timestamped then (do dated ← has_updated_at j; ok (not dated)) else ok false

unfoldable pub route_known :
    Env → SyncSource → Option Json → List String → Resource → Json → List Row → Result (List Row)
unfolding is_partial write add_owner stored
route_known env source hint synthesized r j rs = do
  partial ← is_partial r j
  if partial then ok rs else (do
    owned ← add_owner r.owner_rel hint j
    write env source r (stored r synthesized owned) rs)

unfoldable pub route :
    Env → SyncSource → Option Json → List String → Json → List Row → Result (List Row)
unfolding resource_of route_known
route env source hint synthesized j rs = do
  ty ← get "type" j
  found ← resource_of ty
  elim found [ none ↦ ok rs | some r ↦ route_known env source hint synthesized r j rs ]

-- A page leaves the tables as they are where it stops, also if it stops at an exception.
abbrev pub Page : Type 0
Page = List Row × Result ℕ

-- `for item in …: if item: self.route(…); n += 1`; without `only_true`, the loop over `included`.
unfoldable pub route_all :
    Env → SyncSource → Option Json → List String → Bool → List Json → ℕ → List Row → Page
route_all env source hint synthesized only_true [] n rs = (rs, ok n)
route_all env source hint synthesized only_true (j ∷ js) n rs =
    let skip = route_all env source hint synthesized only_true js n rs in
    let go = λ (rs' : List Row). route_all env source hint synthesized only_true js (n + 1) rs' in
    if only_true && not (truthy j)
    then skip
    else elim (route env source hint synthesized j rs) [ ok rs' ↦ go rs' | err e ↦ (rs, err e) ]

-- `body.get("data", []) if isinstance(body.get("data"), list) else [body.get("data")]`
unfoldable pub primary : Json → List Json
primary (arr js) = items js
primary j = j ∷ []

unfoldable pub route_included : Env → SyncSource → List String → Json → List Row → Page
unfolding route_all
route_included env source synthesized included rs = elim (iterate (or_arr included)) [
  | ok js ↦ route_all env source none synthesized false js 0 rs
  | err e ↦ (rs, err e)
]

-- `included[]` is applied first, so that the primary representation lands last.
unfoldable pub route_page : Env → SyncSource → List String → Option Json → Json → List Row → Page
unfolding route_included primary
route_page env source synthesized hint (obj fs) rs =
    let (rs', done) = route_included env source synthesized (lookup_field "included" fs) rs in
    elim done [
      | ok n ↦ route_all env source hint synthesized true (primary (lookup_field "data" fs)) 0 rs'
      | err e ↦ (rs', err e)
    ]
route_page env source synthesized hint j rs = (rs, err attribute_error)
