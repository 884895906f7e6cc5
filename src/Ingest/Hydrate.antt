-- ===== src/Ingest/Hydrate.antt =====
-- ingest.py: `hydrate`, `drain_hydration` and `_restore_one`.
use pcomirror.Store.{from_reconcile}
use Prim.Native.String.{◌++◌}
use pcomirror.Prelude.{
  ℕ, zero, suc, String, Bool, true, false, not, none, some, List, [], ◌∷◌, ◌==◌, ◌&&◌,
  if◌then◌else◌, text_lt,
}
use pcomirror.Result.{Result, ok, err, ◌>>=◌}
use pcomirror.Json.{Json, null, str, obj, arr, nil, field, end, get, truthy, or_arr, iterate}
use pcomirror.Registry.{Resource}
use pcomirror.Store.{Row}
use pcomirror.Client.Request.{Response, is_ok}
use pcomirror.Webhooks.State.{World, Task, Db, Run}
use pcomirror.Webhooks.Inbox.{◌and_then◌}
use pcomirror.Writer.Tombstone.{tombstone}
use pcomirror.Writer.Upsert.{confirm_live}
use pcomirror.Writer.Route.{route, route_page}
use pcomirror.Ingest.Remote.{
  Remote, Param, including, body_of, is_absent, Step, ◌and◌, reading, writing,
}
use pcomirror.Ingest.Walk.{declared, in_db}
use pcomirror.Ingest.Diff.{include_diff}

-- `",".join(names)`
unfoldable pub commas : List String → String
commas [] = ""
commas (n ∷ []) = n
commas (n ∷ (m ∷ ns)) = n ++ ("," ++ commas (m ∷ ns))

-- `{"include": inc} if inc else None`
unfoldable pub include_param : List String → List Param
unfolding commas
include_param names = let inc = commas names in if inc == "" then [] else including inc ∷ []

abbrev pub owner_hint : Resource → String → Json
owner_hint r i = obj (field "type" (str r.kind) (field "id" (str i) end))

-- `for i in …: self.writer.route(i, "reconcile", owner_hint=…)`
unfoldable pub route_each : World → Json → List Json → List Row → Step (Unit {0})
route_each w hint [] rs = (rs, ok tt)
route_each w hint (j ∷ js) rs =
    writing (route w.env from_reconcile (some hint) [] j rs) rs
    and (λ u rs'. route_each w hint js rs')

-- The record itself: a person's may be a partial copy, any other is authoritative.
unfoldable pub store_fetched : World → Resource → String → Json → List Row → Result (List Row)
store_fetched w r i o rs =
    if r.name == "person"
    then route w.env from_reconcile none [] o rs
    else confirm_live w.env r.table i o from_reconcile rs

unfoldable pub apply_fetched :
    World → Resource → String → List String → Json → Json → List Row → Step (Unit {0})
unfolding store_fetched route_each include_diff
apply_fetched w r i names o included rs =
    writing (store_fetched w r i o rs) rs
    and (λ u rs1. reading (iterate (or_arr included)) rs1)
    and (λ js rs2. route_each w (owner_hint r i) js rs2)
    and (λ u rs3. if r.name == "person" then include_diff w o included names rs3 else (rs3, ok tt))

-- The body's `data` and `included`.
unfoldable pub fetched_of : World → Response → Result (Json × Json)
unfolding body_of
fetched_of w resp = do
  body ← body_of w resp
  o ← get "data" body
  included ← get "included" body
  ok (o, included)

unfoldable pub after_fetch :
    World → Resource → String → List String → Response → List Row → Step (Unit {0})
unfolding apply_fetched fetched_of
after_fetch w r i names resp rs =
    if is_absent resp
    then writing (tombstone w.env r.table i null "audit_absent" none rs) rs
    else if not (is_ok resp)
    then (rs, ok tt)
    else reading (fetched_of w resp) rs and (λ got rs1.
      if truthy got.0 then apply_fetched w r i names got.0 got.1 rs1 else (rs1, ok tt))

-- `hydrate`, for a resource of the registry and the includes to ask for.
unfoldable pub hydrate :
    World → Remote → Resource → String → List String → List Row → Step (Unit {0})
unfolding include_param after_fetch
hydrate w remote r i names rs =
    reading (remote (r.endpoint ++ ("/" ++ i)) (include_param names)) rs
    and (λ resp rs1. after_fetch w r i names resp rs1)

-- SELECT … WHERE not_before <= now
abbrev pub is_ready : String → Task → Bool
is_ready now t = not (text_lt now t.not_before)

-- … ORDER BY not_before: `t` before the first later one.
unfoldable pub insert_task : Task → List Task → List Task
insert_task t [] = t ∷ []
insert_task t (u ∷ us) =
    if text_lt u.not_before t.not_before then u ∷ insert_task t us else t ∷ u ∷ us

unfoldable pub ready_tasks : String → List Task → List Task
unfolding insert_task
ready_tasks now [] = []
ready_tasks now (t ∷ ts) =
    let rest = ready_tasks now ts in if is_ready now t then insert_task t rest else rest

-- LIMIT n
unfoldable pub first_tasks : ℕ → List Task → List Task
first_tasks zero ts = []
first_tasks (suc n) [] = []
first_tasks (suc n) (t ∷ ts) = t ∷ first_tasks n ts

abbrev pub same_task : Task → Task → Bool
same_task t u = u.resource_type == t.resource_type && u.pco_id == t.pco_id

-- DELETE FROM hydration_task WHERE resource_type = … AND pco_id = …
unfoldable pub delete_task : Task → List Task → List Task
delete_task t [] = []
delete_task t (u ∷ us) = if same_task t u then delete_task t us else u ∷ delete_task t us

unfoldable pub hydrate_task : World → Remote → Task → Db → Run (Unit {0})
unfolding hydrate
hydrate_task w remote t db = elim (declared t.resource_type) [
  | err e ↦ (db, err e)
  | ok r ↦ in_db db (λ rs. hydrate w remote r t.pco_id t.includes rs)
]

-- The loop of `drain_hydration`: an exception leaves the task and those after it.
unfoldable pub drain_tasks : World → Remote → List Task → Db → Run (Unit {0})
unfolding hydrate_task delete_task
drain_tasks w remote [] db = (db, ok tt)
drain_tasks w remote (t ∷ ts) db =
    hydrate_task w remote t db
    and_then (λ db'. drain_tasks w remote ts (record db' { tasks = delete_task t db'.tasks }))

unfoldable pub drain_hydration : World → Remote → ℕ → Db → Run (Unit {0})
unfolding ready_tasks first_tasks drain_tasks
drain_hydration w remote limit db =
    drain_tasks w remote (first_tasks limit (ready_tasks w.env.now db.tasks)) db

-- `_restore_one`: the children by the router, and the record itself as live.
abbrev pub restored_page : Json → Json
restored_page included = obj (field "data" (arr nil) (field "included" (or_arr included) end))

unfoldable pub store_restored : World → Resource → String → Json → Json → List Row → Step Bool
store_restored w r i o included rs =
    route_page w.env from_reconcile [] none (restored_page included) rs
    and (λ n rs1. writing (confirm_live w.env r.table i o from_reconcile rs1) rs1)
    and (λ u rs2. (rs2, ok true))

-- The writer commits each of its statements, so that `with self.db.transaction()` has nothing left to
-- take back when an exception leaves it.
unfoldable pub restore_one : World → Remote → Resource → String → List Row → Step Bool
unfolding store_restored
restore_one w remote r i rs =
    reading (remote (r.endpoint ++ ("/" ++ i)) (include_param r.includes)) rs and (λ resp rs1.
      if not (is_ok resp)
      then (rs1, ok false)
      else reading (fetched_of w resp) rs1 and (λ got rs2.
        if truthy got.0 then store_restored w r i got.0 got.1 rs2 else (rs2, ok false)))
