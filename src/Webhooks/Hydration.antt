-- ===== src/Webhooks/Hydration.antt =====
-- ingest.py: the hydration queue. webhooks.py: when it is used, and the walks that a refresh forgets.
use Prim.Native.Nat.{◌+◌}
use pcomirror.Prelude.{
  ℕ, ℕ, String, Bool, false, Option, none, some, List, [], ◌∷◌, ◌==◌, ◌&&◌, if◌then◌else◌, is_text,
  leb, text_lt,
}
use pcomirror.Result.{Result, ok, err}
use pcomirror.Json.{Json, bind_text}
use pcomirror.Registry.{Resource, by_name}
use pcomirror.Registry.Types.{nested_walk}
use pcomirror.Store.{Row}
use pcomirror.Webhooks.State.{World, Task, Db, Run, set_key, bind}

-- The earlier of two times, as SQL's `min(a, b)`.
unfoldable pub earlier : String → String → String
earlier a b = if text_lt b a then b else a

-- INSERT … ON CONFLICT(resource_type,pco_id) DO UPDATE SET …
unfoldable pub put_task : Task → List Task → List Task
unfolding earlier
put_task new [] = new ∷ []
put_task new (t ∷ ts) =
    if t.resource_type == new.resource_type && t.pco_id == new.pco_id
    then record t { reason = new.reason; not_before = earlier t.not_before new.not_before } ∷ ts
    else t ∷ put_task new ts

unfoldable pub includes_of : Option Resource → List String
includes_of none = []
includes_of (some r) = r.includes

-- `enqueue_hydration` without a delay, for a resource of the registry.
unfoldable pub enqueue_hydration : World → String → Json → String → Db → Run (Unit {0})
unfolding includes_of
enqueue_hydration w name key reason db = elim (bind_text key) [
  | err e ↦ (db, err e)
  | ok i ↦ (
    record db {
      tasks =
          put_task
            (record {
              resource_type = name;
              pco_id = i;
              includes = includes_of (by_name name);
              reason = reason;
              not_before = w.env.now;
            })
            db.tasks;
    },
    ok tt,
  )
]

-- SELECT count(*) FROM hydration_task WHERE resource_type = name
unfoldable pub count_tasks : String → List Task → ℕ
count_tasks name [] = 0
count_tasks name (t ∷ ts) =
    let n = count_tasks name ts in if t.resource_type == name then n + 1 else n

abbrev pub burst_threshold : ℕ
burst_threshold = 200

unfoldable pub enqueue_or_defer : World → String → Json → Db → Run (Unit {0})
enqueue_or_defer w name key db =
    if leb burst_threshold (count_tasks name db.tasks)
    then (record db { next_run = set_key name w.env.now db.next_run }, ok tt)
    else enqueue_hydration w name key "thin_webhook" db

-- DELETE FROM nested_walk_state WHERE resource_type = c AND parent_pco_id = k
unfoldable pub forget_walk :
    String → Option String → List (String × String) → List (String × String)
forget_walk c k [] = []
forget_walk c k ((d, p) ∷ ws) =
    if d == c && is_text k p then forget_walk c k ws else (d, p) ∷ forget_walk c k ws

unfoldable pub is_walked_under : String → Resource → Bool
is_walked_under parent c = elim c.method [ nested_walk ↦ is_text c.parent parent | _ ↦ false ]

-- `_forget_child_walks`
unfoldable pub forget_child_walks : List Resource → String → Json → Db → Run (Unit {0})
unfolding forget_walk is_walked_under
forget_child_walks [] parent key db = (db, ok tt)
forget_child_walks (c ∷ cs) parent key db =
    let next = λ (db' : Db). forget_child_walks cs parent key db' in
    if is_walked_under parent c
    then elim (bind key) [
      | err e ↦ (db, err e)
      | ok k ↦ next (record db { walks = forget_walk c.name k db.walks })
    ]
    else next db

-- The tables of the mirror, and the rest of the database as it was.
abbrev pub in_rows : Db → Result (List Row) → Run (Unit {0})
in_rows db (ok rs) = (record db { rows = rs }, ok tt)
in_rows db (err e) = (db, err e)
