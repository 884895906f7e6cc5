-- ===== src/Ingest/Queue.antt =====
-- ingest.py: `enqueue_hydration` with its delay, and the hydration queue as a map from records to
-- their one task.
use pcomirror.Prelude.{
  text_lt, leb, length, Option-cases, inl, inr, ℕ, String, ◌≡◌, refl, Bool, Option, none, some,
  List, [], ◌∷◌, ◌==◌, ◌&&◌, if◌then◌else◌, arith, eq_iff, ap, ◌∙◌,
}
use mathlib.Core.Path.{fun_ext}
use pcomirror.Result.{ok, err}
use pcomirror.Registry.{Resource, by_name}
use pcomirror.Webhooks.State.{World, Task, Db, Run}
use pcomirror.Webhooks.Hydration.{put_task, earlier}
use pcomirror.Ingest.Walk.{declared}
use pcomirror.Ingest.Hydrate.{delete_task}

-- `includes or list(r.includes)`
unfoldable pub includes_or : Resource → List String → List String
includes_or r [] = r.includes
includes_or r (i ∷ is) = i ∷ is

-- The task is held back for `delay` seconds.
unfoldable pub enqueue : World → String → String → String → List String → ℕ → Db → Run (Unit {0})
unfolding declared includes_or
enqueue w name i reason includes delay db = elim (declared name) [
  | err e ↦ (db, err e)
  | ok r ↦ (
    record db {
      tasks =
          put_task
            (record {
              resource_type = name;
              pco_id = i;
              includes = includes_or r includes;
              reason = reason;
              not_before = w.later delay;
            })
            db.tasks;
    },
    ok tt,
  )
]

-- What is done to the queue: a record is asked for, which `enqueue_hydration` does, or a task that
-- was hydrated is taken out, which `drain_hydration` does.
pub data Change : Type 0 where
  asks : World → (name i reason : String) → (includes : List String) → (delay : ℕ) → Change
  takes : Task → Change

unfoldable pub changed : List Change → Db → Db
unfolding enqueue
changed [] db = db
changed (asks w name i reason includes delay ∷ cs) db =
    changed cs (enqueue w name i reason includes delay db).0
changed (takes t ∷ cs) db = changed cs (record db { tasks = delete_task t db.tasks })

abbrev pub is_for : String → String → Task → Bool
is_for name i t = t.resource_type == name && t.pco_id == i

unfoldable pub task_for : String → String → List Task → Option Task
task_for name i [] = none
task_for name i (t ∷ ts) = if is_for name i t then some t else task_for name i ts

-- The queue as it is meant: each record has a task or has none.
abbrev pub Plan : Type 0
Plan = String → String → Option Task

-- A second request for a record keeps the first one's includes, and the time that comes first.
abbrev pub joined : Task → Option Task → Task
joined new none = new
joined new (some t) = record t {
  reason = new.reason;
  not_before = if text_lt new.not_before t.not_before then new.not_before else t.not_before;
}

-- The plan with one more task.
abbrev pub with_task : Task → Plan → Plan
with_task t plan name i = if is_for name i t then some (joined t (plan name i)) else plan name i

-- The task of a request: all the includes of the resource, if it names none.
abbrev pub asked : World → Resource → String → String → String → List String → ℕ → Task
asked w r name i reason includes delay = record {
  resource_type = name;
  pco_id = i;
  includes = if leb (length includes) 0 then r.includes else includes;
  reason = reason;
  not_before = w.later delay;
}

-- A request for a resource that the registry does not know is refused.
abbrev pub planned : List Change → Plan → Plan
planned [] plan = plan
planned (asks w name i reason includes delay ∷ cs) plan = planned cs (elim (by_name name) [
  | none ↦ plan
  | some r ↦ with_task (asked w r name i reason includes delay) plan
])
planned (takes t ∷ cs) plan = planned cs (λ name i. if is_for name i t then none else plan name i)

task_for-put_task :
    (name i : String) (new : Task) (ts : List Task)
    → task_for name i (put_task new ts) ≡ with_task new (λ n j. task_for n j ts) name i
unfolding task_for put_task earlier
task_for-put_task name i new [] = refl
task_for-put_task name i new (t ∷ ts) = ground (
  arith,
  eq_iff t.resource_type new.resource_type,
  eq_iff t.pco_id new.pco_id,
  eq_iff t.resource_type name,
  eq_iff t.pco_id i,
  eq_iff new.resource_type name,
  eq_iff new.pco_id i,
  task_for-put_task name i new ts,
)

task_for-delete_task :
    (name i : String) (gone : Task) (ts : List Task)
    → task_for name i (delete_task gone ts)
      ≡ (if is_for name i gone then none else task_for name i ts)
unfolding task_for delete_task
task_for-delete_task name i gone [] = ground arith
task_for-delete_task name i gone (t ∷ ts) = ground (
  arith,
  eq_iff t.resource_type gone.resource_type,
  eq_iff t.pco_id gone.pco_id,
  eq_iff t.resource_type name,
  eq_iff t.pco_id i,
  eq_iff gone.resource_type name,
  eq_iff gone.pco_id i,
  task_for-delete_task name i gone ts,
)

all_or_named :
    (r : Resource) (includes : List String)
    → includes_or r includes ≡ (if leb (length includes) 0 then r.includes else includes)
unfolding includes_or
all_or_named r [] = refl
all_or_named r (i ∷ is) = ground arith

enqueued :
    (w : World) (name i reason : String) (includes : List String) (delay : ℕ) (db : Db)
    (n j : String)
    → task_for n j (enqueue w name i reason includes delay db).0.tasks
      ≡ (elim (by_name name) as (λ _. Plan) [
        | none ↦ λ a b. task_for a b db.tasks
        | some r ↦ with_task (asked w r name i reason includes delay) (λ a b. task_for a b db.tasks)
      ])
          n j
unfolding enqueue declared includes_or
enqueued w name i reason includes delay db n j = elim (Option-cases (by_name name)) [
  | inl e ↦ rw (e, enqueue, declared) refl
  | inr (r, e) ↦
      rw (e, enqueue, declared)
        (ap
            (λ x. task_for n j (
              put_task
                (record {
                  resource_type = name;
                  pco_id = i;
                  includes = x;
                  reason = reason;
                  not_before = w.later delay;
                })
                db.tasks))
            (all_or_named r includes)
          ∙ task_for-put_task n j (asked w r name i reason includes delay) db.tasks)
]

-- The queue is the plan: after any requests and any tasks that were hydrated, each record has the
-- task that the plan has for it. A request for a record that has a task only renews its reason and
-- draws its time forward, and one for an unknown resource does nothing.
pub changed-planned :
    (cs : List Change) (db : Db) (name i : String)
    → task_for name i (changed cs db).tasks ≡ planned cs (λ n j. task_for n j db.tasks) name i
unfolding changed
changed-planned [] db name i = refl
changed-planned (asks w n j reason includes delay ∷ cs) db name i =
    changed-planned cs (enqueue w n j reason includes delay db).0 name i
    ∙ ap (λ plan. planned cs plan name i)
        (fun_ext (λ a. fun_ext (λ b. enqueued w n j reason includes delay db a b)))
changed-planned (takes t ∷ cs) db name i =
    changed-planned cs (record db { tasks = delete_task t db.tasks }) name i
    ∙ ap (λ plan. planned cs plan name i)
        (fun_ext (λ n. fun_ext (λ j. task_for-delete_task n j t db.tasks)))
