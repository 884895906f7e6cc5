-- ===== src/Ingest/Drained.antt =====
-- ingest.py: what is left in the hydration queue after it was drained.
use mathlib.Core.Path.{subst}
use pcomirror.Prelude.{
  ℕ, ◌≡◌, refl, Bool, true, false, List, [], ◌∷◌, ◌&&◌, not, if◌then◌else◌, arith, All,
  Option-cases, inl, inr, ap, sym, ◌∙◌,
}
use pcomirror.Result.{ok, err}
use pcomirror.Registry.{by_name}
use pcomirror.Webhooks.State.{World, Task, Db, Run}
use pcomirror.Webhooks.Inbox.{◌and_then◌}
use pcomirror.Ingest.Remote.{Remote}
use pcomirror.Ingest.Walk.{declared, in_db}
use pcomirror.Ingest.Hydrate.{
  drain_tasks, hydrate_task, delete_task, same_task, drain_hydration, first_tasks, ready_tasks,
}
use pcomirror.Ingest.Buried.{All-map}

-- What holds of the database where a statement went through.
abbrev pub AfterDb : (Db → Type 0) → Run (Unit {0}) → Type 0
AfterDb P (db, ok u) = P db
AfterDb P (db, err e) = Unit

and_then-AfterDb :
    (P : Db → Type 0) (m : Run (Unit {0})) (f : Db → Run (Unit {0}))
    → ((db : Db) → m ≡ (db, ok tt) → AfterDb P (f db))
    → AfterDb P (m and_then f)
and_then-AfterDb P (db, ok u) f h = h db refl
and_then-AfterDb P (db, err e) f h = tt

tasks_of-hydrate_task :
    (w : World) (remote : Remote) (t : Task) (db : Db)
    → (hydrate_task w remote t db).0.tasks ≡ db.tasks
unfolding hydrate_task in_db declared
tasks_of-hydrate_task w remote t db = elim (Option-cases (by_name t.resource_type)) [
  | inl e ↦ rw (e, hydrate_task, declared) refl
  | inr (r, e) ↦ rw (e, hydrate_task, declared) refl
]

-- The task is none of these.
abbrev pub is_none_of : List Task → Task → Bool
is_none_of [] u = true
is_none_of (t ∷ ts) u = not (same_task t u) && is_none_of ts u

delete_task-All :
    (P : Task → Type 0) (t : Task) (us : List Task) → All P us → All P (delete_task t us)
unfolding delete_task
delete_task-All P t [] h = tt
delete_task-All P t (u ∷ us) h =
    both_ways (same_task t u) _ _ (delete_task-All P t us h.1) (h.0, delete_task-All P t us h.1)
  where
    both_ways : (b : Bool) (xs ys : List Task) → All P xs → All P ys → All P (if b then xs else ys)
    both_ways true xs ys p q = p
    both_ways false xs ys p q = q

delete_task-others :
    (t : Task) (us : List Task) → All (λ u. same_task t u ≡ false) (delete_task t us)
unfolding delete_task
delete_task-others t [] = tt
delete_task-others t (u ∷ us) = by_case (same_task t u) refl (delete_task-others t us)
  where
    by_case :
        (b : Bool)
        → same_task t u ≡ b
        → All (λ v. same_task t v ≡ false) (delete_task t us)
        → All (λ v. same_task t v ≡ false) (if b then delete_task t us else u ∷ delete_task t us)
    by_case true e h = h
    by_case false e h = (e, h)

module _ (w : World) (remote : Remote) where
  drain_tasks-All :
      (P : Task → Type 0) (ts : List Task) (db : Db)
      → All P db.tasks
      → AfterDb (λ db'. All P db'.tasks) (drain_tasks w remote ts db)
  unfolding drain_tasks
  drain_tasks-All P [] db h = h
  drain_tasks-All P (t ∷ ts) db h =
      and_then-AfterDb (λ db'. All P db'.tasks) (hydrate_task w remote t db) _
        (λ db1 e.
          let same : db1.tasks ≡ db.tasks =
            sym (ap (λ q. q.0.tasks) e) ∙ tasks_of-hydrate_task w remote t db in
          drain_tasks-All P ts (record db1 { tasks = delete_task t db1.tasks })
            (delete_task-All P t db1.tasks (subst (All P) (sym same) h)))

  both_All : (P Q : Task → Type 0) (us : List Task) → All P us → All Q us → All (λ u. P u × Q u) us
  both_All P Q [] p q = tt
  both_All P Q (u ∷ us) p q = ((p.0, q.0), both_All P Q us p.1 q.1)

  both_AfterDb :
      (P Q R : Db → Type 0) (m : Run (Unit {0}))
      → ((db : Db) → P db → Q db → R db)
      → AfterDb P m
      → AfterDb Q m
      → AfterDb R m
  both_AfterDb P Q R (db, ok u) h p q = h db p q
  both_AfterDb P Q R (db, err e) h p q = tt

  drain_tasks-drained :
      (ts : List Task) (db : Db)
      → AfterDb (λ db'. All (λ u. is_none_of ts u ≡ true) db'.tasks) (drain_tasks w remote ts db)
  unfolding drain_tasks
  drain_tasks-drained [] db = all_refl db.tasks
    where
      all_refl : (us : List Task) → All (λ u. true ≡ true) us
      all_refl [] = tt
      all_refl (u ∷ us) = (refl, all_refl us)
  drain_tasks-drained (t ∷ ts) db =
      and_then-AfterDb (λ db'. All (λ u. is_none_of (t ∷ ts) u ≡ true) db'.tasks)
        (hydrate_task w remote t db) _
        (λ db1 e.
          let db2 = record db1 { tasks = delete_task t db1.tasks } in
          both_AfterDb (λ db'. All (λ u. same_task t u ≡ false) db'.tasks)
            (λ db'. All (λ u. is_none_of ts u ≡ true) db'.tasks)
            (λ db'. All (λ u. is_none_of (t ∷ ts) u ≡ true) db'.tasks) (drain_tasks w remote ts db2)
            (λ db' p q.
              All-map (λ u. (same_task t u ≡ false) × (is_none_of ts u ≡ true))
                (λ u. is_none_of (t ∷ ts) u ≡ true) db'.tasks
                (λ u h. joined (same_task t u) (is_none_of ts u) h.0 h.1)
                (both_All (λ u. same_task t u ≡ false) (λ u. is_none_of ts u ≡ true) db'.tasks p q))
            (drain_tasks-All (λ u. same_task t u ≡ false) ts db2 (delete_task-others t db1.tasks))
            (drain_tasks-drained ts db2))
    where
      joined : (a b : Bool) → a ≡ false → b ≡ true → (not a && b) ≡ true
      joined a b p q = ground arith

  -- A drain that goes through takes from the queue each task that was ready and within the limit:
  -- none of those is left.
  pub drain_hydration-drained :
      (limit : ℕ) (db : Db) {db' : Db}
      → drain_hydration w remote limit db ≡ (db', ok tt)
      → All
          (λ u. is_none_of (first_tasks limit (ready_tasks w.env.now db.tasks)) u ≡ true)
          db'.tasks
  unfolding drain_hydration
  drain_hydration-drained limit db e =
      subst
        (AfterDb (λ d.
          All (λ u. is_none_of (first_tasks limit (ready_tasks w.env.now db.tasks)) u ≡ true)
            d.tasks))
        e (drain_tasks-drained (first_tasks limit (ready_tasks w.env.now db.tasks)) db)
