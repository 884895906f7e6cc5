-- ===== src/Webhooks/Untouched.antt =====
-- webhooks.py: the handlers of `process_event` write on everything but the inbox itself.
use pcomirror.Store.{SyncSource, from_webhook}
use pcomirror.Prelude.{
  String, Option, none, some, List, [], ◌∷◌, ◌==◌, ◌≡◌, refl, inl, inr, Bool-cases, Option-cases,
  ◌∙◌, leb, if◌then◌else◌,
}
use pcomirror.Result.{Result, ok, err, Result-cases}
use pcomirror.Json.{Json, item, bind_text, str}
use pcomirror.Registry.{Resource, resources}
use pcomirror.Store.{Row}
use pcomirror.Writer.Route.{route}
use pcomirror.Webhooks.State.{World, Event, Db, Run, bind}
use pcomirror.Webhooks.Inbox.{◌and_then◌}
use pcomirror.Webhooks.Hydration.{
  enqueue_hydration, enqueue_or_defer, burst_threshold, count_tasks, forget_child_walks,
  is_walked_under, forget_walk, in_rows,
}
use pcomirror.Webhooks.Merger.{
  Merge, merge_of, merger_is_new, record_merger, bury_gone, queue_survivor, apply_merge,
  handle_merge,
}
use pcomirror.Webhooks.Process.{
  bury_key, target_of, handle_destroyed, is_thin, with_id, handle_changed, dispatch,
}

and_then-events :
    (es : List Event) (m : Run (Unit {0})) (f : Db → Run (Unit {0}))
    → m.0.events ≡ es
    → ((d : Db) → (f d).0.events ≡ d.events)
    → (m and_then f).0.events ≡ es
and_then-events es (db, ok u) f p q = q db ∙ p
and_then-events es (db, err e) f p q = p

in_rows-events : (db : Db) (r : Result (List Row)) → (in_rows db r).0.events ≡ db.events
in_rows-events db (ok rs) = refl
in_rows-events db (err e) = refl

enqueue_hydration-events :
    (w : World) (name : String) (key : Json) (reason : String) (db : Db)
    → (enqueue_hydration w name key reason db).0.events ≡ db.events
unfolding enqueue_hydration
enqueue_hydration-events w name key reason db = elim (Result-cases (bind_text key)) [
  | inl (i, e) ↦ rw (e, enqueue_hydration) refl
  | inr (x, e) ↦ rw (e, enqueue_hydration) refl
]

enqueue_or_defer-events :
    (w : World) (name : String) (key : Json) (db : Db)
    → (enqueue_or_defer w name key db).0.events ≡ db.events
unfolding enqueue_or_defer
enqueue_or_defer-events w name key db =
    elim (Bool-cases (leb burst_threshold (count_tasks name db.tasks))) [
      | inl e ↦ rw (e) refl
      | inr e ↦ rw (e) (enqueue_hydration-events w name key "thin_webhook" db)
    ]

forget_child_walks-events :
    (cs : List Resource) (parent : String) (key : Json) (db : Db)
    → (forget_child_walks cs parent key db).0.events ≡ db.events
unfolding forget_child_walks
forget_child_walks-events [] parent key db = refl
forget_child_walks-events (c ∷ cs) parent key db = elim (Bool-cases (is_walked_under parent c)) [
  | inr e ↦ rw (e) (forget_child_walks-events cs parent key db)
  | inl e ↦ elim (Result-cases (bind key)) [
    | inl (k, f) ↦
        rw (e, f)
          (forget_child_walks-events cs parent key
            (record db { walks = forget_walk c.name k db.walks }))
    | inr (x, f) ↦ rw (e, f) refl
  ]
]

record_merger-events :
    (w : World) (i : String) (raw : Json) (source : SyncSource) (db : Db)
    → (record_merger w i raw source db).events ≡ db.events
unfolding record_merger
record_merger-events w i raw source db = elim (Bool-cases (merger_is_new i db)) [
  | inl e ↦ rw (e) refl
  | inr e ↦ rw (e) refl
]

bury_gone-events : (w : World) (m : Merge) (db : Db) → (bury_gone w m db).0.events ≡ db.events
unfolding bury_gone
bury_gone-events w m db = elim (Option-cases m.gone) [
  | inl e ↦ rw (e) refl
  | inr (g, e) ↦ rw (e) (in_rows-events db _)
]

queue_survivor-events :
    (w : World) (m : Merge) (db : Db) → (queue_survivor w m db).0.events ≡ db.events
unfolding queue_survivor
queue_survivor-events w m db = elim (Option-cases m.keep) [
  | inl e ↦ rw (e) refl
  | inr (k, e) ↦ rw (e) (enqueue_hydration-events w "person" (str k) "merge_survivor" db)
]

handle_merge-events :
    (w : World) (payload : Json) (db : Db) → (handle_merge w payload db).0.events ≡ db.events
unfolding handle_merge apply_merge
handle_merge-events w payload db = elim (Result-cases (merge_of w payload)) [
  | inr (x, e) ↦ rw (e, handle_merge) refl
  | inl (m, e) ↦ elim (Bool-cases (merger_is_new m.merger_id db)) [
    | inr f ↦ rw (e, handle_merge, f) refl
    | inl f ↦
        rw (e, handle_merge, f)
          (and_then-events db.events (bury_gone w m db and_then queue_survivor w m)
            (λ d. (record_merger w m.merger_id payload from_webhook d, ok tt))
            (and_then-events db.events (bury_gone w m db) (queue_survivor w m)
              (bury_gone-events w m db) (queue_survivor-events w m))
            (record_merger-events w m.merger_id payload from_webhook))
  ]
]

bury_key-events :
    (w : World) (t : String) (i : Option String) (at : Json) (db : Db)
    → (bury_key w t i at db).0.events ≡ db.events
unfolding bury_key
bury_key-events w t none at db = refl
bury_key-events w t (some i) at db = in_rows-events db _

handle_destroyed-events :
    (w : World) (r : Resource) (payload : Json) (db : Db)
    → (handle_destroyed w r payload db).0.events ≡ db.events
unfolding handle_destroyed
handle_destroyed-events w r payload db = elim (Result-cases (target_of payload)) [
  | inl ((i, at), e) ↦ rw (e, handle_destroyed) (bury_key-events w r.table i at db)
  | inr (x, e) ↦ rw (e, handle_destroyed) refl
]

with_id-events :
    (payload : Json) (f : Json → Db → Run (Unit {0})) (db : Db)
    → ((key : Json) → (f key db).0.events ≡ db.events)
    → (with_id payload f db).0.events ≡ db.events
unfolding with_id
with_id-events payload f db p = elim (Result-cases (item "id" payload)) [
  | inl (k, e) ↦ rw (e, with_id) (p k)
  | inr (x, e) ↦ rw (e, with_id) refl
]

handle_changed-events :
    (w : World) (r : Resource) (action : String) (payload : Json) (db : Db)
    → (handle_changed w r action payload db).0.events ≡ db.events
unfolding handle_changed
handle_changed-events w r action payload db =
    let hydrate : Db → Run (Unit {0}) =
      λ d. if is_thin r then with_id payload (enqueue_or_defer w r.name) d else (d, ok tt) in
    let forget : Db → Run (Unit {0}) = λ d.
      if action == "refreshed"
      then with_id payload (forget_child_walks resources r.name) d
      else (d, ok tt) in
    let routed = in_rows db (route w.env from_webhook none [] payload db.rows) in
    and_then-events db.events (routed and_then hydrate) forget
      (and_then-events db.events routed hydrate (in_rows-events db _) (λ d.
        elim (Bool-cases (is_thin r)) [
          | inl e ↦ rw (e) (
              with_id-events payload (enqueue_or_defer w r.name) d
                (λ k. enqueue_or_defer-events w r.name k d))
          | inr e ↦ rw (e) refl
        ]))
      (λ d. elim (Bool-cases (action == "refreshed")) [
        | inl e ↦ rw (e) (
            with_id-events payload (forget_child_walks resources r.name) d
              (λ k. forget_child_walks-events resources r.name k d))
        | inr e ↦ rw (e) refl
      ])

pub dispatch-events :
    (w : World) (ev : Event) (r : Option Resource) (payload : Json) (db : Db)
    → (dispatch w ev r payload db).0.events ≡ db.events
unfolding dispatch
dispatch-events w ev r payload db = elim (Bool-cases (ev.resource_type == "person_merger")) [
  | inl e ↦ rw (e) (handle_merge-events w payload db)
  | inr e ↦ elim (Option-cases r) [
    | inl f ↦ rw (e, f) refl
    | inr (s, f) ↦ elim (Bool-cases (ev.action == "destroyed")) [
      | inl g ↦ rw (e, f, g) (handle_destroyed-events w s payload db)
      | inr g ↦ rw (e, f, g) (handle_changed-events w s ev.action payload db)
    ]
  ]
]
