-- ===== src/Webhooks/Replays.antt =====
-- webhooks.py: a merge that is delivered again is not applied again.
use pcomirror.Store.{SyncSource, from_webhook}
use mathlib.Core.Path.{subst}
use pcomirror.Prelude.{ℕ, String, false, ◌≡◌, refl, inl, inr, Bool-cases, ap, eq_refl}
use pcomirror.Result.{Result, ok, err, Result-cases}
use pcomirror.Json.{Json}
use pcomirror.Store.{select}
use pcomirror.Webhooks.State.{World, Db, Run}
use pcomirror.Webhooks.Inbox.{◌and_then◌}
use pcomirror.Webhooks.Merger.{
  Merge, merge_of, id_of, number_text, merger_is_new, record_merger, bury_gone, queue_survivor,
  apply_merge, handle_merge,
}
use pcomirror.Webhooks.Attempts.{at}
use pcomirror.Writer.Ops.{Env}

-- Once recorded, a merger is not new.
record_merger-known :
    (w : World) (i : String) (raw : Json) (source : SyncSource) (db : Db)
    → merger_is_new i (record_merger w i raw source db) ≡ false
unfolding record_merger merger_is_new select
record_merger-known w i raw source db = elim (Bool-cases (merger_is_new i db)) [
  | inl e ↦ rw (e, eq_refl i) refl
  | inr e ↦ rw (e) e
]

-- A chain that ends with a step that makes `P` true ends where `P` is true.
ends_known :
    (P : Db → Type 0) (m : Run (Unit {0})) (f : Db → Db) (db' : Db)
    → ((d : Db) → P (f d))
    → (m and_then (λ d. (f d, ok tt))) ≡ (db', ok tt)
    → P db'
ends_known P (db, ok u) f db' p e = subst P (ap (λ x. x.0) e) (p db)
ends_known P (db, err x) f db' p e = cc

apply_merge-known :
    (w : World) (payload : Json) (m : Merge) (db db' : Db)
    → apply_merge w payload m db ≡ (db', ok tt)
    → merger_is_new m.merger_id db' ≡ false
unfolding apply_merge
apply_merge-known w payload m db db' e = elim (Bool-cases (merger_is_new m.merger_id db)) [
  | inl n ↦
      ends_known (λ d. merger_is_new m.merger_id d ≡ false)
        (bury_gone w m db and_then queue_survivor w m)
        (record_merger w m.merger_id payload from_webhook) db'
        (record_merger-known w m.merger_id payload from_webhook) (rw (n) at e)
  | inr n ↦
      let went : (db, ok tt) ≡ (db', ok tt) = rw (n) at e in
      subst (λ d. merger_is_new m.merger_id d ≡ false) (ap (λ x. x.0) went) n
]

-- A merge event whose handling went through, handled again at any later time, goes through and
-- changes nothing: no tombstone, no hydration of the survivor, and no second merger record.
pub handle_merge-again :
    (w : World) (env : Env) (later : ℕ → String) (payload : Json) (db db' : Db)
    → handle_merge w payload db ≡ (db', ok tt)
    → handle_merge (at w env later) payload db' ≡ (db', ok tt)
unfolding handle_merge apply_merge merge_of id_of number_text
handle_merge-again w env later payload db db' e = elim (Result-cases (merge_of w payload)) [
  | inr (x, f) ↦
      let went : Path (Run (Unit {0})) (db, err x) (db', ok tt) = rw (f, handle_merge) at e in
      let other : Path (Result (Unit {0})) (err x) (ok tt) = ap (λ r. r.1) went in cc
  | inl (m, f) ↦
      let again : merge_of (at w env later) payload ≡ ok m = f in
      let known : merger_is_new m.merger_id db' ≡ false =
        apply_merge-known w payload m db db' (rw (f, handle_merge) at e) in
      rw (again, handle_merge, known) refl
]
