-- ===== src/Ingest/Verdict.antt =====
-- ingest.py: what a hydration and a walk make of the answer about one record, and the drained queue.
use mathlib.Core.Path.{subst}
use mathlib.Core.Option
use Prim.Native.String.{◌++◌}
use pcomirror.Prelude.{
  String, ◌≡◌, refl, Bool, true, false, Option, none, some, List, [], is_some, arith, eq_iff, inl,
  inr, ap, sym, ◌∙◌,
}
use pcomirror.Result.{Result, ok, err, Result-cases}
use pcomirror.Json.{null}
use pcomirror.Registry.{Resource}
use pcomirror.Store.{Row, select, is_live}
use pcomirror.Client.Request.{Response, is_ok}
use pcomirror.Webhooks.State.{World}
use pcomirror.Writer.Ops.{Env, is_table}
use pcomirror.Writer.Tombstone.{tombstone, stable_ts, tombstone_change}
use pcomirror.Writer.Cascade.{select-key}
use pcomirror.Writer.Burials.{select-tombstone, buried}
use pcomirror.Writer.Ownership.{NoLiveChild, tombstone-NoLiveChild}
use pcomirror.Ingest.Remote.{Remote, Step, is_absent, reading, ◌and◌}
use pcomirror.Ingest.Walk.{tombstone_if_absent}
use pcomirror.Ingest.Hydrate.{hydrate, after_fetch, include_param}
use pcomirror.Ingest.Buried.{may_bury-none, ok_inj}

dead_row :
    (env : Env) (t i reason : String) (r : Row)
    → r.table ≡ t
    → r.pco_id ≡ i
    → is_some (buried env t i none reason none r).deleted_at ≡ true
unfolding tombstone_change
dead_row env t i reason r et ei =
    ground (arith, may_bury-none reason r, eq_iff r.table t, eq_iff r.pco_id i)

dead_map :
    (f : Row → Row) (o : Option Row)
    → ((r : Row) → o ≡ some r → is_some (f r).deleted_at ≡ true)
    → is_live (Option.map f o) ≡ false
dead_map f none h = refl
dead_map f (some r) h = rw (h r refl) refl

-- A record that was said to be gone, with what it owns.
abbrev pub IsGone : String → String → List Row → Type 0
IsGone t i rs = (is_live (select t i rs) ≡ false) × NoLiveChild t i rs

-- The tombstone of a 404.
pub tombstone-IsGone :
    (env : Env) (t i : String) (rs : List Row)
    → is_table t ≡ true
    → (rs' : List Row) × (tombstone env t i null "audit_absent" none rs ≡ ok rs') × IsGone t i rs'
unfolding stable_ts
tombstone-IsGone env t i rs h =
    let (rs1, e1, s) = select-tombstone env t i null "audit_absent" none rs h in
    let (rs2, e2, c) = tombstone-NoLiveChild env t i null "audit_absent" none rs h refl in
    let same : rs2 ≡ rs1 = ok_inj (sym e2 ∙ e1) in
    (
      rs1,
      e1,
      (
        ap is_live (s t i)
            ∙ dead_map _ (select t i rs)
                (λ r f. let k = select-key t i rs r f in dead_row env t i "audit_absent" r k.0 k.1),
        subst (NoLiveChild t i) same c,
      ),
    )

-- What a read of the record itself may leave: gone with what it owns where the answer is 404, and
-- the tables as they were where it is any other failure.
abbrev pub IsVerdict : Resource → String → Result Response → List Row → List Row → Type 0
IsVerdict r i (err e) rs rs' = rs' ≡ rs
IsVerdict r i (ok resp) rs rs' =
    (is_absent resp ≡ true → IsGone r.table i rs')
    × (is_absent resp ≡ false → is_ok resp ≡ false → rs' ≡ rs)

after_fetch-IsVerdict :
    (w : World) (r : Resource) (i : String) (names : List String) (resp : Response) (rs : List Row)
    → is_table r.table ≡ true
    → IsVerdict r i (ok resp) rs (after_fetch w r i names resp rs).0
unfolding after_fetch
after_fetch-IsVerdict w r i names resp rs h = (
  (λ a. let (rs', e, g) = tombstone-IsGone w.env r.table i rs h in rw (a, e) g),
  (λ a b. rw (a, b) refl),
)

-- A hydration believes only what it is told: where the answer about the record is 404, it is buried
-- with what it owns; where it is any other failure, or there is none, the tables stay as they are.
pub hydrate-IsVerdict :
    (w : World) (remote : Remote) (r : Resource) (i : String) (names : List String) (rs : List Row)
    → is_table r.table ≡ true
    → IsVerdict r i
        (remote (r.endpoint ++ ("/" ++ i)) (include_param names))
        rs
        (hydrate w remote r i names rs).0
unfolding hydrate
hydrate-IsVerdict w remote r i names rs h =
    of_answer (remote (r.endpoint ++ ("/" ++ i)) (include_param names))
  where
    of_answer :
        (answer : Result Response)
        → IsVerdict r i answer rs
            (reading answer rs and (λ resp rs1. after_fetch w r i names resp rs1)).0
    of_answer (ok resp) = after_fetch-IsVerdict w r i names resp rs h
    of_answer (err e) = refl

-- The tables after `_tombstone_if_absent`: the record is gone only on its own 404, which is what the
-- result says, and on no other answer is anything changed.
abbrev pub IsProof : Resource → String → Result Response → List Row → Step Bool → Type 0
IsProof r i (err e) rs out = out ≡ (rs, ok false)
IsProof r i (ok resp) rs out =
    (is_absent resp ≡ true → (out.1 ≡ ok true) × IsGone r.table i out.0)
    × (is_absent resp ≡ false → out ≡ (rs, ok false))

-- A parent whose collection has vanished is buried only once Planning Center has answered 404 about
-- the parent itself: then the result is true and the parent is gone with what it owns; on any other
-- answer, and where there is none, the result is false and the tables stay as they are.
pub tombstone_if_absent-IsProof :
    (w : World) (remote : Remote) (r : Resource) (i : String) (rs : List Row)
    → is_table r.table ≡ true
    → IsProof r i (remote (r.endpoint ++ ("/" ++ i)) []) rs (tombstone_if_absent w remote r i rs)
unfolding tombstone_if_absent
tombstone_if_absent-IsProof w remote r i rs h =
    elim (Result-cases (remote (r.endpoint ++ ("/" ++ i)) [])) [
      | inr (x, e) ↦ rw (e, tombstone_if_absent) refl
      | inl (resp, e) ↦
          rw (e, tombstone_if_absent)
            ((
              (λ a. let (rs', t, g) = tombstone-IsGone w.env r.table i rs h in rw (a, t) (refl, g)),
              (λ a. rw (a) refl),
            ))
    ]
