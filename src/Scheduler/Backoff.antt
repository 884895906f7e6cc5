-- ===== src/Scheduler/Backoff.antt =====
-- scheduler.py: a unit that failed is left alone for a while.
use mathlib.Core.Path.{subst}
use Prim.Native.Nat.{◌+◌}
use Prim.Native.String.{◌++◌ as join}
use pcomirror.Prelude.{
  ℕ, String, ◌≡◌, refl, Bool, true, false, some, List, [], ◌∷◌, ◌==◌, ◌≤◌, ◌&&◌, if◌then◌else◌,
  arith, eq_iff, eq_refl, Bool-cases, Option-cases, inl, inr, ◌∙◌, not,
}
use pcomirror.Registry.{Resource}
use pcomirror.Scheduler.Lane.{Lane, UnitOf, guard, full_and_lite}
use pcomirror.Scheduler.Cold.{
  Cold, Ring, retry_of, pop, cold_ready, cold_outcome, cold_retry, rotated, ring_of, run_unit,
  run_ring, next_backfill, run_cold_once,
}

retry_of-pop :
    (k j : String) (ts : List (String × ℕ))
    → retry_of k (pop j ts) ≡ (if j == k then 0 else retry_of k ts)
unfolding retry_of pop
retry_of-pop k j [] = ground arith
retry_of-pop k j ((i, t) ∷ ts) =
    ground (arith, eq_iff i j, eq_iff j k, eq_iff i k, retry_of-pop k j ts)

-- What a unit's outcome makes of the time at which a key may run again.
pub retry_of-cold_outcome :
    {S : Type 0} (k j : String) (now : ℕ) (went : Bool) (c : Cold S)
    → retry_of k (cold_outcome j now went c).retry_at
      ≡ (if j == k then (if went then 0 else now + cold_retry) else retry_of k c.retry_at)
unfolding cold_outcome retry_of
retry_of-cold_outcome k j now true c = retry_of-pop k j c.retry_at ∙ ground arith
retry_of-cold_outcome k j now false c = ground (arith, retry_of-pop k j c.retry_at)

-- What a tick runs is not backing off.
ring-ready :
    {S : Type 0} (ring : Ring (UnitOf S)) (now : ℕ) (c : Cold S) (k : String)
    → (run_ring ring now c).1 ≡ some k
    → cold_ready k now c ≡ true
unfolding run_ring
ring-ready [] now c k e = cc
ring-ready ((j, unit) ∷ ring) now c k e = elim (Bool-cases (cold_ready j now c)) [
  | inl y ↦
      (let e' = rw (y) at e in
        let same : j ≡ k = some_inj e' in subst (λ x. cold_ready x now c ≡ true) same y)
  | inr f ↦ ring-ready ring now c k (let e' = rw (f) at e in e')
]
  where
    some_inj : {a b : String} → some a ≡ some b → a ≡ b
    some_inj e = cc

backfill-ready :
    {S : Type 0} (lane : Lane S) (now : ℕ) (c : Cold S) (rs : List Resource) (n : String)
    → next_backfill lane now c rs ≡ some n
    → cold_ready (join "backfill:" n) now c ≡ true
unfolding next_backfill
backfill-ready lane now c [] n e = cc
backfill-ready lane now c (r ∷ rs) n e =
    elim (Bool-cases
      (not (lane.is_backfilled r.name c.mirror) && cold_ready (join "backfill:" r.name) now c)) [
        | inl y ↦
            (let e' = rw (y) at e in
              let same : r.name ≡ n = some_inj e' in
              subst (λ x. cold_ready (join "backfill:" x) now c ≡ true) same (second _ _ y))
        | inr f ↦ backfill-ready lane now c rs n (let e' = rw (f) at e in e')
      ]
  where
    some_inj : {a b : String} → some a ≡ some b → a ≡ b
    some_inj e = cc

    second : (a b : Bool) → (a && b) ≡ true → b ≡ true
    second true b e = e
    second false b e = cc

tick-ready :
    {S : Type 0} (lane : Lane S) (now : ℕ) (c : Cold S) (k : String)
    → (run_cold_once lane now c).1 ≡ some k
    → cold_ready k now c ≡ true
unfolding run_cold_once
tick-ready lane now c k e = elim (Option-cases (next_backfill lane now c full_and_lite)) [
  | inl n ↦
      ring-ready (rotated c.ring_last (ring_of lane c.mirror)) now c k
        (let e' = rw (n, run_cold_once) at e in e')
  | inr (r, n) ↦
      (let e' = rw (n, run_cold_once) at e in
        let same : join "backfill:" r ≡ k = some_inj e' in
        subst (λ x. cold_ready x now c ≡ true) same (backfill-ready lane now c full_and_lite r n))
]
  where
    some_inj : {a b : String} → some a ≡ some b → a ≡ b
    some_inj e = cc

-- A unit that failed is left alone for `COLD_RETRY_S`: if it failed at one time and a tick runs it
-- again at another, without having run anything between, at least 300 seconds have passed.
pub run_cold_once-backs_off :
    {S : Type 0} (lane : Lane S) (k : String) (unit : UnitOf S) (now later : ℕ) (c : Cold S)
    → (guard unit c.mirror).1 ≡ false
    → (run_cold_once lane later (run_unit k unit now c)).1 ≡ some k
    → now + cold_retry ≤ later
unfolding run_unit cold_ready
run_cold_once-backs_off lane k unit now later c fails runs =
    let ready = tick-ready lane later (run_unit k unit now c) k runs in
    let held : retry_of k (run_unit k unit now c).retry_at ≡ now + cold_retry =
      retry_of-cold_outcome k k now (guard unit c.mirror).1
        (record c { mirror = (guard unit c.mirror).0 })
      ∙ chosen (k == k) (guard unit c.mirror).1 (eq_refl k) fails in
    ground (arith, held)
  where
    chosen :
        (a b : Bool)
        → a ≡ true
        → b ≡ false
        → (if a then (if b then 0 else now + cold_retry) else retry_of k c.retry_at)
          ≡ now + cold_retry
    chosen a b p q = rw (p, q) refl
