-- ===== src/Scheduler/Fair.antt =====
-- scheduler.py: the cold lane gives every due unit its turn.
use mathlib.Core.Path.{subst}
use Prim.Native.Nat.{◌+◌}
use Prim.Native.String.{◌++◌ as join}
use pcomirror.Prelude.{
  ℕ, String, ◌≡◌, refl, true, false, Option, none, some, List, [], ◌∷◌, ◌++◌, ◌==◌, ◌||◌,
  if◌then◌else◌, arith, eq_iff, eq_refl, Bool-cases, inl, inr, ap, sym, ◌∙◌, contains, length, leb,
}
use pcomirror.Scheduler.Lane.{Lane, UnitOf, guard, full_and_lite}
use pcomirror.Scheduler.Cold.{
  Cold, Ring, retry_of, cold_ready, rotated, ring_of, run_unit, run_ring, next_backfill,
  run_cold_once, drain_cold, followed,
}
use pcomirror.Scheduler.Backoff.{retry_of-cold_outcome}
use pcomirror.Scheduler.Ring.{
  is_distinct, as_distinct, keys, IsDistinct, IsTurned, rotated-first, rotated-IsTurned,
  append_assoc, append_nil,
}

keys-append :
    {A : Type 0} (xs ys : Ring A) (k : String)
    → contains (keys (xs ++ ys)) k ≡ (contains (keys xs) k || contains (keys ys) k)
keys-append [] ys k = refl
keys-append ((j, a) ∷ xs) ys k = let h = keys-append xs ys k in ground arith

distinct-insert :
    {A : Type 0} (k : String) (a : A) (ys xs : Ring A)
    → contains (keys (ys ++ xs)) k ≡ false
    → IsDistinct (keys (ys ++ xs))
    → IsDistinct (keys (ys ++ ((k, a) ∷ xs)))
distinct-insert k a [] xs n d = (n, d)
distinct-insert k a ((j, b) ∷ ys) xs n d =
    (absent k a j ys xs (ground arith) d.0, distinct-insert k a ys xs (ground arith) d.1)
  where
    absent :
        {A : Type 0} (k : String) (a : A) (j : String) (ys xs : Ring A)
        → (j == k) ≡ false
        → contains (keys (ys ++ xs)) j ≡ false
        → contains (keys (ys ++ ((k, a) ∷ xs))) j ≡ false
    absent k a j ys xs ne n =
        let p = keys-append ys xs j in
        let q = keys-append ys ((k, a) ∷ xs) j in ground (arith, eq_iff j k, eq_iff k j)

distinct-swap :
    {A : Type 0} (xs ys : Ring A) → IsDistinct (keys (xs ++ ys)) → IsDistinct (keys (ys ++ xs))
distinct-swap [] ys d = subst (λ x. IsDistinct (keys x)) (sym (append_nil ys)) d
distinct-swap ((k, a) ∷ xs) ys d =
    distinct-insert k a ys xs (swapped xs ys k d.0) (distinct-swap xs ys d.1)
  where
    swapped :
        {A : Type 0} (xs ys : Ring A) (k : String)
        → contains (keys (xs ++ ys)) k ≡ false
        → contains (keys (ys ++ xs)) k ≡ false
    swapped xs ys k n = let p = keys-append xs ys k in let q = keys-append ys xs k in ground arith

keys-swap :
    {A : Type 0} (xs ys : Ring A) (k : String)
    → contains (keys (ys ++ xs)) k ≡ contains (keys (xs ++ ys)) k
keys-swap xs ys k = let p = keys-append xs ys k in let q = keys-append ys xs k in ground arith

length-append : {A : Type 0} (xs ys : List A) → length (xs ++ ys) ≡ length xs + length ys
length-append [] ys = omega arith
length-append (x ∷ xs) ys = let h = length-append xs ys in omega arith

length-swap : {A : Type 0} (xs ys : List A) → length (xs ++ ys) ≡ length (ys ++ xs)
length-swap xs ys = let p = length-append xs ys in let q = length-append ys xs in omega arith

module _ {S : Type 0} (lane : Lane S) (clock : ℕ → ℕ) (ring : Ring (UnitOf S))
    (backfilled : (now : ℕ) (c : Cold S) → next_backfill lane now c full_and_lite ≡ none)
    (due : (s : S) → ring_of lane s ≡ ring) (keyed : is_distinct (keys ring) ≡ true) where
  distinct : IsDistinct (keys ring)
  distinct = as_distinct (keys ring) keyed

  -- These keys may run whatever the time is.
  abbrev pub AllReady : Ring (UnitOf S) → Cold S → Type 0
  AllReady l c = (k : String) → contains (keys l) k ≡ true → retry_of k c.retry_at ≡ 0

  after : (k : String) (unit : UnitOf S) → ℕ → Cold S → Cold S
  after k unit now c = record (run_unit k unit now c) { ring_last = some k }

  tick :
      (now : ℕ) (c : Cold S) (k : String) (unit : UnitOf S) (l : Ring (UnitOf S))
      → rotated c.ring_last ring ≡ (k, unit) ∷ l
      → retry_of k c.retry_at ≡ 0
      → run_cold_once lane now c ≡ (after k unit now c, some k)
  unfolding run_cold_once run_ring cold_ready after
  tick now c k unit l e ready =
      ap
        (λ o. elim o as (λ _. Cold S × Option String) [
          | none ↦ run_ring (rotated c.ring_last (ring_of lane c.mirror)) now c
          | some n ↦
              (run_unit (join "backfill:" n) (lane.backfill n) now c, some (join "backfill:" n))
        ])
        (backfilled now c)
      ∙ (ap (λ x. run_ring (rotated c.ring_last x) now c) (due c.mirror)
          ∙ (ap (λ x. run_ring x now c) e ∙ first))
    where
      zero_first : (n : ℕ) → leb 0 n ≡ true
      zero_first n = ground arith

      first : run_ring ((k, unit) ∷ l) now c ≡ (after k unit now c, some k)
      first =
          ap (λ b. if b then (after k unit now c, some k) else run_ring l now c)
            (ap (λ x. leb x now) ready ∙ zero_first now)

  held : {A : Type 0} (k : String) (a : Ring A) → contains (k ∷ keys a) k ≡ true
  held k a = rw (eq_refl k) refl

  still_ready :
      (k : String) (unit : UnitOf S) (a : Ring (UnitOf S)) (c : Cold S) (now : ℕ)
      → contains (keys a) k ≡ false
      → AllReady ((k, unit) ∷ a) c
      → AllReady a (after k unit now c)
  unfolding after run_unit
  still_ready k unit a c now n ready j h = elim (Bool-cases (k == j)) [
    | inl y ↦
        (let same : k ≡ j = ground (arith, eq_iff k j) in
          let bad : true ≡ false = sym h ∙ (ap (contains (keys a)) (sym same) ∙ n) in cc)
    | inr f ↦
        retry_of-cold_outcome j k now (guard unit c.mirror).1
          (record c { mirror = (guard unit c.mirror).0 })
        ∙ rw (f) (ready j (rw (f) h))
  ]

  drain-keys :
      (a b : Ring (UnitOf S)) (c : Cold S)
      → rotated c.ring_last ring ≡ a ++ b
      → IsDistinct (keys a)
      → AllReady a c
      → (drain_cold lane clock (length a) c).1 ≡ keys a
  unfolding drain_cold after
  drain-keys [] b c e d ready = refl
  drain-keys ((k, unit) ∷ a) b c e d ready =
      let now = clock (length a) in
      let c1 = after k unit now c in
      let one = tick now c k unit (a ++ b) e (ready k (held k a)) in
      ap (λ p. (followed (λ c'. drain_cold lane clock (length a) c') p).1) one
      ∙ ap (◌∷◌ k) (
          drain-keys a (b ++ ((k, unit) ∷ [])) c1
            (rotated-first ring (a ++ b) k unit distinct
                (subst (IsTurned ring) e (rotated-IsTurned c.ring_last ring))
              ∙ append_assoc a b ((k, unit) ∷ []))
            d.1 (still_ready k unit a c (clock (length a)) d.0 ready))

  -- The lane starves nothing. Where every resource is backfilled, the same units stay due and none
  -- of them is backing off, as many ticks as there are units run each of them, whatever they do,
  -- once and in the order of the ring, starting past the unit that ran last.
  pub drain_cold-runs :
      (c : Cold S)
      → AllReady ring c
      → ((drain_cold lane clock (length ring) c).1 ≡ keys (rotated c.ring_last ring))
        × ((k : String) → contains (keys (rotated c.ring_last ring)) k ≡ contains (keys ring) k)
  drain_cold-runs c ready =
      let (xs, ys, er, el) = rotated-IsTurned c.ring_last ring in
      let same = λ (k : String).
        ap (λ x. contains (keys x) k) el
        ∙ (keys-swap xs ys k ∙ sym (ap (λ x. contains (keys x) k) er)) in
      (
        ap (λ n. (drain_cold lane clock n c).1)
              (ap length er ∙ (length-swap xs ys ∙ sym (ap length el)))
            ∙ drain-keys (rotated c.ring_last ring) [] c
                (sym (append_nil (rotated c.ring_last ring)))
                (subst (λ x. IsDistinct (keys x)) (sym el)
                  (distinct-swap xs ys (subst (λ x. IsDistinct (keys x)) er distinct)))
                (λ k h. ready k (sym (same k) ∙ h)),
        same,
      )
