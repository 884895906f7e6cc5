-- ===== src/Limiter/Grants.antt =====
-- ratelimit.py: when a token is given, and to whom one never is.
use mathlib.Core.Path.{subst}
use Prim.Native.Nat.{◌+◌}
use pcomirror.Prelude.{
  arith, ℕ, zero, suc, String, ◌≡◌, ◌≢◌, refl, Bool, true, false, Option, none, some, ◌&&◌,
  if◌then◌else◌, Bool-cases, inl, inr, ap, sym, ◌∙◌,
}
use pcomirror.Limiter.Bucket.{
  Numbers, Limiter, Readings, Round, taken, waits, Granted, token, busy, waiting, least, refill,
  floor_of, try_once, acquire_from, acquire, is_late,
}

module _ (n : Numbers) where
  open n use {Number, decimal, add, sub, mul, div, le, le_trans, le_total, le_refl}

  least-le : (a b : Number) → le (least n a b) a ≡ true
  unfolding least
  least-le a b = elim (Bool-cases (le a b)) [
    | inl y ↦ rw (y) (le_refl a)
    | inr f ↦ rw (f) (le_total a b f)
  ]

  -- A round gives a token only out of a bucket that holds one more than the floor, and not before
  -- the pause is over.
  abbrev pub IsFair : Number → Readings n → Limiter n → Round n → Type 0
  IsFair floor at l (taken l') =
      (le (add (decimal 1 1) floor) l.capacity ≡ true)
      × (le l.pause_until at.checked_at ≡ true)
      × (le (add (decimal 1 1) floor) (refill n at.refilled_at l).tokens ≡ true)
      × (l' ≡ record (refill n at.refilled_at l) {
        tokens = sub (refill n at.refilled_at l).tokens (decimal 1 1);
      })
  IsFair floor at l (waits l' wait) = l' ≡ refill n at.refilled_at l

  fair_branch :
      (P : Round n → Type 0) (a b : Bool) (x y : Round n)
      → (a ≡ true → b ≡ true → P x)
      → P y
      → P (if a && b then x else y)
  fair_branch P true true x y p q = p refl refl
  fair_branch P true false x y p q = q
  fair_branch P false b x y p q = q

  within :
      (floor : Number) (at : Readings n) (l : Limiter n)
      → le (add (decimal 1 1) floor) (refill n at.refilled_at l).tokens ≡ true
      → le (add (decimal 1 1) floor) l.capacity ≡ true
  unfolding refill
  within floor at l enough =
      le_trans _ _ _ enough
        (least-le l.capacity (add l.tokens (mul (sub at.refilled_at l.last) l.rate)))

  unpaused :
      (floor : Number) (at : Readings n) (l : Limiter n)
      → le (refill n at.refilled_at l).pause_until at.checked_at ≡ true
      → le l.pause_until at.checked_at ≡ true
  unfolding refill
  unpaused floor at l over = over

  same_bucket :
      (at : Readings n) (l : Limiter n) → (refill n at.refilled_at l).capacity ≡ l.capacity
  unfolding refill
  same_bucket at l = refl

  try_once-IsFair :
      (floor : Number) (at : Readings n) (l : Limiter n) → IsFair floor at l (try_once n floor at l)
  unfolding try_once
  try_once-IsFair floor at l =
      let l' = refill n at.refilled_at l in
      fair_branch (IsFair floor at l) (le (add (decimal 1 1) floor) l'.tokens)
        (le l'.pause_until at.checked_at)
        (taken (record l' { tokens = sub l'.tokens (decimal 1 1) })) _
        (λ enough over. (within floor at l enough, unpaused floor at l over, enough, refl)) refl

  -- The limiter that a run of so many rounds finds after some of them, in each of which it waited:
  -- it was refilled in the round, and other callers changed it while this one slept.
  unfoldable pub found_after :
      (ℕ → Readings n) → (ℕ → Limiter n → Limiter n) → (rounds waits : ℕ) → Limiter n → Limiter n
  found_after at others rounds zero l = l
  found_after at others zero (suc j) l = l
  found_after at others (suc k) (suc j) l =
      found_after at others k j (others k (refill n (at k).refilled_at l))

  -- Where a token came from: `waits` rounds of the run waited, and the next one took it.
  abbrev pub Source :
      Number → (ℕ → Readings n) → (ℕ → Limiter n → Limiter n) → ℕ → Limiter n → Limiter n → Type 0
  Source floor at others rounds l l' =
      (waits left : ℕ) × (rounds ≡ waits + suc left)
      × IsFair floor (at left) (found_after at others rounds waits l) (taken l')

  -- What a loop's outcome says.
  abbrev pub IsHonest :
      Number
      → (ℕ → Readings n)
      → (ℕ → Limiter n → Limiter n)
      → ℕ
      → Limiter n
      → Limiter n × Granted n
      → Type 0
  IsHonest floor at others rounds l (l', token) = Source floor at others rounds l l'
  IsHonest floor at others rounds l (l', busy) = Unit
  IsHonest floor at others rounds l (l', waiting) = Unit

  -- A round that waited is one more of the run.
  waited-IsHonest :
      (floor : Number) (at : ℕ → Readings n) (others : ℕ → Limiter n → Limiter n) (k : ℕ)
      (l : Limiter n) (out : Limiter n × Granted n)
      → IsHonest floor at others k (others k (refill n (at k).refilled_at l)) out
      → IsHonest floor at others (suc k) l out
  unfolding found_after
  waited-IsHonest floor at others k l (l', token) (j, left, e, fair) =
      (suc j, left, omega arith, fair)
  waited-IsHonest floor at others k l (l', busy) h = tt
  waited-IsHonest floor at others k l (l', waiting) h = tt

  acquire_from-IsHonest :
      (deadline : Option Number) (at : ℕ → Readings n) (others : ℕ → Limiter n → Limiter n)
      (floor : Number) (rounds : ℕ) (l : Limiter n)
      → IsHonest floor at others rounds l (acquire_from n deadline at others floor rounds l)
  unfolding acquire_from found_after
  acquire_from-IsHonest deadline at others floor zero l = tt
  acquire_from-IsHonest deadline at others floor (suc k) l =
      of_round (try_once n floor (at k) l) (try_once-IsFair floor (at k) l)
        (λ l'. acquire_from-IsHonest deadline at others floor k (others k l'))
    where
      late :
          (b : Bool) (l' : Limiter n)
          → IsHonest floor at others
              (suc k)
              l
              (acquire_from n deadline at others floor k (others k l'))
          → IsHonest floor at others
              (suc k)
              l
              (if b then (l', busy) else acquire_from n deadline at others floor k (others k l'))
      late true l' h = tt
      late false l' h = h

      of_round :
          (r : Round n)
          → IsFair floor (at k) l r
          → ((l' : Limiter n)
              → IsHonest floor at others k
                  (others k l')
                  (acquire_from n deadline at others floor k (others k l')))
          → IsHonest floor at others (suc k) l (elim r as (λ _. Limiter n × Granted n) [
            | taken l' ↦ (l', token)
            | waits l' wait ↦
                if is_late n deadline (add (at k).waited_at wait)
                then (l', busy)
                else acquire_from n deadline at others floor k (others k l')
          ])
      of_round (taken l') fair rest = (0, k, omega arith, fair)
      of_round (waits l' wait) same rest =
          late (is_late n deadline (add (at k).waited_at wait)) l' (
            waited-IsHonest floor at others k l
              (acquire_from n deadline at others floor k (others k l'))
              (subst
                (λ x.
                  IsHonest floor at others k (others k x)
                    (acquire_from n deadline at others floor k (others k l')))
                same (rest l')))

  -- Every token was there to be had: where `acquire` gives one, then after some rounds that waited,
  -- each of which refilled the bucket and let the other callers change it, a round of the run found
  -- the pause over and, refilled, one token more in the bucket than the part that is held back from
  -- the caller's kind of work, which is no more than the bucket can hold; and what `acquire` leaves
  -- is that bucket with one token less.
  pub acquire-IsHonest :
      (priority : String) (max_wait : Option Number) (now : Number) (at : ℕ → Readings n)
      (others : ℕ → Limiter n → Limiter n) (rounds : ℕ) (l : Limiter n) {l' : Limiter n}
      → acquire n priority max_wait now at others rounds l ≡ (l', token)
      → Source (floor_of n priority l) at others rounds l l'
  unfolding acquire
  acquire-IsHonest priority max_wait now at others rounds l e =
      subst (IsHonest (floor_of n priority l) at others rounds l) e (
        acquire_from-IsHonest (elim max_wait [ none ↦ none | some m ↦ some (add now m) ]) at others
          (floor_of n priority l) rounds l)

  abbrev pub IsRefused : Granted n → Type 0
  IsRefused token = ⊥
  IsRefused busy = Unit
  IsRefused waiting = Unit

  acquire_from-IsRefused :
      (deadline : Option Number) (at : ℕ → Readings n) (others : ℕ → Limiter n → Limiter n)
      (floor : Number) (rounds : ℕ) (l : Limiter n)
      → le (add (decimal 1 1) floor) l.capacity ≡ false
      → ((k : ℕ) (x : Limiter n) → (others k x).capacity ≡ x.capacity)
      → IsRefused (acquire_from n deadline at others floor rounds l).1
  unfolding acquire_from
  acquire_from-IsRefused deadline at others floor zero l small still = tt
  acquire_from-IsRefused deadline at others floor (suc k) l small still =
      of_round (try_once n floor (at k) l) (try_once-IsFair floor (at k) l) (λ l' same.
        acquire_from-IsRefused deadline at others floor k (others k l')
          (ap (le (add (decimal 1 1) floor)) (still k l' ∙ same) ∙ small) still)
    where
      late :
          (b : Bool) (l' : Limiter n)
          → IsRefused (acquire_from n deadline at others floor k (others k l')).1
          → IsRefused
              (if b then (l', busy) else acquire_from n deadline at others floor k (others k l')).1
      late true l' h = tt
      late false l' h = h

      contrary : true ≡ false → ⊥
      contrary e = subst (λ b. elim b [ true ↦ Unit | false ↦ ⊥ ]) e tt

      of_round :
          (r : Round n)
          → IsFair floor (at k) l r
          → ((l' : Limiter n)
              → l'.capacity ≡ l.capacity
              → IsRefused (acquire_from n deadline at others floor k (others k l')).1)
          → IsRefused (
              (elim r as (λ _. Limiter n × Granted n) [
                | taken l' ↦ (l', token)
                | waits l' wait ↦
                    if is_late n deadline (add (at k).waited_at wait)
                    then (l', busy)
                    else acquire_from n deadline at others floor k (others k l')
              ]).1)
      of_round (taken l') fair rest = contrary (sym fair.0 ∙ small)
      of_round (waits l' wait) same rest =
          late (is_late n deadline (add (at k).waited_at wait)) l'
            (rest l' (ap (λ x. x.capacity) same ∙ same_bucket (at k) l))

  -- The part held back may be all there is: where a deferrable call's floor leaves no room for a
  -- token in the bucket, and no other caller's answer makes the bucket larger, the call is never
  -- given one, however long it waits.
  pub acquire-starves :
      (priority : String) (max_wait : Option Number) (now : Number) (at : ℕ → Readings n)
      (others : ℕ → Limiter n → Limiter n) (rounds : ℕ) (l : Limiter n)
      → le (add (decimal 1 1) (floor_of n priority l)) l.capacity ≡ false
      → ((k : ℕ) (x : Limiter n) → (others k x).capacity ≡ x.capacity)
      → (acquire n priority max_wait now at others rounds l).1 ≢ token
  unfolding acquire
  acquire-starves priority max_wait now at others rounds l small still e = subst IsRefused e (
      acquire_from-IsRefused (elim max_wait [ none ↦ none | some m ↦ some (add now m) ]) at others
        (floor_of n priority l) rounds l small still)
