-- ===== src/Limiter/Bucket.antt =====
-- ratelimit.py: `RateLimiter`, over the numbers of `Numbers`, which are Python's floats.
use Prim.Native.Char.{code}
use Prim.Native.String.{String as Text}
use pcomirror.Prelude.{
  ℕ, zero, suc, String, Bool, true, false, Option, none, some, List, [], ◌∷◌, ◌==◌, ◌&&◌, ◌||◌, not,
  ◌≡◌, if◌then◌else◌, contains, leb,
}
use pcomirror.Text.{lower}

-- What the limiter uses of its numbers, and the two laws that are relied on: the smaller of two is
-- not above the first, and an order is transitive. `decimal a b` is a / b of two literals.
pub record Numbers : Type 1 where
  pub Number : Type 0
  pub decimal : ℕ → ℕ → Number
  pub add : Number → Number → Number
  pub sub : Number → Number → Number
  pub mul : Number → Number → Number
  pub div : Number → Number → Number
  pub le : Number → Number → Bool
  -- Python's `float` of a text
  pub float : String → Option Number
  pub le_trans : (a b c : Number) → le a b ≡ true → le b c ≡ true → le a c ≡ true
  pub le_total : (a b : Number) → le a b ≡ false → le b a ≡ true
  pub le_refl : (a : Number) → le a a ≡ true

module _ (n : Numbers) where
  open n use {Number, decimal, add, sub, mul, div, le, float}

  pub record Limiter : Type 0 where
    pub util : Number
    pub rate : Number
    pub capacity : Number
    pub tokens : Number
    pub last : Number
    pub pause_until : Number

  -- Python's `min` and `max` keep the first of equals.
  unfoldable pub least : Number → Number → Number
  least a b = if le a b then a else b

  unfoldable pub greatest : Number → Number → Number
  greatest a b = if le b a then a else b

  abbrev pub above : Number → Number → Bool
  above a b = not (le a b)

  unfoldable pub start : (target util now : Number) → Limiter
  unfolding greatest
  start target util now = record {
    util = util;
    rate = greatest (decimal 1 10) target;
    capacity = greatest (decimal 1 1) target;
    tokens = greatest (decimal 1 1) target;
    last = now;
    pause_until = decimal 0 1;
  }

  unfoldable pub refill : Number → Limiter → Limiter
  unfolding least
  refill now l = record l {
    tokens = least l.capacity (add l.tokens (mul (sub now l.last) l.rate));
    last = now;
  }

  -- `DEFERRABLE`
  abbrev pub deferrable : List String
  deferrable = "reconcile" ∷ "backfill" ∷ "webhook_hydrate" ∷ "divergence" ∷ []

  unfoldable pub floor_of : String → Limiter → Number
  floor_of priority l =
      if contains deferrable priority then mul l.capacity (decimal 1 2) else decimal 0 1

  -- The readings of the clock in one round of the loop, in their order.
  pub record Readings : Type 0 where
    pub refilled_at : Number
    pub checked_at : Number
    pub paused_at : Number
    pub waited_at : Number

  -- One round: the token is taken, or this long is waited.
  pub data Round : Type 0 where
    taken : Limiter → Round
    waits : Limiter → Number → Round

  unfoldable pub wait_of : Number → Readings → Limiter → Number
  unfolding least greatest
  wait_of need at l =
      if above (sub l.pause_until at.paused_at) (decimal 0 1)
      then least (sub l.pause_until at.paused_at) (decimal 1 4)
      else greatest (decimal 1 200) (least (decimal 1 4) (div (sub need l.tokens) l.rate))

  unfoldable pub try_once : Number → Readings → Limiter → Round
  unfolding refill wait_of
  try_once floor at l =
      let l' = refill at.refilled_at l in
      let need = add (decimal 1 1) floor in
      if le need l'.tokens && le l'.pause_until at.checked_at
      then taken (record l' { tokens = sub l'.tokens (decimal 1 1) })
      else waits l' (wait_of need at l')

  -- What became of a call: a token, `RateLimitBusy`, or it still waits.
  pub data Granted : Type 0 where
    token busy waiting : Granted

  abbrev pub is_late : Option Number → Number → Bool
  is_late none at = false
  is_late (some deadline) at = above at deadline

  -- The loop of `acquire`, whose floor is that of the limiter when it was called; other callers may
  -- change the limiter while this one sleeps.
  unfoldable pub acquire_from :
      Option Number
      → (ℕ → Readings)
      → (ℕ → Limiter → Limiter)
      → Number
      → ℕ
      → Limiter
      → Limiter × Granted
  unfolding try_once
  acquire_from deadline at others floor zero l = (l, waiting)
  acquire_from deadline at others floor (suc k) l = elim (try_once floor (at k) l) [
    | taken l' ↦ (l', token)
    | waits l' wait ↦
        if is_late deadline (add (at k).waited_at wait)
        then (l', busy)
        else acquire_from deadline at others floor k (others k l')
  ]

  -- `acquire`, called at `now`
  unfoldable pub acquire :
      String
      → Option Number
      → Number
      → (ℕ → Readings)
      → (ℕ → Limiter → Limiter)
      → ℕ
      → Limiter
      → Limiter × Granted
  unfolding floor_of acquire_from
  acquire priority max_wait now at others rounds l =
      acquire_from (elim max_wait [ none ↦ none | some m ↦ some (add now m) ]) at others
        (floor_of priority l) rounds l

  -- The digits and points of a text.
  unfoldable pub number_part : String → String
  number_part Text.[] = ""
  number_part (Text.◌∷◌ c s) =
      let rest = number_part s in
      if leb 48 (code c) && leb (code c) 57 || leb 46 (code c) && leb (code c) 46
      then Text.◌∷◌ c rest
      else rest

  abbrev pub is_zero : Number → Bool
  is_zero x = le x (decimal 0 1) && le (decimal 0 1) x

  -- `_parse_period`
  unfoldable pub parse_period : Option String → Number
  unfolding number_part
  parse_period none = decimal 20 1
  parse_period (some v) = if v == "" then decimal 20 1 else elim (float (number_part v)) [
    | none ↦ decimal 20 1
    | some x ↦ if is_zero x then decimal 20 1 else x
  ]

  -- The last header of this name, in whatever case it was sent.
  unfoldable pub last_header : String → List (String × String) → Option String
  last_header k [] = none
  last_header k ((j, v) ∷ hs) =
      let rest = last_header k hs in
      elim rest [ some x ↦ some x | none ↦ if lower j == k then some v else none ]

  -- `float(h.get(k, 0))`
  unfoldable pub number_header : String → List (String × String) → Option Number
  unfolding last_header
  number_header k hs = elim (last_header k hs) [ none ↦ some (decimal 0 1) | some v ↦ float v ]

  unfoldable pub retarget : Number → Number → Number → Number → Limiter → Limiter
  unfolding greatest
  retarget limit period count now l =
      let l' = record l {
        rate = mul (div limit period) l.util;
        capacity = greatest (decimal 1 1) (div limit period);
      } in
      if le (mul (decimal 9 10) limit) count then record l' { pause_until = add now period } else l'

  -- `on_response`: what cannot be read changes nothing.
  unfoldable pub on_response : List (String × String) → Number → Limiter → Limiter
  unfolding number_header parse_period retarget
  on_response hs now l = elim (number_header "x-pco-api-request-rate-limit" hs) [
    | none ↦ l
    | some limit ↦ elim (number_header "x-pco-api-request-rate-count" hs) [
      | none ↦ l
      | some count ↦
          let period = parse_period (last_header "x-pco-api-request-rate-period" hs) in
          if above limit (decimal 0 1) && above period (decimal 0 1)
          then retarget limit period count now l
          else l
    ]
  ]

  -- `retry_after if retry_after else 20.0`
  unfoldable pub pause_of : Option Number → Number
  pause_of none = decimal 20 1
  pause_of (some x) = if is_zero x then decimal 20 1 else x

  unfoldable pub on_429 : Option Number → Number → Limiter → Limiter
  unfolding pause_of
  on_429 retry_after now l = record l {
    tokens = decimal 0 1;
    pause_until = add now (pause_of retry_after);
  }
