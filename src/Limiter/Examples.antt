-- ===== src/Limiter/Examples.antt =====
-- ratelimit.py: runs of the limiter in thousandths, and a bucket that background work cannot use.
use Prim.Native.Nat.{◌+◌, ◌-◌, ◌*◌, ◌/◌}
use pcomirror.Prelude.{ℕ, ◌≡◌, ◌≢◌, refl, none, some, ◌∷◌, [], leb, arith, ◌==◌, if◌then◌else◌}
use pcomirror.Limiter.Bucket.{
  Numbers, Limiter, Readings, start, acquire, token, floor_of, on_response, on_429,
}
use pcomirror.Text.{lower}
use pcomirror.Limiter.Grants.{acquire-IsHonest, acquire-starves, Source}

-- Numbers with three decimals, and a reader of some texts.
abbrev thousandths : Numbers
thousandths = record {
  Number = ℕ;
  decimal = λ a b. a * 1000 / b;
  add = λ a b. a + b;
  sub = λ a b. a - b;
  mul = λ a b. a * b / 1000;
  div = λ a b. a * 1000 / b;
  le = leb;
  float = λ s.
      if s == "100"
      then some 100000
      else if s == "20"
      then some 20000
      else if s == "95"
      then some 95000
      else none;
  le_trans = λ a b c p q. ground arith;
  le_total = λ a b p. ground arith;
  le_refl = λ a. ground arith;
}

abbrev slow : Limiter thousandths
slow = start thousandths 1000 800 0

abbrev usual : Limiter thousandths
usual = start thousandths 4000 800 0

abbrev reading : ℕ → Readings thousandths
reading k = record { refilled_at = 0; checked_at = 0; paused_at = 0; waited_at = 0 }

taken_test : (acquire thousandths "reconcile" none 0 reading (λ k l. l) 3 usual).1 ≡ token
unfolding acquire start
taken_test = refl

retargeted_test :
    (on_response thousandths
      (("X-PCO-API-Request-Rate-Limit", "100")
        ∷ ("X-PCO-API-Request-Rate-Period", "20 seconds")
        ∷ ("X-PCO-API-Request-Rate-Count", "95")
        ∷ [])
      1000
      usual).pause_until
    ≡ 21000
unfolding on_response start lower
retargeted_test = refl

limited_test : (on_429 thousandths none 1000 usual).pause_until ≡ 21000
unfolding on_429 start
limited_test = refl

acquire-IsHonest_example :
    Source thousandths
      (floor_of thousandths "reconcile" usual)
      reading
      (λ k l. l)
      3
      usual
      (acquire thousandths "reconcile" none 0 reading (λ k l. l) 3 usual).0
unfolding acquire start
acquire-IsHonest_example =
    acquire-IsHonest thousandths "reconcile" none 0 reading (λ k l. l) 3 usual refl

-- `target_rps` is 1.
acquire-starves_example :
    (acquire thousandths "reconcile" none 0 reading (λ k l. l) 1000 slow).1 ≢ token
unfolding start floor_of
acquire-starves_example =
    acquire-starves thousandths "reconcile" none 0 reading (λ k l. l) 1000 slow refl (λ k x. refl)
