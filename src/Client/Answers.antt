-- ===== src/Client/Answers.antt =====
-- pcoclient.py: what a request returns, and how often it says that it was sent.
use pcomirror.Prelude.{
  ℕ, zero, suc, ◌+◌, Bool, true, false, Option, none, some, List, [], ◌∷◌, ◌≡◌, refl, inl, inr,
  Bool-cases, ◌∙◌, ap, arith, not, ◌&&◌, ◌||◌, ltb, ◌≤◌, ◌<◌,
}
use pcomirror.Result.{Exn, Result, ok, err, Result-cases, Holds}
use pcomirror.Client.Request.{
  Response, Call, Act, acquired, sent, told, told_429, recorded, slept, Acts, after, note_if,
  on_raise, on_response, exhausted, attempt, tried, attempts_from, request, is_limited,
  is_transient, is_idempotent, is_final, is_ok, settle,
}

abbrev pub sends : List Act → ℕ
sends [] = 0
sends (sent n ∷ more) = sends more + 1
sends (acquired ∷ more) = sends more
sends (told hs ∷ more) = sends more
sends (told_429 t ∷ more) = sends more
sends (recorded n b ∷ more) = sends more
sends (slept n ∷ more) = sends more

-- The response says that it took `m` attempts and those of the acts.
abbrev pub Counts : ℕ → Acts → Type 0
Counts m p = Holds (λ r. r.attempts ≡ m + sends p.0) p.1

note_if-Counts :
    (m : ℕ) (b : Bool) (n : ℕ) (retry : Bool) (p : Acts)
    → Counts m p
    → Counts m (after (note_if b n retry) p)
unfolding note_if
note_if-Counts m true n retry p h = h
note_if-Counts m false n retry p h = h

on_raise-Counts :
    (c : Call) (n : ℕ) (x : Exn) (rest : Acts)
    → Counts (n + 1) rest
    → Counts (n + 1) (on_raise c n x rest)
unfolding on_raise
on_raise-Counts c n x rest h = elim (Bool-cases (not (is_idempotent c) || is_final c n)) [
  | inl e ↦ rw (e) (note_if-Counts (n + 1) c.record_outcome n false ([], err x) tt)
  | inr e ↦ rw (e) h
]

on_response-Counts :
    (c : Call) (n : ℕ) (r : Response) (rest : Acts)
    → Counts (n + 1) rest
    → Counts (n + 1) (on_response c n r rest)
unfolding on_response settle
on_response-Counts c n r rest h =
    let settled : Acts = ([], ok (settle c r (c.elapsed n) n)) in
    elim (Bool-cases (is_limited r.status)) [
      | inl l ↦ rw (l) h
      | inr l ↦ elim (Bool-cases (is_transient r.status)) [
        | inr t ↦
            rw (l, t)
              (note_if-Counts (n + 1) (not (is_ok r) && c.record_outcome) n false settled
                (omega arith))
        | inl t ↦ elim (Bool-cases (is_idempotent c)) [
          | inr e ↦
              rw (l, t, e) (note_if-Counts (n + 1) c.record_outcome n false settled (omega arith))
          | inl e ↦
              rw (l, t, e)
                (note_if-Counts (n + 1) (not (is_final c n) || c.record_outcome) n
                  (not (is_final c n)) (after (slept _ ∷ []) rest) h)
        ]
      ]
    ]

-- A last response is there only after an attempt.
abbrev pub IsStarted : ℕ → Option (Response × ℕ) → Type 0
IsStarted n none = Unit
IsStarted n (some l) = 1 ≤ n

tried-Counts :
    (c : Call) (n : ℕ) (sent_back : Result Response) (last : Option (Response × ℕ))
    (rest : Option (Response × ℕ) → Acts)
    → ((r : Response) (s : ℕ) → Counts (n + 1) (rest (some (r, s))))
    → Counts (n + 1) (rest last)
    → Counts (n + 1) (tried c n sent_back last rest)
unfolding tried
tried-Counts c n (err x) last rest h g = on_raise-Counts c n x (rest last) g
tried-Counts c n (ok r) last rest h g =
    on_response-Counts c n r (rest (some (r, c.elapsed n))) (h r (c.elapsed n))

IsStarted-next : (n : ℕ) (last : Option (Response × ℕ)) → IsStarted (n + 1) last
IsStarted-next n none = tt
IsStarted-next n (some l) = omega arith

sent_once : (n : ℕ) (p : Acts) → Counts (n + 1) p → Counts n (after (acquired ∷ sent n ∷ []) p)
sent_once n (as', ok r) h = omega arith
sent_once n (as', err x) h = tt

attempts_from-Counts :
    (c : Call) (k n : ℕ) (last : Option (Response × ℕ))
    → IsStarted n last
    → Counts n (attempts_from c k n last)
unfolding attempts_from exhausted attempt settle
attempts_from-Counts c zero n none s = tt
attempts_from-Counts c zero n (some (r, t)) s = omega arith
attempts_from-Counts c (suc k) n last s = elim (Result-cases (c.acquire n)) [
  | inr (x, a) ↦ rw (a) tt
  | inl (u, a) ↦ rw (a) (
      sent_once n (tried c n (c.send n) last (λ l. attempts_from c k (n + 1) l)) (
        tried-Counts c n (c.send n) last (λ l. attempts_from c k (n + 1) l)
          (λ r t. attempts_from-Counts c k (n + 1) (some (r, t)) (omega arith))
          (attempts_from-Counts c k (n + 1) last (IsStarted-next n last))))
]

zeroless : (p : Acts) → Counts 0 p → Holds (λ r. r.attempts ≡ sends p.0) p.1
zeroless (acts, ok r) h = omega arith
zeroless (acts, err x) h = tt

-- The response that a request returns says as many attempts as the request was sent.
pub request-Counts : (c : Call) → Holds (λ r. r.attempts ≡ sends (request c).0) (request c).1
unfolding request
request-Counts c =
    zeroless (attempts_from c c.max_attempts 0 none)
      (attempts_from-Counts c c.max_attempts 0 none tt)

-- A failure after which a read is tried again: an exception, a 429, or a 500, 502, 503 or 504.
abbrev pub is_passing : Result Response → Bool
is_passing (err x) = true
is_passing (ok r) = is_limited r.status || is_transient r.status

passing_on :
    (c : Call) (n : ℕ) (sent_back : Result Response) (last : Option (Response × ℕ))
    (rest : Option (Response × ℕ) → Acts) (out : Result Response)
    → is_idempotent c ≡ true
    → is_final c n ≡ false
    → is_passing sent_back ≡ true
    → ((l : Option (Response × ℕ)) → (rest l).1 ≡ out)
    → (tried c n sent_back last rest).1 ≡ out
unfolding tried on_raise on_response
passing_on c n (err x) last rest out g f p h = rw (g, f) (h last)
passing_on c n (ok r) last rest out g f p h = elim (Bool-cases (is_limited r.status)) [
  | inl l ↦ rw (l) (h (some (r, c.elapsed n)))
  | inr l ↦
      let t : is_transient r.status ≡ true = rw (l) at p in rw (l, t, g) (h (some (r, c.elapsed n)))
]

answered :
    (c : Call) (n : ℕ) (r : Response) (last : Option (Response × ℕ))
    (rest : Option (Response × ℕ) → Acts)
    → is_passing (ok r) ≡ false
    → (tried c n (ok r) last rest).1 ≡ ok (settle c r (c.elapsed n) n)
unfolding tried on_response
answered c n r last rest p =
    let l : is_limited r.status ≡ false = ground arith in
    let t : is_transient r.status ≡ false = ground arith in rw (l, t) refl

-- From attempt n on, the k-th attempt is the one that answers.
answers_from :
    (c : Call) (left n k : ℕ) (last : Option (Response × ℕ)) (r : Response)
    → is_idempotent c ≡ true
    → n + left ≡ c.max_attempts
    → n ≤ k
    → k < c.max_attempts
    → ((j : ℕ) → c.acquire j ≡ ok tt)
    → ((j : ℕ) → ltb j k ≡ true → is_passing (c.send j) ≡ true)
    → c.send k ≡ ok r
    → is_passing (ok r) ≡ false
    → (attempts_from c left n last).1 ≡ ok (settle c r (c.elapsed k) k)
unfolding attempts_from attempt is_final
answers_from c zero n k last r g m a b q h s p = absurd (omega arith)
answers_from c (suc left) n k last r g m a b q h s p =
    let rest : Option (Response × ℕ) → Acts = λ l. attempts_from c left (n + 1) l in
    elim (Bool-cases (ltb n k)) [
      | inl e ↦
          let f : is_final c n ≡ false = ground arith in
          rw (q n) (
            passing_on c n (c.send n) last rest (ok (settle c r (c.elapsed k) k)) g f (h n e)
              (λ l. answers_from c left (n + 1) k l r g (omega arith) (ground arith) b q h s p))
      | inr e ↦
          let here : n ≡ k = ground arith in
          let back : c.send n ≡ ok r = ap (λ x. c.send x) here ∙ s in
          rw (q n, back)
            (answered c n r last rest p ∙ ap (λ x. ok (settle c r (c.elapsed x) x)) here)
    ]

-- A read gets through: if the limiter lets it, the attempts before the k-th failed in a way that
-- passes (an exception, a 429, or a 500, 502, 503 or 504), and the k-th of them, one that is
-- allowed, was answered otherwise, then that answer is returned, as the one of attempt k + 1.
pub request-answers :
    (c : Call) (k : ℕ) (r : Response)
    → is_idempotent c ≡ true
    → k < c.max_attempts
    → ((j : ℕ) → c.acquire j ≡ ok tt)
    → ((j : ℕ) → ltb j k ≡ true → is_passing (c.send j) ≡ true)
    → c.send k ≡ ok r
    → is_passing (ok r) ≡ false
    → (request c).1 ≡ ok (settle c r (c.elapsed k) k)
unfolding request
request-answers c k r g b q h s p =
    answers_from c c.max_attempts 0 k none r g (omega arith) (omega arith) b q h s p
