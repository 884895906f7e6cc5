-- ===== src/Client/Sends.antt =====
-- pcoclient.py: how often a request is sent.
use pcomirror.Prelude.{
  ℕ, zero, suc, ◌+◌, Bool, true, false, Option, none, some, List, [], ◌∷◌, ◌++◌, ◌≡◌, refl, inl,
  inr, Bool-cases, ap, not, ◌&&◌, if◌then◌else◌, ◌⊎◌,
}
use pcomirror.Result.{Exn, Result, ok, err, Result-cases}
use pcomirror.Client.Request.{
  Response, Call, Act, acquired, sent, told, told_429, recorded, slept, Acts, note_if, on_raise,
  on_response, exhausted, attempt, tried, attempts_from, request, is_limited, is_transient,
  is_idempotent, is_ok,
}

-- Did the attempt reach Planning Center, as far as the client can tell: was it not answered by 429?
abbrev pub may_land : Result Response → Bool
may_land (err x) = true
may_land (ok r) = not (is_limited r.status)

-- How many of the sends may have reached Planning Center.
abbrev pub landed : Call → List Act → ℕ
landed c [] = 0
landed c (sent n ∷ more) = if may_land (c.send n) then landed c more + 1 else landed c more
landed c (acquired ∷ more) = landed c more
landed c (told hs ∷ more) = landed c more
landed c (told_429 t ∷ more) = landed c more
landed c (recorded n b ∷ more) = landed c more
landed c (slept n ∷ more) = landed c more

landed-note_if :
    (c : Call) (b : Bool) (n : ℕ) (retry : Bool) (more : List Act)
    → landed c (note_if b n retry ++ more) ≡ landed c more
unfolding note_if
landed-note_if c true n retry more = refl
landed-note_if c false n retry more = refl

-- Where a write is not refused by the limiter of Planning Center, it is the last attempt.
write_raises :
    (c : Call) (n : ℕ) (x : Exn) (rest : Acts)
    → is_idempotent c ≡ false
    → landed c (on_raise c n x rest).0 ≡ 0
unfolding on_raise
write_raises c n x rest e = rw (e) (landed-note_if c c.record_outcome n false [])

write_answered :
    (c : Call) (n : ℕ) (r : Response) (rest : Acts)
    → is_idempotent c ≡ false
    → is_limited r.status ≡ false
    → landed c (on_response c n r rest).0 ≡ 0
unfolding on_response
write_answered c n r rest e l = elim (Bool-cases (is_transient r.status)) [
  | inl t ↦ rw (e, l, t) (landed-note_if c c.record_outcome n false [])
  | inr t ↦ rw (e, l, t) (landed-note_if c (not (is_ok r) && c.record_outcome) n false [])
]

write_limited :
    (c : Call) (n : ℕ) (r : Response) (rest : Acts)
    → is_limited r.status ≡ true
    → landed c (on_response c n r rest).0 ≡ landed c rest.0
unfolding on_response
write_limited c n r rest l = rw (l) refl

-- At most one.
abbrev pub AtMostOne : ℕ → Type 0
AtMostOne m = (m ≡ 0) ⊎ (m ≡ 1)

-- The count for an attempt that was sent, by what the transport did.
counted : Call → Result Response → List Act → ℕ
counted c sent_back more = if may_land sent_back then landed c more + 1 else landed c more

tried-landed :
    (c : Call) (n : ℕ) (sent_back : Result Response) (last : Option (Response × ℕ))
    (rest : Option (Response × ℕ) → Acts)
    → is_idempotent c ≡ false
    → ((l : Option (Response × ℕ)) → AtMostOne (landed c (rest l).0))
    → AtMostOne (counted c sent_back (tried c n sent_back last rest).0)
unfolding tried counted
tried-landed c n (err x) last rest e h = inr (ap (λ m. m + 1) (write_raises c n x (rest last) e))
tried-landed c n (ok r) last rest e h =
    let more = rest (some (r, c.elapsed n)) in
    elim (Bool-cases (is_limited r.status)) [
      | inl l ↦ rw (l, write_limited c n r more l) (h (some (r, c.elapsed n)))
      | inr l ↦ rw (l) (inr (ap (λ m. m + 1) (write_answered c n r more e l)))
    ]

attempts_from-landed :
    (c : Call) (k n : ℕ) (last : Option (Response × ℕ))
    → is_idempotent c ≡ false
    → AtMostOne (landed c (attempts_from c k n last).0)
unfolding attempts_from exhausted attempt counted
attempts_from-landed c zero n none e = inl refl
attempts_from-landed c zero n (some (r, s)) e = inl refl
attempts_from-landed c (suc k) n last e = elim (Result-cases (c.acquire n)) [
  | inr (x, a) ↦ rw (a) (inl refl)
  | inl (u, a) ↦ rw (a) (
      tried-landed c n (c.send n) last (λ l. attempts_from c k (n + 1) l) e
        (λ l. attempts_from-landed c k (n + 1) l e))
]

-- A write (any method but GET) may have reached Planning Center at most once in a request: however
-- often it is sent, at most one send was not refused by a 429.
pub request-write_once : (c : Call) → is_idempotent c ≡ false → AtMostOne (landed c (request c).0)
unfolding request
request-write_once c e = attempts_from-landed c c.max_attempts 0 none e
