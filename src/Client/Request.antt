-- ===== src/Client/Request.antt =====
-- pcoclient.py: `PcoClient.request`, as the list of what it does and what it returns.
use Prim.Native.Nat.{◌+◌, ◌-◌, ◌^◌, min}
use pcomirror.Prelude.{
  ℕ, zero, suc, String, Bool, false, Option, none, some, List, [], ◌∷◌, ◌++◌, ◌==◌, ◌&&◌, ◌||◌, not,
  if◌then◌else◌, leb, ltb,
}
use pcomirror.Result.{Exn, Result, ok, err, io_error}

pub record Response : Type 0 where
  pub status : ℕ
  pub headers : List (String × String)
  pub body : String
  pub request_id : Option String
  pub duration_ms : Option ℕ
  pub attempts : ℕ

-- `Response.ok`
unfoldable pub is_ok : Response → Bool
is_ok r = leb 200 r.status && ltb r.status 300

-- What a call of `request` is made of. `acquire` and `send` are what the limiter and the transport
-- do on the n-th attempt: they return, or they raise. `elapsed` is the clock's, and `id_header` is
-- `pick_headers(…).get("x-request-id")` of `diagnostics`.
pub record Call : Type 0 where
  pub method : String
  pub max_attempts : ℕ
  pub record_outcome : Bool
  pub acquire : ℕ → Result (Unit {0})
  pub send : ℕ → Result Response
  pub elapsed : ℕ → ℕ
  pub id_header : List (String × String) → Option String

-- What a call does, in order. `told` and `told_429` are the limiter's `on_response` and `on_429`,
-- `recorded` is a line of the recorder with its `will_retry`.
pub data Act : Type 0 where
  acquired : Act
  sent : ℕ → Act
  told : List (String × String) → Act
  told_429 : Option String → Act
  recorded : ℕ → Bool → Act
  slept : ℕ → Act

abbrev pub Acts : Type 0
Acts = List Act × Result Response

abbrev pub header : String → List (String × String) → Option String
header k [] = none
header k ((j, v) ∷ hs) = if j == k then some v else header k hs

-- `headers.get("Retry-After") or headers.get("retry-after")`
first_text : Option String → Option String → Option String
first_text none b = b
first_text (some a) b = if a == "" then b else some a

unfoldable pub retry_after : List (String × String) → Option String
unfolding first_text
retry_after hs = first_text (header "Retry-After" hs) (header "retry-after" hs)

unfoldable pub is_transient : ℕ → Bool
is_transient s =
    leb 500 s && leb s 500
    || leb 502 s && leb s 502
    || leb 503 s && leb s 503
    || leb 504 s && leb s 504

unfoldable pub is_limited : ℕ → Bool
is_limited s = leb 429 s && leb s 429

unfoldable pub is_idempotent : Call → Bool
is_idempotent c = c.method == "GET"

-- `attempt == max_attempts - 1` for an attempt of the loop.
unfoldable pub is_final : Call → ℕ → Bool
is_final c n = leb c.max_attempts (n + 1)

unfoldable pub settle : Call → Response → ℕ → ℕ → Response
settle c r elapsed attempt = record r {
  request_id = c.id_header r.headers;
  duration_ms = some elapsed;
  attempts = attempt + 1;
}

-- After the acts, the rest.
abbrev pub after : List Act → Acts → Acts
after first (more, r) = (first ++ more, r)

unfoldable pub note_if : Bool → ℕ → Bool → List Act
note_if b n retry = if b then recorded n retry ∷ [] else []

-- A raised exception of the transport.
unfoldable pub on_raise : Call → ℕ → Exn → Acts → Acts
unfolding note_if
on_raise c n x rest =
    let last = not (is_idempotent c) || is_final c n in
    after (note_if (not last || c.record_outcome) n (not last))
      (if last then ([], err x) else after (slept (min 30 (2 ^ n)) ∷ []) rest)

-- A response, with what the loop does after it: `rest` where it goes on.
unfoldable pub on_response : Call → ℕ → Response → Acts → Acts
unfolding note_if
on_response c n r rest =
    let settled = ok (settle c r (c.elapsed n) n) in
    after (told r.headers ∷ []) (
      if is_limited r.status
      then after
          (told_429 (retry_after r.headers)
            ∷ recorded n (not (is_final c n))
            ∷ slept (min 60 (2 ^ n))
            ∷ [])
          rest
      else if is_transient r.status
      then (let retry = is_idempotent c && not (is_final c n) in
          after (note_if (retry || c.record_outcome) n retry)
            (if is_idempotent c then after (slept (min 30 (2 ^ n)) ∷ []) rest else ([], settled)))
      else after (note_if (not (is_ok r) && c.record_outcome) n false) ([], settled))

-- The end of the loop: the last response, or, where no attempt was allowed, an unbound name.
unfoldable pub exhausted : Call → Option (Response × ℕ) → ℕ → Acts
exhausted c none n = ([], err (io_error "UnboundLocalError"))
exhausted c (some (r, elapsed)) n = ([], ok (settle c r elapsed n))

-- What the transport did on the n-th attempt.
unfoldable pub tried :
    Call → ℕ → Result Response → Option (Response × ℕ) → (Option (Response × ℕ) → Acts) → Acts
tried c n (err x) last rest = on_raise c n x (rest last)
tried c n (ok r) last rest = on_response c n r (rest (some (r, c.elapsed n)))

-- An attempt, once the limiter has let it through or has raised.
unfoldable pub attempt :
    Call → ℕ → Result (Unit {0}) → Option (Response × ℕ) → (Option (Response × ℕ) → Acts) → Acts
unfolding tried
attempt c n (err x) last rest = ([], err x)
attempt c n (ok u) last rest = after (acquired ∷ sent n ∷ []) (tried c n (c.send n) last rest)

-- The loop from attempt n on, with the attempts that are left and the last response.
unfoldable pub attempts_from : Call → ℕ → ℕ → Option (Response × ℕ) → Acts
unfolding attempt
attempts_from c zero n last = exhausted c last (n - 1)
attempts_from c (suc k) n last = attempt c n (c.acquire n) last (λ l. attempts_from c k (n + 1) l)

unfoldable pub request : Call → Acts
request c = attempts_from c c.max_attempts 0 none
