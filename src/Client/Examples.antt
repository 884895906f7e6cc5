-- ===== src/Client/Examples.antt =====
-- The client's theorems at a limited write, and at a read that gets through on its third attempt.
use pcomirror.Prelude.{ℕ, String, true, none, [], ◌≡◌, refl, ltb, if◌then◌else◌, arith}
use pcomirror.Result.{Result, ok, err, io_error}
use pcomirror.Client.Request.{
  Response, Call, request, is_idempotent, settle, is_limited, is_transient,
}
use pcomirror.Client.Sends.{landed, AtMostOne, request-write_once}
use pcomirror.Client.Answers.{request-answers}

abbrev response : ℕ → Response
response status = record {
  status = status;
  headers = [];
  body = "";
  request_id = none;
  duration_ms = none;
  attempts = 1;
}

abbrev call : String → (ℕ → Result Response) → Call
call method send = record {
  method = method;
  max_attempts = 6;
  record_outcome = true;
  acquire = λ n. ok tt;
  send = send;
  elapsed = λ n. 12;
  id_header = λ hs. none;
}

-- Refused twice by a 429, then answered by a 502.
abbrev write : Call
write = call "POST" (λ n. if ltb n 2 then ok (response 429) else ok (response 502))

-- An unreachable host, twice, then an answer.
abbrev read : Call
read = call "GET" (λ n. if ltb n 2 then err (io_error "reset") else ok (response 200))

request-write_once_example : AtMostOne (landed write (request write).0)
unfolding is_idempotent
request-write_once_example = request-write_once write refl

request-answers_example : (request read).1 ≡ ok (settle read (response 200) 12 2)
unfolding is_idempotent is_limited is_transient
request-answers_example =
    request-answers read 2 (response 200) refl (omega arith) (λ j. refl) (λ j p. rw (p) refl) refl
      refl
