-- ===== src/Audit/Settle.antt =====
-- ingest.py: `delete_audit_step`, the phases that ask about one record at a time.
use pcomirror.Store.{from_reconcile}
use Prim.Native.String.{◌++◌}
use Prim.Native.Nat.{◌+◌}
use pcomirror.Prelude.{
  ℕ, zero, suc, String, Bool, true, false, none, some, List, [], if◌then◌else◌, leb,
}
use pcomirror.Result.{Result, ok, ◌>>=◌}
use pcomirror.Json.{Json, null, get, truthy}
use pcomirror.Registry.{Resource}
use pcomirror.Store.{Row}
use pcomirror.Client.Request.{Response, is_ok}
use pcomirror.Webhooks.State.{World}
use pcomirror.Writer.Tombstone.{tombstone}
use pcomirror.Writer.Upsert.{confirm_live}
use pcomirror.Ingest.Remote.{Remote, body_of, is_absent, Step, ◌and◌, reading, writing}
use pcomirror.Ingest.Hydrate.{restore_one}
use pcomirror.Ingest.Requests.{clear_audit_request}
use pcomirror.Audit.Round.{Round, Audit, restore, save, Going, ◌going◌, delete_id, least}
use pcomirror.Audit.Enumerate.{Answers}

abbrev pub path_to : Resource → String → String
path_to r i = r.endpoint ++ ("/" ++ i)

-- `(resp.json() or {}).get("data")`
unfoldable pub object_of : World → Response → Result Json
unfolding body_of
object_of w resp = do body ← body_of w resp; get "data" body

-- What an answer about a candidate does to the tables, and whether it was a 404.
unfoldable pub confirm_answer : World → Resource → String → Response → List Row → Step Bool
unfolding object_of
confirm_answer w r i resp rs =
    if is_absent resp
    then writing (tombstone w.env r.table i null "audit_absent" none rs) rs
      and (λ u rs'. (rs', ok true))
    else if is_ok resp
    then reading (object_of w resp) rs and (λ o rs1.
      if truthy o
      then writing (confirm_live w.env r.table i o from_reconcile rs1) rs1
        and (λ u rs'. (rs', ok false))
      else (rs1, ok false))
    else (rs, ok false)

-- A step on the tables, in what is stored.
unfoldable pub on_rows : {A : Type 0} → Audit → (List Row → Step A) → Going A
on_rows a step =
    let (rs, out) = step a.db.rows in (record a { db = record a.db { rows = rs } }, out)

abbrev pub count_if : Bool → ℕ → ℕ
count_if b n = if b then n + 1 else n

unfoldable pub confirm_one : World → Remote → Resource → String → Round → Audit → Going Round
unfolding confirm_answer on_rows delete_id
confirm_one w remote r i st a =
    (a, remote (path_to r i) [])
    going (λ resp a1. on_rows a1 (λ rs. confirm_answer w r i resp rs))
    going (λ buried a2.
        let st' = record st { tombstoned = count_if buried st.tombstoned } in
        (save st' (record a2 { candidates = delete_id i a2.candidates }), ok st'))

unfoldable pub confirm_loop : World → Answers → Resource → ℕ → Round → Audit → Going (ℕ × Round)
unfolding confirm_one least
confirm_loop w answers r zero st a = (save st a, ok (zero, st))
confirm_loop w answers r (suc left) st a = elim (least a.candidates) [
  | none ↦ (save (record st { phase = restore }) a, ok (suc left, record st { phase = restore }))
  | some i ↦
      confirm_one w (answers left) r i st a going (λ st' a'. confirm_loop w answers r left st' a')
]

-- `AUDIT_RESTORE_LIMIT`
abbrev pub restore_limit : ℕ
restore_limit = 500

-- The round is over: what it worked on, and what asked for it, is forgotten.
unfoldable pub finish : World → Resource → Audit → Audit
unfolding clear_audit_request
finish w r a = record a {
  candidates = [];
  known = [];
  live = [];
  round = none;
  last_audit_completed_at = some w.env.now;
  db = clear_audit_request r.name a.db;
}

-- A step's result: is the round over, and what it did so far.
pub record Outcome : Type 0 where
  pub is_done : Bool
  pub tombstoned : ℕ
  pub restored : ℕ

abbrev pub outcome : Bool → Round → Outcome
outcome b st = record { is_done = b; tombstoned = st.tombstoned; restored = st.restored }

unfoldable pub restore_next : World → Remote → Resource → String → Round → Audit → Going Round
unfolding restore_one on_rows delete_id
restore_next w remote r i st a = on_rows a (λ rs. restore_one w remote r i rs) going (λ stored a1.
    let st' = record st { restored = count_if stored st.restored } in
    (save st' (record a1 { live = delete_id i a1.live }), ok st'))

unfoldable pub restore_loop : World → Answers → Resource → ℕ → Round → Audit → Going Outcome
unfolding restore_next least finish
restore_loop w answers r zero st a = (a, ok (outcome false st))
restore_loop w answers r (suc left) st a = elim (least a.live) [
  | none ↦ (finish w r a, ok (outcome true st))
  | some i ↦
      if leb restore_limit st.restored
      then (finish w r a, ok (outcome true st))
      else restore_next w (answers left) r i st a
        going (λ st' a'. restore_loop w answers r left st' a')
]
