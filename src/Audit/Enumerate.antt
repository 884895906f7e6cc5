-- ===== src/Audit/Enumerate.antt =====
-- ingest.py: `delete_audit_step`, the start of a round and its enumeration.
use Prim.Native.Nat.{◌+◌}
use pcomirror.Prelude.{
  ℕ, zero, suc, String, Bool, true, false, Option, none, some, List, [], ◌∷◌, ◌++◌, ◌==◌, ◌&&◌, not,
  if◌then◌else◌, leb, ltb, length, text_lt, or_default,
}
use pcomirror.Result.{Result, ok, err, type_error, ◌>>=◌}
use pcomirror.Json.{Json, null, str, item}
use pcomirror.Registry.{Resource}
use pcomirror.Store.{Row}
use pcomirror.Webhooks.State.{bind, World}
use pcomirror.Ingest.Remote.{Remote, Param, per_page, offset, since, ordered_by, fields}
use pcomirror.Ingest.Walk.{live_in, ids_where}
use pcomirror.Ingest.Refresh.{entries_of}
use pcomirror.Audit.Round.{
  Round, Audit, confirm, Mode, keyset, by_offset, first_round, save, Going, ◌going◌, insert_id,
  delete_ids,
}

-- The answers of one step: `answers left` are those to the request that leaves `left` of the budget.
abbrev pub Answers : Type 0
Answers = ℕ → Remote

abbrev pub in_table : String → Row → Bool
in_table t row = row.table == t

-- The candidates are taken before the enumeration begins.
unfoldable pub begin : World → Resource → Audit → Audit
begin w r a = record a {
  last_audit_started_at = some w.env.now;
  candidates = ids_where (live_in r.table (λ raw. true)) a.db.rows;
  known = ids_where (in_table r.table) a.db.rows;
  live = [];
  round = some first_round;
}

-- `if "mode" not in state`
unfoldable pub mode_of : Resource → Round → Mode
mode_of r st = or_default st.mode (if r.supports_cat_filter then keyset else by_offset)

-- `if state["cursor"]`
unfoldable pub has_cursor : Round → Bool
has_cursor st = elim st.cursor [ none ↦ false | some c ↦ not (c == "") ]

since_cursor : Round → List Param
unfolding has_cursor
since_cursor st = if has_cursor st then since "created_at" (or_default st.cursor "") ∷ [] else []

at_offset : Round → List Param
at_offset st = if leb 1 st.offset then offset st.offset ∷ [] else []

unfoldable pub audit_params : Resource → Round → List Param
unfolding mode_of since_cursor at_offset
audit_params r st =
    ordered_by "created_at" ∷ per_page 100 ∷ fields r.kind "created_at" ∷ elim (mode_of r st) [
      | keyset ↦ since_cursor st ++ at_offset st
      | by_offset ↦ offset st.offset ∷ []
    ]

-- `d["id"]`, bound to a column
unfoldable pub id_in : Json → Result (Option String)
id_in d = do i ← item "id" d; bind i

-- INSERT OR IGNORE, which also ignores a NULL in a column that is NOT NULL
unfoldable pub insert_bound : Option String → List String → List String
unfolding insert_id
insert_bound none is = is
insert_bound (some i) is = insert_id i is

-- INSERT OR IGNORE … 'live', one resource after another
unfoldable pub insert_live : List Json → Audit → Going (Unit {0})
unfolding id_in insert_bound
insert_live [] a = (a, ok tt)
insert_live (d ∷ ds) a =
    (a, id_in d) going (λ o a1. insert_live ds (record a1 { live = insert_bound o a1.live }))

-- How a page was read: the filter is ignored and the enumeration starts over, or it goes on, or the
-- page was the last.
pub data Turn : Type 0 where
  restarted more finished : Round → Turn

-- `data[-1]["attributes"]["created_at"]`
time_of : Json → Result (Option String)
time_of null = ok none
time_of (str s) = ok (some s)
time_of _ = err type_error

unfoldable pub last_time : Json → List Json → Result (Option String)
unfolding time_of
last_time d [] = do a ← item "attributes" d; at ← item "created_at" a; time_of at
last_time d (e ∷ es) = last_time e es

-- `page_max < state["cursor"]`
unfoldable pub is_behind : Option String → Option String → Result Bool
is_behind (some p) (some c) = ok (text_lt p c)
is_behind (some p) none = err type_error
is_behind none c = err type_error

-- `page_max == state["cursor"]`
unfoldable pub same_time : Option String → Option String → Bool
same_time (some p) (some c) = p == c
same_time none none = true
same_time (some p) none = false
same_time none (some c) = false

-- The cursor and the offset after a page that is not behind the cursor.
unfoldable pub moved : Mode → Option String → ℕ → Round → Round
moved by_offset page_max n st = record st { offset = st.offset + n }
moved keyset page_max n st =
    if leb 100 n && leb n 100 && same_time page_max st.cursor
    then record st { offset = st.offset + n }
    else record st { cursor = page_max; offset = 0 }

abbrev pub start_over : Round → Round
start_over st = record st { mode = some by_offset; cursor = some ""; offset = 0 }

abbrev pub turn_of : ℕ → Round → Turn
turn_of n st = if ltb n 100 then finished (record st { phase = confirm }) else more st

-- Is the page behind the cursor, which an honoured filter does not let be?
unfoldable pub is_ignored : Mode → Option String → Round → Result Bool
unfolding is_behind has_cursor
is_ignored by_offset page_max st = ok false
is_ignored keyset page_max st = if has_cursor st then is_behind page_max st.cursor else ok false

unfoldable pub turn : Resource → Round → List Json → Result Turn
unfolding is_ignored moved last_time mode_of
turn r st [] = ok (turn_of 0 (record st { mode = some (mode_of r st) }))
turn r st (d ∷ ds) = do
  page_max ← last_time d ds
  ignored ← is_ignored (mode_of r st) page_max st
  ok (
      if ignored
      then restarted (start_over st)
      else turn_of (length (d ∷ ds)) (
          moved (mode_of r st) page_max (length (d ∷ ds))
            (record st { mode = some (mode_of r st) })))

-- What is still listed needs no confirming, and what is already known no restoring.
unfoldable pub settle_sets : Audit → Audit
unfolding delete_ids
settle_sets a = record a {
  candidates = delete_ids a.live a.candidates;
  live = delete_ids a.known a.live;
}

unfoldable pub read_page : World → Remote → Resource → Round → Audit → Going Turn
unfolding audit_params insert_live turn
read_page w remote r st a =
    (a, remote r.endpoint (audit_params r st))
    going (λ resp a1. (a1, entries_of w resp))
    going (λ ds a2. insert_live ds a2 going (λ u a3. (a3, turn r st ds)))

unfoldable pub enumerate_pages : World → Answers → Resource → ℕ → Round → Audit → Going (ℕ × Round)
unfolding read_page settle_sets
enumerate_pages w answers r zero st a = (save st a, ok (zero, st))
enumerate_pages w answers r (suc left) st a = read_page w (answers left) r st a going (λ out a1.
    elim out [
      | restarted st' ↦ enumerate_pages w answers r left st' (save st' a1)
      | more st' ↦ enumerate_pages w answers r left st' (save st' a1)
      | finished st' ↦ (save st' (settle_sets a1), ok (left, st'))
    ])
