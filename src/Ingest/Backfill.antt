-- ===== src/Ingest/Backfill.antt =====
-- ingest.py: `note_parent`, `_drain_second`, and the part of `backfill` that pages a collection by
-- `updated_at`, one bounded unit at a time.
use pcomirror.Store.{from_backfill}
use Prim.Native.Nat.{◌+◌}
use pcomirror.Prelude.{
  ℕ, zero, suc, String, Bool, true, false, Option, none, some, List, [], ◌∷◌, ◌==◌, ◌&&◌, ◌||◌, not,
  if◌then◌else◌, contains, length, ltb, leb, is_text, or_default,
}
use pcomirror.Result.{Result, ok, err, ingest_error, value_error, ◌>>=◌}
use pcomirror.Json.{Json, str, item, get, or_obj, truthy, iterate}
use pcomirror.Registry.{Resource}
use pcomirror.Store.{Row}
use pcomirror.Client.Request.{is_ok}
use pcomirror.Webhooks.State.{World, Db, get_key, set_key}
use pcomirror.Writer.Route.{route_page}
use pcomirror.Ingest.Remote.{
  Remote, Param, per_page, offset, ordered_by, since, before, page_of, body_of, listed, add_ids,
  Step, ◌and◌, reading,
}
use pcomirror.Ingest.Hydrate.{include_param}
use pcomirror.Ingest.Mergers.{str_of, later_of, as_text}
use pcomirror.Ingest.Walk.{in_db}

-- The row of `mirror_sync_state`: NULL is `none`, and of the ids it is the empty list. The ids stand
-- for the set that the column's JSON text lists; which texts are in it is all that is read.
pub record Sync : Type 0 where
  pub phase : String
  pub backfill_cursor_ts : Option String
  pub backfill_seen_ids : List String
  pub backfill_completed_at : Option String
  pub reconcile_watermark : Option String
  pub reconcile_cursor : Option String
  pub last_sweep_completed_at : Option String
  pub updated_at : String

pub record Stored : Type 0 where
  pub db : Db
  pub sync : Sync

-- What is stored, and what came out or was raised.
abbrev pub Filling : Type 0 → Type 0
Filling A = Stored × Result A

infixl 5 ◌filling◌
abbrev pub ◌filling◌ : {A B : Type 0} → Filling A → (A → Stored → Filling B) → Filling B
(s, ok a) filling f = f a s
(s, err e) filling f = (s, err e)

abbrev pub on_tables : {A : Type 0} → Stored → (List Row → Step A) → Filling A
on_tables s step = let (db, out) = in_db s.db step in (record s { db = db }, out)

-- What a backfill asks of: the n-th page is asked of `answers n`, together with what drains the
-- second that the page ends in. `next_second` is `_plus_one_second`'s reading and writing of a
-- time, and `fuel` bounds the pages of one second.
pub record Feed : Type 0 where
  pub world : World
  pub answers : ℕ → Remote
  pub next_second : String → Result String
  pub fuel : ℕ
  pub resource : Resource

abbrev pub org_meta_key : String
org_meta_key = "organization_id"

-- `(body.get("meta") or {}).get("parent") or {}`, its type and its id
unfoldable pub parent_in : Json → Result (Json × Json)
parent_in body = do
  m ← get "meta" body
  p ← get "parent" (or_obj m)
  kind ← get "type" (or_obj p)
  i ← get "id" (or_obj p)
  ok (kind, i)

abbrev pub is_organization : Json → Bool
is_organization (str s) = s == "Organization"
is_organization _ = false

unfoldable pub note_org : World → Json × Json → Db → Db
unfolding str_of
note_org w (kind, i) db =
    if is_organization kind && truthy i
    then if is_text (get_key org_meta_key db.meta) (str_of w i)
      then db
      else record db { meta = set_key org_meta_key (str_of w i) db.meta }
    else db

unfoldable pub note_parent : World → Json → Stored → Filling (Unit {0})
unfolding parent_in note_org
note_parent w body s = elim (parent_in body) [
  | err e ↦ (s, err e)
  | ok p ↦ (record s { db = note_org w p s.db }, ok tt)
]

-- `_drain_second`. The result says whether the fuel was enough.
unfoldable pub drain_second : Feed → Remote → String → String → ℕ → ℕ → List Row → Step Bool
unfolding include_param page_of add_ids
drain_second f remote second end_of zero off rs = (rs, ok false)
drain_second f remote second end_of (suc fuel) off rs =
    reading
      (remote f.resource.endpoint (
        ordered_by "updated_at"
        ∷ per_page 100
        ∷ offset off
        ∷ since "updated_at" second
        ∷ before "updated_at" end_of
        ∷ include_param f.resource.includes))
      rs
    and (λ resp rs1. reading (page_of f.world resp) rs1 and (λ page rs2.
        route_page f.world.env from_backfill [] none page.0 rs2 and (λ n rs3.
          reading (do ds ← iterate page.1; seen ← add_ids ds []; ok ds) rs3 and (λ ds rs4.
            if ltb (length ds) 100
            then (rs4, ok true)
            else drain_second f remote second end_of fuel (off + 100) rs4))))

-- `d["attributes"]["updated_at"]`, which is a text.
unfoldable pub stamps_of : List Json → Result (List String)
unfolding as_text
stamps_of [] = ok []
stamps_of (d ∷ ds) = do
  a ← item "attributes" d
  at ← item "updated_at" a
  text ← as_text at
  rest ← stamps_of ds
  ok (text ∷ rest)

-- `max(uats)`, of a list that starts with `u`
unfoldable pub latest : String → List String → String
unfolding later_of
latest u [] = u
latest u (v ∷ us) = latest (later_of u v) us

-- The id of a listed resource; what is no text is equal to no id that was seen.
unfoldable pub id_text : Json → Option String
id_text d = elim (item "id" d) [ ok (str i) ↦ some i | _ ↦ none ]

unfoldable pub any_fresh : List String → List Json → Bool
unfolding id_text
any_fresh seen [] = false
any_fresh seen (d ∷ ds) =
    elim (id_text d) [ none ↦ true | some i ↦ not (contains seen i) ] || any_fresh seen ds

-- The ids of those that were updated at the time `top`.
unfoldable pub updated_at_top : String → List Json → List String → List String
unfolding id_text
updated_at_top top (d ∷ ds) (u ∷ us) =
    let rest = updated_at_top top ds us in
    if u == top then elim (id_text d) [ none ↦ rest | some i ↦ i ∷ rest ] else rest
updated_at_top top _ _ = []

-- After a page: the backfill ends at this time, it goes on from this time with these ids seen, or
-- the second did not end within the fuel.
pub data Turn : Type 0 where
  last : String → Turn
  more : String → List String → Turn
  cut : Turn

-- A second with more than a page in it is read as a whole before the cursor passes it.
unfoldable pub drain_full : Feed → Remote → String → List Row → Step Turn
unfolding drain_second
drain_full f remote cursor rs = reading (f.next_second cursor) rs and (λ end_of rs1.
    drain_second f remote cursor end_of f.fuel 0 rs1
    and (λ drained rs2. (rs2, ok (if drained then more end_of [] else cut))))

unfoldable pub turn_after :
    Feed → Remote → String → List String → List Json → List String → List Row → Step Turn
unfolding drain_full latest any_fresh updated_at_top
turn_after f remote cursor seen ds [] rs = (rs, err (value_error "max"))
turn_after f remote cursor seen ds (u ∷ us) rs =
    let top = latest u us in
    if top == cursor && (leb 100 (length ds) && leb (length ds) 100)
    then drain_full f remote cursor rs
    else if not (any_fresh seen ds) && ltb (length ds) 100
    then (rs, ok (last top))
    else (rs, ok (more top (updated_at_top top ds (u ∷ us))))

-- What is listed, once every id and time of it is read.
unfoldable pub entries_in : Json → Result (List Json × List String)
unfolding add_ids stamps_of
entries_in data' = do ds ← iterate data'; ids ← add_ids ds []; us ← stamps_of ds; ok (ds, us)

-- The page's records, once they are listed.
unfoldable pub take_page : Feed → Remote → String → List String → Json × Json → List Row → Step Turn
unfolding entries_in turn_after
take_page f remote cursor seen (body, data') rs =
    if truthy data'
    then route_page f.world.env from_backfill [] none body rs and (λ n rs1.
      reading (entries_in data') rs1
      and (λ page rs2. turn_after f remote cursor seen page.0 page.1 rs2))
    else (rs, ok (last cursor))

abbrev pub page_params : Feed → String → List Param
page_params f cursor =
    ordered_by "updated_at"
    ∷ per_page 100
    ∷ (if cursor == ""
        then include_param f.resource.includes
        else since "updated_at" cursor ∷ include_param f.resource.includes)

-- One turn of the loop, up to what it keeps.
unfoldable pub backfill_page : Feed → ℕ → String → List String → Stored → Filling Turn
unfolding include_param body_of listed note_parent take_page
backfill_page f n cursor seen s =
    (s, f.answers n f.resource.endpoint (page_params f cursor)) filling (λ resp s1.
      if is_ok resp
      then (s1, body_of f.world resp) filling (λ body s2.
          note_parent f.world body s2 filling (λ u s3. (s3, listed body) filling (λ data' s4.
            on_tables s4 (λ rs. take_page f (f.answers n) cursor seen (body, data') rs))))
      else (s1, err (ingest_error f.resource.endpoint)))

-- `self._set(name, phase="backfilling", backfill_cursor_ts=…, backfill_seen_ids=…)`
abbrev pub keep_place : World → String → List String → Stored → Stored
keep_place w cursor seen s = record s {
  sync = record s.sync {
    phase = "backfilling";
    backfill_cursor_ts = some cursor;
    backfill_seen_ids = seen;
    updated_at = w.env.now;
  };
}

-- `self._set(name, phase="streaming", …)`
abbrev pub complete : World → String → Stored → Stored
complete w cursor s = record s {
  sync = record s.sync {
    phase = "streaming";
    backfill_completed_at = some w.env.now;
    backfill_cursor_ts = some cursor;
    reconcile_watermark = some cursor;
    reconcile_cursor = some cursor;
    updated_at = w.env.now;
  };
}

-- The backfill is over, its pages are used up, or a second did not end within the fuel.
pub data End : Type 0 where
  finished stopped unfinished : End

-- What follows a page: the end, the rest of the loop, or nothing.
unfoldable pub after_turn :
    Feed → (String → List String → Stored → Filling End) → Turn → Stored → Filling End
after_turn f rest (last c) s = (complete f.world c s, ok finished)
after_turn f rest (more c ids) s = rest c ids (keep_place f.world c ids s)
after_turn f rest cut s = (s, ok unfinished)

-- The loop, for so many pages. The number of records that it applied, a figure for the log, is left
-- out.
unfoldable pub backfill_pages : Feed → ℕ → ℕ → String → List String → Stored → Filling End
unfolding backfill_page after_turn
backfill_pages f zero n cursor seen s = (keep_place f.world cursor seen s, ok stopped)
backfill_pages f (suc left) n cursor seen s =
    backfill_page f n cursor seen s filling after_turn f (backfill_pages f left (n + 1))

-- A unit of the backfill, from the place that is stored; its first page is the n-th.
unfoldable pub backfill_unit : Feed → (max_pages : ℕ) → ℕ → Stored → Filling End
unfolding backfill_pages
backfill_unit f max_pages n s =
    backfill_pages f max_pages n (or_default s.sync.backfill_cursor_ts "") s.sync.backfill_seen_ids
      s

-- What follows a unit that used its pages up; otherwise the backfill is over, or was given up.
unfoldable pub next_with : (Stored → Filling End) → End → Stored → Filling End
next_with rest stopped s = rest s
next_with rest finished s = (s, ok finished)
next_with rest unfinished s = (s, ok unfinished)

-- Units of one more page than each number says, every one from the place that the last one stored:
-- the scheduler's cold lane, tick after tick.
unfoldable pub backfill_units : Feed → List ℕ → ℕ → ℕ → Stored → Filling End
unfolding backfill_unit next_with
backfill_units f [] l n s = backfill_unit f (suc l) n s
backfill_units f (m ∷ ms) l n s =
    backfill_unit f (suc m) n s filling next_with (backfill_units f ms l (n + suc m))
