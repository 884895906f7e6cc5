-- ===== src/Ingest/Descend.antt =====
-- ingest.py: `_descending_sweep`, for a collection that is listed newest first and has no filter.
use pcomirror.Store.{from_reconcile}
use Prim.Native.Nat.{◌+◌}
use pcomirror.Prelude.{
  ℕ, zero, suc, String, Bool, true, false, Option, none, some, List, [], ◌∷◌, ◌==◌, ◌||◌, not,
  if◌then◌else◌, length, ltb, or_default, text_lt,
}
use pcomirror.Result.{Result, ok, ◌>>=◌}
use pcomirror.Json.{Json, item}
use pcomirror.Registry.{Resource}
use pcomirror.Store.{Row}
use pcomirror.Webhooks.State.{World}
use pcomirror.Writer.Route.{route}
use pcomirror.Ingest.Remote.{Remote, per_page, offset, ordered_by, Step, ◌and◌, reading, writing}
use pcomirror.Ingest.Refresh.{entries_of}
use pcomirror.Ingest.Mergers.{later_of, as_text}
use pcomirror.Ingest.Backfill.{Stored, Filling, ◌filling◌, on_tables}

-- `d["attributes"]["updated_at"]`
unfoldable pub time_of : Json → Result Json
time_of d = do a ← item "attributes" d; item "updated_at" a

-- `wm0 and uat <= wm0`
unfoldable pub is_old : String → Json → Result Bool
unfolding as_text
is_old wm j = if wm == "" then ok false else do at ← as_text j; ok (not (text_lt wm at))

-- The newest time so far, and how many records were applied.
abbrev pub Tally : Type 0
Tally = String × ℕ

-- The loop over the records of a page. The result says whether it met one that is not newer than
-- the watermark.
unfoldable pub descend : World → String → List Json → Tally → List Row → Step (Tally × Bool)
unfolding time_of is_old later_of
descend w wm [] acc rs = (rs, ok (acc, false))
descend w wm (d ∷ ds) acc rs = reading (time_of d) rs and (λ j rs1.
    reading (is_old wm j) rs1 and (λ old rs2.
      if old
      then (rs2, ok (acc, true))
      else writing (route w.env from_reconcile none [] d rs2) rs2 and (λ u rs3.
        reading (as_text j) rs3
        and (λ at rs4. descend w wm ds (later_of acc.0 at, acc.1 + 1) rs4))))

-- What a page lists. Its status is not looked at.
unfoldable pub entries_at : World → Remote → Resource → ℕ → Result (List Json)
unfolding entries_of
entries_at w remote r off = do
  resp ← remote r.endpoint (ordered_by "-updated_at" ∷ per_page 100 ∷ offset off ∷ [])
  entries_of w resp

-- The loop over the pages, with fuel for the answers that never end.
unfoldable pub descend_pages :
    World → Remote → Resource → String → ℕ → ℕ → Tally → List Row → Step (Option Tally)
unfolding entries_at descend
descend_pages w remote r wm zero off acc rs = (rs, ok none)
descend_pages w remote r wm (suc fuel) off acc rs =
    reading (entries_at w remote r off) rs and (λ ds rs1. descend w wm ds acc rs1 and (λ out rs2.
      if ltb (length ds) 100 || out.1
      then (rs2, ok (some out.0))
      else descend_pages w remote r wm fuel (off + 100) out.0 rs2))

-- `self._set(r.name, reconcile_watermark=hi, reconcile_cursor=hi, …)`
abbrev pub swept : World → String → Stored → Stored
swept w hi s = record s {
  sync = record s.sync {
    reconcile_watermark = some hi;
    reconcile_cursor = some hi;
    last_sweep_completed_at = some w.env.now;
    updated_at = w.env.now;
  };
}

-- The end of the sweep. One that the fuel cut off stores no watermark.
unfoldable pub settle_sweep : World → Option Tally → Stored → Filling (Option ℕ)
settle_sweep w none s = (s, ok none)
settle_sweep w (some (hi, applied)) s = (swept w hi s, ok (some applied))

-- `_descending_sweep`. The result is the number of records applied.
unfoldable pub descending_sweep : World → Remote → ℕ → Resource → Stored → Filling (Option ℕ)
unfolding descend_pages settle_sweep
descending_sweep w remote fuel r s =
    let wm = or_default s.sync.reconcile_watermark "" in
    on_tables s (λ rs. descend_pages w remote r wm fuel 0 (wm, 0) rs) filling settle_sweep w
