-- ===== src/Ingest/Sweep.antt =====
-- ingest.py: the part of `incremental_sweep` that reads what was updated since the watermark.
use pcomirror.Store.{from_reconcile}
use Prim.Native.Nat.{◌+◌}
use pcomirror.Prelude.{
  ℕ, zero, suc, String, Bool, true, Option, none, some, List, [], ◌∷◌, ◌==◌, ◌&&◌, if◌then◌else◌,
  length, ltb, leb, or_default,
}
use pcomirror.Result.{Result, ok, err, value_error, attribute_error, ◌>>=◌}
use pcomirror.Json.{Json, arr, obj, nil, has_field, lookup_field, truthy, iterate}
use pcomirror.Registry.{Resource}
use pcomirror.Store.{Row}
use pcomirror.Webhooks.State.{World}
use pcomirror.Writer.Route.{route_page}
use pcomirror.Ingest.Remote.{Remote, page_of, Step, ◌and◌, reading}
use pcomirror.Ingest.Diff.{include_diff}
use pcomirror.Ingest.Backfill.{
  Stored, Filling, ◌filling◌, on_tables, Feed, Turn, last, more, cut, drain_full, stamps_of, latest,
  page_params,
}
use pcomirror.Ingest.Descend.{swept}

-- `body.get("included", [])`
unfoldable pub included_of : Json → Result Json
included_of (obj fs) = ok (if has_field "included" fs then lookup_field "included" fs else arr nil)
included_of _ = err attribute_error

-- What each person of the page no longer has.
unfoldable pub diff_each : World → Resource → Json → List Json → List Row → Step (Unit {0})
unfolding included_of
diff_each w r body [] rs = (rs, ok tt)
diff_each w r body (d ∷ ds) rs = reading (included_of body) rs and (λ included rs1.
    include_diff w d included r.includes rs1 and (λ u rs2. diff_each w r body ds rs2))

abbrev pub diff_people : World → Resource → Json → List Json → List Row → Step (Unit {0})
diff_people w r body ds rs = if r.name == "person" then diff_each w r body ds rs else (rs, ok tt)

-- `all(… == cursor for d in data)`
unfoldable pub all_boundary : String → List String → Bool
all_boundary cursor [] = true
all_boundary cursor (u ∷ us) = u == cursor && all_boundary cursor us

-- Where the sweep goes from a page: it ends at this time, or goes on from it.
unfoldable pub sweep_turn : Feed → Remote → String → List Json → List String → List Row → Step Turn
unfolding drain_full latest all_boundary
sweep_turn f remote cursor ds [] rs = (rs, err (value_error "max"))
sweep_turn f remote cursor ds (u ∷ us) rs =
    let top = latest u us in
    if top == cursor && (leb 100 (length ds) && leb (length ds) 100)
    then drain_full f remote cursor rs
    else if all_boundary cursor (u ∷ us) && ltb (length ds) 100
    then (rs, ok (last cursor))
    else if ltb (length ds) 100
    then (rs, ok (last top))
    else (rs, ok (more top []))

-- The page's records. The transaction around the router takes nothing back, since the writer commits
-- each of its statements. The status of the answer is not looked at.
unfoldable pub sweep_page : Feed → Remote → String → Json × Json → List Row → Step (Turn × ℕ)
unfolding diff_each stamps_of sweep_turn
sweep_page f remote cursor (body, data') rs =
    if truthy data'
    then route_page f.world.env from_reconcile [] none body rs and (λ n rs1.
      reading (iterate data') rs1 and (λ ds rs2.
        diff_people f.world f.resource body ds rs2 and (λ u rs3.
          reading (stamps_of ds) rs3 and (λ us rs4.
            sweep_turn f remote cursor ds us rs4 and (λ turn rs5. (rs5, ok (turn, n)))))))
    else (rs, ok (last cursor, 0))

unfoldable pub read_since : Feed → ℕ → String → List Row → Step (Turn × ℕ)
unfolding page_of sweep_page
read_since f n cursor rs =
    reading (do resp ← f.answers n f.resource.endpoint (page_params f cursor); page_of f.world resp)
      rs
    and (λ page rs1. sweep_page f (f.answers n) cursor page rs1)

-- The loop over the pages, with fuel for the answers that never end. The watermark is stored after
-- each page, and at the end.
unfoldable pub sweep_pages : Feed → ℕ → ℕ → String → ℕ → Stored → Filling (Option ℕ)
unfolding read_since
sweep_pages f zero n cursor applied s = (s, ok none)
sweep_pages f (suc fuel) n cursor applied s = on_tables s (read_since f n cursor) filling (λ out s'.
    elim out.0 [
      | last c ↦ (swept f.world c s', ok (some (applied + out.1)))
      | more c ids ↦ sweep_pages f fuel (n + 1) c (applied + out.1) (swept f.world c s')
      | cut ↦ (s', ok none)
    ])

-- `incremental_sweep` of a collection with a filter on `updated_at`. The result is the number of
-- records applied.
unfoldable pub incremental_sweep : Feed → (fuel : ℕ) → Stored → Filling (Option ℕ)
unfolding sweep_pages
incremental_sweep f fuel s = sweep_pages f fuel 0 (or_default s.sync.reconcile_watermark "") 0 s
