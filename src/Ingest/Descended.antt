-- ===== src/Ingest/Descended.antt =====
-- ingest.py: a descending sweep does what one loop over everything that is listed does.
use pcomirror.Store.{from_reconcile}
use Prim.Native.Nat.{◌+◌}
use pcomirror.Prelude.{
  sym, Bool-cases, inl, inr, All, map, text_lt, ◌==◌, ℕ, zero, suc, String, Bool, true, false,
  Option, none, some, List, [], ◌∷◌, ◌++◌, ◌≡◌, refl, ap, ◌∙◌, arith, length, ltb, ◌<◌, or_default,
  if◌then◌else◌, ◌||◌,
}
use pcomirror.Result.{ok, err}
use pcomirror.Json.{str, item, Json}
use pcomirror.Registry.{Resource}
use pcomirror.Store.{Row}
use pcomirror.Webhooks.State.{World}
use pcomirror.Ingest.Remote.{Remote, Step, ◌and◌, reading, writing}
use pcomirror.Ingest.Backfill.{Stored, ◌filling◌, on_tables}
use pcomirror.Ingest.Walk.{in_db}
use pcomirror.Ingest.Mergers.{later_of, as_text}
use pcomirror.Writer.Route.{route}
use pcomirror.Ingest.Descend.{
  Tally, time_of, is_old, descend, entries_at, descend_pages, settle_sweep, descending_sweep,
}

-- The rest of a list, unless the loop met a record that is not newer than the watermark.
unfoldable pub unless_met :
    (Tally → List Row → Step (Tally × Bool)) → Tally × Bool → List Row → Step (Tally × Bool)
unless_met rest (acc, true) rs = (rs, ok (acc, true))
unless_met rest (acc, false) rs = rest acc rs

-- A chain whose every continuation is followed by `g` is followed by `g`.
and-then :
    {A B C : Type 0} (s : Step A) (f : A → List Row → Step C) (f' : A → List Row → Step B)
    (g : B → List Row → Step C)
    → ((a : A) (rs : List Row) → f a rs ≡ (f' a rs and g))
    → (s and f) ≡ (s and f' and g)
and-then (rs, ok a) f f' g h = h a rs
and-then (rs, err e) f f' g h = refl

and-swap :
    {A B : Type 0} (s : Step A) (f g : A → List Row → Step B)
    → ((a : A) (rs : List Row) → f a rs ≡ g a rs)
    → (s and f) ≡ (s and g)
and-swap (rs, ok a) f g h = h a rs
and-swap (rs, err e) f g h = refl

if-unless_met :
    (old : Bool) (acc : Tally) (rs : List Row) (x y : Step (Tally × Bool))
    (rest : Tally → List Row → Step (Tally × Bool))
    → x ≡ (y and unless_met rest)
    → (if old then (rs, ok (acc, true)) else x)
      ≡ ((if old then (rs, ok (acc, true)) else y) and unless_met rest)
unfolding unless_met
if-unless_met true acc rs x y rest e = refl
if-unless_met false acc rs x y rest e = e

descend-append :
    (w : World) (wm : String) (ds es : List Json) (acc : Tally) (rs : List Row)
    → descend w wm (ds ++ es) acc rs ≡ (descend w wm ds acc rs and unless_met (descend w wm es))
unfolding descend unless_met
descend-append w wm [] es acc rs = refl
descend-append w wm (d ∷ ds) es acc rs =
    let after = unless_met (descend w wm es) in
    and-then (reading (time_of d) rs) _ _ after (λ j rs1.
      and-then (reading (is_old wm j) rs1) _ _ after (λ old rs2.
        if-unless_met old acc rs2 _ _ (descend w wm es) (
          and-then (writing (route w.env from_reconcile none [] d rs2) rs2) _ _ after (λ u rs3.
            and-then (reading (as_text j) rs3) _ _ after
              (λ at rs4. descend-append w wm ds es (later_of acc.0 at, acc.1 + 1) rs4)))))

-- The pages of the collection, from an offset on: each but the last is full.
abbrev pub IsListed : World → Remote → Resource → ℕ → List Json → List (List Json) → Type 0
IsListed w remote r off p [] = (entries_at w remote r off ≡ ok p) × (ltb (length p) 100 ≡ true)
IsListed w remote r off p (q ∷ qs) =
    (entries_at w remote r off ≡ ok p)
    × (ltb (length p) 100 ≡ false)
    × IsListed w remote r (off + 100) q qs

-- Everything that is listed.
unfoldable pub listing : List Json → List (List Json) → List Json
listing p [] = p
listing p (q ∷ qs) = p ++ listing q qs

-- The tally of a loop, whatever ended it.
abbrev pub tallied : Tally × Bool → List Row → Step (Option Tally)
tallied out rs = (rs, ok (some out.0))

full-unless_met :
    (full met : Bool) (acc : Tally) (rs : List Row) (y : Step (Option Tally))
    (rest : Tally → List Row → Step (Tally × Bool))
    → full ≡ false
    → y ≡ (rest acc rs and tallied)
    → (if full || met then (rs, ok (some acc)) else y) ≡ (unless_met rest (acc, met) rs and tallied)
unfolding unless_met
full-unless_met full true acc rs y rest e h = rw (e) refl
full-unless_met full false acc rs y rest e h = rw (e) h

descend_pages-listing :
    (w : World) (remote : Remote) (r : Resource) (wm : String) (fuel off : ℕ) (acc : Tally)
    (rs : List Row) (p : List Json) (qs : List (List Json))
    → length qs < fuel
    → IsListed w remote r off p qs
    → descend_pages w remote r wm fuel off acc rs ≡ (descend w wm (listing p qs) acc rs and tallied)
unfolding descend_pages listing unless_met
descend_pages-listing w remote r wm zero off acc rs p qs lt h = ground arith
descend_pages-listing w remote r wm (suc fuel) off acc rs p [] lt (e, short) =
    rw (e) (and-swap (descend w wm p acc rs) _ tallied (λ out rs2. rw (short) refl))
descend_pages-listing w remote r wm (suc fuel) off acc rs p (q ∷ qs) lt (e, long, h) =
    rw (e, descend-append w wm p (listing q qs) acc rs)
      (and-then (descend w wm p acc rs) _ (unless_met (descend w wm (listing q qs))) tallied
        (λ out rs2.
          full-unless_met (ltb (length p) 100) out.1 out.0 rs2 _ (descend w wm (listing q qs)) long
            (descend_pages-listing w remote r wm fuel (off + 100) out.0 rs2 q qs (omega arith) h)))

-- Records with the times at which they were updated.
abbrev pub Timed : Type 0
Timed = List (Json × String)

abbrev pub HasTime : Json × String → Type 0
HasTime (d, at) = (a : Json) × (item "attributes" d ≡ ok a) × (item "updated_at" a ≡ ok (str at))

-- The records down to the first that is not newer than the watermark.
unfoldable pub newer_than : String → Timed → Timed
newer_than wm [] = []
newer_than wm ((d, at) ∷ ps) = if wm == "" || text_lt wm at then (d, at) ∷ newer_than wm ps else []

-- The newest of their times, and `hi` if none is newer.
unfoldable pub newest : String → Timed → String
newest hi [] = hi
newest hi ((d, at) ∷ ps) = newest (if text_lt hi at then at else hi) ps

-- The records are given to the router, one after another.
unfoldable pub routed : World → Timed → List Row → Step (Unit {0})
routed w [] rs = (rs, ok tt)
routed w ((d, at) ∷ ps) rs =
    writing (route w.env from_reconcile none [] d rs) rs and (λ u rs'. routed w ps rs')

abbrev pub records : Timed → List Json
records = map (λ p. p.0)

abbrev pub tally_of : Tally → Timed → Unit {0} → List Row → Step (Option Tally)
tally_of acc ps u rs = (rs, ok (some (newest acc.0 ps, acc.1 + length ps)))

and-both :
    {A B C D : Type 0} (s : Step A) (f : A → List Row → Step B) (g : B → List Row → Step D)
    (f' : A → List Row → Step C) (g' : C → List Row → Step D)
    → ((a : A) (rs : List Row) → (f a rs and g) ≡ (f' a rs and g'))
    → (s and f and g) ≡ (s and f' and g')
and-both (rs, ok a) f g f' g' h = h a rs
and-both (rs, err e) f g f' g' h = refl

timed : (d : Json) (at : String) → HasTime (d, at) → time_of d ≡ ok (str at)
unfolding time_of
timed d at (a, e, e') = rw (e) e'

descend-newer_than :
    (w : World) (wm : String) (ps : Timed) (acc : Tally) (rs : List Row)
    → All HasTime ps
    → (descend w wm (records ps) acc rs and tallied)
      ≡ (routed w (newer_than wm ps) rs and tally_of acc (newer_than wm ps))
unfolding descend newer_than newest routed is_old as_text later_of
descend-newer_than w wm [] acc rs h =
    let none_more : acc.1 + 0 ≡ acc.1 = omega arith in rw (none_more) refl
descend-newer_than w wm ((d, at) ∷ ps) acc rs (has, h) =
    let e = timed d at has in
    let one_more : acc.1 + suc (length (newer_than wm ps)) ≡ acc.1 + 1 + length (newer_than wm ps) =
      omega arith in
    let none_more : acc.1 + 0 ≡ acc.1 = omega arith in
    let more =
      and-both (writing (route w.env from_reconcile none [] d rs) rs) _ tallied _
        (tally_of acc ((d, at) ∷ newer_than wm ps))
        (λ u rs'.
          descend-newer_than w wm ps (later_of acc.0 at, acc.1 + 1) rs' h
          ∙ ap
              (λ m.
                routed w (newer_than wm ps) rs'
                and (λ v rs2. (rs2, ok (some (newest (later_of acc.0 at) (newer_than wm ps), m)))))
              (sym one_more)) in
    elim (Bool-cases (wm == "")) [
      | inl first ↦ rw (e, is_old, first) more
      | inr f ↦ elim (Bool-cases (text_lt wm at)) [
        | inl lt ↦ rw (e, is_old, f, lt) more
        | inr old ↦ rw (e, is_old, f, old, none_more) refl
      ]
    ]

-- The watermark, the cursor and the two times of the row of the collection's state.
abbrev pub swept_until : World → String → Stored → Stored
swept_until w hi s = record s {
  sync = record s.sync {
    reconcile_watermark = some hi;
    reconcile_cursor = some hi;
    last_sweep_completed_at = some w.env.now;
    updated_at = w.env.now;
  };
}

settle_routed :
    (w : World) (s : Stored) (wm : String) (ps : Timed) (step : Step (Unit {0}))
    → (on_tables s (λ rs. step and tally_of (wm, 0) ps) filling settle_sweep w) ≡ (
        on_tables s (λ rs. step)
        filling (λ u s'. (swept_until w (newest wm ps) s', ok (some (length ps)))))
unfolding in_db settle_sweep
settle_routed w s wm ps (rs, ok out) =
    (let e : 0 + length ps ≡ length ps = omega arith in rw (e) refl)
settle_routed w s wm ps (rs, err e) = refl

-- A descending sweep of a collection whose pages are all read, the last of them short, with more
-- fuel than there are further pages: if every listed record carries a text as the time of its
-- update, the sweep gives to the router the listed records down to the first that is not newer than
-- the stored watermark (all of them, if none is stored), in the order of the list; it stores the
-- newest of the watermark and their times as the next watermark, and returns their number. Where
-- the router raises, the sweep raises the same and keeps the watermark.
pub descending_sweep-listing :
    (w : World) (remote : Remote) (fuel : ℕ) (r : Resource) (s : Stored) (p : List Json)
    (qs : List (List Json)) (ps : Timed)
    → length qs < fuel
    → IsListed w remote r 0 p qs
    → listing p qs ≡ records ps
    → All HasTime ps
    → descending_sweep w remote fuel r s ≡ (
        on_tables s (λ rs. routed w (newer_than (or_default s.sync.reconcile_watermark "") ps) rs)
        filling (λ u s'. (
          swept_until w
              (newest
                (or_default s.sync.reconcile_watermark "")
                (newer_than (or_default s.sync.reconcile_watermark "") ps))
              s',
          ok (some (length (newer_than (or_default s.sync.reconcile_watermark "") ps))),
        )))
unfolding descending_sweep in_db
descending_sweep-listing w remote fuel r s p qs ps lt h e times =
    let wm = or_default s.sync.reconcile_watermark "" in
    ap (λ step. on_tables s (λ rs. step) filling settle_sweep w)
      (descend_pages-listing w remote r wm fuel 0 (wm, 0) s.db.rows p qs lt h
        ∙ ap (λ ds. descend w wm ds (wm, 0) s.db.rows and tallied) e
        ∙ descend-newer_than w wm ps (wm, 0) s.db.rows times)
    ∙ settle_routed w s wm (newer_than wm ps) (routed w (newer_than wm ps) s.db.rows)
