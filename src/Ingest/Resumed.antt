-- ===== src/Ingest/Resumed.antt =====
-- ingest.py: a backfill that is cut into units keeps what one run keeps.
use Prim.Native.Nat.{◌+◌}
use pcomirror.Prelude.{ℕ, zero, suc, String, List, [], ◌∷◌, ◌≡◌, refl, ap, ◌∙◌, sym, arith}
use pcomirror.Result.{ok, err}
use pcomirror.Ingest.Backfill.{
  Stored, Filling, ◌filling◌, Feed, Turn, last, more, cut, End, keep_place, after_turn,
  backfill_page, backfill_pages, backfill_unit, next_with, backfill_units,
}

-- The rest of the loop from a place that is kept, and as two units.
after_turn-next :
    (f : Feed) (k n : ℕ) (rest rest' : String → List String → Stored → Filling End)
    → ((c : String) (ids : List String) (s : Stored)
        → rest c ids (keep_place f.world c ids s)
          ≡ (rest' c ids (keep_place f.world c ids s) filling next_with (backfill_unit f k n)))
    → (page : Filling Turn)
    → (page filling after_turn f rest)
      ≡ (page filling after_turn f rest' filling next_with (backfill_unit f k n))
unfolding after_turn next_with
after_turn-next f k n rest rest' h (s, err e) = refl
after_turn-next f k n rest rest' h (s, ok (last c)) = refl
after_turn-next f k n rest rest' h (s, ok (more c ids)) = h c ids s
after_turn-next f k n rest rest' h (s, ok cut) = refl

backfill_pages-kept :
    (f : Feed) (m k n : ℕ) (c : String) (ids : List String) (s : Stored)
    → backfill_pages f (m + k) n c ids (keep_place f.world c ids s) ≡ (
        backfill_pages f m n c ids (keep_place f.world c ids s)
        filling next_with (backfill_unit f k (n + m)))
unfolding backfill_pages next_with backfill_unit
backfill_pages-kept f zero k n c ids s =
    let e : 0 + k ≡ k = omega arith in let e' : n + 0 ≡ n = omega arith in rw (e, e') refl
backfill_pages-kept f (suc m) k n c ids s =
    let e : suc m + k ≡ suc (m + k) = omega arith in
    let e' : n + suc m ≡ n + 1 + m = omega arith in
    rw (e, e')
      (after_turn-next f k (n + 1 + m) (backfill_pages f (m + k) (n + 1))
        (backfill_pages f m (n + 1)) (backfill_pages-kept f m k (n + 1))
        (backfill_page f n c ids (keep_place f.world c ids s)))

-- A unit of at least one page, and then one of the rest.
backfill_unit-next :
    (f : Feed) (m k n : ℕ) (s : Stored)
    → backfill_unit f (suc m + k) n s
      ≡ (backfill_unit f (suc m) n s filling next_with (backfill_unit f k (n + suc m)))
unfolding backfill_unit backfill_pages
backfill_unit-next f m k n s =
    let e : suc m + k ≡ suc (m + k) = omega arith in
    let e' : n + suc m ≡ n + 1 + m = omega arith in
    rw (e, e')
      (after_turn-next f k (n + 1 + m) (backfill_pages f (m + k) (n + 1))
        (backfill_pages f m (n + 1)) (backfill_pages-kept f m k (n + 1))
        (backfill_page f n _ s.sync.backfill_seen_ids s))

-- The pages of the units together.
abbrev pub pages_of : List ℕ → ℕ → ℕ
pages_of [] l = suc l
pages_of (m ∷ ms) l = suc m + pages_of ms l

-- A backfill that is cut into units of at least one page, each of which starts from the place that
-- the last one stored, stores what one run of as many pages stores, raises what it raises, and ends
-- where it ends.
pub backfill_units-one :
    (f : Feed) (ms : List ℕ) (l n : ℕ) (s : Stored)
    → backfill_units f ms l n s ≡ backfill_unit f (pages_of ms l) n s
unfolding backfill_units
backfill_units-one f [] l n s = refl
backfill_units-one f (m ∷ ms) l n s =
    ap (λ g. backfill_unit f (suc m) n s filling next_with g)
      (λ i s'. backfill_units-one f ms l (n + suc m) s' i)
    ∙ sym (backfill_unit-next f m (pages_of ms l) n s)
