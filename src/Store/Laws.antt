-- ===== src/Store/Laws.antt =====
-- What a SELECT finds after each statement, and the primary keys.
use mathlib.Core.Option
use pcomirror.Prelude.{
  ◌≡◌, refl, String, Bool, Option, none, some, List, [], ◌∷◌, if◌then◌else◌, arith, eq_iff,
}
use pcomirror.Store.Rows.{Row, is_at, select, put_row, update_where}

-- A change that leaves the primary key alone.
abbrev pub KeepsKey : (Row → Row) → Type 0
KeepsKey change = (r : Row) → ((change r).table ≡ r.table) × ((change r).pco_id ≡ r.pco_id)

-- The row that an UPDATE leaves at a key is the updated one.
pub select-update_where :
    (t i : String) (p : Row → Bool) (change : Row → Row) (rs : List Row)
    → KeepsKey change
    → select t i (update_where p change rs)
      ≡ Option.map (λ r. if p r then change r else r) (select t i rs)
unfolding select update_where
select-update_where t i p change [] k = refl
select-update_where t i p change (r ∷ rs) k =
    ground (arith, k r, select-update_where t i p change rs k)

abbrev pub upserted : Row → (Row → Row) → Option Row → Row
upserted new change none = new
upserted new change (some r) = change r

pub select-put_row :
    (t i : String) (new : Row) (change : Row → Row) (rs : List Row)
    → KeepsKey change
    → select t i (put_row new change rs)
      ≡ (if is_at t i new then some (upserted new change (select t i rs)) else select t i rs)
unfolding select put_row
select-put_row t i new change [] k = refl
select-put_row t i new change (r ∷ rs) k = ground (
  arith,
  k r,
  eq_iff r.table t,
  eq_iff r.pco_id i,
  eq_iff new.table t,
  eq_iff new.pco_id i,
  eq_iff r.table new.table,
  eq_iff r.pco_id new.pco_id,
  select-put_row t i new change rs k,
)
