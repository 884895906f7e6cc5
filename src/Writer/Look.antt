-- ===== src/Writer/Look.antt =====
-- What a row looks like after a whole operation of the writer, but for the typed columns.
use pcomirror.Store.{SyncSource}
use mathlib.Core.Option
use pcomirror.Prelude.{
  ◌==◌, Bool-cases, ap, sym, String, ◌≡◌, refl, Bool, true, false, Option, none, some, List, ◌&&◌,
  if◌then◌else◌, arith, ◌∙◌, Option-cases, inl, inr, eq_iff, eq_refl,
}
use pcomirror.Json.{Json}
use pcomirror.Store.{Row, Typed, blank, is_at, select, put_row, update_where, is_live}
use pcomirror.Store.Laws.{KeepsKey, select-update_where, select-put_row, upserted}
use pcomirror.Writer.Ops.{Env, uncascade, fresh}
use pcomirror.Writer.Project.{project_field_datum}
use pcomirror.Writer.Upsert.{settle}
use pcomirror.Writer.Cascade.{select-key, owned_by, select-uncascade, unbury_if}
use pcomirror.Writer.Owned.{owned_by-own}

-- A row without the columns that are derived from a field's definition.
abbrev pub untyped : Row → Row
untyped r = record r { typed = blank }

-- The row at a key.
abbrev pub look : String → String → List Row → Option Row
look t i rs = Option.map untyped (select t i rs)

untyped_if :
    (p : Row → Bool) (change : Row → Row) (o : Option Row)
    → ((r : Row) → untyped (change r) ≡ untyped r)
    → Option.map untyped (Option.map (λ r. if p r then change r else r) o) ≡ Option.map untyped o
untyped_if p change none h = refl
untyped_if p change (some r) h = ground (arith, h r)

look-set_typed :
    (t i fi : String) (ty : Typed) (rs : List Row)
    → look t i (update_where (is_at "field_datum" fi) (λ r. record r { typed = ty }) rs)
      ≡ look t i rs
look-set_typed t i fi ty rs =
    rw
      (select-update_where t i (is_at "field_datum" fi) (λ r. record r { typed = ty }) rs
        (λ r. (refl, refl)))
      (untyped_if (is_at "field_datum" fi) (λ r. record r { typed = ty }) (select t i rs)
        (λ r. refl))

pub look-project :
    (t i : String) (env : Env) (fi : String) (rs : List Row)
    → look t i (project_field_datum env fi rs) ≡ look t i rs
unfolding project_field_datum
look-project t i env fi rs = elim (Option-cases (select "field_datum" fi rs)) [
  | inl e ↦ rw (e, project_field_datum) refl
  | inr (r, e) ↦ rw (e, project_field_datum) (look-set_typed t i fi _ rs)
]

pub is_at-fresh :
    (env : Env) (t i : String) (raw : Json) (source : SyncSource)
    → is_at t i (fresh env t i raw source) ≡ true
is_at-fresh env t i raw source = ground (arith, eq_refl t, eq_refl i)

look-settle :
    (t' i' : String) (env : Env) (t i : String) (rs : List Row)
    → look t' i' (settle env t i rs) ≡ look t' i' (uncascade env t i rs)
unfolding settle
look-settle t' i' env t i rs = ground (arith, look-project t' i' env i (uncascade env t i rs))

map_unchanged :
    (f : Row → Row) (o : Option Row) → ((r : Row) → o ≡ some r → f r ≡ r) → Option.map f o ≡ o
map_unchanged f none h = refl
map_unchanged f (some r) h = ap some (h r refl)

typed_elsewhere :
    (t i : String) (ty : Typed) (r : Row)
    → r.table ≡ t
    → (t == "field_datum") ≡ false
    → (if is_at "field_datum" i r then record r { typed = ty } else r) ≡ r
typed_elsewhere t i ty r e ne = rw (e, ne) refl

select-project_field_datum :
    (t i : String) (env : Env) (fi : String) (rs : List Row)
    → (t == "field_datum") ≡ false
    → select t i (project_field_datum env fi rs) ≡ select t i rs
unfolding project_field_datum
select-project_field_datum t i env fi rs ne = elim (Option-cases (select "field_datum" fi rs)) [
  | inl e ↦ rw (e, project_field_datum) refl
  | inr (r, e) ↦
      rw (e, project_field_datum)
        (select-update_where t i (is_at "field_datum" fi) _ rs (λ x. (refl, refl))
          ∙ map_unchanged _ (select t i rs)
              (λ x found. typed_elsewhere t fi _ x (select-key t i rs x found).0 ne))
]

-- In any other table a whole operation leaves what the owner's return leaves.
pub select-settle :
    (t' i' : String) (env : Env) (t i : String) (rs : List Row)
    → (t' == t) ≡ false
    → select t' i' (settle env t i rs) ≡ select t' i' (uncascade env t i rs)
unfolding settle
select-settle t' i' env t i rs ne = elim (Bool-cases (t == "field_datum")) [
  | inr f ↦ rw (f) refl
  | inl y ↦
      let other : (t' == "field_datum") ≡ false =
        ap (λ x. t' == x) (sym ((eq_iff t "field_datum").0 y)) ∙ ne in
      rw (y) (select-project_field_datum t' i' env i (uncascade env t i rs) other)
]

module _ (env : Env) (t i : String) (new : Row) (change : Row → Row) (rs : List Row)
    (at : is_at t i new ≡ true) (keeps : KeepsKey change) where
  put_self : select t i (put_row new change rs) ≡ some (upserted new change (select t i rs))
  put_self = rw (select-put_row t i new change rs keeps) (rw at refl)

  table_of_written : (upserted new change (select t i rs)).table ≡ t
  table_of_written = elim (Option-cases (select t i rs)) [
    | inl e ↦ rw e (ground (arith, eq_iff new.table t))
    | inr (r, e) ↦ rw e (ground (arith, keeps r, select-key t i rs r e))
  ]

  -- The written row is what the statement says.
  pub look-settle_self :
      look t i (settle env t i (put_row new change rs))
      ≡ some (untyped (upserted new change (select t i rs)))
  look-settle_self =
      look-settle t i env t i (put_row new change rs)
      ∙ rw (select-uncascade t i env t i (put_row new change rs)) (
          rw put_self
            (rw (owned_by-own t i (upserted new change (select t i rs)) table_of_written) refl))

  put_other :
      (t' i' : String)
      → is_at t' i' new ≡ false
      → select t' i' (put_row new change rs) ≡ select t' i' rs
  put_other t' i' ne = rw (select-put_row t' i' new change rs keeps) (rw ne refl)

  -- A row of another table is as it was, but for what the owner's return brings back.
  pub select-settle_put :
      (t' i' : String)
      → (t' == t) ≡ false
      → is_at t' i' new ≡ false
      → select t' i' (settle env t i (put_row new change rs))
        ≡ Option.map
            (λ r.
              unbury_if env
                (owned_by t i r && is_live (some (upserted new change (select t i rs))))
                r)
            (select t' i' rs)
  select-settle_put t' i' other ne =
      select-settle t' i' env t i (put_row new change rs) other
      ∙ rw (select-uncascade t' i' env t i (put_row new change rs))
          (rw put_self (rw (put_other t' i' ne) refl))

  -- Any other row is as it was, but for what the owner's return brings back.
  pub look-settle_ne :
      (t' i' : String)
      → is_at t' i' new ≡ false
      → look t' i' (settle env t i (put_row new change rs))
        ≡ Option.map untyped (
            Option.map
              (λ r.
                unbury_if env
                  (owned_by t i r && is_live (some (upserted new change (select t i rs))))
                  r)
              (select t' i' rs))
  look-settle_ne t' i' ne =
      look-settle t' i' env t i (put_row new change rs)
      ∙ rw (select-uncascade t' i' env t i (put_row new change rs))
          (rw put_self (rw (put_other t' i' ne) refl))
