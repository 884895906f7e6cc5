-- ===== src/Writer/Owned.antt =====
-- writer.py: ownership is read off a row's table and payload.

use pcomirror.Prelude.{
  String, ◌≡◌, refl, true, false, List, [], ◌∷◌, ◌==◌, not, arith, ◌∙◌, Option-cases, inl, inr, ap,
  sym, eq_iff,
}
use pcomirror.Registry.{Resource, by_table, owned_children}
use pcomirror.Registry.Columns.{column}
use pcomirror.Registry.Ownership.{all, by_table-owns_no_twin, by_table-table}
use pcomirror.Store.{Row}
use pcomirror.Writer.Cascade.{owned_in, owned_by}

column_same :
    (c : Resource) (fk : String) (r s : Row) → r.raw ≡ s.raw → column c fk r.raw ≡ column c fk s.raw
column_same c fk r s q = ap (column c fk) q

owned_in-congr :
    (cs : List (Resource × String)) (i : String) (r s : Row)
    → r.table ≡ s.table
    → r.raw ≡ s.raw
    → owned_in cs i r ≡ owned_in cs i s
owned_in-congr [] i r s p q = refl
owned_in-congr (c ∷ cs) i r s p q =
    ground (arith, owned_in-congr cs i r s p q, column_same c.0 c.1 r s q)

-- Ownership is read off a row's table and payload.
pub owned_by-congr :
    (t i : String) (r s : Row) → r.table ≡ s.table → r.raw ≡ s.raw → owned_by t i r ≡ owned_by t i s
unfolding owned_by
owned_by-congr t i r s p q = elim (Option-cases (by_table t)) [
  | inl f ↦ rw (f, owned_by) refl
  | inr (owner, f) ↦ rw (f, owned_by) (owned_in-congr (owned_children owner.name) i r s p q)
]

owned_in-own :
    (u i : String) (cs : List (Resource × String)) (r : Row)
    → all (λ e. not (e.0.table == u)) cs ≡ true
    → r.table ≡ u
    → owned_in cs i r ≡ false
owned_in-own u i [] r h e = refl
owned_in-own u i (c ∷ cs) r h e =
    ground (arith, eq_iff r.table c.0.table, eq_iff c.0.table u, owned_in-own u i cs r)

-- No row of a table is owned by a row of the same table.
pub owned_by-own : (t i : String) (r : Row) → r.table ≡ t → owned_by t i r ≡ false
unfolding owned_by
owned_by-own t i r e = elim (Option-cases (by_table t)) [
  | inl f ↦ rw (f, owned_by) refl
  | inr (owner, f) ↦
      rw (f, owned_by)
        (owned_in-own owner.table i (owned_children owner.name) r (by_table-owns_no_twin t f)
          (e ∙ sym (by_table-table t f)))
]
