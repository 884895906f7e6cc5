-- ===== src/Ingest/Replaced.antt =====
-- ingest.py: after a refresh a reference table holds what was listed, and nothing else.
use mathlib.Core.Path.{subst}
use mathlib.Core.Option
use pcomirror.Prelude.{
  String, ◌≡◌, refl, Bool, true, false, Option, none, some, List, [], ◌∷◌, ◌==◌, arith, eq_iff,
  Bool-cases, inl, inr, ap, sym, ◌∙◌,
}
use pcomirror.Result.{ok, err}
use pcomirror.Json.{Json, null}
use pcomirror.Store.{Row, select}
use pcomirror.Webhooks.State.{World}
use pcomirror.Writer.Ops.{Env, is_table}
use pcomirror.Writer.Tombstone.{tombstone, stable_ts}
use pcomirror.Writer.Cascade.{select-key}
use pcomirror.Writer.Owned.{owned_by-own}
use pcomirror.Writer.Burials.{select-tombstone, buried}
use pcomirror.Ingest.Remote.{writing, and_ok, writing_ok}
use pcomirror.Ingest.Walk.{live_in, ids_where, bury_where, bury_unseen}
use pcomirror.Ingest.Buried.{ok_inj}

other_row :
    (env : Env) (t h : String) (at : Option String) (reason : String) (r : Row)
    → r.table ≡ t
    → (r.pco_id == h) ≡ false
    → buried env t h at reason none r ≡ r
other_row env t h at reason r here ne = ground (arith, owned_by-own t h r here)

pub map_kept :
    (f : Row → Row) (o : Option Row) → ((r : Row) → o ≡ some r → f r ≡ r) → Option.map f o ≡ o
map_kept f none h = refl
map_kept f (some r) h = ap some (h r refl)

different : (a b c : String) → a ≡ b → (c == b) ≡ false → (a == c) ≡ false
different a b c e ne = ground (arith, eq_iff a c, eq_iff c b)

-- A tombstone of another record of the same table leaves a row alone.
pub select-tombstone_ne :
    (env : Env) (t h i reason : String) (rs : List Row) {rs' : List Row}
    → (h == i) ≡ false
    → tombstone env t h null reason none rs ≡ ok rs'
    → select t i rs' ≡ select t i rs
unfolding tombstone
select-tombstone_ne env t h i reason rs {rs'} ne e = elim (Bool-cases (is_table t)) [
  | inr f ↦ (let bad : err _ ≡ ok rs' = rw (f) at e in cc)
  | inl y ↦
      let (rs1, e1, s) = select-tombstone env t h null reason none rs y in
      let same : rs1 ≡ rs' = ok_inj (sym e1 ∙ e) in
      subst (λ x. select t i x ≡ select t i rs) same
        (s t i
          ∙ map_kept _ (select t i rs) (λ r f.
            let k = select-key t i rs r f in
            other_row env t h (stable_ts null) reason r k.0 (different r.pco_id i h k.1 ne)))
]

module _ (w : World) (t reason i : String) (test : Json → Bool) (spared : String → Bool)
    (safe : spared i ≡ true) where
  not_it : (h : String) → spared h ≡ false → (h == i) ≡ false
  not_it h f = elim (Bool-cases (h == i)) [
    | inr ne ↦ ne
    | inl e ↦
        let same : h ≡ i = ground (arith, eq_iff h i) in
        let bad : true ≡ false = sym safe ∙ (ap spared (sym same) ∙ f) in cc
  ]

  select-bury_unseen :
      (todo : List String) (rs : List Row) {rs' : List Row} {u : Unit {0}}
      → bury_unseen w t reason spared todo rs ≡ (rs', ok u)
      → select t i rs' ≡ select t i rs
  unfolding bury_unseen
  select-bury_unseen [] rs e = ap (λ p. select t i p.0) (sym e)
  select-bury_unseen (h ∷ todo) rs e = elim (Bool-cases (spared h)) [
    | inl s ↦ select-bury_unseen todo rs (let e' = rw (s) at e in e')
    | inr s ↦
        let e' = rw (s) at e in
        let (u, rs1, m, f) = and_ok (writing (tombstone w.env t h null reason none rs) rs) _ e' in
        select-bury_unseen todo rs1 f
        ∙ select-tombstone_ne w.env t h i reason rs (not_it h s) (writing_ok _ rs m)
  ]

  -- The pass leaves the record of a spared id alone.
  pub select-bury_where :
      (rs : List Row) {rs' : List Row} {u : Unit {0}}
      → bury_where w t reason test spared rs ≡ (rs', ok u)
      → select t i rs' ≡ select t i rs
  unfolding bury_where
  select-bury_where rs e = select-bury_unseen (ids_where (live_in t test) rs) rs e
