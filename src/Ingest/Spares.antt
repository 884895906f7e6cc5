-- ===== src/Ingest/Spares.antt =====
-- ingest.py: what `_include_diff` buries, and what it leaves alone.
use mathlib.Core.Path.{subst}
use pcomirror.Prelude.{
  String, ◌≡◌, refl, Bool, true, false, Option, none, some, List, [], ◌∷◌, ◌==◌, ◌&&◌,
  if◌then◌else◌, arith, eq_iff, All, Bool-cases, Option-cases, inl, inr, ap, sym, ◌∙◌, is_text,
}
use pcomirror.Result.{ok, err}
use pcomirror.Json.{Json, null}
use pcomirror.Registry.{Resource, resources, owned_children, by_table}
use pcomirror.Registry.Ownership.{all}
use pcomirror.Store.{Row, select}
use pcomirror.Webhooks.State.{World, bind}
use pcomirror.Writer.Ops.{Env, is_table}
use pcomirror.Writer.Tombstone.{tombstone, stable_ts}
use pcomirror.Writer.Cascade.{select-key, owned_by, owned_in}
use pcomirror.Writer.Burials.{select-tombstone, buried}
use pcomirror.Ingest.Remote.{◌and◌, reading, writing, and_ok, writing_ok, After, and-After}
use pcomirror.Ingest.Walk.{live_in, bury_where, bury_unseen, ids_where}
use pcomirror.Ingest.Buried.{ok_inj}
use pcomirror.Ingest.Replaced.{map_kept}
use pcomirror.Ingest.Diff.{is_asked, is_named, is_of, diff_children, Pairs}

-- Nothing belongs to a record of this table.
abbrev pub owns_nothing : String → Bool
owns_nothing t = elim (by_table t) [
  | none ↦ true
  | some owner ↦ elim (owned_children owner.name) [ [] ↦ true | _ ↦ false ]
]

abbrev pub is_leaf : Resource → Bool
is_leaf c = if is_text c.owner_rel "person" then owns_nothing c.table else true

pub leaves : all is_leaf resources ≡ true
unfolding owned_children by_table
leaves = refl

no_edges :
    (cs : List (Resource × String)) (i : String) (r : Row)
    → (elim cs [ [] ↦ true | _ ↦ false ]) ≡ true
    → owned_in cs i r ≡ false
no_edges [] i r e = refl
no_edges (c ∷ cs) i r e = cc

owned_by-leaf : (t i : String) (r : Row) → owns_nothing t ≡ true → owned_by t i r ≡ false
unfolding owned_by
owned_by-leaf t i r e = elim (Option-cases (by_table t)) [
  | inl f ↦ rw (f, owned_by) refl
  | inr (owner, f) ↦
      (let e' = rw (f, owns_nothing) at e in
        rw (f, owned_by) (no_edges (owned_children owner.name) i r e'))
]

leaf_row :
    (env : Env) (ct h t i reason : String) (at : Option String) (r : Row)
    → owns_nothing ct ≡ true
    → (ct == t && h == i) ≡ false
    → r.table ≡ t
    → r.pco_id ≡ i
    → buried env ct h at reason none r ≡ r
leaf_row env ct h t i reason at r leaf ne et ei = ground (
  arith,
  owned_by-leaf ct h r leaf,
  eq_iff r.table ct,
  eq_iff r.pco_id h,
  eq_iff ct t,
  eq_iff h i,
)

-- A tombstone in a table that owns nothing changes that record at most.
pub select-tombstone_leaf :
    (env : Env) (ct h t i reason : String) (rs : List Row) {rs' : List Row}
    → owns_nothing ct ≡ true
    → (ct == t && h == i) ≡ false
    → tombstone env ct h null reason none rs ≡ ok rs'
    → select t i rs' ≡ select t i rs
unfolding tombstone
select-tombstone_leaf env ct h t i reason rs {rs'} leaf ne e = elim (Bool-cases (is_table ct)) [
  | inr f ↦ (let bad : err _ ≡ ok rs' = rw (f) at e in cc)
  | inl y ↦
      let (rs1, e1, s) = select-tombstone env ct h null reason none rs y in
      let same : rs1 ≡ rs' = ok_inj (sym e1 ∙ e) in
      subst (λ x. select t i x ≡ select t i rs) same
        (s t i
          ∙ map_kept _ (select t i rs) (λ r f.
            let k = select-key t i rs r f in
            leaf_row env ct h t i reason (stable_ts null) r leaf ne k.0 k.1))
]

module _ (w : World) (ct t i reason : String) (test : Json → Bool) (spared : String → Bool)
    (leaf : owns_nothing ct ≡ true) (safe : (ct == t) ≡ true → spared i ≡ true) where
  not_it : (h : String) → spared h ≡ false → (ct == t && h == i) ≡ false
  not_it h f = elim (Bool-cases (ct == t && h == i)) [
    | inr ne ↦ ne
    | inl e ↦
        let same : h ≡ i = ground (arith, eq_iff h i) in
        let here : (ct == t) ≡ true = ground arith in
        let bad : true ≡ false = sym (safe here) ∙ (ap spared (sym same) ∙ f) in cc
  ]

  select-bury_leaf :
      (todo : List String) (rs : List Row) {rs' : List Row} {u : Unit {0}}
      → bury_unseen w ct reason spared todo rs ≡ (rs', ok u)
      → select t i rs' ≡ select t i rs
  unfolding bury_unseen
  select-bury_leaf [] rs e = ap (λ p. select t i p.0) (sym e)
  select-bury_leaf (h ∷ todo) rs e = elim (Bool-cases (spared h)) [
    | inl s ↦ select-bury_leaf todo rs (let e' = rw (s) at e in e')
    | inr s ↦
        let e' = rw (s) at e in
        let (u, rs1, m, f) = and_ok (writing (tombstone w.env ct h null reason none rs) rs) _ e' in
        select-bury_leaf todo rs1 f
        ∙ select-tombstone_leaf w.env ct h t i reason rs leaf (not_it h s) (writing_ok _ rs m)
  ]

  pub select-bury_where_leaf :
      (rs : List Row) {rs' : List Row} {u : Unit {0}}
      → bury_where w ct reason test spared rs ≡ (rs', ok u)
      → select t i rs' ≡ select t i rs
  unfolding bury_where
  select-bury_where_leaf rs e = select-bury_leaf (ids_where (live_in ct test) rs) rs e

module _ (w : World) (key : Json) (asked : List String) (present claimed : Pairs)
    (t i : String) where
  -- Where the record stands in a table that is compared, the answer names it.
  abbrev pub IsSafe : Resource → Type 0
  IsSafe c = (is_asked asked c && c.table == t) ≡ true → is_named present claimed c i ≡ true

  abbrev pub Same : Option Row → Unit {0} → List Row → Type 0
  Same o u rs = select t i rs ≡ o

  asked_leaf :
      (c : Resource) → is_leaf c ≡ true → is_asked asked c ≡ true → owns_nothing c.table ≡ true
  asked_leaf c l a = ground arith

  as_safe :
      (c : Resource)
      → is_asked asked c ≡ true
      → IsSafe c
      → (c.table == t) ≡ true
      → is_named present claimed c i ≡ true
  as_safe c a s e = s (rw (a) e)

  pub diff_children-Same :
      (o : Option Row) (cs : List Resource) (rs : List Row)
      → all is_leaf cs ≡ true
      → All IsSafe cs
      → select t i rs ≡ o
      → After (Same o) (diff_children w key asked present claimed cs rs)
  unfolding diff_children
  diff_children-Same o [] rs l s e = e
  diff_children-Same o (c ∷ cs) rs l s e = elim (Bool-cases (is_asked asked c)) [
    | inr a ↦ rw (a) (diff_children-Same o cs rs (ground arith) s.1 e)
    | inl a ↦ rw (a) (
        and-After (Same o)
          (reading (bind key) rs and (λ p rs1.
            bury_where w c.table "absent" (is_of c p) (is_named present claimed c) rs1))
          _
          (λ u rs2 e2.
            let (p, rs1, e3, e4) = and_ok (reading (bind key) rs) _ e2 in
            diff_children-Same o cs rs2 (ground arith) s.1 (
              select-bury_where_leaf w c.table t i "absent" (is_of c p) (is_named present claimed c)
                (asked_leaf c (ground arith) a) (as_safe c a s.0) rs1 e4
              ∙ (sym (ap (λ q. select t i q.0) e3) ∙ e))))
  ]
