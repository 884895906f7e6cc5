-- ===== src/Writer/Cascade.antt =====
-- The cascade row by row: what `_cascade` and `_uncascade` do to each row of the tables.
use mathlib.Core.Option
use mathlib.Core.Path.{subst}
use pcomirror.Prelude.{
  String, ◌≡◌, refl, Bool, true, false, Option, none, some, List, [], ◌∷◌, ◌==◌, ◌&&◌, ◌||◌, not,
  if◌then◌else◌, arith, ◌∙◌, is_some, is_text, Option-cases, inl, inr, ap, sym, eq_iff,
}
use pcomirror.Registry.{Resource, by_table, owned_children}
use pcomirror.Registry.Ownership.{all, by_table-owns_no_twin, by_table-table}
use pcomirror.Store.{Row, select, update_where, is_live}
use pcomirror.Store.Laws.{select-update_where}
use pcomirror.Writer.Ops.{
  Env, belongs, bury, unbury, cascade, cascade_children, uncascade, uncascade_children,
  owner_deleted,
}

-- The row that a SELECT finds is the one that was asked for.
pub select-key :
    (t i : String) (rs : List Row) (r : Row)
    → select t i rs ≡ some r
    → (r.table ≡ t) × (r.pco_id ≡ i)
unfolding select
select-key t i [] r e = cc
select-key t i (x ∷ xs) r e =
    ground (arith, eq_iff x.table t, eq_iff x.pco_id i, select-key t i xs r)

-- Does one of these edges make the row a child of `i`?
abbrev pub owned_in : List (Resource × String) → String → Row → Bool
owned_in [] i r = false
owned_in (c ∷ cs) i r = belongs c i r || owned_in cs i r

-- The same for the edges of a table's resource.
unfoldable pub owned_by : String → String → Row → Bool
owned_by t i r = elim (by_table t) [
  | none ↦ false
  | some owner ↦ owned_in (owned_children owner.name) i r
]

abbrev pub bury_if : Env → Bool → Row → Row
bury_if env owned r = if owned && not (is_some r.deleted_at) then bury env r else r

bury_step :
    (env : Env) (c : Resource × String) (cs : List (Resource × String)) (i : String)
    (o : Option Row)
    → Option.map
        (λ r. bury_if env (owned_in cs i r) r)
        (Option.map (λ r. if belongs c i r && not (is_some r.deleted_at) then bury env r else r) o)
      ≡ Option.map (λ r. bury_if env (owned_in (c ∷ cs) i r) r) o
bury_step env c cs i none = refl
bury_step env c cs i (some r) = ground arith

map_self : (f : Row → Row) (o : Option Row) → ((r : Row) → f r ≡ r) → Option.map f o ≡ o
map_self f none h = refl
map_self f (some r) h = ap some (h r)

pub select-cascade_children :
    (t i : String) (env : Env) (oi : String) (cs : List (Resource × String)) (rs : List Row)
    → select t i (cascade_children env oi cs rs)
      ≡ Option.map (λ r. bury_if env (owned_in cs oi r) r) (select t i rs)
unfolding cascade_children
select-cascade_children t i env oi [] rs = sym (map_self _ (select t i rs) (λ r. refl))
select-cascade_children t i env oi (c ∷ cs) rs =
    select-cascade_children t i env oi cs
      (update_where (λ r. belongs c oi r && not (is_some r.deleted_at)) (bury env) rs)
    ∙ (rw
        (select-update_where t i (λ r. belongs c oi r && not (is_some r.deleted_at)) (bury env) rs
          (λ r. (refl, refl)))
        (bury_step env c cs oi (select t i rs)))

-- A cascade buries exactly the live rows that the record owns.
pub select-cascade :
    (t i : String) (env : Env) (ot oi : String) (rs : List Row)
    → select t i (cascade env ot oi rs)
      ≡ Option.map (λ r. bury_if env (owned_by ot oi r) r) (select t i rs)
unfolding cascade owned_by
select-cascade t i env ot oi rs =
    elim (by_table ot)
      as (λ o.
        select t i (elim o [
          | none ↦ rs
          | some owner ↦ cascade_children env oi (owned_children owner.name) rs
        ])
        ≡ Option.map
            (λ r.
              bury_if env
                (elim o [ none ↦ false | some owner ↦ owned_in (owned_children owner.name) oi r ])
                r)
            (select t i rs)) [
              | none ↦ sym (map_self _ (select t i rs) (λ r. refl))
              | some owner ↦ select-cascade_children t i env oi (owned_children owner.name) rs
            ]

abbrev pub unbury_if : Env → Bool → Row → Row
unbury_if env owned r =
    if owned && is_text r.tombstone_reason owner_deleted then unbury env r else r

unbury_step :
    (env : Env) (live : Bool) (c : Resource × String) (cs : List (Resource × String)) (i : String)
    (o : Option Row)
    → Option.map
        (λ r. unbury_if env (owned_in cs i r && live) r)
        (Option.map
          (λ r.
            if belongs c i r && is_text r.tombstone_reason owner_deleted && live
            then unbury env r
            else r)
          o)
      ≡ Option.map (λ r. unbury_if env (owned_in (c ∷ cs) i r && live) r) o
unbury_step env live c cs i none = refl
unbury_step env live c cs i (some r) = ground arith

-- The updates of the children leave the owner's own row alone.
live_kept :
    (env : Env) (owner : Resource) (i : String) (p : Row → Bool) (c : Resource × String)
    (rs : List Row)
    → (c.0.table == owner.table) ≡ false
    → ((r : Row) → p r ≡ true → r.table ≡ c.0.table)
    → is_live (select owner.table i (update_where p (unbury env) rs))
      ≡ is_live (select owner.table i rs)
live_kept env owner i p c rs ne h = elim (Option-cases (select owner.table i rs)) [
  | inl e ↦ rw (select-update_where owner.table i p (unbury env) rs (λ r. (refl, refl))) (rw e refl)
  | inr (r, e) ↦
      rw (select-update_where owner.table i p (unbury env) rs (λ r. (refl, refl)))
        (rw e (ground (arith, h r, select-key owner.table i rs r e, eq_iff c.0.table owner.table)))
]

in_child :
    (c : Resource × String) (i : String) (r : Row) (a b : Bool)
    → (belongs c i r && a && b) ≡ true
    → r.table ≡ c.0.table
in_child c i r a b e = ground (arith, eq_iff r.table c.0.table)

pub select-uncascade_children :
    (t i : String) (env : Env) (owner : Resource) (oi : String) (cs : List (Resource × String))
    (rs : List Row)
    → all (λ e. not (e.0.table == owner.table)) cs ≡ true
    → select t i (uncascade_children env owner oi cs rs)
      ≡ Option.map
          (λ r. unbury_if env (owned_in cs oi r && is_live (select owner.table oi rs)) r)
          (select t i rs)
unfolding uncascade_children
select-uncascade_children t i env owner oi [] rs h = sym (map_self _ (select t i rs) (λ r. refl))
select-uncascade_children t i env owner oi (c ∷ cs) rs h =
    let live = is_live (select owner.table oi rs) in
    let p = λ (r : Row). belongs c oi r && is_text r.tombstone_reason owner_deleted && live in
    select-uncascade_children t i env owner oi cs (update_where p (unbury env) rs) (ground arith)
    ∙ rw
        (live_kept env owner oi p c rs (ground arith)
          (λ r e. in_child c oi r (is_text r.tombstone_reason owner_deleted) live e))
        (rw (select-update_where t i p (unbury env) rs (λ r. (refl, refl)))
          (unbury_step env live c cs oi (select t i rs)))

-- Where the owner is live again, exactly the rows that were buried with it come back; where it is
-- not, none does.
pub select-uncascade :
    (t i : String) (env : Env) (ot oi : String) (rs : List Row)
    → select t i (uncascade env ot oi rs)
      ≡ Option.map
          (λ r. unbury_if env (owned_by ot oi r && is_live (select ot oi rs)) r)
          (select t i rs)
unfolding uncascade owned_by
select-uncascade t i env ot oi rs =
    (elim (by_table ot)
        as (λ o.
          by_table ot ≡ o
          → select t i (elim o [
            | none ↦ rs
            | some owner ↦ uncascade_children env owner oi (owned_children owner.name) rs
          ])
            ≡ Option.map
                (λ r.
                  unbury_if env
                    (elim o [
                      | none ↦ false
                      | some owner ↦ owned_in (owned_children owner.name) oi r
                    ]
                      && is_live (select ot oi rs))
                    r)
                (select t i rs)) [
                  | none ↦ λ e. sym (map_self _ (select t i rs) (λ r. refl))
                  | some owner ↦ λ e.
                      subst
                        (λ u.
                          select t i
                            (uncascade_children env owner oi (owned_children owner.name) rs)
                          ≡ Option.map
                              (λ r.
                                unbury_if env
                                  (owned_in (owned_children owner.name) oi r
                                    && is_live (select u oi rs))
                                  r)
                              (select t i rs))
                        (by_table-table ot e)
                        (select-uncascade_children t i env owner oi (owned_children owner.name) rs
                          (by_table-owns_no_twin ot e))
                ])
      refl
