-- ===== src/Ingest/Buried.antt =====
-- ingest.py: what a burial leaves as it is, row by row.
use mathlib.Core.Path.{subst}
use pcomirror.Prelude.{
  String, ◌≡◌, refl, Bool, true, false, Option, none, some, List, [], ◌∷◌, ◌&&◌, ◌||◌, not, is_some,
  if◌then◌else◌, contains, arith, eq_refl, All, not_older, Bool-cases, Option-cases, inl, inr,
}
use pcomirror.Prelude.Order.{lt_irrefl}
use pcomirror.Result.{ok, err}
use pcomirror.Json.{Json}
use pcomirror.Registry.{Resource, by_table, owned_children}
use pcomirror.Store.{Row, uat, update_where, is_at}
use pcomirror.Writer.Ops.{Env, is_table, bury, belongs, cascade, cascade_children}
use pcomirror.Writer.Tombstone.{may_bury, mark, tombstone, tombstone_change, stable_ts, gone}
use pcomirror.Ingest.Walk.{ids_where}

-- What an UPDATE leaves holds of each row if it holds of the updated row, and of the others.
pub update_where-All :
    (P Q : Row → Type 0) (p : Row → Bool) (change : Row → Row) (rs : List Row)
    → ((r : Row) → P r → Q (if p r then change r else r))
    → All P rs
    → All Q (update_where p change rs)
unfolding update_where
update_where-All P Q p change [] h a = tt
update_where-All P Q p change (r ∷ rs) h a = (h r a.0, update_where-All P Q p change rs h a.1)

pub if_both :
    {A : Type 0} (P : A → Type 0) (b : Bool) (x y : A) → P x → P y → P (if b then x else y)
if_both P true x y px py = px
if_both P false x y px py = py

pub cascade_children-All :
    (P : Row → Type 0) (env : Env) (i : String) (cs : List (Resource × String)) (rs : List Row)
    → ((r : Row) → P r → P (bury env r))
    → All P rs
    → All P (cascade_children env i cs rs)
unfolding cascade_children
cascade_children-All P env i [] rs h a = a
cascade_children-All P env i (c ∷ cs) rs h a = cascade_children-All P env i cs _ h (
    update_where-All P P (λ r. belongs c i r && not (is_some r.deleted_at)) (bury env) rs
      (λ r p. if_both P (belongs c i r && not (is_some r.deleted_at)) (bury env r) r (h r p) p) a)

pub cascade-All :
    (P : Row → Type 0) (env : Env) (t i : String) (rs : List Row)
    → ((r : Row) → P r → P (bury env r))
    → All P rs
    → All P (cascade env t i rs)
unfolding cascade
cascade-All P env t i rs h a = elim (Option-cases (by_table t)) [
  | inl e ↦ rw (e, cascade) a
  | inr (owner, e) ↦
      rw (e, cascade) (cascade_children-All P env i (owned_children owner.name) rs h a)
]

-- A tombstone without a time of its own is never refused.
pub not_older_self : (o : Option String) → (not (is_some o) || not_older o o) ≡ true
not_older_self none = refl
not_older_self (some s) = rw (lt_irrefl s, not_older) refl

pub may_bury-none : (reason : String) (r : Row) → may_bury none reason r ≡ true
unfolding may_bury
may_bury-none reason r = ground (arith, not_older_self (uat r.raw))

pub ok_inj : {A : Type 0} {a b : A} → ok a ≡ ok b → a ≡ b
ok_inj e = cc

-- The UPDATE of a tombstone, with the cascade where the record is gone.
pub tombstone-All :
    (P Q : Row → Type 0) (env : Env) (t i : String) (at : Json) (reason : String)
    (into : Option String) (rs : List Row) {rs' : List Row}
    → ((r : Row)
        → P r
        → Q (
            if is_at t i r && may_bury (stable_ts at) reason r
            then tombstone_change env (stable_ts at) reason into r
            else r))
    → ((r : Row) → Q r → Q (bury env r))
    → tombstone env t i at reason into rs ≡ ok rs'
    → All P rs
    → All Q rs'
unfolding tombstone mark
tombstone-All P Q env t i at reason into rs {rs'} h k e a =
    let m =
      update_where-All P Q (λ r. is_at t i r && may_bury (stable_ts at) reason r)
        (tombstone_change env (stable_ts at) reason into) rs h a in
    elim (Bool-cases (is_table t)) [
      | inr f ↦ (let bad : err _ ≡ ok rs' = rw (f) at e in cc)
      | inl y ↦
          (let same = rw (y) at e in
            subst (All Q) (ok_inj same)
              (if_both (All Q) (contains gone reason) _ _ (cascade-All Q env t i _ k m) m))
    ]

pub All-map :
    {A : Type 0} (P Q : A → Type 0) (xs : List A) → ((x : A) → P x → Q x) → All P xs → All Q xs
All-map P Q [] h a = tt
All-map P Q (x ∷ xs) h a = (h x a.0, All-map P Q xs h a.1)

pub ids_where-head :
    (p : Row → Bool) (r : Row) (rs : List Row)
    → p r ≡ true
    → contains (ids_where p (r ∷ rs)) r.pco_id ≡ true
unfolding ids_where
ids_where-head p r rs e = ground (arith, eq_refl r.pco_id)

pub ids_where-tail :
    (p : Row → Bool) (r : Row) (rs : List Row) (i : String)
    → contains (ids_where p rs) i ≡ true
    → contains (ids_where p (r ∷ rs)) i ≡ true
unfolding ids_where
ids_where-tail p r rs i e = ground arith

pub ids_where-All :
    (p : Row → Bool) (rs : List Row)
    → All (λ row. p row ≡ true → contains (ids_where p rs) row.pco_id ≡ true) rs
unfolding ids_where
ids_where-All p [] = tt
ids_where-All p (r ∷ rs) = (
  ids_where-head p r rs,
  All-map (λ row. p row ≡ true → contains (ids_where p rs) row.pco_id ≡ true)
      (λ row. p row ≡ true → contains (ids_where p (r ∷ rs)) row.pco_id ≡ true) rs
      (λ row n q. ids_where-tail p r rs row.pco_id (n q)) (ids_where-All p rs),
)

pub either : (a : Bool) {b : Bool} → b ≡ true → (a || b) ≡ true
either a e = ground arith

pub either_false : (a : Bool) → (a || false) ≡ true → a ≡ true
either_false a e = ground arith
