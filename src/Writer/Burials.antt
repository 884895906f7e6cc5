-- ===== src/Writer/Burials.antt =====
-- What a tombstone does to each row.
use mathlib.Core.Option
use pcomirror.Prelude.{
  String, ◌≡◌, refl, Bool, true, false, Option, none, some, List, ◌&&◌, not, if◌then◌else◌, arith,
  ◌∙◌, is_some, contains,
}
use pcomirror.Result.{ok}
use pcomirror.Json.{Json}
use pcomirror.Store.{Row, is_at, select}
use pcomirror.Store.Laws.{select-update_where}
use pcomirror.Writer.Ops.{Env, is_table, cascade, bury}
use pcomirror.Writer.Tombstone.{gone, stable_ts, may_bury, tombstone_change, mark, tombstone}
use pcomirror.Writer.Cascade.{select-cascade, owned_by, bury_if}
use pcomirror.Writer.Owned.{owned_by-congr}

-- The UPDATE of a tombstone, at the row of a key.
abbrev pub marked : Env → String → String → Option String → String → Option String → Row → Row
marked env t i at reason into r =
    if is_at t i r && may_bury at reason r then tombstone_change env at reason into r else r

-- With the cascade that follows if the record is gone.
abbrev pub buried : Env → String → String → Option String → String → Option String → Row → Row
buried env t i at reason into r =
    let r' = marked env t i at reason into r in
    bury_if env (contains gone reason && owned_by t i r') r'

map-map :
    {A B C : Type 0} (f : B → C) (g : A → B) (o : Option A)
    → Option.map f (Option.map g o) ≡ Option.map (λ a. f (g a)) o
map-map f g none = refl
map-map f g (some a) = refl

select-mark :
    (env : Env) (t i : String) (at : Option String) (reason : String) (into : Option String)
    (rs : List Row) (t' i' : String)
    → select t' i' (mark env t i at reason into rs)
      ≡ Option.map (marked env t i at reason into) (select t' i' rs)
unfolding mark
select-mark env t i at reason into rs t' i' =
    select-update_where t' i' (λ r. is_at t i r && may_bury at reason r)
      (tombstone_change env at reason into) rs (λ r. (refl, refl))

select-branch :
    (env : Env) (t i : String) (b : Bool) (rs : List Row) (t' i' : String)
    → select t' i' (if b then cascade env t i rs else rs)
      ≡ Option.map (λ r. bury_if env (b && owned_by t i r) r) (select t' i' rs)
select-branch env t i true rs t' i' = select-cascade t' i' env t i rs
select-branch env t i false rs t' i' = unchanged (select t' i' rs)
  where
    unchanged : (o : Option Row) → o ≡ Option.map (λ r. bury_if env (false && owned_by t i r) r) o
    unchanged none = refl
    unchanged (some r) = refl

-- On a table of the registry a tombstone goes through, and does this to every row.
pub select-tombstone :
    (env : Env) (t i : String) (at : Json) (reason : String) (into : Option String) (rs : List Row)
    → is_table t ≡ true
    → (rs' : List Row) × (tombstone env t i at reason into rs ≡ ok rs')
      × ((t' i' : String)
          → select t' i' rs'
            ≡ Option.map (buried env t i (stable_ts at) reason into) (select t' i' rs))
unfolding tombstone
select-tombstone env t i at reason into rs h =
    let rs1 = mark env t i (stable_ts at) reason into rs in
    (
      (if contains gone reason then cascade env t i rs1 else rs1),
      rw h refl,
      λ t' i'.
          select-branch env t i (contains gone reason) rs1 t' i'
          ∙ rw (select-mark env t i (stable_ts at) reason into rs t' i')
              (map-map _ _ (select t' i' rs)),
    )

if_field :
    {A : Type 0} (f : Row → A) (b : Bool) (x y : Row) → f x ≡ f y → f (if b then x else y) ≡ f y
if_field f true x y e = e
if_field f false x y e = refl

-- A tombstone leaves each row's table, id and payload.
pub buried-kept :
    {A : Type 0} (f : Row → A) (env : Env) (t i : String) (at : Option String) (reason : String)
    (into : Option String) (r : Row)
    → ((s : Row) → f (tombstone_change env at reason into s) ≡ f s)
    → ((s : Row) → f (bury env s) ≡ f s)
    → f (buried env t i at reason into r) ≡ f r
buried-kept f env t i at reason into r h k =
    let r' = marked env t i at reason into r in
    if_field f ((contains gone reason && owned_by t i r') && not (is_some r'.deleted_at))
      (bury env r') r' (k r')
    ∙ if_field f (is_at t i r && may_bury at reason r) (tombstone_change env at reason into r) r
        (h r)

pub buried-owned :
    (env : Env) (t i : String) (at : Option String) (reason : String) (into : Option String)
    (r : Row)
    → owned_by t i (buried env t i at reason into r) ≡ owned_by t i r
unfolding tombstone_change
buried-owned env t i at reason into r =
    owned_by-congr t i (buried env t i at reason into r) r
      (buried-kept (λ s. s.table) env t i at reason into r (λ s. refl) (λ s. refl))
      (buried-kept (λ s. s.raw) env t i at reason into r (λ s. refl) (λ s. refl))

both : (a b : Bool) → a ≡ true → b ≡ true → (a && b) ≡ true
both a b p q = ground arith

bury_if-deleted :
    (env : Env) (b : Bool) (r : Row) → b ≡ true → is_some (bury_if env b r).deleted_at ≡ true
bury_if-deleted env b r e = ground arith

pub buried-deleted :
    (env : Env) (t i : String) (at : Option String) (reason : String) (into : Option String)
    (r : Row)
    → contains gone reason ≡ true
    → owned_by t i r ≡ true
    → is_some (buried env t i at reason into r).deleted_at ≡ true
unfolding tombstone_change
buried-deleted env t i at reason into r g o =
    let r' = marked env t i at reason into r in
    bury_if-deleted env (contains gone reason && owned_by t i r') r' (
      both _ _ g (
        owned_by-congr t i r' r
          (if_field (λ s. s.table) (is_at t i r && may_bury at reason r)
            (tombstone_change env at reason into r) r refl)
          (if_field (λ s. s.raw) (is_at t i r && may_bury at reason r)
            (tombstone_change env at reason into r) r refl)
        ∙ o))
