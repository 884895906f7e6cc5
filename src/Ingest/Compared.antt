-- ===== src/Ingest/Compared.antt =====
-- ingest.py: `_include_diff` as a whole.
use mathlib.Core.Path.{subst}
use pcomirror.Prelude.{
  String, ◌≡◌, refl, Bool, true, false, Option, none, List, [], ◌∷◌, ◌==◌, ◌&&◌, if◌then◌else◌,
  arith, All, Bool-cases, inl, inr, ap, sym, ◌∙◌,
}
use pcomirror.Result.{ok}
use pcomirror.Json.{Json, null}
use pcomirror.Registry.{Resource, resources}
use pcomirror.Registry.Ownership.{all}
use pcomirror.Store.{Row, select, is_at}
use pcomirror.Webhooks.State.{World, bind}
use pcomirror.Writer.Tombstone.{tombstone, tombstone_change, may_bury, stable_ts}
use pcomirror.Ingest.Remote.{
  ◌and◌, reading, writing, and_ok, writing_ok, After, and-After, After_ok, map-After, both-After,
  branch-After,
}
use pcomirror.Ingest.Walk.{live_in, bury_where, bury_unseen, ids_where}
use pcomirror.Ingest.Authority.{Spared, bury_where-Spared}
use pcomirror.Ingest.Buried.{tombstone-All, ok_inj}
use pcomirror.Ingest.Spares.{IsSafe, Same, diff_children-Same, leaves}
use pcomirror.Ingest.Diff.{
  is_asked, is_named, is_of, diff_children, Pairs, include_diff, answered_of, Answered, asked_for,
}

contrary : {A : Type 0} → true ≡ false → A
contrary {A} e = subst (λ b. elim b [ true ↦ Unit | false ↦ A ]) e tt

-- What a pass made true of its own table, the later ones leave true.
module _ (w : World) (t reason : String) (test : Json → Bool) (spared : String → Bool) where
  abbrev pub Kept : List Row → Type 0
  Kept rs = All (Spared w t reason test spared) rs

  marked-Spared :
      (ct h why : String) (at : Option String) (row : Row)
      → Spared w t reason test spared row
      → Spared w t reason test spared (
          if is_at ct h row && may_bury at why row
          then tombstone_change w.env at why none row
          else row)
  unfolding tombstone_change
  marked-Spared ct h why at row s = ground (arith, s)

  bury_unseen-Kept :
      (ct why : String) (spared' : String → Bool) (todo : List String) (rs : List Row)
      {rs' : List Row} {u : Unit {0}}
      → Kept rs
      → bury_unseen w ct why spared' todo rs ≡ (rs', ok u)
      → Kept rs'
  unfolding bury_unseen
  bury_unseen-Kept ct why spared' [] rs k e = subst Kept (ap (λ p. p.0) e) k
  bury_unseen-Kept ct why spared' (h ∷ todo) rs k e = elim (Bool-cases (spared' h)) [
    | inl s ↦ bury_unseen-Kept ct why spared' todo rs k (let e' = rw (s) at e in e')
    | inr s ↦
        let e' = rw (s) at e in
        let (u, rs1, m, f) = and_ok (writing (tombstone w.env ct h null why none rs) rs) _ e' in
        bury_unseen-Kept ct why spared' todo rs1
          (tombstone-All (Spared w t reason test spared) (Spared w t reason test spared) w.env ct h
            null why none rs (λ row n. marked-Spared ct h why (stable_ts null) row n)
            (λ row n. ground (arith, n)) (writing_ok _ rs m) k)
          f
  ]

  diff_children-Kept :
      (key : Json) (asked : List String) (present claimed : Pairs) (cs : List Resource)
      (rs : List Row)
      → Kept rs
      → After (λ u rs'. Kept rs') (diff_children w key asked present claimed cs rs)
  unfolding diff_children bury_where
  diff_children-Kept key asked present claimed [] rs k = k
  diff_children-Kept key asked present claimed (c ∷ cs) rs k =
      elim (Bool-cases (is_asked asked c)) [
        | inr a ↦ rw (a) (diff_children-Kept key asked present claimed cs rs k)
        | inl a ↦ rw (a) (
            and-After (λ u rs'. Kept rs')
              (reading (bind key) rs and (λ p rs1.
                bury_where w c.table "absent" (is_of c p) (is_named present claimed c) rs1))
              _
              (λ u rs2 e2.
                let (p, rs1, e3, e4) = and_ok (reading (bind key) rs) _ e2 in
                diff_children-Kept key asked present claimed cs rs2 (
                  bury_unseen-Kept c.table "absent" (is_named present claimed c)
                    (ids_where (live_in c.table (is_of c p)) rs1) rs1
                    (subst Kept (ap (λ q. q.0) e3) k) e4)))
      ]

module _ (w : World) (key : Json) (asked : List String) (present claimed : Pairs) where
  -- The live children of an asked kind that belong to the person are named by the answer.
  abbrev pub IsCompared : List Row → Resource → Type 0
  IsCompared rs c =
      is_asked asked c ≡ true
      → (p : Option String) → bind key ≡ ok p
      → All
          (λ row.
            live_in c.table (is_of c p) row ≡ true → is_named present claimed c row.pco_id ≡ true)
          rs

  bound :
      (p : Option String) (rs rs1 : List Row)
      → reading (bind key) rs ≡ (rs1, ok p)
      → bind key ≡ ok p
  bound p rs rs1 e = ap (λ q. q.1) e

  as-IsCompared :
      (c : Resource) (p : Option String) (rs : List Row)
      → bind key ≡ ok p
      → Kept w c.table "absent" (is_of c p) (is_named present claimed c) rs
      → IsCompared rs c
  as-IsCompared c p rs e k a p' e' =
      subst
        (λ q.
          All
            (λ row.
              live_in c.table (is_of c q) row ≡ true → is_named present claimed c row.pco_id ≡ true)
            rs)
        (ok_inj (sym e ∙ e')) k

  asked_branch :
      (c : Resource) (cs : List Resource) (rs : List Row)
      → is_asked asked c ≡ true
      → ((rs2 : List Row)
          → After
              (λ u rs'. All (IsCompared rs') cs)
              (diff_children w key asked present claimed cs rs2))
      → After
          (λ u rs'. All (IsCompared rs') (c ∷ cs))
          ((reading (bind key) rs and (λ p rs1.
              bury_where w c.table "absent" (is_of c p) (is_named present claimed c) rs1))
            and (λ u rs2. diff_children w key asked present claimed cs rs2))
  asked_branch c cs rs a later =
      (and-After (λ u rs'. All (IsCompared rs') (c ∷ cs))
        (reading (bind key) rs
          and (λ p rs1. bury_where w c.table "absent" (is_of c p) (is_named present claimed c) rs1))
        _
        (λ u rs2 e2.
          let (p, rs1, e3, e4) = and_ok (reading (bind key) rs) _ e2 in
          let spared =
            bury_where-Spared w c.table "absent" (is_of c p) (is_named present claimed c) rs1 e4 in
          map-After
            (λ u' rs'.
              Kept w c.table "absent" (is_of c p) (is_named present claimed c) rs'
              × All (IsCompared rs') cs)
            (λ u' rs'. All (IsCompared rs') (c ∷ cs)) _
            (λ u' rs' h. (as-IsCompared c p rs' (bound p rs rs1 e3) h.0, h.1))
            (both-After
              (λ u' rs'. Kept w c.table "absent" (is_of c p) (is_named present claimed c) rs')
              (λ u' rs'. All (IsCompared rs') cs) _
              (diff_children-Kept w c.table "absent" (is_of c p) (is_named present claimed c) key
                asked present claimed cs rs2 spared)
              (later rs2))))

  diff_children-IsCompared :
      (cs : List Resource) (rs : List Row)
      → After (λ u rs'. All (IsCompared rs') cs) (diff_children w key asked present claimed cs rs)
  unfolding diff_children
  diff_children-IsCompared [] rs = tt
  diff_children-IsCompared (c ∷ cs) rs =
      branch-After (λ u rs'. All (IsCompared rs') (c ∷ cs)) (is_asked asked c) _ _
        (λ a. asked_branch c cs rs a (λ rs2. diff_children-IsCompared cs rs2))
        (λ a.
          map-After (λ u rs'. All (IsCompared rs') cs) (λ u rs'. All (IsCompared rs') (c ∷ cs)) _
            (λ u rs' h. ((λ b. contrary (sym b ∙ a)), h)) (diff_children-IsCompared cs rs))

-- Does the answer name the record, if it stands in the table of an asked kind of child?
abbrev pub is_safe : List String → Pairs → Pairs → String → String → Resource → Bool
is_safe asked present claimed t i c =
    if is_asked asked c && c.table == t then is_named present claimed c i else true

as_safes :
    (w : World) (key : Json) (asked : List String) (present claimed : Pairs) (t i : String)
    (cs : List Resource)
    → all (is_safe asked present claimed t i) cs ≡ true
    → All (IsSafe w key asked present claimed t i) cs
as_safes w key asked present claimed t i [] h = tt
as_safes w key asked present claimed t i (c ∷ cs) h = (
  (λ a. first (is_asked asked c && c.table == t) (is_named present claimed c i) a (fst_true _ _ h)),
  as_safes w key asked present claimed t i cs (snd_true _ _ h),
)
  where
    first : (a b : Bool) → a ≡ true → (if a then b else true) ≡ true → b ≡ true
    first a b p q = ground arith

    fst_true : (a b : Bool) → (a && b) ≡ true → a ≡ true
    fst_true a b p = ground arith

    snd_true : (a b : Bool) → (a && b) ≡ true → b ≡ true
    snd_true a b p = ground arith

-- Only children that the answer does not name are buried: the diff leaves a record as it is unless
-- it stands in the table of a kind of child that was asked for and neither `included[]` nor the
-- person's own relationships name it.
pub include_diff-spares :
    (w : World) (person included : Json) (requested : List String) (t i : String) (rs : List Row)
    {rs' : List Row} {u : Unit {0}} (a : Answered)
    → answered_of w person included ≡ ok a
    → all (is_safe (asked_for requested) a.present a.claimed t i) resources ≡ true
    → include_diff w person included requested rs ≡ (rs', ok u)
    → select t i rs' ≡ select t i rs
unfolding include_diff
include_diff-spares w person included requested t i rs a ea safe e =
    let e' = rw (ea) at e in
    After_ok (Same w a.key (asked_for requested) a.present a.claimed t i (select t i rs)) _
      (diff_children-Same w a.key (asked_for requested) a.present a.claimed t i (select t i rs)
        resources rs leaves
        (as_safes w a.key (asked_for requested) a.present a.claimed t i resources safe) refl)
      e'

-- A child that was deleted alone is found: after the diff, every live row of an asked kind of child
-- that belongs to the person is one that `included[]` or the person's own relationships name.
pub include_diff-IsCompared :
    (w : World) (person included : Json) (requested : List String) (rs : List Row) {rs' : List Row}
    {u : Unit {0}} (a : Answered)
    → answered_of w person included ≡ ok a
    → include_diff w person included requested rs ≡ (rs', ok u)
    → All (IsCompared w a.key (asked_for requested) a.present a.claimed rs') resources
unfolding include_diff
include_diff-IsCompared w person included requested rs a ea e =
    let e' = rw (ea) at e in
    After_ok
      (λ u rs'. All (IsCompared w a.key (asked_for requested) a.present a.claimed rs') resources) _
      (diff_children-IsCompared w a.key (asked_for requested) a.present a.claimed resources rs) e'
