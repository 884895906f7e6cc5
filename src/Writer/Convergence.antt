-- ===== src/Writer/Convergence.antt =====
-- writer.py, `upsert`: whatever the order and the number of its deliveries, a record ends as its
-- newest payload.
use pcomirror.Store.{SyncSource}
use mathlib.Core.Option
use mathlib.Core.Path.{subst}
use pcomirror.Prelude.{
  String, ◌≡◌, refl, true, false, Option, none, some, List, [], ◌∷◌, arith, ◌∙◌, Option-cases, inl,
  inr, ap, sym, newer, ◌⊎◌,
}
use pcomirror.Prelude.Order.{lt_asym, lt_irrefl}
use pcomirror.Result.{Result, ok, ◌>>=◌}
use pcomirror.Json.{Json}
use pcomirror.Store.{Row, select, uat, put_row}
use pcomirror.Store.Laws.{upserted}
use pcomirror.Writer.Ops.{Env, fresh, is_table}
use pcomirror.Writer.Upsert.{keep_raw, upsert, upsert_change, settle}
use pcomirror.Writer.Look.{look, look-settle_self, untyped, is_at-fresh}

-- The payload stored at a key.
abbrev pub raw_at : String → String → List Row → Option Json
raw_at t i rs = Option.map (λ r. r.raw) (select t i rs)

raw_of_look :
    (t i : String) (rs : List Row) (r : Row)
    → look t i rs ≡ some (untyped r)
    → raw_at t i rs ≡ some r.raw
raw_of_look t i rs r e = elim (Option-cases (select t i rs)) [
  | inl n ↦ ground arith
  | inr (s, n) ↦ ground arith
]

-- What a write of `incoming` leaves of what was held.
abbrev pub kept : Json → Option Json → Json
kept incoming none = incoming
kept incoming (some held) = keep_raw held incoming

kept_of_row :
    (env : Env) (t i : String) (raw : Json) (source : SyncSource) (o : Option Row)
    → (upserted (fresh env t i raw source) (upsert_change env raw source) o).raw
      ≡ kept raw (Option.map (λ r. r.raw) o)
unfolding upsert_change
kept_of_row env t i raw source none = refl
kept_of_row env t i raw source (some r) = refl

-- On a table of the registry `upsert` goes through, and stores the payload that `keep_raw` chooses.
pub raw_at-upsert :
    (env : Env) (t i : String) (raw : Json) (source : SyncSource) (rs : List Row)
    → is_table t ≡ true
    → (rs' : List Row) × (upsert env t i raw source rs ≡ ok rs')
      × (raw_at t i rs' ≡ some (kept raw (raw_at t i rs)))
unfolding upsert upsert_change
raw_at-upsert env t i raw source rs h = (
  settle env t i (put_row (fresh env t i raw source) (upsert_change env raw source) rs),
  rw h refl,
  raw_of_look t i _
        (upserted (fresh env t i raw source) (upsert_change env raw source) (select t i rs))
        (look-settle_self env t i (fresh env t i raw source) (upsert_change env raw source) rs
          (is_at-fresh env t i raw source) (λ r. (refl, refl)))
      ∙ ap some (kept_of_row env t i raw source (select t i rs)),
)

-- `q` is `p` again, or strictly older than it.
abbrev pub NotAfter : Json → Json → Type 0
NotAfter p q = (q ≡ p) ⊎ (newer (uat p) (uat q) ≡ true)

pub newer_asym : (a b : Option String) → newer a b ≡ true → newer b a ≡ false
newer_asym none b h = cc
newer_asym (some a) none h = cc
newer_asym (some a) (some b) h = lt_asym b a h

pub newer_irrefl : (a : Option String) → newer a a ≡ false
newer_irrefl none = refl
newer_irrefl (some a) = lt_irrefl a

keep_raw_self : (p : Json) → keep_raw p p ≡ p
unfolding keep_raw
keep_raw_self p = ground arith

-- Once the newest payload is stored it stays.
keep_raw-stays : (p q : Json) → NotAfter p q → keep_raw p q ≡ p
unfolding keep_raw
keep_raw-stays p q (inl e) = rw e (ground arith)
keep_raw-stays p q (inr h) = ground (arith, newer_asym (uat p) (uat q) h)

-- It replaces what was stored before.
keep_raw-takes : (p h : Json) → NotAfter p h → keep_raw h p ≡ p
unfolding keep_raw
keep_raw-takes p h (inl e) = rw e (ground arith)
keep_raw-takes p h (inr n) = ground arith

keep_raw-cases : (h q : Json) → (keep_raw h q ≡ h) ⊎ (keep_raw h q ≡ q)
unfolding keep_raw
keep_raw-cases h q = ground arith

-- Of two older ones the one that is kept is older too.
keep_raw-NotAfter : (p h q : Json) → NotAfter p h → NotAfter p q → NotAfter p (keep_raw h q)
keep_raw-NotAfter p h q a b = elim (keep_raw-cases h q) [
  | inl e ↦ subst (NotAfter p) (sym e) a
  | inr e ↦ subst (NotAfter p) (sym e) b
]

-- One delivery of a record: when it came, from where, and its payload.
pub record Delivery : Type 0 where
  pub env : Env
  pub source : SyncSource
  pub payload : Json

-- The deliveries of one record, each written by `upsert` in turn.
pub deliver : String → String → List Delivery → List Row → Result (List Row)
deliver t i [] rs = ok rs
deliver t i (d ∷ ds) rs = do rs' ← upsert d.env t i d.payload d.source rs; deliver t i ds rs'

abbrev pub AllNotAfter : Json → List Delivery → Type 0
AllNotAfter p [] = Unit
AllNotAfter p (d ∷ ds) = NotAfter p d.payload × AllNotAfter p ds

abbrev pub Delivered : Json → List Delivery → Type 0
Delivered p [] = ⊥
Delivered p (d ∷ ds) = (d.payload ≡ p) ⊎ Delivered p ds

abbrev pub HeldNotAfter : Json → Option Json → Type 0
HeldNotAfter p none = Unit
HeldNotAfter p (some h) = NotAfter p h

kept-takes : (p : Json) (o : Option Json) → HeldNotAfter p o → kept p o ≡ p
kept-takes p none h = refl
kept-takes p (some q) h = keep_raw-takes p q h

kept-NotAfter :
    (p q : Json) (o : Option Json) → NotAfter p q → HeldNotAfter p o → NotAfter p (kept q o)
kept-NotAfter p q none a h = a
kept-NotAfter p q (some r) a h = keep_raw-NotAfter p r q h a

-- What a run of deliveries ends with, if it goes through.
abbrev Ends : String → String → Json → Result (List Row) → Type 0
Ends t i p r = (rs' : List Row) × (r ≡ ok rs') × (raw_at t i rs' ≡ some p)

deliver-stays :
    (t i : String) (p : Json) (ds : List Delivery) (rs : List Row)
    → is_table t ≡ true
    → raw_at t i rs ≡ some p
    → AllNotAfter p ds
    → Ends t i p (deliver t i ds rs)
unfolding deliver
deliver-stays t i p [] rs h e a = (rs, refl, e)
deliver-stays t i p (d ∷ ds) rs h e (a, as') =
    let (rs', went, now) = raw_at-upsert d.env t i d.payload d.source rs h in
    rw went (
      deliver-stays t i p ds rs' h
        (now ∙ ap some (ap (kept d.payload) e ∙ keep_raw-stays p d.payload a)) as')

-- Webhooks arrive late, twice and out of order. Whenever the deliveries of a record hold a payload
-- that all the others, and what was stored before, are copies of or strictly older than, every
-- `upsert` goes through and that payload is what the mirror ends with.
pub deliver-newest :
    (t i : String) (p : Json) (ds : List Delivery) (rs : List Row)
    → is_table t ≡ true
    → HeldNotAfter p (raw_at t i rs)
    → AllNotAfter p ds
    → Delivered p ds
    → (rs' : List Row) × (deliver t i ds rs ≡ ok rs') × (raw_at t i rs' ≡ some p)
unfolding deliver
deliver-newest t i p [] rs h b a m = absurd m
deliver-newest t i p (d ∷ ds) rs h b (a, as') (inl e) =
    let (rs', went, now) = raw_at-upsert d.env t i d.payload d.source rs h in
    rw went (
      deliver-stays t i p ds rs' h
        (now ∙ ap some (ap (λ q. kept q (raw_at t i rs)) e ∙ kept-takes p (raw_at t i rs) b)) as')
deliver-newest t i p (d ∷ ds) rs h b (a, as') (inr m) =
    let (rs', went, now) = raw_at-upsert d.env t i d.payload d.source rs h in
    rw went (
      deliver-newest t i p ds rs' h
        (subst (HeldNotAfter p) (sym now) (kept-NotAfter p d.payload (raw_at t i rs) a b)) as' m)
