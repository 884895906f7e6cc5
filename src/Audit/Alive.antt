-- ===== src/Audit/Alive.antt =====
-- writer.py: no write of the router kills a live record.
use pcomirror.Store.{SyncSource}
use mathlib.Core.Path.{subst}
use mathlib.Core.Option
use pcomirror.Prelude.{
  String, ◌≡◌, refl, Bool, true, false, Option, none, some, List, if◌then◌else◌, arith, eq_iff,
  Bool-cases, Option-cases, inl, inr, ap, sym, ◌∙◌,
}
use pcomirror.Result.{ok, err}
use pcomirror.Json.{Json}
use pcomirror.Store.{Row, select, is_at, is_live, put_row}
use pcomirror.Store.Laws.{KeepsKey, upserted, select-put_row}
use pcomirror.Writer.Ops.{Env, is_table, fresh}
use pcomirror.Writer.Upsert.{upsert, upsert_untimed, upsert_change, untimed_change, settle}
use pcomirror.Writer.Cascade.{unbury_if}
use pcomirror.Writer.Look.{untyped, look-settle_self, look-settle_ne, is_at-fresh}
use pcomirror.Writer.Route.{route_page}
use pcomirror.Writer.Routing.{Keeps, route_page-Keeps}
use pcomirror.Ingest.Buried.{ok_inj}
use pcomirror.Ingest.Confirmed.{IsLive, as_seen}

-- A change of a row that leaves a live one live.
abbrev pub Spares : (Row → Row) → Type 0
Spares change = (r : Row) → r.deleted_at ≡ none → (change r).deleted_at ≡ none

live_row : (r : Row) → is_live (some r) ≡ true → r.deleted_at ≡ none
live_row r h = elim (Option-cases r.deleted_at) [
  | inl e ↦ e
  | inr (d, e) ↦ (let bad = rw (e) at h in cc)
]

row_live : (r : Row) → r.deleted_at ≡ none → is_live (some r) ≡ true
row_live r e = rw (e) refl

live_upserted :
    (new : Row) (change : Row → Row) (o : Option Row)
    → Spares change
    → is_live o ≡ true
    → is_live (some (upserted new change o)) ≡ true
live_upserted new change none s h = cc
live_upserted new change (some r) s h = row_live (change r) (s r (live_row r h))

unburied_live :
    (env : Env) (b : Row → Bool) (o : Option Row)
    → is_live o ≡ true
    → is_live (Option.map untyped (Option.map (λ r. unbury_if env (b r) r) o)) ≡ true
unburied_live env b none h = cc
unburied_live env b (some r) h = ground arith

module _ (t i : String) (env : Env) (t' k : String) (raw : Json) (source : SyncSource)
    (change : Row → Row) (keeps : KeepsKey change) (spares : Spares change) (rs : List Row)
    (live : IsLive t i rs) where
  settle_self :
      t' ≡ t → k ≡ i → IsLive t i (settle env t' k (put_row (fresh env t' k raw source) change rs))
  settle_self p q =
      let live' : IsLive t' k rs =
        subst (λ x. IsLive x k rs) (sym p) (subst (λ x. IsLive t x rs) (sym q) live) in
      let out : IsLive t' k (settle env t' k (put_row (fresh env t' k raw source) change rs)) =
        as_seen t' k _
          (look-settle_self env t' k (fresh env t' k raw source) change rs
            (is_at-fresh env t' k raw source) keeps)
          (live_upserted (fresh env t' k raw source) change (select t' k rs) spares live') in
      subst (λ x. IsLive x i (settle env t' k (put_row (fresh env t' k raw source) change rs))) p
        (subst (λ x. IsLive t' x (settle env t' k (put_row (fresh env t' k raw source) change rs)))
          q out)

  settle-IsLive : IsLive t i (settle env t' k (put_row (fresh env t' k raw source) change rs))
  settle-IsLive = elim (Bool-cases (is_at t i (fresh env t' k raw source))) [
    | inl y ↦ settle_self (ground (arith, eq_iff t' t)) (ground (arith, eq_iff k i))
    | inr n ↦
        as_seen t i _
          (look-settle_ne env t' k (fresh env t' k raw source) change rs
            (is_at-fresh env t' k raw source) keeps t i n)
          (unburied_live env _ (select t i rs) live)
  ]

  put-IsLive : IsLive t i (put_row (fresh env t' k raw source) change rs)
  put-IsLive =
      ap is_live (select-put_row t i (fresh env t' k raw source) change rs keeps)
      ∙ chosen (is_at t i (fresh env t' k raw source))
    where
      chosen :
          (b : Bool)
          → is_live (
              if b
              then some (upserted (fresh env t' k raw source) change (select t i rs))
              else select t i rs)
            ≡ true
      chosen true = live_upserted (fresh env t' k raw source) change (select t i rs) spares live
      chosen false = live

upsert-IsLive :
    (t i : String) (env : Env) (t' k : String) (raw : Json) (source : SyncSource)
    → Keeps (IsLive t i) (upsert env t' k raw source)
unfolding upsert upsert_change
upsert-IsLive t i env t' k raw source rs rs' live e = elim (Bool-cases (is_table t')) [
  | inr f ↦ (let bad : err _ ≡ ok rs' = rw (f) at e in cc)
  | inl y ↦
      (let same = rw (y) at e in
        subst (IsLive t i) (ok_inj same) (
          settle-IsLive t i env t' k raw source (upsert_change env raw source) (λ r. (refl, refl))
            (λ r d. rw (d) refl) rs live))
]

untimed-IsLive :
    (t i : String) (env : Env) (t' k : String) (raw : Json) (source : SyncSource)
    → Keeps (IsLive t i) (upsert_untimed env t' k raw source)
unfolding upsert_untimed untimed_change
untimed-IsLive t i env t' k raw source rs rs' live e = elim (Bool-cases (is_table t')) [
  | inr f ↦ (let bad : err _ ≡ ok rs' = rw (f) at e in cc)
  | inl y ↦
      (let same = rw (y) at e in
        subst (IsLive t i) (ok_inj same) (
          put-IsLive t i env t' k raw source (untimed_change env raw source) (λ r. (refl, refl))
            (λ r d. d) rs live))
]

-- A page kills no live record, also one that stops at an exception.
pub route_page-IsLive :
    (t i : String) (env : Env) (source : SyncSource) (synthesized : List String)
    (hint : Option Json) (body : Json) (rs : List Row)
    → IsLive t i rs
    → IsLive t i (route_page env source synthesized hint body rs).0
route_page-IsLive t i env source synthesized hint body rs live =
    route_page-Keeps (IsLive t i) (upsert-IsLive t i) (untimed-IsLive t i) env source synthesized
      hint body rs live
