-- ===== src/Ingest/Confirmed.antt =====
-- ingest.py: what a refresh lists is live afterwards.
use pcomirror.Store.{SyncSource, from_reconcile}
use mathlib.Core.Path.{subst}
use mathlib.Core.Option
use Prim.Native.Nat.{◌+◌}
use pcomirror.Prelude.{
  ℕ, zero, suc, String, ◌≡◌, refl, Bool, true, Option, none, some, List, [], ◌∷◌, ◌==◌, ◌&&◌, ◌||◌,
  if◌then◌else◌, contains, arith, eq_iff, Bool-cases, inl, inr, ap, sym, ◌∙◌, length, ltb,
}
use pcomirror.Result.{ok, err, ok_of_bind}
use pcomirror.Json.{Json, null, bool, num, str, arr, obj, bind_text, item}
use pcomirror.Registry.{Resource}
use pcomirror.Store.{Row, select, is_live, put_row}
use pcomirror.Webhooks.State.{World}
use pcomirror.Writer.Ops.{Env, is_table, fresh}
use pcomirror.Writer.Upsert.{confirm_live, confirm_change, settle}
use pcomirror.Writer.Project.{project_each, data_of, reproject_field_data}
use pcomirror.Writer.Cascade.{select-key, owned_by, unbury_if}
use pcomirror.Writer.Owned.{owned_by-own}
use pcomirror.Writer.Look.{
  look, untyped, look-project, look-settle_self, look-settle_ne, is_at-fresh,
}
use pcomirror.Store.Laws.{upserted}
use pcomirror.Ingest.Remote.{
  Remote, add_id, After, reading-After, writing-After, and-After, After_ok,
}
use pcomirror.Ingest.Refresh.{
  confirm_one, confirm_all, refresh_pages, key_of, fetched_with, entries_of,
}
use pcomirror.Ingest.Buried.{ok_inj, if_both}
use pcomirror.Ingest.Replaced.{map_kept}

abbrev pub IsLive : String → String → List Row → Type 0
IsLive t i rs = is_live (select t i rs) ≡ true

pub live_look : (t i : String) (rs : List Row) → is_live (look t i rs) ≡ is_live (select t i rs)
live_look t i rs = bare (select t i rs)
  where
    bare : (o : Option Row) → is_live (Option.map untyped o) ≡ is_live o
    bare none = refl
    bare (some r) = refl

pub as_seen :
    (t i : String) (rs : List Row) {o : Option Row}
    → look t i rs ≡ o
    → is_live o ≡ true
    → IsLive t i rs
as_seen t i rs e l = sym (live_look t i rs) ∙ (ap is_live e ∙ l)

project_each-IsLive :
    (env : Env) (t i : String) (is : List String) (rs : List Row)
    → IsLive t i rs
    → IsLive t i (project_each env is rs)
unfolding project_each
project_each-IsLive env t i [] rs l = l
project_each-IsLive env t i (j ∷ js) rs l =
    project_each-IsLive env t i js _
      (as_seen t i _ (look-project t i env j rs) (live_look t i rs ∙ l))

confirmed_alive :
    (env : Env) (raw : Json) (source : SyncSource) (new : Row) (o : Option Row)
    → new.deleted_at ≡ none
    → is_live (some (untyped (upserted new (confirm_change env raw source) o))) ≡ true
unfolding confirm_change
confirmed_alive env raw source new none e = rw e refl
confirmed_alive env raw source new (some r) e = refl

unowned :
    (env : Env) (t k : String) (b : Bool) (r : Row)
    → r.table ≡ t
    → unbury_if env (owned_by t k r && b) r ≡ r
unowned env t k b r e = ground (arith, owned_by-own t k r e)

settled-IsLive :
    (env : Env) (t k i : String) (raw : Json) (source : SyncSource) (rs : List Row)
    → (k == i || is_live (select t i rs)) ≡ true
    → IsLive t i
        (settle env t k (put_row (fresh env t k raw source) (confirm_change env raw source) rs))
unfolding confirm_change
settled-IsLive env t k i raw source rs h = elim (Bool-cases (k == i)) [
  | inl e ↦
      let same : k ≡ i = ground (arith, eq_iff k i) in
      subst
        (λ x.
          IsLive t x (
            settle env t k (put_row (fresh env t k raw source) (confirm_change env raw source) rs)))
        same
        (as_seen t k _
          (look-settle_self env t k (fresh env t k raw source) (confirm_change env raw source) rs
            (is_at-fresh env t k raw source) (λ r. (refl, refl)))
          (confirmed_alive env raw source (fresh env t k raw source) (select t k rs) refl))
  | inr e ↦
      as_seen t i _
        (look-settle_ne env t k (fresh env t k raw source) (confirm_change env raw source) rs
          (is_at-fresh env t k raw source) (λ r. (refl, refl)) t i (ground (arith, e)))
        (ap (λ o. is_live (Option.map untyped o))
            (map_kept _ (select t i rs) (λ r f. unowned env t k _ r (select-key t i rs r f).0))
          ∙ (live_look t i rs ∙ ground arith))
]

pub confirm_live-IsLive :
    (env : Env) (t k i : String) (raw : Json) (source : SyncSource) (rs : List Row) {rs' : List Row}
    → confirm_live env t k raw source rs ≡ ok rs'
    → (k == i || is_live (select t i rs)) ≡ true
    → IsLive t i rs'
unfolding confirm_live
confirm_live-IsLive env t k i raw source rs {rs'} e h = elim (Bool-cases (is_table t)) [
  | inr f ↦ (let bad : err _ ≡ ok rs' = rw (f) at e in cc)
  | inl y ↦
      (let same = rw (y) at e in
        subst (IsLive t i) (ok_inj same) (settled-IsLive env t k i raw source rs h))
]

kept :
    (i : String) (a : Bool) {xs ys : List String}
    → xs ≡ ys
    → contains ys i ≡ true
    → (a || contains xs i) ≡ true
kept i a e c = rw (ap (λ x. contains x i) e ∙ c) (ground arith)

-- What is added to the fetched ids is the key that was confirmed.
fetched_key :
    (i : String) (j : Json) (fetched fetched' : List String) (k : String)
    → bind_text j ≡ ok k
    → add_id j fetched ≡ ok fetched'
    → contains fetched' i ≡ true
    → (k == i || contains fetched i) ≡ true
fetched_key i (str s) fetched fetched' k b a c =
    (let same = ok_inj b in
      let more = ok_inj a in
      let c' : contains (s ∷ fetched) i ≡ true = ap (λ x. contains x i) more ∙ c in
      subst (λ x. (x == i || contains fetched i) ≡ true) same (ground arith))
fetched_key i (num s) fetched fetched' k b a c = kept i (k == i) (ok_inj a) c
fetched_key i (bool s) fetched fetched' k b a c = kept i (k == i) (ok_inj a) c
fetched_key i null fetched fetched' k b a c = kept i (k == i) (ok_inj a) c
fetched_key i (arr s) fetched fetched' k b a c = cc
fetched_key i (obj s) fetched fetched' k b a c = cc

module _ (w : World) (r : Resource) (i : String) where
  -- What was fetched so far is live.
  abbrev pub AllLive : List String → List Row → Type 0
  AllLive fetched rs = contains fetched i ≡ true → IsLive r.table i rs

  reprojected :
      (k : String) (fetched : List String) (rs : List Row)
      → IsLive r.table i rs
      → IsLive r.table i
          (if r.name == "field_definition" then reproject_field_data w.env k rs else rs)
  unfolding reproject_field_data
  reprojected k fetched rs l =
      if_both (IsLive r.table i) (r.name == "field_definition") _ _
        (project_each-IsLive w.env r.table i (data_of k rs) rs l) l

  fetched_live :
      (d : Json) (k : String) (fetched fetched' : List String) (rs rs1 : List Row)
      → key_of d ≡ ok k
      → confirm_live w.env r.table k d from_reconcile rs ≡ ok rs1
      → fetched_with d fetched ≡ ok fetched'
      → AllLive fetched rs
      → AllLive fetched' rs1
  unfolding key_of fetched_with
  fetched_live d k fetched fetched' rs rs1 ek ec ef h c =
      let (j, ej, bj) = ok_of_bind (λ x. bind_text x) (item "id" d) ek in
      let ef' : add_id j fetched ≡ ok fetched' = rw (ej) at ef in
      let or = fetched_key i j fetched fetched' k bj ef' c in
      confirm_live-IsLive w.env r.table k i d from_reconcile rs ec (elim (Bool-cases (k == i)) [
        | inl t ↦ rw (t) refl
        | inr f ↦ (let or' = rw (f) at or in rw (f) (h or'))
      ])

  confirm_one-AllLive :
      (d : Json) (fetched : List String) (rs : List Row)
      → AllLive fetched rs
      → After AllLive (confirm_one w r d fetched rs)
  unfolding confirm_one
  confirm_one-AllLive d fetched rs h = reading-After AllLive (key_of d) rs _ (λ k ek.
      writing-After AllLive (confirm_live w.env r.table k d from_reconcile rs) rs _ (λ rs1 ec.
        reading-After AllLive (fetched_with d fetched) rs1 _ (λ fetched' ef c.
          reprojected k fetched' rs1 (fetched_live d k fetched fetched' rs rs1 ek ec ef h c))))

  confirm_all-AllLive :
      (ds : List Json) (fetched : List String) (rs : List Row)
      → AllLive fetched rs
      → After AllLive (confirm_all w r ds fetched rs)
  unfolding confirm_all
  confirm_all-AllLive [] fetched rs h = h
  confirm_all-AllLive (d ∷ ds) fetched rs h =
      and-After AllLive (confirm_one w r d fetched rs) _ (λ fetched' rs1 e.
        confirm_all-AllLive ds fetched' rs1
          (After_ok AllLive _ (confirm_one-AllLive d fetched rs h) e))

  -- The same of a refresh that was given fuel enough.
  abbrev pub EndLive : Option (List String) → List Row → Type 0
  EndLive none rs = Unit
  EndLive (some fetched) rs = AllLive fetched rs

  pub refresh_pages-AllLive :
      (remote : Remote) (fuel off : ℕ) (fetched : List String) (rs : List Row)
      → AllLive fetched rs
      → After EndLive (refresh_pages w remote r fuel off fetched rs)
  unfolding refresh_pages
  refresh_pages-AllLive remote zero off fetched rs h = tt
  refresh_pages-AllLive remote (suc fuel) off fetched rs h =
      reading-After EndLive (remote r.endpoint _) rs _ (λ resp e0.
        reading-After EndLive (entries_of w resp) rs _ (λ ds e1.
          and-After EndLive (confirm_all w r ds fetched rs) _ (λ fetched' rs3 e2.
            let live = After_ok AllLive _ (confirm_all-AllLive ds fetched rs h) e2 in
            if_both (After EndLive) (ltb (length ds) 100) _ _ live
              (refresh_pages-AllLive remote fuel (off + 100) fetched' rs3 live))))
