-- ===== src/Audit/Spares.antt =====
-- ingest.py: one request of the audit kills no live record but on its own 404.
use pcomirror.Store.{from_reconcile}
use pcomirror.Prelude.{
  String, ◌≡◌, refl, Bool, true, false, none, List, [], ◌∷◌, ◌==◌, ◌||◌, not, if◌then◌else◌, ap,
  sym, ◌∙◌,
}
use pcomirror.Result.{Result, ok, err}
use pcomirror.Json.{Json, null, truthy}
use pcomirror.Registry.{Resource}
use pcomirror.Store.{Row, is_live}
use pcomirror.Client.Request.{Response, is_ok}
use pcomirror.Webhooks.State.{World}
use pcomirror.Writer.Tombstone.{tombstone}
use pcomirror.Writer.Upsert.{confirm_live}
use pcomirror.Writer.Route.{route_page}
use pcomirror.Ingest.Remote.{Step, ◌and◌, reading, writing, is_absent, Remote}
use pcomirror.Ingest.Refresh.{entries_of}
use pcomirror.Ingest.Hydrate.{restore_one, store_restored, restored_page, include_param, fetched_of}
use pcomirror.Ingest.Replaced.{select-tombstone_ne}
use pcomirror.Ingest.Confirmed.{IsLive, confirm_live-IsLive}
use pcomirror.Audit.Alive.{route_page-IsLive}
use pcomirror.Audit.Round.{Round, Audit, Going, ◌going◌}
use pcomirror.Audit.Enumerate.{id_in, read_page, insert_live, audit_params}
use pcomirror.Audit.Settle.{path_to, confirm_answer, object_of}

-- A property of the tables that a chain of steps keeps, also one that stops at an exception.
pub and-Kept :
    {A B : Type 0} (P : List Row → Type 0) (s : Step A) (f : A → List Row → Step B)
    → P s.0
    → ((a : A) (rs : List Row) → P rs → P (f a rs).0)
    → P (s and f).0
and-Kept P (rs, ok a) f p h = h a rs p
and-Kept P (rs, err e) f p h = p

pub writing-Kept :
    (P : List Row → Type 0) (m : Result (List Row)) (rs : List Row)
    → P rs
    → ((rs' : List Row) → m ≡ ok rs' → P rs')
    → P (writing m rs).0
writing-Kept P (ok rs') rs p h = h rs' refl
writing-Kept P (err e) rs p h = p

pub branch-Kept :
    {A : Type 0} (P : List Row → Type 0) (b : Bool) (x y : Step A)
    → (b ≡ true → P x.0)
    → (b ≡ false → P y.0)
    → P (if b then x else y).0
branch-Kept P true x y h k = h refl
branch-Kept P false x y h k = k refl

-- The same of what is stored for the audit.
pub going-Kept :
    {A B : Type 0} (P : Audit → Type 0) (m : Going A) (f : A → Audit → Going B)
    → P m.0
    → ((x : A) (a : Audit) → m ≡ (a, ok x) → P a → P (f x a).0)
    → P (m going f).0
going-Kept P (a, ok x) f p h = h x a refl p
going-Kept P (a, err e) f p h = p

module _ (w : World) (r : Resource) (i : String) where
  abbrev pub Live : List Row → Type 0
  Live rs = IsLive r.table i rs

  buried_other :
      (h : String) (rs : List Row)
      → (h == i) ≡ false
      → Live rs
      → Live (writing (tombstone w.env r.table h null "audit_absent" none rs) rs).0
  buried_other h rs ne l =
      writing-Kept Live (tombstone w.env r.table h null "audit_absent" none rs) rs l
        (λ rs' e. ap is_live (select-tombstone_ne w.env r.table h i "audit_absent" rs ne e) ∙ l)

  confirmed :
      (h : String) (o : Json) (rs : List Row)
      → Live rs
      → Live (writing (confirm_live w.env r.table h o from_reconcile rs) rs).0
  confirmed h o rs l =
      writing-Kept Live (confirm_live w.env r.table h o from_reconcile rs) rs l (λ rs' e.
        confirm_live-IsLive w.env r.table h i o from_reconcile rs e (rw (l) (or_true (h == i))))
    where
      or_true : (b : Bool) → (b || true) ≡ true
      or_true true = refl
      or_true false = refl

  pub confirm_answer-Live :
      (h : String) (resp : Response) (rs : List Row)
      → ((h == i) ≡ true → is_absent resp ≡ false)
      → Live rs
      → Live (confirm_answer w r h resp rs).0
  unfolding confirm_answer
  confirm_answer-Live h resp rs present l =
      branch-Kept Live (is_absent resp) _ _
        (λ a.
          and-Kept Live (writing (tombstone w.env r.table h null "audit_absent" none rs) rs) _
            (buried_other h rs (not_it (h == i) a present) l) (λ u rs' l'. l'))
        (λ a.
          branch-Kept Live (is_ok resp) _ _
            (λ b. and-Kept Live (reading (object_of w resp) rs) _ l (λ o rs1 l1.
              branch-Kept Live (truthy o) _ _
                (λ t. and-Kept Live _ _ (confirmed h o rs1 l1) (λ u rs' l'. l')) (λ f. l1)))
            (λ b. l))
    where
      not_it : (b : Bool) → is_absent resp ≡ true → (b ≡ true → is_absent resp ≡ false) → b ≡ false
      not_it true a p = sym a ∙ p refl
      not_it false a p = refl

  store_restored-Live :
      (h : String) (o included : Json) (rs : List Row)
      → Live rs
      → Live (store_restored w r h o included rs).0
  unfolding store_restored
  store_restored-Live h o included rs l =
      and-Kept Live
        (route_page w.env from_reconcile [] none (restored_page included) rs
          and (λ n rs1. writing (confirm_live w.env r.table h o from_reconcile rs1) rs1))
        _
        (and-Kept Live (route_page w.env from_reconcile [] none (restored_page included) rs) _
          (route_page-IsLive r.table i w.env from_reconcile [] none (restored_page included) rs l)
          (λ n rs1 l1. confirmed h o rs1 l1))
        (λ u rs2 l2. l2)

  pub restore_one-Live :
      (remote : Remote) (h : String) (rs : List Row)
      → Live rs
      → Live (restore_one w remote r h rs).0
  unfolding restore_one
  restore_one-Live remote h rs l =
      and-Kept Live (reading (remote (path_to r h) (include_param r.includes)) rs) _ l
        (λ resp rs1 l1.
          branch-Kept Live (not (is_ok resp)) _ _ (λ a. l1)
            (λ a. and-Kept Live (reading (fetched_of w resp) rs1) _ l1 (λ got rs2 l2.
              branch-Kept Live (truthy got.0) _ _ (λ t. store_restored-Live h got.0 got.1 rs2 l2)
                (λ f. l2))))

  -- The same of what is stored.
  abbrev pub LiveIn : Audit → Type 0
  LiveIn a = Live a.db.rows

  insert_live-LiveIn : (ds : List Json) (a : Audit) → LiveIn a → LiveIn (insert_live ds a).0
  unfolding insert_live
  insert_live-LiveIn [] a l = l
  insert_live-LiveIn (d ∷ ds) a l =
      going-Kept LiveIn (a, id_in d) _ l (λ k a1 e l1. insert_live-LiveIn ds _ l1)

  pub read_page-LiveIn :
      (remote : Remote) (st : Round) (a : Audit) → LiveIn a → LiveIn (read_page w remote r st a).0
  unfolding read_page
  read_page-LiveIn remote st a l =
      going-Kept LiveIn
        ((a, remote r.endpoint (audit_params r st)) going (λ resp a1. (a1, entries_of w resp))) _
        (going-Kept LiveIn (a, remote r.endpoint (audit_params r st)) _ l (λ resp a1 e l1. l1))
        (λ ds a2 e l2.
          going-Kept LiveIn (insert_live ds a2) _ (insert_live-LiveIn ds a2 l2) (λ u a3 e3 l3. l3))
