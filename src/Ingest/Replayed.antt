-- ===== src/Ingest/Replayed.antt =====
-- ingest.py: a page of merges that was applied changes nothing when it is read again.
use pcomirror.Store.{from_reconcile}
use mathlib.Core.Path.{subst}
use mathlib.Core.Option
use pcomirror.Prelude.{
  ℕ, String, ◌≡◌, refl, Bool, true, false, Option, none, some, List, [], ◌∷◌, ◌==◌, not, is_some,
  if◌then◌else◌, eq_refl, text_lt, All, Bool-cases, inl, inr, ap, sym, ◌∙◌,
}
use pcomirror.Prelude.Order.{lt_irrefl}
use pcomirror.Result.{ok, err, Result-cases}
use pcomirror.Json.{Json, null}
use pcomirror.Registry.{by_table}
use pcomirror.Store.{Row, select}
use pcomirror.Webhooks.State.{World, Db}
use pcomirror.Webhooks.Hydration.{enqueue_hydration}
use pcomirror.Webhooks.Merger.{merger_is_new, record_merger}
use pcomirror.Writer.Ops.{is_table}
use pcomirror.Writer.Tombstone.{tombstone}
use pcomirror.Writer.Burials.{select-tombstone}
use pcomirror.Ingest.Walk.{in_db}
use pcomirror.Ingest.Mergers.{
  Action, ◌giving◌, Listed, listed_merger, apply_listed, poll_listed, poll_one, poll_page,
  merged_pair,
}
use pcomirror.Ingest.Buried.{ok_inj}
use pcomirror.Ingest.Latest.{not_before_trans, later-grows, later-covers, later-settled}

-- What holds of the outcome of an action that goes through.
abbrev pub Done : {A : Type 0} → (A → Db → Type 0) → Action A → Type 0
Done P (db, ok a) = P a db
Done P (db, err e) = Unit

pub giving-Done :
    {A B : Type 0} (P : B → Db → Type 0) (m : Action A) (f : A → Db → Action B)
    → ((a : A) (db : Db) → m ≡ (db, ok a) → Done P (f a db))
    → Done P (m giving f)
giving-Done P (db, ok a) f h = h a db refl
giving-Done P (db, err e) f h = tt

pub branch-Done :
    {A : Type 0} (P : A → Db → Type 0) (b : Bool) (x y : Action A)
    → (b ≡ true → Done P x)
    → (b ≡ false → Done P y)
    → Done P (if b then x else y)
branch-Done P true x y h k = h refl
branch-Done P false x y h k = k refl

abbrev pub IsKnown : String → Db → Type 0
IsKnown i db = merger_is_new i db ≡ false

-- The row was read, its time is not past the watermark, and its merge is in the log.
abbrev pub IsSettled : String → Db → Json → Type 0
IsSettled wm db m =
    (l : Listed) × (listed_merger m ≡ ok l)
    × (text_lt wm l.created_at ≡ false)
    × IsKnown l.merger db

abbrev pub KnowsMore : Db → Db → Type 0
KnowsMore db db' = (i : String) → IsKnown i db → IsKnown i db'

known_map :
    (f : Row → Row) (o p : Option Row)
    → p ≡ Option.map f o
    → not (is_some o) ≡ false
    → not (is_some p) ≡ false
known_map f none p e h = cc
known_map f (some r) p e h = rw (e) refl

buried-KnowsMore :
    (w : World) (gone : String) (into : Option String) (db : Db) (rs : List Row)
    → tombstone w.env "person" gone null "merged" into db.rows ≡ ok rs
    → KnowsMore db (record db { rows = rs })
unfolding merger_is_new is_table by_table
buried-KnowsMore w gone into db rs e i k =
    let (rs1, e1, s) = select-tombstone w.env "person" gone null "merged" into db.rows refl in
    let same : rs1 ≡ rs = ok_inj (sym e1 ∙ e) in
    subst (λ x. not (is_some (select "person_merger" i x)) ≡ false) same
      (known_map _ (select "person_merger" i db.rows) (select "person_merger" i rs1)
        (s "person_merger" i) k)

logged-IsKnown :
    (w : World) (key : String) (m : Json) (db : Db)
    → IsKnown key (record_merger w key m from_reconcile db)
unfolding record_merger merger_is_new select
logged-IsKnown w key m db = elim (Bool-cases (is_some (select "person_merger" key db.rows))) [
  | inl y ↦ rw (y) (rw (y) refl)
  | inr n ↦ rw (n) (rw (eq_refl key) refl)
]

logged-KnowsMore :
    (w : World) (key : String) (m : Json) (db : Db)
    → KnowsMore db (record_merger w key m from_reconcile db)
unfolding record_merger merger_is_new select
logged-KnowsMore w key m db i k = elim (Bool-cases (is_some (select "person_merger" key db.rows))) [
  | inl y ↦ rw (y) k
  | inr n ↦ rw (n) (elim (Bool-cases (key == i)) [ inl e ↦ rw (e) refl | inr e ↦ rw (e) k ])
]

-- What applying a merge leaves in the log.
abbrev pub Logs : String → Db → Unit {0} → Db → Type 0
Logs key db u db' = IsKnown key db' × KnowsMore db db'

apply_listed-Logs :
    (w : World) (m : Json) (key : String) (pair : String × String) (db : Db)
    → Done (Logs key db) (apply_listed w m key pair db)
unfolding apply_listed in_db enqueue_hydration merger_is_new
apply_listed-Logs w m key (keep, gone) db =
    elim (Result-cases (tombstone w.env "person" gone null "merged" (some keep) db.rows)) [
      | inr (x, e) ↦ rw (e) tt
      | inl (rs, e) ↦ rw (e) (
          (
            logged-IsKnown w key m _,
            λ i k. logged-KnowsMore w key m _ i (buried-KnowsMore w gone (some keep) db rs e i k),
          ))
    ]

-- What a row of the page leaves: it is settled, and what was settled before still is.
abbrev pub Settles : List Json → String → Db → String × ℕ → Db → Type 0
Settles ms wm db at db' = All (IsSettled at.0 db') ms × (text_lt at.0 wm ≡ false) × KnowsMore db db'

still :
    (wm wm' : String) (db db' : Db) (m : Json)
    → text_lt wm' wm ≡ false
    → KnowsMore db db'
    → IsSettled wm db m
    → IsSettled wm' db' m
still wm wm' db db' m lt more (l, e, at, k) =
    (l, e, not_before_trans wm wm' l.created_at lt at, more l.merger k)

poll_listed-Settles :
    (w : World) (m : Json) (l : Listed) (wm : String) (n : ℕ) (db : Db)
    → listed_merger m ≡ ok l
    → Done (Settles (m ∷ []) wm db) (poll_listed w m l (wm, n) db)
unfolding poll_listed
poll_listed-Settles w m l wm n db e =
    branch-Done (Settles (m ∷ []) wm db) (merger_is_new l.merger db) _ _
      (λ new.
        giving-Done (Settles (m ∷ []) wm db)
          ((db, merged_pair w l.attributes) giving (λ pair db1. apply_listed w m l.merger pair db1))
          _
          (λ u db2 went.
            let logs = subst (Done (Logs l.merger db)) went (
              giving-Done (Logs l.merger db) (db, merged_pair w l.attributes) _
                (λ pair db1 e1.
                  subst (λ d. Done (Logs l.merger db) (apply_listed w m l.merger pair d))
                    (ap (λ q. q.0) e1) (apply_listed-Logs w m l.merger pair db))) in
            (
              ((l, e, later-covers wm l.created_at, logs.0), tt),
              later-grows wm l.created_at,
              logs.1,
            )))
      (λ old.
        (((l, e, later-covers wm l.created_at, old), tt), later-grows wm l.created_at, λ i k. k))

poll_one-Settles :
    (w : World) (m : Json) (at : String × ℕ) (db : Db)
    → Done (Settles (m ∷ []) at.0 db) (poll_one w m at db)
unfolding poll_one
poll_one-Settles w m (wm, n) db =
    giving-Done (Settles (m ∷ []) wm db) (db, listed_merger m) _
      (λ l db1 e.
        subst (λ d. Done (Settles (m ∷ []) wm db) (poll_listed w m l (wm, n) d)) (ap (λ q. q.0) e)
          (poll_listed-Settles w m l wm n db (ap (λ q. q.1) e)))

poll_page-Settles :
    (w : World) (ms : List Json) (at : String × ℕ) (db : Db)
    → Done (Settles ms at.0 db) (poll_page w ms at db)
unfolding poll_page
poll_page-Settles w [] at db = (tt, lt_irrefl at.0, λ i k. k)
poll_page-Settles w (m ∷ ms) at db =
    giving-Done (Settles (m ∷ ms) at.0 db) (poll_one w m at db) _ (λ at1 db1 e.
      let (one, grew, more) =
        subst (Done (Settles (m ∷ []) at.0 db)) e (poll_one-Settles w m at db) in
      map_done {P = Settles ms at1.0 db1} {Q = Settles (m ∷ ms) at.0 db} (poll_page w ms at1 db1)
        (λ at2 db2 (rest, grew2, more2). (
          (still at1.0 at2.0 db1 db2 m grew2 more2 one.0, rest),
          not_before_trans at1.0 at2.0 at.0 grew2 grew,
          λ i k. more2 i (more i k),
        ))
        (poll_page-Settles w ms at1 db1))
  where
    map_done :
        {P Q : String × ℕ → Db → Type 0} (s : Action (String × ℕ))
        → ((a : String × ℕ) (d : Db) → P a d → Q a d)
        → Done P s
        → Done Q s
    map_done (d, ok a) h p = h a d p
    map_done (d, err x) h p = tt

settled-poll_page :
    (w : World) (ms : List Json) (wm : String) (n : ℕ) (db : Db)
    → All (IsSettled wm db) ms
    → poll_page w ms (wm, n) db ≡ (db, ok (wm, n))
unfolding poll_page poll_one poll_listed
settled-poll_page w [] wm n db s = refl
settled-poll_page w (m ∷ ms) wm n db s =
    let (l, e, lt, k) = s.0 in
    rw (e) (rw (k) (rw (later-settled wm l.created_at lt) (settled-poll_page w ms wm n db s.1)))

-- Reading the same merges again is harmless: after a page of mergers was applied, the same page, read
-- at any later time, changes nothing in the database, finds none of them new and leaves the
-- watermark where it is.
pub poll_page-again :
    (w w' : World) (ms : List Json) (wm : String) (n : ℕ) (db : Db) {db' : Db} {at : String × ℕ}
    → poll_page w ms (wm, n) db ≡ (db', ok at)
    → poll_page w' ms (at.0, 0) db' ≡ (db', ok (at.0, 0))
poll_page-again w w' ms wm n db {db'} {at} e =
    let settles = subst (Done (Settles ms wm db)) e (poll_page-Settles w ms (wm, n) db) in
    settled-poll_page w' ms at.0 0 db' settles.0
