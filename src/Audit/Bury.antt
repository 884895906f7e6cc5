-- ===== src/Audit/Bury.antt =====
-- ingest.py: the audit buries no record but on its own 404.
use pcomirror.Prelude.{
  ℕ, zero, suc, String, ◌≡◌, Bool, true, false, [], if◌then◌else◌, arith, eq_iff, Option-cases, inl,
  inr, ap, sym, ◌∙◌, leb,
}
use pcomirror.Result.{ok}
use pcomirror.Registry.{Resource}
use pcomirror.Client.Request.{Response}
use pcomirror.Webhooks.State.{World}
use pcomirror.Ingest.Remote.{is_absent}
use pcomirror.Ingest.Hydrate.{restore_one}
use pcomirror.Ingest.Requests.{clear_audit_request}
use pcomirror.Ingest.Confirmed.{IsLive}
use pcomirror.Audit.Spares.{
  LiveIn, going-Kept, read_page-LiveIn, confirm_answer-Live, restore_one-Live,
}
use pcomirror.Audit.Round.{
  Round, Audit, enumerate, confirm, restore, Going, ◌going◌, least, save, first_round,
}
use pcomirror.Audit.Enumerate.{
  Answers, begin, enumerate_pages, read_page, Turn, restarted, more, finished, settle_sets,
}
use pcomirror.Audit.Settle.{
  path_to, on_rows, confirm_one, confirm_loop, restore_next, restore_loop, finish, Outcome, outcome,
  restore_limit,
}
use pcomirror.Audit.Step.{
  delete_audit_step, run_phases, enumerate_phase, confirm_phase, restore_phase,
}

module _ (w : World) (r : Resource) (i : String) (answers : Answers)
    (present : (left : ℕ) (resp : Response)
      → answers left (path_to r i) [] ≡ ok resp
      → is_absent resp ≡ false) where
  abbrev pub StillLive : Audit → Type 0
  StillLive a = LiveIn w r i a

  enumerate_pages-LiveIn :
      (left : ℕ) (st : Round) (a : Audit)
      → StillLive a
      → StillLive (enumerate_pages w answers r left st a).0
  unfolding enumerate_pages settle_sets
  enumerate_pages-LiveIn zero st a l = l
  enumerate_pages-LiveIn (suc left) st a l =
      going-Kept StillLive (read_page w (answers left) r st a) _
        (read_page-LiveIn w r i (answers left) st a l)
        (λ out a1 e l1. by_turn out a1 l1 (λ st' a2 l2. enumerate_pages-LiveIn left st' a2 l2))
    where
      by_turn :
          (out : Turn) (a1 : Audit)
          → StillLive a1
          → ((st' : Round) (a2 : Audit)
              → StillLive a2
              → StillLive (enumerate_pages w answers r left st' a2).0)
          → StillLive (
              (elim out as (λ _. Going (ℕ × Round)) [
                | restarted st' ↦ enumerate_pages w answers r left st' (save st' a1)
                | more st' ↦ enumerate_pages w answers r left st' (save st' a1)
                | finished st' ↦ (save st' (settle_sets a1), ok (left, st'))
              ]).0)
      by_turn (restarted st') a1 l1 go = go st' (save st' a1) l1
      by_turn (more st') a1 l1 go = go st' (save st' a1) l1
      by_turn (finished st') a1 l1 go = l1

  confirm_one-LiveIn :
      (left : ℕ) (h : String) (st : Round) (a : Audit)
      → StillLive a
      → StillLive (confirm_one w (answers left) r h st a).0
  unfolding confirm_one on_rows
  confirm_one-LiveIn left h st a l =
      going-Kept StillLive _ _
        (going-Kept StillLive (a, answers left (path_to r h) []) _ l
          (λ resp a1 e l1.
            confirm_answer-Live w r i h resp a1.db.rows
              (λ same. present left resp (
                ap (λ x. answers left (path_to r x) []) (sym (ground (arith, eq_iff h i)))
                ∙ ap (λ q. q.1) e))
              l1))
        (λ b a2 e l2. l2)

  confirm_loop-LiveIn :
      (left : ℕ) (st : Round) (a : Audit)
      → StillLive a
      → StillLive (confirm_loop w answers r left st a).0
  unfolding confirm_loop
  confirm_loop-LiveIn zero st a l = l
  confirm_loop-LiveIn (suc left) st a l = elim (Option-cases (least a.candidates)) [
    | inl n ↦ rw (n, confirm_loop) l
    | inr (h, e) ↦
        rw (e, confirm_loop)
          (going-Kept StillLive (confirm_one w (answers left) r h st a) _
            (confirm_one-LiveIn left h st a l) (λ st' a' e' l'. confirm_loop-LiveIn left st' a' l'))
  ]

  restore_next-LiveIn :
      (left : ℕ) (h : String) (st : Round) (a : Audit)
      → StillLive a
      → StillLive (restore_next w (answers left) r h st a).0
  unfolding restore_next on_rows
  restore_next-LiveIn left h st a l =
      going-Kept StillLive (on_rows a (λ rs. restore_one w (answers left) r h rs)) _
        (restore_one-Live w r i (answers left) h a.db.rows l) (λ b a1 e l1. l1)

  branch-Going :
      {A : Type 0} (b : Bool) (x y : Going A)
      → StillLive x.0
      → StillLive y.0
      → StillLive (if b then x else y).0
  branch-Going true x y p q = p
  branch-Going false x y p q = q

  restore_loop-LiveIn :
      (left : ℕ) (st : Round) (a : Audit)
      → StillLive a
      → StillLive (restore_loop w answers r left st a).0
  unfolding restore_loop finish clear_audit_request
  restore_loop-LiveIn zero st a l = l
  restore_loop-LiveIn (suc left) st a l = elim (Option-cases (least a.live)) [
    | inl n ↦ rw (n, restore_loop) l
    | inr (h, e) ↦
        rw (e, restore_loop)
          (branch-Going (leb restore_limit st.restored) _ _ l (
            going-Kept StillLive (restore_next w (answers left) r h st a) _
              (restore_next-LiveIn left h st a l)
              (λ st' a' e' l'. restore_loop-LiveIn left st' a' l')))
  ]

  enumerate_phase-LiveIn :
      (left : ℕ) (st : Round) (a : Audit)
      → StillLive a
      → StillLive (enumerate_phase w answers r left st a).0
  unfolding enumerate_phase
  enumerate_phase-LiveIn left st a l =
      elim st.phase
        as (λ p. StillLive (
          (elim p as (λ _. Going (ℕ × Round)) [
            | enumerate ↦ enumerate_pages w answers r left st a
            | confirm ↦ (a, ok (left, st))
            | restore ↦ (a, ok (left, st))
          ]).0)) [ enumerate ↦ enumerate_pages-LiveIn left st a l | confirm ↦ l | restore ↦ l ]

  confirm_phase-LiveIn :
      (at : ℕ × Round) (a : Audit) → StillLive a → StillLive (confirm_phase w answers r at a).0
  unfolding confirm_phase
  confirm_phase-LiveIn (left, st) a l =
      elim st.phase
        as (λ p. StillLive (
          (elim p as (λ _. Going (ℕ × Round)) [
            | enumerate ↦ (a, ok (left, st))
            | confirm ↦ confirm_loop w answers r left st a
            | restore ↦ (a, ok (left, st))
          ]).0)) [ enumerate ↦ l | confirm ↦ confirm_loop-LiveIn left st a l | restore ↦ l ]

  restore_phase-LiveIn :
      (at : ℕ × Round) (a : Audit) → StillLive a → StillLive (restore_phase w answers r at a).0
  unfolding restore_phase
  restore_phase-LiveIn (left, st) a l =
      elim st.phase
        as (λ p. StillLive (
          (elim p as (λ _. Going Outcome) [
            | enumerate ↦ (a, ok (outcome false st))
            | confirm ↦ (a, ok (outcome false st))
            | restore ↦ restore_loop w answers r left st a
          ]).0)) [ enumerate ↦ l | confirm ↦ l | restore ↦ restore_loop-LiveIn left st a l ]

  run_phases-LiveIn :
      (budget : ℕ) (st : Round) (a : Audit)
      → StillLive a
      → StillLive (run_phases w answers r budget st a).0
  unfolding run_phases
  run_phases-LiveIn budget st a l =
      going-Kept StillLive
        (enumerate_phase w answers r budget st a going (λ at a1. confirm_phase w answers r at a1)) _
        (going-Kept StillLive (enumerate_phase w answers r budget st a) _
          (enumerate_phase-LiveIn budget st a l) (λ at a1 e l1. confirm_phase-LiveIn at a1 l1))
        (λ at a2 e l2. restore_phase-LiveIn at a2 l2)

  -- The audit takes no record for deleted that Planning Center still has: a step leaves a live
  -- record of the audited table live, also a step that stops at an exception, unless one of its
  -- answers about that record itself is 404.
  pub delete_audit_step-IsLive :
      (budget : ℕ) (a : Audit)
      → IsLive r.table i a.db.rows
      → IsLive r.table i (delete_audit_step w answers r budget a).0.db.rows
  unfolding delete_audit_step begin
  delete_audit_step-IsLive budget a l = elim (Option-cases a.round) [
    | inl n ↦ rw (n, delete_audit_step) (run_phases-LiveIn budget first_round (begin w r a) l)
    | inr (st, e) ↦ rw (e, delete_audit_step) (run_phases-LiveIn budget st a l)
  ]
