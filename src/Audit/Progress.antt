-- ===== src/Audit/Progress.antt =====
-- ingest.py: how many requests the audit's last two phases need.
use mathlib.Core.Path.{subst}
use Prim.Native.Nat.{◌+◌}
use pcomirror.Prelude.{
  ◌⊎◌, ℕ, zero, suc, String, ◌≡◌, refl, Bool, true, false, none, some, [], ◌<◌, ◌≤◌, if◌then◌else◌,
  arith, Option-cases, inl, inr, ap, sym, ◌∙◌, leb, length,
}
use pcomirror.Result.{ok}
use pcomirror.Registry.{Resource}
use pcomirror.Webhooks.State.{World}
use pcomirror.Ingest.Hydrate.{restore_one}
use pcomirror.Audit.Round.{
  Phase, Round, Audit, enumerate, confirm, restore, Going, ◌going◌, least, delete_id, first_round,
}
use pcomirror.Audit.Enumerate.{Answers, begin, enumerate_pages}
use pcomirror.Audit.Settle.{
  path_to, confirm_answer, on_rows, confirm_one, confirm_loop, restore_next, restore_loop, Outcome,
  outcome, restore_limit,
}
use pcomirror.Audit.Ended.{
  least-shorter, Ended, going-Ended, map-Ended, Ended_ok, SameSets, on_rows-SameSets,
}
use pcomirror.Audit.Step.{
  delete_audit_step, run_phases, enumerate_phase, confirm_phase, restore_phase,
}

module _ (w : World) (answers : Answers) (r : Resource) where
  -- One candidate less, and the ids to restore as they were.
  abbrev pub OneLess : String → Audit → Round → Audit → Type 0
  OneLess i a st a' = (a'.candidates ≡ delete_id i a.candidates) × (a'.live ≡ a.live)

  confirm_one-OneLess :
      (left : ℕ) (i : String) (st : Round) (a : Audit)
      → Ended (OneLess i a) (confirm_one w (answers left) r i st a)
  unfolding confirm_one
  confirm_one-OneLess left i st a =
      going-Ended (OneLess i a)
        ((a, answers left (path_to r i) [])
          going (λ resp a1. on_rows a1 (λ rs. confirm_answer w r i resp rs)))
        _
        (λ b a2 e2.
          let same =
            Ended_ok (SameSets a) _
              (going-Ended (SameSets a) (a, answers left (path_to r i) []) _
                (λ resp a1 e1.
                  subst (λ x. Ended (SameSets x) (on_rows a1 (λ rs. confirm_answer w r i resp rs)))
                    (sym (ap (λ q. q.0) e1))
                    (on_rows-SameSets a1 (λ rs. confirm_answer w r i resp rs))))
              e2 in
          (ap (delete_id i) same.0, same.1))

  -- The confirming is over, and cost no more than a request for each candidate.
  abbrev pub Confirmed : ℕ → Audit → ℕ × Round → Audit → Type 0
  Confirmed left a out a' =
      (out.1.phase ≡ restore) × (a'.live ≡ a.live) × (left ≤ out.0 + length a.candidates)

  confirm_loop-Confirmed :
      (left : ℕ) (st : Round) (a : Audit)
      → length a.candidates < left
      → Ended (Confirmed left a) (confirm_loop w answers r left st a)
  unfolding confirm_loop
  confirm_loop-Confirmed zero st a lt = ground arith
  confirm_loop-Confirmed (suc left) st a lt = elim (Option-cases (least a.candidates)) [
    | inl n ↦ rw (n, confirm_loop) (refl, refl, omega arith)
    | inr (i, e) ↦
        rw (e, confirm_loop)
          (going-Ended (Confirmed (suc left) a) (confirm_one w (answers left) r i st a) _
            (λ st' a' e1.
              let (fewer, same) = Ended_ok (OneLess i a) _ (confirm_one-OneLess left i st a) e1 in
              let short = least-shorter i a.candidates e in
              let count : length a'.candidates ≡ length (delete_id i a.candidates) =
                ap length fewer in
              map-Ended (Confirmed left a') (Confirmed (suc left) a)
                (confirm_loop w answers r left st' a')
                (λ out a2 (p, q, c). (p, q ∙ same, omega arith))
                (confirm_loop-Confirmed left st' a' (omega arith))))
  ]

  abbrev pub IsDone : Outcome → Audit → Type 0
  IsDone out a = out.is_done ≡ true

  abbrev pub OneRestored : String → Audit → Round → Audit → Type 0
  OneRestored i a st a' = a'.live ≡ delete_id i a.live

  restore_next-OneRestored :
      (left : ℕ) (i : String) (st : Round) (a : Audit)
      → Ended (OneRestored i a) (restore_next w (answers left) r i st a)
  unfolding restore_next
  restore_next-OneRestored left i st a =
      going-Ended (OneRestored i a) (on_rows a (λ rs. restore_one w (answers left) r i rs)) _
        (λ b a1 e1.
          ap (delete_id i)
            (Ended_ok (SameSets a) _
              (on_rows-SameSets a (λ rs. restore_one w (answers left) r i rs)) e1).1)

  branch-Ended :
      (b : Bool) (x y : Going Outcome)
      → Ended IsDone x
      → Ended IsDone y
      → Ended IsDone (if b then x else y)
  branch-Ended true x y p q = p
  branch-Ended false x y p q = q

  restore_loop-IsDone :
      (left : ℕ) (st : Round) (a : Audit)
      → length a.live < left
      → Ended IsDone (restore_loop w answers r left st a)
  unfolding restore_loop
  restore_loop-IsDone zero st a lt = ground arith
  restore_loop-IsDone (suc left) st a lt = elim (Option-cases (least a.live)) [
    | inl n ↦ rw (n, restore_loop) refl
    | inr (i, e) ↦
        rw (e, restore_loop)
          (branch-Ended (leb restore_limit st.restored) _ _ refl (
            going-Ended IsDone (restore_next w (answers left) r i st a) _ (λ st' a' e1.
              let fewer = Ended_ok (OneRestored i a) _ (restore_next-OneRestored left i st a) e1 in
              let short = least-shorter i a.live e in
              let count : length a'.live ≡ length (delete_id i a.live) = ap length fewer in
              restore_loop-IsDone left st' a' (omega arith))))
  ]

  -- The phases after the enumeration.
  abbrev IsEnumerated : Round → Type 0
  IsEnumerated st = (st.phase ≡ confirm) ⊎ (st.phase ≡ restore)

  -- Which loop each phase runs.
  enumerate_skipped :
      (left : ℕ) (st : Round) (a : Audit)
      → IsEnumerated st
      → enumerate_phase w answers r left st a ≡ (a, ok (left, st))
  unfolding enumerate_phase
  enumerate_skipped left st a (inl e) =
      ap
        (λ p. elim p as (λ _. Going (ℕ × Round)) [
          | enumerate ↦ enumerate_pages w answers r left st a
          | _ ↦ (a, ok (left, st))
        ])
        e
  enumerate_skipped left st a (inr e) =
      ap
        (λ p. elim p as (λ _. Going (ℕ × Round)) [
          | enumerate ↦ enumerate_pages w answers r left st a
          | _ ↦ (a, ok (left, st))
        ])
        e

  confirm_phase-at :
      (left : ℕ) (st : Round) (a : Audit) {p : Phase}
      → st.phase ≡ p
      → confirm_phase w answers r (left, st) a ≡ (elim p as (λ _. Going (ℕ × Round)) [
        | confirm ↦ confirm_loop w answers r left st a
        | _ ↦ (a, ok (left, st))
      ])
  unfolding confirm_phase
  confirm_phase-at left st a e =
      ap
        (λ p. elim p as (λ _. Going (ℕ × Round)) [
          | confirm ↦ confirm_loop w answers r left st a
          | _ ↦ (a, ok (left, st))
        ])
        e

  restore_entered :
      (left : ℕ) (st : Round) (a : Audit)
      → st.phase ≡ restore
      → restore_phase w answers r (left, st) a ≡ restore_loop w answers r left st a
  unfolding restore_phase
  restore_entered left st a e =
      ap
        (λ p. elim p as (λ _. Going Outcome) [
          | restore ↦ restore_loop w answers r left st a
          | _ ↦ (a, ok (outcome false st))
        ])
        e

  restore_phase-IsDone :
      (left : ℕ) (st : Round) (a : Audit)
      → st.phase ≡ restore
      → length a.live < left
      → Ended IsDone (restore_phase w answers r (left, st) a)
  restore_phase-IsDone left st a e lt =
      subst (Ended IsDone) (sym (restore_entered left st a e)) (restore_loop-IsDone left st a lt)

  -- Both phases, or the last one, come to the end of the round.
  settled-IsDone :
      (budget : ℕ) (st : Round) (a : Audit)
      → IsEnumerated st
      → length a.candidates + length a.live < budget
      → Ended IsDone (
          confirm_phase w answers r (budget, st) a going (λ at a2. restore_phase w answers r at a2))
  settled-IsDone budget st a (inl p) lt =
      subst (λ m. Ended IsDone (m going (λ at a2. restore_phase w answers r at a2)))
        (sym (confirm_phase-at budget st a p))
        (going-Ended IsDone (confirm_loop w answers r budget st a) _ (λ out a2 e.
          let (q, same, cost) =
            Ended_ok (Confirmed budget a) _ (confirm_loop-Confirmed budget st a (omega arith)) e in
          let count : length a2.live ≡ length a.live = ap length same in
          restore_phase-IsDone out.0 out.1 a2 q (omega arith)))
  settled-IsDone budget st a (inr p) lt =
      subst (λ m. Ended IsDone (m going (λ at a2. restore_phase w answers r at a2)))
        (sym (confirm_phase-at budget st a p)) (restore_phase-IsDone budget st a p (omega arith))

  -- Once a round has enumerated, whether it still confirms or already restores, one step is enough
  -- to end it: if its budget is larger than the number of candidates that are left to confirm and of
  -- ids that are left to restore together, a step that goes through says that the round is done.
  pub delete_audit_step-IsDone :
      (budget : ℕ) (st : Round) (a : Audit)
      → a.round ≡ some st
      → (st.phase ≡ confirm) ⊎ (st.phase ≡ restore)
      → length a.candidates + length a.live < budget
      → Ended IsDone (delete_audit_step w answers r budget a)
  unfolding delete_audit_step run_phases
  delete_audit_step-IsDone budget st a e p lt =
      subst
        (λ o. Ended IsDone (elim o as (λ _. Going Outcome) [
          | none ↦ run_phases w answers r budget first_round (begin w r a)
          | some st' ↦ run_phases w answers r budget st' a
        ]))
        (sym e)
        (subst
          (λ m. Ended IsDone (
            m
            going (λ at a1. confirm_phase w answers r at a1)
            going (λ at a2. restore_phase w answers r at a2)))
          (sym (enumerate_skipped budget st a p)) (settled-IsDone budget st a p lt))
