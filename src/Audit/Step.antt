-- ===== src/Audit/Step.antt =====
-- ingest.py: `delete_audit_step` as a whole, and `delete_audit`.
use pcomirror.Prelude.{ℕ, zero, suc, false, Option, none, some, if◌then◌else◌}
use pcomirror.Result.{ok}
use pcomirror.Registry.{Resource}
use pcomirror.Webhooks.State.{World}
use pcomirror.Audit.Round.{Round, Audit, enumerate, confirm, restore, first_round, Going, ◌going◌}
use pcomirror.Audit.Enumerate.{Answers, begin, enumerate_pages}
use pcomirror.Audit.Settle.{confirm_loop, restore_loop, Outcome, outcome}

-- The budget that is left, and the round, after the enumeration.
unfoldable pub enumerate_phase : World → Answers → Resource → ℕ → Round → Audit → Going (ℕ × Round)
enumerate_phase w answers r left st a = elim st.phase [
  | enumerate ↦ enumerate_pages w answers r left st a
  | _ ↦ (a, ok (left, st))
]

unfoldable pub confirm_phase : World → Answers → Resource → ℕ × Round → Audit → Going (ℕ × Round)
confirm_phase w answers r (left, st) a = elim st.phase [
  | confirm ↦ confirm_loop w answers r left st a
  | _ ↦ (a, ok (left, st))
]

unfoldable pub restore_phase : World → Answers → Resource → ℕ × Round → Audit → Going Outcome
restore_phase w answers r (left, st) a = elim st.phase [
  | restore ↦ restore_loop w answers r left st a
  | _ ↦ (a, ok (outcome false st))
]

unfoldable pub run_phases : World → Answers → Resource → ℕ → Round → Audit → Going Outcome
unfolding enumerate_phase confirm_phase restore_phase
run_phases w answers r budget st a =
    enumerate_phase w answers r budget st a
    going (λ at a1. confirm_phase w answers r at a1)
    going (λ at a2. restore_phase w answers r at a2)

unfoldable pub delete_audit_step : World → Answers → Resource → ℕ → Audit → Going Outcome
unfolding run_phases begin
delete_audit_step w answers r budget a = elim a.round [
  | none ↦ run_phases w answers r budget first_round (begin w r a)
  | some st ↦ run_phases w answers r budget st a
]

-- `delete_audit`: steps of ten thousand requests until one is done, with fuel for the answers that
-- never let one be.
unfoldable pub delete_audit : World → (ℕ → Answers) → Resource → ℕ → Audit → Going (Option (ℕ × ℕ))
unfolding delete_audit_step
delete_audit w answers r zero a = (a, ok none)
delete_audit w answers r (suc fuel) a =
    delete_audit_step w (answers fuel) r 10000 a going (λ out a'.
      if out.is_done
      then (a', ok (some (out.tombstoned, out.restored)))
      else delete_audit w answers r fuel a')
