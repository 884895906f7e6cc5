-- ===== src/Audit/Examples.antt =====
-- ingest.py: an audit of two people, of whom Planning Center has one.
use mathlib.Core.Path.{subst}
use pcomirror.Prelude.{
  inl, ℕ, String, ◌≡◌, refl, Bool, true, false, Option, none, some, List, [], ◌∷◌, arith,
}
use pcomirror.Result.{ok}
use pcomirror.Registry.People.{person_resource}
use pcomirror.Store.{select, is_live}
use pcomirror.Ingest.Remote.{is_absent}
use pcomirror.Ingest.Buried.{ok_inj}
use pcomirror.Ingest.Confirmed.{IsLive}
use pcomirror.Ingest.Samples.{world, remote, db}
use pcomirror.Audit.Round.{Audit, Round, confirm, first_round}
use pcomirror.Audit.Step.{delete_audit_step, delete_audit}
use pcomirror.Audit.Bury.{delete_audit_step-IsLive}
use pcomirror.Audit.Progress.{IsDone, delete_audit_step-IsDone}
use pcomirror.Audit.Ended.{Ended}

abbrev idle : Audit
idle = record {
  db = db;
  round = none;
  candidates = [];
  known = [];
  live = [];
  last_audit_started_at = none;
  last_audit_completed_at = none;
}

abbrev confirming : Round
confirming = record first_round { phase = confirm }

abbrev midway : Audit
midway = record idle { round = some confirming; candidates = "2" ∷ []; known = "1" ∷ ("2" ∷ []) }

-- The person who is gone is buried, and the one who is there is kept.
audit_test :
    ((delete_audit world (λ k left. remote) person_resource 3 idle).1 ≡ ok (some (1, 0)))
    × (is_live (
          select "person" "2"
            (delete_audit world (λ k left. remote) person_resource 3 idle).0.db.rows)
        ≡ false)
unfolding delete_audit pcomirror.Audit.Enumerate.enumerate_pages pcomirror.Ingest.Refresh.entries_of
    pcomirror.Audit.Settle.confirm_loop pcomirror.Ingest.Walk.ids_where is_absent
    pcomirror.Writer.Tombstone.tombstone pcomirror.Writer.Ops.is_table pcomirror.Registry.by_table
    pcomirror.Audit.Settle.restore_loop select pcomirror.Writer.Ops.cascade
    pcomirror.Registry.owned_children pcomirror.Store.update_where pcomirror.Registry.Columns.column
    pcomirror.Store.uat pcomirror.Prelude.text_lt
audit_test = (refl, refl)

delete_audit_step-IsLive_example :
    IsLive "person" "1" (delete_audit_step world (λ left. remote) person_resource 8 idle).0.db.rows
unfolding is_absent select
delete_audit_step-IsLive_example =
    delete_audit_step-IsLive world person_resource "1" (λ left. remote)
      (λ left resp e. subst (λ x. is_absent x ≡ false) (ok_inj e) refl) 8 idle refl

delete_audit_step-IsDone_example :
    Ended
      (IsDone world (λ left. remote) person_resource)
      (delete_audit_step world (λ left. remote) person_resource 8 midway)
unfolding is_absent
delete_audit_step-IsDone_example =
    delete_audit_step-IsDone world (λ left. remote) person_resource 8 confirming midway refl
      (inl refl) (omega arith)
