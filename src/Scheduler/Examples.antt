-- ===== src/Scheduler/Examples.antt =====
-- scheduler.py: a lane whose work never ends.
use Prim.Native.Nat.{◌+◌, ◌-◌}
use pcomirror.Prelude.{
  ℕ, String, ◌≡◌, ◌≤◌, refl, true, false, none, some, [], ◌∷◌, ◌==◌, ◌||◌, contains, if◌then◌else◌,
  text_lt,
}
use pcomirror.Result.{ok, err, ingest_error}
use pcomirror.Scheduler.Lane.{Lane, UnitOf, full_and_lite}
use pcomirror.Scheduler.Cold.{
  Cold, run_cold_once, drain_cold, run_unit, ring_of, rotated, cold_retry, next_backfill, Ring,
}
use pcomirror.Scheduler.Hot.{run_once}
use pcomirror.Scheduler.Due.{Cadence, audit_due}
use pcomirror.Scheduler.Ring.{keys, is_distinct}
use pcomirror.Scheduler.Fair.{drain_cold-runs}
use pcomirror.Scheduler.Backoff.{run_cold_once-backs_off}

-- The state counts the units; the audit of people fails.
abbrev counts : String → UnitOf ℕ
counts name s = (s + 1, if name == "person" then err (ingest_error "down") else ok tt)

abbrev lane : Lane ℕ
lane = record {
  is_backfilled = λ n s. true;
  is_sweep_due = λ n s. n == "person" || n == "list_result";
  has_audit_round = λ n s. n == "person" || n == "email";
  is_audit_due = λ n s. false;
  has_walk_round = λ n s. false;
  backfill = counts;
  audit_step = counts;
  walk_step = counts;
  webhook_drain = counts "";
  hydration_drain = counts "";
  divergence = none;
  sweep = counts;
  set_swept = λ n s. s;
  merger_poll = counts "";
  drift_probe = counts;
  repair = counts;
  split_edges = counts "";
}

abbrev cold : Cold ℕ
cold = record { mirror = 0; retry_at = []; ring_last = some "audit:person" }

abbrev clock : ℕ → ℕ
clock n = 1000 - n

-- The unit after the one that ran last is the first.
tick_test : (run_cold_once lane 1000 cold).1 ≡ some "audit:email"
unfolding run_cold_once full_and_lite
tick_test = refl

hot_test :
    (run_once lane 1000 (record { mirror = 0; last_merger = 950; last_drift = 950 })).mirror ≡ 3
unfolding run_once full_and_lite
hot_test = refl

abbrev cadence : Cadence
cadence = record {
  backfill_completed_at = some "2026-01-01T00:00:00Z";
  request = some "drift";
  last_started_at = some "2026-03-01T00:00:00Z";
  last_completed_at = none;
  hours = 24;
}

-- The drift probe waits out the hour, a person does not.
due_test :
    (audit_due (λ n. "2026-02-28T23:59:59Z") cadence ≡ false)
    × (audit_due
          (λ n. "2026-02-28T23:59:59Z")
          (record cadence { request = some "operator"; hours = 0 })
        ≡ true)
unfolding audit_due text_lt
due_test = (refl, refl)

abbrev ring : Ring (UnitOf ℕ)
ring =
    ("audit:person", counts "person")
    ∷ ("audit:email", counts "email")
    ∷ ("walk:list_result", counts "list_result")
    ∷ []

drain_cold-runs_example :
    ((drain_cold lane clock 3 cold).1 ≡ keys (rotated (some "audit:person") ring))
    × ((k : String)
        → contains (keys (rotated (some "audit:person") ring)) k ≡ contains (keys ring) k)
unfolding ring_of full_and_lite next_backfill is_distinct
drain_cold-runs_example =
    drain_cold-runs lane clock ring (λ now c. refl) (λ s. refl) refl cold (λ k h. refl)

run_cold_once-backs_off_example : 1000 + cold_retry ≤ 1300
unfolding run_cold_once full_and_lite run_unit
run_cold_once-backs_off_example =
    run_cold_once-backs_off lane "audit:person" (counts "person") 1000 1300
      (record { mirror = 0; retry_at = []; ring_last = some "walk:list_result" }) refl refl
