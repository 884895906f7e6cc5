-- ===== src/Scheduler/Due.antt =====
-- scheduler.py: `_audit_due`.
use Prim.Native.Nat.{◌*◌}
use pcomirror.Prelude.{
  ℕ, String, Bool, true, false, Option, ◌==◌, ◌&&◌, ◌||◌, not, if◌then◌else◌, leb, is_some, is_text,
  or_default, text_lt,
}

-- What is known of an audited resource, and the setting: the hours of `audit_interval_hours`, which
-- count as 0 where they are negative.
pub record Cadence : Type 0 where
  pub backfill_completed_at : Option String
  pub request : Option String
  pub last_started_at : Option String
  pub last_completed_at : Option String
  pub hours : ℕ

-- `max(started or "", completed or "")`
unfoldable pub last_audit : Cadence → String
last_audit c =
    let started = or_default c.last_started_at "" in
    let completed = or_default c.last_completed_at "" in
    if text_lt started completed then completed else started

abbrev pub not_after : String → String → Bool
not_after a b = not (text_lt b a)

-- `minus n` is the time n seconds before now. `DRIFT_AUDIT_MIN_INTERVAL_S` is an hour.
unfoldable pub audit_due : (minus : ℕ → String) → Cadence → Bool
unfolding last_audit
audit_due minus c =
    if not (is_some c.backfill_completed_at)
    then false
    else if is_text c.request "operator"
    then true
    else if leb c.hours 0
    then false
    else if last_audit c == "" || not_after (last_audit c) (minus (c.hours * 3600))
    then true
    else is_some c.request && not_after (last_audit c) (minus 3600)
