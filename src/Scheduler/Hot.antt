-- ===== src/Scheduler/Hot.antt =====
-- scheduler.py: the hot lane, `run_once`.
use Prim.Native.Nat.{◌-◌}
use pcomirror.Prelude.{
  ℕ, Bool, false, Option, none, some, List, [], ◌∷◌, ◌&&◌, ◌||◌, not, if◌then◌else◌, ltb,
}
use pcomirror.Registry.{Resource}
use pcomirror.Scheduler.Lane.{Lane, UnitOf, guard, full_and_lite}
use pcomirror.Scheduler.Cold.{is_walk}

-- What the lane keeps: the mirror and two timers, in seconds of the monotonic clock.
pub record Hot (S : Type 0) : Type 0 where
  pub mirror : S
  pub last_merger : ℕ
  pub last_drift : ℕ

unfoldable pub any_backfilled : {S : Type 0} → Lane S → S → List Resource → Bool
any_backfilled lane s [] = false
any_backfilled lane s (r ∷ rs) = lane.is_backfilled r.name s || any_backfilled lane s rs

-- A unit whose outcome nothing depends on.
abbrev pub guarded : {S : Type 0} → UnitOf S → S → S
guarded unit s = (guard unit s).0

unfoldable pub sweep_one : {S : Type 0} → Lane S → Resource → S → S
sweep_one lane r s =
    if not (is_walk r) && (lane.is_backfilled r.name s && lane.is_sweep_due r.name s)
    then (let (s', went) = guard (lane.sweep r.name) s in
        if went then lane.set_swept r.name s' else s')
    else s

unfoldable pub sweep_all : {S : Type 0} → Lane S → List Resource → S → S
unfolding sweep_one
sweep_all lane [] s = s
sweep_all lane (r ∷ rs) s = sweep_all lane rs (sweep_one lane r s)

-- The drift probe and the repairs of one backfilled resource.
unfoldable pub probe_one : {S : Type 0} → Lane S → Resource → S → S
probe_one lane r s =
    if lane.is_backfilled r.name s
    then guarded (lane.repair r.name) (guarded (lane.drift_probe r.name) s)
    else s

unfoldable pub probe_all : {S : Type 0} → Lane S → List Resource → S → S
unfolding probe_one
probe_all lane [] s = s
probe_all lane (r ∷ rs) s = probe_all lane rs (probe_one lane r s)

unfoldable pub check : {S : Type 0} → Option (UnitOf S) → S → S
check none s = s
check (some unit) s = guarded unit s

unfoldable pub poll_mergers : {S : Type 0} → Lane S → ℕ → Hot S → Hot S
poll_mergers lane now h =
    if ltb 120 (now - h.last_merger)
    then record h { mirror = guarded lane.merger_poll h.mirror; last_merger = now }
    else h

unfoldable pub probe_drift : {S : Type 0} → Lane S → ℕ → Hot S → Hot S
unfolding probe_all
probe_drift lane now h =
    if ltb 900 (now - h.last_drift)
    then record h {
      mirror = guarded lane.split_edges (probe_all lane full_and_lite h.mirror);
      last_drift = now;
    }
    else h

-- The local work that every tick does.
unfoldable pub local_work : {S : Type 0} → Lane S → S → S
local_work lane s = guarded lane.hydration_drain (guarded lane.webhook_drain s)

unfoldable pub run_once : {S : Type 0} → Lane S → ℕ → Hot S → Hot S
unfolding any_backfilled sweep_all check poll_mergers probe_drift local_work
run_once lane now h =
    let s = local_work lane h.mirror in
    if any_backfilled lane s full_and_lite
    then probe_drift lane now (
        poll_mergers lane now
          (record h { mirror = sweep_all lane full_and_lite (check lane.divergence s) }))
    else record h { mirror = s }
