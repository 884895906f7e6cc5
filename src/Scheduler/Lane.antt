-- ===== src/Scheduler/Lane.antt =====
-- scheduler.py: what a tick uses of the mirror, and `_guard`.
use pcomirror.Prelude.{String, Bool, true, false, Option, List, [], ◌∷◌, if◌then◌else◌}
use pcomirror.Result.{Result, ok, err}
use pcomirror.Registry.{Resource, resources}
use pcomirror.Registry.Types.{full, lite, passthrough}

-- A unit of work on the mirror's state, which it may leave changed also where it raises.
abbrev pub UnitOf : Type 0 → Type 0
UnitOf S = S → S × Result (Unit {0})

-- The ingestor, the receiver and the checker, by the names of the resources.
pub record Lane (S : Type 0) : Type 0 where
  -- `ing.state(name)["backfill_completed_at"]` is there
  pub is_backfilled : String → S → Bool
  -- `st["next_run_at"] and st["next_run_at"] <= now`
  pub is_sweep_due : String → S → Bool
  -- a round in progress, and `_audit_due`
  pub has_audit_round : String → S → Bool
  pub is_audit_due : String → S → Bool
  pub has_walk_round : String → S → Bool
  pub backfill : String → UnitOf S
  pub audit_step : String → UnitOf S
  pub walk_step : String → UnitOf S
  pub webhook_drain : UnitOf S
  pub hydration_drain : UnitOf S
  -- the checker, where one is enabled
  pub divergence : Option (UnitOf S)
  pub sweep : String → UnitOf S
  pub set_swept : String → S → S
  pub merger_poll : UnitOf S
  pub drift_probe : String → UnitOf S
  pub repair : String → UnitOf S
  pub split_edges : UnitOf S

-- `_guard`: the state after a unit, and whether it went through.
abbrev pub guard : {S : Type 0} → UnitOf S → S → S × Bool
guard unit s = let (s', out) = unit s in (s', elim out [ ok u ↦ true | err e ↦ false ])

-- `full_and_lite`
abbrev pub is_synced : Resource → Bool
is_synced r = elim r.tier [ full ↦ true | lite ↦ true | passthrough ↦ false ]

unfoldable pub select_synced : List Resource → List Resource
select_synced [] = []
select_synced (r ∷ rs) = if is_synced r then r ∷ select_synced rs else select_synced rs

unfoldable pub full_and_lite : List Resource
unfolding select_synced
full_and_lite = select_synced resources
