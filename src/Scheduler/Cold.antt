-- ===== src/Scheduler/Cold.antt =====
-- scheduler.py: the cold lane: `run_cold_once`, `_rotated`, `_cold_ready`, `_cold_outcome`.
use Prim.Native.String.{◌++◌ as join}
use Prim.Native.Nat.{◌+◌}
use pcomirror.Prelude.{
  ℕ, zero, suc, String, Bool, true, false, Option, none, some, List, [], ◌∷◌, ◌++◌, ◌==◌, ◌&&◌,
  ◌||◌, not, if◌then◌else◌, leb, or_default,
}
use pcomirror.Registry.{Resource}
use pcomirror.Registry.Types.{nested_walk}
use pcomirror.Scheduler.Lane.{Lane, UnitOf, guard, full_and_lite}

-- What the lane keeps: the mirror, `_cold_retry_at` in seconds of the monotonic clock, and
-- `_cold_ring_last`.
pub record Cold (S : Type 0) : Type 0 where
  pub mirror : S
  pub retry_at : List (String × ℕ)
  pub ring_last : Option String

unfoldable pub retry_of : String → List (String × ℕ) → ℕ
retry_of k [] = 0
retry_of k ((j, t) ∷ ts) = if j == k then t else retry_of k ts

-- `.pop(key, None)`
unfoldable pub pop : String → List (String × ℕ) → List (String × ℕ)
pop k [] = []
pop k ((j, t) ∷ ts) = if j == k then pop k ts else (j, t) ∷ pop k ts

unfoldable pub cold_ready : {S : Type 0} → String → ℕ → Cold S → Bool
unfolding retry_of
cold_ready k now c = leb (retry_of k c.retry_at) now

-- `COLD_RETRY_S`
abbrev pub cold_retry : ℕ
cold_retry = 300

unfoldable pub cold_outcome : {S : Type 0} → String → ℕ → Bool → Cold S → Cold S
unfolding pop
cold_outcome k now true c = record c { retry_at = pop k c.retry_at }
cold_outcome k now false c = record c { retry_at = (k, now + cold_retry) ∷ pop k c.retry_at }

-- What a ring is made of: a key, and the unit that runs under it.
abbrev pub Ring : Type 0 → Type 0
Ring A = List (String × A)

-- What stands before a key and at it, and what follows.
unfoldable pub cut_after : {A : Type 0} → String → Ring A → Option (Ring A × Ring A)
cut_after k [] = none
cut_after k ((j, a) ∷ ring) =
    let rest = cut_after k ring in
    if j == k
    then some ((j, a) ∷ [], ring)
    else elim rest [ none ↦ none | some (before, after) ↦ some ((j, a) ∷ before, after) ]

-- `ring[i:] + ring[:i]`
unfoldable pub turned : {A : Type 0} → Ring A → Option (Ring A × Ring A) → Ring A
turned ring none = ring
turned ring (some (before, after)) = after ++ before

unfoldable pub rotated : {A : Type 0} → Option String → Ring A → Ring A
unfolding cut_after turned
rotated none ring = ring
rotated (some k) ring = turned ring (cut_after k ring)

-- Every audited resource whose round is in progress, or whose audit is due.
unfoldable pub audit_ring : {S : Type 0} → Lane S → S → List Resource → Ring (UnitOf S)
audit_ring lane s [] = []
audit_ring lane s (r ∷ rs) =
    let rest = audit_ring lane s rs in
    if leb 1 (or_default r.audit_interval_s 0)
      && (lane.has_audit_round r.name s || lane.is_audit_due r.name s)
    then (join "audit:" r.name, lane.audit_step r.name) ∷ rest
    else rest

abbrev pub is_walk : Resource → Bool
is_walk r = elim r.method [ nested_walk ↦ true | _ ↦ false ]

-- Every backfilled walk whose round is in progress, or which is due.
unfoldable pub walk_ring : {S : Type 0} → Lane S → S → List Resource → Ring (UnitOf S)
walk_ring lane s [] = []
walk_ring lane s (r ∷ rs) =
    let rest = walk_ring lane s rs in
    if is_walk r
      && (lane.is_backfilled r.name s
          && (lane.has_walk_round r.name s || lane.is_sweep_due r.name s))
    then (join "walk:" r.name, lane.walk_step r.name) ∷ rest
    else rest

unfoldable pub ring_of : {S : Type 0} → Lane S → S → Ring (UnitOf S)
unfolding audit_ring walk_ring
ring_of lane s = audit_ring lane s full_and_lite ++ walk_ring lane s full_and_lite

-- A unit under its key: its outcome decides the back-off.
unfoldable pub run_unit : {S : Type 0} → String → UnitOf S → ℕ → Cold S → Cold S
unfolding cold_outcome
run_unit k unit now c =
    let (s, went) = guard unit c.mirror in cold_outcome k now went (record c { mirror = s })

-- The first unit of the ring that is not backing off; the result is its key.
unfoldable pub run_ring : {S : Type 0} → Ring (UnitOf S) → ℕ → Cold S → Cold S × Option String
unfolding cold_ready run_unit
run_ring [] now c = (c, none)
run_ring ((k, unit) ∷ ring) now c =
    let rest = run_ring ring now c in
    if cold_ready k now c
    then (record (run_unit k unit now c) { ring_last = some k }, some k)
    else rest

-- The first resource that was never backfilled and is not backing off.
unfoldable pub next_backfill : {S : Type 0} → Lane S → ℕ → Cold S → List Resource → Option String
unfolding cold_ready
next_backfill lane now c [] = none
next_backfill lane now c (r ∷ rs) =
    let rest = next_backfill lane now c rs in
    if not (lane.is_backfilled r.name c.mirror) && cold_ready (join "backfill:" r.name) now c
    then some r.name
    else rest

-- One bounded unit of bulk work, or nothing; the result is the key of what ran.
unfoldable pub run_cold_once : {S : Type 0} → Lane S → ℕ → Cold S → Cold S × Option String
unfolding next_backfill ring_of rotated run_ring run_unit
run_cold_once lane now c = elim (next_backfill lane now c full_and_lite) [
  | some n ↦ (run_unit (join "backfill:" n) (lane.backfill n) now c, some (join "backfill:" n))
  | none ↦ run_ring (rotated c.ring_last (ring_of lane c.mirror)) now c
]

-- The keys of what ran, until nothing does.
unfoldable pub followed :
    {S : Type 0} → (Cold S → Cold S × List String) → Cold S × Option String → Cold S × List String
followed rest (c, none) = (c, [])
followed rest (c, some k) = let (c', ks) = rest c in (c', k ∷ ks)

-- `drain_cold`: units until none is due, at most so many; `clock n` is the time of a unit after
-- which n may follow.
unfoldable pub drain_cold : {S : Type 0} → Lane S → (ℕ → ℕ) → ℕ → Cold S → Cold S × List String
unfolding run_cold_once followed
drain_cold lane clock zero c = (c, [])
drain_cold lane clock (suc n) c =
    followed (λ c'. drain_cold lane clock n c') (run_cold_once lane (clock n) c)
