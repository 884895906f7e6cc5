-- ===== src/Webhooks/Attempts.antt =====
-- webhooks.py: any run of the receiver and of the processor, and the tries that an event gets.
use pcomirror.Prelude.{
  ℕ, String, true, false, Option, none, some, List, [], ◌∷◌, ◌≡◌, refl, inl, inr, ◌⊎◌, Bool-cases,
  ◌∙◌, ap, All, leb, if◌then◌else◌,
}
use pcomirror.Webhooks.State.{World, Event, DeadLetter, Db, same_key}
use pcomirror.Webhooks.Inbox.{set_event}
use pcomirror.Webhooks.Process.{process_event, payload_of}
use pcomirror.Webhooks.Drain.{drain, retry_dead_letters, revive_all, revive, without_dead}
use pcomirror.Webhooks.Receive.{receive}
use pcomirror.Webhooks.Verdict.{readable, is_final, IsDecided, IsVerdict, process_event-Decides}
use pcomirror.Webhooks.Captured.{IsFresh, receive-Appends, All-append}
use pcomirror.Webhooks.Readable.{IsReadable, drain-Stays, All-Stays, set_event-All}
use pcomirror.Writer.Ops.{Env}

-- The event is finished, or it has failed fewer than eight times.
abbrev pub IsBounded : Event → Type 0
IsBounded e = (is_final e.status ≡ true) ⊎ (leb 8 e.process_attempts ≡ false)

abbrev pub IsSound : World → Event → Type 0
IsSound w e = IsReadable w e × IsBounded e

-- The same libraries at another time.
abbrev pub at : World → Env → (ℕ → String) → World
at w env later = record w { env = env; later = later }

-- A call of the receiver, of the processor, or of the replay of the dead letters.
pub data Step (w : World) (db : Db) : Db → Type 0 where
  receives :
      (env : Env) (later : ℕ → String) (token raw : String)
      (signature delivery_id attempt : Option String)
      → Step w db (receive (at w env later) token raw signature delivery_id attempt db).0
  drains :
      (env : Env) (later : ℕ → String) (limit : ℕ) → Step w db (drain (at w env later) limit db).0
  revives : Step w db (retry_dead_letters db).0

pub data Trace (w : World) (db : Db) : Db → Type 0 where
  here : Trace w db db
  next : {db' db'' : Db} → Trace w db db' → Step w db' db'' → Trace w db db''

fresh-IsSound : (w : World) (es : List Event) → All (IsFresh w) es → All (IsSound w) es
fresh-IsSound w [] ps = tt
fresh-IsSound w (e ∷ es) ((r, s, n), ps) = ((r, inr (rw (n) refl)), fresh-IsSound w es ps)

decided-IsBounded : (ev e : Event) → IsDecided ev e → IsBounded e
decided-IsBounded ev e (inl f) = inl f
decided-IsBounded ev e (inr (n, l)) = inr l

verdict-IsSound :
    (w : World) (ev : Event) (c : Event → Event)
    → IsVerdict ev c
    → (e : Event) → IsSound w e
    → IsSound w (c e)
verdict-IsSound w ev c v e (r, b) =
    let (i, p, d) = v e in (ap (readable w) p ∙ r, decided-IsBounded ev (c e) d)

pub readables : (w : World) (es : List Event) → All (IsSound w) es → All (IsReadable w) es
readables w [] ps = tt
readables w (e ∷ es) ((r, b), ps) = (r, readables w es ps)

revive_all-IsSound :
    (w : World) (ds : List DeadLetter) (db : Db)
    → All (IsSound w) db.events
    → All (IsSound w) (revive_all ds db).events
unfolding revive_all revive
revive_all-IsSound w [] db ps = ps
revive_all-IsSound w (d ∷ ds) db ps =
    revive_all-IsSound w ds
      (record db {
        events = set_event d.event_id revive db.events;
        dead_letters = without_dead d.event_id db.dead_letters;
      })
      (set_event-All (IsSound w) d.event_id revive db.events (λ e p. (p.0, inr refl)) ps)

Step-IsSound :
    (w : World) (db db' : Db)
    → All (IsSound w) db.events
    → Step w db db'
    → All (IsSound w) db'.events
unfolding readable retry_dead_letters payload_of
Step-IsSound w db _ ps (receives env later token raw signature delivery_id attempt) =
    let (new, e, fs) =
      receive-Appends (at w env later) token raw signature delivery_id attempt db in
    rw (e) (All-append (IsSound w) db.events new ps (fresh-IsSound w new fs))
Step-IsSound w db _ ps (drains env later limit) =
    (drain-Stays (All (IsSound w)) (at w env later) limit db
      (All-Stays (IsSound w) (verdict-IsSound w)) (readables w db.events ps) ps).1
Step-IsSound w db _ ps revives = revive_all-IsSound w db.dead_letters db ps

-- After any run of the receiver, the processor and the replay of the dead letters that starts with
-- an empty inbox, every event can be read, and every event that is still pending has failed fewer
-- than eight times.
pub run-IsSound :
    (w : World) (db db' : Db) → db.events ≡ [] → Trace w db db' → All (IsSound w) db'.events
run-IsSound w db db' e here = rw (e) tt
run-IsSound w db db' e (next run step) = Step-IsSound w _ db' (run-IsSound w db _ e run) step

abbrev pub find_event : String → List Event → Option Event
find_event k [] = none
find_event k (e ∷ es) = if same_key e.event_id (some k) then some e else find_event k es

pub find_event-set_event :
    (k : String) (c : Event → Event) (es : List Event) (e : Event)
    → ((f : Event) → (c f).event_id ≡ f.event_id)
    → find_event k es ≡ some e
    → find_event k (set_event (some k) c es) ≡ some (c e)
unfolding set_event
find_event-set_event k c [] e h p = cc
find_event-set_event k c (f ∷ fs) e h p = elim (Bool-cases (same_key f.event_id (some k))) [
  | inl s ↦
      let found : some f ≡ some e = rw (s) at p in
      let same : f ≡ e = cc in
      let kept : same_key (c f).event_id (some k) ≡ true =
        ap (λ x. same_key x (some k)) (h f) ∙ s in
      rw (s, kept) (ap (λ x. some (c x)) same)
  | inr s ↦ rw (s, s) (find_event-set_event k c fs e h (rw (s) at p))
]

-- One pass of the processor over a readable event finishes it, as done, ignored or dead, or else
-- leaves it with one more failure than it had and with fewer than eight in all.
pub process_event-IsDecided :
    (w : World) (ev : Event) (k : String) (db : Db)
    → ev.event_id ≡ some k
    → readable w ev.payload ≡ true
    → find_event k db.events ≡ some ev
    → (e : Event) × (find_event k (process_event w ev db).0.events ≡ some e) × IsDecided ev e
process_event-IsDecided w ev k db i r f =
    let (_, (c, v, q)) = process_event-Decides w ev db r in
    (
      c ev,
      ap (find_event k) q
          ∙ (ap (λ o. find_event k (set_event o c db.events)) i
              ∙ find_event-set_event k c db.events ev (λ x. (v x).0) f),
      (v ev).2,
    )
