-- ===== src/Webhooks/Drain.antt =====
-- webhooks.py: `drain`, which takes the due events through the processor, and `retry_dead_letters`.
use Prim.Native.Nat.{◌+◌}
use pcomirror.Prelude.{
  ℕ, ℕ, zero, suc, String, Bool, false, Option, none, some, List, [], ◌∷◌, ◌||◌, not, if◌then◌else◌,
  is_some, length, text_lt, not_older,
}
use pcomirror.Result.{ok, err}
use pcomirror.Webhooks.State.{World, Event, pending, DeadLetter, Db, Run, same_key}
use pcomirror.Webhooks.Inbox.{set_event}
use pcomirror.Webhooks.Process.{process_event}

unfoldable pub is_due : World → Event → Bool
is_due w e =
    let soon = not (is_some e.next_attempt_at) || not_older (some w.env.now) e.next_attempt_at in
    elim e.status [ pending ↦ soon | _ ↦ false ]

-- ORDER BY received_at
unfoldable pub insert_event : Event → List Event → List Event
insert_event e [] = e ∷ []
insert_event e (f ∷ fs) =
    if text_lt f.received_at e.received_at then f ∷ insert_event e fs else e ∷ f ∷ fs

unfoldable pub take_events : ℕ → List Event → List Event
take_events zero es = []
take_events (suc n) [] = []
take_events (suc n) (e ∷ es) = e ∷ take_events n es

unfoldable pub due_in_order : World → List Event → List Event
unfolding is_due insert_event
due_in_order w [] = []
due_in_order w (e ∷ es) =
    let rest = due_in_order w es in if is_due w e then insert_event e rest else rest

unfoldable pub due : World → ℕ → List Event → List Event
unfolding take_events due_in_order
due w limit es = take_events limit (due_in_order w es)

unfoldable pub process_all : World → List Event → ℕ → Db → Run ℕ
process_all w [] n db = (db, ok n)
process_all w (e ∷ es) n db =
    let (db', ran) = process_event w e db in
    let next = process_all w es (n + 1) db' in elim ran [ ok u ↦ next | err x ↦ (db', err x) ]

unfoldable pub drain : World → ℕ → Db → Run ℕ
drain w limit db = process_all w (due w limit db.events) 0 db

unfoldable pub revive : Event → Event
revive e = record e {
  status = pending;
  process_attempts = 0;
  next_attempt_at = none;
  last_error = none;
}

-- DELETE FROM webhook_dead_letter WHERE event_id = k
unfoldable pub without_dead : Option String → List DeadLetter → List DeadLetter
without_dead k [] = []
without_dead k (d ∷ ds) = if same_key d.event_id k then without_dead k ds else d ∷ without_dead k ds

unfoldable pub revive_all : List DeadLetter → Db → Db
unfolding revive
revive_all [] db = db
revive_all (d ∷ ds) db = revive_all ds (record db {
  events = set_event d.event_id revive db.events;
  dead_letters = without_dead d.event_id db.dead_letters;
})

unfoldable pub retry_dead_letters : Db → Db × ℕ
unfolding revive_all
retry_dead_letters db = (revive_all db.dead_letters db, length db.dead_letters)
