-- ===== src/Webhooks/Readable.antt =====
-- webhooks.py: what is captured can be read, so that `drain` always returns.
use pcomirror.Prelude.{
  ℕ, ◌+◌, String, true, Option, List, [], ◌∷◌, ◌≡◌, inl, inr, Bool-cases, ◌∙◌, ap, arith, All,
  length, text_lt, zero, suc,
}
use pcomirror.Result.{ok}
use pcomirror.Webhooks.State.{World, Event, Db, same_key}
use pcomirror.Webhooks.Inbox.{set_event}
use pcomirror.Webhooks.Process.{process_event}
use pcomirror.Webhooks.Drain.{
  drain, process_all, due, due_in_order, insert_event, take_events, is_due,
}
use pcomirror.Webhooks.Verdict.{readable, process_event-Decides, IsVerdict}

abbrev pub IsReadable : World → Event → Type 0
IsReadable w e = readable w e.payload ≡ true

insert_event-All :
    (P : Event → Type 0) (e : Event) (es : List Event) → P e → All P es → All P (insert_event e es)
unfolding insert_event
insert_event-All P e [] p ps = (p, tt)
insert_event-All P e (f ∷ fs) p (q, qs) = elim (Bool-cases (text_lt f.received_at e.received_at)) [
  | inl l ↦ rw (l) (q, insert_event-All P e fs p qs)
  | inr l ↦ rw (l) (p, (q, qs))
]

take_events-All :
    (P : Event → Type 0) (n : ℕ) (es : List Event) → All P es → All P (take_events n es)
unfolding take_events
take_events-All P zero es ps = tt
take_events-All P (suc n) [] ps = tt
take_events-All P (suc n) (e ∷ es) (p, ps) = (p, take_events-All P n es ps)

due_in_order-All :
    (P : Event → Type 0) (w : World) (es : List Event) → All P es → All P (due_in_order w es)
unfolding due_in_order
due_in_order-All P w [] ps = tt
due_in_order-All P w (e ∷ es) (p, ps) = elim (Bool-cases (is_due w e)) [
  | inl d ↦ rw (d) (insert_event-All P e (due_in_order w es) p (due_in_order-All P w es ps))
  | inr d ↦ rw (d) (due_in_order-All P w es ps)
]

pub due-All :
    (P : Event → Type 0) (w : World) (n : ℕ) (es : List Event) → All P es → All P (due w n es)
unfolding due
due-All P w n es ps = take_events-All P n (due_in_order w es) (due_in_order-All P w es ps)

-- A change under a key keeps what it keeps of each row.
pub set_event-All :
    (P : Event → Type 0) (k : Option String) (c : Event → Event) (es : List Event)
    → ((e : Event) → P e → P (c e))
    → All P es
    → All P (set_event k c es)
unfolding set_event
set_event-All P k c [] h ps = tt
set_event-All P k c (e ∷ es) h (p, ps) = elim (Bool-cases (same_key e.event_id k)) [
  | inl s ↦ rw (s) (h e p, set_event-All P k c es h ps)
  | inr s ↦ rw (s) (p, set_event-All P k c es h ps)
]

-- What every verdict on an event keeps of the inbox.
abbrev pub Stays : (List Event → Type 0) → Type 0
Stays P =
    (ev : Event) (c : Event → Event)
    → IsVerdict ev c
    → (es : List Event) → P es
    → P (set_event ev.event_id c es)

-- That the processing of a list keeps too, and it returns.
process_all-Stays :
    (P : List Event → Type 0) (w : World) (es : List Event) (n : ℕ) (db : Db)
    → Stays P
    → All (IsReadable w) es
    → P db.events
    → ((process_all w es n db).1 ≡ ok (n + length es)) × P (process_all w es n db).0.events
unfolding process_all
process_all-Stays P w [] n db h rs p = (ap ok (omega arith), p)
process_all-Stays P w (e ∷ es) n db h (r, rs) p =
    let (went, (c, v, q)) = process_event-Decides w e db r in
    let next = (process_event w e db).0 in
    let kept : P next.events = rw (q) (h e c v db.events p) in
    let (m, ts) = process_all-Stays P w es (n + 1) next h rs kept in
    rw (went, process_all) (m ∙ ap ok (omega arith), ts)

pub drain-Stays :
    (P : List Event → Type 0) (w : World) (limit : ℕ) (db : Db)
    → Stays P
    → All (IsReadable w) db.events
    → P db.events
    → ((drain w limit db).1 ≡ ok (length (due w limit db.events))) × P (drain w limit db).0.events
unfolding drain
drain-Stays P w limit db h rs p =
    let (m, q) =
      process_all-Stays P w (due w limit db.events) 0 db h
        (due-All (IsReadable w) w limit db.events rs) p in
    (m ∙ ap ok (omega arith), q)

-- The same for what holds of each row.
pub All-Stays :
    (P : Event → Type 0)
    → ((ev : Event) (c : Event → Event) → IsVerdict ev c → (e : Event) → P e → P (c e))
    → Stays (All P)
All-Stays P h ev c v es ps = set_event-All P ev.event_id c es (h ev c v) ps

-- Where every payload of the inbox is empty or the text of an object, `drain` returns, with the
-- number of the events that were due, whatever the handlers raise; and every payload stays so.
pub drain-total :
    (w : World) (limit : ℕ) (db : Db)
    → All (IsReadable w) db.events
    → ((drain w limit db).1 ≡ ok (length (due w limit db.events)))
      × All (IsReadable w) (drain w limit db).0.events
drain-total w limit db rs =
    drain-Stays (All (IsReadable w)) w limit db
      (All-Stays (IsReadable w) (λ ev c v e p. ap (readable w) (v e).1 ∙ p)) rs rs
