-- ===== src/Webhooks/Revivals.antt =====
-- webhooks.py: `retry_dead_letters` puts every dead-lettered event back in the inbox.
use pcomirror.Prelude.{
  String, Bool, true, false, Option, none, some, List, [], ◌∷◌, ◌≡◌, refl, inl, inr, Bool-cases,
  ◌∙◌, ap, arith, if◌then◌else◌, eq_iff,
}
use pcomirror.Webhooks.State.{pending, DeadLetter, Event, Db, same_key}
use pcomirror.Webhooks.Inbox.{set_event}
use pcomirror.Webhooks.Drain.{retry_dead_letters, revive_all, revive, without_dead}
use pcomirror.Webhooks.Attempts.{find_event, find_event-set_event}

same_key-some : (a : Option String) (k : String) → same_key a (some k) ≡ true → a ≡ some k
unfolding same_key
same_key-some none k e = cc
same_key-some (some j) k e = let same : j ≡ k = ground (arith, eq_iff j k) in ap some same

abbrev pub has_dead : String → List DeadLetter → Bool
has_dead k [] = false
has_dead k (d ∷ ds) = if same_key d.event_id (some k) then true else has_dead k ds

has_dead-without_dead :
    (k : String) (o : Option String) (ds : List DeadLetter)
    → has_dead k ds ≡ false
    → has_dead k (without_dead o ds) ≡ false
unfolding without_dead
has_dead-without_dead k o [] h = refl
has_dead-without_dead k o (d ∷ ds) h = elim (Bool-cases (same_key d.event_id (some k))) [
  | inl s ↦ let bad : true ≡ false = rw (s) at h in cc
  | inr s ↦
      let rest = has_dead-without_dead k o ds (rw (s) at h) in
      elim (Bool-cases (same_key d.event_id o)) [ inl t ↦ rw (t) rest | inr t ↦ rw (t, s) rest ]
]

without_dead_self :
    (k : String) (ds : List DeadLetter) → has_dead k (without_dead (some k) ds) ≡ false
unfolding without_dead
without_dead_self k [] = refl
without_dead_self k (d ∷ ds) = elim (Bool-cases (same_key d.event_id (some k))) [
  | inl s ↦ rw (s) (without_dead_self k ds)
  | inr s ↦ rw (s, s) (without_dead_self k ds)
]

without_dead-id :
    (k : String) (d : Option String) (ds : List DeadLetter)
    → same_key d (some k) ≡ true
    → has_dead k (without_dead d ds) ≡ false
without_dead-id k d ds s =
    ap (λ o. has_dead k (without_dead o ds)) (same_key-some d k s) ∙ without_dead_self k ds

revive_all-has_dead :
    (k : String) (ds : List DeadLetter) (db : Db)
    → (has_dead k ds ≡ false → has_dead k db.dead_letters ≡ false)
    → has_dead k (revive_all ds db).dead_letters ≡ false
unfolding revive_all
revive_all-has_dead k [] db h = h refl
revive_all-has_dead k (d ∷ ds) db h = elim (Bool-cases (same_key d.event_id (some k))) [
  | inl s ↦ revive_all-has_dead k ds _ (λ _. without_dead-id k d.event_id db.dead_letters s)
  | inr s ↦
      revive_all-has_dead k ds _
        (λ e. has_dead-without_dead k d.event_id db.dead_letters (h (rw (s) e)))
]

different :
    (a o : Option String) (k : String)
    → same_key a (some k) ≡ true
    → same_key o (some k) ≡ false
    → same_key a o ≡ false
unfolding same_key
different none o k s n = cc
different (some j) none k s n = refl
different (some j) (some l) k s n = ground (arith, eq_iff j k, eq_iff l k, eq_iff j l)

find_event-set_event_ne :
    (k : String) (o : Option String) (c : Event → Event) (es : List Event)
    → ((f : Event) → (c f).event_id ≡ f.event_id)
    → same_key o (some k) ≡ false
    → find_event k (set_event o c es) ≡ find_event k es
unfolding set_event
find_event-set_event_ne k o c [] h n = refl
find_event-set_event_ne k o c (f ∷ fs) h n =
    let rest = find_event-set_event_ne k o c fs h n in
    elim (Bool-cases (same_key f.event_id (some k))) [
      | inl s ↦
          let other : same_key f.event_id o ≡ false = different f.event_id o k s n in
          rw (other, s) refl
      | inr s ↦
          let kept : same_key (c f).event_id (some k) ≡ false =
            ap (λ x. same_key x (some k)) (h f) ∙ s in
          elim (Bool-cases (same_key f.event_id o)) [
            | inl t ↦ rw (t, s, kept) rest
            | inr t ↦ rw (t, s) rest
          ]
    ]

twice : (b : Bool) (e : Event) → (if b then revive (revive e) else revive e) ≡ revive e
unfolding revive
twice true e = refl
twice false e = refl

revive_all-find_event :
    (k : String) (ds : List DeadLetter) (db : Db) (e : Event)
    → find_event k db.events ≡ some e
    → find_event k (revive_all ds db).events ≡ some (if has_dead k ds then revive e else e)
unfolding revive_all revive
revive_all-find_event k [] db e f = f
revive_all-find_event k (d ∷ ds) db e f = elim (Bool-cases (same_key d.event_id (some k))) [
  | inl s ↦
      let found : find_event k (set_event d.event_id revive db.events) ≡ some (revive e) =
        ap (λ o. find_event k (set_event o revive db.events)) (same_key-some d.event_id k s)
        ∙ find_event-set_event k revive db.events e (λ x. refl) f in
      rw (s) (revive_all-find_event k ds _ (revive e) found ∙ ap some (twice (has_dead k ds) e))
  | inr s ↦
      let found : find_event k (set_event d.event_id revive db.events) ≡ some e =
        find_event-set_event_ne k d.event_id revive db.events (λ x. refl) s ∙ f in
      rw (s) (revive_all-find_event k ds _ e found)
]

-- For an id that an event of the inbox has: after `retry_dead_letters` no dead letter has the id, and
-- the event is what it was, except that it is pending, untried, due at once and without an error
-- if a dead letter had the id.
pub retry_dead_letters-revives :
    (k : String) (db : Db) (e : Event)
    → find_event k db.events ≡ some e
    → (has_dead k (retry_dead_letters db).0.dead_letters ≡ false)
      × (find_event k (retry_dead_letters db).0.events
          ≡ some (
              if has_dead k db.dead_letters
              then record e {
                status = pending;
                process_attempts = 0;
                next_attempt_at = none;
                last_error = none;
              }
              else e))
unfolding retry_dead_letters revive
retry_dead_letters-revives k db e f = (
  revive_all-has_dead k db.dead_letters db (λ h. h),
  revive_all-find_event k db.dead_letters db e f,
)
