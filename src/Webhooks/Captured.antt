-- ===== src/Webhooks/Captured.antt =====
-- webhooks.py: what `receive` adds to the inbox, in every branch.
use pcomirror.Prelude.{
  String, true, Option, none, some, List, [], ◌∷◌, ◌++◌, ◌==◌, ◌≡◌, refl, inl, inr, Bool-cases, ◌∙◌,
  ap, sym, All,
}
use mathlib.Core.List.{append-nil, append_assoc}
use pcomirror.Result.{ok, Result-cases, Holds, bind-Holds}
use pcomirror.Json.{Json, obj, end, str, get, item, null, bool, num, arr}
use pcomirror.Webhooks.State.{World, Subscription, Event, Db, bind, unwrap, same_key, pending}
use pcomirror.Webhooks.Capture.{
  id_in, event_of, get_or, text_of, payload_text, payload_id, capture_events, put_event,
}
use pcomirror.Webhooks.Receive.{receive}
use pcomirror.Webhooks.Captures.{receive-Keeps}
use pcomirror.Webhooks.Process.{payload_of}
use pcomirror.Webhooks.Verdict.{readable, is_dict}

id_in-is_dict : (o : Option Json) (j : Json) → id_in o ≡ ok j → is_dict o ≡ true
unfolding id_in is_dict unwrap
id_in-is_dict none j e = cc
id_in-is_dict (some null) j e = cc
id_in-is_dict (some (bool b)) j e = cc
id_in-is_dict (some (num t)) j e = cc
id_in-is_dict (some (str s)) j e = cc
id_in-is_dict (some (arr js)) j e = cc
id_in-is_dict (some (obj fs)) j e = refl

payload_id-readable :
    (w : World) (p : String) (j : Json) → payload_id w p ≡ ok j → readable w p ≡ true
unfolding payload_id readable payload_of is_dict
payload_id-readable w p j e = elim (Bool-cases (p == "")) [
  | inl f ↦ rw (f) refl
  | inr f ↦ rw (f) (id_in-is_dict (w.loads p) j (rw (f) at e))
]

-- A new event: it can be read, and it has not been tried.
abbrev pub IsFresh : World → Event → Type 0
IsFresh w e = (readable w e.payload ≡ true) × (e.status ≡ pending) × (e.process_attempts ≡ 0)

event_of-IsFresh :
    (w : World) (i : String) (sub : Subscription) (j : Json)
    → Holds (IsFresh w) (event_of w i sub j)
unfolding event_of
event_of-IsFresh w i sub j = bind-Holds (IsFresh w) (get_or "attributes" (obj end) j) _ (λ attrs _.
    bind-Holds (IsFresh w) (get_or "name" (str sub.event_name) attrs) _ (λ label _.
      bind-Holds (IsFresh w) (text_of label) _ (λ name _.
        bind-Holds (IsFresh w) (get "payload" attrs) _ (λ payload _.
          bind-Holds (IsFresh w) (item "id" j) _ (λ key _.
            bind-Holds (IsFresh w) (payload_id w (payload_text w payload)) _ (λ subject q.
              bind-Holds (IsFresh w) (bind key) _ (λ event_id _.
                bind-Holds (IsFresh w) (bind subject) _ (λ pco_id _.
                  (payload_id-readable w (payload_text w payload) subject q, refl, refl)))))))))

-- What follows the rows that were there, all of which satisfy `P`.
abbrev pub Appends : (Event → Type 0) → List Event → List Event → Type 0
Appends P es es' = (new : List Event) × (es' ≡ es ++ new) × All P new

Appends-none : (P : Event → Type 0) (es : List Event) → Appends P es es
Appends-none P es = ([], sym (append-nil es), tt)

pub All-append : (P : Event → Type 0) (es fs : List Event) → All P es → All P fs → All P (es ++ fs)
All-append P [] fs p q = q
All-append P (e ∷ es) fs (p, ps) q = (p, All-append P es fs ps q)

Appends-trans :
    (P : Event → Type 0) (es es' es'' : List Event)
    → Appends P es es'
    → Appends P es' es''
    → Appends P es es''
Appends-trans P es es' es'' (new, e, p) (new', e', p') = (
  new ++ new',
  e' ∙ (ap (λ x. x ++ new') e ∙ append_assoc es new new'),
  All-append P new new' p p',
)

put_event-Appends :
    (P : Event → Type 0) (e : Event) (es : List Event) → P e → Appends P es (put_event e es)
unfolding put_event
put_event-Appends P e [] p = (e ∷ [], refl, (p, tt))
put_event-Appends P e (f ∷ fs) p = elim (Bool-cases (same_key f.event_id e.event_id)) [
  | inl s ↦ rw (s) (Appends-none P (f ∷ fs))
  | inr s ↦ let (new, q, ps) = put_event-Appends P e fs p in rw (s) (new, ap (λ x. f ∷ x) q, ps)
]

capture_events-Appends :
    (w : World) (i : String) (sub : Subscription) (js : List Json) (es : List Event)
    → Appends (IsFresh w) es (capture_events w i sub js es).0
unfolding capture_events
capture_events-Appends w i sub [] es = Appends-none (IsFresh w) es
capture_events-Appends w i sub (j ∷ js) es = elim (Result-cases (event_of w i sub j)) [
  | inr (x, e) ↦ rw (e, capture_events) (Appends-none (IsFresh w) es)
  | inl (ev, e) ↦
      let f : IsFresh w ev = rw (e) at (event_of-IsFresh w i sub j) in
      rw (e, capture_events)
        (Appends-trans (IsFresh w) es (put_event ev es) _ (put_event-Appends (IsFresh w) ev es f)
          (capture_events-Appends w i sub js (put_event ev es)))
]

-- Whatever is posted to the receiver, and wherever the capture stops: the events that were in the
-- inbox stay there as they are, and each event that follows them is pending, has not been tried,
-- and has a payload that is empty or the text of an object.
pub receive-Appends :
    (w : World) (token raw : String) (signature delivery_id attempt : Option String) (db : Db)
    → Appends (IsFresh w) db.events (receive w token raw signature delivery_id attempt db).0.events
receive-Appends w token raw signature delivery_id attempt db =
    receive-Keeps (Appends (IsFresh w) db.events) w
      (λ i sub js es a.
        Appends-trans (IsFresh w) db.events es _ a (capture_events-Appends w i sub js es))
      token raw signature delivery_id attempt db (Appends-none (IsFresh w) db.events)
