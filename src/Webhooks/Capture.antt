-- ===== src/Webhooks/Capture.antt =====
-- webhooks.py: what the receiver stores of a delivery: an envelope's events, each once.
use Prim.Native.String.{◌++◌}
use pcomirror.Prelude.{String, Option, none, some, List, [], ◌∷◌, ◌==◌, if◌then◌else◌, or_default}
use pcomirror.Result.{Result, ok, err, attribute_error, value_error, ◌>>=◌}
use pcomirror.Json.{Json, null, str, obj, end, get, item, truthy, lookup_field, has_field}
use pcomirror.Webhooks.State.{World, Subscription, Delivery, Event, pending, same_key, bind, unwrap}
use pcomirror.Webhooks.Subscriptions.{parse_event_name}

-- INSERT OR IGNORE INTO webhook_delivery
unfoldable pub put_delivery : Delivery → List Delivery → List Delivery
put_delivery new [] = new ∷ []
put_delivery new (d ∷ ds) =
    if d.delivery_id == new.delivery_id then d ∷ ds else d ∷ put_delivery new ds

-- INSERT OR IGNORE INTO webhook_event
unfoldable pub put_event : Event → List Event → List Event
put_event new [] = new ∷ []
put_event new (e ∷ es) = if same_key e.event_id new.event_id then e ∷ es else e ∷ put_event new es

-- A text as `parse_event_name` needs one.
unfoldable pub text_of : Json → Result String
text_of (str s) = ok s
text_of _ = err attribute_error

-- `j.get(k, default)`
unfoldable pub get_or : String → Json → Json → Result Json
get_or k default (obj fs) = ok (if has_field k fs then lookup_field k fs else default)
get_or k default _ = err attribute_error

-- `payload` as it is stored.
unfoldable pub payload_text : World → Json → String
payload_text w (str s) = s
payload_text w j = w.dumps j

-- `_unwrap(json.loads(payload)).get("id")`, of what `json.loads` returns.
unfoldable pub id_in : Option Json → Result Json
id_in none = err (value_error "json")
id_in (some j) = do resource ← unwrap j; get "id" resource

-- `_unwrap(json.loads(payload)).get("id") if payload else None`
unfoldable pub payload_id : World → String → Result Json
unfolding id_in
payload_id w p = if p == "" then ok null else id_in (w.loads p)

unfoldable pub event_of : World → String → Subscription → Json → Result Event
unfolding text_of get_or payload_text payload_id
event_of w delivery_id sub j = do
  attrs ← get_or "attributes" (obj end) j
  label ← get_or "name" (str sub.event_name) attrs
  name ← text_of label
  payload ← get "payload" attrs
  key ← item "id" j
  subject ← payload_id w (payload_text w payload)
  event_id ← bind key
  pco_id ← bind subject
  ok (record {
    event_id = event_id;
    delivery_id = delivery_id;
    event_name = name;
    resource_type = (parse_event_name name).0;
    action = (parse_event_name name).1;
    pco_id = pco_id;
    payload = payload_text w payload;
    status = pending;
    process_attempts = 0;
    next_attempt_at = none;
    received_at = w.env.now;
    processed_at = none;
    last_error = none;
  })

-- The events before one that cannot be captured stay.
unfoldable pub capture_events :
    World → String → Subscription → List Json → List Event → List Event × Result (Unit {0})
unfolding event_of
capture_events w delivery_id sub [] es = (es, ok tt)
capture_events w delivery_id sub (j ∷ js) es =
    let next = λ (es' : List Event). capture_events w delivery_id sub js es' in
    elim (event_of w delivery_id sub j) [ err e ↦ (es, err e) | ok ev ↦ next (put_event ev es) ]

unfoldable pub touch : World → String → Subscription → Subscription
touch w i s = if s.subscription_pco_id == i then record s { last_event_at = some w.env.now } else s

unfoldable pub touch_all : World → String → List Subscription → List Subscription
unfolding touch
touch_all w i [] = []
touch_all w i (s ∷ ss) = touch w i s ∷ touch_all w i ss

-- `env.get("id") or delivery_id or f"nodelivery-{now_iso()}"`
unfoldable pub choose_id : World → Option String → Json → Result Json
choose_id w header env = do
  i ← get "id" env
  let named = or_default header "" in
      ok (
        if truthy i then i else if named == "" then str ("nodelivery-" ++ w.env.now) else str named)

-- `env.get("attempt") or attempt`, bound.
unfoldable pub attempt_of : Option String → Json → Result (Option String)
attempt_of header env = do a ← get "attempt" env; if truthy a then bind a else ok header
