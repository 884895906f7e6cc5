-- ===== src/Webhooks/Receive.antt =====
-- webhooks.py: the receiver's edge, which verifies, captures and acknowledges a delivery.
use pcomirror.Prelude.{
  ℕ, String, Bool, true, false, Option, none, some, List, [], ◌∷◌, if◌then◌else◌, or_default,
}
use pcomirror.Result.{value_error, Result, ok, err, key_error, ◌>>=◌}
use pcomirror.Json.{Json, arr, nil, iterate, bind_text}
use pcomirror.Webhooks.State.{World, Subscription, Delivery, Event, Db, Run}
use pcomirror.Webhooks.Sender.{candidates, matched, open_subs, by_event_name}
use pcomirror.Webhooks.Capture.{
  put_delivery, get_or, capture_events, touch_all, choose_id, attempt_of,
}

unfoldable pub delivery_of :
    World → String → Subscription → Option String → String → Option String → Json → Result Delivery
unfolding attempt_of
delivery_of w i sub signature raw header env = do
  attempt ← attempt_of header env
  ok (record {
    delivery_id = i;
    subscription_pco_id = sub.subscription_pco_id;
    signature = or_default signature "";
    raw_body = raw;
    attempt = attempt;
  })

-- `for item in env.get("data", [])`
unfoldable pub data_items : Json → Result (List Json)
unfolding get_or
data_items env = do batch ← get_or "data" (arr nil) env; iterate batch

unfoldable pub after_events :
    World → Subscription → Db → List Event × Result (Unit {0}) → Run (Unit {0})
unfolding touch_all
after_events w sub db (es, err e) = (record db { events = es }, err e)
after_events w sub db (es, ok u) = (
  record db { events = es; subscriptions = touch_all w sub.subscription_pco_id db.subscriptions },
  ok tt,
)

unfoldable pub capture_items : World → String → Subscription → Json → Db → Run (Unit {0})
unfolding data_items after_events
capture_items w i sub env db = elim (data_items env) [
  | err e ↦ (db, err e)
  | ok js ↦ after_events w sub db (capture_events w i sub js db.events)
]

-- The `try` of `receive`, for a delivery under its id.
unfoldable pub capture :
    World
    → Json
    → Subscription
    → Option String
    → String
    → Option String
    → Json
    → Db
    → Run (Unit {0})
unfolding delivery_of capture_items
capture w key sub signature raw header env db =
    elim (bind_text key >>= λ i. delivery_of w i sub signature raw header env) [
      | err e ↦ (db, err e)
      | ok d ↦
          capture_items w d.delivery_id sub env
            (record db { deliveries = put_delivery d db.deliveries })
    ]

abbrev pub Answer : Type 0
Answer = ℕ × String

unfoldable pub captured : Run (Unit {0}) → Run Answer
captured (db, ok u) = (db, ok (204, "ok"))
captured (db, err e) = (db, ok (503, "capture failed"))

-- Who is delivering, once the body is read.
unfoldable pub sender : Option Subscription → List Subscription → Json → Result Subscription
sender (some s) opens env = ok s
sender none (s ∷ ss) env = by_event_name s ss env
sender none [] env = err (key_error "0")

-- A body that is no text raises an error that `receive` does not catch.
unfoldable pub accept :
    World
    → Option Subscription
    → List Subscription
    → String
    → Option String
    → Option String
    → Option String
    → Db
    → Run Answer
unfolding choose_id captured sender
accept w found opens raw signature delivery_id attempt db =
    if w.decodes raw
    then elim (w.loads raw) [
      | none ↦ (db, ok (503, "unparseable"))
      | some env ↦ elim (sender found opens env) [
        | err e ↦ (db, err e)
        | ok sub ↦ elim (choose_id w delivery_id env) [
          | err e ↦ (db, err e)
          | ok key ↦ captured (capture w key sub signature raw attempt env db)
        ]
      ]
    ]
    else (db, err (value_error "utf-8"))

-- Does a signature vouch for the body, or does a subscription ask for none?
unfoldable pub is_authentic : Option Subscription → List Subscription → Bool
is_authentic (some s) opens = true
is_authentic none (s ∷ ss) = true
is_authentic none [] = false

-- `receive` for the candidates that it found. An error is an exception that leaves `receive`.
unfoldable pub answer :
    World
    → String
    → Option String
    → Option String
    → Option String
    → List Subscription
    → Db
    → Run Answer
unfolding accept
answer w raw signature delivery_id attempt [] db = (db, ok (404, "unknown token"))
answer w raw signature delivery_id attempt (s ∷ ss) db =
    let found = matched w raw signature (s ∷ ss) in
    let opens = open_subs (s ∷ ss) in
    if is_authentic found opens
    then accept w found opens raw signature delivery_id attempt db
    else (db, ok (401, "bad signature"))

unfoldable pub receive :
    World → String → String → Option String → Option String → Option String → Db → Run Answer
receive w token raw signature delivery_id attempt db =
    answer w raw signature delivery_id attempt (candidates token db.subscriptions) db
