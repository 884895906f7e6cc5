-- ===== src/Webhooks/Captures.antt =====
-- webhooks.py: what the capture of a delivery's events keeps, `receive` keeps in every branch.
use pcomirror.Prelude.{String, Option, List, [], ◌∷◌, ◌≡◌, refl, inl, inr, Bool-cases, Option-cases}
use pcomirror.Result.{◌>>=◌, Result, ok, err, Result-cases}
use pcomirror.Json.{Json, bind_text}
use pcomirror.Webhooks.State.{World, Subscription, Event, Db, Run}
use pcomirror.Webhooks.Sender.{candidates, matched, open_subs}
use pcomirror.Webhooks.Capture.{put_delivery, capture_events, choose_id}
use pcomirror.Webhooks.Receive.{
  receive, answer, accept, capture, capture_items, after_events, captured, data_items, delivery_of,
  sender, is_authentic,
}

captured-events : (ran : Run (Unit {0})) → (captured ran).0.events ≡ ran.0.events
unfolding captured
captured-events (db, ok u) = refl
captured-events (db, err e) = refl

-- `P` holds of an inbox, and of it with the events of any delivery captured.
module _ (P : List Event → Type 0) (w : World)
    (step : (i : String) (sub : Subscription) (js : List Json) (es : List Event)
      → P es
      → P (capture_events w i sub js es).0) where
  after_events-Keeps :
      (sub : Subscription) (db : Db) (got : List Event × Result (Unit {0}))
      → P got.0
      → P (after_events w sub db got).0.events
  unfolding after_events
  after_events-Keeps sub db (es, ok u) p = p
  after_events-Keeps sub db (es, err e) p = p

  capture_items-Keeps :
      (i : String) (sub : Subscription) (env : Json) (db : Db)
      → P db.events
      → P (capture_items w i sub env db).0.events
  unfolding capture_items
  capture_items-Keeps i sub env db h = elim (Result-cases (data_items env)) [
    | inr (x, e) ↦ rw (e, capture_items) h
    | inl (js, e) ↦
        rw (e, capture_items)
          (after_events-Keeps sub db (capture_events w i sub js db.events)
            (step i sub js db.events h))
  ]

  capture-Keeps :
      (key : Json) (sub : Subscription) (signature : Option String) (raw : String)
      (header : Option String) (env : Json) (db : Db)
      → P db.events
      → P (capture w key sub signature raw header env db).0.events
  unfolding capture
  capture-Keeps key sub signature raw header env db h =
      elim (Result-cases (bind_text key >>= λ i. delivery_of w i sub signature raw header env)) [
        | inr (x, e) ↦ rw (e, capture) h
        | inl (d, e) ↦
            rw (e, capture)
              (capture_items-Keeps d.delivery_id sub env
                (record db { deliveries = put_delivery d db.deliveries }) h)
      ]

  accept-Keeps :
      (found : Option Subscription) (opens : List Subscription) (raw : String)
      (signature delivery_id attempt : Option String) (db : Db)
      → P db.events
      → P (accept w found opens raw signature delivery_id attempt db).0.events
  unfolding accept
  accept-Keeps found opens raw signature delivery_id attempt db h =
      elim (Bool-cases (w.decodes raw)) [
        | inr n ↦ rw (n, accept) h
        | inl d ↦ elim (Option-cases (w.loads raw)) [
          | inl e ↦ rw (d, e, accept) h
          | inr (env, e) ↦ elim (Result-cases (sender found opens env)) [
            | inr (x, f) ↦ rw (d, e, accept, f) h
            | inl (sub, f) ↦ elim (Result-cases (choose_id w delivery_id env)) [
              | inr (x, g) ↦ rw (d, e, accept, f, g) h
              | inl (key, g) ↦
                  rw (d, e, accept, f, g)
                    (rw (captured-events (capture w key sub signature raw attempt env db))
                      (capture-Keeps key sub signature raw attempt env db h))
            ]
          ]
        ]
      ]

  answer-Keeps :
      (raw : String) (signature delivery_id attempt : Option String) (ss : List Subscription)
      (db : Db)
      → P db.events
      → P (answer w raw signature delivery_id attempt ss db).0.events
  unfolding answer
  answer-Keeps raw signature delivery_id attempt [] db h = h
  answer-Keeps raw signature delivery_id attempt (s ∷ ss) db h =
      let found = matched w raw signature (s ∷ ss) in
      let opens = open_subs (s ∷ ss) in
      elim (Bool-cases (is_authentic found opens)) [
        | inl e ↦ rw (e) (accept-Keeps found opens raw signature delivery_id attempt db h)
        | inr e ↦ rw (e) h
      ]

  pub receive-Keeps :
      (token raw : String) (signature delivery_id attempt : Option String) (db : Db)
      → P db.events
      → P (receive w token raw signature delivery_id attempt db).0.events
  unfolding receive
  receive-Keeps token raw signature delivery_id attempt db h =
      answer-Keeps raw signature delivery_id attempt (candidates token db.subscriptions) db h
