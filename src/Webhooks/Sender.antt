-- ===== src/Webhooks/Sender.antt =====
-- webhooks.py: which subscription is delivering, by its signature or by the event that it claims.
use pcomirror.Prelude.{
  String, Bool, false, Option, none, some, List, [], ◌∷◌, ◌==◌, ◌&&◌, ◌||◌, not, if◌then◌else◌,
  strip, text_lt,
}
use pcomirror.Result.{Result, ok, err, key_error, type_error, ◌>>=◌}
use pcomirror.Json.{Json, null, str, arr, obj, nil, cons, get, truthy, or_obj}
use pcomirror.Webhooks.State.{World, Subscription}
use pcomirror.Webhooks.Subscriptions.{is_unverified}

unfoldable pub verify : World → String → String → Option String → Bool
verify w secret raw none = false
verify w secret raw (some s) =
    not (s == "") && (strip s == w.hex_digest secret raw || strip s == w.base64_digest secret raw)

-- ORDER BY event_name, subscription_pco_id
unfoldable pub sub_before : Subscription → Subscription → Bool
sub_before s t =
    text_lt s.event_name t.event_name
    || s.event_name == t.event_name && text_lt s.subscription_pco_id t.subscription_pco_id

unfoldable pub insert_sub : Subscription → List Subscription → List Subscription
unfolding sub_before
insert_sub s [] = s ∷ []
insert_sub s (t ∷ ts) = if sub_before t s then t ∷ insert_sub s ts else s ∷ t ∷ ts

-- The subscriptions that may be delivering to a token, in order.
unfoldable pub candidates : String → List Subscription → List Subscription
unfolding insert_sub
candidates token [] = []
candidates token (s ∷ ss) =
    let rest = candidates token ss in
    if s.url_token == token && s.active then insert_sub s rest else rest

-- The first signed subscription whose secret signed the body.
unfoldable pub matched : World → String → Option String → List Subscription → Option Subscription
matched w raw signature [] = none
matched w raw signature (s ∷ ss) =
    if not (is_unverified s) && verify w s.authenticity_secret raw signature
    then some s
    else matched w raw signature ss

unfoldable pub open_subs : List Subscription → List Subscription
open_subs [] = []
open_subs (s ∷ ss) = if is_unverified s then s ∷ open_subs ss else open_subs ss

-- `data[0]`
unfoldable pub first_of : Json → Result Json
first_of (arr (cons j js)) = ok j
first_of (arr nil) = err (key_error "0")
first_of (obj fs) = err (key_error "0")
first_of (str s) = ok (str s)
first_of _ = err type_error

-- `(data[0].get("attributes") or {}).get("name") if data else None`
unfoldable pub claimed : Json → Result Json
unfolding first_of
claimed env = do
  batch ← get "data" env
  if truthy batch
      then (do head ← first_of batch; attrs ← get "attributes" head; get "name" (or_obj attrs))
      else ok null

unfoldable pub named : Json → Subscription → Bool
named (str n) s = s.event_name == n
named _ s = false

unfoldable pub first_named : Json → Subscription → List Subscription → Subscription
unfolding named
first_named name default [] = default
first_named name default (s ∷ ss) = if named name s then s else first_named name default ss

-- `_by_event_name`
unfoldable pub by_event_name : Subscription → List Subscription → Json → Result Subscription
unfolding claimed first_named
by_event_name s ss env = do name ← claimed env; ok (first_named name s (s ∷ ss))
