-- ===== src/Webhooks/Subscriptions.antt =====
-- webhooks.py: the list of subscriptions, and who owns it.
use Prim.Native.Nat.{◌+◌}
use pcomirror.Prelude.{
  ℕ, String, Bool, true, false, Option, none, some, List, [], ◌∷◌, ◌==◌, ◌&&◌, not, if◌then◌else◌,
  is_some, is_text, map, strip, split, text_lt,
}
use pcomirror.Result.{Result, ok, err, value_error, ◌>>=◌}
use pcomirror.Webhooks.State.{Subscription, Db, get_key, set_key, delete_key}
use pcomirror.Webhooks.Token.{is_token, token_is_credential}

unfoldable pub last_two : List String → Option (String × String)
last_two [] = none
last_two (a ∷ []) = none
last_two (a ∷ b ∷ []) = some (a, b)
last_two (a ∷ b ∷ c ∷ cs) = last_two (b ∷ c ∷ cs)

unfoldable pub parse_event_name : String → String × String
unfolding last_two
parse_event_name name = elim (last_two (split b'.' name)) [ none ↦ (name, "") | some p ↦ p ]

unfoldable pub is_unverified : Subscription → Bool
is_unverified s = strip s.authenticity_secret == ""

unfoldable pub find_sub : String → List Subscription → Option Subscription
find_sub i [] = none
find_sub i (s ∷ ss) = if s.subscription_pco_id == i then some s else find_sub i ss

-- INSERT … ON CONFLICT(subscription_pco_id) DO UPDATE SET …
unfoldable pub put_sub : Subscription → List Subscription → List Subscription
put_sub new [] = new ∷ []
put_sub new (s ∷ ss) =
    if s.subscription_pco_id == new.subscription_pco_id
    then record new { last_event_at = s.last_event_at } ∷ ss
    else s ∷ put_sub new ss

-- `url_token or (row["url_token"] if row else mint_token())`
unfoldable pub choose_token : String → Option String → Option Subscription → String
choose_token minted (some t) row = t
choose_token minted none (some s) = s.url_token
choose_token minted none none = minted

unfoldable pub new_sub : String → String → String → String → String → Subscription
unfolding parse_event_name
new_sub i event secret token managed = record {
  subscription_pco_id = i;
  event_name = event;
  resource = (parse_event_name event).0;
  action = (parse_event_name event).1;
  url_token = token;
  authenticity_secret = secret;
  active = true;
  last_event_at = none;
  managed = managed;
}

unfoldable pub bad_token : Option String → Bool
bad_token none = false
bad_token (some t) = not (is_token t)

-- The token, and whether the row is new; `minted` is what `mint_token` would return.
unfoldable pub upsert_subscription :
    String
    → String
    → String
    → String
    → Option String
    → String
    → List Subscription
    → Result (List Subscription × (String × Bool))
unfolding bad_token
upsert_subscription minted i event secret url_token managed ss =
    if bad_token url_token
    then err (value_error "invalid url_token")
    else if strip i == ""
    then err (value_error "a subscription needs an id")
    else if strip event == ""
    then err (value_error "a subscription needs an event name")
    else ok (
        let token = choose_token minted url_token (find_sub i ss) in
        (put_sub (new_sub i event secret token managed) ss, (token, not (is_some (find_sub i ss)))))

unfoldable pub without_sub : String → List Subscription → List Subscription
without_sub i [] = []
without_sub i (s ∷ ss) =
    if s.subscription_pco_id == i then without_sub i ss else s ∷ without_sub i ss

unfoldable pub delete_subscription : String → List Subscription → List Subscription × Bool
unfolding without_sub
delete_subscription i ss = (without_sub i ss, is_some (find_sub i ss))

unfoldable pub activate : String → Bool → Subscription → Subscription
activate i on s = if s.subscription_pco_id == i then record s { active = on } else s

unfoldable pub set_active : String → Bool → List Subscription → List Subscription × Bool
unfolding activate
set_active i on ss = (map (activate i on) ss, is_some (find_sub i ss))

-- `trim(s) = ''`: SQLite's `trim` takes off spaces only.
unfoldable pub is_spaces : String → Bool
is_spaces String.[] = true
is_spaces (String.◌∷◌ c s) = if String.◌∷◌ c "" == " " then is_spaces s else false

-- SELECT DISTINCT … ORDER BY url_token
unfoldable pub insert_text : String → List String → List String
insert_text t [] = t ∷ []
insert_text t (u ∷ us) =
    if t == u then u ∷ us else if text_lt t u then t ∷ u ∷ us else u ∷ insert_text t us

unfoldable pub unprotected_tokens : List Subscription → List String
unfolding insert_text
unprotected_tokens [] = []
unprotected_tokens (s ∷ ss) =
    let rest = unprotected_tokens ss in
    if s.active && is_spaces s.authenticity_secret && not (token_is_credential s.url_token)
    then insert_text s.url_token rest
    else rest

abbrev pub override_key : String
override_key = "subscriptions_managed_here"

unfoldable pub env_is_authoritative : Db → Bool
env_is_authoritative db = not (is_text (get_key override_key db.meta) "1")

unfoldable pub take_over : Db → Db
take_over db = record db { meta = set_key override_key "1" db.meta }

unfoldable pub hand_back : Db → Db
hand_back db = record db { meta = delete_key override_key db.meta }

-- config.py: one declaratively configured subscription.
pub record SubscriptionSpec : Type 0 where
  pub subscription_id : String
  pub event : String
  pub secret : String
  pub url_token : String

pub data Outcome : Type 0 where
  skipped : Outcome
  registered updated : String → Outcome

-- The subscriptions stay as they are where a spec raises. `minted` are the tokens to be minted.
unfoldable pub apply_specs :
    (ℕ → String)
    → ℕ
    → List SubscriptionSpec
    → List Subscription
    → List Subscription × Result (List Outcome)
apply_specs minted n [] ss = (ss, ok [])
apply_specs minted n (p ∷ ps) ss =
    let next = λ (ss' : List Subscription). apply_specs minted (n + 1) ps ss' in
    let given = if p.url_token == "" then none else some p.url_token in
    elim (upsert_subscription (minted n) p.subscription_id p.event p.secret given "env" ss) [
      | err e ↦ (ss, err e)
      | ok (ss', (token, created)) ↦ (
        (next ss').0,
        (next ss').1 >>= λ out. ok ((if created then registered token else updated token) ∷ out),
      )
    ]

unfoldable pub apply_env : (ℕ → String) → List SubscriptionSpec → Db → Db × Result (List Outcome)
unfolding apply_specs
apply_env minted specs db =
    if env_is_authoritative db
    then (
      record db { subscriptions = (apply_specs minted 0 specs db.subscriptions).0 },
      (apply_specs minted 0 specs db.subscriptions).1,
    )
    else (db, ok (map (λ p. skipped) specs))
