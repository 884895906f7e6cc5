-- ===== src/Webhooks/State.antt =====
-- db.py: the tables that the webhooks keep beside the mirrored ones, and what comes from outside.
use pcomirror.Prelude.{
  ℕ, String, Bool, false, Option, none, some, List, [], ◌∷◌, ◌==◌, if◌then◌else◌,
}
use pcomirror.Json.{Json, null, bool, num, str, arr, obj, lookup_field}
use pcomirror.Result.{Exn, Result, ok, err, db_error, attribute_error}
use pcomirror.Store.{Row}
use pcomirror.Writer.Ops.{Env}

-- The standard library as the code uses it: the clock, `json`, and HMAC-SHA256 of a body under a
-- secret, in hexadecimal and in base64. A body stands for its bytes, and `decodes` says whether they
-- are a text. `later n` is the time in `n` seconds, `show` is `str` of a
-- list or a dict.
pub record World : Type 0 where
  pub env : Env
  pub later : ℕ → String
  pub decodes : String → Bool
  pub loads : String → Option Json
  pub dumps : Json → String
  pub show : Json → String
  pub hex_digest : String → String → String
  pub base64_digest : String → String → String

pub record Subscription : Type 0 where
  pub subscription_pco_id : String
  pub event_name : String
  pub resource : String
  pub action : String
  pub url_token : String
  pub authenticity_secret : String
  pub active : Bool
  pub last_event_at : Option String
  pub managed : String

pub record Delivery : Type 0 where
  pub delivery_id : String
  pub subscription_pco_id : String
  pub signature : String
  pub raw_body : String
  pub attempt : Option String

pub data Status : Type 0 where
  pending done ignored dead : Status

pub data Note : Type 0 where
  raised : Exn → Note
  no_table : String → Note
  unparseable_payload : Note

pub record Event : Type 0 where
  pub event_id : Option String
  pub delivery_id : String
  pub event_name : String
  pub resource_type : String
  pub action : String
  pub pco_id : Option String
  pub payload : String
  pub status : Status
  pub process_attempts : ℕ
  pub next_attempt_at : Option String
  pub received_at : String
  pub processed_at : Option String
  pub last_error : Option Note

-- The primary keys are TEXT, where SQLite admits NULL: such a key is equal to none.
pub record DeadLetter : Type 0 where
  pub event_id : Option String
  pub event_name : String
  pub payload : String
  pub last_error : Note
  pub attempts : ℕ

pub record Task : Type 0 where
  pub resource_type : String
  pub pco_id : String
  pub includes : List String
  pub reason : String
  pub not_before : String

-- A walk record: a resource and the parent that was walked for it.
pub record Db : Type 0 where
  pub rows : List Row
  pub subscriptions : List Subscription
  pub deliveries : List Delivery
  pub events : List Event
  pub dead_letters : List DeadLetter
  pub tasks : List Task
  pub walks : List (String × String)
  pub next_run : List (String × String)
  pub meta : List (String × String)

-- `mirror_meta`, and `next_run_at` of `mirror_sync_state`: texts under a key.
unfoldable pub get_key : String → List (String × String) → Option String
get_key k [] = none
get_key k ((j, v) ∷ m) = if j == k then some v else get_key k m

unfoldable pub set_key : String → String → List (String × String) → List (String × String)
set_key k v [] = (k, v) ∷ []
set_key k v ((j, w) ∷ m) = if j == k then (j, v) ∷ m else (j, w) ∷ set_key k v m

unfoldable pub delete_key : String → List (String × String) → List (String × String)
delete_key k [] = []
delete_key k ((j, w) ∷ m) = if j == k then delete_key k m else (j, w) ∷ delete_key k m

-- `a = b`, which is not true of NULL.
unfoldable pub same_key : Option String → Option String → Bool
same_key none k = false
same_key (some a) none = false
same_key (some a) (some b) = a == b

-- A parameter that may be NULL; a list or a dict is refused by the driver.
abbrev pub bind : Json → Result (Option String)
bind null = ok none
bind (bool b) = if b then ok (some "1") else ok (some "0")
bind (num t) = ok (some t)
bind (str s) = ok (some s)
bind (arr js) = err db_error
bind (obj fs) = err db_error

-- `_unwrap`
unfoldable pub unwrap : Json → Result Json
unwrap (obj fs) = elim (lookup_field "data" fs) [ obj gs ↦ ok (obj gs) | _ ↦ ok (obj fs) ]
unwrap _ = err attribute_error

-- What a statement leaves, also where a later one raises.
abbrev pub Run : Type 0 → Type 0
Run A = Db × Result A
