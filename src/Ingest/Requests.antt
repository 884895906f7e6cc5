-- ===== src/Ingest/Requests.antt =====
-- ingest.py: `request_audit`, `audit_request`, `clear_audit_request` and `request_sweep`.
use Prim.Native.String.{◌++◌}
use pcomirror.Prelude.{
  String, Option, none, some, List, [], ◌∷◌, ◌==◌, if◌then◌else◌, is_text, first_word,
}
use pcomirror.Result.{Result, ok, err, index_error}
use pcomirror.Webhooks.State.{World, Db, Run, get_key, set_key, delete_key}

-- Who asks: the drift probe, or a person on the console.
pub data Asker : Type 0 where
  drift operator : Asker

abbrev pub source_of : Asker → String
source_of drift = "drift"
source_of operator = "operator"

abbrev pub audit_request_key : String → String
audit_request_key name = "audit_requested:" ++ name

infixl 5 ◌with_state◌
abbrev pub ◌with_state◌ : {A B : Type 0} → Run A → (A → Db → Run B) → Run B
(db, ok a) with_state f = f a db
(db, err e) with_state f = (db, err e)

-- `held.split()[0] if held else None`: a blank text has no first word.
unfoldable pub source_in : Option String → Result (Option String)
source_in none = ok none
source_in (some held) =
    if held == ""
    then ok none
    else if first_word held == ""
    then err index_error
    else ok (some (first_word held))

unfoldable pub audit_request : String → Db → Result (Option String)
unfolding source_in
audit_request name db = source_in (get_key (audit_request_key name) db.meta)

-- `f"{source} {now_iso()}"`
abbrev pub request_text : World → Asker → String
request_text w who = source_of who ++ (" " ++ w.env.now)

-- The request is stored, in the place of one that is pending.
abbrev pub put_request : World → String → Asker → Db → Db
put_request w name who db = record db {
  meta = set_key (audit_request_key name) (request_text w who) db.meta;
}

unfoldable pub request_audit : World → String → Asker → Db → Run (Unit {0})
unfolding audit_request
request_audit w name who db =
    if source_of who == "drift"
    then (db, audit_request name db) with_state (λ held db'.
        if is_text held "operator" then (db', ok tt) else (put_request w name who db', ok tt))
    else (put_request w name who db, ok tt)

unfoldable pub clear_audit_request : String → Db → Db
clear_audit_request name db = record db { meta = delete_key (audit_request_key name) db.meta }

-- `next_run_at` is now.
unfoldable pub request_sweep : World → String → Db → Db
request_sweep w name db = record db { next_run = set_key name w.env.now db.next_run }

-- Requests one after another, for any resources and at any times, up to one that raises.
unfoldable pub request_all : List (World × (String × Asker)) → Db → Run (Unit {0})
unfolding request_audit
request_all [] db = (db, ok tt)
request_all ((w, (name, who)) ∷ rest) db =
    request_audit w name who db with_state (λ u db'. request_all rest db')
