-- ===== src/Ingest/Mergers.antt =====
-- ingest.py: `merger_poll`.
use pcomirror.Store.{from_reconcile}
use Prim.Native.Nat.{◌+◌}
use pcomirror.Prelude.{
  ℕ, zero, suc, String, Bool, true, false, Option, none, some, List, [], ◌∷◌, ◌==◌, ◌&&◌, ◌||◌,
  if◌then◌else◌, length, ltb, leb, text_lt,
}
use pcomirror.Result.{Result, ok, err, type_error, ◌>>=◌}
use pcomirror.Json.{Json, null, bool, num, str, arr, obj, item, bind_text, iterate}
use pcomirror.Client.Request.{Response}
use pcomirror.Webhooks.State.{World, Db}
use pcomirror.Webhooks.Hydration.{enqueue_hydration}
use pcomirror.Webhooks.Merger.{merger_is_new, record_merger}
use pcomirror.Writer.Tombstone.{tombstone}
use pcomirror.Ingest.Remote.{Param, per_page, ordered_by, since, page_of}
use pcomirror.Ingest.Walk.{in_db}

-- What is left in the database, and what came out or was raised.
abbrev pub Action : Type 0 → Type 0
Action A = Db × Result A

infixl 5 ◌giving◌
abbrev pub ◌giving◌ : {A B : Type 0} → Action A → (A → Db → Action B) → Action B
(db, ok a) giving f = f a db
(db, err e) giving f = (db, err e)

-- `str(j)`
unfoldable pub str_of : World → Json → String
str_of w (str s) = s
str_of w (num t) = t
str_of w (bool true) = "True"
str_of w (bool false) = "False"
str_of w null = "None"
str_of w (arr js) = w.show (arr js)
str_of w (obj fs) = w.show (obj fs)

-- `max(wm, at)`
unfoldable pub later_of : String → String → String
later_of wm at = if text_lt wm at then at else wm

-- Only a text compares with the watermark.
unfoldable pub as_text : Json → Result String
as_text (str s) = ok s
as_text _ = err type_error

-- What the loop's body reads of every row: `m["attributes"]`, its `created_at`, and `m["id"]`.
pub record Listed : Type 0 where
  pub attributes : Json
  pub created_at : String
  pub merger : String

unfoldable pub listed_merger : Json → Result Listed
unfolding as_text
listed_merger m = do
  a ← item "attributes" m
  at ← item "created_at" a
  text ← as_text at
  i ← item "id" m
  key ← bind_text i
  ok (record { attributes = a; created_at = text; merger = key })

-- The two ids, which are JSON numbers on the wire.
unfoldable pub merged_pair : World → Json → Result (String × String)
unfolding str_of
merged_pair w a = do
  keep ← item "person_to_keep_id" a
  gone ← item "person_to_remove_id" a
  ok (str_of w keep, str_of w gone)

-- A merge that is not in the log: the tombstone, the survivor's re-read, and last the log.
unfoldable pub apply_listed : World → Json → String → String × String → Db → Action (Unit {0})
apply_listed w m key (keep, gone) db =
    in_db db (λ rs. elim (tombstone w.env "person" gone null "merged" (some keep) rs) [
      | ok rs' ↦ (rs', ok tt)
      | err e ↦ (rs, err e)
    ])
    giving (λ u db1. enqueue_hydration w "person" (str keep) "merge_survivor" db1)
    giving (λ u db2. (record_merger w key m from_reconcile db2, ok tt))

-- The loop's body; the result is the watermark and how many merges were new.
unfoldable pub poll_listed : World → Json → Listed → String × ℕ → Db → Action (String × ℕ)
unfolding later_of merged_pair apply_listed
poll_listed w m l (wm, fresh) db =
    if merger_is_new l.merger db
    then (db, merged_pair w l.attributes)
      giving (λ pair db1. apply_listed w m l.merger pair db1)
      giving (λ u db2. (db2, ok (later_of wm l.created_at, fresh + 1)))
    else (db, ok (later_of wm l.created_at, fresh))

unfoldable pub poll_one : World → Json → String × ℕ → Db → Action (String × ℕ)
unfolding listed_merger poll_listed
poll_one w m at db = (db, listed_merger m) giving (λ l db'. poll_listed w m l at db')

unfoldable pub poll_page : World → List Json → String × ℕ → Db → Action (String × ℕ)
unfolding poll_one
poll_page w [] at db = (db, ok at)
poll_page w (m ∷ ms) at db = poll_one w m at db giving (λ at' db'. poll_page w ms at' db')

unfoldable pub poll_params : String → List Param
poll_params wm =
    if wm == ""
    then ordered_by "created_at" ∷ per_page 100 ∷ []
    else ordered_by "created_at" ∷ per_page 100 ∷ since "created_at" wm ∷ []

unfoldable pub mergers_of : World → Response → Result (List Json)
unfolding page_of
mergers_of w resp = do page ← page_of w resp; iterate page.1

-- How a page ends the poll: it is short, or it taught nothing and could not move the watermark.
unfoldable pub is_spent : List Json → ℕ → String → String → Bool
is_spent ms fresh wm before = ltb (length ms) 100 || (leb fresh 0 && wm == before)

-- The loop, from the stored watermark; the result is the watermark to store and how many merges
-- were applied. The n-th request is answered by `answers n`.
unfoldable pub merger_poll :
    World
    → (ℕ → List Param → Result Response)
    → ℕ
    → ℕ
    → String
    → ℕ
    → Db
    → Action (Option (String × ℕ))
unfolding mergers_of poll_page poll_params is_spent
merger_poll w answers zero n wm applied db = (db, ok none)
merger_poll w answers (suc fuel) n wm applied db =
    (db, answers n (poll_params wm)) giving (λ resp db1. (db1, mergers_of w resp)) giving (λ ms db2.
      if leb (length ms) 0
      then (db2, ok (some (wm, applied)))
      else poll_page w ms (wm, 0) db2 giving (λ at db3.
        if is_spent ms at.1 at.0 wm
        then (db3, ok (some (at.0, applied + at.1)))
        else merger_poll w answers fuel (n + 1) at.0 (applied + at.1) db3))
