-- ===== src/Audit/Round.antt =====
-- ingest.py: the state of an audit round, and its scratch sets. db.py: `audit_scratch`.
use Prim.Native.Char.{code}
use Prim.Native.Nat.{◌+◌, ◌*◌, ◌-◌}
use pcomirror.Prelude.{
  ℕ, String, Bool, true, false, Option, none, some, List, [], ◌∷◌, ◌==◌, ◌&&◌, if◌then◌else◌,
  contains, leb, ltb, text_lt,
}
use pcomirror.Result.{Result, ok, err}
use pcomirror.Webhooks.State.{Db}

pub data Phase : Type 0 where
  enumerate confirm restore : Phase

pub data Mode : Type 0 where
  keyset by_offset : Mode

-- The round's JSON: `cursor` is the last `created_at`, which may be null.
pub record Round : Type 0 where
  pub phase : Phase
  pub mode : Option Mode
  pub cursor : Option String
  pub offset : ℕ
  pub tombstoned : ℕ
  pub restored : ℕ

abbrev pub first_round : Round
first_round = record {
  phase = enumerate;
  mode = none;
  cursor = some "";
  offset = 0;
  tombstoned = 0;
  restored = 0;
}

-- What is stored for one resource: the round, the three kinds of `audit_scratch`, and the two times
-- of `mirror_sync_state`.
pub record Audit : Type 0 where
  pub db : Db
  pub round : Option Round
  pub candidates : List String
  pub known : List String
  pub live : List String
  pub last_audit_started_at : Option String
  pub last_audit_completed_at : Option String

-- `_save_audit_round`
abbrev pub save : Round → Audit → Audit
save st a = record a { round = some st }

-- What is stored where a step is left, and what came out or was raised.
abbrev pub Going : Type 0 → Type 0
Going A = Audit × Result A

infixl 5 ◌going◌
abbrev pub ◌going◌ : {A B : Type 0} → Going A → (A → Audit → Going B) → Going B
(a, ok x) going f = f x a
(a, err e) going f = (a, err e)

-- INSERT OR IGNORE
unfoldable pub insert_id : String → List String → List String
insert_id i is = if contains is i then is else i ∷ is

-- DELETE … WHERE pco_id = i
unfoldable pub delete_id : String → List String → List String
delete_id i [] = []
delete_id i (j ∷ js) = if j == i then delete_id i js else j ∷ delete_id i js

-- DELETE … WHERE pco_id IN (…)
unfoldable pub delete_ids : List String → List String → List String
delete_ids gone [] = []
delete_ids gone (j ∷ js) = if contains gone j then delete_ids gone js else j ∷ delete_ids gone js

-- `CAST(pco_id AS INTEGER)` of a text that begins with digits, or with none.
digits_from : ℕ → String → ℕ
digits_from n String.[] = n
digits_from n (String.◌∷◌ c s) =
    let rest = λ (m : ℕ). digits_from m s in
    if leb 48 (code c) && leb (code c) 57 then rest (10 * n + (code c - 48)) else n

unfoldable pub cast_integer : String → ℕ
unfolding digits_from
cast_integer s = digits_from 0 s

unfoldable pub is_before : String → String → Bool
unfolding cast_integer
is_before i j =
    if ltb (cast_integer i) (cast_integer j)
    then true
    else if ltb (cast_integer j) (cast_integer i)
    then false
    else text_lt i j

-- … ORDER BY CAST(pco_id AS INTEGER), pco_id LIMIT 1
unfoldable pub least_of : String → List String → String
unfolding is_before
least_of i [] = i
least_of i (j ∷ js) = if is_before j i then least_of j js else least_of i js

unfoldable pub least : List String → Option String
unfolding least_of
least [] = none
least (i ∷ is) = some (least_of i is)
