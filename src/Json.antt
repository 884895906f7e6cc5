-- ===== src/Json.antt =====
-- The values of Python's `json` module, and the operations that the program makes on them: `.get`,
-- truth, `or {}`, and SQLite's `raw ->> path`. A number keeps its text.
use pcomirror.Prelude.{
  String, Bool, true, false, Option, none, some, List, [], ◌∷◌, ◌==◌, if◌then◌else◌, not,
}
use pcomirror.Result.{Result, ok, err, key_error, attribute_error, type_error, db_error}

mutual
  pub data Json : Type 0 where
    null : Json
    bool : Bool → Json
    num : String → Json
    str : String → Json
    arr : Items → Json
    obj : Fields → Json

  pub data Items : Type 0 where
    nil : Items
    cons : Json → Items → Items

  pub data Fields : Type 0 where
    end : Fields
    field : String → Json → Fields → Fields

abbrev pub items : Items → List Json
items nil = []
items (cons j js) = j ∷ items js

-- The key's value; a missing key and a JSON null are both Python's `None`.
abbrev pub lookup_field : String → Fields → Json
lookup_field k end = null
lookup_field k (field j v fs) = if j == k then v else lookup_field k fs

abbrev pub has_field : String → Fields → Bool
has_field k end = false
has_field k (field j v fs) = if j == k then true else has_field k fs

-- `d[k] = v`, in place where the key is there.
abbrev pub set_field : String → Json → Fields → Fields
set_field k v end = field k v end
set_field k v (field j w fs) = if j == k then field j v fs else field j w (set_field k v fs)

-- `for k in d`
abbrev pub keys : Fields → List String
keys end = []
keys (field k v fs) = k ∷ keys fs

-- Python's truth of a value.
abbrev pub truthy : Json → Bool
truthy null = false
truthy (bool b) = b
truthy (num t) = not (t == "0")
truthy (str s) = not (s == "")
truthy (arr nil) = false
truthy (arr (cons j js)) = true
truthy (obj end) = false
truthy (obj (field k v fs)) = true

-- `j.get(k)`
abbrev pub get : String → Json → Result Json
get k (obj fs) = ok (lookup_field k fs)
get k _ = err attribute_error

-- `j or {}`, `j or []`
abbrev pub or_obj : Json → Json
or_obj j = if truthy j then j else obj end

abbrev pub or_arr : Json → Json
or_arr j = if truthy j then j else arr nil

-- `for x in j`: a dict iterates over its keys, a text over its characters (taken as one item here:
-- each of them is a text, and the loops of the program fail on the first).
abbrev pub key_items : Fields → List Json
key_items end = []
key_items (field k v fs) = str k ∷ key_items fs

abbrev pub iterate : Json → Result (List Json)
iterate (arr js) = ok (items js)
iterate (obj fs) = ok (key_items fs)
iterate (str s) = if s == "" then ok [] else ok (str s ∷ [])
iterate _ = err type_error

-- A text as a column of affinity TEXT holds it. What the program keeps in such columns are
-- scalars; an array or an object is taken as NULL.
abbrev pub column_text : Json → Option String
column_text null = none
column_text (bool true) = some "1"
column_text (bool false) = some "0"
column_text (num t) = some t
column_text (str s) = some s
column_text (arr js) = none
column_text (obj fs) = none

-- `raw ->> '$.a.b.c'`, with the path's names.
abbrev pub extract : List String → Json → Option String
extract [] j = column_text j
extract (k ∷ ks) null = none
extract (k ∷ ks) (bool b) = none
extract (k ∷ ks) (num t) = none
extract (k ∷ ks) (str s) = none
extract (k ∷ ks) (arr js) = none
extract (k ∷ ks) (obj fs) = extract ks (lookup_field k fs)

-- The object at `path`, as `json_each(raw, path)` enumerates its keys.
abbrev pub each_key : String → Json → List String
each_key k (obj fs) = elim (lookup_field k fs) [ obj gs ↦ keys gs | _ ↦ [] ]
each_key k _ = []

-- A parameter bound to a TEXT column that is a key; a list or a dict is refused by the driver. So is
-- null here: SQLite would store a row under a NULL key, which no statement finds again, and which the
-- tables of the model cannot hold.
abbrev pub bind_text : Json → Result String
bind_text (str s) = ok s
bind_text (num t) = ok t
bind_text (bool true) = ok "1"
bind_text (bool false) = ok "0"
bind_text _ = err db_error

-- `j["k"]`
abbrev pub item : String → Json → Result Json
item k (obj fs) = if has_field k fs then ok (lookup_field k fs) else err (key_error k)
item k _ = err type_error
