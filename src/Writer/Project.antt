-- ===== src/Writer/Project.antt =====
-- writer.py: the typed columns of `field_datum`, from the data type of its definition.
use pcomirror.Prelude.{
  String, Bool, Option, none, some, List, [], ◌∷◌, ◌==◌, ◌||◌, if◌then◌else◌, or_default, contains,
  is_text, ◌&&◌, lower_is,
}
use pcomirror.Json.{Json}
use pcomirror.Registry.{by_table}
use pcomirror.Registry.Columns.{column}
use pcomirror.Store.{Row, Typed, blank, is_at, select, update_where}
use pcomirror.Writer.Ops.{Env}

-- A generated column of the table's resource.
abbrev pub column_of : String → String → Json → Option String
column_of t col raw = elim (by_table t) [ none ↦ none | some r ↦ column r col raw ]

is_truth_word : String → Bool
is_truth_word v = lower_is v "true" || lower_is v "1" || lower_is v "yes" || lower_is v "t"

typed_value : Env → String → String → Typed
unfolding is_truth_word
typed_value env dt v =
    if contains ("number" ∷ "integer" ∷ "float" ∷ "currency" ∷ []) dt
    then record blank { value_number = env.float v }
    else if contains ("date" ∷ "datetime" ∷ []) dt
    then record blank { value_date = some v }
    else if contains ("boolean" ∷ "checkbox" ∷ []) dt
    then record blank { value_bool = some (is_truth_word v) }
    else record blank { value_text = some v }

typed_columns : Env → String → Option String → Typed
unfolding typed_value
typed_columns env dt none = blank
typed_columns env dt (some v) = typed_value env dt v

-- `LEFT JOIN field_definition def ON def.pco_id = fd.field_definition_id`
data_type_of : Option String → List Row → Option String
data_type_of none rs = none
data_type_of (some def) rs = elim (select "field_definition" def rs) [
  | none ↦ none
  | some d ↦ column_of "field_definition" "data_type" d.raw
]

set_typed : Typed → Row → Row
set_typed ty r = record r { typed = ty }

-- `_project_field_datum`
unfoldable pub project_field_datum : Env → String → List Row → List Row
unfolding typed_columns data_type_of set_typed
project_field_datum env i rs = elim (select "field_datum" i rs) [
  | none ↦ rs
  | some row ↦
      let dt =
        or_default (data_type_of (column_of "field_datum" "field_definition_id" row.raw) rs) "" in
      update_where (is_at "field_datum" i)
        (set_typed (typed_columns env dt (column_of "field_datum" "value" row.raw))) rs
]

-- `SELECT pco_id FROM field_datum WHERE field_definition_id = ?`
unfoldable pub data_of : String → List Row → List String
data_of def [] = []
data_of def (r ∷ rs) =
    if r.table == "field_datum" && is_text (column_of "field_datum" "field_definition_id" r.raw) def
    then r.pco_id ∷ data_of def rs
    else data_of def rs

unfoldable pub project_each : Env → List String → List Row → List Row
project_each env [] rs = rs
project_each env (i ∷ is) rs = project_each env is (project_field_datum env i rs)

-- `reproject_field_data`
unfoldable pub reproject_field_data : Env → String → List Row → List Row
unfolding data_of project_each
reproject_field_data env def rs = project_each env (data_of def rs) rs
