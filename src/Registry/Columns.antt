-- ===== src/Registry/Columns.antt =====
-- registry.py: the columns that are projected out of a row's `raw`.
use Prim.Native.Nat.{◌+◌}
use Prim.Native.String.{◌++◌ as join, len, slice}
use text.Mathlib.Text.{find?}
use pcomirror.Prelude.{
  String, Option, none, some, List, [], ◌∷◌, ◌==◌, if◌then◌else◌, is_text, or_else,
}
use pcomirror.Json.{Json, extract}
use pcomirror.Registry.Types.{
  Resource, Projection, Source, json, expr, plain, Expression, customizable_person, owner_link,
}

-- What follows the first occurrence of `pat`.
after : String → String → Option String
after pat s = elim (find? s pat) [ none ↦ none | some i ↦ some (slice s (i + len pat) (len s)) ]

before_slash : String → Option String
before_slash s = elim (find? s "/") [ none ↦ none | some i ↦ some (slice s 0 i) ]

-- `…/<plural>/<id>/<child>/…`: the id, if the link has that form.
link_owner : String → String → Option String → Option String
unfolding after before_slash
link_owner plural child none = none
link_owner plural child (some link) = elim (after (join "/" (join plural "/")) link) [
  | none ↦ none
  | some rest ↦ elim (find? rest (join "/" (join child "/"))) [
    | none ↦ none
    | some i ↦ before_slash rest
  ]
]

-- The generated columns of kind "expr".
evaluate : Expression → Json → Option String
unfolding link_owner
evaluate customizable_person raw =
    if is_text (extract ("relationships" ∷ "customizable" ∷ "data" ∷ "type" ∷ []) raw) "Person"
    then extract ("relationships" ∷ "customizable" ∷ "data" ∷ "id" ∷ []) raw
    else none
evaluate (owner_link rel plural child) raw =
    or_else (extract ("relationships" ∷ rel ∷ "data" ∷ "id" ∷ []) raw)
      (link_owner plural child (extract ("links" ∷ "self" ∷ []) raw))

-- A plain column is filled by the writer and not generated.
project : Source → Json → Option String
unfolding evaluate
project (json path) raw = extract path raw
project (expr e) raw = evaluate e raw
project plain raw = none

find_column : String → List Projection → Json → Option String
unfolding project
find_column col [] raw = none
find_column col (p ∷ ps) raw = if p.col == col then project p.kind raw else find_column col ps raw

-- The value of a generated column at a row with this `raw`.
unfoldable pub column : Resource → String → Json → Option String
unfolding find_column
column r col raw = find_column col r.projections raw
