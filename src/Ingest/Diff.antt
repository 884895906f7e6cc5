-- ===== src/Ingest/Diff.antt =====
-- ingest.py: `_related_ids` and `_include_diff`.
use pcomirror.Prelude.{
  String, Bool, true, false, Option, none, some, List, [], ◌∷◌, ◌++◌, ◌==◌, ◌&&◌, ◌||◌,
  if◌then◌else◌, contains, is_text,
}
use pcomirror.Result.{Result, ok, err, type_error, attribute_error, ◌>>=◌}
use pcomirror.Json.{
  Json, null, str, arr, obj, Fields, end, field, get, item, or_obj, or_arr, iterate, truthy, items,
  lookup_field,
}
use pcomirror.Registry.{Resource, resources}
use pcomirror.Registry.Types.{Rel, many}
use pcomirror.Registry.People.{person_resource}
use pcomirror.Registry.Columns.{column}
use pcomirror.Store.{Row}
use pcomirror.Webhooks.State.{World, bind, same_key}
use pcomirror.Webhooks.Merger.{number_text}
use pcomirror.Writer.Route.{resource_of}
use pcomirror.Ingest.Remote.{Step, ◌and◌, reading}
use pcomirror.Ingest.Walk.{bury_where}

-- A set of pairs of texts; a pair with another scalar in it is equal to none of those that are
-- looked for, and a list or a dict is not hashable.
abbrev pub Pairs : Type 0
Pairs = List (String × String)

unfoldable pub has_pair : String → String → Pairs → Bool
has_pair a b [] = false
has_pair a b ((c, d) ∷ ps) = if c == a && d == b then true else has_pair a b ps

-- `out.add((item.get("type"), str(item["id"])))`, with the id's text
unfoldable pub add_named : Json → Option String → Pairs → Result Pairs
add_named (str t) (some i) ps = ok ((t, i) ∷ ps)
add_named (arr js) i ps = err type_error
add_named (obj fs) i ps = err type_error
add_named _ i ps = ok ps

-- `if isinstance(item, dict) and item.get("id")`
unfoldable pub related_item : World → Json → Pairs → Result Pairs
unfolding add_named number_text
related_item w (obj fs) ps =
    if truthy (lookup_field "id" fs)
    then add_named (lookup_field "type" fs) (number_text w (lookup_field "id" fs)) ps
    else ok ps
related_item w _ ps = ok ps

unfoldable pub related_items : World → List Json → Pairs → Result Pairs
unfolding related_item
related_items w [] ps = ok ps
related_items w (j ∷ js) ps = do ps' ← related_item w j ps; related_items w js ps'

-- The value of a relationship: `data if isinstance(data, list) else [data]`.
unfoldable pub data_items : Json → List Json
data_items (obj fs) = elim (lookup_field "data" fs) [ arr js ↦ items js | j ↦ j ∷ [] ]
data_items _ = null ∷ []

unfoldable pub related_values : World → Fields → Pairs → Result Pairs
unfolding related_items data_items
related_values w end ps = ok ps
related_values w (field k v fs) ps = do
  ps' ← related_items w (data_items v) ps
  related_values w fs ps'

-- `.values()`
unfoldable pub values_named : World → Json → Result Pairs
unfolding related_values
values_named w (obj fs) = related_values w fs []
values_named w _ = err attribute_error

-- `_related_ids`
unfoldable pub related_ids : World → Json → Result Pairs
unfolding values_named
related_ids w j = do rels ← get "relationships" j; values_named w (or_obj rels)

-- `{rel.target for name in requested if (rel := …get(name)) and rel.kind == "many"}`
unfoldable pub target_of : List (String × Rel) → String → List String
target_of [] name = []
target_of ((k, rel) ∷ rels) name =
    if k == name then elim rel.kind [ many ↦ rel.target ∷ [] | _ ↦ [] ] else target_of rels name

unfoldable pub asked_for : List String → List String
unfolding target_of
asked_for [] = []
asked_for (name ∷ names) = target_of person_resource.relationships name ++ asked_for names

-- `present.setdefault(cr.name, set()).add(inc["id"])`
unfoldable pub add_present : String → Json → Pairs → Result Pairs
add_present name (str i) ps = ok ((name, i) ∷ ps)
add_present name (arr js) ps = err type_error
add_present name (obj fs) ps = err type_error
add_present name _ ps = ok ps

unfoldable pub present_one : Json → Option Resource → Pairs → Result Pairs
unfolding add_present
present_one j none ps = ok ps
present_one j (some r) ps =
    if is_text r.owner_rel "person" then (do i ← item "id" j; add_present r.name i ps) else ok ps

unfoldable pub present_all : List Json → Pairs → Result Pairs
unfolding present_one
present_all [] ps = ok ps
present_all (j ∷ js) ps = do
  ty ← get "type" j
  found ← resource_of ty
  ps' ← present_one j found ps
  present_all js ps'

-- Is this a child of a person that was asked for?
abbrev pub is_asked : List String → Resource → Bool
is_asked asked c = is_text c.owner_rel "person" && contains asked c.name

-- A child that is in `included[]`, or that the person's own relationships name.
abbrev pub is_named : Pairs → Pairs → Resource → String → Bool
is_named present claimed c i = has_pair c.name i present || has_pair c.kind i claimed

-- `person_pco_id = p`
abbrev pub is_of : Resource → Option String → Json → Bool
is_of c p raw = same_key (column c "person_pco_id" raw) p

-- The loop over the registry.
unfoldable pub diff_children :
    World → Json → List String → Pairs → Pairs → List Resource → List Row → Step (Unit {0})
unfolding bury_where has_pair
diff_children w key asked present claimed [] rs = (rs, ok tt)
diff_children w key asked present claimed (c ∷ cs) rs =
    if is_asked asked c
    then reading (bind key) rs
      and (λ p rs1. bury_where w c.table "absent" (is_of c p) (is_named present claimed c) rs1)
      and (λ u rs2. diff_children w key asked present claimed cs rs2)
    else diff_children w key asked present claimed cs rs

-- What the answer says: the person's id, the children in `included[]`, and those that the person's
-- relationships name.
pub record Answered : Type 0 where
  pub key : Json
  pub present : Pairs
  pub claimed : Pairs

unfoldable pub answered_of : World → Json → Json → Result Answered
unfolding present_all related_ids
answered_of w person included = do
  key ← item "id" person
  js ← iterate (or_arr included)
  present ← present_all js []
  claimed ← related_ids w person
  ok (record { key = key; present = present; claimed = claimed })

-- `_include_diff`
unfoldable pub include_diff : World → Json → Json → List String → List Row → Step (Unit {0})
unfolding diff_children answered_of asked_for
include_diff w person included requested rs =
    reading (answered_of w person included) rs
    and (λ a rs1. diff_children w a.key (asked_for requested) a.present a.claimed resources rs1)
