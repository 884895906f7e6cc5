-- ===== src/Registry/Rels.antt =====
-- registry.py: the helpers that write a declaration down.
use pcomirror.Prelude.{String, Bool, none, some, List, [], ◌∷◌}
use pcomirror.Registry.Types.{Projection, Rel, Source, Search, SearchChild, many, one, inline}

abbrev pub projection : String → String → Source → Projection
projection c t k = record { col = c; sqltype = t; kind = k }

-- `Rel(target, "many", child_fk=fk)` and its fellows.
abbrev pub has_many : String → String → Rel
has_many t fk = record {
  target = t;
  kind = many;
  local_fk = none;
  child_fk = some fk;
  json_path = none;
  via = none;
  via_local_fk = none;
  via_target_fk = none;
}

abbrev pub has_one : String → String → Rel
has_one t fk = record {
  target = t;
  kind = one;
  local_fk = some fk;
  child_fk = none;
  json_path = none;
  via = none;
  via_local_fk = none;
  via_target_fk = none;
}

abbrev pub has_inline : String → List String → Rel
has_inline t p = record {
  target = t;
  kind = inline;
  local_fk = none;
  child_fk = none;
  json_path = some p;
  via = none;
  via_local_fk = none;
  via_target_fk = none;
}

abbrev pub search_child : String → String → String → String → SearchChild
search_child r fk c m = record { resource = r; child_fk = fk; column = c; mode = m }

abbrev pub search_filter : List String → List SearchChild → Bool → Search
search_filter ns cs single = record { names = ns; children = cs; single_token_contains = single }

-- `_PERSON_NAMES`
abbrev pub person_names : List String
person_names =
    "name" ∷ "coalesce(first_name,'') || ' ' || coalesce(last_name,'')" ∷ "first_name" ∷ "last_name"
    ∷ "nickname" ∷ "given_name" ∷ []
