-- ===== src/Registry/Lite.antt =====
-- registry.py: the reference tables and the log of mergers.
use pcomirror.Prelude.{String, none, true, false, [], ◌∷◌}
use pcomirror.Registry.Types.{Resource, json, lite, passthrough, merger_poll, reference_periodic}
use pcomirror.Registry.Rels.{projection}

abbrev pub field_definition_resource : Resource
field_definition_resource = record {
  name = "field_definition";
  kind = "FieldDefinition";
  table = "field_definition";
  endpoint = "/field_definitions";
  tier = lite;
  method = reference_periodic;
  parent = none;
  parent_path = none;
  parent_fk = none;
  timestamped = false;
  supports_uat_filter = false;
  supports_cat_filter = true;
  owner_rel = none;
  projections =
      projection "name" "TEXT" (json ("attributes" ∷ "name" ∷ []))
      ∷ projection "slug" "TEXT" (json ("attributes" ∷ "slug" ∷ []))
      ∷ projection "data_type" "TEXT" (json ("attributes" ∷ "data_type" ∷ []))
      ∷ projection "tab_id" "TEXT" (json ("relationships" ∷ "tab" ∷ "data" ∷ "id" ∷ []))
      ∷ [];
  includes = [];
  relationships = [];
  can_query_by = "name" ∷ "slug" ∷ "data_type" ∷ "tab_id" ∷ [];
  can_order_by = "name" ∷ "slug" ∷ "data_type" ∷ "tab_id" ∷ [];
  search_filters = [];
  col_aliases = [];
  incr_interval_s = 21600;
  audit_interval_s = none;
  priority = 3;
}

abbrev pub reference : String → String → String → Resource
reference name kind endpoint = record {
  name = name;
  kind = kind;
  table = name;
  endpoint = endpoint;
  tier = lite;
  method = reference_periodic;
  parent = none;
  parent_path = none;
  parent_fk = none;
  timestamped = false;
  supports_uat_filter = false;
  supports_cat_filter = true;
  owner_rel = none;
  projections =
      projection "name" "TEXT" (json ("attributes" ∷ "name" ∷ []))
      ∷ projection "value" "TEXT" (json ("attributes" ∷ "value" ∷ []))
      ∷ [];
  includes = [];
  relationships = [];
  can_query_by = "created_at" ∷ "updated_at" ∷ [];
  can_order_by = "created_at" ∷ "updated_at" ∷ [];
  search_filters = [];
  col_aliases = [];
  incr_interval_s = 86400;
  audit_interval_s = none;
  priority = 3;
}

abbrev pub person_merger_resource : Resource
person_merger_resource = record {
  name = "person_merger";
  kind = "PersonMerger";
  table = "person_merger";
  endpoint = "/person_mergers";
  tier = passthrough;
  method = merger_poll;
  parent = none;
  parent_path = none;
  parent_fk = none;
  timestamped = false;
  supports_uat_filter = false;
  supports_cat_filter = true;
  owner_rel = none;
  projections =
      projection "person_to_keep_id" "TEXT" (json ("attributes" ∷ "person_to_keep_id" ∷ []))
      ∷ projection "person_to_remove_id" "TEXT" (json ("attributes" ∷ "person_to_remove_id" ∷ []))
      ∷ [];
  includes = [];
  relationships = [];
  can_query_by = [];
  can_order_by = [];
  search_filters = [];
  col_aliases = [];
  incr_interval_s = 120;
  audit_interval_s = none;
  priority = 1;
}
