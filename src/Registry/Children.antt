-- ===== src/Registry/Children.antt =====
-- registry.py: the records that a person owns.
use pcomirror.Prelude.{none, some, true, false, [], ◌∷◌}
use pcomirror.Registry.Types.{Resource, json, expr, plain, customizable_person, full, incremental}
use pcomirror.Registry.Rels.{projection, has_one}

abbrev pub email_resource : Resource
email_resource = record {
  name = "email";
  kind = "Email";
  table = "email";
  endpoint = "/emails";
  tier = full;
  method = incremental;
  parent = none;
  parent_path = none;
  parent_fk = none;
  timestamped = true;
  supports_uat_filter = true;
  supports_cat_filter = true;
  owner_rel = some "person";
  projections =
      projection "person_pco_id" "TEXT" (json ("relationships" ∷ "person" ∷ "data" ∷ "id" ∷ []))
      ∷ projection "address" "TEXT" (json ("attributes" ∷ "address" ∷ []))
      ∷ projection "location" "TEXT" (json ("attributes" ∷ "location" ∷ []))
      ∷ projection "is_primary" "INTEGER" (json ("attributes" ∷ "primary" ∷ []))
      ∷ projection "blocked" "INTEGER" (json ("attributes" ∷ "blocked" ∷ []))
      ∷ [];
  includes = [];
  relationships = [];
  can_query_by = "created_at" ∷ "updated_at" ∷ "address" ∷ "location" ∷ "primary" ∷ "blocked" ∷ [];
  can_order_by = "created_at" ∷ "updated_at" ∷ "address" ∷ [];
  search_filters = [];
  col_aliases = ("primary", "is_primary") ∷ [];
  incr_interval_s = 120;
  audit_interval_s = some 86400;
  priority = 1;
}

abbrev pub phone_number_resource : Resource
phone_number_resource = record {
  name = "phone_number";
  kind = "PhoneNumber";
  table = "phone_number";
  endpoint = "/phone_numbers";
  tier = full;
  method = incremental;
  parent = none;
  parent_path = none;
  parent_fk = none;
  timestamped = true;
  supports_uat_filter = true;
  supports_cat_filter = true;
  owner_rel = some "person";
  projections =
      projection "person_pco_id" "TEXT" (json ("relationships" ∷ "person" ∷ "data" ∷ "id" ∷ []))
      ∷ projection "number" "TEXT" (json ("attributes" ∷ "number" ∷ []))
      ∷ projection "e164" "TEXT" (json ("attributes" ∷ "e164" ∷ []))
      ∷ projection "location" "TEXT" (json ("attributes" ∷ "location" ∷ []))
      ∷ projection "is_primary" "INTEGER" (json ("attributes" ∷ "primary" ∷ []))
      ∷ [];
  includes = [];
  relationships = [];
  can_query_by = "created_at" ∷ "updated_at" ∷ "number" ∷ "location" ∷ "primary" ∷ [];
  can_order_by = "created_at" ∷ "updated_at" ∷ [];
  search_filters = [];
  col_aliases = ("primary", "is_primary") ∷ [];
  incr_interval_s = 120;
  audit_interval_s = some 86400;
  priority = 1;
}

abbrev pub social_profile_resource : Resource
social_profile_resource = record {
  name = "social_profile";
  kind = "SocialProfile";
  table = "social_profile";
  endpoint = "/social_profiles";
  tier = full;
  method = incremental;
  parent = none;
  parent_path = none;
  parent_fk = none;
  timestamped = true;
  supports_uat_filter = true;
  supports_cat_filter = true;
  owner_rel = some "person";
  projections =
      projection "person_pco_id" "TEXT" (json ("relationships" ∷ "person" ∷ "data" ∷ "id" ∷ []))
      ∷ projection "site" "TEXT" (json ("attributes" ∷ "site" ∷ []))
      ∷ projection "url" "TEXT" (json ("attributes" ∷ "url" ∷ []))
      ∷ projection "verified" "INTEGER" (json ("attributes" ∷ "verified" ∷ []))
      ∷ [];
  includes = [];
  relationships = [];
  can_query_by = "created_at" ∷ "updated_at" ∷ "site" ∷ "url" ∷ "verified" ∷ [];
  can_order_by = "created_at" ∷ "updated_at" ∷ "site" ∷ "url" ∷ "verified" ∷ [];
  search_filters = [];
  col_aliases = [];
  incr_interval_s = 600;
  audit_interval_s = some 86400;
  priority = 3;
}

abbrev pub address_resource : Resource
address_resource = record {
  name = "address";
  kind = "Address";
  table = "address";
  endpoint = "/addresses";
  tier = full;
  method = incremental;
  parent = none;
  parent_path = none;
  parent_fk = none;
  timestamped = true;
  supports_uat_filter = false;
  supports_cat_filter = false;
  owner_rel = some "person";
  projections =
      projection "person_pco_id" "TEXT" (json ("relationships" ∷ "person" ∷ "data" ∷ "id" ∷ []))
      ∷ projection "street_line_1" "TEXT" (json ("attributes" ∷ "street_line_1" ∷ []))
      ∷ projection "street_line_2" "TEXT" (json ("attributes" ∷ "street_line_2" ∷ []))
      ∷ projection "city" "TEXT" (json ("attributes" ∷ "city" ∷ []))
      ∷ projection "state" "TEXT" (json ("attributes" ∷ "state" ∷ []))
      ∷ projection "zip" "TEXT" (json ("attributes" ∷ "zip" ∷ []))
      ∷ projection "location" "TEXT" (json ("attributes" ∷ "location" ∷ []))
      ∷ projection "is_primary" "INTEGER" (json ("attributes" ∷ "primary" ∷ []))
      ∷ [];
  includes = [];
  relationships = [];
  can_query_by =
      "created_at" ∷ "updated_at" ∷ "city" ∷ "state" ∷ "zip" ∷ "street_line_1" ∷ "street_line_2"
      ∷ "location" ∷ "primary" ∷ [];
  can_order_by = "created_at" ∷ "updated_at" ∷ [];
  search_filters = [];
  col_aliases = ("primary", "is_primary") ∷ [];
  incr_interval_s = 300;
  audit_interval_s = some 86400;
  priority = 2;
}

abbrev pub field_datum_resource : Resource
field_datum_resource = record {
  name = "field_datum";
  kind = "FieldDatum";
  table = "field_datum";
  endpoint = "/field_data";
  tier = full;
  method = incremental;
  parent = none;
  parent_path = none;
  parent_fk = none;
  timestamped = true;
  supports_uat_filter = true;
  supports_cat_filter = true;
  owner_rel = some "person";
  projections =
      projection "customizable_type" "TEXT"
        (json ("relationships" ∷ "customizable" ∷ "data" ∷ "type" ∷ []))
      ∷ projection "customizable_id" "TEXT"
          (json ("relationships" ∷ "customizable" ∷ "data" ∷ "id" ∷ []))
      ∷ projection "person_pco_id" "TEXT" (expr customizable_person)
      ∷ projection "field_definition_id" "TEXT"
          (json ("relationships" ∷ "field_definition" ∷ "data" ∷ "id" ∷ []))
      ∷ projection "field_option_id" "TEXT"
          (json ("relationships" ∷ "field_option" ∷ "data" ∷ "id" ∷ []))
      ∷ projection "value" "TEXT" (json ("attributes" ∷ "value" ∷ []))
      ∷ projection "file_url" "TEXT" (json ("attributes" ∷ "file" ∷ []))
      ∷ projection "value_text" "TEXT" (plain)
      ∷ projection "value_number" "REAL" (plain)
      ∷ projection "value_date" "TEXT" (plain)
      ∷ projection "value_bool" "INTEGER" (plain)
      ∷ [];
  includes = "field_definition" ∷ [];
  relationships = ("field_definition", has_one "field_definition" "field_definition_id") ∷ [];
  can_query_by = "created_at" ∷ "updated_at" ∷ "field_definition_id" ∷ "value" ∷ "file" ∷ [];
  can_order_by = "created_at" ∷ "updated_at" ∷ "value" ∷ "file" ∷ [];
  search_filters = [];
  col_aliases = ("file", "file_url") ∷ [];
  incr_interval_s = 300;
  audit_interval_s = some 86400;
  priority = 2;
}

abbrev pub note_resource : Resource
note_resource = record {
  name = "note";
  kind = "Note";
  table = "note";
  endpoint = "/notes";
  tier = full;
  method = incremental;
  parent = none;
  parent_path = none;
  parent_fk = none;
  timestamped = true;
  supports_uat_filter = true;
  supports_cat_filter = true;
  owner_rel = some "person";
  projections =
      projection "person_pco_id" "TEXT" (json ("relationships" ∷ "person" ∷ "data" ∷ "id" ∷ []))
      ∷ projection "note_category_id" "TEXT"
          (json ("relationships" ∷ "note_category" ∷ "data" ∷ "id" ∷ []))
      ∷ projection "created_by_id" "TEXT"
          (json ("relationships" ∷ "created_by" ∷ "data" ∷ "id" ∷ []))
      ∷ projection "display_date" "TEXT" (json ("attributes" ∷ "display_date" ∷ []))
      ∷ projection "note" "TEXT" (json ("attributes" ∷ "note" ∷ []))
      ∷ [];
  includes = [];
  relationships = ("person", has_one "person" "person_pco_id") ∷ [];
  can_query_by = "created_at" ∷ "updated_at" ∷ "note" ∷ "note_category_id" ∷ [];
  can_order_by = "created_at" ∷ "updated_at" ∷ "note" ∷ "display_date" ∷ "note_category_id" ∷ [];
  search_filters = [];
  col_aliases = [];
  incr_interval_s = 600;
  audit_interval_s = none;
  priority = 3;
}
