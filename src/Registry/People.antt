-- ===== src/Registry/People.antt =====
-- registry.py: the person.
use pcomirror.Prelude.{none, some, true, false, [], ◌∷◌}
use pcomirror.Registry.Types.{Resource, json, full, incremental}
use pcomirror.Registry.Rels.{
  projection, has_many, has_one, has_inline, search_filter, search_child, person_names,
}

abbrev pub person_resource : Resource
person_resource = record {
  name = "person";
  kind = "Person";
  table = "person";
  endpoint = "/people";
  tier = full;
  method = incremental;
  parent = none;
  parent_path = none;
  parent_fk = none;
  timestamped = true;
  supports_uat_filter = true;
  supports_cat_filter = true;
  owner_rel = none;
  projections =
      projection "first_name" "TEXT" (json ("attributes" ∷ "first_name" ∷ []))
      ∷ projection "last_name" "TEXT" (json ("attributes" ∷ "last_name" ∷ []))
      ∷ projection "name" "TEXT" (json ("attributes" ∷ "name" ∷ []))
      ∷ projection "nickname" "TEXT" (json ("attributes" ∷ "nickname" ∷ []))
      ∷ projection "given_name" "TEXT" (json ("attributes" ∷ "given_name" ∷ []))
      ∷ projection "status" "TEXT" (json ("attributes" ∷ "status" ∷ []))
      ∷ projection "membership" "TEXT" (json ("attributes" ∷ "membership" ∷ []))
      ∷ projection "gender" "TEXT" (json ("attributes" ∷ "gender" ∷ []))
      ∷ projection "grade" "INTEGER" (json ("attributes" ∷ "grade" ∷ []))
      ∷ projection "birthdate" "TEXT" (json ("attributes" ∷ "birthdate" ∷ []))
      ∷ projection "anniversary" "TEXT" (json ("attributes" ∷ "anniversary" ∷ []))
      ∷ projection "remote_id" "TEXT" (json ("attributes" ∷ "remote_id" ∷ []))
      ∷ projection "child" "INTEGER" (json ("attributes" ∷ "child" ∷ []))
      ∷ projection "primary_campus_id" "TEXT"
          (json ("relationships" ∷ "primary_campus" ∷ "data" ∷ "id" ∷ []))
      ∷ projection "marital_status_id" "TEXT"
          (json ("relationships" ∷ "marital_status" ∷ "data" ∷ "id" ∷ []))
      ∷ projection "name_prefix_id" "TEXT"
          (json ("relationships" ∷ "name_prefix" ∷ "data" ∷ "id" ∷ []))
      ∷ projection "name_suffix_id" "TEXT"
          (json ("relationships" ∷ "name_suffix" ∷ "data" ∷ "id" ∷ []))
      ∷ [];
  includes =
      "emails" ∷ "phone_numbers" ∷ "addresses" ∷ "field_data" ∷ "households" ∷ "primary_campus"
      ∷ "marital_status" ∷ [];
  relationships =
      ("emails", has_many "email" "person_pco_id")
      ∷ ("phone_numbers", has_many "phone_number" "person_pco_id")
      ∷ ("addresses", has_many "address" "person_pco_id")
      ∷ ("field_data", has_many "field_datum" "person_pco_id")
      ∷ ("primary_campus", has_one "campus" "primary_campus_id")
      ∷ ("marital_status", has_one "marital_status" "marital_status_id")
      ∷ ("households", has_inline "household" ("relationships" ∷ "households" ∷ "data" ∷ []))
      ∷ ("household_memberships", has_many "household_membership" "person_pco_id")
      ∷ [];
  can_query_by =
      "created_at" ∷ "updated_at" ∷ "id" ∷ "remote_id" ∷ "primary_campus_id" ∷ "status"
      ∷ "first_name" ∷ "last_name" ∷ "nickname" ∷ "given_name" ∷ "child" ∷ "grade" ∷ "gender"
      ∷ "membership" ∷ "birthdate" ∷ "anniversary" ∷ [];
  can_order_by =
      "created_at" ∷ "updated_at" ∷ "first_name" ∷ "last_name" ∷ "remote_id" ∷ "birthdate"
      ∷ "anniversary" ∷ "nickname" ∷ "given_name" ∷ "child" ∷ "grade" ∷ "gender" ∷ "membership"
      ∷ "status" ∷ [];
  search_filters =
      ("search_name", search_filter (person_names) ([]) false)
      ∷ (
        "search_name_or_email",
        search_filter (person_names)
            (search_child "email" "person_pco_id" "address" "contains" ∷ []) true,
      )
      ∷ (
        "search_phone_number",
        search_filter ([])
            (search_child "phone_number" "person_pco_id" "number" "digits_suffix" ∷ []) false,
      )
      ∷ (
        "search_phone_number_e164",
        search_filter ([]) (search_child "phone_number" "person_pco_id" "e164" "digits_exact" ∷ [])
            false,
      )
      ∷ (
        "search_name_or_email_or_phone_number",
        search_filter (person_names)
            (search_child "email" "person_pco_id" "address" "contains"
              ∷ search_child "phone_number" "person_pco_id" "number" "digits_suffix"
              ∷ [])
            true,
      )
      ∷ [];
  col_aliases = [];
  incr_interval_s = 60;
  audit_interval_s = some 86400;
  priority = 1;
}
