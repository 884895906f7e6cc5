-- ===== src/Registry/Groups.antt =====
-- registry.py: households, lists and forms, and the collections that are walked per parent.
use pcomirror.Prelude.{none, some, true, false, [], ◌∷◌}
use pcomirror.Registry.Types.{
  Resource, json, expr, owner_link, full, lite, incremental, nested_walk,
}
use pcomirror.Registry.Rels.{projection, has_many, has_one, has_inline}

abbrev pub household_resource : Resource
household_resource = record {
  name = "household";
  kind = "Household";
  table = "household";
  endpoint = "/households";
  tier = full;
  method = incremental;
  parent = none;
  parent_path = none;
  parent_fk = none;
  timestamped = true;
  supports_uat_filter = true;
  supports_cat_filter = true;
  owner_rel = none;
  projections =
      projection "name" "TEXT" (json ("attributes" ∷ "name" ∷ []))
      ∷ projection "member_count" "INTEGER" (json ("attributes" ∷ "member_count" ∷ []))
      ∷ projection "primary_contact_id" "TEXT"
          (json ("relationships" ∷ "primary_contact" ∷ "data" ∷ "id" ∷ []))
      ∷ [];
  includes = [];
  relationships =
      ("people", has_inline "person" ("relationships" ∷ "people" ∷ "data" ∷ []))
      ∷ ("primary_contact", has_one "person" "primary_contact_id")
      ∷ ("household_memberships", has_many "household_membership" "household_pco_id")
      ∷ [];
  can_query_by = "created_at" ∷ "updated_at" ∷ "name" ∷ [];
  can_order_by = "created_at" ∷ "updated_at" ∷ "name" ∷ [];
  search_filters = [];
  col_aliases = [];
  incr_interval_s = 600;
  audit_interval_s = some 86400;
  priority = 2;
}

abbrev pub household_membership_resource : Resource
household_membership_resource = record {
  name = "household_membership";
  kind = "HouseholdMembership";
  table = "household_membership";
  endpoint = "/household_memberships";
  tier = lite;
  method = nested_walk;
  parent = some "household";
  parent_path = some "/household_memberships";
  parent_fk = some "household_pco_id";
  timestamped = false;
  supports_uat_filter = false;
  supports_cat_filter = true;
  owner_rel = none;
  projections =
      projection "household_pco_id" "TEXT"
        (expr (owner_link "household" "households" "household_memberships"))
      ∷ projection "person_pco_id" "TEXT" (json ("relationships" ∷ "person" ∷ "data" ∷ "id" ∷ []))
      ∷ projection "household_role" "TEXT" (json ("attributes" ∷ "household_role" ∷ []))
      ∷ projection "person_name" "TEXT" (json ("attributes" ∷ "person_name" ∷ []))
      ∷ projection "pending" "INTEGER" (json ("attributes" ∷ "pending" ∷ []))
      ∷ [];
  includes = [];
  relationships =
      ("person", has_one "person" "person_pco_id")
      ∷ ("household", has_one "household" "household_pco_id")
      ∷ [];
  can_query_by = "pending" ∷ "household_role" ∷ [];
  can_order_by = "pending" ∷ "household_role" ∷ "person_name" ∷ [];
  search_filters = [];
  col_aliases = [];
  incr_interval_s = 86400;
  audit_interval_s = none;
  priority = 3;
}

abbrev pub list_resource : Resource
list_resource = record {
  name = "list";
  kind = "List";
  table = "list";
  endpoint = "/lists";
  tier = full;
  method = incremental;
  parent = none;
  parent_path = none;
  parent_fk = none;
  timestamped = true;
  supports_uat_filter = true;
  supports_cat_filter = true;
  owner_rel = none;
  projections =
      projection "name" "TEXT" (json ("attributes" ∷ "name" ∷ []))
      ∷ projection "description" "TEXT" (json ("attributes" ∷ "description" ∷ []))
      ∷ projection "status" "TEXT" (json ("attributes" ∷ "status" ∷ []))
      ∷ projection "returns" "TEXT" (json ("attributes" ∷ "returns" ∷ []))
      ∷ projection "subset" "TEXT" (json ("attributes" ∷ "subset" ∷ []))
      ∷ projection "auto_refresh" "INTEGER" (json ("attributes" ∷ "auto_refresh" ∷ []))
      ∷ projection "total_people" "INTEGER" (json ("attributes" ∷ "total_people" ∷ []))
      ∷ projection "refreshed_at" "TEXT" (json ("attributes" ∷ "refreshed_at" ∷ []))
      ∷ projection "batch_completed_at" "TEXT" (json ("attributes" ∷ "batch_completed_at" ∷ []))
      ∷ [];
  includes = [];
  relationships = ("list_results", has_many "list_result" "list_pco_id") ∷ [];
  can_query_by = "created_at" ∷ "updated_at" ∷ "name" ∷ "id" ∷ "batch_completed_at" ∷ [];
  can_order_by = "created_at" ∷ "updated_at" ∷ "name" ∷ "refreshed_at" ∷ "total_people" ∷ [];
  search_filters = [];
  col_aliases = [];
  incr_interval_s = 900;
  audit_interval_s = none;
  priority = 3;
}

abbrev pub list_result_resource : Resource
list_result_resource = record {
  name = "list_result";
  kind = "ListResult";
  table = "list_result";
  endpoint = "/list_results";
  tier = lite;
  method = nested_walk;
  parent = some "list";
  parent_path = some "/list_results";
  parent_fk = some "list_pco_id";
  timestamped = true;
  supports_uat_filter = false;
  supports_cat_filter = true;
  owner_rel = none;
  projections =
      projection "list_pco_id" "TEXT" (expr (owner_link "list" "lists" "list_results"))
      ∷ projection "person_pco_id" "TEXT" (json ("relationships" ∷ "person" ∷ "data" ∷ "id" ∷ []))
      ∷ [];
  includes = [];
  relationships =
      ("person", has_one "person" "person_pco_id") ∷ ("list", has_one "list" "list_pco_id") ∷ [];
  can_query_by = [];
  can_order_by = "created_at" ∷ "updated_at" ∷ [];
  search_filters = [];
  col_aliases = [];
  incr_interval_s = 86400;
  audit_interval_s = none;
  priority = 3;
}

abbrev pub form_resource : Resource
form_resource = record {
  name = "form";
  kind = "Form";
  table = "form";
  endpoint = "/forms";
  tier = full;
  method = incremental;
  parent = none;
  parent_path = none;
  parent_fk = none;
  timestamped = true;
  supports_uat_filter = false;
  supports_cat_filter = true;
  owner_rel = none;
  projections =
      projection "name" "TEXT" (json ("attributes" ∷ "name" ∷ []))
      ∷ projection "description" "TEXT" (json ("attributes" ∷ "description" ∷ []))
      ∷ projection "active" "INTEGER" (json ("attributes" ∷ "active" ∷ []))
      ∷ projection "archived" "INTEGER" (json ("attributes" ∷ "archived" ∷ []))
      ∷ projection "submission_count" "INTEGER" (json ("attributes" ∷ "submission_count" ∷ []))
      ∷ projection "campus_id" "TEXT" (json ("relationships" ∷ "campus" ∷ "data" ∷ "id" ∷ []))
      ∷ projection "form_category_id" "TEXT"
          (json ("relationships" ∷ "form_category" ∷ "data" ∷ "id" ∷ []))
      ∷ [];
  includes = [];
  relationships =
      ("form_submissions", has_many "form_submission" "form_pco_id")
      ∷ ("campus", has_one "campus" "campus_id")
      ∷ [];
  can_query_by = "created_at" ∷ "updated_at" ∷ "active" ∷ "id" ∷ [];
  can_order_by = "created_at" ∷ "updated_at" ∷ "name" ∷ "active" ∷ "submission_count" ∷ [];
  search_filters = [];
  col_aliases = [];
  incr_interval_s = 3600;
  audit_interval_s = none;
  priority = 3;
}

abbrev pub form_submission_resource : Resource
form_submission_resource = record {
  name = "form_submission";
  kind = "FormSubmission";
  table = "form_submission";
  endpoint = "/form_submissions";
  tier = lite;
  method = nested_walk;
  parent = some "form";
  parent_path = some "/form_submissions";
  parent_fk = some "form_pco_id";
  timestamped = true;
  supports_uat_filter = false;
  supports_cat_filter = true;
  owner_rel = none;
  projections =
      projection "form_pco_id" "TEXT" (expr (owner_link "form" "forms" "form_submissions"))
      ∷ projection "person_pco_id" "TEXT" (json ("relationships" ∷ "person" ∷ "data" ∷ "id" ∷ []))
      ∷ projection "verified" "INTEGER" (json ("attributes" ∷ "verified" ∷ []))
      ∷ [];
  includes = [];
  relationships =
      ("person", has_one "person" "person_pco_id") ∷ ("form", has_one "form" "form_pco_id") ∷ [];
  can_query_by = [];
  can_order_by = "created_at" ∷ "updated_at" ∷ [];
  search_filters = [];
  col_aliases = [];
  incr_interval_s = 86400;
  audit_interval_s = none;
  priority = 3;
}
