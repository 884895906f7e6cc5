-- ===== src/Registry.antt =====
-- registry.py: the catalog of the mirrored resources, its lookups, and the ownership edges.
pub mod Types
mod Rels
pub mod People
mod Children
pub mod Groups
pub mod Lite
pub mod Columns
pub mod Ownership
pub use Types.{Resource}
use Prim.Native.String.{◌++◌ as join}
use pcomirror.Prelude.{
  String, Option, none, some, List, [], ◌∷◌, ◌++◌, ◌==◌, if◌then◌else◌, or_default,
}
use pcomirror.Registry.Types.{Rel}
use pcomirror.Registry.People.{person_resource}
use pcomirror.Registry.Children.{
  email_resource, phone_number_resource, social_profile_resource, address_resource,
  field_datum_resource, note_resource,
}
use pcomirror.Registry.Groups.{
  household_resource, household_membership_resource, list_resource, list_result_resource,
  form_resource, form_submission_resource,
}
use pcomirror.Registry.Lite.{field_definition_resource, person_merger_resource, reference}

-- In the order of declaration, in which the dict is iterated.
abbrev pub resources : List Resource
resources =
    person_resource
    ∷ email_resource
    ∷ phone_number_resource
    ∷ social_profile_resource
    ∷ address_resource
    ∷ field_datum_resource
    ∷ field_definition_resource
    ∷ household_resource
    ∷ household_membership_resource
    ∷ note_resource
    ∷ list_resource
    ∷ list_result_resource
    ∷ form_resource
    ∷ form_submission_resource
    ∷ reference "campus" "Campus" "/campuses"
    ∷ reference "marital_status" "MaritalStatus" "/marital_statuses"
    ∷ reference "name_prefix" "NamePrefix" "/name_prefixes"
    ∷ reference "name_suffix" "NameSuffix" "/name_suffixes"
    ∷ reference "inactive_reason" "InactiveReason" "/inactive_reasons"
    ∷ person_merger_resource
    ∷ []

-- The dicts `_BY_TYPE`, `_BY_TABLE` and `_BY_EVENT_RESOURCE`, whose keys are distinct.
unfoldable pub find_by : (Resource → String) → String → List Resource → Option Resource
find_by key k [] = none
find_by key k (r ∷ rs) = if key r == k then some r else find_by key k rs

unfoldable pub by_type : String → Option Resource
unfolding find_by
by_type t = find_by (λ r. r.kind) t resources

unfoldable pub by_table : String → Option Resource
unfolding find_by
by_table t = find_by (λ r. r.table) t resources

unfoldable pub by_name : String → Option Resource
unfolding find_by
by_name n = find_by (λ r. r.name) n resources

-- Keyed by name too.
unfoldable pub by_event_resource : String → Option Resource
unfolding find_by
by_event_resource n = find_by (λ r. r.name) n resources

find_rel : String → List (String × Rel) → Option Rel
find_rel k [] = none
find_rel k ((j, r) ∷ rs) = if j == k then some r else find_rel k rs

-- An edge is the owner's name and the child's column that holds the owner's id.
rel_edge : String → Option Rel → String × String
rel_edge rel none = (rel, join rel "_pco_id")
rel_edge rel (some r) = (r.target, or_default r.local_fk (join rel "_pco_id"))

owner_edges : Resource → Option String → List (String × String)
unfolding find_rel rel_edge
owner_edges c none = []
owner_edges c (some rel) = rel_edge rel (find_rel rel c.relationships) ∷ []

parent_edges : Option String → Option String → List (String × String)
parent_edges (some p) (some fk) = (p, fk) ∷ []
parent_edges (some p) none = []
parent_edges none fk = []

edges : Resource → List (String × String)
unfolding owner_edges parent_edges
edges c = owner_edges c c.owner_rel ++ parent_edges c.parent c.parent_fk

edges_of : String → Resource → List (String × String) → List (Resource × String)
edges_of owner c [] = []
edges_of owner c ((o, fk) ∷ es) =
    if o == owner then (c, fk) ∷ edges_of owner c es else edges_of owner c es

children_in : String → List Resource → List (Resource × String)
unfolding edges edges_of
children_in owner [] = []
children_in owner (c ∷ cs) = edges_of owner c (edges c) ++ children_in owner cs

-- `_OWNED_CHILDREN.get(owner, ())`
unfoldable pub owned_children : String → List (Resource × String)
unfolding children_in
owned_children owner = children_in owner resources
