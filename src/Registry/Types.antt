-- ===== src/Registry/Types.antt =====
-- registry.py: the shape of a declaration.
use pcomirror.Prelude.{String, ℕ, Bool, Option, List}

-- The expressions over `raw` that the registry projects. `owner_link rel plural child` is
-- `coalesce(raw ->> '$.relationships.<rel>.data.id', <the segment after /<plural>/ of links.self>)`.
pub data Expression : Type 0 where
  customizable_person : Expression
  owner_link : String → String → String → Expression

pub data Source : Type 0 where
  json : List String → Source
  expr : Expression → Source
  plain : Source

pub record Projection : Type 0 where
  pub col : String
  pub sqltype : String
  pub kind : Source

pub data RelKind : Type 0 where
  many one inline : RelKind

-- `inline` is the source's "json".
pub record Rel : Type 0 where
  pub target : String
  pub kind : RelKind
  pub local_fk : Option String
  pub child_fk : Option String
  pub json_path : Option (List String)
  pub via : Option String
  pub via_local_fk : Option String
  pub via_target_fk : Option String

pub record SearchChild : Type 0 where
  pub resource : String
  pub child_fk : String
  pub column : String
  pub mode : String

pub record Search : Type 0 where
  pub names : List String
  pub children : List SearchChild
  pub single_token_contains : Bool

pub data Method : Type 0 where
  incremental merger_poll reference_periodic nested_walk passthrough_only : Method

pub data Tier : Type 0 where
  full lite passthrough : Tier

pub record Resource : Type 0 where
  pub name : String
  pub kind : String
  pub table : String
  pub endpoint : String
  pub tier : Tier
  pub method : Method
  pub parent : Option String
  pub parent_path : Option String
  pub parent_fk : Option String
  pub timestamped : Bool
  pub supports_uat_filter : Bool
  pub supports_cat_filter : Bool
  pub owner_rel : Option String
  pub projections : List Projection
  pub includes : List String
  pub relationships : List (String × Rel)
  pub can_query_by : List String
  pub can_order_by : List String
  pub search_filters : List (String × Search)
  pub col_aliases : List (String × String)
  pub incr_interval_s : ℕ
  pub audit_interval_s : Option ℕ
  pub priority : ℕ
