-- ===== src/Control.antt =====
-- backend/internal/control/store.go: the types of the links dashboard, and the tables of `migrate`.
-- The engine that runs the SQL statements, `net/url` and the Unicode table are not in the repository,
-- and come as an `Environment`. The columns `created_at` and `updated_at`, which no statement reads,
-- are left out.
pub mod Slug
pub mod Mutation
pub mod Tables
pub mod Links
pub mod Listing
pub mod Homepage
pub mod Import
pub mod Audit
use podman_manager.Prelude.{
  ℕ, suc, ◌+◌, ◌-◌, String, Bool, true, false, Option, List, ℤ, pos, negsuc,
}
use podman_manager.Prelude.{ltb, if◌then◌else◌}

pub record LinkCategory : Type 0 where
  pub id : String
  pub name : String
  pub slug : List ℕ
  pub description : String
  pub sort_order : ℤ

pub record ManagedLink : Type 0 where
  pub id : String
  pub category_id : String
  pub category_name : String
  pub title : String
  pub url : String
  pub description : String
  pub icon : String
  pub icon_kind : String
  pub target : String
  pub visibility_role : String
  pub health_url : String
  pub sort_order : ℤ
  pub status : String
  pub source : String

pub record LinkGroup : Type 0 where
  pub category : LinkCategory
  pub links : List ManagedLink

pub record LinksResponse : Type 0 where
  pub categories : List LinkCategory
  pub links : List ManagedLink
  pub groups : List LinkGroup

pub record LinkMutation : Type 0 where
  pub category_id : String
  pub category_name : String
  pub title : String
  pub url : String
  pub description : String
  pub icon : String
  pub target : String
  pub visibility_role : String
  pub health_url : String
  pub sort_order : ℤ
  pub status : String
  pub source : String

-- a row of `managed_links`
pub record LinkRow : Type 0 where
  pub id : String
  pub category_id : String
  pub title : String
  pub url : String
  pub description : String
  pub icon : String
  pub icon_kind : String
  pub target : String
  pub visibility_role : String
  pub health_url : String
  pub sort_order : ℤ
  pub status : String
  pub source : String

-- a row of `audit_events`
pub record AuditRow : Type 0 where
  pub id : String
  pub actor : String
  pub action : String
  pub resource : String
  pub resource_id : String
  pub details : String

pub record Database : Type 0 where
  pub categories : List LinkCategory
  pub links : List LinkRow
  pub audits : List AuditRow

pub data Statement : Type 0 where
  select_category select_category_by_name insert_category max_sort_order : Statement
  insert_link select_link update_link_row delete_link_row find_link count_rows : Statement
  select_links select_categories insert_audit rows_affected : Statement

-- Which statements the engine fails on, which integers a column of type INTEGER holds, what
-- `url.Parse` gives (a scheme and a host, or an error), and `unicode.ToLower` outside ASCII.
pub record Environment : Type 0 where
  pub fault : Statement → Bool
  pub fits : ℤ → Bool
  pub parse_url : String → Option (String × String)
  pub lower_table : ℕ → ℕ

pub data Error : Type 0 where
  not_found title_required bad_target bad_role audit_incomplete : Error
  url_unparsed bad_scheme host_required : Error
  url_invalid health_url_invalid : Error → Error
  driver_failed constraint_failed out_of_range : Statement → Error

abbrev pub is_zero : ℤ → Bool
is_zero (pos ℕ.zero) = true
is_zero (pos (suc n)) = false
is_zero (negsuc n) = false

abbrev pub less : ℤ → ℤ → Bool
less (pos m) (pos n) = ltb m n
less (pos m) (negsuc n) = false
less (negsuc m) (pos n) = true
less (negsuc m) (negsuc n) = ltb n m

-- `z + k`
abbrev pub plus : ℤ → ℕ → ℤ
plus (pos n) k = pos (n + k)
plus (negsuc n) k = if ltb n k then pos (k - suc n) else negsuc (n - k)
