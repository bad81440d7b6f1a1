-- ===== src/Control/Listing.antt =====
-- `ListLinks` and `buildLinksResponse` of backend/internal/control/store.go. How the engine orders the
-- rows of a query is an argument, since it depends on the collation of the engine.
pub mod Groups
pub mod Joined
use podman_manager.Prelude.{
  String, none, some, List, [], ◌∷◌, ◌++◌, Map, lookup, put, Result, ok, ◌>>◌,
}
use podman_manager.Control.{
  LinkCategory, ManagedLink, LinkGroup, LinksResponse, Database, Environment, Error, select_links,
  select_categories,
}
use podman_manager.Control.Tables.{run_statement, join_all}

-- `byCategory[id]`, nil without an entry
abbrev pub links_at : String → Map (List ManagedLink) → List ManagedLink
links_at id m = elim (lookup id m) [ none ↦ [] | some links ↦ links ]

-- the first loop, with the map `byCategory`
unfoldable pub collect : List ManagedLink → Map (List ManagedLink) → Map (List ManagedLink)
unfolding lookup put
collect [] m = m
collect (l ∷ ls) m = collect ls (put l.category_id (links_at l.category_id m ++ (l ∷ [])) m)

-- the second loop
unfoldable pub groups_from : Map (List ManagedLink) → List LinkCategory → List LinkGroup
unfolding lookup
groups_from m [] = []
groups_from m (c ∷ cs) = record { category = c; links = links_at c.id m } ∷ groups_from m cs

unfoldable pub build_links_response : List LinkCategory → List ManagedLink → LinksResponse
unfolding collect groups_from
build_links_response categories links = record {
  categories = categories;
  links = links;
  groups = groups_from (collect links []) categories;
}

pub record Ordering : Type 0 where
  pub categories_by : List LinkCategory → List LinkCategory
  pub links_by : List ManagedLink → List ManagedLink

unfoldable pub list_categories :
    Environment → Ordering → Database → Result Error (List LinkCategory)
list_categories env order db =
    run_statement env select_categories >> ok (order.categories_by db.categories)

unfoldable pub list_links : Environment → Ordering → Database → Result Error LinksResponse
unfolding list_categories build_links_response join_all
list_links env order db =
    let links = join_all db.categories db.links in
    run_statement env select_categories
    >> run_statement env select_links
    >> ok (build_links_response (order.categories_by db.categories) (order.links_by links))
