-- ===== src/Control/Homepage.antt =====
-- backend/internal/control/homepage_import.go. A YAML document is the tree that yaml.v3 gives; reading
-- one, the sort of the standard library and the ids of new rows are arguments.
use podman_manager.Prelude.{
  ℕ, suc, ◌+◌, ◌*◌, String, Bool, true, false, Option, none, some, List, [], ◌∷◌, ◌++◌, Result, ok,
  err, ◌==◌, ℤ, pos, if◌then◌else◌, trim_space,
}
use podman_manager.Control.{LinkMutation, Error}

pub record ImportRequest : Type 0 where
  pub bookmarks_path : String
  pub services_path : String

pub data Kind : Type 0 where
  mapping_node sequence_node other_node : Kind

mutual
  -- a node: its kind, its value, and its content
  pub data Node : Type 0 where
    node : Kind → String → Nodes → Node

  pub data Nodes : Type 0 where
    no_nodes : Nodes
    more : Node → Nodes → Nodes

abbrev pub kind : Node → Kind
kind (node k v ns) = k

abbrev pub value : Node → String
value (node k v ns) = v

abbrev pub content : Node → Nodes
content (node k v ns) = ns

abbrev pub is_mapping : Node → Bool
is_mapping (node mapping_node v ns) = true
is_mapping (node _ v ns) = false

abbrev pub is_sequence : Node → Bool
is_sequence (node sequence_node v ns) = true
is_sequence (node _ v ns) = false

unfoldable pub first_mapping : Node → Option Node
first_mapping (node mapping_node v ns) = some (node mapping_node v ns)
first_mapping (node sequence_node v no_nodes) = none
first_mapping (node sequence_node v (more n ns)) = if is_mapping n then some n else none
first_mapping (node other_node v ns) = none

-- the loop of `mappingScalar`, on keys and values in turn
unfoldable pub scalar_in : String → Nodes → String
unfolding trim_space
scalar_in key no_nodes = ""
scalar_in key (more k no_nodes) = ""
scalar_in key (more k (more v ns)) =
    let rest = scalar_in key ns in if value k == key then trim_space (value v) else rest

unfoldable pub mapping_scalar : Option Node → String → String
unfolding scalar_in
mapping_scalar none key = ""
mapping_scalar (some n) key = if is_mapping n then scalar_in key (content n) else ""

-- `(groupIndex+1)*1000 + (itemIndex+1)*10`
abbrev pub position : ℕ → ℕ → ℤ
position group item = pos ((group + 1) * 1000 + (item + 1) * 10)

unfoldable pub bookmark : String → ℕ → ℕ → String → String → Option Node → LinkMutation
unfolding mapping_scalar
bookmark group_name group item title href props = record {
  category_id = "";
  category_name = group_name;
  title = title;
  url = href;
  description = "";
  icon = mapping_scalar props "icon";
  target = "_blank";
  visibility_role = "viewer";
  health_url = "";
  sort_order = position group item;
  status = "";
  source = "homepage:bookmarks";
}

unfoldable pub service : String → ℕ → ℕ → String → String → Option Node → LinkMutation
unfolding mapping_scalar
service group_name group item title href props = record {
  category_id = "";
  category_name = group_name;
  title = title;
  url = href;
  description = mapping_scalar props "description";
  icon = mapping_scalar props "icon";
  target = "_blank";
  visibility_role = "viewer";
  health_url = "";
  sort_order = position group item;
  status = "";
  source = "homepage:services";
}

-- How the two parsers differ: the node that has the properties, and the link that they make.
pub record Format : Type 0 where
  pub props_of : Node → Option Node
  pub link : String → ℕ → ℕ → String → String → Option Node → LinkMutation

-- the loop over the entries of an item
unfoldable pub entries : Format → String → ℕ → ℕ → Nodes → List LinkMutation
unfolding mapping_scalar
entries f name group item no_nodes = []
entries f name group item (more k no_nodes) = []
entries f name group item (more k (more v ns)) =
    let rest = entries f name group item ns in
    let props = f.props_of v in
    let href = mapping_scalar props "href" in
    if href == "" then rest else f.link name group item (value k) href props ∷ rest

-- the loop over the items of a group
unfoldable pub items : Format → String → ℕ → ℕ → Nodes → List LinkMutation
unfolding entries
items f name group item no_nodes = []
items f name group item (more n ns) =
    let rest = items f name group (suc item) ns in
    if is_mapping n then entries f name group item (content n) ++ rest else rest

-- the loop over the names and items of a node of the top level
unfoldable pub named : Format → ℕ → Nodes → List LinkMutation
unfolding items
named f group no_nodes = []
named f group (more k no_nodes) = []
named f group (more k (more v ns)) =
    let rest = named f group ns in
    if is_sequence v then items f (value k) group 0 (content v) ++ rest else rest

-- the loop over the top level
unfoldable pub top : Format → ℕ → Nodes → List LinkMutation
unfolding named
top f group no_nodes = []
top f group (more n ns) =
    let rest = top f (suc group) ns in
    if is_mapping n then named f group (content n) ++ rest else rest

unfoldable pub bookmarks_format : Format
unfolding first_mapping bookmark
bookmarks_format = record { props_of = first_mapping; link = bookmark }

unfoldable pub services_format : Format
unfolding service
services_format = record { props_of = λ n. some n; link = service }

-- the error that an import reports, by the path of the document or the title of the link
pub data ImportError : Type 0 where
  unreadable not_a_sequence : String → ImportError
  refused : String → Error → ImportError

-- `parseHomepageBookmarks` and `parseHomepageServices`, where `read` is `readYAMLDocument`
unfoldable pub parse :
    (String → Option Node) → Format → String → Result ImportError (List LinkMutation)
unfolding top
parse read f path = elim (read path) [
  | none ↦ err (unreadable path)
  | some root ↦ if is_sequence root then ok (top f 0 (content root)) else err (not_a_sequence path)
]
