-- ===== src/Examples/ControlExamples.antt =====
-- backend/internal/control at concrete inputs
use podman_manager.Prelude.{
  String, Bool, true, false, ◌≡◌, refl, lookup, put, some, List, [], ◌∷◌, ◌++◌, ok, pos, trim_space,
  trim_left, trim_right, trim_before, is_space, codes, lower_codes, rune_lower, begins, ◌==◌,
}
use podman_manager.Control.{
  LinkCategory, ManagedLink, LinkMutation, LinkRow, LinksResponse, Database, Environment, Statement,
}
use podman_manager.Control.Slug.{
  slugify, slug_loop, trim_dashes, trim_left_dashes, trim_right_dashes, dash_before,
}
use podman_manager.Control.Slug.Shape.{is_slug, kept as kept_letters, slugify-is_slug}
use podman_manager.Control.Mutation.{
  normalize_link_mutation, validate_http_url, trim_fields, check_health_url, check_texts,
  normalize_target, normalize_role, fill_rest, icon_kind,
}
use podman_manager.Control.Mutation.Normal.{IsNormal, normalize_link_mutation-IsNormal}
use podman_manager.Control.Tables.{
  category_by_id, category_by_name, collides_any, insert_category_row, link_by_id, has_link,
  insert_link_row, id_by_title_url, max_of, next_of, length_of, with_category, joined, join_all,
}
use podman_manager.Control.Links.{
  get_category, get_category_by_name, new_category, add_category, ensure_category,
  next_link_sort_order, get_link, row_of, with_sort_order, insert_new, create_link,
  find_link_by_title_url, upsert_imported_link,
}
use podman_manager.Control.Links.WellFormed.{
  IsWellFormed, are_sound, are_distinct, are_apart, has_category, is_sound,
}
use podman_manager.Control.Links.Reachable.{
  Operation, create, upsert, delete, run, new_database, run-IsWellFormed,
}
use podman_manager.Control.Links.Outcomes.{create_link_returned}
use podman_manager.Control.Links.Imports.{upsert_imported_link_again}
use podman_manager.Control.Listing.{
  Ordering, list_links, build_links_response, collect, groups_from,
}
use podman_manager.Control.Listing.Joined.{count_where, row_behind, is_misnamed}
use podman_manager.Control.Listing.Groups.{groups_of, all_links, IsOrdering, list_links_groups}
use podman_manager.Control.Import.{ImportResult}
use podman_manager.Control.Import.Tally.{IsBalanced, length_of as count_of}

-- an engine that never fails, where every URL is "http" at host "h"
abbrev env : Environment
env = record {
  fault = λ st. false;
  fits = λ z. true;
  parse_url = λ raw. some ("http", "h");
  lower_table = λ c. c;
}

abbrev wiki : LinkMutation
wiki = record {
  category_id = "";
  category_name = " Tools ";
  title = " Wiki ";
  url = "http://h";
  description = "";
  icon = "";
  target = "";
  visibility_role = "";
  health_url = "";
  sort_order = pos 0;
  status = "";
  source = "";
}

abbrev wiki_normal : LinkMutation
wiki_normal = record wiki {
  category_name = "Tools";
  title = "Wiki";
  target = "_blank";
  visibility_role = "viewer";
  status = "unknown";
  source = "manual";
}

wiki_normalized : normalize_link_mutation env wiki ≡ ok wiki_normal
unfolding normalize_link_mutation validate_http_url trim_fields check_health_url check_texts
    normalize_target normalize_role fill_rest trim_space trim_left trim_right trim_before is_space
wiki_normalized = refl

normalize_link_mutation-IsNormal_example :
    IsNormal env wiki_normal × (normalize_link_mutation env wiki_normal ≡ ok wiki_normal)
normalize_link_mutation-IsNormal_example =
    normalize_link_mutation-IsNormal env wiki wiki_normal wiki_normalized

slugify-is_slug_example :
    (is_slug (slugify (λ c. c) "-A  b!") ≡ true)
    × (kept_letters (slugify (λ c. c) "-A  b!")
        ≡ kept_letters (lower_codes (λ c. c) (codes "-A  b!")))
slugify-is_slug_example = slugify-is_slug (λ c. c) "-A  b!"

new_database-IsWellFormed : IsWellFormed env new_database
unfolding are_sound are_distinct are_apart
new_database-IsWellFormed = record { sound = refl; distinct = refl; apart = refl }

abbrev operations : List ((Statement → Bool) × Operation)
operations =
    ((λ st. false), create "c1" "l1" wiki)
    ∷ ((λ st. true), upsert "c2" "l2" wiki)
    ∷ ((λ st. false), delete "l1")
    ∷ []

run-IsWellFormed_example : IsWellFormed env (run env operations new_database)
run-IsWellFormed_example = run-IsWellFormed env operations new_database new_database-IsWellFormed

abbrev tools : LinkCategory
tools = record {
  id = "c1";
  name = "Tools";
  slug = 116 ∷ 111 ∷ 111 ∷ 108 ∷ 115 ∷ [];
  description = "";
  sort_order = pos 100;
}

abbrev wiki_row : LinkRow
wiki_row = record {
  id = "l1";
  category_id = "c1";
  title = "Wiki";
  url = "http://h";
  description = "";
  icon = "";
  icon_kind = "favicon";
  target = "_blank";
  visibility_role = "viewer";
  health_url = "";
  sort_order = pos 10;
  status = "unknown";
  source = "manual";
}

abbrev wiki_link : ManagedLink
wiki_link = record {
  id = "l1";
  category_id = "c1";
  category_name = "Tools";
  title = "Wiki";
  url = "http://h";
  description = "";
  icon = "";
  icon_kind = "favicon";
  target = "_blank";
  visibility_role = "viewer";
  health_url = "";
  sort_order = pos 10;
  status = "unknown";
  source = "manual";
}

abbrev with_wiki : Database
with_wiki = record { categories = tools ∷ []; links = wiki_row ∷ []; audits = [] }

wiki_created : create_link env "c1" "l1" wiki new_database ≡ (ok wiki_link, with_wiki)
unfolding create_link normalize_link_mutation validate_http_url trim_fields check_health_url
    check_texts normalize_target normalize_role fill_rest trim_space trim_left trim_right
    trim_before is_space ensure_category get_category get_category_by_name new_category add_category
    insert_new insert_link_row row_of with_sort_order get_link insert_category_row collides_any
    has_link category_by_id category_by_name next_link_sort_order next_of max_of icon_kind begins
    lower_codes codes link_by_id joined with_category slugify slug_loop trim_dashes trim_left_dashes
    trim_right_dashes dash_before rune_lower
wiki_created = refl

create_link_returned_example :
    (n : LinkMutation) × (r : LinkRow) × (normalize_link_mutation env wiki ≡ ok n)
    × (with_wiki.links ≡ [] ++ (r ∷ []))
    × (r.id ≡ "l1")
    × (r.title ≡ n.title)
    × (r.url ≡ n.url)
    × (has_link "l1" [] ≡ false)
    × (get_link env "l1" with_wiki ≡ ok wiki_link)
create_link_returned_example =
    create_link_returned env "c1" "l1" wiki new_database with_wiki wiki_link wiki_created

wiki_imported :
    upsert_imported_link env "c1" "l1" wiki new_database ≡ (ok (wiki_link, true), with_wiki)
unfolding create_link normalize_link_mutation validate_http_url trim_fields check_health_url
    check_texts normalize_target normalize_role fill_rest trim_space trim_left trim_right
    trim_before is_space ensure_category get_category get_category_by_name new_category add_category
    insert_new insert_link_row row_of with_sort_order get_link insert_category_row collides_any
    has_link category_by_id category_by_name next_link_sort_order next_of max_of icon_kind begins
    lower_codes codes link_by_id joined with_category slugify slug_loop trim_dashes trim_left_dashes
    trim_right_dashes dash_before rune_lower upsert_imported_link find_link_by_title_url
    id_by_title_url
wiki_imported = refl

has_link_nothing : has_link "" new_database.links ≡ false
unfolding has_link
has_link_nothing = refl

upsert_imported_link_again_example :
    (length_of (upsert_imported_link env "c2" "l2" wiki with_wiki).1.links
      ≡ length_of with_wiki.links)
    × ((o : ManagedLink × Bool)
        → (upsert_imported_link env "c2" "l2" wiki with_wiki).0 ≡ ok o
        → o.1 ≡ false)
upsert_imported_link_again_example =
    upsert_imported_link_again env (λ st. false) "c1" "l1" "c2" "l2" wiki new_database with_wiki
      (wiki_link, true) refl has_link_nothing wiki_imported

-- an engine that gives the rows as they stand
abbrev as_they_are : Ordering
as_they_are = record { categories_by = λ cs. cs; links_by = λ ls. ls }

as_they_are-IsOrdering : IsOrdering as_they_are
as_they_are-IsOrdering = record { categories = λ p cs. refl; links = λ p ls. refl }

with_wiki-IsWellFormed : IsWellFormed env with_wiki
unfolding are_sound are_distinct are_apart has_category is_sound has_link collides_any
    validate_http_url icon_kind trim_space trim_left trim_right trim_before is_space begins
    lower_codes codes
with_wiki-IsWellFormed = record { sound = refl; distinct = refl; apart = refl }

abbrev wiki_response : LinksResponse
wiki_response = record {
  categories = tools ∷ [];
  links = wiki_link ∷ [];
  groups = record { category = tools; links = wiki_link ∷ [] } ∷ [];
}

wiki_listed : list_links env as_they_are with_wiki ≡ ok wiki_response
unfolding list_links build_links_response collect groups_from join_all joined with_category
    category_by_id lookup put
wiki_listed = refl

abbrev is_first : ManagedLink → Bool
is_first l = l.id == "l1"

abbrev is_first_row : LinkRow → Bool
is_first_row r = r.id == "l1"

abbrev is_tools : LinkCategory → Bool
is_tools c = c.name == "Tools"

list_links_groups_example :
    (count_where (λ l. is_first_row (row_behind l)) wiki_response.links
      ≡ count_where is_first_row with_wiki.links)
    × (count_where (is_misnamed with_wiki.categories) wiki_response.links ≡ 0)
    × (count_where is_tools wiki_response.categories ≡ count_where is_tools with_wiki.categories)
    × (wiki_response.groups ≡ groups_of wiki_response.links wiki_response.categories)
    × (count_where is_first (all_links wiki_response.groups)
        ≡ count_where is_first wiki_response.links)
list_links_groups_example =
    list_links_groups env as_they_are with_wiki wiki_response is_first_row is_tools is_first
      with_wiki-IsWellFormed as_they_are-IsOrdering wiki_listed

abbrev nothing_imported : ImportResult
nothing_imported = record { imported = 0; created = 0; updated = 0; skipped = 0; errors = [] }

nothing_imported-IsBalanced : IsBalanced 0 0 nothing_imported
unfolding count_of
nothing_imported-IsBalanced = record { all = refl; kinds = refl; reported = refl }

abbrev imports : List ((String × String) × LinkMutation)
imports = (("c1", "l1"), wiki) ∷ (("c2", "l2"), record wiki { title = " " }) ∷ []
