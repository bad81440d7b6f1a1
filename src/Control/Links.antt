-- ===== src/Control/Links.antt =====
-- The operations of the store of backend/internal/control/store.go. Each takes the database and gives
-- a result and the database that it leaves, also when it fails. An id that `uuid.NewString` makes is
-- an argument.
pub mod WellFormed
pub mod Keeps
pub mod Reachable
pub mod Outcomes
pub mod Imports
use podman_manager.Prelude.{
  ℕ, String, Bool, true, false, not, none, some, List, [], ◌∷◌, ◌++◌, Result, ok, err, ◌>>=◌, ◌>>◌,
  nat_eq, ◌==◌, ◌||◌, if◌then◌else◌, trim_space, ℤ, pos,
}
use podman_manager.Control.{
  LinkCategory, ManagedLink, LinkMutation, LinkRow, Database, Environment, Error, not_found,
  driver_failed, out_of_range, select_category, select_category_by_name, max_sort_order,
  select_link, update_link_row, delete_link_row, find_link, count_rows, rows_affected, is_zero,
}
use podman_manager.Control.Slug.{slugify}
use podman_manager.Control.Mutation.{normalize_link_mutation, icon_kind}
use podman_manager.Control.Tables.{
  run_statement, found, category_by_id, category_by_name, insert_category_row, link_by_id,
  insert_link_row, replace_rows, delete_rows, rows_with_id, id_by_title_url, next_of, length_of,
  joined,
}

-- what a step of the store gives: `(T, error)` and the database after it
abbrev pub Outcome {ℓ} : Type ℓ → Type ℓ
Outcome A = Result Error A × Database

abbrev pub succeed {ℓ} : {A : Type ℓ} → A → Database → Outcome A
succeed a db = (ok a, db)

-- `if err != nil { return …, err }`
abbrev pub and_then {ℓ κ} :
    {A : Type ℓ} {B : Type κ} → Outcome A → (A → Database → Outcome B) → Outcome B
and_then (ok a, db) k = k a db
and_then (err e, db) k = (err e, db)

unfoldable pub get_category : Environment → String → Database → Result Error LinkCategory
unfolding category_by_id
get_category env id db =
    run_statement env select_category >> found (category_by_id id db.categories)

unfoldable pub get_category_by_name : Environment → String → Database → Result Error LinkCategory
unfolding category_by_name
get_category_by_name env name db =
    run_statement env select_category_by_name >> found (category_by_name name db.categories)

abbrev pub is_not_found : Error → Bool
is_not_found not_found = true
is_not_found _ = false

-- a category that was read, or the error of reading it, or what to do when there is none
abbrev pub unless_found :
    Result Error LinkCategory → Database → Outcome LinkCategory → Outcome LinkCategory
unless_found (ok c) db missing = (ok c, db)
unless_found (err e) db missing = if is_not_found e then missing else (err e, db)

abbrev pub name_or_general : String → String
name_or_general name = if trim_space name == "" then "General" else trim_space name

-- `cat.Slug`, with `"category"` for an empty one
abbrev pub slug_or_category : Environment → String → List ℕ
slug_or_category env name = elim (slugify env.lower_table name) [
  | [] ↦ 99 ∷ 97 ∷ 116 ∷ 101 ∷ 103 ∷ 111 ∷ 114 ∷ 121 ∷ []
  | (c ∷ cs) ↦ c ∷ cs
]

unfoldable pub new_category : Environment → String → String → ℤ → LinkCategory
new_category env fresh name sort_order = record {
  id = fresh;
  name = name;
  slug = slug_or_category env name;
  description = "";
  sort_order = sort_order;
}

unfoldable pub add_category : Environment → LinkCategory → Database → Outcome LinkCategory
unfolding insert_category_row
add_category env cat db = and_then (insert_category_row env cat db) (λ _ db. (ok cat, db))

unfoldable pub ensure_category :
    Environment → String → String → String → ℤ → Database → Outcome LinkCategory
unfolding get_category get_category_by_name new_category add_category
ensure_category env fresh id name sort_order db =
    let by_id = if trim_space id == "" then err not_found else get_category env id db in
    let name = name_or_general name in
    unless_found by_id db (
      unless_found (get_category_by_name env name db) db
        (add_category env (new_category env fresh name sort_order) db))

unfoldable pub next_link_sort_order : Environment → String → Database → ℤ
unfolding next_of
next_link_sort_order env category_id db =
    let next = next_of category_id db.links in
    if env.fault max_sort_order then pos 10 else (if env.fits next then next else pos 10)

unfoldable pub get_link : Environment → String → Database → Result Error ManagedLink
unfolding link_by_id joined
get_link env id db = run_statement env select_link >> elim (link_by_id id db.links) [
  | none ↦ err not_found
  | some r ↦ found (joined db.categories r)
]

-- the values that `INSERT` and `UPDATE` write
unfoldable pub row_of : Environment → String → LinkCategory → LinkMutation → LinkRow
unfolding icon_kind
row_of env id category n = record {
  id = id;
  category_id = category.id;
  title = n.title;
  url = n.url;
  description = n.description;
  icon = n.icon;
  icon_kind = icon_kind env.lower_table n.icon;
  target = n.target;
  visibility_role = n.visibility_role;
  health_url = n.health_url;
  sort_order = n.sort_order;
  status = n.status;
  source = n.source;
}

-- `if normalized.SortOrder == 0 { … }`
unfoldable pub with_sort_order : Environment → LinkCategory → Database → LinkMutation → LinkMutation
unfolding next_link_sort_order
with_sort_order env category db n =
    if is_zero n.sort_order
    then record n { sort_order = next_link_sort_order env category.id db }
    else n

unfoldable pub insert_new :
    Environment → String → LinkMutation → LinkCategory → Database → Outcome ManagedLink
unfolding insert_link_row row_of with_sort_order get_link
insert_new env id n category db =
    and_then (insert_link_row env (row_of env id category (with_sort_order env category db n)) db)
      (λ _ db. (get_link env id db, db))

unfoldable pub create_link :
    Environment → String → String → LinkMutation → Database → Outcome ManagedLink
unfolding normalize_link_mutation ensure_category insert_new
create_link env fresh_category id req db =
    and_then (normalize_link_mutation env req, db)
      (λ n db.
        and_then (ensure_category env fresh_category n.category_id n.category_name (pos 100) db)
          (insert_new env id n))

-- `affected, _ := result.RowsAffected()`: 0 if that fails
abbrev pub affected : Environment → String → Database → ℕ
affected env id db = if env.fault rows_affected then 0 else rows_with_id id db.links

unfoldable pub update_row :
    Environment → String → LinkMutation → LinkCategory → Database → Outcome ManagedLink
unfolding row_of replace_rows rows_with_id get_link
update_row env id n category db =
    let after = record db { links = replace_rows (row_of env id category n) db.links } in
    if env.fault update_link_row
    then (err (driver_failed update_link_row), db)
    else (if not (env.fits n.sort_order)
        then (err (out_of_range update_link_row), db)
        else (if nat_eq (affected env id db) 0
            then (err not_found, after)
            else (get_link env id after, after)))

unfoldable pub update_link :
    Environment → String → String → LinkMutation → Database → Outcome ManagedLink
unfolding normalize_link_mutation ensure_category update_row
update_link env fresh_category id req db =
    and_then (normalize_link_mutation env req, db)
      (λ n db.
        and_then (ensure_category env fresh_category n.category_id n.category_name (pos 100) db)
          (update_row env id n))

unfoldable pub delete_link : Environment → String → Database → Outcome (Unit {0})
unfolding delete_rows rows_with_id
delete_link env id db =
    let after = record db { links = delete_rows id db.links } in
    if env.fault delete_link_row
    then (err (driver_failed delete_link_row), db)
    else (if nat_eq (affected env id db) 0 then (err not_found, after) else (ok tt, after))

unfoldable pub find_link_by_title_url :
    Environment → String → String → Database → Result Error String
unfolding id_by_title_url
find_link_by_title_url env title url db =
    run_statement env find_link >> ok (id_by_title_url title url db.links)

-- the link, and whether it was created
unfoldable pub upsert_imported_link :
    Environment → String → String → LinkMutation → Database → Outcome (ManagedLink × Bool)
unfolding normalize_link_mutation find_link_by_title_url create_link update_link
upsert_imported_link env fresh_category id req db =
    and_then (normalize_link_mutation env req, db)
      (λ n db.
        and_then (find_link_by_title_url env n.title n.url db, db)
          (λ existing db.
            let created = create_link env fresh_category id n db in
            let updated = update_link env fresh_category existing n db in
            if existing == ""
            then and_then created (λ link db. succeed (link, true) db)
            else and_then updated (λ link db. succeed (link, false) db)))

unfoldable pub count_links : Environment → Database → Result Error ℕ
unfolding length_of
count_links env db = run_statement env count_rows >> ok (length_of db.links)
