-- ===== src/Control/Tables.antt =====
-- What the SQL statements of backend/internal/control/store.go do to the tables that its `migrate`
-- creates. The ids of the tables and the names and slugs of categories are unique: an INSERT that
-- repeats one fails. The reference to the category of a link is not checked here: SQLite does so only
-- when it is switched on, and Links/Reachable has that nothing depends on it.
use podman_manager.Prelude.{
  ℕ, suc, String, Bool, true, false, not, ◌&&◌, ◌||◌, none, some, Option, List, [], ◌∷◌, ◌++◌,
  Result, ok, err, nat_eq, ◌==◌, if◌then◌else◌, ℤ, pos,
}
use podman_manager.Control.{
  LinkCategory, ManagedLink, LinkRow, Database, Statement, Environment, Error, not_found,
  driver_failed, constraint_failed, out_of_range, insert_category, insert_link, less, plus,
}

-- the error of a statement that the engine fails on
abbrev pub run_statement : Environment → Statement → Result Error (Unit {0})
run_statement env st = if env.fault st then err (driver_failed st) else ok tt

-- `sql.ErrNoRows` becomes `ErrNotFound`
abbrev pub found {ℓ} : {A : Type ℓ} → Option A → Result Error A
found none = err not_found
found (some a) = ok a

unfoldable pub category_by_id : String → List LinkCategory → Option LinkCategory
category_by_id id [] = none
category_by_id id (c ∷ cs) = if c.id == id then some c else category_by_id id cs

unfoldable pub category_by_name : String → List LinkCategory → Option LinkCategory
category_by_name name [] = none
category_by_name name (c ∷ cs) = if c.name == name then some c else category_by_name name cs

unfoldable pub same_codes : List ℕ → List ℕ → Bool
same_codes [] [] = true
same_codes [] (d ∷ ds) = false
same_codes (c ∷ cs) [] = false
same_codes (c ∷ cs) (d ∷ ds) = nat_eq c d && same_codes cs ds

-- a category that an INSERT of `c` would repeat
abbrev pub collides : LinkCategory → LinkCategory → Bool
collides c d = d.id == c.id || d.name == c.name || same_codes d.slug c.slug

unfoldable pub collides_any : LinkCategory → List LinkCategory → Bool
unfolding same_codes
collides_any c [] = false
collides_any c (d ∷ ds) = collides c d || collides_any c ds

-- `INSERT INTO link_categories …`
unfoldable pub insert_category_row :
    Environment → LinkCategory → Database → Result Error (Unit {0}) × Database
unfolding collides_any
insert_category_row env c db =
    if env.fault insert_category
    then (err (driver_failed insert_category), db)
    else (if not (env.fits c.sort_order)
        then (err (out_of_range insert_category), db)
        else (if collides_any c db.categories
            then (err (constraint_failed insert_category), db)
            else (ok tt, record db { categories = db.categories ++ (c ∷ []) })))

unfoldable pub link_by_id : String → List LinkRow → Option LinkRow
link_by_id id [] = none
link_by_id id (r ∷ rs) = if r.id == id then some r else link_by_id id rs

unfoldable pub has_link : String → List LinkRow → Bool
has_link id [] = false
has_link id (r ∷ rs) = r.id == id || has_link id rs

-- `INSERT INTO managed_links …`
unfoldable pub insert_link_row :
    Environment → LinkRow → Database → Result Error (Unit {0}) × Database
unfolding has_link
insert_link_row env r db =
    if env.fault insert_link
    then (err (driver_failed insert_link), db)
    else (if not (env.fits r.sort_order)
        then (err (out_of_range insert_link), db)
        else (if has_link r.id db.links
            then (err (constraint_failed insert_link), db)
            else (ok tt, record db { links = db.links ++ (r ∷ []) })))

-- `UPDATE managed_links SET … WHERE id = …`: `r` has the id of the row that it replaces
unfoldable pub replace_rows : LinkRow → List LinkRow → List LinkRow
replace_rows r [] = []
replace_rows r (s ∷ rs) =
    let rest = replace_rows r rs in if s.id == r.id then r ∷ rest else s ∷ rest

-- `DELETE FROM managed_links WHERE id = …`
unfoldable pub delete_rows : String → List LinkRow → List LinkRow
delete_rows id [] = []
delete_rows id (r ∷ rs) = let rest = delete_rows id rs in if r.id == id then rest else r ∷ rest

-- `RowsAffected` of either
unfoldable pub rows_with_id : String → List LinkRow → ℕ
rows_with_id id [] = 0
rows_with_id id (r ∷ rs) = let n = rows_with_id id rs in if r.id == id then suc n else n

-- `SELECT id FROM managed_links WHERE title = … AND url = … LIMIT 1`, `""` for no row. The query has no
-- ORDER BY; of several rows, the first that was inserted stands for the one that the engine gives.
unfoldable pub id_by_title_url : String → String → List LinkRow → String
id_by_title_url title url [] = ""
id_by_title_url title url (r ∷ rs) =
    if r.title == title && r.url == url then r.id else id_by_title_url title url rs

-- `MAX(sort_order)` of the links of a category, if there are any
unfoldable pub max_of : String → List LinkRow → Option ℤ
max_of id [] = none
max_of id (r ∷ rs) =
    let rest = max_of id rs in
    if r.category_id == id
    then elim rest [
      | none ↦ some r.sort_order
      | some z ↦ some (if less z r.sort_order then r.sort_order else z)
    ]
    else rest

-- `COALESCE(MAX(sort_order), 0) + 10`
unfoldable pub next_of : String → List LinkRow → ℤ
unfolding max_of
next_of id rs = elim (max_of id rs) [ none ↦ pos 10 | some z ↦ plus z 10 ]

unfoldable pub length_of : List LinkRow → ℕ
length_of [] = 0
length_of (r ∷ rs) = suc (length_of rs)

-- the columns that `… FROM managed_links l JOIN link_categories c …` selects
unfoldable pub with_category : LinkCategory → LinkRow → ManagedLink
with_category c r = record {
  id = r.id;
  category_id = r.category_id;
  category_name = c.name;
  title = r.title;
  url = r.url;
  description = r.description;
  icon = r.icon;
  icon_kind = r.icon_kind;
  target = r.target;
  visibility_role = r.visibility_role;
  health_url = r.health_url;
  sort_order = r.sort_order;
  status = r.status;
  source = r.source;
}

-- the join of one link: no row if its category is missing
unfoldable pub joined : List LinkCategory → LinkRow → Option ManagedLink
unfolding with_category category_by_id
joined cats r = elim (category_by_id r.category_id cats) [
  | none ↦ none
  | some c ↦ some (with_category c r)
]

abbrev pub more_links : Option ManagedLink → List ManagedLink → List ManagedLink
more_links none rest = rest
more_links (some l) rest = l ∷ rest

unfoldable pub join_all : List LinkCategory → List LinkRow → List ManagedLink
unfolding joined
join_all cats [] = []
join_all cats (r ∷ rs) = more_links (joined cats r) (join_all cats rs)
