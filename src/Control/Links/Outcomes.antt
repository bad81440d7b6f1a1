-- ===== src/Control/Links/Outcomes.antt =====
-- What the calls of backend/internal/control/store.go give, and what they leave of the links.
use podman_manager.Prelude.{
  String, false, ◌≡◌, refl, sym, ap, ◌∙◌, List, [], ◌∷◌, ◌++◌, Result, ok, err, ◌==◌, if◌then◌else◌,
  arith, eq_refl, some, inl, inr, Bool-cases, ℤ, pos, trim_space,
}
use podman_manager.Control.{
  LinkCategory, ManagedLink, LinkMutation, LinkRow, Database, Environment, Error, is_zero,
  not_found,
}
use podman_manager.Control.Mutation.{normalize_link_mutation}
use podman_manager.Control.Tables.{
  insert_category_row, insert_link_row, link_by_id, has_link, replace_rows, length_of,
}
use podman_manager.Control.Links.{
  Outcome, succeed, and_then, name_or_general, get_category, get_category_by_name, unless_found,
  new_category, add_category, ensure_category, row_of, with_sort_order, insert_new, create_link,
  update_row, get_link,
}

pub and_then_inv {ℓ κ} :
    {A : Type ℓ} {B : Type κ} (m : Outcome A) (k : A → Database → Outcome B) (b : B)
    (after : Database)
    → and_then m k ≡ (ok b, after)
    → (a : A) × (db : Database) × (m ≡ (ok a, db)) × (k a db ≡ (ok b, after))
and_then_inv (ok a, db) k b after h = (a, db, refl, h)
and_then_inv (err e, db) k b after h = cc

insert_category_links :
    (env : Environment) (c : LinkCategory) (db : Database)
    → (insert_category_row env c db).1.links ≡ db.links
unfolding insert_category_row
insert_category_links env c db = ground (arith)

unless_found_links :
    (m : Result Error LinkCategory) (db : Database) (missing : Outcome LinkCategory)
    → missing.1.links ≡ db.links
    → (unless_found m db missing).1.links ≡ db.links
unless_found_links (ok c) db missing h = refl
unless_found_links (err e) db missing h = ground (arith)

pub and_then_links {ℓ κ} :
    {A : Type ℓ} {B : Type κ} (m : Outcome A) (k : A → Database → Outcome B) (rs : List LinkRow)
    → m.1.links ≡ rs
    → ((a : A) (db : Database) → db.links ≡ rs → (k a db).1.links ≡ rs)
    → (and_then m k).1.links ≡ rs
and_then_links (ok a, db) k rs h f = f a db h
and_then_links (err e, db) k rs h f = h

pub ensure_category_links :
    (env : Environment) (fresh id name : String) (z : ℤ) (db : Database)
    → (ensure_category env fresh id name z db).1.links ≡ db.links
unfolding ensure_category add_category
ensure_category_links env fresh id name z db =
    let n = name_or_general name in
    let c = new_category env fresh n z in
    let inserted = insert_category_row env c db in
    let added = add_category env c db in
    let by_name = get_category_by_name env n db in
    let by_id = if trim_space id == "" then err not_found else get_category env id db in
    unless_found_links by_id db (unless_found by_name db added) (
      unless_found_links by_name db added (
        and_then_links inserted (λ _ db. succeed c db) db.links (insert_category_links env c db)
          (λ _ _ h. h)))

link_by_id_append :
    (r : LinkRow) (rs : List LinkRow)
    → has_link r.id rs ≡ false
    → link_by_id r.id (rs ++ (r ∷ [])) ≡ some r
unfolding link_by_id has_link
link_by_id_append r [] h = ground (arith, eq_refl r.id)
link_by_id_append r (s ∷ rs) h = ground (arith, link_by_id_append r rs)

pub length_replace :
    (r : LinkRow) (rs : List LinkRow) → length_of (replace_rows r rs) ≡ length_of rs
unfolding length_of replace_rows
length_replace r [] = refl
length_replace r (s ∷ rs) = ground (arith, length_replace r rs)

pub update_row_length :
    (env : Environment) (id : String) (n : LinkMutation) (c : LinkCategory) (db : Database)
    → length_of (update_row env id n c db).1.links ≡ length_of db.links
unfolding update_row
update_row_length env id n c db = ground (arith, length_replace (row_of env id c n) db.links)

-- what `normalizeLinkMutation` and `ensureCategory` gave to a change that was made
pub record Ensured (env : Environment) (fresh : String) (req : LinkMutation) (db : Database)
    (change : LinkMutation → LinkCategory → Database → Outcome ManagedLink)
    (o : Outcome ManagedLink) : Type 0 where
  pub mutation : LinkMutation
  pub category : LinkCategory
  pub between : Database
  pub is_normalized : normalize_link_mutation env req ≡ ok mutation
  pub links : between.links ≡ db.links
  pub is_changed : change mutation category between ≡ o

pub ensured :
    (env : Environment) (fresh : String) (req : LinkMutation) (db : Database)
    (change : LinkMutation → LinkCategory → Database → Outcome ManagedLink) (l : ManagedLink)
    (after : Database)
    → and_then
        (normalize_link_mutation env req, db)
        (λ n db.
          and_then
            (ensure_category env fresh n.category_id n.category_name (pos 100) db)
            (change n))
      ≡ (ok l, after)
    → Ensured env fresh req db change (ok l, after)
ensured env fresh req db change l after h =
    let (n, db1, e1, h1) = and_then_inv (normalize_link_mutation env req, db) _ l after h in
    let m = ensure_category env fresh n.category_id n.category_name (pos 100) in
    let (c, db2, e2, h2) = and_then_inv (m db1) (change n) l after h1 in
    record {
      mutation = n;
      category = c;
      between = db2;
      is_normalized = ap (λ o. o.0) e1;
      links =
          sym (ap (λ o. o.1.links) e2)
          ∙ ensure_category_links env fresh n.category_id n.category_name (pos 100) db1
          ∙ sym (ap (λ o. o.1.links) e1);
      is_changed = h2;
    }

insert_link_inv :
    (env : Environment) (r : LinkRow) (db after : Database) (u : Unit {0})
    → insert_link_row env r db ≡ (ok u, after)
    → (has_link r.id db.links ≡ false) × (after.links ≡ db.links ++ (r ∷ []))
unfolding insert_link_row
insert_link_inv env r db after u h = (ground (arith), ground (arith))

pub update_row_inv :
    (env : Environment) (id : String) (n : LinkMutation) (c : LinkCategory) (db after : Database)
    (l : ManagedLink)
    → update_row env id n c db ≡ (ok l, after)
    → after.links ≡ replace_rows (row_of env id c n) db.links
unfolding update_row
update_row_inv env id n c db after l h = ground (arith)

with_sort_order_texts :
    (env : Environment) (c : LinkCategory) (db : Database) (n : LinkMutation)
    → ((with_sort_order env c db n).title ≡ n.title) × ((with_sort_order env c db n).url ≡ n.url)
unfolding with_sort_order
with_sort_order_texts env c db n = elim (Bool-cases (is_zero n.sort_order)) [
  | inl e ↦ rw e (refl, refl)
  | inr e ↦ rw e (refl, refl)
]

-- A link that was created is the one that reading its id gives. Its row, with the normalized title and
-- URL, stands behind those that were there, of which none has its id.
pub create_link_returned :
    (env : Environment) (fresh id : String) (req : LinkMutation) (db after : Database)
    (l : ManagedLink)
    → create_link env fresh id req db ≡ (ok l, after)
    → (n : LinkMutation) × (r : LinkRow) × (normalize_link_mutation env req ≡ ok n)
      × (after.links ≡ db.links ++ (r ∷ []))
      × (r.id ≡ id)
      × (r.title ≡ n.title)
      × (r.url ≡ n.url)
      × (has_link id db.links ≡ false)
      × (get_link env id after ≡ ok l)
unfolding create_link insert_new row_of with_sort_order
create_link_returned env fresh id req db after l h =
    let e = ensured env fresh req db (insert_new env id) l after h in
    let n = with_sort_order env e.category e.between e.mutation in
    let r = row_of env id e.category n in
    let (u, db3, i, g) =
      and_then_inv (insert_link_row env r e.between) (λ _ db. (get_link env id db, db)) l after
        e.is_changed in
    let (apart, put) = insert_link_inv env r e.between db3 u i in
    (
      e.mutation,
      r,
      e.is_normalized,
      sym (ap (λ o. o.1.links) g) ∙ put ∙ ap (λ rs. rs ++ (r ∷ [])) e.links,
      refl,
      (with_sort_order_texts env e.category e.between e.mutation).0,
      (with_sort_order_texts env e.category e.between e.mutation).1,
      ap (has_link id) (sym e.links) ∙ apart,
      ap (λ o. get_link env id o.1) (sym g) ∙ ap (λ o. o.0) g,
    )
