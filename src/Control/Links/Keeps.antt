-- ===== src/Control/Links/Keeps.antt =====
-- The steps of the operations of backend/internal/control/store.go leave well-formed tables, also when
-- they fail.
use podman_manager.Prelude.{
  String, Bool, true, false, ◌≡◌, refl, ◌∙◌, [], ◌∷◌, Result, ok, err, nat_eq, ◌==◌, if◌then◌else◌,
  arith, eq_refl, some, none, inl, inr, Bool-cases, Option, ◌>>◌, ℤ, pos, trim_space,
}
use podman_manager.Control.{
  LinkCategory, ManagedLink, LinkMutation, LinkRow, Database, Environment, Error, is_zero,
  insert_category, insert_link, not_found, select_category, select_category_by_name,
  update_link_row,
}
use podman_manager.Control.Mutation.{normalize_link_mutation, icon_kind}
use podman_manager.Control.Mutation.Normal.{IsNormal, has_texts, normalize_link_mutation-IsNormal}
use podman_manager.Control.Tables.{
  run_statement, found, category_by_id, category_by_name, insert_category_row, insert_link_row,
  replace_rows, has_link, collides_any,
}
use podman_manager.Control.Links.{
  Outcome, and_then, name_or_general, get_category, get_category_by_name, unless_found,
  is_not_found, new_category, add_category, ensure_category, affected, row_of, with_sort_order,
  insert_new, update_row, get_link,
}
use podman_manager.Control.Links.WellFormed.{
  has_category, is_sound, are_sound, IsWellFormed, are_apart_append, has_category_append,
  are_sound_more, category_by_id_known, category_by_name_known, are_sound_append, are_sound_replace,
  are_distinct_append, are_distinct_replace,
}

-- `P` holds of the database that is left, and `Q` of it and the value, when there is one
abbrev pub Keeps {ℓ} :
    (Database → Type 0) → {A : Type ℓ} → (A → Database → Type 0) → Outcome A → Type 0
Keeps P Q (ok a, db) = P db × Q a db
Keeps P Q (err e, db) = P db

abbrev pub Any {ℓ} : {A : Type ℓ} → A → Database → Type 0
Any a db = Unit

pub Keeps-and_then {ℓ κ} :
    (P : Database → Type 0) {A : Type ℓ} {B : Type κ} (Q : A → Database → Type 0)
    (R : B → Database → Type 0) (m : Outcome A) (k : A → Database → Outcome B)
    → Keeps P Q m
    → ((a : A) (db : Database) → P db → Q a db → Keeps P R (k a db))
    → Keeps P R (and_then m k)
Keeps-and_then P Q R (ok a, db) k (p, q) f = f a db p q
Keeps-and_then P Q R (err e, db) k p f = p

-- what a read gives, on a database that it leaves alone
pub Keeps-read {ℓ} :
    (P : Database → Type 0) {A : Type ℓ} (Q : A → Database → Type 0) (m : Result Error A)
    (db : Database)
    → P db
    → ((a : A) → m ≡ ok a → Q a db)
    → Keeps P Q (m, db)
Keeps-read P Q (ok a) db p f = (p, f a refl)
Keeps-read P Q (err e) db p f = p

found_after :
    (m : Result Error (Unit {0})) (o : Option LinkCategory) (c : LinkCategory)
    → m >> found o ≡ ok c
    → o ≡ some c
found_after (ok _) (some d) c h = cc
found_after (ok _) none c h = cc
found_after (err e) o c h = cc

module _ (env : Environment) where
  abbrev pub Known : LinkCategory → Database → Type 0
  Known c db = has_category c.id db.categories ≡ true

  insert_category-Keeps :
      (c : LinkCategory) (db : Database)
      → IsWellFormed env db
      → Keeps (IsWellFormed env) (λ _ after. Known c after) (insert_category_row env c db)
  unfolding insert_category_row
  insert_category-Keeps c db w = elim (Bool-cases (env.fault insert_category)) [
    | inl e ↦ rw e w
    | inr e ↦ elim (Bool-cases (env.fits c.sort_order)) [
      | inr f ↦ rw (e, f) w
      | inl f ↦ elim (Bool-cases (collides_any c db.categories)) [
        | inl g ↦ rw (e, f, g) w
        | inr g ↦
            rw (e, f, g)
              (
                record {
                  sound = are_sound_more c env db.categories db.links w.sound;
                  distinct = w.distinct;
                  apart = are_apart_append c db.categories w.apart g;
                },
                has_category_append c c.id db.categories ∙ ground (arith, eq_refl c.id),
              )
      ]
    ]
  ]

  add_category-Keeps :
      (c : LinkCategory) (db : Database)
      → IsWellFormed env db
      → Keeps (IsWellFormed env) Known (add_category env c db)
  unfolding add_category
  add_category-Keeps c db w =
      Keeps-and_then (IsWellFormed env) (λ _ after. Known c after) Known
        (insert_category_row env c db) (λ _ db. (ok c, db)) (insert_category-Keeps c db w)
        (λ _ after p k. (p, k))

  unless_found-Keeps :
      (m : Result Error LinkCategory) (db : Database) (missing : Outcome LinkCategory)
      → IsWellFormed env db
      → ((c : LinkCategory) → m ≡ ok c → Known c db)
      → Keeps (IsWellFormed env) Known missing
      → Keeps (IsWellFormed env) Known (unless_found m db missing)
  unless_found-Keeps (ok c) db missing w f k = (w, f c refl)
  unless_found-Keeps (err e) db missing w f k = elim (Bool-cases (is_not_found e)) [
    | inl h ↦ rw h k
    | inr h ↦ rw h w
  ]

  Known-get_category :
      (id : String) (db : Database) (c : LinkCategory) → get_category env id db ≡ ok c → Known c db
  unfolding get_category
  Known-get_category id db c h =
      (category_by_id_known id c db.categories
        (found_after (run_statement env select_category) (category_by_id id db.categories) c h)).0

  Known-if :
      (b : Bool) (id : String) (db : Database) (c : LinkCategory)
      → (if b then err not_found else get_category env id db) ≡ ok c
      → Known c db
  Known-if true id db c h = cc
  Known-if false id db c h = Known-get_category id db c h

  Known-get_category_by_name :
      (name : String) (db : Database) (c : LinkCategory)
      → get_category_by_name env name db ≡ ok c
      → Known c db
  unfolding get_category_by_name
  Known-get_category_by_name name db c h =
      (category_by_name_known name c db.categories (
        found_after (run_statement env select_category_by_name)
          (category_by_name name db.categories) c h)).0

  pub ensure_category-Keeps :
      (fresh id name : String) (z : ℤ) (db : Database)
      → IsWellFormed env db
      → Keeps (IsWellFormed env) Known (ensure_category env fresh id name z db)
  unfolding ensure_category
  ensure_category-Keeps fresh id name z db w =
      let n = name_or_general name in
      let added = add_category-Keeps (new_category env fresh n z) db w in
      let named =
        unless_found-Keeps (get_category_by_name env n db) db _ w (Known-get_category_by_name n db)
          added in
      unless_found-Keeps _ db _ w (Known-if (trim_space id == "") id db) named

  row_of_sound :
      (id : String) (c : LinkCategory) (n : LinkMutation) (db : Database)
      → IsNormal env n
      → Known c db
      → are_sound env db.categories (row_of env id c n ∷ []) ≡ true
  unfolding row_of are_sound is_sound has_texts
  row_of_sound id c n db h k =
      rw (h.target, h.role, k, eq_refl (icon_kind env.lower_table n.icon)) (ground (arith))

  new_row_sound :
      (id : String) (c : LinkCategory) (n : LinkMutation) (db : Database)
      → IsNormal env n
      → Known c db
      → are_sound env db.categories (row_of env id c (with_sort_order env c db n) ∷ []) ≡ true
  unfolding row_of are_sound is_sound with_sort_order
  new_row_sound id c n db h k = elim (Bool-cases (is_zero n.sort_order)) [
    | inl e ↦ rw e (row_of_sound id c n db h k)
    | inr e ↦ rw e (row_of_sound id c n db h k)
  ]

  insert_link-Keeps :
      (r : LinkRow) (db : Database)
      → IsWellFormed env db
      → are_sound env db.categories (r ∷ []) ≡ true
      → Keeps (IsWellFormed env) Any (insert_link_row env r db)
  unfolding insert_link_row
  insert_link-Keeps r db w h = elim (Bool-cases (env.fault insert_link)) [
    | inl e ↦ rw e w
    | inr e ↦ elim (Bool-cases (env.fits r.sort_order)) [
      | inr f ↦ rw (e, f) w
      | inl f ↦ elim (Bool-cases (has_link r.id db.links)) [
        | inl g ↦ rw (e, f, g) w
        | inr g ↦
            rw (e, f, g)
              (
                record {
                  sound = are_sound_append env db.categories r db.links w.sound h;
                  distinct = are_distinct_append r db.links w.distinct g;
                  apart = w.apart;
                },
                tt,
              )
      ]
    ]
  ]

  pub insert_new-Keeps :
      (id : String) (n : LinkMutation) (c : LinkCategory) (db : Database)
      → IsNormal env n
      → IsWellFormed env db
      → Known c db
      → Keeps (IsWellFormed env) Any (insert_new env id n c db)
  unfolding insert_new
  insert_new-Keeps id n c db h w k =
      let row = row_of env id c (with_sort_order env c db n) in
      Keeps-and_then (IsWellFormed env) Any Any (insert_link_row env row db)
        (λ _ after. (get_link env id after, after))
        (insert_link-Keeps row db w (new_row_sound id c n db h k))
        (λ _ after p _.
          Keeps-read (IsWellFormed env) Any (get_link env id after) after p (λ _ _. tt))

  pub update_row-Keeps :
      (id : String) (n : LinkMutation) (c : LinkCategory) (db : Database)
      → IsNormal env n
      → IsWellFormed env db
      → Known c db
      → Keeps (IsWellFormed env) Any (update_row env id n c db)
  unfolding update_row
  update_row-Keeps id n c db h w k =
      let row = row_of env id c n in
      let after = record db { links = replace_rows row db.links } in
      let kept : IsWellFormed env after = record {
        sound =
            are_sound_replace env db.categories row db.links w.sound (row_of_sound id c n db h k);
        distinct = are_distinct_replace row db.links w.distinct;
        apart = w.apart;
      } in
      elim (Bool-cases (env.fault update_link_row)) [
        | inl e ↦ rw e w
        | inr e ↦ elim (Bool-cases (env.fits n.sort_order)) [
          | inr f ↦ rw (e, f) w
          | inl f ↦ elim (Bool-cases (nat_eq (affected env id db) 0)) [
            | inl g ↦ rw (e, f, g) kept
            | inr g ↦
                rw (e, f, g)
                  (Keeps-read (IsWellFormed env) Any (get_link env id after) after kept (λ _ _. tt))
          ]
        ]
      ]

  -- a change that starts with `normalizeLinkMutation` and `ensureCategory`
  pub ensured-Keeps :
      (fresh id : String) (req : LinkMutation)
      (change : LinkMutation → LinkCategory → Database → Outcome ManagedLink) (db : Database)
      → IsWellFormed env db
      → ((n : LinkMutation) (c : LinkCategory) (db : Database)
          → IsNormal env n
          → IsWellFormed env db
          → Known c db
          → Keeps (IsWellFormed env) Any (change n c db))
      → Keeps (IsWellFormed env) Any (
          and_then
            (normalize_link_mutation env req, db)
            (λ n db.
              and_then
                (ensure_category env fresh n.category_id n.category_name (pos 100) db)
                (change n)))
  ensured-Keeps fresh id req change db w f =
      Keeps-and_then (IsWellFormed env) (λ n _. IsNormal env n) Any
        (normalize_link_mutation env req, db) _
        (Keeps-read (IsWellFormed env) (λ n _. IsNormal env n) (normalize_link_mutation env req) db
          w (λ n e. (normalize_link_mutation-IsNormal env req n e).0))
        (λ n db w h.
          Keeps-and_then (IsWellFormed env) Known Any
            (ensure_category env fresh n.category_id n.category_name (pos 100) db) (change n)
            (ensure_category-Keeps fresh n.category_id n.category_name (pos 100) db w)
            (λ c db w k. f n c db h w k))
