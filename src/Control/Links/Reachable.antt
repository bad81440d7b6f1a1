-- ===== src/Control/Links/Reachable.antt =====
-- Every operation of backend/internal/control/store.go leaves well-formed tables, also when it fails,
-- and so does every sequence of them.
use podman_manager.Prelude.{
  String, Bool, true, false, ◌&&◌, ◌≡◌, refl, sym, ◌∙◌, ap, List, [], ◌∷◌, ok, err, nat_eq, ◌==◌,
  if◌then◌else◌, inl, inr, Bool-cases,
}
use podman_manager.Control.{
  LinkCategory, ManagedLink, LinkMutation, LinkRow, Database, Environment, Statement,
  delete_link_row,
}
use podman_manager.Control.Mutation.{normalize_link_mutation}
use podman_manager.Control.Tables.{delete_rows}
use podman_manager.Control.Links.{
  Outcome, succeed, and_then, affected, insert_new, create_link, update_row, update_link,
  find_link_by_title_url, delete_link, upsert_imported_link,
}
use podman_manager.Control.Links.WellFormed.{
  has_category, is_sound, are_sound, IsWellFormed, are_sound_delete, are_distinct_delete,
}
use podman_manager.Control.Links.Keeps.{
  Keeps, Keeps-and_then, Keeps-read, Any, insert_new-Keeps, update_row-Keeps, ensured-Keeps,
}

module _ (env : Environment) where
  pub create_link-Keeps :
      (fresh id : String) (req : LinkMutation) (db : Database)
      → IsWellFormed env db
      → Keeps (IsWellFormed env) Any (create_link env fresh id req db)
  unfolding create_link
  create_link-Keeps fresh id req db w =
      ensured-Keeps env fresh id req (insert_new env id) db w (insert_new-Keeps env id)

  pub update_link-Keeps :
      (fresh id : String) (req : LinkMutation) (db : Database)
      → IsWellFormed env db
      → Keeps (IsWellFormed env) Any (update_link env fresh id req db)
  unfolding update_link
  update_link-Keeps fresh id req db w =
      ensured-Keeps env fresh id req (update_row env id) db w (update_row-Keeps env id)

  pub delete_link-Keeps :
      (id : String) (db : Database)
      → IsWellFormed env db
      → Keeps (IsWellFormed env) Any (delete_link env id db)
  unfolding delete_link
  delete_link-Keeps id db w =
      let after = record db { links = delete_rows id db.links } in
      let kept : IsWellFormed env after = record {
        sound = are_sound_delete env db.categories id db.links w.sound;
        distinct = are_distinct_delete id db.links w.distinct;
        apart = w.apart;
      } in
      elim (Bool-cases (env.fault delete_link_row)) [
        | inl e ↦ rw e w
        | inr e ↦ elim (Bool-cases (nat_eq (affected env id db) 0)) [
          | inl g ↦ rw (e, g) kept
          | inr g ↦ rw (e, g) (kept, tt)
        ]
      ]

  upserted-Keeps :
      (fresh id existing : String) (n : LinkMutation) (db : Database)
      → IsWellFormed env db
      → Keeps (IsWellFormed env) {A = ManagedLink × Bool} Any (
          if existing == ""
          then and_then (create_link env fresh id n db) (λ link db. succeed (link, true) db)
          else and_then (update_link env fresh existing n db) (λ link db. succeed (link, false) db))
  upserted-Keeps fresh id existing n db w = elim (Bool-cases (existing == "")) [
    | inl e ↦ rw e (
        Keeps-and_then (IsWellFormed env) Any Any (create_link env fresh id n db) _
          (create_link-Keeps fresh id n db w) (λ _ _ p _. (p, tt)))
    | inr e ↦ rw e (
        Keeps-and_then (IsWellFormed env) Any Any (update_link env fresh existing n db) _
          (update_link-Keeps fresh existing n db w) (λ _ _ p _. (p, tt)))
  ]

  pub upsert-Keeps :
      (fresh id : String) (req : LinkMutation) (db : Database)
      → IsWellFormed env db
      → Keeps (IsWellFormed env) Any (upsert_imported_link env fresh id req db)
  unfolding upsert_imported_link
  upsert-Keeps fresh id req db w =
      let P = IsWellFormed env in
      Keeps-and_then P Any Any (normalize_link_mutation env req, db) _
        (Keeps-read P Any (normalize_link_mutation env req) db w (λ _ _. tt))
        (λ n db w _.
          Keeps-and_then P Any Any (find_link_by_title_url env n.title n.url db, db) _
            (Keeps-read P Any (find_link_by_title_url env n.title n.url db) db w (λ _ _. tt))
            (λ existing db w _. upserted-Keeps fresh id existing n db w))

-- A call of the store. What the engine fails on may differ from call to call.
pub data Operation : Type 0 where
  create update upsert : String → String → LinkMutation → Operation
  delete : String → Operation

unfoldable pub step : Environment → Operation → Database → Database
unfolding create_link update_link upsert_imported_link delete_link
step env (create fresh id req) db = (create_link env fresh id req db).1
step env (update fresh id req) db = (update_link env fresh id req db).1
step env (upsert fresh id req) db = (upsert_imported_link env fresh id req db).1
step env (delete id) db = (delete_link env id db).1

abbrev pub with_fault : Environment → (Statement → Bool) → Environment
with_fault env fault = record env { fault = fault }

unfoldable pub run : Environment → List ((Statement → Bool) × Operation) → Database → Database
unfolding step
run env [] db = db
run env ((fault, op) ∷ ops) db = run env ops (step (with_fault env fault) op db)

abbrev pub new_database : Database
new_database = record { categories = []; links = []; audits = [] }

are_sound-with_fault :
    (env : Environment) (fault : Statement → Bool) (cats : List LinkCategory) (rs : List LinkRow)
    → are_sound (with_fault env fault) cats rs ≡ are_sound env cats rs
unfolding are_sound is_sound
are_sound-with_fault env fault cats [] = refl
are_sound-with_fault env fault cats (r ∷ rs) =
    ap (λ b. is_sound env r && has_category r.category_id cats && b)
      (are_sound-with_fault env fault cats rs)

with_fault-IsWellFormed :
    (env : Environment) (fault : Statement → Bool) (db : Database)
    → IsWellFormed env db
    → IsWellFormed (with_fault env fault) db
with_fault-IsWellFormed env fault db w = record {
  sound = are_sound-with_fault env fault db.categories db.links ∙ w.sound;
  distinct = w.distinct;
  apart = w.apart;
}

without_fault-IsWellFormed :
    (env : Environment) (fault : Statement → Bool) (db : Database)
    → IsWellFormed (with_fault env fault) db
    → IsWellFormed env db
without_fault-IsWellFormed env fault db w = record {
  sound = sym (are_sound-with_fault env fault db.categories db.links) ∙ w.sound;
  distinct = w.distinct;
  apart = w.apart;
}

pub kept {ℓ} : (P : Database → Type 0) {A : Type ℓ} (o : Outcome A) → Keeps P Any o → P o.1
kept P (ok a, db) (p, _) = p
kept P (err e, db) p = p

step-IsWellFormed :
    (env : Environment) (op : Operation) (db : Database)
    → IsWellFormed env db
    → IsWellFormed env (step env op db)
unfolding step
step-IsWellFormed env (create fresh id req) db w =
    kept (IsWellFormed env) _ (create_link-Keeps env fresh id req db w)
step-IsWellFormed env (update fresh id req) db w =
    kept (IsWellFormed env) _ (update_link-Keeps env fresh id req db w)
step-IsWellFormed env (upsert fresh id req) db w =
    kept (IsWellFormed env) _ (upsert-Keeps env fresh id req db w)
step-IsWellFormed env (delete id) db w = kept (IsWellFormed env) _ (delete_link-Keeps env id db w)

-- Any sequence of creations, updates, imports and deletions, whichever of their statements fail, leaves
-- tables that are well formed if they were so before: each link has a title, an http or https URL with
-- a host, one of the targets, one of the roles and a category that is there, the ids of the links
-- differ, and no two categories share an id, a name or a slug.
pub run-IsWellFormed :
    (env : Environment) (ops : List ((Statement → Bool) × Operation)) (db : Database)
    → IsWellFormed env db
    → IsWellFormed env (run env ops db)
unfolding run
run-IsWellFormed env [] db w = w
run-IsWellFormed env ((fault, op) ∷ ops) db w =
    let e = with_fault env fault in
    let after = step e op db in
    run-IsWellFormed env ops after (
      without_fault-IsWellFormed env fault after
        (step-IsWellFormed e op db (with_fault-IsWellFormed env fault db w)))
