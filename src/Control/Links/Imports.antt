-- ===== src/Control/Links/Imports.antt =====
-- A link that backend/internal/control/store.go imports twice is there once.
use podman_manager.Prelude.{
  ℕ, String, Bool, true, false, ◌≡◌, refl, sym, ap, ◌∙◌, List, [], ◌∷◌, ◌++◌, Result, ok, err, ◌==◌,
  if◌then◌else◌, arith, eq_refl, inl, inr, Bool-cases, pos, ◌>>◌,
}
use podman_manager.Control.{
  ManagedLink, LinkMutation, LinkRow, Database, Statement, Environment, Error, find_link,
}
use podman_manager.Control.Mutation.{
  normalize_link_mutation, check_texts, check_health_url, validate_http_url,
}
use podman_manager.Control.Mutation.Normal.{ok_injective, normalize_link_mutation-IsNormal}
use podman_manager.Control.Tables.{
  run_statement, has_link, replace_rows, length_of, id_by_title_url,
}
use podman_manager.Control.Links.{
  Outcome, succeed, and_then, ensure_category, row_of, create_link, update_row, update_link,
  find_link_by_title_url, upsert_imported_link,
}
use podman_manager.Control.Links.Outcomes.{
  and_then_inv, ensured, update_row_inv, update_row_length, ensure_category_links,
  create_link_returned,
}

module _ (r : LinkRow) (nonempty : (r.id == "") ≡ false) where
  found_append :
      (rs : List LinkRow)
      → has_link "" rs ≡ false
      → (id_by_title_url r.title r.url (rs ++ (r ∷ [])) == "") ≡ false
  unfolding id_by_title_url has_link
  found_append [] h = ground (arith, eq_refl r.title, eq_refl r.url)
  found_append (s ∷ rs) h = ground (arith, found_append rs)

  found_replace :
      (rs : List LinkRow)
      → has_link "" rs ≡ false
      → has_link r.id rs ≡ true
      → (id_by_title_url r.title r.url (replace_rows r rs) == "") ≡ false
  unfolding id_by_title_url has_link replace_rows
  found_replace [] h k = cc
  found_replace (s ∷ rs) h k = ground (arith, found_replace rs, eq_refl r.title, eq_refl r.url)

found_has :
    (title url : String) (rs : List LinkRow)
    → (id_by_title_url title url rs == "") ≡ false
    → has_link (id_by_title_url title url rs) rs ≡ true
unfolding id_by_title_url has_link
found_has title url [] h = cc
found_has title url (s ∷ rs) h = ground (arith, found_has title url rs, eq_refl s.id)

update_link_found :
    (env : Environment) (fresh existing : String) (n : LinkMutation) (db after : Database)
    (l : ManagedLink)
    → normalize_link_mutation env n ≡ ok n
    → (existing == "") ≡ false
    → has_link "" db.links ≡ false
    → has_link existing db.links ≡ true
    → update_link env fresh existing n db ≡ (ok l, after)
    → (id_by_title_url n.title n.url after.links == "") ≡ false
unfolding update_link row_of
update_link_found env fresh existing n db after l e ne h k u =
    let s = ensured env fresh n db (update_row env existing) l after u in
    let r = row_of env existing s.category s.mutation in
    let same = ok_injective (sym s.is_normalized ∙ e) in
    let rows =
      update_row_inv env existing s.mutation s.category s.between after l s.is_changed
      ∙ ap (replace_rows r) s.links in
    let found = found_replace r ne db.links h k in
    ap (λ n. id_by_title_url n.title n.url after.links == "") (sym same)
    ∙ ap (λ rs. id_by_title_url r.title r.url rs == "") rows
    ∙ found

create_link_found :
    (env : Environment) (fresh id : String) (n : LinkMutation) (db after : Database)
    (l : ManagedLink)
    → normalize_link_mutation env n ≡ ok n
    → (id == "") ≡ false
    → has_link "" db.links ≡ false
    → create_link env fresh id n db ≡ (ok l, after)
    → (id_by_title_url n.title n.url after.links == "") ≡ false
create_link_found env fresh id n db after l e ne h c =
    let (m, r, m_of, rows, i, t, u, _, _) = create_link_returned env fresh id n db after l c in
    let same = ok_injective (sym m_of ∙ e) in
    let found = found_append r (ap (λ x. x == "") i ∙ ne) db.links h in
    ap (λ t. id_by_title_url t n.url after.links == "") (sym (t ∙ ap (λ n. n.title) same))
    ∙ ap (λ u. id_by_title_url r.title u after.links == "") (sym (u ∙ ap (λ n. n.url) same))
    ∙ ap (λ rs. id_by_title_url r.title r.url rs == "") rows
    ∙ found

and_then_length {ℓ κ} :
    {A : Type ℓ} {B : Type κ} (m : Outcome A) (k : A → Database → Outcome B) (n : ℕ)
    → length_of m.1.links ≡ n
    → ((a : A) (db : Database) → length_of db.links ≡ n → length_of (k a db).1.links ≡ n)
    → length_of (and_then m k).1.links ≡ n
and_then_length (ok a, db) k n h f = f a db h
and_then_length (err e, db) k n h f = h

update_link_length :
    (env : Environment) (fresh id : String) (req : LinkMutation) (db : Database)
    → length_of (update_link env fresh id req db).1.links ≡ length_of db.links
unfolding update_link
update_link_length env fresh id req db =
    and_then_length (normalize_link_mutation env req, db)
      (λ n db.
        and_then (ensure_category env fresh n.category_id n.category_name (pos 100) db)
          (update_row env id n))
      (length_of db.links) refl
      (λ n db1 h.
        and_then_length (ensure_category env fresh n.category_id n.category_name (pos 100) db1)
          (update_row env id n) (length_of db.links)
          (ap length_of
              (ensure_category_links env fresh n.category_id n.category_name (pos 100) db1)
            ∙ h)
          (λ c db2 h. update_row_length env id n c db2 ∙ h))

abbrev flagged : Bool → ManagedLink → Database → Outcome (ManagedLink × Bool)
flagged b link db = succeed (link, b) db

-- the part of `UpsertImportedLink` behind the search
abbrev upsert_at :
    Environment → String → String → LinkMutation → String → Database → Outcome (ManagedLink × Bool)
upsert_at env fresh id n existing db =
    if existing == ""
    then and_then (create_link env fresh id n db) (flagged true)
    else and_then (update_link env fresh existing n db) (flagged false)

read_after : (m : Result Error (Unit {0})) (a x : String) → m >> ok a ≡ ok x → a ≡ x
read_after (ok _) a x h = ok_injective h
read_after (err e) a x h = cc

upsert_inv :
    (env : Environment) (fresh id : String) (req : LinkMutation) (db after : Database)
    (l : ManagedLink × Bool)
    → upsert_imported_link env fresh id req db ≡ (ok l, after)
    → (n : LinkMutation) × (normalize_link_mutation env req ≡ ok n)
      × (upsert_at env fresh id n (id_by_title_url n.title n.url db.links) db ≡ (ok l, after))
unfolding upsert_imported_link find_link_by_title_url
upsert_inv env fresh id req db after l h =
    let (n, db1, e1, h1) = and_then_inv (normalize_link_mutation env req, db) _ l after h in
    let (x, db2, e2, h2) =
      and_then_inv (find_link_by_title_url env n.title n.url db1, db1) (upsert_at env fresh id n) l
        after h1 in
    let d1 = ap (λ o. o.1) e1 in
    let d2 = d1 ∙ ap (λ o. o.1) e2 in
    let f =
      read_after (run_statement env find_link) (id_by_title_url n.title n.url db1.links) x
        (ap (λ o. o.0) e2) in
    (
      n,
      ap (λ o. o.0) e1,
      ap (λ d. upsert_at env fresh id n (id_by_title_url n.title n.url d.links) db) d1
          ∙ ap (λ i. upsert_at env fresh id n i db) f
          ∙ ap (upsert_at env fresh id n x) d2
          ∙ h2,
    )

-- after an import, a search for its title and URL finds a link
upsert_found :
    (env : Environment) (fresh id : String) (n : LinkMutation) (db after : Database)
    (l : ManagedLink × Bool)
    → normalize_link_mutation env n ≡ ok n
    → (id == "") ≡ false
    → has_link "" db.links ≡ false
    → upsert_at env fresh id n (id_by_title_url n.title n.url db.links) db ≡ (ok l, after)
    → (id_by_title_url n.title n.url after.links == "") ≡ false
upsert_found env fresh id n db after l e ne h u =
    let existing = id_by_title_url n.title n.url db.links in
    elim (Bool-cases (existing == "")) [
      | inl b ↦
          let v = rw b at u in
          let (link, db1, c, s) =
            and_then_inv (create_link env fresh id n db) (flagged true) l after v in
          ap (λ o. id_by_title_url n.title n.url o.1.links == "") (sym s)
          ∙ create_link_found env fresh id n db db1 link e ne h c
      | inr b ↦
          let v = rw b at u in
          let (link, db1, c, s) =
            and_then_inv (update_link env fresh existing n db) (flagged false) l after v in
          ap (λ o. id_by_title_url n.title n.url o.1.links == "") (sym s)
          ∙ update_link_found env fresh existing n db db1 link e b h
              (found_has n.title n.url db.links b) c
    ]

upsert_at_existing :
    (env : Environment) (fresh id existing : String) (n : LinkMutation) (db : Database)
    → (existing == "") ≡ false
    → (length_of (upsert_at env fresh id n existing db).1.links ≡ length_of db.links)
      × ((o : ManagedLink × Bool) → (upsert_at env fresh id n existing db).0 ≡ ok o → o.1 ≡ false)
upsert_at_existing env fresh id existing n db b = rw b (
  and_then_length (update_link env fresh existing n db) (flagged false) (length_of db.links)
      (update_link_length env fresh existing n db) (λ _ _ h. h),
  λ o h. flag_of (update_link env fresh existing n db) o h,
)
  where
    flag_of :
        (m : Outcome ManagedLink) (o : ManagedLink × Bool)
        → (and_then m (flagged false)).0 ≡ ok o
        → o.1 ≡ false
    flag_of (ok link, db) o h = sym (ap (λ o. o.1) (ok_injective h))
    flag_of (err e, db) o h = cc

-- an import of a link that is there
upsert_known :
    (env : Environment) (fresh id : String) (req n : LinkMutation) (db : Database)
    → normalize_link_mutation env req ≡ ok n
    → (id_by_title_url n.title n.url db.links == "") ≡ false
    → (length_of (upsert_imported_link env fresh id req db).1.links ≡ length_of db.links)
      × ((o : ManagedLink × Bool)
          → (upsert_imported_link env fresh id req db).0 ≡ ok o
          → o.1 ≡ false)
unfolding upsert_imported_link find_link_by_title_url
upsert_known env fresh id req n db e b = elim (Bool-cases (env.fault find_link)) [
  | inl f ↦ rw (e, f) (refl, λ o h. cc)
  | inr f ↦
      rw (e, f) (upsert_at_existing env fresh id (id_by_title_url n.title n.url db.links) n db b)
]

normalize_with_fault :
    (env : Environment) (fault : Statement → Bool) (req : LinkMutation)
    → normalize_link_mutation (record env { fault = fault }) req ≡ normalize_link_mutation env req
unfolding normalize_link_mutation check_texts check_health_url validate_http_url
normalize_with_fault env fault req = refl

-- After an import that succeeded, with ids that are not empty, importing the same request again adds no
-- link, whatever fails then, and reports no creation.
pub upsert_imported_link_again :
    (env : Environment) (fault : Statement → Bool) (fresh id fresh_again id_again : String)
    (req : LinkMutation) (db after : Database) (l : ManagedLink × Bool)
    → (id == "") ≡ false
    → has_link "" db.links ≡ false
    → upsert_imported_link env fresh id req db ≡ (ok l, after)
    → let again =
        upsert_imported_link (record env { fault = fault }) fresh_again id_again req after in
      (length_of again.1.links ≡ length_of after.links)
      × ((o : ManagedLink × Bool) → again.0 ≡ ok o → o.1 ≡ false)
upsert_imported_link_again env fault fresh id fresh_again id_again req db after l ne h u =
    let (n, e, v) = upsert_inv env fresh id req db after l u in
    let normal = (normalize_link_mutation-IsNormal env req n e).1 in
    let there = upsert_found env fresh id n db after l normal ne h v in
    upsert_known (record env { fault = fault }) fresh_again id_again req n after
      (normalize_with_fault env fault req ∙ e) there
