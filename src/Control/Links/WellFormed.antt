-- ===== src/Control/Links/WellFormed.antt =====
-- The tables of backend/internal/control/store.go, when they are well formed.
use podman_manager.Prelude.{
  ℕ, String, Bool, true, false, not, ◌&&◌, ◌||◌, ◌≡◌, refl, List, [], ◌∷◌, ◌++◌, ◌==◌, arith,
  eq_iff, eq_refl, some, inl, inr, Bool-cases,
}
use podman_manager.Control.{LinkCategory, LinkRow, Database, Environment}
use podman_manager.Control.Mutation.{validate_http_url, is_target, is_role, icon_kind}
use podman_manager.Control.Mutation.Normal.{is_ok}
use podman_manager.Control.Tables.{
  category_by_id, category_by_name, same_codes, collides, collides_any, has_link, replace_rows,
  delete_rows,
}

unfoldable pub has_category : String → List LinkCategory → Bool
has_category id [] = false
has_category id (c ∷ cs) = c.id == id || has_category id cs

-- a title, an http or https URL with a host, a health URL of that kind or none, a target, a role, and
-- the kind of the icon
unfoldable pub is_sound : Environment → LinkRow → Bool
unfolding validate_http_url icon_kind
is_sound env r =
    not (r.title == "")
    && is_ok (validate_http_url env r.url)
    && (r.health_url == "" || is_ok (validate_http_url env r.health_url))
    && is_target r.target
    && is_role r.visibility_role
    && r.icon_kind == icon_kind env.lower_table r.icon

unfoldable pub are_sound : Environment → List LinkCategory → List LinkRow → Bool
are_sound env cats [] = true
are_sound env cats (r ∷ rs) =
    is_sound env r && has_category r.category_id cats && are_sound env cats rs

unfoldable pub are_distinct : List LinkRow → Bool
unfolding has_link
are_distinct [] = true
are_distinct (r ∷ rs) = not (has_link r.id rs) && are_distinct rs

-- no two categories share an id, a name or a slug
unfoldable pub are_apart : List LinkCategory → Bool
unfolding collides_any
are_apart [] = true
are_apart (c ∷ cs) = not (collides_any c cs) && are_apart cs

pub record IsWellFormed (env : Environment) (db : Database) : Type 0 where
  pub sound : are_sound env db.categories db.links ≡ true
  pub distinct : are_distinct db.links ≡ true
  pub apart : are_apart db.categories ≡ true

same_codes_comm : (cs ds : List ℕ) → same_codes cs ds ≡ same_codes ds cs
unfolding same_codes
same_codes_comm [] [] = refl
same_codes_comm [] (d ∷ ds) = refl
same_codes_comm (c ∷ cs) [] = refl
same_codes_comm (c ∷ cs) (d ∷ ds) = ground (arith, same_codes_comm cs ds)

collides_comm : (c d : LinkCategory) → collides c d ≡ collides d c
collides_comm c d = ground (
  arith,
  same_codes_comm c.slug d.slug,
  eq_iff c.id d.id,
  eq_iff d.id c.id,
  eq_iff c.name d.name,
  eq_iff d.name c.name,
)

module _ (c : LinkCategory) where
  collides_any_append :
      (d : LinkCategory) (cs : List LinkCategory)
      → collides_any d (cs ++ (c ∷ [])) ≡ (collides_any d cs || collides d c)
  unfolding collides_any
  collides_any_append d [] = ground arith
  collides_any_append d (e ∷ cs) = ground (arith, collides_any_append d cs)

  pub are_apart_append :
      (cs : List LinkCategory)
      → are_apart cs ≡ true
      → collides_any c cs ≡ false
      → are_apart (cs ++ (c ∷ [])) ≡ true
  unfolding are_apart collides_any
  are_apart_append [] h k = refl
  are_apart_append (d ∷ cs) h k =
      ground (arith, are_apart_append cs, collides_any_append d cs, collides_comm c d)

  pub has_category_append :
      (id : String) (cs : List LinkCategory)
      → has_category id (cs ++ (c ∷ [])) ≡ (has_category id cs || c.id == id)
  unfolding has_category
  has_category_append id [] = ground arith
  has_category_append id (d ∷ cs) = ground (arith, has_category_append id cs)

  pub are_sound_more :
      (env : Environment) (cs : List LinkCategory) (rs : List LinkRow)
      → are_sound env cs rs ≡ true
      → are_sound env (cs ++ (c ∷ [])) rs ≡ true
  unfolding are_sound
  are_sound_more env cs [] h = refl
  are_sound_more env cs (r ∷ rs) h =
      ground (arith, are_sound_more env cs rs, has_category_append r.category_id cs)

pub category_by_id_known :
    (id : String) (c : LinkCategory) (cs : List LinkCategory)
    → category_by_id id cs ≡ some c
    → (has_category c.id cs ≡ true) × (c.id ≡ id)
unfolding category_by_id has_category
category_by_id_known id c [] h = cc
category_by_id_known id c (d ∷ cs) h =
    ground (arith, category_by_id_known id c cs, eq_iff d.id id, eq_refl d.id)

pub category_by_name_known :
    (name : String) (c : LinkCategory) (cs : List LinkCategory)
    → category_by_name name cs ≡ some c
    → (has_category c.id cs ≡ true) × (c.name ≡ name)
unfolding category_by_name has_category
category_by_name_known name c [] h = cc
category_by_name_known name c (d ∷ cs) h =
    ground (arith, category_by_name_known name c cs, eq_iff d.name name, eq_refl d.id)

-- a category that is known is found
pub known_found :
    (id : String) (cs : List LinkCategory)
    → has_category id cs ≡ true
    → (c : LinkCategory) × (category_by_id id cs ≡ some c)
unfolding category_by_id has_category
known_found id [] h = cc
known_found id (c ∷ cs) h = elim (Bool-cases (c.id == id)) [
  | inl e ↦ (c, rw e refl)
  | inr e ↦ let (d, f) = known_found id cs (rw e at h) in (d, rw e f)
]

module _ (env : Environment) (cats : List LinkCategory) (r : LinkRow) where
  pub are_sound_append :
      (rs : List LinkRow)
      → are_sound env cats rs ≡ true
      → are_sound env cats (r ∷ []) ≡ true
      → are_sound env cats (rs ++ (r ∷ [])) ≡ true
  unfolding are_sound
  are_sound_append [] h k = k
  are_sound_append (s ∷ rs) h k = ground (arith, are_sound_append rs)

  pub are_sound_replace :
      (rs : List LinkRow)
      → are_sound env cats rs ≡ true
      → are_sound env cats (r ∷ []) ≡ true
      → are_sound env cats (replace_rows r rs) ≡ true
  unfolding are_sound replace_rows
  are_sound_replace [] h k = refl
  are_sound_replace (s ∷ rs) h k = ground (arith, are_sound_replace rs)

pub are_sound_delete :
    (env : Environment) (cats : List LinkCategory) (id : String) (rs : List LinkRow)
    → are_sound env cats rs ≡ true
    → are_sound env cats (delete_rows id rs) ≡ true
unfolding are_sound delete_rows
are_sound_delete env cats id [] h = refl
are_sound_delete env cats id (s ∷ rs) h = ground (arith, are_sound_delete env cats id rs)

module _ (r : LinkRow) where
  has_link_append :
      (id : String) (rs : List LinkRow)
      → has_link id (rs ++ (r ∷ [])) ≡ (has_link id rs || r.id == id)
  unfolding has_link
  has_link_append id [] = ground arith
  has_link_append id (s ∷ rs) = ground (arith, has_link_append id rs)

  pub are_distinct_append :
      (rs : List LinkRow)
      → are_distinct rs ≡ true
      → has_link r.id rs ≡ false
      → are_distinct (rs ++ (r ∷ [])) ≡ true
  unfolding are_distinct has_link
  are_distinct_append [] h k = refl
  are_distinct_append (s ∷ rs) h k =
      ground
        (arith, are_distinct_append rs, has_link_append s.id rs, eq_iff s.id r.id, eq_iff r.id s.id)

  pub has_link_replace :
      (id : String) (rs : List LinkRow) → has_link id (replace_rows r rs) ≡ has_link id rs
  unfolding has_link replace_rows
  has_link_replace id [] = refl
  has_link_replace id (s ∷ rs) =
      ground (arith, has_link_replace id rs, eq_iff s.id r.id, eq_iff s.id id, eq_iff r.id id)

  pub are_distinct_replace :
      (rs : List LinkRow) → are_distinct rs ≡ true → are_distinct (replace_rows r rs) ≡ true
  unfolding are_distinct replace_rows
  are_distinct_replace [] h = refl
  are_distinct_replace (s ∷ rs) h = ground (
    arith,
    are_distinct_replace rs,
    has_link_replace s.id rs,
    has_link_replace r.id rs,
    eq_iff s.id r.id,
  )

has_link_delete :
    (id j : String) (rs : List LinkRow)
    → has_link j rs ≡ false
    → has_link j (delete_rows id rs) ≡ false
unfolding has_link delete_rows
has_link_delete id j [] h = refl
has_link_delete id j (s ∷ rs) h = ground (arith, has_link_delete id j rs)

pub are_distinct_delete :
    (id : String) (rs : List LinkRow)
    → are_distinct rs ≡ true
    → are_distinct (delete_rows id rs) ≡ true
unfolding are_distinct delete_rows
are_distinct_delete id [] h = refl
are_distinct_delete id (s ∷ rs) h =
    ground (arith, are_distinct_delete id rs, has_link_delete id s.id rs)
