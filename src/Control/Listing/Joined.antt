-- ===== src/Control/Listing/Joined.antt =====
-- What the query of `ListLinks` of backend/internal/control/store.go gives of well-formed tables.
use podman_manager.Prelude.{
  ℕ, suc, Option, Bool, true, false, not, ◌≡◌, refl, sym, ap, ◌∙◌, none, some, List, [], ◌∷◌, ◌==◌,
  ◌&&◌, if◌then◌else◌, arith, eq_refl, Option-cases, inl, inr,
}
use podman_manager.Control.{LinkCategory, ManagedLink, LinkRow, Environment}
use podman_manager.Control.Tables.{join_all, more_links, joined, with_category, category_by_id}
use podman_manager.Control.Links.WellFormed.{has_category, is_sound, are_sound, known_found}

-- how many entries of a list pass a test
unfoldable pub count_where : {A : Type 0} → (A → Bool) → List A → ℕ
count_where p [] = 0
count_where p (x ∷ xs) = let n = count_where p xs in if p x then suc n else n

and_left : (a b : Bool) → (a && b) ≡ true → a ≡ true
and_left true b h = refl
and_left false b h = cc

and_right : (a b : Bool) → (a && b) ≡ true → b ≡ true
and_right true b h = h
and_right false b h = cc

joined_known :
    (cats : List LinkCategory) (r : LinkRow)
    → has_category r.category_id cats ≡ true
    → (l : ManagedLink) × (joined cats r ≡ some l)
unfolding joined
joined_known cats r k =
    let (c, e) = known_found r.category_id cats k in (with_category c r, rw (e, joined) refl)

join_all_more :
    (cats : List LinkCategory) (r : LinkRow) (rs : List LinkRow) (l : ManagedLink)
    → joined cats r ≡ some l
    → join_all cats (r ∷ rs) ≡ l ∷ join_all cats rs
unfolding join_all
join_all_more cats r rs l j = ap (λ o. more_links o (join_all cats rs)) j

-- the row that a link stands for
abbrev pub row_behind : ManagedLink → LinkRow
row_behind l = record {
  id = l.id;
  category_id = l.category_id;
  title = l.title;
  url = l.url;
  description = l.description;
  icon = l.icon;
  icon_kind = l.icon_kind;
  target = l.target;
  visibility_role = l.visibility_role;
  health_url = l.health_url;
  sort_order = l.sort_order;
  status = l.status;
  source = l.source;
}

-- the name of a link's category is not that of the row with its ID
unfoldable pub is_misnamed : List LinkCategory → ManagedLink → Bool
unfolding category_by_id
is_misnamed cats l = elim (category_by_id l.category_id cats) [
  | none ↦ true
  | some c ↦ not (c.name == l.category_name)
]

abbrev behind : LinkRow → Option ManagedLink → LinkRow
behind r none = r
behind r (some l) = row_behind l

abbrev misnamed : List LinkCategory → Option ManagedLink → Bool
misnamed cats none = false
misnamed cats (some l) = is_misnamed cats l

joined_row :
    (cats : List LinkCategory) (r : LinkRow) (l : ManagedLink)
    → joined cats r ≡ some l
    → row_behind l ≡ r
unfolding joined with_category
joined_row cats r l h = elim (Option-cases (category_by_id r.category_id cats)) [
  | inl e ↦ let j = rw (e, joined) at h in cc
  | inr (c, e) ↦ let j = rw (e, joined) at h in ap (λ o. behind r o) (sym j)
]

pub joined_named :
    (cats : List LinkCategory) (r : LinkRow) (l : ManagedLink)
    → joined cats r ≡ some l
    → is_misnamed cats l ≡ false
unfolding joined with_category is_misnamed
joined_named cats r l h = elim (Option-cases (category_by_id r.category_id cats)) [
  | inl e ↦ let j = rw (e, joined) at h in cc
  | inr (c, e) ↦
      let j = rw (e, joined) at h in
      let named : is_misnamed cats (with_category c r) ≡ false =
        rw (e, is_misnamed) (rw eq_refl refl) in
      ap (λ o. misnamed cats o) (sym j) ∙ named
]

-- of well-formed tables, the join has no link that a joined row cannot give
pub join_all_without :
    (env : Environment) (cats : List LinkCategory) (p : ManagedLink → Bool) (rs : List LinkRow)
    → ((r : LinkRow) (l : ManagedLink)
        → has_category r.category_id cats ≡ true
        → joined cats r ≡ some l
        → p l ≡ false)
    → are_sound env cats rs ≡ true
    → count_where p (join_all cats rs) ≡ 0
unfolding count_where are_sound join_all
join_all_without env cats p [] never h = refl
join_all_without env cats p (r ∷ rs) never h =
    let head = is_sound env r && has_category r.category_id cats in
    let known =
      and_right (is_sound env r) (has_category r.category_id cats)
        (and_left head (are_sound env cats rs) h) in
    let rest = and_right head (are_sound env cats rs) h in
    let (l, j) = joined_known cats r known in
    rw (join_all_more cats r rs l j, count_where)
      (rw (never r l known j) (join_all_without env cats p rs never rest))

-- of well-formed tables, the join has each row of the links as often as the table
pub join_all_rows :
    (env : Environment) (cats : List LinkCategory) (q : LinkRow → Bool) (rs : List LinkRow)
    → are_sound env cats rs ≡ true
    → count_where (λ l. q (row_behind l)) (join_all cats rs) ≡ count_where q rs
unfolding count_where are_sound join_all
join_all_rows env cats q [] h = refl
join_all_rows env cats q (r ∷ rs) h =
    let head = is_sound env r && has_category r.category_id cats in
    let known =
      and_right (is_sound env r) (has_category r.category_id cats)
        (and_left head (are_sound env cats rs) h) in
    let rest = and_right head (are_sound env cats rs) h in
    let (l, j) = joined_known cats r known in
    let more = join_all_rows env cats q rs rest in
    let behind = ap q (joined_row cats r l j) in
    rw (join_all_more cats r rs l j, count_where) (rw behind (ground (arith, more)))
