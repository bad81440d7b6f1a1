-- ===== src/Control/Listing/Groups.antt =====
-- The groups of the links of backend/internal/control/store.go.
use podman_manager.Prelude.{
  suc, ◌+◌, String, Option, Bool, true, false, not, ◌≡◌, refl, sym, ap, ◌∙◌, none, some, List, [],
  ◌∷◌, ◌++◌, Map, lookup, put, lookup-put, Result, ok, err, ◌>>◌, nat_eq, ◌==◌, if◌then◌else◌,
  arith, eq_iff, Bool-cases, Option-cases, inl, inr,
}
use podman_manager.Control.{
  LinkCategory, ManagedLink, LinkRow, LinkGroup, LinksResponse, Database, Environment, Error,
  select_links, select_categories,
}
use podman_manager.Control.Tables.{
  run_statement, join_all, joined, with_category, category_by_id, collides_any,
}
use podman_manager.Control.Mutation.Normal.{ok_injective}
use podman_manager.Control.Links.WellFormed.{has_category, are_sound, are_apart, IsWellFormed}
use podman_manager.Control.Listing.Joined.{
  count_where, row_behind, is_misnamed, join_all_without, join_all_rows, joined_named,
}
use podman_manager.Control.Listing.{
  links_at, collect, groups_from, build_links_response, Ordering, list_links,
}

-- the links of a category, in the order in which they come
unfoldable pub links_of : String → List ManagedLink → List ManagedLink
links_of id [] = []
links_of id (l ∷ ls) = let rest = links_of id ls in if l.category_id == id then l ∷ rest else rest

unfoldable pub groups_of : List ManagedLink → List LinkCategory → List LinkGroup
unfolding links_of
groups_of ls [] = []
groups_of ls (c ∷ cs) = record { category = c; links = links_of c.id ls } ∷ groups_of ls cs

unfoldable pub all_links : List LinkGroup → List ManagedLink
all_links [] = []
all_links (g ∷ gs) = g.links ++ all_links gs

append_assoc : (xs ys zs : List ManagedLink) → (xs ++ ys) ++ zs ≡ xs ++ (ys ++ zs)
append_assoc [] ys zs = refl
append_assoc (x ∷ xs) ys zs = ap (λ r. x ∷ r) (append_assoc xs ys zs)

append_nil : (xs : List ManagedLink) → xs ++ [] ≡ xs
append_nil [] = refl
append_nil (x ∷ xs) = ap (λ r. x ∷ r) (append_nil xs)

eq_of : (s t : String) → (s == t) ≡ true → s ≡ t
eq_of s t h = ground (arith, eq_iff s t)

links_at-put :
    (k j : String) (ls : List ManagedLink) (m : Map (List ManagedLink))
    → links_at j (put k ls m) ≡ (if k == j then ls else links_at j m)
links_at-put k j ls m =
    rw (lookup-put k j ls m, links_at)
      (elim (Bool-cases (k == j)) [ inl e ↦ rw e refl | inr e ↦ rw e refl ])

links_at-collect :
    (id : String) (ls : List ManagedLink) (m : Map (List ManagedLink))
    → links_at id (collect ls m) ≡ links_at id m ++ links_of id ls
unfolding collect links_of
links_at-collect id [] m = sym (append_nil (links_at id m))
links_at-collect id (l ∷ ls) m =
    let k = l.category_id in
    links_at-collect id ls (put k (links_at k m ++ (l ∷ [])) m)
    ∙ ap (λ r. r ++ links_of id ls) (links_at-put k id (links_at k m ++ (l ∷ [])) m)
    ∙ elim (Bool-cases (k == id)) [
      | inl e ↦
          let same = ap (λ k. links_at k m ++ (l ∷ [])) (eq_of k id e) in
          rw e (
            ap (λ r. r ++ links_of id ls) same
            ∙ append_assoc (links_at id m) (l ∷ []) (links_of id ls))
      | inr e ↦ rw e refl
    ]

groups_from-collect :
    (ls : List ManagedLink) (cs : List LinkCategory)
    → groups_from (collect ls []) cs ≡ groups_of ls cs
unfolding groups_from groups_of lookup
groups_from-collect ls [] = refl
groups_from-collect ls (c ∷ cs) = λ i.
    record { category = c; links = links_at-collect c.id ls [] i } ∷ groups_from-collect ls cs i

count_append :
    (p : ManagedLink → Bool) (xs ys : List ManagedLink)
    → count_where p (xs ++ ys) ≡ count_where p xs + count_where p ys
unfolding count_where
count_append p [] ys = ground arith
count_append p (x ∷ xs) ys = ground (arith, count_append p xs ys)

abbrev has_id : String → LinkCategory → Bool
has_id id c = c.id == id

-- no category has the link, or several have it
unfoldable is_astray : List LinkCategory → ManagedLink → Bool
unfolding count_where
is_astray cs l = not (nat_eq (count_where (has_id l.category_id) cs) 1)

module _ (p : ManagedLink → Bool) where
  count_none : (cs : List LinkCategory) → count_where p (all_links (groups_of [] cs)) ≡ 0
  unfolding count_where all_links groups_of links_of
  count_none [] = refl
  count_none (c ∷ cs) = count_none cs

  -- a link is in the groups as often as its category is among the categories
  count_more :
      (l : ManagedLink) (ls : List ManagedLink) (cs : List LinkCategory)
      → count_where p (all_links (groups_of (l ∷ ls) cs))
        ≡ count_where p (all_links (groups_of ls cs))
          + (if p l then count_where (has_id l.category_id) cs else 0)
  unfolding count_where all_links groups_of links_of
  count_more l ls [] = ground arith
  count_more l ls (c ∷ cs) =
      let first = links_of c.id ls in
      ground (
        arith,
        count_more l ls cs,
        count_append p first (all_links (groups_of (l ∷ ls) cs)),
        count_append p first (all_links (groups_of ls cs)),
        eq_iff l.category_id c.id,
        eq_iff c.id l.category_id,
      )

  count_all :
      (ls : List ManagedLink) (cs : List LinkCategory)
      → count_where (is_astray cs) ls ≡ 0
      → count_where p (all_links (groups_of ls cs)) ≡ count_where p ls
  unfolding count_where is_astray
  count_all [] cs h = count_none cs
  count_all (l ∷ ls) cs h = ground (arith, count_all ls cs, count_more l ls cs)

none_collides :
    (c : LinkCategory) (cs : List LinkCategory)
    → collides_any c cs ≡ false
    → count_where (has_id c.id) cs ≡ 0
unfolding collides_any count_where
none_collides c [] h = refl
none_collides c (d ∷ cs) h = ground (arith, none_collides c cs)

-- an id that is among those of categories that are apart is there once
once :
    (id : String) (cs : List LinkCategory)
    → are_apart cs ≡ true
    → has_category id cs ≡ true
    → count_where (has_id id) cs ≡ 1
unfolding are_apart has_category count_where
once id [] h k = cc
once id (c ∷ cs) h k = elim (Bool-cases (c.id == id)) [
  | inl e ↦
      let zero_more =
        ap (λ i. count_where (has_id i) cs) (sym (eq_of c.id id e))
        ∙ none_collides c cs (ground (arith)) in
      rw e (ap suc zero_more)
  | inr e ↦ rw e (once id cs (ground (arith)) (rw e at k))
]

abbrev category_of : Option ManagedLink → String
category_of none = ""
category_of (some l) = l.category_id

joined_astray :
    (cats : List LinkCategory) (r : LinkRow) (l : ManagedLink)
    → are_apart cats ≡ true
    → has_category r.category_id cats ≡ true
    → joined cats r ≡ some l
    → is_astray cats l ≡ false
unfolding joined with_category is_astray
joined_astray cats r l a k h = elim (Option-cases (category_by_id r.category_id cats)) [
  | inl e ↦ let j = rw (e, joined) at h in cc
  | inr (c, e) ↦
      let j = rw (e, joined) at h in
      let same = ap (λ o. category_of o) j in
      ap (λ id. not (nat_eq (count_where (has_id id) cats) 1)) (sym same)
      ∙ ap (λ n. not (nat_eq n 1)) (once r.category_id cats a k)
]

-- the join of well-formed tables has no link whose category is not among them once
join_all_astray :
    (env : Environment) (cats : List LinkCategory) (rs : List LinkRow)
    → are_apart cats ≡ true
    → are_sound env cats rs ≡ true
    → count_where (is_astray cats) (join_all cats rs) ≡ 0
join_all_astray env cats rs a h =
    join_all_without env cats (is_astray cats) rs (λ r l k j. joined_astray cats r l a k j) h

-- ORDER BY gives the rows that there are, in some order
pub record IsOrdering (order : Ordering) : Type 0 where
  pub categories :
      (p : LinkCategory → Bool) (cs : List LinkCategory)
      → count_where p (order.categories_by cs) ≡ count_where p cs
  pub links :
      (p : ManagedLink → Bool) (ls : List ManagedLink)
      → count_where p (order.links_by ls) ≡ count_where p ls

after_reads : (m n : Result Error (Unit {0})) (a b : LinksResponse) → m >> n >> ok a ≡ ok b → a ≡ b
after_reads (ok _) (ok _) a b h = ok_injective h
after_reads (ok _) (err e) a b h = cc
after_reads (err e) n a b h = cc

-- With well-formed tables, and an ORDER BY that gives each row once, a listing that succeeds has each
-- row of the tables of categories and of links exactly as often as the table, each link with the name of
-- its category; and one group for each category, with the links of that category in the order of the
-- listing, so that each link is in the groups as often as in the listing.
pub list_links_groups :
    (env : Environment) (order : Ordering) (db : Database) (response : LinksResponse)
    (q : LinkRow → Bool) (c : LinkCategory → Bool) (p : ManagedLink → Bool)
    → IsWellFormed env db
    → IsOrdering order
    → list_links env order db ≡ ok response
    → (count_where (λ l. q (row_behind l)) response.links ≡ count_where q db.links)
      × (count_where (is_misnamed db.categories) response.links ≡ 0)
      × (count_where c response.categories ≡ count_where c db.categories)
      × (response.groups ≡ groups_of response.links response.categories)
      × (count_where p (all_links response.groups) ≡ count_where p response.links)
unfolding list_links build_links_response is_astray
list_links_groups env order db response q c p w o h =
    let cats = order.categories_by db.categories in
    let joined = join_all db.categories db.links in
    let links = order.links_by joined in
    let same =
      after_reads (run_statement env select_categories) (run_statement env select_links)
        (build_links_response cats links) response h in
    let grouped = groups_from-collect links cats in
    let none_astray : count_where (is_astray cats) links ≡ 0 =
      ap (λ t. count_where t links)
        (λ i l. not (nat_eq (o.categories (has_id l.category_id) db.categories i) 1))
      ∙ o.links (is_astray db.categories) joined
      ∙ join_all_astray env db.categories db.links w.apart w.sound in
    (
      ap (λ r. count_where (λ l. q (row_behind l)) r.links) (sym same)
          ∙ o.links (λ l. q (row_behind l)) joined
          ∙ join_all_rows env db.categories q db.links w.sound,
      ap (λ r. count_where (is_misnamed db.categories) r.links) (sym same)
          ∙ o.links (is_misnamed db.categories) joined
          ∙ join_all_without env db.categories (is_misnamed db.categories) db.links
              (λ r l k j. joined_named db.categories r l j) w.sound,
      ap (λ r. count_where c r.categories) (sym same) ∙ o.categories c db.categories,
      ap (λ r. r.groups) (sym same) ∙ grouped ∙ ap (λ r. groups_of r.links r.categories) same,
      ap (λ r. count_where p (all_links r.groups)) (sym same)
          ∙ ap (λ gs. count_where p (all_links gs)) grouped
          ∙ count_all p links cats none_astray
          ∙ ap (λ r. count_where p r.links) same,
    )
