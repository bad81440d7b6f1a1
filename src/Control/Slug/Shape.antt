-- ===== src/Control/Slug/Shape.antt =====
-- What a slug of backend/internal/control/store.go looks like.
use podman_manager.Prelude.{
  ℕ, String, Bool, true, false, ◌&&◌, not, ◌≡◌, refl, List, [], ◌∷◌, nat_eq, arith, if◌then◌else◌,
  codes, lower_codes, ◌∙◌,
}
use podman_manager.Control.Slug.{
  dash, is_kept, slug_loop, trim_left_dashes, dash_before, trim_right_dashes, trim_dashes, slugify,
}

-- letters and digits in words, with one dash between two words: `first` where a word has to start
unfoldable pub is_words : Bool → List ℕ → Bool
is_words first [] = not first
is_words first (r ∷ rs) =
    let inside = is_words false rs in
    let next = is_words true rs in if is_kept r then inside else not first && nat_eq r dash && next

unfoldable pub is_slug : List ℕ → Bool
unfolding is_words
is_slug [] = true
is_slug (r ∷ rs) = is_words true (r ∷ rs)

-- the letters and digits of a text
unfoldable pub kept : List ℕ → List ℕ
kept [] = []
kept (r ∷ rs) = let rest = kept rs in if is_kept r then r ∷ rest else rest

-- the same as `is_words`, where the text may end behind a dash
unfoldable is_loose : Bool → List ℕ → Bool
is_loose first [] = true
is_loose first (r ∷ rs) =
    let inside = is_loose false rs in
    let next = is_loose true rs in if is_kept r then inside else not first && nat_eq r dash && next

slug_loop-is_loose : (b : Bool) (rs : List ℕ) → is_loose b (slug_loop b rs) ≡ true
unfolding slug_loop is_loose
slug_loop-is_loose b [] = refl
slug_loop-is_loose b (r ∷ rs) =
    ground (arith, slug_loop-is_loose true rs, slug_loop-is_loose false rs)

trim_left_first : (rs : List ℕ) → is_loose true rs ≡ true → trim_left_dashes rs ≡ rs
unfolding is_loose trim_left_dashes
trim_left_first [] h = refl
trim_left_first (r ∷ rs) h = ground arith

trim_left-is_loose :
    (rs : List ℕ) → is_loose false rs ≡ true → is_loose true (trim_left_dashes rs) ≡ true
unfolding is_loose trim_left_dashes
trim_left-is_loose [] h = refl
trim_left-is_loose (r ∷ rs) h = ground (arith, trim_left_first rs)

-- what the end of a text becomes, behind a letter and behind a dash
unfoldable is_trimmed : Bool → List ℕ → Bool
unfolding is_slug
is_trimmed true rs = is_slug rs
is_trimmed false rs = is_words false rs

dash_before-letter :
    (b : Bool) (r : ℕ) (rs : List ℕ)
    → is_kept r ≡ true
    → is_trimmed false rs ≡ true
    → is_trimmed b (dash_before r rs) ≡ true
unfolding is_trimmed is_slug is_words dash_before
dash_before-letter true r [] k h = ground arith
dash_before-letter true r (s ∷ rs) k h = ground arith
dash_before-letter false r [] k h = ground arith
dash_before-letter false r (s ∷ rs) k h = ground arith

dash_before-dash :
    (r : ℕ) (rs : List ℕ)
    → is_kept r ≡ false
    → nat_eq r dash ≡ true
    → is_trimmed true rs ≡ true
    → is_trimmed false (dash_before r rs) ≡ true
unfolding is_trimmed is_slug is_words dash_before
dash_before-dash r [] k d h = ground arith
dash_before-dash r (s ∷ rs) k d h = ground arith

trim_right-is_trimmed :
    (b : Bool) (rs : List ℕ) → is_loose b rs ≡ true → is_trimmed b (trim_right_dashes rs) ≡ true
unfolding is_loose trim_right_dashes is_trimmed is_slug is_words
trim_right-is_trimmed true [] h = refl
trim_right-is_trimmed false [] h = refl
trim_right-is_trimmed true (r ∷ rs) h =
    ground (arith, trim_right-is_trimmed false rs, dash_before-letter true r (trim_right_dashes rs))
trim_right-is_trimmed false (r ∷ rs) h = ground (
  arith,
  trim_right-is_trimmed false rs,
  trim_right-is_trimmed true rs,
  dash_before-letter false r (trim_right_dashes rs),
  dash_before-dash r (trim_right_dashes rs),
)

kept-slug_loop : (b : Bool) (rs : List ℕ) → kept (slug_loop b rs) ≡ kept rs
unfolding slug_loop kept
kept-slug_loop b [] = refl
kept-slug_loop b (r ∷ rs) = ground (arith, kept-slug_loop true rs, kept-slug_loop false rs)

kept-trim_left : (rs : List ℕ) → kept (trim_left_dashes rs) ≡ kept rs
unfolding trim_left_dashes kept
kept-trim_left [] = refl
kept-trim_left (r ∷ rs) = ground (arith, kept-trim_left rs)

kept-dash_before : (r : ℕ) (rs : List ℕ) → kept (dash_before r rs) ≡ kept (r ∷ rs)
unfolding dash_before kept
kept-dash_before r [] = ground arith
kept-dash_before r (s ∷ rs) = refl

kept-trim_right : (rs : List ℕ) → kept (trim_right_dashes rs) ≡ kept rs
unfolding trim_right_dashes kept
kept-trim_right [] = refl
kept-trim_right (r ∷ rs) =
    kept-dash_before r (trim_right_dashes rs) ∙ ground (arith, kept-trim_right rs)

-- The slug of a text is words of letters a-z and digits with one dash between two words, or it is
-- empty, and its letters and digits are those of the text in lower case, in their order.
pub slugify-is_slug :
    (table : ℕ → ℕ) (input : String)
    → (is_slug (slugify table input) ≡ true)
      × (kept (slugify table input) ≡ kept (lower_codes table (codes input)))
unfolding slugify trim_dashes is_trimmed
slugify-is_slug table input =
    let rs = lower_codes table (codes input) in
    let loose = trim_left-is_loose (slug_loop false rs) (slug_loop-is_loose false rs) in
    (
      trim_right-is_trimmed true (trim_left_dashes (slug_loop false rs)) loose,
      kept-trim_right (trim_left_dashes (slug_loop false rs))
          ∙ kept-trim_left (slug_loop false rs)
          ∙ kept-slug_loop false rs,
    )
