-- ===== src/Control/Slug.antt =====
-- `slugify` of backend/internal/control/store.go, on the code points of a text.
pub mod Shape
use podman_manager.Prelude.{
  ℕ, String, Bool, true, false, ◌&&◌, ◌||◌, List, [], ◌∷◌, nat_eq, leb, if◌then◌else◌, codes,
  lower_codes, rune_lower,
}

abbrev pub dash : ℕ
dash = 45

-- a letter or a digit that the slug keeps
abbrev pub is_kept : ℕ → Bool
is_kept r = leb 97 r && leb r 122 || leb 48 r && leb r 57

-- the loop, with `lastDash`
unfoldable pub slug_loop : Bool → List ℕ → List ℕ
slug_loop last_dash [] = []
slug_loop last_dash (r ∷ rs) =
    let kept = slug_loop false rs in
    let dashed = slug_loop true rs in
    if is_kept r then r ∷ kept else (if last_dash then dashed else dash ∷ dashed)

unfoldable pub trim_left_dashes : List ℕ → List ℕ
trim_left_dashes [] = []
trim_left_dashes (r ∷ rs) = let rest = trim_left_dashes rs in if nat_eq r dash then rest else r ∷ rs

unfoldable pub dash_before : ℕ → List ℕ → List ℕ
dash_before r [] = if nat_eq r dash then [] else r ∷ []
dash_before r (s ∷ rs) = r ∷ s ∷ rs

unfoldable pub trim_right_dashes : List ℕ → List ℕ
unfolding dash_before
trim_right_dashes [] = []
trim_right_dashes (r ∷ rs) = dash_before r (trim_right_dashes rs)

-- `strings.Trim(s, "-")`
unfoldable pub trim_dashes : List ℕ → List ℕ
unfolding trim_left_dashes trim_right_dashes
trim_dashes rs = trim_right_dashes (trim_left_dashes rs)

unfoldable pub slugify : (ℕ → ℕ) → String → List ℕ
unfolding slug_loop trim_dashes
slugify table input = trim_dashes (slug_loop false (lower_codes table (codes input)))
