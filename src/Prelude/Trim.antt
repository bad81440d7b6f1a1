-- ===== src/Prelude/Trim.antt =====
-- `strings.TrimSpace` leaves a trimmed text alone.
use Prim.Native.Char.{Char, code}
use Prim.Native.String.{String}
use mathlib.Core.Path.{◌≡◌, refl, ap, ◌∙◌}
use mathlib.Core.Bool.{Bool, true, false, not}
use mathlib.Core.Logic.{inl, inr}
use native.Mathlib.Omega.{arith}
use podman_manager.Prelude.Tests.{Bool-cases}
use podman_manager.Prelude.Text.{is_space, trim_left, trim_before, trim_right, trim_space}

unfoldable starts : String → Bool
starts String.[] = true
starts (String.◌∷◌ c s) = not (is_space (code c))

trim_left-starts : (s : String) → starts (trim_left s) ≡ true
unfolding trim_left starts
trim_left-starts String.[] = refl
trim_left-starts (String.◌∷◌ c s) = ground (arith, trim_left-starts s)

starts-trim_before :
    (c : Char) (s : String) → is_space (code c) ≡ false → starts (trim_before c s) ≡ true
unfolding trim_before starts
starts-trim_before c String.[] h = ground arith
starts-trim_before c (String.◌∷◌ d s) h = ground arith

starts-trim_right : (s : String) → starts s ≡ true → starts (trim_right s) ≡ true
unfolding trim_right starts
starts-trim_right String.[] h = refl
starts-trim_right (String.◌∷◌ c s) h = starts-trim_before c (trim_right s) (ground arith)

trim_left_unchanged : (s : String) → starts s ≡ true → trim_left s ≡ s
unfolding trim_left starts
trim_left_unchanged String.[] h = refl
trim_left_unchanged (String.◌∷◌ c s) h = ground arith

trim_right_before :
    (c : Char) (s : String) → trim_right s ≡ s → trim_right (trim_before c s) ≡ trim_before c s
unfolding trim_right trim_before
trim_right_before c String.[] h = elim (Bool-cases (is_space (code c))) [
  | inl e ↦ rw (e, trim_right) refl
  | inr e ↦ rw (e, trim_right, trim_before) (rw e refl)
]
trim_right_before c (String.◌∷◌ d s) h = ap (trim_before c) h

trim_right_twice : (s : String) → trim_right (trim_right s) ≡ trim_right s
unfolding trim_right
trim_right_twice String.[] = refl
trim_right_twice (String.◌∷◌ c s) = trim_right_before c (trim_right s) (trim_right_twice s)

pub trim_space_twice : (s : String) → trim_space (trim_space s) ≡ trim_space s
unfolding trim_space
trim_space_twice s =
    ap trim_right (
      trim_left_unchanged (trim_right (trim_left s))
        (starts-trim_right (trim_left s) (trim_left-starts s)))
    ∙ trim_right_twice (trim_left s)
