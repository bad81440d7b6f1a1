-- ===== src/Prelude/Text.antt =====
-- `strings.TrimSpace`, on texts as sequences of code points.
use Prim.Native.Nat.{ℕ, ◌+◌}
use mathlib.Core.List.{List, [], ◌∷◌}
use Prim.Native.Char.{Char, code}
use Prim.Native.String.{String}
use mathlib.Core.Option.{Option, none, some}
use mathlib.Core.Bool.{Bool, true, false, ◌&&◌, ◌||◌}
use podman_manager.Prelude.Tests.{ltb, leb, nat_eq, if◌then◌else◌}

-- `unicode.IsSpace`: the code points with the property White_Space
unfoldable pub is_space : ℕ → Bool
is_space c =
    (leb 9 c && leb c 13)
    || nat_eq c 0x20
    || nat_eq c 0x85
    || nat_eq c 0xa0
    || nat_eq c 0x1680
    || (leb 0x2000 c && leb c 0x200a)
    || nat_eq c 0x2028
    || nat_eq c 0x2029
    || nat_eq c 0x202f
    || nat_eq c 0x205f
    || nat_eq c 0x3000

unfoldable pub trim_left : String → String
trim_left String.[] = String.[]
trim_left (String.◌∷◌ c s) =
    let rest = trim_left s in if is_space (code c) then rest else String.◌∷◌ c s

-- `c` in front of the trimmed rest of the text
unfoldable pub trim_before : Char → String → String
trim_before c String.[] = if is_space (code c) then String.[] else String.◌∷◌ c String.[]
trim_before c (String.◌∷◌ d s) = String.◌∷◌ c (String.◌∷◌ d s)

unfoldable pub trim_right : String → String
trim_right String.[] = String.[]
trim_right (String.◌∷◌ c s) = trim_before c (trim_right s)

unfoldable pub trim_space : String → String
unfolding trim_left trim_before trim_right is_space
trim_space s = trim_right (trim_left s)

-- what is left of a text after a prefix that it has
unfoldable pub strip : String → String → Option String
strip String.[] s = some s
strip (String.◌∷◌ c p) String.[] = none
strip (String.◌∷◌ c p) (String.◌∷◌ d s) =
    let rest = strip p s in if nat_eq (code c) (code d) then rest else none

-- `strings.TrimPrefix`
unfoldable pub trim_prefix : String → String → String
unfolding strip
trim_prefix s p = elim (strip p s) [ none ↦ s | some rest ↦ rest ]

-- the code points of a text
unfoldable pub codes : String → List ℕ
codes String.[] = []
codes (String.◌∷◌ c s) = code c ∷ codes s

-- `unicode.ToLower`: exact on ASCII, and the Unicode table that is given on all else
unfoldable pub rune_lower : (ℕ → ℕ) → ℕ → ℕ
rune_lower table c = if ltb c 128 then (if leb 65 c && leb c 90 then c + 32 else c) else table c

unfoldable pub lower_codes : (ℕ → ℕ) → List ℕ → List ℕ
unfolding rune_lower
lower_codes table [] = []
lower_codes table (c ∷ cs) = rune_lower table c ∷ lower_codes table cs

unfoldable pub begins : List ℕ → List ℕ → Bool
begins [] cs = true
begins (p ∷ ps) [] = false
begins (p ∷ ps) (c ∷ cs) = nat_eq p c && begins ps cs

unfoldable pub occurs : List ℕ → List ℕ → Bool
unfolding begins
occurs ps [] = begins ps []
occurs ps (c ∷ cs) = begins ps (c ∷ cs) || occurs ps cs

-- `strings.Contains(strings.ToLower(s), word)`
unfoldable pub contains_fold : (ℕ → ℕ) → String → String → Bool
unfolding codes lower_codes occurs
contains_fold table s word = occurs (codes word) (lower_codes table (codes s))
