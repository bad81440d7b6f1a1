-- ===== src/Config/Lower.antt =====
-- `strings.ToLower`: exact on ASCII, and the Unicode table that is given on all else.
use Prim.Native.Char.{Char, code}
use podman_manager.Prelude.{String, ltb, nat_eq, if◌then◌else◌}

abbrev pub Runes : Type 0
Runes = Char → Char

-- the letter of the second text where `c` stands in the first one, and `c` if it does not
unfoldable pub matching : String → String → Char → Char
matching String.[] lowers c = c
matching (String.◌∷◌ u uppers) String.[] c = c
matching (String.◌∷◌ u uppers) (String.◌∷◌ l lowers) c =
    let rest = matching uppers lowers c in if nat_eq (code u) (code c) then l else rest

unfoldable pub lower_rune : Runes → Char → Char
unfolding matching
lower_rune table c =
    if ltb (code c) 128
    then matching "ABCDEFGHIJKLMNOPQRSTUVWXYZ" "abcdefghijklmnopqrstuvwxyz" c
    else table c

unfoldable pub lower : Runes → String → String
unfolding lower_rune
lower table String.[] = String.[]
lower table (String.◌∷◌ c s) = String.◌∷◌ (lower_rune table c) (lower table s)
