-- ===== src/Api/Checks.antt =====
-- backend/internal/api/users.go: the checks of what a request holds, and of the errors of the store.
use podman_manager.Prelude.{
  ℕ, ◌+◌, ◌-◌, ◌*◌, String, Bool, true, not, ◌&&◌, ◌||◌, Option, none, some, List, [], ◌∷◌, ltb,
  leb, nat_eq, codes, contains_fold, if◌then◌else◌,
}
use podman_manager.Auth.Database.{Error}
use podman_manager.Auth.Errors.{error_text}

-- the bytes of a code point, and of a text, in UTF-8
abbrev pub width : ℕ → ℕ
width c = if ltb c 0x80 then 1 else if ltb c 0x800 then 2 else if ltb c 0x10000 then 3 else 4

unfoldable pub bytes : List ℕ → ℕ
bytes [] = 0
bytes (c ∷ cs) = width c + bytes cs

-- `len(s)`
abbrev pub len : String → ℕ
len s = bytes (codes s)

abbrev pub is_ascii_digit : ℕ → Bool
is_ascii_digit c = leb 48 c && leb c 57

-- the digits after those whose value is `n`
unfoldable pub parse_digits : ℕ → List ℕ → Option ℕ
parse_digits n [] = some n
parse_digits n (c ∷ cs) =
    let rest = parse_digits (10 * n + (c - 48)) cs in if is_ascii_digit c then rest else none

-- the value of a text of digits that has at least one
abbrev pub parse_number : List ℕ → Option ℕ
parse_number [] = none
parse_number (c ∷ cs) = parse_digits 0 (c ∷ cs)

-- `strconv.ParseInt(s, 10, 64)` as far as `parseUserID` keeps it: a sign may stand first, and a
-- negative number is refused as zero is.
unfoldable pub parse_unsigned : List ℕ → Option ℕ
unfolding parse_digits
parse_unsigned [] = none
parse_unsigned (c ∷ cs) = if nat_eq c 43 then parse_number cs else parse_number (c ∷ cs)

unfoldable pub parse_user_id : String → Option ℕ
parse_user_id s = elim (parse_unsigned (codes s)) [
  | none ↦ none
  | some id ↦ if leb 1 id && ltb id 9_223_372_036_854_775_808 then some id else none
]

-- `unicode.IsLetter` and `unicode.IsDigit`: the tables of the library
pub record Tables : Type 0 where
  pub is_letter : ℕ → Bool
  pub is_digit : ℕ → Bool

unfoldable pub all_name_runes : Tables → List ℕ → Bool
all_name_runes t [] = true
all_name_runes t (c ∷ cs) =
    (t.is_letter c || t.is_digit c || nat_eq c 95 || nat_eq c 45) && all_name_runes t cs

-- the text of the error, if there is one
unfoldable pub validate_username : Tables → String → Option String
unfolding all_name_runes bytes
validate_username t username =
    if ltb (len username) 3 || ltb 64 (len username)
    then some "username must be between 3 and 64 characters"
    else if not (all_name_runes t (codes username))
    then some "username may contain only letters, numbers, underscores, and hyphens"
    else none

unfoldable pub validate_password : String → Option String
unfolding bytes
validate_password password =
    if ltb (len password) 8 then some "password must be at least 8 characters" else none

-- what an error of the store is told apart by: its text
unfoldable pub is_not_found_error : (ℕ → ℕ) → Error → Bool
is_not_found_error table e = contains_fold table (error_text e) "not found"

unfoldable pub is_conflict_error : (ℕ → ℕ) → Error → Bool
is_conflict_error table e =
    contains_fold table (error_text e) "unique"
    || contains_fold table (error_text e) "constraint"
    || contains_fold table (error_text e) "already exists"

unfoldable pub is_last_admin_error : (ℕ → ℕ) → Error → Bool
is_last_admin_error table e = contains_fold table (error_text e) "last admin"
