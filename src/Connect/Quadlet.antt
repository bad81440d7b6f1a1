-- ===== src/Connect/Quadlet.antt =====
-- agent/internal/quadlet.go. The lines of a file are what `bufio.Scanner` gives; the texts of a line
-- are sequences of code points where the source cuts them up.
pub mod Sections
use Prim.Native.Char.{code}
use Prim.Native.String.{◌++◌ as join}
use podman_manager.Prelude.{
  ℕ, String, Bool, true, false, not, ◌&&◌, ◌||◌, Option, none, some, List, [], ◌∷◌, ◌++◌, Result,
  ok, err, ◌==◌, nat_eq, if◌then◌else◌, codes, lower_codes, begins, rune_lower, trim_space, ◌>>=◌,
}

pub record QuadletContainer : Type 0 where
  pub name : String
  pub unit : String
  pub image : String
  pub container_name : String
  pub state : String
  pub file_path : String

unfoldable pub last_is : ℕ → List ℕ → Bool
last_is b [] = false
last_is b (c ∷ []) = nat_eq b c
last_is b (c ∷ d ∷ cs) = last_is b (d ∷ cs)

-- `[` or `]`
abbrev pub is_bracket : ℕ → Bool
is_bracket c = nat_eq c 91 || nat_eq c 93

unfoldable pub trim_left_brackets : List ℕ → List ℕ
trim_left_brackets [] = []
trim_left_brackets (c ∷ cs) =
    let rest = trim_left_brackets cs in if is_bracket c then rest else c ∷ cs

unfoldable pub bracket_before : ℕ → List ℕ → List ℕ
bracket_before c [] = if is_bracket c then [] else c ∷ []
bracket_before c (d ∷ ds) = c ∷ d ∷ ds

unfoldable pub trim_right_brackets : List ℕ → List ℕ
unfolding bracket_before
trim_right_brackets [] = []
trim_right_brackets (c ∷ cs) = bracket_before c (trim_right_brackets cs)

unfoldable pub equal_codes : List ℕ → List ℕ → Bool
equal_codes [] [] = true
equal_codes [] (d ∷ ds) = false
equal_codes (c ∷ cs) [] = false
equal_codes (c ∷ cs) (d ∷ ds) = nat_eq c d && equal_codes cs ds

-- `strings.HasPrefix(line, "[") && strings.HasSuffix(line, "]")`
unfoldable pub is_header : String → Bool
unfolding codes begins last_is
is_header line = begins (91 ∷ []) (codes line) && last_is 93 (codes line)

-- `strings.EqualFold(strings.Trim(line, "[]"), "Container")`: no letter of the word has a form outside
-- ASCII
unfoldable pub is_container_header : String → Bool
unfolding codes lower_codes rune_lower trim_left_brackets trim_right_brackets equal_codes
is_container_header line =
    let inner = trim_right_brackets (trim_left_brackets (codes line)) in
    equal_codes (lower_codes (λ c. c) inner) (codes "container")

-- an empty line or a comment
unfoldable pub is_skipped : String → Bool
unfolding codes begins
is_skipped line = line == "" || begins (35 ∷ []) (codes line) || begins (59 ∷ []) (codes line)

-- `strings.Cut(line, "=")`
unfoldable pub cut : String → Option (String × String)
cut String.[] = none
cut (String.◌∷◌ c s) =
    let rest = cut s in
    if nat_eq (code c) 61
    then some (String.[], s)
    else elim rest [ none ↦ none | some (key, value) ↦ some (String.◌∷◌ c key, value) ]

-- `strings.ToLower(key) == word`
unfoldable pub is_word : (ℕ → ℕ) → String → String → Bool
unfolding codes lower_codes rune_lower equal_codes
is_word table key word = equal_codes (lower_codes table (codes key)) (codes word)

-- the `switch` over the key
unfoldable pub set_key : (ℕ → ℕ) → String → String → QuadletContainer → QuadletContainer
unfolding is_word trim_space
set_key table key value q =
    if is_word table (trim_space key) "image"
    then record q { image = trim_space value }
    else (if is_word table (trim_space key) "containername"
        then (if trim_space value == "" then q else record q { container_name = trim_space value })
        else q)

-- a round of the loop on a trimmed line, with `inContainerSection`
unfoldable pub read_line : (ℕ → ℕ) → String → Bool × QuadletContainer → Bool × QuadletContainer
unfolding is_skipped is_header is_container_header cut set_key
read_line table line (inside, q) =
    if is_skipped line
    then (inside, q)
    else (if is_header line
        then (is_container_header line, q)
        else (if not inside then (inside, q) else elim (cut line) [
          | none ↦ (inside, q)
          | some (key, value) ↦ (inside, set_key table key value q)
        ]))

unfoldable pub read_lines :
    (ℕ → ℕ) → List String → Bool × QuadletContainer → Bool × QuadletContainer
unfolding read_line trim_space
read_lines table [] s = s
read_lines table (line ∷ lines) s = read_lines table lines (read_line table (trim_space line) s)

-- what the file's name gives
unfoldable pub named_container : String → String → QuadletContainer
named_container name path = record {
  name = name;
  unit = join name ".service";
  image = "";
  container_name = name;
  state = "inactive";
  file_path = path;
}

-- `parseQuadletContainer`. `read` gives the lines of a file, or the error of opening or reading it, and
-- `base` is the base name without the suffix `.container`.
unfoldable pub parse_quadlet_container :
    (ℕ → ℕ)
    → (String → Result String (List String))
    → (String → String)
    → String
    → Result String QuadletContainer
unfolding read_lines named_container
parse_quadlet_container table read base path =
    read path >>= λ lines. ok (read_lines table lines (false, named_container (base path) path)).1

-- the loop of `discoverQuadletContainers`; `running` is `IsContainerRunning`
unfoldable pub discover :
    (String → Result String QuadletContainer)
    → (String → Result String Bool)
    → List String
    → Result String (List QuadletContainer)
discover parse running [] = ok []
discover parse running (path ∷ paths) =
    let rest = discover parse running paths in
    parse path >>= λ q. running q.container_name >>= λ active.
    rest >>= λ qs. ok (record q { state = if active then "active" else "inactive" } ∷ qs)

-- `discoverQuadletContainers`. `home` is the home directory, `under` is `filepath.Join` of it with
-- `.config/containers/systemd`, and `glob` gives the files `*.container` of a directory.
unfoldable pub discover_quadlet_containers :
    Bool
    → Result String String
    → (String → String)
    → (String → Result String (List String))
    → (String → Result String QuadletContainer)
    → (String → Result String Bool)
    → Result String (List QuadletContainer)
unfolding discover
discover_quadlet_containers rootful home under glob parse running =
    let found = λ (dir : String). glob dir >>= discover parse running in
    if rootful then found "/etc/containers/systemd" else home >>= λ h. found (under h)
