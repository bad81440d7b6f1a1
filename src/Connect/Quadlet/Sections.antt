-- ===== src/Connect/Quadlet/Sections.antt =====
-- What agent/internal/quadlet.go reads of a file.
use podman_manager.Prelude.{
  ℕ, String, Bool, true, false, none, some, List, [], ◌∷◌, Result, ok, ◌==◌, if◌then◌else◌, ◌≡◌,
  refl, ap, ◌∙◌, inl, inr, Bool-cases, Option-cases, trim_space, ◌>>=◌,
}
use podman_manager.Connect.Quadlet.{
  QuadletContainer, is_header, is_container_header, is_skipped, cut, is_word, set_key, read_line,
  read_lines, named_container, parse_quadlet_container,
}

-- what a line says
pub data Line : Type 0 where
  nothing : Line
  section : Bool → Line
  entry : String → String → Line

unfoldable pub classify : String → Line
classify l =
    if is_skipped l
    then nothing
    else (if is_header l
        then section (is_container_header l)
        else elim (cut l) [ none ↦ nothing | some (key, value) ↦ entry key value ])

-- the entry of a line in a section [Container], and what follows
abbrev pub entries_behind : Line → Bool → (Bool → List (String × String)) → List (String × String)
entries_behind nothing inside rest = rest inside
entries_behind (section b) inside rest = rest b
entries_behind (entry key value) true rest = (key, value) ∷ rest true
entries_behind (entry key value) false rest = rest false

-- the keys and values of the sections [Container], where `inside` says whether the text starts in one
unfoldable pub entries_of : Bool → List String → List (String × String)
unfolding classify
entries_of inside [] = []
entries_of inside (line ∷ lines) =
    entries_behind (classify (trim_space line)) inside (λ b. entries_of b lines)

unfoldable pub set_all : (ℕ → ℕ) → List (String × String) → QuadletContainer → QuadletContainer
unfolding set_key
set_all table [] q = q
set_all table ((key, value) ∷ entries) q = set_all table entries (set_key table key value q)

abbrev act : (ℕ → ℕ) → Line → Bool → QuadletContainer → Bool × QuadletContainer
act table nothing inside q = (inside, q)
act table (section b) inside q = (b, q)
act table (entry key value) true q = (true, set_key table key value q)
act table (entry key value) false q = (false, q)

read_line-act :
    (table : ℕ → ℕ) (l : String) (inside : Bool) (q : QuadletContainer)
    → read_line table l (inside, q) ≡ act table (classify l) inside q
unfolding read_line classify
read_line-act table l true q = elim (Bool-cases (is_skipped l)) [
  | inl s ↦ rw (s, read_line, classify) refl
  | inr s ↦ elim (Bool-cases (is_header l)) [
    | inl h ↦ rw (s, h, read_line, classify) refl
    | inr h ↦ elim (Option-cases (cut l)) [
      | inl e ↦ rw (s, h, e, read_line, classify) refl
      | inr (_, e) ↦ rw (s, h, e, read_line, classify) refl
    ]
  ]
]
read_line-act table l false q = elim (Bool-cases (is_skipped l)) [
  | inl s ↦ rw (s, read_line, classify) refl
  | inr s ↦ elim (Bool-cases (is_header l)) [
    | inl h ↦ rw (s, h, read_line, classify) refl
    | inr h ↦ elim (Option-cases (cut l)) [
      | inl e ↦ rw (s, h, e, read_line, classify) refl
      | inr (_, e) ↦ rw (s, h, e, read_line, classify) refl
    ]
  ]
]

act_entries :
    (table : ℕ → ℕ) (l : Line) (inside : Bool) (q : QuadletContainer) (lines : List String)
    → ((b : Bool) (q : QuadletContainer)
        → (read_lines table lines (b, q)).1 ≡ set_all table (entries_of b lines) q)
    → (read_lines table lines (act table l inside q)).1
      ≡ set_all table (entries_behind l inside (λ b. entries_of b lines)) q
unfolding set_all
act_entries table nothing inside q lines f = f inside q
act_entries table (section b) inside q lines f = f b q
act_entries table (entry key value) true q lines f = f true (set_key table key value q)
act_entries table (entry key value) false q lines f = f false q

read_lines_entries :
    (table : ℕ → ℕ) (inside : Bool) (lines : List String) (q : QuadletContainer)
    → (read_lines table lines (inside, q)).1 ≡ set_all table (entries_of inside lines) q
unfolding read_lines entries_of set_all
read_lines_entries table inside [] q = refl
read_lines_entries table inside (line ∷ lines) q =
    let l = trim_space line in
    ap (λ s. (read_lines table lines s).1) (read_line-act table l inside q)
    ∙ act_entries table (classify l) inside q lines (λ b q. read_lines_entries table b lines q)

set_key_named :
    (table : ℕ → ℕ) (key value : String) (q : QuadletContainer)
    → (q.container_name == "") ≡ false
    → ((set_key table key value q).container_name == "") ≡ false
unfolding set_key
set_key_named table key value q h = elim (Bool-cases (is_word table (trim_space key) "image")) [
  | inl e ↦ rw (e, set_key) h
  | inr e ↦ elim (Bool-cases (is_word table (trim_space key) "containername")) [
    | inr f ↦ rw (e, f, set_key) h
    | inl f ↦ elim (Bool-cases (trim_space value == "")) [
      | inl g ↦ rw (e, f, g, set_key) h
      | inr g ↦ rw (e, f, g, set_key) g
    ]
  ]
]

set_all_named :
    (table : ℕ → ℕ) (entries : List (String × String)) (q : QuadletContainer)
    → (q.container_name == "") ≡ false
    → ((set_all table entries q).container_name == "") ≡ false
unfolding set_all
set_all_named table [] q h = h
set_all_named table ((key, value) ∷ entries) q h =
    set_all_named table entries (set_key table key value q) (set_key_named table key value q h)

-- A quadlet whose file can be read, and has a base name, is what its entries in sections [Container]
-- set one after another, from what the file's name gives; and its container has a name.
pub parse_quadlet_container_entries :
    (table : ℕ → ℕ) (read : String → Result String (List String)) (base : String → String)
    (path : String) (lines : List String)
    → read path ≡ ok lines
    → (base path == "") ≡ false
    → let q = set_all table (entries_of false lines) (named_container (base path) path) in
      (parse_quadlet_container table read base path ≡ ok q) × ((q.container_name == "") ≡ false)
unfolding parse_quadlet_container named_container
parse_quadlet_container_entries table read base path lines h b =
    let q = named_container (base path) path in
    (
      ap (λ r. r >>= λ lines. ok (read_lines table lines (false, q)).1) h
          ∙ ap ok (read_lines_entries table false lines q),
      set_all_named table (entries_of false lines) q b,
    )
