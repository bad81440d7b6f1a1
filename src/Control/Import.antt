-- ===== src/Control/Import.antt =====
-- `SortMutationsByOrder` of backend/internal/control/store.go, and `ImportHomepage` of
-- homepage_import.go. The sort of the standard library, the reading of YAML documents and the ids of
-- new rows are arguments.
pub mod Tally
use podman_manager.Prelude.{
  ℕ, suc, String, Bool, true, false, not, ◌&&◌, Option, none, some, List, [], ◌∷◌, ◌++◌, Result, ok,
  err, ◌==◌, if◌then◌else◌, trim_space,
}
use podman_manager.Control.{LinkMutation, ManagedLink, Database, Environment, Error, less}
use podman_manager.Control.Links.{upsert_imported_link}
use podman_manager.Control.Homepage.{
  ImportRequest, ImportError, refused, Node, Format, bookmarks_format, services_format, parse,
}
use Prim.Native.String.{compare as compare_texts}
use Prim.Native.Nat.{Ordering}

abbrev pub text_less : String → String → Bool
text_less s t = elim (compare_texts s t) [ Ordering.lt ↦ true | _ ↦ false ]

-- the order of `SortMutationsByOrder`
unfoldable pub comes_before : LinkMutation → LinkMutation → Bool
comes_before a b =
    if a.category_name == b.category_name
    then less a.sort_order b.sort_order
    else text_less a.category_name b.category_name

pub record ImportResult : Type 0 where
  pub imported : ℕ
  pub created : ℕ
  pub updated : ℕ
  pub skipped : ℕ
  pub errors : List ImportError

-- the counters after a link
unfoldable pub tally :
    LinkMutation → Result Error (ManagedLink × Bool) → ImportResult → ImportResult
tally m (err e) r = record r {
  skipped = suc r.skipped;
  errors = r.errors ++ (refused m.title e ∷ []);
}
tally m (ok (l, true)) r = record r { imported = suc r.imported; created = suc r.created }
tally m (ok (l, false)) r = record r { imported = suc r.imported; updated = suc r.updated }

-- the loop over the links; each brings the ids that `uuid.NewString` would make for it
unfoldable pub import_all :
    Environment
    → List ((String × String) × LinkMutation)
    → ImportResult
    → Database
    → ImportResult × Database
unfolding tally upsert_imported_link
import_all env [] r db = (r, db)
import_all env (((fresh, id), m) ∷ ms) r db =
    let done = upsert_imported_link env fresh id m db in import_all env ms (tally m done.0 r) done.1

-- what a document of a request brings: its links, and its errors
unfoldable pub document :
    (String → Option Node) → Format → String → List LinkMutation × List ImportError
unfolding parse
document read f path =
    if trim_space path == ""
    then ([], [])
    else elim (parse read f path) [ ok links ↦ (links, []) | err e ↦ ([], e ∷ []) ]

abbrev pub is_nil {ℓ} : {A : Type ℓ} → List A → Bool
is_nil [] = true
is_nil (x ∷ xs) = false

-- Whether the import failed as a whole, with the result that goes with it either way. `sort` is
-- `sort.SliceStable` with an order, and `with_ids` pairs each link with ids for new rows.
unfoldable pub import_homepage :
    Environment
    → (String → Option Node)
    → ((LinkMutation → LinkMutation → Bool) → List LinkMutation → List LinkMutation)
    → (List LinkMutation → List ((String × String) × LinkMutation))
    → ImportRequest
    → Database
    → (Bool × ImportResult) × Database
unfolding document bookmarks_format services_format comes_before import_all
import_homepage env read sort with_ids req db =
    let (bookmarks, errors) = document read bookmarks_format req.bookmarks_path in
    let (services, more_errors) = document read services_format req.services_path in
    let links = sort comes_before (bookmarks ++ services) in
    let start : ImportResult = record {
      imported = 0;
      created = 0;
      updated = 0;
      skipped = 0;
      errors = errors ++ more_errors;
    } in
    let (result, after) = import_all env (with_ids links) start db in
    ((is_nil links && not (is_nil result.errors), result), after)
