-- ===== src/Control/Import/Tally.antt =====
-- The counters of an import of backend/internal/control/homepage_import.go.
use podman_manager.Prelude.{
  ℕ, suc, ◌+◌, ◌≡◌, String, Bool, true, false, List, [], ◌∷◌, ◌++◌, Result, ok, err, arith, refl,
  ap, ◌∙◌, subst,
}
use podman_manager.Control.{LinkMutation, ManagedLink, Database, Environment, Error}
use podman_manager.Control.Links.{upsert_imported_link}
use podman_manager.Control.Links.WellFormed.{IsWellFormed}
use podman_manager.Control.Links.Reachable.{upsert-Keeps, kept}
use podman_manager.Control.Homepage.{ImportError, refused}
use podman_manager.Control.Import.{ImportResult, tally, import_all}

unfoldable pub length_of {ℓ} : {A : Type ℓ} → List A → ℕ
length_of [] = 0
length_of (x ∷ xs) = suc (length_of xs)

length-append :
    (xs : List ImportError) (x : ImportError) → length_of (xs ++ (x ∷ [])) ≡ suc (length_of xs)
unfolding length_of
length-append [] x = refl
length-append (y ∷ xs) x = ap suc (length-append xs x)

-- each link is imported or skipped, an imported one is created or updated, and a skipped one is an error
pub record IsBalanced (n : ℕ) (errors : ℕ) (r : ImportResult) : Type 0 where
  pub all : r.imported + r.skipped ≡ n
  pub kinds : r.created + r.updated ≡ r.imported
  pub reported : length_of r.errors ≡ errors + r.skipped

tally-IsBalanced :
    (m : LinkMutation) (o : Result Error (ManagedLink × Bool)) (n k : ℕ) (r : ImportResult)
    → IsBalanced n k r
    → IsBalanced (suc n) k (tally m o r)
unfolding tally
tally-IsBalanced m (err e) n k r b = record {
  all = omega arith;
  kinds = b.kinds;
  reported = length-append r.errors (refused m.title e) ∙ ap suc b.reported ∙ omega arith;
}
tally-IsBalanced m (ok (l, true)) n k r b = record {
  all = omega arith;
  kinds = omega arith;
  reported = b.reported;
}
tally-IsBalanced m (ok (l, false)) n k r b = record {
  all = omega arith;
  kinds = omega arith;
  reported = b.reported;
}

-- An import counts each link once: as imported, and then as created or updated, or as skipped, with an
-- error. From well-formed tables it leaves well-formed tables.
pub import_all-IsBalanced :
    (env : Environment) (ms : List ((String × String) × LinkMutation)) (n k : ℕ) (r : ImportResult)
    (db : Database)
    → IsBalanced n k r
    → IsWellFormed env db
    → IsBalanced (n + length_of ms) k (import_all env ms r db).0
      × IsWellFormed env (import_all env ms r db).1
unfolding import_all length_of
import_all-IsBalanced env [] n k r db b w = (subst (λ x. IsBalanced x k r) (omega arith) b, w)
import_all-IsBalanced env (((fresh, id), m) ∷ ms) n k r db b w =
    let done = upsert_imported_link env fresh id m db in
    let next = tally-IsBalanced m done.0 n k r b in
    let after = kept (IsWellFormed env) done (upsert-Keeps env fresh id m db w) in
    let (all, well) = import_all-IsBalanced env ms (suc n) k (tally m done.0 r) done.1 next after in
    (
      subst (λ x. IsBalanced x k (import_all env ms (tally m done.0 r) done.1).0) (omega arith) all,
      well,
    )
