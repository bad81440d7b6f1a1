-- ===== src/Prelude/Maps.antt =====
-- Go's maps with text keys, as association lists. What `range` visits is a list of keys that the
-- caller hands over, since Go leaves the order open.
use Prim.Native.String.{String}
use mathlib.Core.Path.{◌≡◌, refl}
use mathlib.Core.Logic.{inl, inr}
use mathlib.Core.Bool.{Bool, true, false, ◌||◌}
use mathlib.Core.Option.{Option, none, some}
use mathlib.Core.List.{List, [], ◌∷◌}
use native.Mathlib.Omega.{arith}
use text.Mathlib.Text.{◌==◌}
use text.Mathlib.TextEquality.{eq_iff}
use podman_manager.Prelude.Tests.{if◌then◌else◌, Option-cases, Bool-cases}

abbrev pub Map {ℓ} : Type ℓ → Type ℓ
Map V = List (String × V)

abbrev pub contains : String → List String → Bool
contains k [] = false
contains k (j ∷ ks) = j == k || contains k ks

module _ {ℓ} {V : Type ℓ} where
  -- `v, ok := m[k]`
  unfoldable pub lookup : String → Map V → Option V
  lookup k [] = none
  lookup k ((j, v) ∷ m) = if j == k then some v else lookup k m

  -- `m[k] = v`
  unfoldable pub put : String → V → Map V → Map V
  put k v [] = (k, v) ∷ []
  put k v ((j, w) ∷ m) = if j == k then (j, v) ∷ m else (j, w) ∷ put k v m

  -- `delete(m, k)`
  unfoldable pub delete : String → Map V → Map V
  delete k [] = []
  delete k ((j, v) ∷ m) = let rest = delete k m in if j == k then rest else (j, v) ∷ rest

  -- a write through the pointer that the map holds at `k`
  unfoldable pub adjust : String → (V → V) → Map V → Map V
  adjust k f m = elim (lookup k m) [ none ↦ m | some v ↦ put k (f v) m ]

  unfoldable pub keys : Map V → List String
  keys [] = []
  keys ((j, v) ∷ m) = j ∷ keys m

  pub lookup-put :
      (k j : String) (v : V) (m : Map V)
      → lookup j (put k v m) ≡ (if k == j then some v else lookup j m)
  unfolding lookup put
  lookup-put k j v [] = refl
  lookup-put k j v ((i, w) ∷ m) =
      ground (arith, lookup-put k j v m, eq_iff i j, eq_iff k j, eq_iff i k)

  pub lookup-delete :
      (k j : String) (m : Map V) → lookup j (delete k m) ≡ (if k == j then none else lookup j m)
  unfolding lookup delete
  lookup-delete k j [] = ground arith
  lookup-delete k j ((i, w) ∷ m) =
      ground (arith, lookup-delete k j m, eq_iff i j, eq_iff k j, eq_iff i k)

  pub lookup-adjust :
      (k j : String) (f : V → V) (m : Map V)
      → lookup j (adjust k f m)
        ≡ elim (lookup j m) [ none ↦ none | some v ↦ if k == j then some (f v) else some v ]
  unfolding adjust
  lookup-adjust k j f m = elim (Option-cases (lookup k m)) [
    | inl e ↦ rw (e, adjust) (ground (arith, eq_iff k j))
    | inr (v, e) ↦ rw (e, adjust) (ground (arith, lookup-put k j (f v) m, eq_iff k j))
  ]

  -- every key of the map is in the list of its keys
  pub keys_complete :
      (k : String) (m : Map V) (v : V) → lookup k m ≡ some v → contains k (keys m) ≡ true
  unfolding lookup keys
  keys_complete k [] v h = cc
  keys_complete k ((i, w) ∷ m) v h = elim (Bool-cases (i == k)) [
    | inl e ↦ rw e refl
    | inr e ↦ rw e (keys_complete k m v (rw e at h))
  ]
