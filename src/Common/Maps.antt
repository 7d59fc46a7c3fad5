-- ===== src/Common/Maps.antt =====
-- Go's maps with text keys, as association lists.
use Prim.Native.Nat.{◌≤◌, ◌<◌}
use mathlib.Core.Logic.{◌⊎◌, inl, inr}
use Prim.Native.String.{String}
use mathlib.Core.Path.{◌≡◌, refl}
use mathlib.Core.Option.{Option, none, some}
use mathlib.Core.List.{List, [], ◌∷◌}
use native.Mathlib.Omega.{arith}
use text.Mathlib.TextEquality.{eq_iff}
use proton_api_bridge.Common.Tests.{
  ◌==◌, if◌then◌else◌, is_some, test_refl, test_of_eq, String-cases,
}
use proton_api_bridge.Common.Lists.{length, contains}

abbrev pub Map : Type 0 → Type 0
Map V = List (String × V)

module _ {V : Type 0} where
  -- `m[k]`, with `none` for a key that is absent
  unfoldable pub lookup : String → Map V → Option V
  lookup k [] = none
  lookup k ((j, v) ∷ m) = if j == k then some v else lookup k m

  -- `delete(m, k)`
  unfoldable pub delete : String → Map V → Map V
  delete k [] = []
  delete k ((j, v) ∷ m) = if j == k then delete k m else (j, v) ∷ delete k m

  -- `m[k] = v`
  unfoldable pub insert : String → V → Map V → Map V
  unfolding delete
  insert k v m = (k, v) ∷ delete k m

  -- the keys that a `range` over the map visits
  unfoldable pub keys : Map V → List String
  keys [] = []
  keys ((j, v) ∷ m) = j ∷ keys m

  pub lookup-nil : (k : String) → lookup k [] ≡ none
  unfolding lookup
  lookup-nil k = refl

  pub lookup-delete :
      (j k : String) (m : Map V) → lookup j (delete k m) ≡ (if k == j then none else lookup j m)
  unfolding lookup delete
  lookup-delete j k [] = ground arith
  lookup-delete j k ((i, w) ∷ m) =
      ground (arith, eq_iff k j, eq_iff i k, eq_iff i j, lookup-delete j k m)

  pub lookup-insert :
      (j k : String) (v : V) (m : Map V)
      → lookup j (insert k v m) ≡ (if k == j then some v else lookup j m)
  unfolding lookup insert
  lookup-insert j k v m = ground (arith, lookup-delete j k m)

  pub lookup-delete_self : (k : String) (m : Map V) → lookup k (delete k m) ≡ none
  lookup-delete_self k m = ground (arith, lookup-delete k k m, test_refl k)

  pub lookup-insert_self : (k : String) (v : V) (m : Map V) → lookup k (insert k v m) ≡ some v
  lookup-insert_self k v m = ground (arith, lookup-insert k k v m, test_refl k)

  pub contains-keys : (k : String) (m : Map V) → contains k (keys m) ≡ is_some (lookup k m)
  unfolding keys lookup
  contains-keys k [] = refl
  contains-keys k ((j, v) ∷ m) = ground (arith, contains-keys k m)

  pub length-delete-le : (k : String) (m : Map V) → length (delete k m) ≤ length m
  unfolding delete
  length-delete-le k [] = omega arith
  length-delete-le k ((j, v) ∷ m) = ground (arith, length-delete-le k m)

  -- Deleting a key that is present makes the map smaller.
  pub length-delete-lt :
      (k : String) (m : Map V) {v : V} → lookup k m ≡ some v → length (delete k m) < length m
  unfolding lookup delete
  length-delete-lt k [] h = cc
  length-delete-lt k ((j, w) ∷ m) {v} h =
      ground (arith, length-delete-le k m, length-delete-lt k m {v = v})

  -- What is found after an insertion is the new value or was there.
  pub lookup-insert_inv :
      (j k : String) (v : V) (m : Map V) {e : V}
      → lookup j (insert k v m) ≡ some e
      → ((k ≡ j) × (v ≡ e)) ⊎ (lookup j m ≡ some e)
  lookup-insert_inv j k v m h = elim (String-cases k j) [
    | inl same ↦ inl (same, ground (arith, h, lookup-insert j k v m, test_of_eq k j same))
    | inr other ↦ inr (ground (arith, h, lookup-insert j k v m))
  ]
