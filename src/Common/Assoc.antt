-- ===== src/Common/Assoc.antt =====
-- A Go map from byte strings, as an association list: reading, writing, deleting, and the bytes that
-- its values hold together. The order of the entries is the model's own; nothing reads it.
use Prim.Native.Nat.{ℕ, ◌+◌}
use mathlib.Core.Bool.{Bool, false, ◌||◌}
use mathlib.Core.List.{List, [], ◌∷◌}
use mathlib.Core.Logic.{inl, inr}
use mathlib.Core.Option.{Option, none, some}
use mathlib.Core.Path.{◌≡◌, refl, ap}
use native.Mathlib.Omega.{arith}
use go_cask.Common.Tests.{if◌then◌else◌, Bool-cases}
use go_cask.Common.Lists.{length}
use go_cask.Common.ByteStrings.{Bytes, bytes_eq, bytes_eq_iff}

-- A set of byte strings, `map[string]struct{}`.
unfoldable pub elem : Bytes → List Bytes → Bool
elem k [] = false
elem k (j ∷ ks) = bytes_eq j k || elem k ks

module _ {ℓ} {V : Type ℓ} where
  unfoldable pub lookup : Bytes → List (Bytes × V) → Option V
  lookup k [] = none
  lookup k ((j, v) ∷ m) = if bytes_eq j k then some v else lookup k m

  unfoldable pub insert : Bytes → V → List (Bytes × V) → List (Bytes × V)
  insert k v [] = (k, v) ∷ []
  insert k v ((j, w) ∷ m) =
      let rest = insert k v m in if bytes_eq j k then (j, v) ∷ m else (j, w) ∷ rest

  unfoldable pub remove : Bytes → List (Bytes × V) → List (Bytes × V)
  remove k [] = []
  remove k ((j, w) ∷ m) = let rest = remove k m in if bytes_eq j k then rest else (j, w) ∷ rest

  abbrev pub keys : List (Bytes × V) → List Bytes
  keys [] = []
  keys ((k, v) ∷ m) = k ∷ keys m

  -- No key stands twice.
  abbrev pub Distinct : List (Bytes × V) → Type ℓ
  Distinct [] = Unit
  Distinct ((k, v) ∷ m) = (lookup k m ≡ none) × Distinct m

  pub lookup-insert :
      (k j : Bytes) (v : V) (m : List (Bytes × V))
      → lookup j (insert k v m) ≡ (if bytes_eq k j then some v else lookup j m)
  unfolding lookup insert
  lookup-insert k j v [] = refl
  lookup-insert k j v ((i, w) ∷ m) =
      ground (arith, bytes_eq_iff k j, bytes_eq_iff i k, bytes_eq_iff i j, lookup-insert k j v m)

  pub lookup-remove :
      (k j : Bytes) (m : List (Bytes × V))
      → lookup j (remove k m) ≡ (if bytes_eq k j then none else lookup j m)
  unfolding lookup remove
  lookup-remove k j [] = ground arith
  lookup-remove k j ((i, w) ∷ m) =
      ground (arith, bytes_eq_iff k j, bytes_eq_iff i k, bytes_eq_iff i j, lookup-remove k j m)

  pub elem-keys : (k : Bytes) (m : List (Bytes × V)) → (elem k (keys m) ≡ false) → lookup k m ≡ none
  unfolding lookup elem
  elem-keys k [] h = refl
  elem-keys k ((j, v) ∷ m) h = ground (arith, elem-keys k m)

  pub remove_absent : (k : Bytes) (m : List (Bytes × V)) → lookup k m ≡ none → remove k m ≡ m
  unfolding lookup remove
  remove_absent k [] h = refl
  remove_absent k ((j, w) ∷ m) h = ground (arith, remove_absent k m)

  pub insert-Distinct :
      (k : Bytes) (v : V) (m : List (Bytes × V)) → Distinct m → Distinct (insert k v m)
  unfolding insert
  insert-Distinct k v [] d = (unfold lookup in refl, tt)
  insert-Distinct k v ((j, w) ∷ m) d = elim (Bool-cases (bytes_eq j k)) [
    | inl same ↦ rw same d
    | inr other ↦ rw other (
      ground (arith, lookup-insert k j v m, bytes_eq_iff k j, bytes_eq_iff j k, d.0),
      insert-Distinct k v m d.1,
    )
  ]

  pub remove-Distinct : (k : Bytes) (m : List (Bytes × V)) → Distinct m → Distinct (remove k m)
  unfolding remove
  remove-Distinct k [] d = tt
  remove-Distinct k ((j, w) ∷ m) d = elim (Bool-cases (bytes_eq j k)) [
    | inl same ↦ rw same (remove-Distinct k m d.1)
    | inr other ↦ rw other (ground (arith, lookup-remove k j m, d.0), remove-Distinct k m d.1)
  ]

-- The bytes of the values together, and of the value at one key.
unfoldable pub total : List (Bytes × Bytes) → ℕ
total [] = 0
total ((k, v) ∷ m) = length v + total m

unfoldable pub size_at : Bytes → List (Bytes × Bytes) → ℕ
size_at k m = elim (lookup k m) [ none ↦ 0 | some v ↦ length v ]

pub total-insert :
    (k v : Bytes) (m : List (Bytes × Bytes))
    → total (insert k v m) + size_at k m ≡ total m + length v
unfolding total size_at insert lookup
total-insert k v [] = omega arith
total-insert k v ((j, w) ∷ m) = ground (arith, total-insert k v m)

pub total-remove :
    (k : Bytes) (m : List (Bytes × Bytes)) → Distinct m → total (remove k m) + size_at k m ≡ total m
unfolding total size_at remove lookup
total-remove k [] d = refl
total-remove k ((j, w) ∷ m) d =
    ground (arith, total-remove k m d.1, d.0, bytes_eq_iff j k, ap total (remove_absent j m d.0))
