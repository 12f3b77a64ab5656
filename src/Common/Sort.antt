-- ===== src/Common/Sort.antt =====
-- `slices.Sort` on byte strings, in the order of `bytes.Compare`: the result is what any sort gives.
use mathlib.Core.Bool.{Bool, true, false, ◌&&◌, ◌||◌}
use mathlib.Core.List.{List, [], ◌∷◌}
use mathlib.Core.Logic.{inl, inr}
use mathlib.Core.Path.{◌≡◌, refl}
use native.Mathlib.Omega.{arith}
use go_cask.Common.Tests.{ltb, ◌==◌, if◌then◌else◌, Bool-cases}
use go_cask.Common.ByteStrings.{Bytes, bytes_eq}
use go_cask.Common.Assoc.{elem}

-- `bytes.Compare(a, b) <= 0`.
unfoldable pub bytes_leb : Bytes → Bytes → Bool
bytes_leb [] b = true
bytes_leb (x ∷ a) [] = false
bytes_leb (x ∷ a) (y ∷ b) = ltb x y || x == y && bytes_leb a b

unfoldable pub insert_sorted : Bytes → List Bytes → List Bytes
insert_sorted k [] = k ∷ []
insert_sorted k (j ∷ ks) =
    let rest = insert_sorted k ks in if bytes_leb k j then k ∷ j ∷ ks else j ∷ rest

unfoldable pub sort : List Bytes → List Bytes
sort [] = []
sort (k ∷ ks) = insert_sorted k (sort ks)

-- Each element is at most the next.
abbrev pub IsSorted : List Bytes → Type 0
IsSorted [] = Unit
IsSorted (k ∷ []) = Unit
IsSorted (k ∷ j ∷ ks) = (bytes_leb k j ≡ true) × IsSorted (j ∷ ks)

bytes_leb_total : (a b : Bytes) → bytes_leb a b ≡ false → bytes_leb b a ≡ true
unfolding bytes_leb
bytes_leb_total [] b h = cc
bytes_leb_total (x ∷ a) [] h = refl
bytes_leb_total (x ∷ a) (y ∷ b) h = ground (arith, bytes_leb_total a b)

insert_sorted-IsSorted : (k : Bytes) (ks : List Bytes) → IsSorted ks → IsSorted (insert_sorted k ks)
unfolding insert_sorted
insert_sorted-IsSorted k [] h = tt
insert_sorted-IsSorted k (j ∷ []) h = elim (Bool-cases (bytes_leb k j)) [
  | inl le ↦ rw le (le, tt)
  | inr gt ↦ rw gt (bytes_leb_total k j gt, tt)
]
insert_sorted-IsSorted k (j ∷ i ∷ ks) h = elim (Bool-cases (bytes_leb k j)) [
  | inl le ↦ rw le (le, h)
  | inr gt ↦ rw gt (elim (Bool-cases (bytes_leb k i)) [
    | inl le ↦ rw le (bytes_leb_total k j gt, (le, h.1))
    | inr gt' ↦ rw gt' (h.0, rw gt' at (insert_sorted-IsSorted k (i ∷ ks) h.1))
  ])
]

pub sort-IsSorted : (ks : List Bytes) → IsSorted (sort ks)
unfolding sort
sort-IsSorted [] = tt
sort-IsSorted (k ∷ ks) = insert_sorted-IsSorted k (sort ks) (sort-IsSorted ks)

pub elem-insert_sorted :
    (q k : Bytes) (ks : List Bytes) → elem q (insert_sorted k ks) ≡ (bytes_eq k q || elem q ks)
unfolding elem insert_sorted
elem-insert_sorted q k [] = refl
elem-insert_sorted q k (j ∷ ks) = ground (arith, elem-insert_sorted q k ks)

pub elem-sort : (q : Bytes) (ks : List Bytes) → elem q (sort ks) ≡ elem q ks
unfolding elem sort
elem-sort q [] = refl
elem-sort q (k ∷ ks) = ground (arith, elem-insert_sorted q k (sort ks), elem-sort q ks)
