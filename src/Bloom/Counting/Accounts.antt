-- ===== src/Bloom/Counting/Accounts.antt =====
-- cas/bloom/counting/filter.go: the digests that the counters of a filter account for.
use go_cask.Common.{
  ℕ, ◌+◌, ◌*◌, ◌≤◌, ◌<◌, ◌≡◌, ap, inl, inr, true, false, List, [], ◌∷◌, arith, if◌then◌else◌,
  Bool-cases, length, bytes_eq, bytes_eq_iff,
}
use go_cask.Common.Assoc.{elem}
use go_cask.Digest.{Digest, is_zero}
use go_cask.Bloom.{IndexHash}
use go_cask.Bloom.Slices.{zeros}
use go_cask.Bloom.Counting.{
  width_bits, mask, packed_counter_bytes, add, remove, holds, Width, Filter,
}
use go_cask.Bloom.Counting.Balance.{counter-zeros, zeros-IsPacked}
use go_cask.Bloom.Counting.Holds.{
  IsSound, count, hits_of, hits_of_all, add-Counts, remove-Counts, hits_of_all-elem, hits_of_all-le,
  holds-hits,
}

-- A list less the first appearance of a digest.
unfoldable pub once_less : Digest → List Digest → List Digest
once_less d [] = []
once_less d (e ∷ ds) = let rest = once_less d ds in if bytes_eq e d then ds else e ∷ rest

-- Each counter of a sound filter is the number of hits of the digests.
abbrev pub Accounts : List Digest → Filter → Type 0
Accounts ds f = IsSound f × ((j : ℕ) → count f j ≡ hits_of_all f.hash f.m f.k ds j)

hits_of_all-once_less :
    (hash : IndexHash) (m k : ℕ) (d : Digest) (ds : List Digest) (j : ℕ)
    → elem d ds ≡ true
    → hits_of_all hash m k ds j ≡ hits_of hash m k d j + hits_of_all hash m k (once_less d ds) j
unfolding hits_of_all elem once_less
hits_of_all-once_less hash m k d [] j h = cc
hits_of_all-once_less hash m k d (e ∷ ds) j h = elim (Bool-cases (bytes_eq e d)) [
  | inl same ↦ rw same (
      ap (λ (i : Digest). hits_of hash m k i j + hits_of_all hash m k ds j)
        ((bytes_eq_iff e d).0 same))
  | inr differ ↦ rw differ (omega (arith, hits_of_all-once_less hash m k d ds j (rw differ at h)))
]

-- A new filter accounts for no digest.
pub zeros-Accounts :
    (m k : ℕ) (w : Width) (hash : IndexHash)
    → 0 < m
    → Accounts [] (record {
      counts = zeros (packed_counter_bytes m (width_bits w));
      k = k;
      m = m;
      bits = w;
      hash = hash;
    })
unfolding hits_of_all
zeros-Accounts m k w hash pos =
    (zeros-IsPacked m w pos, λ j. counter-zeros w j (packed_counter_bytes m (width_bits w)))

-- An `Add` is accounted for while the digests are too few to saturate a counter.
pub add-Accounts :
    (d : Digest) (ds : List Digest) (f : Filter)
    → Accounts ds f
    → length (d ∷ ds) * f.k ≤ mask f.bits
    → Accounts (d ∷ ds) (add d f)
unfolding add hits_of_all
add-Accounts d ds f (s, counts) few =
    let (sound, added) = add-Counts d f s in
    (sound, λ j. omega (arith, added j, counts j, few, hits_of_all-le f.hash f.m f.k (d ∷ ds) j))

-- A `Remove` of a digest that is accounted for takes its own hits.
pub remove-Accounts :
    (d : Digest) (ds : List Digest) (f : Filter)
    → elem d ds ≡ true
    → Accounts ds f
    → Accounts (once_less d ds) (remove d f)
unfolding remove
remove-Accounts d ds f there (s, counts) =
    let (sound, removed) = remove-Counts d f s in
    (
      sound,
      λ j. omega (arith, removed j, counts j, hits_of_all-once_less f.hash f.m f.k d ds j there),
    )

pub holds-Accounts :
    (d : Digest) (ds : List Digest) (f : Filter)
    → elem d ds ≡ true
    → is_zero d ≡ false
    → Accounts ds f
    → holds d f ≡ true
holds-Accounts d ds f there present (s, counts) =
    holds-hits d f present
      (λ j. omega (arith, counts j, hits_of_all-elem f.hash f.m f.k ds d j there))
