-- ===== src/Tests/Blooms.antt =====
-- The Bloom filters: cas/bloom/standard, cas/bloom/counting, and a guard over them.
use go_cask.Common.{
  ℕ, ◌+◌, ◌*◌, ◌≤◌, ◌≡◌, refl, true, false, [], ◌∷◌, ◌++◌, arith, length, bytes_eq,
}
use go_cask.Common.Assoc.{elem}
use go_cask.Bloom.{IndexHash}
use go_cask.Bloom.Slices.{zeros}
use go_cask.Bloom.Counting.Balance.{counter-zeros, zeros-IsPacked}
use go_cask.Tests.Data.{ab, short_digest}
use go_cask.Bloom.Standard as Standard
use go_cask.Bloom.Standard.Words as Words
use go_cask.Bloom.Standard.Holds as StandardHolds
use go_cask.Bloom.Counting as Counting
use go_cask.Bloom.Counting.Holds as CountingHolds

-- A hash on which every digest of the same length collides.
abbrev by_length : IndexHash
by_length d i = length d * 7 + i * 45

abbrev bits_filter : Standard.Filter
bits_filter = record { bits = 0 ∷ 0 ∷ []; k = 3; m = 100; hash = by_length }

bits_filter-IsSound : Words.IsSound bits_filter
bits_filter-IsSound = record { positive = omega arith; room = omega arith }

holds-add_all_example :
    (Standard.holds ab (StandardHolds.add_all (short_digest ∷ ab ∷ []) bits_filter) ≡ true)
    × (Standard.holds ab (Standard.reset bits_filter) ≡ false)
unfolding bytes_eq
holds-add_all_example =
    StandardHolds.holds-add_all (short_digest ∷ ab ∷ []) ab bits_filter bits_filter-IsSound
      (omega arith) (unfold elem in refl) refl

abbrev counters : Counting.Filter
counters = record { counts = zeros 5; k = 2; m = 10; bits = Counting.four; hash = by_length }

counters-IsSound : CountingHolds.IsSound counters
unfolding Counting.packed_counter_bytes
counters-IsSound = zeros-IsPacked 10 Counting.four (omega arith)

below :
    (j : ℕ)
    → CountingHolds.count counters j
        + CountingHolds.hits_of_all by_length 10 2 ((short_digest ∷ []) ++ (ab ∷ [])) j
      ≤ 15
below j = omega (
  arith,
  counter-zeros Counting.four j 5,
  CountingHolds.hits_of_all-le by_length 10 2 ((short_digest ∷ []) ++ (ab ∷ [])) j,
)

remove_all-balanced_example :
    ((j : ℕ)
      → CountingHolds.count (CountingHolds.left_over (short_digest ∷ []) (ab ∷ []) counters) j
        ≡ CountingHolds.count counters j + CountingHolds.hits_of_all by_length 10 2 (ab ∷ []) j)
    × (Counting.holds ab (CountingHolds.left_over (short_digest ∷ []) (ab ∷ []) counters) ≡ true)
unfolding bytes_eq
remove_all-balanced_example =
    CountingHolds.remove_all-balanced (short_digest ∷ []) (ab ∷ []) counters counters-IsSound below
      ab (unfold elem in refl) refl
