-- ===== src/Bits.antt =====
-- Go's `|` and `&` on words: one bit of a word, set and tested.
use Prim.Native.Nat.{min, max, digits, bitwise, bit_and, bit_or, bit_and-bitwise, bit_or-bitwise}
use native.Mathlib.Nat.{pow-suc}
use go_cask.Common.{
  ℕ, zero, suc, ◌+◌, ◌*◌, ◌/◌, ◌%◌, ◌^◌, ◌≤◌, ◌≡◌, refl, sym, ◌∙◌, Bool, true, false, not, ◌||◌,
  arith, ◌==◌,
}

-- The native operations recurse on a count of binary digits: more of it than the number has changes
-- nothing.
module _ (z : ℕ → ℕ) (f : ℕ → ℕ → ℕ) where
  no_digits : (k b : ℕ) → digits z f k 0 b ≡ z b
  no_digits zero b = refl
  no_digits (suc k) b = refl

  digits_more : (m n a b : ℕ) → n ≤ m → a ≤ n → digits z f m a b ≡ digits z f n a b
  digits_more m n zero b le h = no_digits m b ∙ sym (no_digits n b)
  digits_more m zero (suc a) b le h = absurd (omega arith)
  digits_more zero (suc n) (suc a) b le h = absurd (omega arith)
  digits_more (suc m) (suc n) (suc a) b le h =
      rw (digits_more m n (suc a / 2) (b / 2) (omega arith) (omega arith)) refl

  bitwise_lowest :
      (a b : ℕ)
      → bitwise z f (suc a) b ≡ bitwise z f (suc a / 2) (b / 2) * 2 + f (suc a % 2) (b % 2)
  bitwise_lowest a b =
      rw (digits_more a (suc a / 2) (suc a / 2) (b / 2) (omega arith) (omega arith)) refl

or_digit : (a b : ℕ) → bit_or a b ≡ bit_or (a / 2) (b / 2) * 2 + max (a % 2) (b % 2)
or_digit zero b = simp bit_or-bitwise (omega arith)
or_digit (suc a) b = simp bit_or-bitwise (bitwise_lowest (λ y. y) max a b)

and_digit : (a b : ℕ) → bit_and a b ≡ bit_and (a / 2) (b / 2) * 2 + min (a % 2) (b % 2)
and_digit zero b = simp bit_and-bitwise (omega arith)
and_digit (suc a) b = simp bit_and-bitwise (bitwise_lowest (λ y. 0) min a b)

and_none : (n a : ℕ) → a ≤ n → bit_and a 0 ≡ 0
and_none n zero h = refl
and_none zero (suc a) h = absurd (omega arith)
and_none (suc n) (suc a) h =
    omega (arith, and_digit (suc a) 0, and_none n (suc a / 2) (omega arith))

-- `w & (1 << i) != 0`.
unfoldable pub bit_at : ℕ → ℕ → Bool
bit_at w i = not (bit_and w (2 ^ i) == 0)

-- The bit at `i`, from the bits of half of the word.
bit_at-zero : (w : ℕ) → bit_at w 0 ≡ (w % 2 == 1)
unfolding bit_at
bit_at-zero w = ground (arith, and_digit w 1, and_none (w / 2) (w / 2) (omega arith))

bit_at-suc : (w i : ℕ) → bit_at w (suc i) ≡ bit_at (w / 2) i
unfolding bit_at
bit_at-suc w i = ground (
  arith,
  and_digit w (2 ^ suc i),
  pow-suc 2 i,
  halves (2 ^ suc i) (2 ^ i) (omega (arith, pow-suc 2 i)),
)
  where
    halves : (p q : ℕ) → p ≡ 2 * q → bit_and (w / 2) (p / 2) ≡ bit_and (w / 2) q
    halves p q e = rw (half p q e) refl
      where
        half : (p q : ℕ) → p ≡ 2 * q → p / 2 ≡ q
        half p q e = omega arith

or_half : (a b : ℕ) → bit_or a b / 2 ≡ bit_or (a / 2) (b / 2)
or_half a b = omega (arith, or_digit a b)

-- A bit of `a | b` is that bit of `a` or of `b`.
pub bit_at-bit_or : (a b i : ℕ) → bit_at (bit_or a b) i ≡ (bit_at a i || bit_at b i)
bit_at-bit_or a b zero =
    rw (bit_at-zero (bit_or a b), bit_at-zero a, bit_at-zero b) (ground (arith, or_digit a b))
bit_at-bit_or a b (suc i) =
    rw (bit_at-suc (bit_or a b) i, bit_at-suc a i, bit_at-suc b i, or_half a b)
      (bit_at-bit_or (a / 2) (b / 2) i)

-- `1 << i` has the bit at `i`.
pub bit_at_own : (i : ℕ) → bit_at (2 ^ i) i ≡ true
bit_at_own zero = bit_at-zero 1
bit_at_own (suc i) = rw (bit_at-suc (2 ^ suc i) i) (rw (half_pow i) (bit_at_own i))
  where
    half_pow : (i : ℕ) → 2 ^ suc i / 2 ≡ 2 ^ i
    half_pow i = omega (arith, pow-suc 2 i)

pub bit_at_zero : (i : ℕ) → bit_at 0 i ≡ false
bit_at_zero zero = bit_at-zero 0
bit_at_zero (suc i) = bit_at-suc 0 i ∙ bit_at_zero i
