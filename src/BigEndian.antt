-- ===== src/BigEndian.antt =====
-- encoding/binary: big-endian numbers, and pieces of a known length.
use go_cask.Common.{
  ℕ, zero, suc, ◌+◌, ◌*◌, ◌/◌, ◌%◌, ◌^◌, ◌<◌, ◌≡◌, refl, ◌∙◌, true, [], ◌∷◌, ◌++◌, arith, leb,
  length, take, drop, length-append, take-length_append, drop-length_append, Bytes,
}

-- `binary.BigEndian.PutUint…` into `k` bytes, and `binary.BigEndian.Uint…`.
unfoldable pub put_be : ℕ → ℕ → Bytes
put_be zero n = []
put_be (suc k) n = put_be k (n / 256) ++ n % 256 ∷ []

unfoldable pub be_from : ℕ → Bytes → ℕ
be_from acc [] = acc
be_from acc (b ∷ bs) = be_from (acc * 256 + b) bs

abbrev pub be : Bytes → ℕ
be = be_from 0

abbrev pub pow256 : ℕ → ℕ
pow256 zero = 1
pow256 (suc k) = 256 * pow256 k

pub length-put_be : (k n : ℕ) → length (put_be k n) ≡ k
unfolding put_be
length-put_be zero n = refl
length-put_be (suc k) n =
    omega (arith, length-append (put_be k (n / 256)) (n % 256 ∷ []), length-put_be k (n / 256))

be_from-append : (acc : ℕ) (xs ys : Bytes) → be_from acc (xs ++ ys) ≡ be_from (be_from acc xs) ys
unfolding be_from
be_from-append acc [] ys = refl
be_from-append acc (x ∷ xs) ys = be_from-append (acc * 256 + x) xs ys

be_from_one : (acc b : ℕ) → be_from acc (b ∷ []) ≡ acc * 256 + b
unfolding be_from
be_from_one acc b = refl

pub be-put_be : (k n : ℕ) → n < pow256 k → be (put_be k n) ≡ n
unfolding put_be
be-put_be zero n h = unfold be_from in omega arith
be-put_be (suc k) n h =
    be_from-append 0 (put_be k (n / 256)) (n % 256 ∷ [])
    ∙ be_from_one _ _
    ∙ rw (be-put_be k (n / 256) (omega arith)) (omega arith)

pub be-put_be_8 : (n : ℕ) → n < 2 ^ 64 → be (put_be 8 n) ≡ n
be-put_be_8 n h = be-put_be 8 n h

pub be-put_be_2 : (n : ℕ) → n < 2 ^ 16 → be (put_be 2 n) ≡ n
be-put_be_2 n h = be-put_be 2 n h

pub take_exact : (n : ℕ) (xs ys : Bytes) → length xs ≡ n → take n (xs ++ ys) ≡ xs
take_exact n xs ys h = rw (← h) (take-length_append xs ys)

pub drop_exact : (n : ℕ) (xs ys : Bytes) → length xs ≡ n → drop n (xs ++ ys) ≡ ys
drop_exact n xs ys h = rw (← h) (drop-length_append xs ys)

pub fits_exact : (n : ℕ) (xs ys : Bytes) → length xs ≡ n → leb n (length (xs ++ ys)) ≡ true
fits_exact n xs ys h = ground (arith, length-append xs ys)
