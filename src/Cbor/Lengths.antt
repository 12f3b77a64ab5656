-- ===== src/Cbor/Lengths.antt =====
-- cas/codec/cbor/cbor.go: the head of a value is read as it was written.
use go_cask.Common.{
  ℕ, suc, ◌+◌, ◌*◌, ◌/◌, ◌%◌, ◌^◌, ◌≤◌, ◌<◌, ◌≡◌, refl, inl, inr, false, [], ◌∷◌, ◌++◌, arith, ltb,
  leb, ◌==◌, if◌then◌else◌, le→ltb, Bool-cases, length, length-append, Bytes,
}
use go_cask.Errors.{ok}
use go_cask.BigEndian.{put_be, pow256, length-put_be, be-put_be, take_exact, drop_exact}
use go_cask.Cbor.{append_major, Floats}
use go_cask.Cbor.Decoding.{read_number, read_length, decode_payload, decode_head, decode_one}

-- The additional information that `appendMajor` puts in the head, and the bytes after it.
abbrev head_info : ℕ → ℕ
head_info n =
    if ltb n 24
    then n
    else if leb n 255
    then 24
    else if leb n 65535
    then 25
    else if leb n 4294967295
    then 26
    else 27

abbrev argument : ℕ → Bytes
argument n =
    if ltb n 24
    then []
    else if leb n 255
    then put_be 1 n
    else if leb n 65535
    then put_be 2 n
    else if leb n 4294967295
    then put_be 4 n
    else put_be 8 n

append_major-head : (mt n : ℕ) → append_major mt n ≡ (mt * 32 + head_info n) ∷ argument n
unfolding append_major
append_major-head mt n = ground arith

pub read_number-put_be :
    (k n : ℕ) (rest : Bytes) → n < pow256 k → read_number k (put_be k n ++ rest) ≡ ok (n, rest)
unfolding read_number
read_number-put_be k n rest h =
    rw
      (le→ltb (length (put_be k n ++ rest)) k
        (omega (arith, length-append (put_be k n) rest, length-put_be k n)))
      (rw
        (
          take_exact k (put_be k n) rest (length-put_be k n),
          drop_exact k (put_be k n) rest (length-put_be k n),
          be-put_be k n h,
        )
        refl)

read_length-argument :
    (n : ℕ) (rest : Bytes)
    → n < 2 ^ 64
    → read_length (argument n ++ rest) (head_info n) ≡ ok (n, rest)
unfolding read_length
read_length-argument n rest h = elim (Bool-cases (ltb n 24)) [
  | inl small ↦ rw (small, small) refl
  | inr n24 ↦ elim (Bool-cases (leb n 255)) [
    | inl one ↦ rw (n24, one) (read_number-put_be 1 n rest (ground arith))
    | inr n255 ↦ elim (Bool-cases (leb n 65535)) [
      | inl two ↦ rw (n24, n255, two) (read_number-put_be 2 n rest (ground arith))
      | inr n65535 ↦ elim (Bool-cases (leb n 4294967295)) [
        | inl four ↦ rw (n24, n255, n65535, four) (read_number-put_be 4 n rest (ground arith))
        | inr wide ↦ rw (n24, n255, n65535, wide) (read_number-put_be 8 n rest h)
      ]
    ]
  ]
]

head_info-le : (n : ℕ) → head_info n < 32
head_info-le n = ground arith

-- Decoding goes on with the argument of the head.
pub decode_head-append_major :
    (fl : Floats) (l mt n : ℕ) (rest : Bytes)
    → mt < 7
    → n < 2 ^ 64
    → decode_one fl (suc l) (append_major mt n ++ rest) ≡ decode_payload (decode_one fl l) mt n rest
unfolding decode_one decode_head
decode_head-append_major fl l mt n rest small h = rw (append_major-head mt n) (
    rw (quotient (head_info n) (head_info-le n), remainder (head_info n) (head_info-le n))
      (rw (not_simple, read_length-argument n rest h) refl))
  where
    quotient : (i : ℕ) → i < 32 → (mt * 32 + i) / 32 ≡ mt
    quotient i h = omega arith

    remainder : (i : ℕ) → i < 32 → (mt * 32 + i) % 32 ≡ i
    remainder i h = omega arith

    not_simple : (mt == 7) ≡ false
    not_simple = ground arith

pub append_major-nonempty : (mt n : ℕ) → 1 ≤ length (append_major mt n)
append_major-nonempty mt n = rw (append_major-head mt n) (omega arith)
