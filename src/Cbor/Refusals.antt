-- ===== src/Cbor/Refusals.antt =====
-- cas/codec/cbor/cbor.go: what the decoder refuses.
use go_cask.Common.{
  ℕ, zero, suc, ◌^◌, ◌≤◌, ◌<◌, ◌≡◌, refl, [], ◌∷◌, ◌++◌, append-nil, arith, le→ltb, length, Bytes,
}
use go_cask.Errors.{err, ok}
use go_cask.Cbor.{
  too_deep, integer_range, truncated, max_depth, append_major, append_items, append_array_value,
  encode_any, Value, Floats, nil_value, uint_value, array_value, no_items, and_item,
}
use go_cask.Cbor.Decoding.{
  read_length, decode_items, decode_array, decode_integer, decode_payload, decode_head, decode_one,
  decode_any,
}
use go_cask.Cbor.Lengths.{decode_head-append_major}

module _ (fl : Floats) where
  -- `n` arrays of one item, around nil.
  abbrev pub nested : ℕ → Value
  nested zero = nil_value
  nested (suc n) = array_value (and_item (nested n) no_items)

  abbrev pub nested_bytes : ℕ → Bytes
  nested_bytes zero = 0xf6 ∷ []
  nested_bytes (suc n) = 0x81 ∷ nested_bytes n

  nested-encoded : (n : ℕ) → encode_any fl (nested n) ≡ ok (nested_bytes n)
  unfolding encode_any append_array_value append_items append_major
  nested-encoded zero = refl
  nested-encoded (suc n) = rw (nested-encoded n) (rw (append-nil (nested_bytes n)) refl)

  some_byte : (n : ℕ) → 1 ≤ length (nested_bytes n)
  some_byte zero = omega arith
  some_byte (suc n) = omega arith

  nested_too_deep :
      (levels n : ℕ) → levels ≤ n → decode_one fl levels (nested_bytes n) ≡ err too_deep
  unfolding decode_one decode_head read_length decode_payload decode_array decode_items
  nested_too_deep zero n h = refl
  nested_too_deep (suc levels) zero h = absurd (omega arith)
  nested_too_deep (suc levels) (suc n) h =
      rw (le→ltb (length (nested_bytes n)) 1 (some_byte n))
        (rw (nested_too_deep levels n (omega arith)) refl)

  -- An unsigned integer of 2 ^ 63 or more is encoded, and its bytes are refused with ErrIntegerRange,
  -- whatever follows them; arrays of one item each around nil, nested more than MaxDepth deep, are
  -- encoded, and refused with
  -- ErrTooDeep; and Decode accepts no empty input.
  pub decode_any-refuses :
      (n depth : ℕ) (rest : Bytes)
      → 2 ^ 63 ≤ n
      → n < 2 ^ 64
      → max_depth < depth
      → (encode_any fl (uint_value n) ≡ ok (append_major 0 n))
        × (decode_any fl (append_major 0 n ++ rest) ≡ err integer_range)
        × (encode_any fl (nested depth) ≡ ok (nested_bytes depth))
        × (decode_any fl (nested_bytes depth) ≡ err too_deep)
        × (decode_any fl [] ≡ err truncated)
  unfolding encode_any decode_any decode_payload decode_integer decode_one
  decode_any-refuses n depth rest low high deep = (
    refl,
    rw (decode_head-append_major fl max_depth 0 n rest (omega arith) high)
        (rw (le→ltb n (2 ^ 63) low) refl),
    nested-encoded depth,
    rw (nested_too_deep (suc max_depth) depth (omega arith)) refl,
    refl,
  )
