-- ===== src/Tests/Cbors.antt =====
-- CBOR: cas/codec/cbor.
use go_cask.Common.{ℕ, ◌^◌, ◌≡◌, refl, true, [], ◌∷◌, ◌++◌, arith, Bytes, bytes_eq}
use go_cask.Common.Keys.{set_key, sorted_keys}
use go_cask.Errors.{err, ok}
use go_cask.BigEndian.{put_be}
use go_cask.Common.Sort.{bytes_leb}
use go_cask.Cbor.{
  too_deep, integer_range, truncated, malformed, append_major, append_string_bytes, append_items,
  append_members, append_array_value, append_map_value, encode_any, Value, Floats, bool_value,
  uint_value, string_value, array_value, map_value, no_items, and_item, no_members, and_member,
}
use go_cask.Cbor.Decoding.{decode_any}
use go_cask.Cbor.ValueModel.{height, normal, normal_members, Fits}
use go_cask.Cbor.RoundTrip.{decode_any-encode_any}
use go_cask.Cbor.Refusals.{nested, nested_bytes, decode_any-refuses}
use go_cask.Tests.Data.{ab}

abbrev floats : Floats
floats = record { widen = λ bits. bits; scaled = λ n e. n }

-- {"b": uint(300), "a": []any{true, "ab"}}.
abbrev sample : Value
sample = map_value (
    and_member (98 ∷ []) (uint_value 300) (
      and_member (97 ∷ [])
        (array_value (and_item (bool_value true) (and_item (string_value ab) no_items)))
        no_members))

-- Its members are written in the order of their keys.
encode_any-sample :
    encode_any floats sample
    ≡ ok (0xa2 ∷ 0x61 ∷ 97 ∷ 0x82 ∷ 0xf5 ∷ 0x62 ∷ 97 ∷ 98 ∷ 0x61 ∷ 98 ∷ 0x19 ∷ 1 ∷ 44 ∷ [])
unfolding encode_any append_map_value append_members sorted_keys set_key bytes_eq bytes_leb
    append_array_value append_items append_major append_string_bytes put_be
encode_any-sample = refl

decode_any-encode_any_example :
    (content : Bytes) × (encode_any floats sample ≡ ok content)
    × (decode_any floats content ≡ ok (normal floats sample))
    × ((b : ℕ) (rest : Bytes) → decode_any floats (content ++ b ∷ rest) ≡ err malformed)
unfolding normal_members
decode_any-encode_any_example =
    decode_any-encode_any floats sample
      (unfold Fits in
        (
          omega arith,
          (omega arith, omega arith, (omega arith, (omega arith, (tt, (omega arith, tt))), tt)),
        ))
      (unfold height in omega arith)

decode_any-refuses_example :
    (encode_any floats (uint_value (2 ^ 63)) ≡ ok (append_major 0 (2 ^ 63)))
    × (decode_any floats (append_major 0 (2 ^ 63) ++ ab) ≡ err integer_range)
    × (encode_any floats (nested floats 129) ≡ ok (nested_bytes floats 129))
    × (decode_any floats (nested_bytes floats 129) ≡ err too_deep)
    × (decode_any floats [] ≡ err truncated)
decode_any-refuses_example =
    decode_any-refuses floats (2 ^ 63) 129 ab (omega arith) (omega arith) (omega arith)
