-- ===== src/Cbor.antt =====
-- cas/codec/cbor/cbor.go: values, and their compact CBOR.
pub mod Codec
pub mod Decoding
pub mod Lengths
pub mod Entries
pub mod ValueModel
pub mod RoundTrip
pub mod Refusals
use go_cask.Common.{
  ℕ, ◌+◌, ◌-◌, ◌*◌, ◌/◌, ◌%◌, ◌^◌, Bool, true, false, not, ◌||◌, List, [], ◌∷◌, ◌++◌, map, ltb, leb,
  ◌==◌, if◌then◌else◌, length, Bytes,
}
use go_cask.Common.Keys.{sorted_keys, map_values}
use go_cask.Errors.{is, ◌>>=◌, fail_if, ◌>>◌, Error, Result, other, err, ok}
use go_cask.BigEndian.{put_be}

-- The values of type `any` that the encoder tells apart. An integer type that is signed holds
-- `non_negative n` or `negative n`, which is -1 - n; a float is its bits; `strings_value` is a
-- []string and `string_map` a map[string]string. A map is its members in any order: of two with one
-- key the first counts.
mutual
  pub data Value : Type 0 where
    nil_value other_type : Value
    bool_value : Bool → Value
    non_negative negative uint_value float32_value float64_value : ℕ → Value
    string_value bytes_value : Bytes → Value
    strings_value : List Bytes → Value
    array_value : Values → Value
    map_value : Members → Value
    string_map : List (Bytes × Bytes) → Value

  pub data Values : Type 0 where
    no_items : Values
    and_item : Value → Values → Values

  pub data Members : Type 0 where
    no_members : Members
    and_member : Bytes → Value → Members → Members

-- `ErrTooDeep` and `ErrIntegerRange`; the other errors have no sentinel.
abbrev pub too_deep : Error
too_deep = other 40

abbrev pub integer_range : Error
integer_range = other 41

abbrev pub truncated : Error
truncated = other 42

abbrev pub malformed : Error
malformed = other 43

abbrev pub unsupported_value : Error
unsupported_value = other 44

abbrev pub max_depth : ℕ
max_depth = 128

-- `appendMajor`: the major type in the top three bits of the head, and the argument in as few bytes as
-- hold it.
unfoldable pub append_major : ℕ → ℕ → Bytes
append_major mt n =
    if ltb n 24
    then (mt * 32 + n) ∷ []
    else if leb n 255
    then (mt * 32 + 24) ∷ put_be 1 n
    else if leb n 65535
    then (mt * 32 + 25) ∷ put_be 2 n
    else if leb n 4294967295
    then (mt * 32 + 26) ∷ put_be 4 n
    else (mt * 32 + 27) ∷ put_be 8 n

unfoldable pub append_bytes : Bytes → Bytes
append_bytes content = append_major 2 (length content) ++ content

unfoldable pub append_string_bytes : Bytes → Bytes
append_string_bytes content = append_major 3 (length content) ++ content

-- `math.IsNaN(v) || math.IsInf(v, 0)`: the exponent bits are all ones.
unfoldable pub is_finite : ℕ → Bool
is_finite bits = not (bits / 2 ^ 52 % 2048 == 2047)

unfoldable pub encode_float64 : ℕ → Result Bytes
encode_float64 bits = do fail_if (not (is_finite bits)) unsupported_value; ok (0xfb ∷ put_be 8 bits)

-- The loops of `appendArrayValue` and `appendMapValue`, over what `appendEncodedValue` gives for each
-- item.
unfoldable pub append_items : List (Result Bytes) → Result Bytes
append_items [] = ok []
append_items (r ∷ rs) = do first ← r; rest ← append_items rs; ok (first ++ rest)

unfoldable pub append_members : List (Bytes × Result Bytes) → Result Bytes
append_members [] = ok []
append_members ((k, r) ∷ ms) = do
  first ← r
  rest ← append_members ms
  ok (append_string_bytes k ++ first ++ rest)

unfoldable pub append_array_value : List (Result Bytes) → Result Bytes
append_array_value items = do
  content ← append_items items
  ok (append_major 4 (length items) ++ content)

unfoldable pub append_map_value : List (Bytes × Result Bytes) → Result Bytes
append_map_value ms = do
  content ← append_members (sorted_keys ms)
  ok (append_major 5 (length (sorted_keys ms)) ++ content)

-- Floating-point arithmetic, on bits: the conversion of a float32 to a float64, and the float64 of
-- n · 2 ^ e / 2 ^ 25, which `math.Ldexp` gives exactly.
pub record Floats : Type 0 where
  pub widen : ℕ → ℕ
  pub scaled : ℕ → ℕ → ℕ

-- `appendEncodedValue`.
module _ (fl : Floats) where
  unfoldable mutual
    pub encode_any : Value → Result Bytes
    encode_any nil_value = ok (0xf6 ∷ [])
    encode_any other_type = err unsupported_value
    encode_any (bool_value true) = ok (0xf5 ∷ [])
    encode_any (bool_value false) = ok (0xf4 ∷ [])
    encode_any (non_negative n) = ok (append_major 0 n)
    encode_any (negative n) = ok (append_major 1 n)
    encode_any (uint_value n) = ok (append_major 0 n)
    encode_any (float32_value bits) = encode_float64 (Floats.widen fl bits)
    encode_any (float64_value bits) = encode_float64 bits
    encode_any (string_value content) = ok (append_string_bytes content)
    encode_any (bytes_value content) = ok (append_bytes content)
    encode_any (strings_value texts) =
        append_array_value (map (λ t. ok (append_string_bytes t)) texts)
    encode_any (array_value items) = append_array_value (encode_items items)
    encode_any (map_value ms) = append_map_value (encode_members ms)
    encode_any (string_map ms) = append_map_value (map_values (λ t. ok (append_string_bytes t)) ms)

    pub encode_items : Values → List (Result Bytes)
    encode_items no_items = []
    encode_items (and_item v vs) = encode_any v ∷ encode_items vs

    pub encode_members : Members → List (Bytes × Result Bytes)
    encode_members no_members = []
    encode_members (and_member k v ms) = (k, encode_any v) ∷ encode_members ms
