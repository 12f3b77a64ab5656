-- ===== src/Cbor/Decoding.antt =====
-- cas/codec/cbor/cbor.go: reading values from bytes that are not trusted.
use go_cask.Common.{
  ℕ, zero, suc, ◌+◌, ◌*◌, ◌/◌, ◌%◌, ◌^◌, true, false, not, List, [], ◌∷◌, ltb, ◌==◌, if◌then◌else◌,
  is_empty, length, take, drop, Bytes,
}
use go_cask.Common.Keys.{set_key}
use go_cask.Errors.{◌>>=◌, fail_if, ◌>>◌, Result, err, ok}
use go_cask.BigEndian.{be}
use go_cask.Cbor.{
  too_deep, integer_range, truncated, malformed, max_depth, Value, Values, Members, Floats,
  nil_value, bool_value, non_negative, negative, float64_value, string_value, bytes_value,
  array_value, map_value, no_items, and_item, no_members, and_member,
}

-- `readLength`, which answers with the bytes after those that it has read.
unfoldable pub read_number : ℕ → Bytes → Result (ℕ × Bytes)
read_number n content =
    if ltb (length content) n then err truncated else ok (be (take n content), drop n content)

unfoldable pub read_length : Bytes → ℕ → Result (ℕ × Bytes)
read_length content ai =
    if ltb ai 24
    then ok (ai, content)
    else if ai == 24
    then read_number 1 content
    else if ai == 25
    then read_number 2 content
    else if ai == 26
    then read_number 4 content
    else if ai == 27
    then read_number 8 content
    else err malformed

-- `halfToFloat64`: the sign is the top bit of the result.
unfoldable pub half_to_float64 : Floats → ℕ → ℕ
half_to_float64 fl bits =
    let sign = bits / 2 ^ 15 % 2 * 2 ^ 63 in
    let exp = bits / 2 ^ 10 % 32 in
    let frac = bits % 2 ^ 10 in
    if exp == 0
    then sign + Floats.scaled fl frac 1
    else if exp == 31
    then (if frac == 0 then sign + 2047 * 2 ^ 52 else 0x7ff8000000000001)
    else sign + Floats.scaled fl (1024 + frac) exp

-- A float of `n` bytes.
unfoldable pub decode_float : (ℕ → ℕ) → ℕ → Bytes → Result (Value × Bytes)
decode_float convert n content = do
  (bits, rest) ← read_number n content
  ok (float64_value (convert bits), rest)

-- The major type 7.
unfoldable pub decode_simple : Floats → ℕ → Bytes → Result (Value × Bytes)
decode_simple fl addl content =
    if addl == 20
    then ok (bool_value false, content)
    else if addl == 21
    then ok (bool_value true, content)
    else if addl == 22
    then ok (nil_value, content)
    else if addl == 25
    then decode_float (half_to_float64 fl) 2 content
    else if addl == 26
    then decode_float (Floats.widen fl) 4 content
    else if addl == 27
    then decode_float (λ bits. bits) 8 content
    else err malformed

unfoldable pub of_list : List Value → Values
of_list [] = no_items
of_list (v ∷ vs) = and_item v (of_list vs)

unfoldable pub of_members : List (Bytes × Value) → Members
of_members [] = no_members
of_members ((k, v) ∷ ms) = and_member k v (of_members ms)

-- `key.(string)`.
unfoldable pub key_string : Value → Result Bytes
key_string (string_value k) = ok k
key_string v = err malformed

-- The loops over the items of an array and the members of a map; `one` decodes a value one level
-- deeper.
module _ (one : Bytes → Result (Value × Bytes)) where
  unfoldable pub decode_items : ℕ → Bytes → Result (List Value × Bytes)
  decode_items zero content = ok ([], content)
  decode_items (suc n) content = do
    (v, rest) ← one content
    (vs, rest') ← decode_items n rest
    ok (v ∷ vs, rest')

  unfoldable pub decode_members :
      ℕ → Bytes → List (Bytes × Value) → Result (List (Bytes × Value) × Bytes)
  decode_members zero content ms = ok (ms, content)
  decode_members (suc n) content ms = do
    (key, rest) ← one content
    k ← key_string key
    (v, rest') ← one rest
    decode_members n rest' (set_key k v ms)

  unfoldable pub decode_array : ℕ → Bytes → Result (Value × Bytes)
  decode_array n content = do
    fail_if (ltb (length content) n) truncated
    (vs, rest) ← decode_items n content
    ok (array_value (of_list vs), rest)

  unfoldable pub decode_map : ℕ → Bytes → Result (Value × Bytes)
  decode_map n content = do
    fail_if (ltb (length content) n) truncated
    (ms, rest) ← decode_members n content []
    ok (map_value (of_members ms), rest)

-- The major types 0 and 1, and 2 and 3.
unfoldable pub decode_integer : (ℕ → Value) → ℕ → Bytes → Result (Value × Bytes)
decode_integer as_value n content = do
  fail_if (not (ltb n (2 ^ 63))) integer_range
  ok (as_value n, content)

unfoldable pub decode_content : (Bytes → Value) → ℕ → Bytes → Result (Value × Bytes)
decode_content as_value n content = do
  fail_if (ltb (length content) n) truncated
  ok (as_value (take n content), drop n content)

-- What the argument means, by the major type.
unfoldable pub decode_payload :
    (Bytes → Result (Value × Bytes)) → ℕ → ℕ → Bytes → Result (Value × Bytes)
decode_payload one major n content =
    if major == 0
    then decode_integer non_negative n content
    else if major == 1
    then decode_integer negative n content
    else if major == 2
    then decode_content bytes_value n content
    else if major == 3
    then decode_content string_value n content
    else if major == 4
    then decode_array one n content
    else if major == 5
    then decode_map one n content
    else err malformed

-- A value whose head has been read.
unfoldable pub decode_head :
    Floats → (Bytes → Result (Value × Bytes)) → ℕ → Bytes → Result (Value × Bytes)
decode_head fl one b content =
    if b / 32 == 7
    then decode_simple fl (b % 32) content
    else (read_length content (b % 32) >>= λ ((n, body) : ℕ × Bytes).
        decode_payload one (b / 32) n body)

module _ (fl : Floats) where
  -- `decodeOne`: `levels` is MaxDepth + 1 - depth.
  unfoldable pub decode_one : ℕ → Bytes → Result (Value × Bytes)
  decode_one zero content = err too_deep
  decode_one (suc levels) [] = err truncated
  decode_one (suc levels) (b ∷ content) = decode_head fl (decode_one levels) b content

  unfoldable pub decode_any : Bytes → Result Value
  decode_any content = do
    (v, rest) ← decode_one (suc max_depth) content
    fail_if (not (is_empty rest)) malformed
    ok v
