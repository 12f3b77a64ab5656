-- ===== src/Cbor/Codec.antt =====
-- cas/codec/cbor/cbor.go: the codec, which owns the conversion of a value or delegates to another.
use go_cask.Common.{Option, none, some, [], ◌∷◌, Bytes}
use go_cask.Errors.{◌>>=◌, Error, Result, other, err, ok}
use go_cask.BinaryCodec.{Inner}
use go_cask.Cbor.{
  malformed, append_map_value, encode_any, encode_members, Value, Members, Floats, map_value,
}
use go_cask.Cbor.Decoding.{decode_any}

-- A function field that is nil is `none`. An inner codec that declares no tag has the empty tag.
pub record Codec (T : Type 0) : Type 0 where
  pub next : Option (Inner T)
  pub encode_func : Option (T → Result Bytes)
  pub decode_func : Option (Bytes → Result T)

unfoldable pub new_codec :
    {T : Type 0}
    → Option (Inner T)
    → Option (T → Result Bytes)
    → Option (Bytes → Result T)
    → Codec T
new_codec next encode decode = record { next = next; encode_func = encode; decode_func = decode }

unfoldable pub new_raw :
    {T : Type 0} → Option (T → Result Bytes) → Option (Bytes → Result T) → Codec T
new_raw encode decode = record { next = none; encode_func = encode; decode_func = decode }

-- `NewValue`.
unfoldable pub new_value : Floats → Codec Value
new_value fl = new_raw (some (encode_any fl)) (some (decode_any fl))

-- `map[string]any`, by `encodeMapValue` and `decodeMapValue`.
unfoldable pub encode_map_value : Floats → Members → Result Bytes
encode_map_value fl ms = append_map_value (encode_members fl ms)

unfoldable pub as_map : Value → Result Members
as_map (map_value ms) = ok ms
as_map v = err malformed

unfoldable pub decode_map_value : Floats → Bytes → Result Members
decode_map_value fl content = decode_any fl content >>= as_map

unfoldable pub new_map : Floats → Codec Members
new_map fl = new_raw (some (encode_map_value fl)) (some (decode_map_value fl))

-- `errCodecStack`, `errNilEncode` and `errNilDecode`.
abbrev pub codec_stack : Error
codec_stack = other 45

abbrev pub nil_encode : Error
nil_encode = other 46

abbrev pub nil_decode : Error
nil_decode = other 47

-- "cbor".
abbrev pub cbor_tag : Bytes
cbor_tag = 99 ∷ 98 ∷ 111 ∷ 114 ∷ []

module _ {T : Type 0} (c : Codec T) where
  unfoldable pub encode : T → Result Bytes
  encode v = elim c.encode_func [
    | some f ↦ elim c.next [ some inner ↦ err codec_stack | none ↦ f v ]
    | none ↦ elim c.next [ some inner ↦ Inner.encode inner v | none ↦ err nil_encode ]
  ]

  unfoldable pub decode : Bytes → Result T
  decode content = elim c.decode_func [
    | some f ↦ elim c.next [ some inner ↦ err codec_stack | none ↦ f content ]
    | none ↦ elim c.next [ some inner ↦ Inner.decode inner content | none ↦ err nil_decode ]
  ]

  unfoldable pub codec_name : Bytes
  codec_name = elim c.encode_func [
    | some f ↦ cbor_tag
    | none ↦ elim c.next [ some inner ↦ Inner.codec_name inner | none ↦ cbor_tag ]
  ]
