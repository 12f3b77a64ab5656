-- ===== src/Envelope.antt =====
-- cas/envelope.go: the frame of a stored object. A position `off` in the source's buffer is the list
-- of the bytes from there on, `data[off:]`.
pub mod Damage
pub mod Extend
pub mod Fields
pub mod Peek
pub mod RoundTrip
pub mod Streams
use go_cask.Common.{
  ℕ, Bool, not, ◌||◌, none, some, [], ◌∷◌, ◌++◌, ltb, ◌==◌, if◌then◌else◌, is_empty, length, take,
  drop, Bytes, contains,
}
use go_cask.Errors.{is, ◌>>=◌, ◌>>◌, fail_if, Error, Result, unknown_type, corrupt, wrap, ok, err}
use go_cask.Varint.{put_uvarint, uvarint}

pub record Envelope : Type 0 where
  pub type_name : Bytes
  pub codec : Bytes
  pub payload : Bytes

abbrev pub envelope_version : ℕ
envelope_version = 2

abbrev pub envelope_version_v1 : ℕ
envelope_version_v1 = 1

abbrev pub corrupt_error : Error
corrupt_error = wrap corrupt

-- `encodeEnvelope`: the layout itself.
unfoldable pub frame : Bytes → Bytes → Bytes → Bytes
frame codec typ payload =
    envelope_version
    ∷ (put_uvarint (length codec)
        ++ (codec
            ++ (put_uvarint (length typ) ++ (typ ++ (put_uvarint (length payload) ++ payload)))))

unfoldable pub encode_envelope : Bytes → Bytes → Bytes → Result Bytes
encode_envelope codec typ payload = do
  fail_if (is_empty typ) (wrap unknown_type)
  fail_if (not (contains b'@' typ)) (wrap unknown_type)
  ok (frame codec typ payload)

-- `typeName += "@1"` for a legacy unversioned name.
unfoldable pub versioned : Bytes → Bytes
versioned name = if contains b'@' name then name else name ++ (b'@' ∷ b'1' ∷ [])

-- The codec field of a version 2 header, and what follows it.
unfoldable pub codec_field : Bytes → Result (Bytes × Bytes)
codec_field rest = elim (uvarint rest) [
  | none ↦ err corrupt_error
  | some (codec_len, after) ↦
      if ltb (length after) codec_len
      then err corrupt_error
      else ok (take codec_len after, drop codec_len after)
]

unfoldable pub type_field : Bytes → Result (Bytes × Bytes)
type_field rest = elim (uvarint rest) [
  | none ↦ err corrupt_error
  | some (type_len, after) ↦
      if type_len == 0 || ltb (length after) type_len
      then err corrupt_error
      else ok (take type_len after, drop type_len after)
]

abbrev pub known_version : ℕ → Bool
known_version version = version == envelope_version || version == envelope_version_v1

-- `decodeEnvelopeHeader`: the codec tag, the type name and the bytes at the offset that it returns.
unfoldable pub decode_header : Bytes → Result (Bytes × Bytes × Bytes)
decode_header [] = err corrupt_error
decode_header (version ∷ rest) = do
  fail_if (not (known_version version)) corrupt_error
  (codec, after_codec) ← if version == envelope_version then codec_field rest else ok ([], rest)
  (type_name, after_type) ← type_field after_codec
  ok (codec, versioned type_name, after_type)

-- The payload field.
unfoldable pub payload_field : Bytes → Result Bytes
payload_field rest = elim (uvarint rest) [
  | none ↦ err corrupt_error
  | some (payload_len, after) ↦
      if ltb (length after) payload_len then err corrupt_error else ok (take payload_len after)
]

unfoldable pub decode_envelope : Bytes → Result Envelope
decode_envelope content = do
  (codec, type_name, rest) ← decode_header content
  payload ← payload_field rest
  ok (record { type_name = type_name; codec = codec; payload = payload })

unfoldable pub envelope_type : Bytes → Result Bytes
envelope_type content = do (_, type_name, _) ← decode_header content; ok type_name

-- The payload is cloned, which a value of the model does not show.
unfoldable pub envelope_from_bytes : Bytes → Result Envelope
envelope_from_bytes content = do env ← decode_envelope content; ok env
