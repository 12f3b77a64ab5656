-- ===== src/Envelope/RoundTrip.antt =====
-- What is framed is read back, whatever follows the frame; damage is always `ErrCorrupt`.
use mathlib.Core.List.{append_assoc}
use go_cask.Common.{
  ℕ, ◌^◌, ◌≤◌, ◌<◌, ◌≡◌, ap, ◌∙◌, ◌≢◌, ◌↔◌, true, false, some, [], ◌∷◌, ◌++◌, append_assoc, arith,
  length, take, drop, length-append, take-length_append, drop-length_append, Bytes, contains,
}
use go_cask.Errors.{unknown_type, wrap, ok, err}
use go_cask.Varint.{put_uvarint, uvarint}
use go_cask.Varint.RoundTrip.{uvarint-put_uvarint}
use go_cask.Envelope.{
  frame, encode_envelope, versioned, codec_field, type_field, decode_header, payload_field,
  decode_envelope,
}

-- A field's length fits the uint64 that announces it.
abbrev pub FitsLength : Bytes → Type 0
FitsLength b = length b < 2 ^ 64

pub codec_field-some :
    (rest : Bytes) {n : ℕ} {after : Bytes}
    → uvarint rest ≡ some (n, after)
    → n ≤ length after
    → codec_field rest ≡ ok (take n after, drop n after)
unfolding codec_field
codec_field-some rest u h = ground arith

pub type_field-some :
    (rest : Bytes) {n : ℕ} {after : Bytes}
    → uvarint rest ≡ some (n, after)
    → n ≢ 0
    → n ≤ length after
    → type_field rest ≡ ok (take n after, drop n after)
unfolding type_field
type_field-some rest u ne h = ground arith

pub payload_field-some :
    (rest : Bytes) {n : ℕ} {after : Bytes}
    → uvarint rest ≡ some (n, after)
    → n ≤ length after
    → payload_field rest ≡ ok (take n after)
unfolding payload_field
payload_field-some rest u h = ground arith

-- Reading a field that was framed by its length.
field-split :
    (name rest : Bytes)
    → ◌≡◌ {A = Bytes × Bytes}
        (take (length name) (name ++ rest), drop (length name) (name ++ rest))
        (name, rest)
field-split name rest = rw (take-length_append, drop-length_append)

fits-append : (name rest : Bytes) → length name ≤ length (name ++ rest)
fits-append name rest = omega (arith, length-append name rest)

codec_field-frame :
    (codec rest : Bytes)
    → FitsLength codec
    → codec_field (put_uvarint (length codec) ++ (codec ++ rest)) ≡ ok (codec, rest)
codec_field-frame codec rest h =
    codec_field-some _ (uvarint-put_uvarint (length codec) (codec ++ rest) h)
      (fits-append codec rest)
    ∙ ap ok (field-split codec rest)

type_field-frame :
    (typ rest : Bytes)
    → FitsLength typ
    → length typ ≢ 0
    → type_field (put_uvarint (length typ) ++ (typ ++ rest)) ≡ ok (typ, rest)
type_field-frame typ rest h ne =
    type_field-some _ (uvarint-put_uvarint (length typ) (typ ++ rest) h) ne (fits-append typ rest)
    ∙ ap ok (field-split typ rest)

payload_field-frame :
    (payload rest : Bytes)
    → FitsLength payload
    → payload_field (put_uvarint (length payload) ++ (payload ++ rest)) ≡ ok payload
payload_field-frame payload rest h =
    payload_field-some _ (uvarint-put_uvarint (length payload) (payload ++ rest) h)
      (fits-append payload rest)
    ∙ ap ok (take-length_append payload rest)

-- A chain of results whose steps are known.
decode_header_v2 :
    (rest codec after typ end : Bytes)
    → codec_field rest ≡ ok (codec, after)
    → type_field after ≡ ok (typ, end)
    → contains b'@' typ ≡ true
    → decode_header (2 ∷ rest) ≡ ok (codec, typ, end)
unfolding decode_header versioned
decode_header_v2 rest codec after typ end c t v = ground arith

pub decode_envelope_parts :
    (content codec typ rest payload : Bytes)
    → decode_header content ≡ ok (codec, typ, rest)
    → payload_field rest ≡ ok payload
    → decode_envelope content ≡ ok (record { type_name = typ; codec = codec; payload = payload })
unfolding decode_envelope
decode_envelope_parts content codec typ rest payload h p = ground arith

contains-ne_nil : (c : ℕ) (name : Bytes) → contains c name ≡ true → length name ≢ 0
unfolding contains
contains-ne_nil c [] h = cc
contains-ne_nil c (x ∷ xs) h = omega arith

-- The frame is laid out to the left, as the writer appends it.
frame-append :
    (codec typ payload tail : Bytes)
    → frame codec typ payload ++ tail
      ≡ 2
        ∷ (put_uvarint (length codec)
            ++ (codec
                ++ (put_uvarint (length typ)
                    ++ (typ ++ (put_uvarint (length payload) ++ (payload ++ tail))))))
unfolding frame
frame-append codec typ payload tail = simp append_assoc

-- Decoding gives back the codec tag, the type name and the payload that `EncodeEnvelope` framed,
-- for every versioned type name, when the three lengths fit a uint64, whatever bytes follow the
-- frame.
pub decode_envelope-encode_envelope :
    (codec typ payload tail : Bytes)
    → contains b'@' typ ≡ true
    → FitsLength codec
    → FitsLength typ
    → FitsLength payload
    → (content : Bytes) × (encode_envelope codec typ payload ≡ ok content)
      × (decode_envelope (content ++ tail)
          ≡ ok (record { type_name = typ; codec = codec; payload = payload }))
unfolding encode_envelope
decode_envelope-encode_envelope codec typ payload tail v fc ft fp = (
  frame codec typ payload,
  ground (arith, contains-ne_nil b'@' typ v),
  rw frame-append (
      decode_envelope_parts _ codec typ _ payload
        (decode_header_v2 _ codec _ typ _ (codec_field-frame codec _ fc)
          (type_field-frame typ _ ft (contains-ne_nil b'@' typ v)) v)
        (payload_field-frame payload tail fp)),
)

-- `EncodeEnvelope` refuses exactly the type names that hold no "@", the empty one among them, and
-- always with `ErrUnknownType`.
pub encode_envelope-err_iff :
    (codec typ payload : Bytes)
    → (contains b'@' typ ≡ false) ↔ (encode_envelope codec typ payload ≡ err (wrap unknown_type))
unfolding encode_envelope
encode_envelope-err_iff codec [] payload = unfold contains in ground arith
encode_envelope-err_iff codec (c ∷ typ) payload = ground arith
