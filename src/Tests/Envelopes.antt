-- ===== src/Tests/Envelopes.antt =====
-- Envelopes: cas/envelope.go.
use go_cask.Common.{◌≡◌, refl, [], ◌∷◌, ◌++◌, arith, Bytes, contains}
use go_cask.Errors.{ok}
use go_cask.Reader.{new_reader, read_full}
use go_cask.Varint.{uvarint_from, read_byte, read_uvarint_from, read_uvarint}
use go_cask.Envelope.{
  encode_envelope, versioned, codec_field, type_field, decode_header, payload_field,
  decode_envelope,
}
use go_cask.Envelope.Peek.{read_peek_name, peek_header}
use go_cask.Envelope.RoundTrip.{decode_envelope-encode_envelope}
use go_cask.Envelope.Damage.{FailsCorrupt, decode_envelope-FailsCorrupt}
use go_cask.Envelope.Extend.{decode_envelope-append}
use go_cask.Envelope.Streams.{peek_header-decode_header}
use go_cask.Tests.Data.{ab, raw, blob_type, blob_envelope, blob_frame}

decode_blob : decode_envelope blob_frame ≡ ok blob_envelope
unfolding decode_envelope decode_header codec_field type_field payload_field uvarint_from versioned
    contains
decode_blob = refl

decode_envelope-encode_envelope_example :
    (content : Bytes) × (encode_envelope raw blob_type ab ≡ ok content)
    × (decode_envelope (content ++ (7 ∷ []))
        ≡ ok (record { type_name = blob_type; codec = raw; payload = ab }))
decode_envelope-encode_envelope_example =
    decode_envelope-encode_envelope raw blob_type ab (7 ∷ []) (unfold contains in refl)
      (omega arith) (omega arith) (omega arith)

decode_envelope-FailsCorrupt_example : FailsCorrupt (decode_envelope (2 ∷ 9 ∷ []))
decode_envelope-FailsCorrupt_example = decode_envelope-FailsCorrupt (2 ∷ 9 ∷ [])

decode_envelope-append_example : decode_envelope (blob_frame ++ ab) ≡ ok blob_envelope
decode_envelope-append_example = decode_envelope-append blob_frame ab decode_blob

peek_blob : peek_header (new_reader blob_frame) ≡ ok (2, raw, blob_type, new_reader (2 ∷ ab))
unfolding peek_header read_byte read_peek_name read_uvarint_from read_uvarint read_full versioned
    contains
peek_blob = refl

peek_header-decode_header_example :
    (rest : Bytes) × (blob_frame ≡ 2 ∷ rest)
    × (decode_header blob_frame ≡ ok (raw, blob_type, 2 ∷ ab))
peek_header-decode_header_example = peek_header-decode_header (new_reader blob_frame) peek_blob
