-- ===== src/Envelope/Peek.antt =====
-- cas/envelope.go, the readers of a stream: `PeekHeader`, `PeekType`, `PeekVersion`.
use go_cask.Common.{ℕ, ◌*◌, Bool, true, false, not, ◌||◌, [], ltb, ◌==◌, if◌then◌else◌, Bytes}
use go_cask.Errors.{
  is, ◌>>=◌, ◌>>◌, fail_if, Error, Result, eof, unexpected_eof, wrap_cause, ok, err,
}
use go_cask.Reader.{read_full, Reader}
use go_cask.Varint.{read_byte, read_uvarint}
use go_cask.Envelope.{envelope_version, corrupt_error, versioned, known_version}

abbrev pub max_peek_name_len : ℕ
max_peek_name_len = 4096

abbrev pub header_prefix_limit : ℕ
header_prefix_limit = 2 * max_peek_name_len

unfoldable pub peek_error : Error → Error
peek_error e = if is eof e || is unexpected_eof e then corrupt_error else wrap_cause corrupt_error e

-- `if err != nil { return peekError(op, field, err) }`.
abbrev pub or_peek_error {ℓ} : {A : Type ℓ} → Result A → Result A
or_peek_error (ok a) = ok a
or_peek_error (err e) = err (peek_error e)

unfoldable pub read_peek_name : Bool → Reader → Result (Bytes × Reader)
read_peek_name allow_empty r = do
  (field_len, r') ← or_peek_error (read_uvarint r)
  if ltb max_peek_name_len field_len
      then err corrupt_error
      else if field_len == 0
      then (if not allow_empty then err corrupt_error else ok ([], r'))
      else or_peek_error (read_full r' field_len)

-- `peekHeader`: the version, the codec tag and the type name, and the stream where it stopped.
unfoldable pub peek_header : Reader → Result (ℕ × Bytes × Bytes × Reader)
peek_header r = do
  (version, r') ← or_peek_error (read_byte r)
  fail_if (not (known_version version)) corrupt_error
  (codec, after_codec) ← if version == envelope_version then read_peek_name true r' else ok ([], r')
  (type_name, after_type) ← read_peek_name false after_codec
  ok (version, codec, versioned type_name, after_type)

unfoldable pub peek_type : Reader → Result (Bytes × Reader)
peek_type r = do (_, _, type_name, r') ← peek_header r; ok (type_name, r')

unfoldable pub peek_version : Reader → Result (ℕ × Reader)
peek_version r = or_peek_error (read_byte r)
