-- ===== src/Varint.antt =====
-- Go's `encoding/binary` varints, which the envelope's length fields use.
pub mod RoundTrip
use go_cask.Common.{
  ℕ, zero, suc, ◌+◌, ◌*◌, ◌/◌, ◌%◌, ◌&&◌, Option, none, some, [], ◌∷◌, ltb, ◌==◌, if◌then◌else◌,
  length, Bytes,
}
use go_cask.Errors.{overflow, is, ◌>>=◌, ◌>>◌, Error, Result, unexpected_eof, wrap, ok, err}
use go_cask.Reader.{is_eof, Reader}

abbrev pub max_varint_len64 : ℕ
max_varint_len64 = 10

-- The bytes that `PutUvarint` writes; the first argument is the number of bytes that may still
-- follow, 9 at the first byte of a uint64.
unfoldable pub put_uvarint_upto : ℕ → ℕ → Bytes
put_uvarint_upto zero x = x % 256 ∷ []
put_uvarint_upto (suc n) x =
    let more = (x % 128 + 128) ∷ put_uvarint_upto n (x / 128) in if ltb x 128 then x ∷ [] else more

abbrev pub put_uvarint : ℕ → Bytes
put_uvarint = put_uvarint_upto 9

-- The loop of `Uvarint`: `i` bytes are read, `x` is their value and `scale` is 2 to the shift.
-- The pair is the value and the bytes behind the varint; `none` stands for `n <= 0`.
unfoldable pub uvarint_from : ℕ → ℕ → ℕ → Bytes → Option (ℕ × Bytes)
uvarint_from i x scale [] = none
uvarint_from i x scale (b ∷ bs) =
    let more = uvarint_from (i + 1) (x + b % 128 * scale) (scale * 128) bs in
    if i == max_varint_len64
    then none
    else if ltb b 128
    then (if i == 9 && ltb 1 b then none else some (x + b * scale, bs))
    else more

abbrev pub uvarint : Bytes → Option (ℕ × Bytes)
uvarint = uvarint_from 0 0 1

-- `ReadByte`, or `io.ReadFull` of one byte.
unfoldable pub read_byte : Reader → Result (ℕ × Reader)
read_byte r = elim r.content [ [] ↦ err r.ending | b ∷ bs ↦ ok (b, record r { content = bs }) ]

-- The loop of `ReadUvarint`, over the bytes that are left and the error at their end.
unfoldable pub read_uvarint_from : ℕ → ℕ → ℕ → Bytes → Error → Result (ℕ × Bytes)
read_uvarint_from i x scale [] ending =
    if i == max_varint_len64
    then err overflow
    else err (if ltb 0 i && is_eof ending then wrap unexpected_eof else ending)
read_uvarint_from i x scale (b ∷ bs) ending =
    let more = read_uvarint_from (i + 1) (x + b % 128 * scale) (scale * 128) bs ending in
    if i == max_varint_len64
    then err overflow
    else if ltb b 128
    then (if i == 9 && ltb 1 b then err overflow else ok (x + b * scale, bs))
    else more

unfoldable pub read_uvarint : Reader → Result (ℕ × Reader)
read_uvarint r = do
  (v, rest) ← read_uvarint_from 0 0 1 r.content r.ending
  ok (v, record r { content = rest })
