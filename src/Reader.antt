-- ===== src/Reader.antt =====
-- An `io.ReadCloser` as the store uses one: the bytes that it will give, the error that follows
-- them (`io.EOF` at a regular end), and what `Close` returns. How many bytes one `Read` returns is
-- left open: `io.ReadAll`, `io.ReadFull` and a limited reader do not depend on it.
use go_cask.Common.{ℕ, Bool, Option, none, leb, if◌then◌else◌, is_empty, length, take, drop, Bytes}
use go_cask.Errors.{is, Error, Result, eof, unexpected_eof, wrap, ok, err}

pub record Reader : Type 0 where
  pub content : Bytes
  pub ending : Error
  pub closing : Option Error

-- `bytes.NewReader`, and `io.NopCloser` over it.
abbrev pub new_reader : Bytes → Reader
new_reader b = record { content = b; ending = wrap eof; closing = none }

-- `err == io.EOF`.
unfoldable pub is_eof : Error → Bool
is_eof e = is eof e

-- `io.ReadAll`.
unfoldable pub read_all : Reader → Result Bytes
read_all r = if is_eof r.ending then ok r.content else err r.ending

-- `io.LimitReader(r, n)`: the end of the first `n` bytes is a regular one.
unfoldable pub limit_reader : Reader → ℕ → Reader
limit_reader r n =
    if leb n (length r.content)
    then record r { content = take n r.content; ending = wrap eof }
    else r

-- `io.ReadFull(r, buf)` for a buffer of `n` bytes.
unfoldable pub read_full : Reader → ℕ → Result (Bytes × Reader)
read_full r n =
    if leb n (length r.content)
    then ok (take n r.content, record r { content = drop n r.content })
    else if is_eof r.ending
    then err (if is_empty r.content then wrap eof else wrap unexpected_eof)
    else err r.ending
