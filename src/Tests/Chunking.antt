-- ===== src/Tests/Chunking.antt =====
-- Chunks and reads: cas/pack/pack.go, cas/readclose.go.
use go_cask.Common.{◌≡◌, refl, ◌↔◌, none, some, List, [], ◌∷◌, arith, length, Bytes}
use go_cask.Errors.{unexpected_eof, wrap, other, ok}
use go_cask.Reader.{new_reader, read_all, Reader}
use go_cask.ReadClose.{prefixed, read_then_close, read_then_close-ok_iff, close_wins}
use go_cask.Pack.{split_from, split, join, count, pos}
use go_cask.Pack.Chunks.{join-split, split_panics}
use go_cask.Tests.Data.{ab, raw}

split-raw : split raw 2 ≡ some ((114 ∷ 97 ∷ []) ∷ (119 ∷ []) ∷ [])
unfolding split split_from
split-raw = refl

join-split_example :
    (chunks : List Bytes) × (split raw 2 ≡ some chunks)
    × (join chunks ≡ raw)
    × (count 3 2 ≡ pos (length chunks))
join-split_example = join-split raw 2 (omega arith)

split_panics_example : split ab 9223372036854775807 ≡ none
split_panics_example =
    split_panics ab 9223372036854775807 refl (omega arith) (omega arith) (omega arith)

-- A stream that fails with an unexpected end, and then fails to close.
abbrev broken : Reader
broken = record { content = ab; ending = wrap unexpected_eof; closing = some (other 7) }

read_then_close-ok_iff_example :
    (read_then_close (new_reader ab) read_all close_wins prefixed prefixed ≡ ok ab)
    ↔ ((read_all (new_reader ab) ≡ ok ab) × (Reader.closing (new_reader ab) ≡ none))
read_then_close-ok_iff_example =
    read_then_close-ok_iff (new_reader ab) read_all close_wins prefixed prefixed ab
