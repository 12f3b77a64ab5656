-- ===== src/Mem/Snapshot/Numbers.antt =====
-- Big-endian numbers and counted pieces of a stream are read back as they were written.
use go_cask.Common.{ℕ, ◌≡◌, ◌++◌, length, Bytes}
use go_cask.Errors.{ok}
use go_cask.Reader.{new_reader, read_full}
use go_cask.BigEndian.{take_exact, drop_exact, fits_exact}
use go_cask.Mem.Snapshot.{read_payload}

pub read_full_exact :
    (n : ℕ) (xs ys : Bytes)
    → length xs ≡ n
    → read_full (new_reader (xs ++ ys)) n ≡ ok (xs, new_reader ys)
unfolding read_full
read_full_exact n xs ys h = rw (fits_exact n xs ys h, take_exact n xs ys h, drop_exact n xs ys h)

pub read_payload_exact :
    (n : ℕ) (xs ys : Bytes)
    → length xs ≡ n
    → read_payload (new_reader (xs ++ ys)) n ≡ ok (xs, new_reader ys)
unfolding read_payload
read_payload_exact n xs ys h = rw (fits_exact n xs ys h, take_exact n xs ys h, drop_exact n xs ys h)
