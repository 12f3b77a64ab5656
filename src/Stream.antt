-- ===== src/Stream.antt =====
-- cas/stream.go: a stream of unknown address is spooled, addressed and stored.
pub mod Stored
use go_cask.Common.{Bool, true, false, not, Bytes}
use go_cask.Errors.{is, ◌>>=◌, ◌>>◌, Result, ok, err}
use go_cask.Digest.{Digest, bytes}
use go_cask.Reader.{new_reader, Reader}
use go_cask.Backend.{Ctx, check_ctx, unless, Backend}
use go_cask.Hasher.{Hasher}

-- `spool` is what `io.Copy` leaves in the temporary file, which is read back from its start: the file
-- system is not part of the program. The context is asked before the spool and after it.
module _ (b : Backend) (hasher : Hasher) (spool : Reader → Result Bytes) (ctx later : Ctx) where
  -- Everything before the write: the digest, whether it is there, and the spooled bytes.
  unfoldable pub address : Reader → Backend.State b → Result (Digest × Bool × Bytes)
  address r s = do
    check_ctx ctx
    content ← spool r
    check_ctx later
    d ← Hasher.digest hasher (new_reader content)
    deduplicated ← Backend.exists b later d s
    ok (d, deduplicated, content)

  unfoldable pub put_stream : Reader → Backend.State b → Result (Digest × Bool) × Backend.State b
  put_stream r s = elim (address r s) [
    | err e ↦ (err e, s)
    | ok (d, true, content) ↦ (ok (d, true), s)
    | ok (d, false, content) ↦
        let (failure, s') = Backend.put b later d (new_reader content) s in
        (unless failure (d, false), s')
  ]
