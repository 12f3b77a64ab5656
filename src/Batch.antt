-- ===== src/Batch.antt =====
-- cas/batch.go: many objects read in one call, by the loop that every backend supports. `fn` is the
-- caller's function, on a state of its own.
pub mod Served
use go_cask.Common.{Option, none, some, List, [], ◌∷◌, if◌then◌else◌}
use go_cask.Errors.{is, Result, err, ok}
use go_cask.Digest.{Digest, check_digest}
use go_cask.Reader.{Reader}
use go_cask.ReadClose.{prefixed, read_then_close, read_wins}
use go_cask.Backend.{Ctx, check_ctx, Effect, or_fail, unless, Backend}

module _ {V : Type 0} (b : Backend) (ctx : Ctx) (fn : Digest → Reader → V → Effect V) where
  -- `fn` takes the place of the read; the reader is closed behind it.
  unfoldable pub close_after_fn : Digest → Reader → V → Result (Unit {0}) × V
  close_after_fn d reader v =
      let (failure, v') = fn d reader v in
      (read_then_close reader (λ _. unless failure tt) read_wins none prefixed, v')

  unfoldable pub get_many_each : List Digest → Backend.State b → V → Effect V
  get_many_each [] s v = (none, v)
  get_many_each (d ∷ ds) s v = or_fail (check_ctx ctx) v λ _. or_fail (check_digest d) v λ _.
      or_fail (Backend.get b ctx d s) v λ reader.
        let (outcome, v') = close_after_fn d reader v in
        elim outcome [ err e ↦ (some e, v') | ok _ ↦ get_many_each ds s v' ]

  -- `GetMany`: the backend's own batch, if it is a `BatchGetter`, or the loop.
  unfoldable pub get_many :
      Option (Ctx → List Digest → Backend.State b → V → Effect V)
      → List Digest
      → Backend.State b
      → V
      → Effect V
  get_many (some batch) ds s v = batch ctx ds s v
  get_many none ds s v = get_many_each ds s v
