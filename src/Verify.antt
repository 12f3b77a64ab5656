-- ===== src/Verify.antt =====
-- cas/verifier.go: an object is read again and its digest recomputed, for one digest or for all.
pub mod Intact
use go_cask.Common.{
  ℕ, ◌+◌, true, false, not, Option, none, some, List, [], ◌∷◌, ◌++◌, if◌then◌else◌,
}
use go_cask.Errors.{is, ◌>>=◌, fail_if, ◌>>◌, Error, Result, digest_mismatch, wrap, err, ok}
use go_cask.Digest.{Digest, equal, check_digest}
use go_cask.ReadClose.{prefixed, read_then_close, read_wins}
use go_cask.Backend.{Ctx, check_ctx, Backend}
use go_cask.Hasher.{Hasher}

pub record Report : Type 0 where
  pub checked : ℕ
  pub bad : List Digest

module _ (b : Backend) (hasher : Hasher) (ctx : Ctx) where
  unfoldable pub verify : Digest → Backend.State b → Result (Unit {0})
  verify d s = do
    check_ctx ctx
    check_digest d
    Hasher.validate_digest hasher d
    rc ← Backend.get b ctx d s
    actual ← read_then_close rc (Hasher.digest hasher) read_wins prefixed prefixed
    fail_if (not (equal actual d)) (wrap digest_mismatch)

  -- The loop of `VerifyAll`, on the report so far: what it returns are the report and the error.
  unfoldable pub verify_each : List Digest → Backend.State b → Report → Report × Option Error
  verify_each [] s report = (report, none)
  verify_each (d ∷ ds) s report = elim (check_ctx ctx) [
    | err e ↦ (report, some e)
    | ok _ ↦ elim (verify d s) [
      | ok _ ↦ verify_each ds s (record report { checked = report.checked + 1 })
      | err e ↦ elim (is digest_mismatch e) [
        | true ↦
            verify_each ds s (record { checked = report.checked + 1; bad = report.bad ++ d ∷ [] })
        | false ↦ (record report { checked = report.checked + 1 }, some e)
      ]
    ]
  ]

  unfoldable pub verify_all : Backend.State b → Option Report × Option Error
  verify_all s = elim (Backend.list b ctx s) [
    | err e ↦ (none, some e)
    | ok digests ↦
        let (report, failure) = verify_each digests s (record { checked = 0; bad = [] }) in
        (some report, failure)
  ]

-- `Verifier`, `NewVerifier` and its method.
pub record Verifier : Type 1 where
  pub backend : Backend
  pub hasher : Hasher

unfoldable pub new_verifier : Backend → Hasher → Verifier
new_verifier b hasher = record { backend = b; hasher = hasher }

unfoldable pub verify_with :
    (v : Verifier) → Ctx → Digest → Backend.State v.backend → Result (Unit {0})
verify_with v ctx d s = verify v.backend v.hasher ctx d s
