-- ===== src/Store.antt =====
-- cas/store.go: the typed store, over a backend, a codec and a hasher.
pub mod Puts
pub mod Reads
pub mod RoundTrip
use go_cask.Common.{
  ℕ, Bool, true, false, not, ◌||◌, Option, none, some, ◌==◌, if◌then◌else◌, is_empty, Bytes,
  bytes_eq,
}
use go_cask.Errors.{
  is, ◌>>=◌, ◌>>◌, fail_if, Error, Result, unknown_type, codec_mismatch, wrap, wrap_cause, other,
  ok, err,
}
use go_cask.Digest.{Digest, bytes, decoded, check_digest}
use go_cask.Reader.{new_reader, read_all, Reader}
use go_cask.ReadClose.{prefixed, read_then_close, read_wins}
use go_cask.Backend.{Ctx, check_ctx, Effect, or_fail, unless, Backend}
use go_cask.Envelope.{corrupt_error, encode_envelope, decode_envelope, Envelope}
use go_cask.Envelope.Peek.{peek_type, peek_version}
use go_cask.Hasher.{Hasher}

-- `Store[T]`: the codec with its identity tag (empty where it declares none), what an object of T
-- declares (`Type`, `Validate`, and whether a value of T is nil), and the hasher.
pub record Config (T : Type 0) : Type 0 where
  pub encode : T → Result Bytes
  pub decode : Bytes → Result T
  pub codec_name : Bytes
  pub type_of : T → Bytes
  pub validate : T → Option Error
  pub is_nil : T → Bool
  pub hasher : Hasher

-- `if err := v.Validate(); err != nil { … }`.
abbrev pub check_with : Option Error → (Error → Error) → Result (Unit {0})
check_with none f = ok tt
check_with (some e) f = err (f e)

module _ {T : Type 0} (c : Config T) where
  open c use {encode, decode, codec_name, type_of, validate, is_nil, hasher}

  unfoldable pub check : Digest → Result (Unit {0})
  check d = do check_digest d; hasher.validate_digest d

  unfoldable pub validate_object : T → Result (Unit {0})
  validate_object obj = do fail_if (is_nil obj) (other 40); check_with (validate obj) (λ e. e)

  unfoldable pub validate_decoded : T → Result (Unit {0})
  validate_decoded obj = check_with (validate obj) (wrap_cause corrupt_error)

  unfoldable pub marshal : T → Result Bytes
  marshal obj = do payload ← encode obj; encode_envelope codec_name (type_of obj) payload

  unfoldable pub encoded : T → Result (Digest × Bytes)
  encoded obj = do
    validate_object obj
    content ← marshal obj
    d ← hasher.digest (new_reader content)
    check d
    ok (d, content)

  -- `env.Codec == "" || …`: the tags are compared only where both sides declare one.
  unfoldable pub check_codec : Envelope → Result (Unit {0})
  check_codec env =
      if is_empty codec_name || is_empty env.codec || bytes_eq env.codec codec_name
      then ok tt
      else err (wrap codec_mismatch)

  -- The payload decoded; both messages of a failure wrap ErrCorrupt and the cause.
  unfoldable pub decode_payload : Bytes → Result T
  decode_payload payload = elim (decode payload) [
    | ok v ↦ ok v
    | err e ↦ err (wrap_cause corrupt_error e)
  ]

  -- `Get` once the bytes are read.
  unfoldable pub unmarshal : Bytes → Result T
  unmarshal content = do
    env ← decode_envelope content
    check_codec env
    v ← decode_payload env.payload
    fail_if (is_nil v) corrupt_error
    fail_if (not (bytes_eq (type_of v) env.type_name)) (wrap unknown_type)
    validate_decoded v
    ok v

  module _ (b : Backend) where
    open b use {
      State, put as backend_put, get as backend_get, exists as backend_exists,
      delete as backend_delete,
    }

    unfoldable pub put : Ctx → T → State → Result Digest × State
    put ctx obj s = elim (check_ctx ctx >> encoded obj) [
      | err e ↦ (err e, s)
      | ok (d, content) ↦
          let (failure, s') = backend_put ctx d (new_reader content) s in (unless failure d, s')
    ]

    unfoldable pub put_dedup : Ctx → T → State → Result (Digest × Bool) × State
    put_dedup ctx obj s = elim (check_ctx ctx >> encoded obj) [
      | err e ↦ (err e, s)
      | ok (d, content) ↦ elim (backend_exists ctx d s) [
        | err e ↦ (err e, s)
        | ok true ↦ (ok (d, true), s)
        | ok false ↦
            let (failure, s') = backend_put ctx d (new_reader content) s in
            (unless failure (d, false), s')
      ]
    ]

    unfoldable pub get_reader : Ctx → Digest → State → Result Reader
    get_reader ctx d s = do check_ctx ctx; check d; backend_get ctx d s

    unfoldable pub get_raw : Ctx → Digest → State → Result Bytes
    get_raw ctx d s = do
      rc ← get_reader ctx d s
      read_then_close rc read_all read_wins prefixed prefixed

    unfoldable pub get : Ctx → Digest → State → Result T
    get ctx d s = do content ← get_raw ctx d s; unmarshal content

    -- `peekAt`, with the part of a peek that is its answer.
    unfoldable pub peek_at {ℓ} :
        {R : Type ℓ} → Ctx → Digest → (Reader → Result R) → State → Result R
    peek_at ctx d peek s = do
      rc ← backend_get ctx d s
      read_then_close rc peek read_wins none prefixed

    unfoldable pub type_at : Ctx → Digest → State → Result Bytes
    type_at ctx d s = do
      check_ctx ctx
      check d
      peek_at ctx d (λ r. do (name, _) ← peek_type r; ok name) s

    unfoldable pub version_at : Ctx → Digest → State → Result ℕ
    version_at ctx d s = do
      check_ctx ctx
      check d
      peek_at ctx d (λ r. do (version, _) ← peek_version r; ok version) s

    unfoldable pub exists : Ctx → Digest → State → Result Bool
    exists ctx d s = do check d; backend_exists ctx d s

    unfoldable pub delete : Ctx → Digest → State → Effect State
    delete ctx d s = or_fail (check d) s λ _. backend_delete ctx d s
