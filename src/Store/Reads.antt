-- ===== src/Store/Reads.antt =====
-- cas/store.go: `Get` hands out only what the stored frame declares.
use go_cask.Common.{
  ◌≡◌, refl, sym, ◌∙◌, ◌⊎◌, inl, inr, Bool, true, false, not, Option, none, some, [], ◌∷◌,
  Bool-cases, is_empty, Bytes, bytes_eq, bytes_eq_iff,
}
use go_cask.Errors.{fail_if, Result-cases, >>=-eq-ok, fail_if-eq-ok, Error, unknown_type, wrap, ok}
use go_cask.Digest.{Digest}
use go_cask.Backend.{Ctx, Backend}
use go_cask.Envelope.{corrupt_error, decode_envelope, Envelope}
use go_cask.Store.{
  check_with, validate_decoded, check_codec, decode_payload, unmarshal, get_raw, get, Config,
}

check_with-eq-ok :
    (v : Option Error) (f : Error → Error) {u : Unit {0}} → check_with v f ≡ ok u → v ≡ none
check_with-eq-ok none f h = refl
check_with-eq-ok (some e) f h = cc

not-false : (b : Bool) → not b ≡ false → b ≡ true
not-false true h = refl
not-false false h = sym h

module _ {T : Type 0} (c : Config T) where
  decode_payload-eq-ok :
      (payload : Bytes) {v : T} → decode_payload c payload ≡ ok v → Config.decode c payload ≡ ok v
  unfolding decode_payload
  decode_payload-eq-ok payload {v} h = elim (Result-cases (Config.decode c payload)) [
    | inl (w, e) ↦ e ∙ (rw (e, decode_payload) at h)
    | inr (x, e) ↦ let clash = rw (e, decode_payload) at h in cc
  ]

  -- The codec check passes only where both sides declare the same codec, or one declares none.
  check_codec-eq-ok :
      (env : Envelope)
      → check_codec c env ≡ ok tt
      → (Config.codec_name c ≡ []) ⊎ ((env.codec ≡ []) ⊎ (env.codec ≡ Config.codec_name c))
  unfolding check_codec
  check_codec-eq-ok env h = elim (Bool-cases (is_empty (Config.codec_name c))) [
    | inl undeclared ↦ inl (nothing (Config.codec_name c) undeclared)
    | inr declared ↦ elim (Bool-cases (is_empty env.codec)) [
      | inl unnamed ↦ inr (inl (nothing env.codec unnamed))
      | inr named ↦ elim (Bool-cases (bytes_eq env.codec (Config.codec_name c))) [
        | inl same ↦ inr (inr ((bytes_eq_iff env.codec (Config.codec_name c)).0 same))
        | inr differ ↦ let clash = rw (declared, named, differ) at h in cc
      ]
    ]
  ]
    where
      nothing : (b : Bytes) → is_empty b ≡ true → b ≡ []
      nothing [] e = refl
      nothing (x ∷ b) e = cc

  -- A value that `Get` returns is decoded from the payload of a whole frame, is not nil, satisfies its
  -- own invariants, is of the type and, where both sides declare one, of the codec that the frame names.
  pub get-IsDeclared :
      (b : Backend) (ctx : Ctx) (d : Digest) (s : Backend.State b) (v : T)
      → get c b ctx d s ≡ ok v
      → (content : Bytes) × (env : Envelope) × (get_raw c b ctx d s ≡ ok content)
        × (decode_envelope content ≡ ok env)
        × ((Config.codec_name c ≡ []) ⊎ ((env.codec ≡ []) ⊎ (env.codec ≡ Config.codec_name c)))
        × (Config.decode c env.payload ≡ ok v)
        × (Config.is_nil c v ≡ false)
        × (bytes_eq (Config.type_of c v) env.type_name ≡ true)
        × (Config.validate c v ≡ none)
  unfolding get unmarshal validate_decoded
  get-IsDeclared b ctx d s v h =
      let (content, r, h₁) = >>=-eq-ok (get_raw c b ctx d s) _ h in
      let (env, f, h₂) = >>=-eq-ok (decode_envelope content) _ h₁ in
      let (u, k, h₃) = >>=-eq-ok (check_codec c env) _ h₂ in
      let (w, p, h₄) = >>=-eq-ok (decode_payload c env.payload) _ h₃ in
      let (u', n, h₅) = >>=-eq-ok (fail_if (Config.is_nil c w) corrupt_error) _ h₄ in
      let (u'', t, h₆) =
        >>=-eq-ok (fail_if (not (bytes_eq (Config.type_of c w) env.type_name)) (wrap unknown_type))
          _ h₅ in
      let (u₃, i, h₇) = >>=-eq-ok (validate_decoded c w) _ h₆ in
      let same : w ≡ v = cc in
      (
        content,
        env,
        r,
        f,
        check_codec-eq-ok env k,
        decode_payload-eq-ok env.payload p ∙ h₇,
        rw (sym same) (fail_if-eq-ok _ _ n),
        rw (sym same) (not-false _ (fail_if-eq-ok _ _ t)),
        rw (sym same) (check_with-eq-ok _ _ i),
      )
