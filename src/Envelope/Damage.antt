-- ===== src/Envelope/Damage.antt =====
-- What the decoder makes of any bytes: its errors, the names that it returns, and the bytes behind
-- a frame.
use go_cask.Common.{
  ℕ, ◌≡◌, refl, inl, inr, Bool, true, false, not, [], ◌∷◌, arith, ◌==◌, if◌then◌else◌, Bool-cases,
  Bytes,
}
use go_cask.Errors.{◌>>=◌, fail_if, Result, ok, err}
use go_cask.Envelope.{
  envelope_version, corrupt_error, codec_field, type_field, known_version, decode_header,
  payload_field, decode_envelope,
}

abbrev pub FailsCorrupt {ℓ} : {A : Type ℓ} → Result A → Type 0
FailsCorrupt (ok a) = Unit
FailsCorrupt (err e) = e ≡ corrupt_error

codec_field-FailsCorrupt : (rest : Bytes) → FailsCorrupt (codec_field rest)
unfolding codec_field
codec_field-FailsCorrupt rest = ground arith

type_field-FailsCorrupt : (rest : Bytes) → FailsCorrupt (type_field rest)
unfolding type_field
type_field-FailsCorrupt rest = ground arith

payload_field-FailsCorrupt : (rest : Bytes) → FailsCorrupt (payload_field rest)
unfolding payload_field
payload_field-FailsCorrupt rest = ground arith

>>=-FailsCorrupt {ℓ κ} :
    {A : Type ℓ} {B : Type κ} (m : Result A) (f : A → Result B)
    → FailsCorrupt m
    → ((a : A) → FailsCorrupt (f a))
    → FailsCorrupt (m >>= f)
>>=-FailsCorrupt (ok a) f h k = k a
>>=-FailsCorrupt (err e) f h k = h

fail_if-FailsCorrupt : (b : Bool) → FailsCorrupt (fail_if b corrupt_error)
fail_if-FailsCorrupt true = refl
fail_if-FailsCorrupt false = tt

codec_part-FailsCorrupt :
    (v : ℕ) (rest : Bytes)
    → FailsCorrupt (if v == envelope_version then codec_field rest else ok ([], rest))
codec_part-FailsCorrupt v rest = elim (Bool-cases (v == envelope_version)) [
  | inl two ↦ rw two (codec_field-FailsCorrupt rest)
  | inr one ↦ rw one tt
]

decode_header-FailsCorrupt : (content : Bytes) → FailsCorrupt (decode_header content)
unfolding decode_header
decode_header-FailsCorrupt [] = refl
decode_header-FailsCorrupt (v ∷ rest) =
    >>=-FailsCorrupt (fail_if (not (known_version v)) corrupt_error) _
      (fail_if-FailsCorrupt (not (known_version v)))
      λ _.
        >>=-FailsCorrupt _ _ (codec_part-FailsCorrupt v rest)
          λ p. >>=-FailsCorrupt (type_field p.1) _ (type_field-FailsCorrupt p.1) λ q. tt

-- Whatever the bytes, `decodeEnvelope` either succeeds or fails with `ErrCorrupt`.
pub decode_envelope-FailsCorrupt : (content : Bytes) → FailsCorrupt (decode_envelope content)
unfolding decode_envelope
decode_envelope-FailsCorrupt content =
    >>=-FailsCorrupt (decode_header content) _ (decode_header-FailsCorrupt content)
      λ p. >>=-FailsCorrupt (payload_field p.2) _ (payload_field-FailsCorrupt p.2) λ q. tt
