-- ===== src/BinaryCodec/RoundTrip.antt =====
-- cas/codec/binary/binary.go: the stack reads back what it writes, under a tag of its own.
use go_cask.Common.{
  ◌≡◌, refl, ap, ◌≢◌, false, Option, some, [], ◌∷◌, ◌++◌, arith, is_empty, length, length-append,
  Bytes,
}
use go_cask.Errors.{>>=-eq-ok, Result, ok}
use go_cask.BinaryCodec.{
  new_codec, new_raw, binary_tag, compose_tag, encode, decode, codec_name, Inner,
}

compose_tag-ne_name : (name inner : Bytes) → is_empty name ≡ false → compose_tag name inner ≢ name
unfolding compose_tag
compose_tag-ne_name [] inner h = cc
compose_tag-ne_name (x ∷ name) [] h = λ e. cc
compose_tag-ne_name (x ∷ name) (y ∷ inner) h = λ e. absurd (longer (ap length e))
  where
    longer : length ((x ∷ name) ++ (b'+' ∷ y ∷ inner)) ≡ length (x ∷ name) → ⊥
    longer l = omega (arith, l, length-append (x ∷ name) (b'+' ∷ y ∷ inner))

module _ {T : Type 0} where
  -- If the inner codec decodes what it encodes, and the restoring function undoes the transforming one,
  -- the stack of `New` decodes what it encodes.
  pub decode-encode :
      (inner : Inner T) (transform restore : Bytes → Result Bytes) (v : T) (content : Bytes)
      → ((w : T) (payload : Bytes)
          → Inner.encode inner w ≡ ok payload
          → Inner.decode inner payload ≡ ok w)
      → ((p q : Bytes) → transform p ≡ ok q → restore q ≡ ok p)
      → encode (new_codec (some inner) (some transform) (some restore)) v ≡ ok content
      → decode (new_codec (some inner) (some transform) (some restore)) content ≡ ok v
  unfolding encode decode new_codec
  decode-encode inner transform restore v content decodes undoes h =
      let (payload, e, h₁) = >>=-eq-ok (Inner.encode inner v) _ h in
      rw (undoes payload content h₁) (decodes v payload e)

  -- A stack never has the tag of a raw codec.
  codec_name-ne_raw :
      (inner : Inner T) (transform restore : Option (Bytes → Result Bytes))
      (raw_encode : Option (T → Result Bytes)) (raw_decode : Option (Bytes → Result T))
      → codec_name (new_codec (some inner) transform restore)
        ≢ codec_name (new_raw raw_encode raw_decode)
  unfolding codec_name new_codec new_raw
  codec_name-ne_raw inner transform restore raw_encode raw_decode =
      compose_tag-ne_name binary_tag (Inner.codec_name inner) refl
