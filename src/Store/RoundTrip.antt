-- ===== src/Store/RoundTrip.antt =====
-- An object that is put is read back, and `Get` hands out only what the stored frame declares.
use go_cask.Common.{
  ◌≡◌, refl, true, false, none, some, [], append-nil, arith, Bytes, bytes_eq_refl, contains,
}
use go_cask.Errors.{is, ok}
use go_cask.Digest.{decoded}
use go_cask.Reader.{new_reader, is_eof, read_all}
use go_cask.ReadClose.{prefixed, read_then_close, read_then_close-ok_iff, read_wins}
use go_cask.Backend.{check_digest_present, Backend, BackendLaws}
use go_cask.Hasher.{HasherLaws}
use go_cask.Envelope.{decode_envelope, Envelope}
use go_cask.Envelope.RoundTrip.{FitsLength, decode_envelope-encode_envelope}
use go_cask.Store.{
  check, validate_object, validate_decoded, marshal, encoded, check_codec, decode_payload,
  unmarshal, get_reader, get_raw, get, Config,
}

module _ {T : Type 0} (c : Config T) where
  -- What Codec, Object and Validator ask of a storable value: the payload decodes to the value
  -- itself, the type name is versioned, the value is not nil and satisfies its own invariants.
  pub record IsStorable (obj : T) : Type 0 where
    pub payload : Bytes
    pub encodes : Config.encode c obj ≡ ok payload
    pub decodes : Config.decode c payload ≡ ok obj
    pub not_nil : Config.is_nil c obj ≡ false
    pub is_valid : Config.validate c obj ≡ none
    pub is_versioned : contains b'@' (Config.type_of c obj) ≡ true
    pub fits_codec : FitsLength (Config.codec_name c)
    pub fits_type : FitsLength (Config.type_of c obj)
    pub fits_payload : FitsLength payload

  check_codec_own : (env : Envelope) → env.codec ≡ Config.codec_name c → check_codec c env ≡ ok tt
  unfolding check_codec
  check_codec_own env e = rw (e, bytes_eq_refl (Config.codec_name c)) (ground arith)

  unmarshal_parts :
      (content : Bytes) (env : Envelope) (obj : T)
      → decode_envelope content ≡ ok env
      → check_codec c env ≡ ok tt
      → Config.decode c env.payload ≡ ok obj
      → Config.is_nil c obj ≡ false
      → Config.type_of c obj ≡ env.type_name
      → Config.validate c obj ≡ none
      → unmarshal c content ≡ ok obj
  unfolding unmarshal decode_payload validate_decoded
  unmarshal_parts content env obj d k p n t v =
      rw d (rw k (rw (p, decode_payload) (rw n (rw (t, bytes_eq_refl env.type_name) (rw v refl)))))

  -- The stored form of an object is read back as the object, where its codec decodes what it encodes
  -- and the object is valid, not nil, and of a versioned type.
  pub unmarshal-marshal :
      (obj : T)
      → IsStorable obj
      → (content : Bytes) × (marshal c obj ≡ ok content) × (unmarshal c content ≡ ok obj)
  unfolding marshal
  unmarshal-marshal obj s =
      let (content, framed, decoded) =
        decode_envelope-encode_envelope (Config.codec_name c) (Config.type_of c obj) s.payload []
          s.is_versioned s.fits_codec s.fits_type s.fits_payload in
      (
        content,
        rw (s.encodes, framed) refl,
        unmarshal_parts content _ obj (rw append-nil at decoded) (check_codec_own _ refl) s.decodes
            s.not_nil refl s.is_valid,
      )

  module _ (h : HasherLaws (Config.hasher c)) where
    -- Every write path computes the same digest and the same bytes.
    pub encoded-marshal :
        (obj : T) (content : Bytes)
        → IsStorable obj
        → marshal c obj ≡ ok content
        → encoded c obj ≡ ok (HasherLaws.hash h content, content)
    unfolding encoded validate_object check
    encoded-marshal obj content s m = rw (s.not_nil) (
        rw (s.is_valid) (
          rw m (
            rw (HasherLaws.digest_lem h content) (
              rw (check_digest_present _ (HasherLaws.hash_present h content))
                (rw (HasherLaws.hash_valid h content) refl)))))

    check_hash : (content : Bytes) → check c (HasherLaws.hash h content) ≡ ok tt
    unfolding check
    check_hash content =
        rw (check_digest_present _ (HasherLaws.hash_present h content))
          (HasherLaws.hash_valid h content)

    module _ (b : Backend) (laws : BackendLaws b) where
      read_stored :
          (content : Bytes)
          → read_then_close (new_reader content) read_all read_wins prefixed prefixed ≡ ok content
      read_stored content =
          (read_then_close-ok_iff (new_reader content) read_all read_wins prefixed prefixed
              content).1
            (unfold read_all is_eof is in refl, refl)

      -- `Get` on a live context decodes what the backend holds under the digest.
      pub get-view :
          (content : Bytes) (stored : Bytes) (s : Backend.State b)
          → BackendLaws.IsValid laws s
          → BackendLaws.view laws s (HasherLaws.hash h content) ≡ some stored
          → get c b none (HasherLaws.hash h content) s ≡ unmarshal c stored
      unfolding get get_raw get_reader
      get-view content stored s v held = rw (check_hash content) (
          rw
            (BackendLaws.get_lem laws (HasherLaws.hash h content) s v
              (HasherLaws.hash_present h content))
            (rw held (rw (read_stored stored) refl)))
