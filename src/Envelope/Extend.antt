-- ===== src/Envelope/Extend.antt =====
-- A frame that is read stays read when bytes are appended to it.
use go_cask.Common.{
  ℕ, ◌≡◌, refl, sym, ◌∙◌, Bool, true, false, not, [], ◌∷◌, ◌++◌, arith, ◌==◌, if◌then◌else◌, Bytes,
  contains, contains-append,
}
use go_cask.Errors.{fail_if, >>=-eq-ok, fail_if-eq-ok, ok}
use go_cask.Envelope.{
  envelope_version, corrupt_error, versioned, codec_field, type_field, known_version, decode_header,
  payload_field, decode_envelope, Envelope,
}
use go_cask.Envelope.Fields.{
  codec_field-IsField, type_field-IsField, IsField-codec_field, IsField-type_field, IsField-append,
  payload_field-inv, IsField-payload_field,
}
use go_cask.Envelope.RoundTrip.{decode_envelope_parts}

-- The three fields of a header.
pub record IsHeader (version : ℕ) (rest codec typ behind : Bytes) : Type 0 where
  pub middle : Bytes
  pub raw_type : Bytes
  pub known : known_version version ≡ true
  pub codec_read :
      (if version == envelope_version then codec_field rest else ok ([], rest)) ≡ ok (codec, middle)
  pub type_read : type_field middle ≡ ok (raw_type, behind)
  pub type_is : typ ≡ versioned raw_type

pub not-false : (b : Bool) → not b ≡ false → b ≡ true
not-false true h = refl
not-false false h = cc

pub decode_header-IsHeader :
    (version : ℕ) (rest : Bytes) {codec typ behind : Bytes}
    → decode_header (version ∷ rest) ≡ ok (codec, typ, behind)
    → IsHeader version rest codec typ behind
unfolding decode_header
decode_header-IsHeader version rest h =
    let (u, checked, h₁) = >>=-eq-ok (fail_if (not (known_version version)) corrupt_error) _ h in
    let (c, codec_read, h₂) =
      >>=-eq-ok (if version == envelope_version then codec_field rest else ok ([], rest)) _ h₁ in
    let (t, type_read, h₃) = >>=-eq-ok (type_field c.1) _ h₂ in
    record {
      middle = c.1;
      raw_type = t.0;
      known = not-false _ (fail_if-eq-ok _ _ checked);
      codec_read = ground (arith, codec_read, h₃);
      type_read = ground (arith, type_read, h₃);
      type_is = ground (arith, h₃);
    }

pub IsHeader-decode_header :
    {version : ℕ} {rest codec typ behind : Bytes}
    → IsHeader version rest codec typ behind
    → decode_header (version ∷ rest) ≡ ok (codec, typ, behind)
unfolding decode_header
IsHeader-decode_header {version} h = rw (h.known, h.codec_read, h.type_read, h.type_is) refl

codec_part-append :
    (two : Bool) (rest tail : Bytes) {codec middle : Bytes}
    → (if two then codec_field rest else ok ([], rest)) ≡ ok (codec, middle)
    → (if two then codec_field (rest ++ tail) else ok ([], rest ++ tail))
      ≡ ok (codec, middle ++ tail)
codec_part-append true rest tail h =
    IsField-codec_field (IsField-append tail (codec_field-IsField rest h)).0
codec_part-append false rest tail h = ground arith

IsHeader-append :
    {version : ℕ} {rest codec typ behind : Bytes} (tail : Bytes)
    → IsHeader version rest codec typ behind
    → IsHeader version (rest ++ tail) codec typ (behind ++ tail)
IsHeader-append {version} {rest} tail h =
    let (f, ne) = type_field-IsField h.middle h.type_read in
    let (g, same) = IsField-append tail f in
    record {
      middle = h.middle ++ tail;
      raw_type = h.raw_type;
      known = h.known;
      codec_read = codec_part-append (version == envelope_version) rest tail h.codec_read;
      type_read = IsField-type_field g (λ e. ne (sym same ∙ e));
      type_is = h.type_is;
    }

decode_envelope-inv :
    (content : Bytes) {env : Envelope}
    → decode_envelope content ≡ ok env
    → (rest : Bytes) × (decode_header content ≡ ok (env.codec, env.type_name, rest))
      × (payload_field rest ≡ ok env.payload)
unfolding decode_envelope
decode_envelope-inv content {env} h =
    let (p, header, h₁) = >>=-eq-ok (decode_header content) _ h in
    let (payload, read, h₂) = >>=-eq-ok (payload_field p.2) _ h₁ in
    (p.2, ground (arith, header, h₂), ground (arith, read, h₂))

pub decode_header-append :
    (content tail : Bytes) {codec typ rest : Bytes}
    → decode_header content ≡ ok (codec, typ, rest)
    → decode_header (content ++ tail) ≡ ok (codec, typ, rest ++ tail)
decode_header-append [] tail h = absurd (unfold decode_header in cc)
decode_header-append (v ∷ content) tail h =
    IsHeader-decode_header (IsHeader-append tail (decode_header-IsHeader v content h))

-- A buffer that decodes keeps its envelope whatever bytes are appended to it: the frame says where
-- it ends.
pub decode_envelope-append :
    (content tail : Bytes) {env : Envelope}
    → decode_envelope content ≡ ok env
    → decode_envelope (content ++ tail) ≡ ok env
decode_envelope-append content tail {env} h =
    let (rest, header, payload) = decode_envelope-inv content h in
    let (behind, f) = payload_field-inv rest payload in
    decode_envelope_parts (content ++ tail) env.codec env.type_name (rest ++ tail) env.payload
      (decode_header-append content tail header) (IsField-payload_field (IsField-append tail f).0)

contains_at_one : contains b'@' (b'@' ∷ b'1' ∷ []) ≡ true
unfolding contains
contains_at_one = refl

contains-versioned : (name : Bytes) → contains b'@' (versioned name) ≡ true
unfolding versioned
contains-versioned name =
    ground (arith, contains-append b'@' name (b'@' ∷ b'1' ∷ []), contains_at_one)

-- Every type name that the decoder returns is versioned: it holds an "@".
pub decode_envelope-versioned :
    (content : Bytes) {env : Envelope}
    → decode_envelope content ≡ ok env
    → contains b'@' env.type_name ≡ true
decode_envelope-versioned [] h = absurd (unfold decode_envelope decode_header in cc)
decode_envelope-versioned (v ∷ content) {env} h =
    let (rest, header, payload) = decode_envelope-inv (v ∷ content) h in
    let f = decode_header-IsHeader v content header in rw f.type_is (contains-versioned f.raw_type)
