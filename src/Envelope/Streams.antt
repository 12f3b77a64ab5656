-- ===== src/Envelope/Streams.antt =====
-- The streaming readers and the buffer readers read the same header.
use go_cask.Common.{
  ℕ, ◌≤◌, ◌≡◌, refl, sym, ap, ◌∙◌, ◌≢◌, ◌⊎◌, inl, inr, Bool, true, false, not, some, [], ◌∷◌, arith,
  ltb, ◌==◌, if◌then◌else◌, length, take, drop, Bytes,
}
use go_cask.Errors.{fail_if, >>=-eq-ok, fail_if-eq-ok, Result, ok, err}
use go_cask.Reader.{read_full, Reader}
use go_cask.Varint.{uvarint, read_byte, read_uvarint_from, read_uvarint}
use go_cask.Varint.RoundTrip.{read_uvarint_from-uvarint_from}
use go_cask.Envelope.{
  envelope_version, corrupt_error, versioned, codec_field, type_field, known_version, decode_header,
}
use go_cask.Envelope.Fields.{IsField-codec_field, IsField-type_field, IsField}
use go_cask.Envelope.Peek.{max_peek_name_len, or_peek_error, read_peek_name, peek_header}
use go_cask.Envelope.Extend.{not-false, IsHeader-decode_header}

read_uvarint-inv :
    (r : Reader) {n : ℕ} {r' : Reader}
    → read_uvarint r ≡ ok (n, r')
    → (uvarint r.content ≡ some (n, r'.content)) × (r'.ending ≡ r.ending)
unfolding read_uvarint
read_uvarint-inv r h =
    let (p, read, h₁) = >>=-eq-ok (read_uvarint_from 0 0 1 r.content r.ending) _ h in
    let same = (read_uvarint_from-uvarint_from r.content 0 0 1 r.ending).1 p read in
    (ground (arith, same, h₁), ground (arith, h₁))

or_peek_error-inv {ℓ} : {A : Type ℓ} (m : Result A) {a : A} → or_peek_error m ≡ ok a → m ≡ ok a
or_peek_error-inv (ok a) h = h
or_peek_error-inv (err e) h = cc

read_full-inv :
    (r : Reader) (n : ℕ) {b : Bytes} {r' : Reader}
    → read_full r n ≡ ok (b, r')
    → (n ≤ length r.content) × (b ≡ take n r.content) × (r'.content ≡ drop n r.content)
unfolding read_full
read_full-inv r n h = ground arith

-- The two ways in which `readPeekName` succeeds, once the length is read.
abbrev NameRead : Bool → ℕ → Reader → Bytes → Reader → Type 0
NameRead allow_empty n r name r' =
    ((n ≡ 0) × (allow_empty ≡ true) × (name ≡ []) × (r' ≡ r))
    ⊎ ((n ≢ 0)
        × (n ≤ length r.content)
        × (name ≡ take n r.content)
        × (r'.content ≡ drop n r.content))

read_peek_name_split :
    (allow_empty : Bool) (n : ℕ) (r : Reader) (full : Result (Bytes × Reader)) {name : Bytes}
    {r' : Reader}
    → (if ltb max_peek_name_len n
        then err corrupt_error
        else if n == 0
        then (if not allow_empty then err corrupt_error else ok ([], r))
        else or_peek_error full)
      ≡ ok (name, r')
    → (n ≤ max_peek_name_len)
      × (((n ≡ 0) × (allow_empty ≡ true) × (name ≡ []) × (r' ≡ r))
          ⊎ ((n ≢ 0) × (or_peek_error full ≡ ok (name, r'))))
read_peek_name_split allow_empty n r full h = ground arith

read_peek_name-inv :
    (allow_empty : Bool) (r : Reader) {name : Bytes} {r' : Reader}
    → read_peek_name allow_empty r ≡ ok (name, r')
    → (n : ℕ) × (r'' : Reader) × (read_uvarint r ≡ ok (n, r''))
      × (n ≤ max_peek_name_len)
      × NameRead allow_empty n r'' name r'
unfolding read_peek_name
read_peek_name-inv allow_empty r {name} {r'} h =
    let (p, read, h₁) = >>=-eq-ok (or_peek_error (read_uvarint r)) _ h in
    let (small, ways) = read_peek_name_split allow_empty p.0 p.1 (read_full p.1 p.0) h₁ in
    (
      p.0,
      p.1,
      or_peek_error-inv (read_uvarint r) read,
      small,
      elim ways [
        | inl empty ↦ inl empty
        | inr (ne, full) ↦ inr (
            let (fits, b, rest) =
              read_full-inv p.1 p.0 (or_peek_error-inv (read_full p.1 p.0) full) in
            (ne, fits, b, rest))
      ],
    )

-- A name that the stream reader returns is a field of the bytes of the stream, within the bound;
-- it is empty only where that is allowed.
read_peek_name-IsField :
    (allow_empty : Bool) (r : Reader) {name : Bytes} {r' : Reader}
    → read_peek_name allow_empty r ≡ ok (name, r')
    → (f : IsField r.content name r'.content) × ((allow_empty ≡ false) → f.size ≢ 0)
read_peek_name-IsField allow_empty r {name} {r'} h =
    let (n, r'', read, small, ways) = read_peek_name-inv allow_empty r h in
    let (announced, ending) = read_uvarint-inv r read in
    elim ways [
      | inl (z, allowed, e, same) ↦ (
        record {
          size = n;
          after = r''.content;
          announced = announced;
          fits = omega arith;
          name_is = rw z e;
          behind_is =
              ap (λ (t : Reader). t.content) same ∙ sym (ap (λ (t : ℕ). drop t r''.content) z);
        },
        λ refused. cc,
      )
      | inr (ne, fits, e, rest) ↦ (
        record {
          size = n;
          after = r''.content;
          announced = announced;
          fits = fits;
          name_is = e;
          behind_is = rest;
        },
        λ refused. ne,
      )
    ]

peek_codec :
    (two : Bool) (r : Reader) {codec : Bytes} {r' : Reader}
    → (if two then read_peek_name true r else ok ([], r)) ≡ ok (codec, r')
    → (if two then codec_field r.content else ok ([], r.content)) ≡ ok (codec, r'.content)
peek_codec true r h = IsField-codec_field (read_peek_name-IsField true r h).0
peek_codec false r h = ground arith

peek_type_field :
    (r : Reader) {name : Bytes} {r' : Reader}
    → read_peek_name false r ≡ ok (name, r')
    → type_field r.content ≡ ok (name, r'.content)
peek_type_field r h =
    let (f, ne) = read_peek_name-IsField false r h in IsField-type_field f (ne refl)

read_byte-inv :
    (r : Reader) {v : ℕ} {r' : Reader}
    → or_peek_error (read_byte r) ≡ ok (v, r')
    → r.content ≡ v ∷ r'.content
unfolding read_byte
read_byte-inv r h = ground arith

header_join :
    (content rest : Bytes) (v : ℕ) (codec middle name behind : Bytes)
    → content ≡ v ∷ rest
    → known_version v ≡ true
    → (if v == envelope_version then codec_field rest else ok ([], rest)) ≡ ok (codec, middle)
    → type_field middle ≡ ok (name, behind)
    → decode_header content ≡ ok (codec, versioned name, behind)
header_join content rest v codec middle name behind e known c t = rw e (
    IsHeader-decode_header (record {
      middle = middle;
      raw_type = name;
      known = known;
      codec_read = c;
      type_read = t;
      type_is = refl;
    }))

-- A header that `PeekHeader` reads from a stream is the header that the buffer reader decodes from
-- the stream's bytes, with the version byte in front; the stream is left at the byte where the
-- payload length begins.
pub peek_header-decode_header :
    (r : Reader) {version : ℕ} {codec typ : Bytes} {r' : Reader}
    → peek_header r ≡ ok (version, codec, typ, r')
    → (rest : Bytes) × (r.content ≡ version ∷ rest)
      × (decode_header r.content ≡ ok (codec, typ, r'.content))
unfolding peek_header
peek_header-decode_header r {version} {codec} {typ} {r'} h =
    let (v, first, h₁) = >>=-eq-ok (or_peek_error (read_byte r)) _ h in
    let (u, known, h₂) = >>=-eq-ok (fail_if (not (known_version v.0)) corrupt_error) _ h₁ in
    let (c, codec_read, h₃) =
      >>=-eq-ok (if v.0 == envelope_version then read_peek_name true v.1 else ok ([], v.1)) _ h₂ in
    let (t, type_read, h₄) = >>=-eq-ok (read_peek_name false c.1) _ h₃ in
    let start = read_byte-inv r first in
    let joined =
      header_join r.content v.1.content v.0 c.0 c.1.content t.0 t.1.content start
        (not-false _ (fail_if-eq-ok _ _ known))
        (peek_codec (v.0 == envelope_version) v.1 codec_read) (peek_type_field c.1 type_read) in
    (v.1.content, ground (arith, start, h₄), ground (arith, joined, h₄))
