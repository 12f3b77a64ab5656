-- ===== src/Digest/Text.antt =====
-- The text form of a digest: parsing inverts printing, and printing inverts parsing.
use go_cask.Common.{
  ℕ, zero, suc, ◌+◌, ◌-◌, ◌*◌, ◌/◌, ◌%◌, ◌<◌, ◌≡◌, refl, sym, ◌∙◌, ◌≢◌, ◌↔◌, inl, inr, true, false,
  some, [], ◌∷◌, arith, leb, Bool-cases, is_empty, length, take, take_all, Bytes, bytes_eq_iff,
  AreBytes,
}
use go_cask.Digest.{
  Digest, is_zero, equal, hex_digit, hex_encode, hex_value, hex_decode, string, prefix,
  marshal_text, is_lower_digit, all_lower_hex, is_lower_hex, decoded, unmarshal_text, parse_digest,
}
use go_cask.Errors.{◌>>=◌, fail_if, ◌>>◌, Result, invalid_digest, wrap, err, ok}

length-hex_encode : (d : Bytes) → length (hex_encode d) ≡ length d * 2
unfolding hex_encode
length-hex_encode [] = refl
length-hex_encode (c ∷ cs) = omega (arith, length-hex_encode cs)

all_lower_hex-hex_encode : (d : Bytes) → AreBytes d → all_lower_hex (hex_encode d) ≡ true
unfolding hex_encode all_lower_hex
all_lower_hex-hex_encode [] h = refl
all_lower_hex-hex_encode (c ∷ cs) h = ground (arith, all_lower_hex-hex_encode cs h.1)

pub hex_decode-hex_encode : (d : Bytes) → AreBytes d → hex_decode (hex_encode d) ≡ some d
unfolding hex_encode hex_decode
hex_decode-hex_encode [] h = refl
hex_decode-hex_encode (c ∷ cs) h = ground (arith, hex_decode-hex_encode cs h.1)

-- `String` and `MarshalText` render the same text: the hex form of the bytes.
pub string-hex_encode : (d : Digest) → string d ≡ hex_encode d
unfolding string
string-hex_encode [] = unfold hex_encode in refl
string-hex_encode (c ∷ cs) =
    ground (arith, take_all (length (c ∷ cs) * 2) (hex_encode (c ∷ cs)), length-hex_encode (c ∷ cs))

-- A lowercase hex digit has a value below 16, and is the digit of that value.
record IsDigit (c v : ℕ) : Type 0 where
  value : hex_value c ≡ some v
  small : v < 16
  digit : hex_digit v ≡ c

hex_value-IsDigit : (c : ℕ) → is_lower_digit c ≡ true → (v : ℕ) × IsDigit c v
unfolding hex_value
hex_value-IsDigit c h = elim (Bool-cases (leb c b'9')) [
  | inl e ↦ (c - b'0', record { value = ground arith; small = ground arith; digit = ground arith })
  | inr e ↦
      (c - b'a' + 10, record { value = ground arith; small = ground arith; digit = ground arith })
]

-- Lowercase text of even length decodes, to bytes that encode to the same text.
pub hex_decode_lower :
    (s : Bytes)
    → all_lower_hex s ≡ true
    → length s % 2 ≡ 0
    → (raw : Bytes) × (hex_decode s ≡ some raw) × (hex_encode raw ≡ s) × AreBytes raw
unfolding hex_decode all_lower_hex hex_encode
hex_decode_lower [] l e = ([], refl, refl, tt)
hex_decode_lower (c ∷ []) l e = absurd (omega arith)
hex_decode_lower (c ∷ c' ∷ cs) l e =
    let (hi, f) = hex_value-IsDigit c (ground arith) in
    let (lo, g) = hex_value-IsDigit c' (ground arith) in
    let (raw, decoded, same, small) = hex_decode_lower cs (ground arith) (omega arith) in
    let a : (hi * 16 + lo) / 16 ≡ hi = omega arith in
    let b : (hi * 16 + lo) % 16 ≡ lo = omega arith in
    (
      (hi * 16 + lo) ∷ raw,
      rw (f.value, g.value, decoded),
      rw (a, b, f.digit, g.digit, same),
      (omega arith, small),
    )

-- What a text must be for `ParseDigest` to accept it.
pub record IsDigestText (s : Bytes) : Type 0 where
  pub ne_nil : is_empty s ≡ false
  pub even : length s % 2 ≡ 0
  pub lower : all_lower_hex s ≡ true

unmarshal_text_lower :
    (s raw : Bytes) → IsDigestText s → hex_decode s ≡ some raw → unmarshal_text s ≡ ok raw
unfolding unmarshal_text is_lower_hex
unmarshal_text_lower s raw t d = rw (t.ne_nil, t.even, t.lower, d)

hex_encode-IsDigestText :
    (c : ℕ) (cs : Bytes) → AreBytes (c ∷ cs) → IsDigestText (hex_encode (c ∷ cs))
hex_encode-IsDigestText c cs h = record {
  ne_nil = unfold hex_encode in refl;
  even = omega (arith, length-hex_encode (c ∷ cs));
  lower = all_lower_hex-hex_encode (c ∷ cs) h;
}

-- `UnmarshalText` inverts `MarshalText` on digests of bytes, the absent digest too.
pub unmarshal_text-marshal_text : (d : Digest) → AreBytes d → unmarshal_text (marshal_text d) ≡ ok d
unfolding marshal_text
unmarshal_text-marshal_text [] h = unfold unmarshal_text in refl
unmarshal_text-marshal_text (c ∷ cs) h =
    unmarshal_text_lower (hex_encode (c ∷ cs)) (c ∷ cs) (hex_encode-IsDigestText c cs h)
      (hex_decode-hex_encode (c ∷ cs) h)

pub string-marshal_text : (d : Digest) → string d ≡ marshal_text d
unfolding marshal_text
string-marshal_text [] = unfold string in refl
string-marshal_text (c ∷ cs) = string-hex_encode (c ∷ cs)

-- `ParseDigest` reads back what `String` prints, for every digest of bytes that is not absent.
pub parse_digest-string : (d : Digest) → AreBytes d → d ≢ [] → parse_digest (string d) ≡ ok d
parse_digest-string [] h ne = absurd (ne refl)
parse_digest-string (c ∷ cs) h ne =
    rw (string-marshal_text) (unfold parse_digest in rw (unmarshal_text-marshal_text (c ∷ cs) h))

unmarshal_text-IsDigestText :
    (s : Bytes) {c : ℕ} {cs : Bytes} → unmarshal_text s ≡ ok (c ∷ cs) → IsDigestText s
unfolding unmarshal_text is_lower_hex
unmarshal_text-IsDigestText s h = ground arith

pub parse_digest-inv :
    (s : Bytes) {d : Digest} → parse_digest s ≡ ok d → IsDigestText s × (unmarshal_text s ≡ ok d)
unfolding parse_digest
parse_digest-inv s h = go (unmarshal_text s) refl h
  where
    go :
        {d : Digest} (r : Result Digest)
        → unmarshal_text s ≡ r
        → (r >>= λ d. fail_if (is_zero d) (wrap invalid_digest) >> ok d) ≡ ok d
        → IsDigestText s × (unmarshal_text s ≡ ok d)
    go (err e) u h = cc
    go (ok []) u h = cc
    go (ok (c ∷ cs)) u h = (unmarshal_text-IsDigestText s u, u ∙ h)

parse_digest_lower :
    (s raw : Bytes)
    → IsDigestText s
    → hex_decode s ≡ some raw
    → hex_encode raw ≡ s
    → parse_digest s ≡ ok raw
unfolding parse_digest
parse_digest_lower s [] t d same = unfold hex_encode in cc (t.ne_nil)
parse_digest_lower s (c ∷ cs) t d same = rw (unmarshal_text_lower s (c ∷ cs) t d)

-- `ParseDigest` accepts a text exactly if it is not empty, of even length and in lowercase hex;
-- the digest that it returns holds bytes and prints as that same text.
pub parse_digest-IsDigestText :
    (s : Bytes)
    → IsDigestText s ↔ ((d : Digest) × (parse_digest s ≡ ok d) × (string d ≡ s) × AreBytes d)
parse_digest-IsDigestText s = (to, λ p. (parse_digest-inv s p.1).0)
  where
    to : IsDigestText s → (d : Digest) × (parse_digest s ≡ ok d) × (string d ≡ s) × AreBytes d
    to t =
        let (raw, decoded, same, small) = hex_decode_lower s t.lower t.even in
        (raw, parse_digest_lower s raw t decoded same, string-hex_encode raw ∙ same, small)

-- Two digests that are not absent are the same store key exactly if they have the same bytes, and
-- an absent digest equals nothing.
pub equal_iff : (d e : Digest) → (equal d e ≡ true) ↔ ((d ≡ e) × (is_zero d ≡ false))
unfolding equal
equal_iff [] e = ground arith
equal_iff (x ∷ d) [] = ground arith
equal_iff (x ∷ d) (y ∷ e) =
    ((λ h. ((bytes_eq_iff (x ∷ d) (y ∷ e)).0 h, refl)), λ h. (bytes_eq_iff (x ∷ d) (y ∷ e)).1 h.0)

-- `Prefix(n)` is the first n characters of the text form, or the whole text if it is shorter.
prefix_lem : (d : Digest) (n : ℕ) → prefix d n ≡ take n (string d)
unfolding prefix
prefix_lem d zero = refl
prefix_lem d (suc n) = ground (arith, take_all (suc n) (string d))

-- What `ParseDigest` returns is bytes.
pub parse_digest-AreBytes : (s : Bytes) (d : Digest) → parse_digest s ≡ ok d → AreBytes d
parse_digest-AreBytes s d h =
    let (d', parsed, same, small) = (parse_digest-IsDigestText s).0 (parse_digest-inv s h).0 in
    rw (unwrap (sym h ∙ parsed)) small
  where
    unwrap : {a b : Digest} → ok a ≡ ok b → a ≡ b
    unwrap p = cc
