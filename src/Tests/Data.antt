-- ===== src/Tests/Data.antt =====
-- The inputs that the tests share.
use go_cask.Common.{◌≡◌, refl, inr, false, none, [], ◌∷◌, ◌++◌, arith, Bytes, bytes_eq, contains}
use go_cask.Errors.{is, Result, ok, err}
use go_cask.Digest.{Digest}
use go_cask.Reader.{new_reader, is_eof, read_all}
use go_cask.Hasher.{Hasher, HasherLaws}
use go_cask.Envelope.{Envelope}
use go_cask.Mem.{Mem}
use go_cask.Mem.Contents.{IsValid}
use go_cask.Common.Assoc.{lookup, total}
use go_cask.Store.{Config}
use go_cask.Store.RoundTrip.{IsStorable}

-- The bytes "ab", "raw" and "blob@1".
abbrev pub ab : Bytes
ab = 97 ∷ 98 ∷ []

abbrev pub raw : Bytes
raw = 114 ∷ 97 ∷ 119 ∷ []

abbrev pub blob_type : Bytes
blob_type = 98 ∷ 108 ∷ 111 ∷ 98 ∷ 64 ∷ 49 ∷ []

-- A digest of two bytes, and its text "0aff".
abbrev pub short_digest : Digest
short_digest = 10 ∷ 255 ∷ []

abbrev pub short_text : Bytes
short_text = 48 ∷ 97 ∷ 102 ∷ 102 ∷ []

-- The payload "ab" in a frame.
abbrev pub blob_envelope : Envelope
blob_envelope = record { type_name = blob_type; codec = raw; payload = ab }

abbrev pub blob_frame : Bytes
blob_frame = 2 ∷ 3 ∷ (raw ++ (6 ∷ (blob_type ++ (2 ∷ ab))))

-- A hasher for tests: the digest is the content behind a byte 1.
abbrev pub hash_of : Result Bytes → Result Digest
hash_of (ok content) = ok (1 ∷ content)
hash_of (err e) = err e

abbrev pub plain_hasher : Hasher
plain_hasher = record { digest = λ r. hash_of (read_all r); validate_digest = λ d. ok tt }

pub plain-digest : (content : Bytes) → hash_of (read_all (new_reader content)) ≡ ok (1 ∷ content)
unfolding read_all is_eof is
plain-digest content = refl

abbrev pub plain_laws : HasherLaws plain_hasher
plain_laws = record {
  hash = λ content. 1 ∷ content;
  digest_lem = plain-digest;
  hash_present = λ content. refl;
  hash_valid = λ content. refl;
}

-- Blobs of bytes, stored as they are.
abbrev pub blobs : Config Bytes
blobs = record {
  encode = λ v. ok v;
  decode = λ payload. ok payload;
  codec_name = raw;
  type_of = λ v. blob_type;
  validate = λ v. none;
  is_nil = λ v. false;
  hasher = plain_hasher;
}

pub ab-IsStorable : IsStorable blobs ab
unfolding contains
ab-IsStorable = record {
  payload = ab;
  encodes = refl;
  decodes = refl;
  not_nil = refl;
  is_valid = refl;
  is_versioned = refl;
  fits_codec = omega arith;
  fits_type = omega arith;
  fits_payload = omega arith;
}

-- A memory backend of at most 50 bytes: "ab" under its hash, and "raw" under a digest that is not its
-- hash.
abbrev pub two_objects : Mem
two_objects = record {
  objects = (1 ∷ ab, ab) ∷ (short_digest, raw) ∷ [];
  max_bytes = 50;
  used_bytes = 5;
}

pub two_objects-IsValid : IsValid two_objects
unfolding total lookup bytes_eq
two_objects-IsValid = record {
  accounted = refl;
  distinct = (refl, (refl, tt));
  no_absent = refl;
  within_cap = inr (omega arith);
}
