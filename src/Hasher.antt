-- ===== src/Hasher.antt =====
-- cas/hasher.go: the client's hash algorithm, and what its contract asks of it.
use go_cask.Common.{◌≡◌, false, Bytes}
use go_cask.Errors.{Result, ok}
use go_cask.Digest.{Digest, is_zero}
use go_cask.Reader.{new_reader, Reader}

pub record Hasher : Type 0 where
  pub digest : Reader → Result Digest
  pub validate_digest : Digest → Result (Unit {0})

-- The documented contract: the digest is a function of the bytes of a stream that ends regularly,
-- it is never the absent digest, and it is valid for its own algorithm.
pub record HasherLaws (h : Hasher) : Type 0 where
  pub hash : Bytes → Digest
  pub digest_lem : (content : Bytes) → Hasher.digest h (new_reader content) ≡ ok (hash content)
  pub hash_present : (content : Bytes) → is_zero (hash content) ≡ false
  pub hash_valid : (content : Bytes) → Hasher.validate_digest h (hash content) ≡ ok tt
