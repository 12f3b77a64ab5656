-- ===== src/BloomHeader.antt =====
-- cas/bloom/persistent/header.go: the fixed header in front of the bits of a persistent Bloom filter.
-- The CRC-64 of hash/crc64 over its table is the parameter `crc`.
pub mod Sealed
use go_cask.Common.{
  ℕ, zero, suc, ◌/◌, ◌%◌, false, not, ◌&&◌, ◌||◌, Option, none, some, [], ◌∷◌, ◌++◌, ltb, ◌==◌,
  if◌then◌else◌, length, take, drop, Bytes, bytes_eq,
}

abbrev pub header_size : ℕ
header_size = 48

abbrev pub key_size : ℕ
key_size = 32

abbrev pub hash_kind_default : ℕ
hash_kind_default = 0

abbrev pub hash_kind_custom : ℕ
hash_kind_custom = 1

abbrev pub checksum_scheme_crc64 : ℕ
checksum_scheme_crc64 = 1

abbrev pub checksum_size : ℕ
checksum_size = 6

abbrev pub bloom_magic : Bytes
bloom_magic = b'C' ∷ b'A' ∷ b'S' ∷ b'K' ∷ b'B' ∷ b'L' ∷ b'M' ∷ b'1' ∷ []

-- `binary.LittleEndian.PutUint64`, for any number of bytes.
unfoldable pub put_le : ℕ → ℕ → Bytes
put_le zero n = []
put_le (suc k) n = n % 256 ∷ put_le k (n / 256)

-- `b[i]`, of which only an index within the slice is used.
unfoldable pub byte_at : ℕ → Bytes → ℕ
byte_at i [] = 0
byte_at zero (x ∷ b) = x
byte_at (suc i) (x ∷ b) = byte_at i b

module _ (crc : Bytes → ℕ) where
  unfoldable pub header_checksum : ℕ → Bytes → Bytes
  header_checksum kind key = take checksum_size (put_le 8 (crc (kind ∷ key)))

  -- The header that `encodeHeader` writes into its slice.
  unfoldable pub encode_header : ℕ → Bytes → Bytes
  encode_header kind key =
      bloom_magic ++ (kind ∷ checksum_scheme_crc64 ∷ (header_checksum kind key ++ key))

  -- The kind and the key, or `none` where `ok` is false.
  unfoldable pub decode_header : Bytes → Option (ℕ × Bytes)
  decode_header src =
      let kind = byte_at 8 src in
      let key = take key_size (drop 16 src) in
      if ltb (length src) header_size || not (bytes_eq (take 8 src) bloom_magic)
      then none
      else if not (kind == hash_kind_default) && not (kind == hash_kind_custom)
      then none
      else if not (byte_at 9 src == checksum_scheme_crc64)
      then none
      else if not (bytes_eq (header_checksum kind key) (take checksum_size (drop 10 src)))
      then none
      else some (kind, key)
