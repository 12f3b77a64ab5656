-- ===== src/Tests/Headers.antt =====
-- The header of a persistent Bloom filter: cas/bloom/persistent/header.go.
use go_cask.Common.{
  ℕ, suc, ◌≡◌, refl, ◌↔◌, ◌⊎◌, none, some, [], ◌∷◌, ◌++◌, ◌==◌, if◌then◌else◌, length, Bytes,
  bytes_eq,
}
use go_cask.BloomHeader.{
  hash_kind_custom, bloom_magic, put_le, byte_at, header_checksum, encode_header, decode_header,
}
use go_cask.BloomHeader.Sealed.{decode_header-encode_header_iff}
use go_cask.Tests.Data.{ab, raw}

-- A checksum for tests: the number of bytes that are not zero.
abbrev count_set : Bytes → ℕ
count_set [] = 0
count_set (x ∷ b) = if x == 0 then count_set b else suc (count_set b)

-- A key of 32 bytes.
abbrev test_key : Bytes
test_key =
    raw ++ (raw ++ (raw ++ (raw ++ (raw ++ (raw ++ (raw ++ (raw ++ (raw ++ (raw ++ ab)))))))))

decode_header-encode_header_iff_example :
    (decode_header count_set (encode_header count_set 1 test_key ++ ab) ≡ some (1, test_key)) ↔ (
      ((hash_kind_custom ≡ 0) ⊎ (hash_kind_custom ≡ 1))
      × (length test_key ≡ 32)
      × ((rest : Bytes) × (encode_header count_set 1 test_key ++ ab
            ≡ encode_header count_set 1 test_key ++ rest)))
decode_header-encode_header_iff_example =
    decode_header-encode_header_iff count_set (encode_header count_set 1 test_key ++ ab) 1 test_key

-- A header whose kind is flipped is refused.
flipped_refused :
    decode_header count_set
      (bloom_magic ++ (0 ∷ 1 ∷ (header_checksum count_set 1 test_key ++ test_key)))
    ≡ none
unfolding decode_header header_checksum put_le byte_at bytes_eq
flipped_refused = refl
