-- ===== src/Archive.antt =====
-- cas/backend/snapshot/snapshot.go: the objects of any backend written to a stream, and put into any
-- backend from there. The writer takes every byte that it is given, so that only what is written
-- matters, and the part that an export has written before it fails is left out, as is the size that
-- presizes a buffer, which changes no byte. `other n` stands for the n-th message.
pub mod Reading
pub mod Writing
pub mod RoundTrip
use go_cask.Common.{
  ℕ, zero, suc, ◌+◌, ◌^◌, not, ◌||◌, Option, none, some, List, [], ◌∷◌, ◌++◌, ltb, ◌==◌,
  if◌then◌else◌, length, take, drop, Bytes, bytes_eq,
}
use go_cask.Common.Assoc.{elem}
use go_cask.Common.Sort.{sort}
use go_cask.Errors.{is, ◌>>=◌, fail_if, ◌>>◌, Error, Result, other, err, ok}
use go_cask.Digest.{Digest, new_digest, bytes, check_digest}
use go_cask.Reader.{new_reader, read_full, Reader}
use go_cask.BigEndian.{put_be, be}
use go_cask.Backend.{Ctx, check_ctx, Effect, unless, Backend}
use go_cask.Mem.{max_int64, read_whole, put, get, list}
use go_cask.Mem.Snapshot.{snapshot_record, read_payload, check_trailing}

abbrev pub magic : Bytes
magic = b'C' ∷ b'A' ∷ b'S' ∷ b'K' ∷ b'S' ∷ b'N' ∷ b'A' ∷ b'P' ∷ []

abbrev pub version : ℕ
version = 1

abbrev pub header_size : ℕ
header_size = 8 + 2 + 8

abbrev pub record_header_size : ℕ
record_header_size = 16

abbrev pub max_digest_size : ℕ
max_digest_size = 2 ^ 20

unfoldable pub archive_header : ℕ → Bytes
archive_header count = magic ++ (put_be 2 version ++ put_be 8 count)

module _ (b : Backend) (ctx : Ctx) where
  -- One turn of the loop of `Export`.
  unfoldable pub export_record : Digest → Backend.State b → Result Bytes
  export_record digest s = do
    check_ctx ctx
    check_digest digest
    rc ← Backend.get b ctx digest s
    payload ← read_whole ctx rc
    content ← unless rc.closing payload
    ok (snapshot_record digest content)

  unfoldable pub export_records : List Digest → Backend.State b → Result Bytes
  export_records [] s = ok []
  export_records (digest ∷ digests) s = do
    written ← export_record digest s
    rest ← export_records digests s
    ok (written ++ rest)

  -- The bytes that `Export` writes.
  unfoldable pub export : Backend.State b → Result Bytes
  export s = do
    check_ctx ctx
    digests ← Backend.list b ctx s
    records ← export_records (sort digests) s
    ok (archive_header (length (sort digests)) ++ records)

-- What the loop of `Import` reads before it puts: the digest, the payload and the rest of the stream.
pub record Entry : Type 0 where
  pub digest : Digest
  pub payload : Bytes
  pub rest : Reader

unfoldable pub read_entry : Ctx → List Bytes → Reader → Result Entry
read_entry ctx seen r = do
  check_ctx ctx
  (lengths, r₁) ← read_full r record_header_size
  let digest_size = be (take 8 lengths)
  let payload_size = be (drop 8 lengths)
  fail_if (ltb max_digest_size digest_size || ltb max_int64 digest_size) (other 40)
  fail_if (ltb max_int64 payload_size) (other 41)
  (digest, r₂) ← read_full r₁ digest_size
  check_digest (new_digest digest)
  fail_if (elem (new_digest digest) seen) (other 42)
  (payload, r₃) ← read_payload r₂ payload_size
  ok (record { digest = new_digest digest; payload = payload; rest = r₃ })

-- The header: the number of records, and the rest of the stream.
unfoldable pub read_header : Ctx → Reader → Result (ℕ × Reader)
read_header ctx r = do
  check_ctx ctx
  (header, r₁) ← read_full r header_size
  fail_if (not (bytes_eq (take 8 header) magic)) (other 43)
  fail_if (not (be (take 2 (drop 8 header)) == version)) (other 44)
  fail_if (ltb max_int64 (be (drop 10 header))) (other 45)
  ok (be (drop 10 header), r₁)

-- What `Import` returns once the loop has ended: the byte after the last record must not be there.
unfoldable pub finish : Result Reader → Option Error
finish (err e) = some e
finish (ok r) = elim (check_trailing r) [ err e ↦ some e | ok _ ↦ none ]

module _ (b : Backend) (ctx : Ctx) where
  -- The loop of `Import`, with the digests that were seen. An error leaves what was put before it.
  unfoldable pub import_entries :
      ℕ → List Bytes → Reader → Backend.State b → Result Reader × Backend.State b
  import_entries zero seen r s = (ok r, s)
  import_entries (suc count) seen r s = elim (read_entry ctx seen r) [
    | err e ↦ (err e, s)
    | ok entry ↦
        let (failure, s') = Backend.put b ctx entry.digest (new_reader entry.payload) s in
        elim failure [
          | some e ↦ (err e, s')
          | none ↦ import_entries count (entry.digest ∷ seen) entry.rest s'
        ]
  ]

  unfoldable pub import_archive : Reader → Backend.State b → Effect (Backend.State b)
  import_archive r s = elim (read_header ctx r) [
    | err e ↦ (some e, s)
    | ok (count, rest) ↦ let (read, s') = import_entries count [] rest s in (finish read, s')
  ]
