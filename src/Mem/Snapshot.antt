-- ===== src/Mem/Snapshot.antt =====
-- cas/backend/mem/snapshot.go: the memory backend written to a stream and read back. The writer takes
-- every byte that it is given; numbers are big-endian. `other n` stands for the n-th message.
pub mod Numbers
pub mod Records
mod Totals
pub mod RoundTrip
use go_cask.Common.{
  ℕ, zero, suc, ◌+◌, ◌-◌, ◌^◌, not, ◌&&◌, ◌||◌, none, some, List, [], ◌∷◌, ◌++◌, ltb, leb, ◌==◌,
  if◌then◌else◌, is_empty, length, take, drop, Bytes, bytes_eq,
}
use go_cask.Common.Assoc.{lookup, insert, keys}
use go_cask.Common.Sort.{sort}
use go_cask.Errors.{is, ◌>>=◌, fail_if, ◌>>◌, Result, unexpected_eof, wrap, other, err, ok}
use go_cask.Digest.{is_zero, new_digest, bytes}
use go_cask.Reader.{is_eof, read_full, Reader}
use go_cask.BigEndian.{put_be, be}
use go_cask.Backend.{Ctx, check_ctx, Effect, is_some, or_fail}
use go_cask.Mem.{max_int64, Mem}

abbrev pub snapshot_magic : Bytes
snapshot_magic = b'C' ∷ b'A' ∷ b'S' ∷ b'K' ∷ b'M' ∷ b'E' ∷ b'M' ∷ 0 ∷ []

abbrev pub snapshot_version : ℕ
snapshot_version = 1

abbrev pub max_snapshot_digest_size : ℕ
max_snapshot_digest_size = 2 ^ 20

-- `m.objects[key]`, and an empty slice for a key that is not there.
unfoldable pub object_at : List (Bytes × Bytes) → Bytes → Bytes
object_at m key = elim (lookup key m) [ none ↦ [] | some content ↦ content ]

-- The keys that are written, and the bytes of their objects together.
unfoldable pub snapshot_keys : List (Bytes × Bytes) → List Bytes
snapshot_keys [] = []
snapshot_keys ((key, content) ∷ m) =
    let rest = snapshot_keys m in if is_empty key then rest else key ∷ rest

unfoldable pub snapshot_total : List (Bytes × Bytes) → ℕ
snapshot_total [] = 0
snapshot_total ((key, content) ∷ m) =
    let rest = snapshot_total m in if is_empty key then rest else rest + length content

unfoldable pub snapshot_header : ℕ → ℕ → Bytes
snapshot_header count total =
    snapshot_magic ++ (put_be 2 snapshot_version ++ (put_be 8 count ++ put_be 8 total))

unfoldable pub snapshot_record : Bytes → Bytes → Bytes
snapshot_record key content =
    put_be 8 (length key) ++ (put_be 8 (length content) ++ (key ++ content))

unfoldable pub snapshot_records : List (Bytes × Bytes) → List Bytes → Bytes
snapshot_records m [] = []
snapshot_records m (key ∷ keys) = snapshot_record key (object_at m key) ++ snapshot_records m keys

-- The bytes that `Snapshot` writes.
unfoldable pub snapshot : Ctx → Mem → Result Bytes
snapshot ctx m = do
  check_ctx ctx
  let keys = sort (snapshot_keys m.objects)
  ok (snapshot_header (length keys) (snapshot_total m.objects) ++ snapshot_records m.objects keys)

-- `backend.ReadPayload`.
unfoldable pub read_payload : Reader → ℕ → Result (Bytes × Reader)
read_payload r size =
    if leb size (length r.content)
    then ok (take size r.content, record r { content = drop size r.content })
    else if is_eof r.ending
    then err (wrap unexpected_eof)
    else err r.ending

-- What the loop of `Restore` carries from one record to the next.
pub record Restoring : Type 0 where
  pub objects : List (Bytes × Bytes)
  pub total : ℕ
  pub reader : Reader

-- The checks on the two lengths of a record, `total` being the bytes restored so far.
unfoldable pub check_sizes : ℕ → ℕ → ℕ → ℕ → ℕ → Result (Unit {0})
check_sizes max declared total digest_size payload_size = do
  fail_if
      (digest_size == 0 || ltb max_snapshot_digest_size digest_size || ltb max_int64 digest_size)
      (other 20)
  fail_if (ltb max_int64 payload_size) (other 21)
  fail_if (ltb (max_int64 - total) payload_size) (other 22)
  fail_if (ltb declared (total + payload_size)) (other 23)
  fail_if (not (max == 0) && ltb max (total + payload_size)) (other 24)

-- One round of the loop.
unfoldable pub restore_record : ℕ → ℕ → Restoring → Result Restoring
restore_record max declared s = do
  (lengths, r₁) ← read_full s.reader 16
  check_sizes max declared s.total (be (take 8 lengths)) (be (drop 8 lengths))
  (digest, r₂) ← read_full r₁ (be (take 8 lengths))
  fail_if (is_zero (new_digest digest)) (other 25)
  fail_if (is_some (lookup (new_digest digest) s.objects)) (other 26)
  (payload, r₃) ← read_payload r₂ (be (drop 8 lengths))
  ok (record {
    objects = insert (new_digest digest) payload s.objects;
    total = s.total + be (drop 8 lengths);
    reader = r₃;
  })

unfoldable pub restore_records : ℕ → ℕ → ℕ → Restoring → Result Restoring
restore_records max declared zero s = ok s
restore_records max declared (suc count) s =
    restore_record max declared s >>= restore_records max declared count

-- The read of one more byte, which must be the end of the stream.
unfoldable pub check_trailing : Reader → Result (Unit {0})
check_trailing r = do
  fail_if (not (is_empty r.content)) (other 28)
  fail_if (not (is_eof r.ending)) r.ending

-- What `Restore` reads: the objects and their size.
unfoldable pub restored : Ctx → Reader → ℕ → Result Restoring
restored ctx r max = do
  check_ctx ctx
  (header, r₁) ← read_full r 26
  fail_if (not (bytes_eq (take 8 header) snapshot_magic)) (other 10)
  fail_if (not (be (take 2 (drop 8 header)) == snapshot_version)) (other 11)
  let count = be (take 8 (drop 10 header))
  let declared = be (drop 18 header)
  fail_if (ltb max_int64 count) (other 12)
  fail_if (ltb max_int64 declared) (other 13)
  fail_if (not (max == 0) && ltb max declared) (other 14)
  s ← restore_records max declared count (record { objects = []; total = 0; reader = r₁ })
  fail_if (not (s.total == declared)) (other 27)
  check_trailing s.reader
  ok s

unfoldable pub restore : Ctx → Reader → Mem → Effect Mem
restore ctx r m =
    or_fail (restored ctx r m.max_bytes) m
      λ s. (none, record m { objects = s.objects; used_bytes = s.total })
