-- ===== src/Mem/Snapshot/Records.antt =====
-- The loop of `Restore` over the records that `Snapshot` wrote.
use mathlib.Core.List.{append_assoc}
use go_cask.Common.{
  ℕ, ◌+◌, ◌^◌, ◌≤◌, ◌≡◌, refl, ◌⊎◌, false, none, List, [], ◌∷◌, ◌++◌, append_assoc, arith, length,
  take, drop, length-append, Bytes,
}
use go_cask.BigEndian.{put_be, be, length-put_be, be-put_be_8, take_exact, drop_exact}
use go_cask.Common.Assoc.{lookup, insert, total}
use go_cask.Errors.{ok}
use go_cask.Digest.{is_zero, new_digest}
use go_cask.Reader.{new_reader}
use go_cask.Mem.{max_int64}
use go_cask.Mem.Snapshot.{snapshot_record, check_sizes, restore_record, Restoring}
use go_cask.Mem.Snapshot.Numbers.{read_full_exact, read_payload_exact}

-- The state of the loop: what is restored, and the bytes that are still to be read.
abbrev pub restoring : List (Bytes × Bytes) → ℕ → Bytes → Restoring
restoring objects total rest = record { objects = objects; total = total; reader = new_reader rest }

-- A record that `Restore` accepts after `total` bytes.
pub record FitsSnapshot (max declared total : ℕ) (key content : Bytes) : Type 0 where
  pub present : is_zero key ≡ false
  pub digest_size : length key ≤ 2 ^ 20
  pub announced : total + length content ≤ declared
  pub int_size : declared ≤ max_int64
  pub within_cap : (max ≡ 0) ⊎ (declared ≤ max)

check_sizes_fits :
    (max declared total : ℕ) (key content : Bytes)
    → FitsSnapshot max declared total key content
    → check_sizes max declared total (length key) (length content) ≡ ok tt
unfolding check_sizes
check_sizes_fits max declared total [] content f = cc (f.present)
check_sizes_fits max declared total (x ∷ key) content f =
    ground (arith, f.digest_size, f.announced, f.int_size, f.within_cap)

pub new_digest_present : (key : Bytes) → new_digest key ≡ key
unfolding new_digest
new_digest_present [] = refl
new_digest_present (x ∷ key) = refl

pub snapshot_record-append :
    (key content rest : Bytes)
    → snapshot_record key content ++ rest
      ≡ (put_be 8 (length key) ++ put_be 8 (length content)) ++ (key ++ (content ++ rest))
unfolding snapshot_record
snapshot_record-append key content rest = simp append_assoc

restore_record_at :
    (max declared total : ℕ) (objects : List (Bytes × Bytes)) (lengths key content rest : Bytes)
    → length lengths ≡ 16
    → be (take 8 lengths) ≡ length key
    → be (drop 8 lengths) ≡ length content
    → FitsSnapshot max declared total key content
    → lookup key objects ≡ none
    → restore_record max declared (restoring objects total (lengths ++ (key ++ (content ++ rest))))
      ≡ ok (restoring (insert key content objects) (total + length content) rest)
unfolding restore_record
restore_record_at max declared total objects lengths key content rest len k c f fresh =
    rw (read_full_exact 16 lengths (key ++ (content ++ rest)) len) (
      rw (k, c)
        (rw (check_sizes_fits max declared total key content f) (
          rw (read_full_exact (length key) key (content ++ rest) refl) (
            rw (new_digest_present key) (
              rw (f.present, fresh)
                (rw (read_payload_exact (length content) content rest refl) refl))))))

-- One record is read back.
pub restore_record-snapshot_record :
    (max declared total : ℕ) (objects : List (Bytes × Bytes)) (key content rest : Bytes)
    → FitsSnapshot max declared total key content
    → lookup key objects ≡ none
    → restore_record max declared (restoring objects total (snapshot_record key content ++ rest))
      ≡ ok (restoring (insert key content objects) (total + length content) rest)
restore_record-snapshot_record max declared total objects key content rest f fresh =
    let a = put_be 8 (length key) in
    let b = put_be 8 (length content) in
    rw (snapshot_record-append key content rest) (
      restore_record_at max declared total objects (a ++ b) key content rest
        (omega (
          arith,
          length-append a b,
          length-put_be 8 (length key),
          length-put_be 8 (length content),
        ))
        (rw (take_exact 8 a b (length-put_be 8 (length key)))
          (be-put_be_8 (length key) (omega (arith, f.digest_size))))
        (rw (drop_exact 8 a b (length-put_be 8 (length key)))
          (be-put_be_8 (length content) (omega (arith, f.announced, f.int_size))))
        f fresh)
