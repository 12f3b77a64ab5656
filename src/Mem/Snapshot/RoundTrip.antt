-- ===== src/Mem/Snapshot/RoundTrip.antt =====
-- `Restore` reads back what `Snapshot` wrote.
use mathlib.Core.List.{append_assoc}
use go_cask.Common.{
  ℕ, suc, ◌+◌, ◌^◌, ◌≤◌, ◌<◌, ◌≡◌, refl, sym, ap, ◌∙◌, ◌⊎◌, inl, inr, true, false, not, ◌&&◌, none,
  some, List, [], ◌∷◌, ◌++◌, append_assoc, arith, ltb, ◌==◌, if◌then◌else◌, le→ltb, ==_iff,
  Option-cases, length, take, drop, length-append, Bytes, bytes_eq, bytes_eq_iff,
}
use go_cask.BigEndian.{put_be, be, length-put_be, be-put_be_8, be-put_be_2, take_exact, drop_exact}
use go_cask.Common.Assoc.{elem, lookup, insert, keys, lookup-insert, total}
use go_cask.Common.Sort.{insert_sorted, sort, elem-sort}
use go_cask.Errors.{is, Result, ok}
use go_cask.Digest.{Digest}
use go_cask.Reader.{new_reader, is_eof}
use go_cask.Backend.{Effect, is_some, or_fail}
use go_cask.Mem.{max_int64, Mem}
use go_cask.Mem.Contents.{IsValid}
use go_cask.Mem.Snapshot.{
  snapshot_magic, snapshot_version, object_at, snapshot_keys, snapshot_total, snapshot_header,
  snapshot_records, snapshot, restore_records, check_trailing, restored, restore, Restoring,
}
use go_cask.Mem.Snapshot.Numbers.{read_full_exact}
use go_cask.Mem.Snapshot.Records.{restoring, restore_record-snapshot_record}
use go_cask.Mem.Snapshot.Totals.{
  sizes, AllShort, AreFresh, elem-snapshot_keys, elem-snapshot_keys_absent,
  sizes-sort-snapshot_keys, snapshot_total-total, AreFresh-snapshot_keys, AreFresh-sort,
}

-- The objects after the records of `keys` are restored.
load : List (Bytes × Bytes) → List Bytes → List (Bytes × Bytes) → List (Bytes × Bytes)
load source [] objects = objects
load source (key ∷ keys) objects = load source keys (insert key (object_at source key) objects)

lookup-load :
    (source : List (Bytes × Bytes)) (keys : List Bytes) (objects : List (Bytes × Bytes)) (q : Bytes)
    → lookup q (load source keys objects)
      ≡ (if elem q keys then some (object_at source q) else lookup q objects)
unfolding load elem
lookup-load source [] objects q = refl
lookup-load source (key ∷ keys) objects q = ground (
  arith,
  lookup-load source keys (insert key (object_at source key) objects) q,
  lookup-insert key q (object_at source key) objects,
  bytes_eq_iff key q,
)

AreFresh-insert :
    (objects : List (Bytes × Bytes)) (key content : Bytes) (keys : List Bytes)
    → elem key keys ≡ false
    → AreFresh objects keys
    → AreFresh (insert key content objects) keys
AreFresh-insert objects key content [] e f = tt
AreFresh-insert objects key content (j ∷ keys) e (p, s, n, later, f) = (
  p,
  s,
  unfold elem in
      ground (arith, lookup-insert key j content objects, bytes_eq_iff key j, bytes_eq_iff j key),
  later,
  AreFresh-insert objects key content keys (unfold elem in ground arith) f,
)

restore_records-snapshot_records :
    (max declared : ℕ) (source : List (Bytes × Bytes)) (keys : List Bytes)
    (objects : List (Bytes × Bytes)) (total : ℕ)
    → AreFresh objects keys
    → total + sizes source keys ≤ declared
    → declared ≤ max_int64
    → (max ≡ 0) ⊎ (declared ≤ max)
    → restore_records max declared
        (length keys)
        (restoring objects total (snapshot_records source keys))
      ≡ ok (restoring (load source keys objects) (total + sizes source keys) [])
unfolding restore_records snapshot_records load sizes
restore_records-snapshot_records max declared source [] objects total f a i c =
    ap (λ (n : ℕ). ok (restoring objects n [])) (omega arith)
restore_records-snapshot_records max declared source (key ∷ keys) objects total (p, s, n, e, f) a i
      c =
    let content = object_at source key in
    rw
      (restore_record-snapshot_record max declared total objects key content
        (snapshot_records source keys)
        (record {
          present = p;
          digest_size = s;
          announced = omega arith;
          int_size = i;
          within_cap = c;
        })
        n)
      (restore_records-snapshot_records max declared source keys (insert key content objects)
          (total + length content) (AreFresh-insert objects key content keys e f) (omega arith) i c
        ∙ ap (λ (n : ℕ). ok (restoring (load source keys (insert key content objects)) n []))
            (omega arith))

length-insert_sorted :
    (key : Bytes) (keys : List Bytes) → length (insert_sorted key keys) ≡ suc (length keys)
unfolding insert_sorted
length-insert_sorted key [] = refl
length-insert_sorted key (j ∷ keys) = ground (arith, length-insert_sorted key keys)

length-keys-le : (m : List (Bytes × Bytes)) → length (sort (snapshot_keys m)) ≤ length m
unfolding sort snapshot_keys
length-keys-le [] = omega arith
length-keys-le (([], v) ∷ m) = omega (arith, length-keys-le m)
length-keys-le ((x ∷ k, v) ∷ m) =
    omega (arith, length-insert_sorted (x ∷ k) (sort (snapshot_keys m)), length-keys-le m)

-- The fields of a header, where the reader looks for them.
record IsHeader (header : Bytes) (count total : ℕ) : Type 0 where
  size : length header ≡ 26
  magic : bytes_eq (take 8 header) snapshot_magic ≡ true
  version : be (take 2 (drop 8 header)) ≡ snapshot_version
  count_is : be (take 8 (drop 10 header)) ≡ count
  total_is : be (drop 18 header) ≡ total

drop_two : (n : ℕ) (xs ys zs : Bytes) → length xs + length ys ≡ n → drop n (xs ++ (ys ++ zs)) ≡ zs
drop_two n xs ys zs h =
    rw (← append_assoc xs ys zs) (drop_exact n (xs ++ ys) zs (length-append xs ys ∙ h))

snapshot_header-IsHeader :
    (count total : ℕ)
    → count < 2 ^ 64
    → total < 2 ^ 64
    → IsHeader (snapshot_header count total) count total
unfolding snapshot_header
snapshot_header-IsHeader count total hc ht = record {
  size = omega (
    arith,
    length-append (put_be 8 count) (put_be 8 total),
    length-put_be 8 count,
    length-put_be 8 total,
    length-append (put_be 2 snapshot_version) (put_be 8 count ++ put_be 8 total),
    length-put_be 2 snapshot_version,
  );
  magic = unfold bytes_eq in refl;
  version =
      ap be (
        take_exact 2 (put_be 2 snapshot_version) (put_be 8 count ++ put_be 8 total)
          (length-put_be 2 snapshot_version))
      ∙ be-put_be_2 snapshot_version (omega arith);
  count_is =
      ap (λ (t : Bytes). be (take 8 t))
        (drop_exact 2 (put_be 2 snapshot_version) (put_be 8 count ++ put_be 8 total)
          (length-put_be 2 snapshot_version))
      ∙ ap be (take_exact 8 (put_be 8 count) (put_be 8 total) (length-put_be 8 count))
      ∙ be-put_be_8 count hc;
  total_is =
      ap be (
        drop_two 10 (put_be 2 snapshot_version) (put_be 8 count) (put_be 8 total)
          (omega (arith, length-put_be 2 snapshot_version, length-put_be 8 count)))
      ∙ be-put_be_8 total ht;
}

no_cap : (max total : ℕ) → (max ≡ 0) ⊎ (total ≤ max) → (not (max == 0) && ltb max total) ≡ false
no_cap max total h = ground arith

-- The check at the end, once every record is read.
restored_at :
    (header records : Bytes) (max count total : ℕ) (s : Restoring)
    → IsHeader header count total
    → count ≤ max_int64
    → total ≤ max_int64
    → (max ≡ 0) ⊎ (total ≤ max)
    → restore_records max total count (restoring [] 0 records) ≡ ok s
    → s.total ≡ total
    → s.reader ≡ new_reader []
    → restored none (new_reader (header ++ records)) max ≡ ok s
unfolding restored check_trailing
restored_at header records max count total s h hc ht cap done sum end =
    rw (read_full_exact 26 header records h.size) (
      rw (h.magic, h.version)
        (rw (h.count_is, h.total_is)
          (rw (le→ltb max_int64 count hc, le→ltb max_int64 total ht, no_cap max total cap)
            (rw done (rw ((==_iff s.total total).1 sum, end) (unfold is_eof is in refl))))))

listed :
    (m : Mem) (d : Digest)
    → IsValid m
    → elem d (sort (snapshot_keys m.objects)) ≡ is_some (lookup d m.objects)
listed m [] v =
    elem-sort [] (snapshot_keys m.objects)
    ∙ elem-snapshot_keys_absent m.objects
    ∙ ap is_some (sym v.no_absent)
listed m (x ∷ d) v =
    elem-sort (x ∷ d) (snapshot_keys m.objects) ∙ elem-snapshot_keys (x ∷ d) m.objects refl

-- The restored map reads like the one that was written.
lookup-load_all :
    (m : Mem) (d : Digest)
    → IsValid m
    → lookup d (load m.objects (sort (snapshot_keys m.objects)) []) ≡ lookup d m.objects
unfolding object_at
lookup-load_all m d v = elim (Option-cases (lookup d m.objects)) [
  | inl e ↦ lookup-load _ _ [] d ∙ rw (listed m d v, e) (unfold lookup in refl)
  | inr (content, e) ↦ lookup-load _ _ [] d ∙ rw (listed m d v, e) (rw (e, object_at) refl)
]

-- A snapshot restores into any memory backend whose cap admits it: the restored backend holds the
-- same object under every digest, accounts for the same bytes and keeps its own cap. The digests are
-- at most 2 ^ 20 bytes long, and the number of objects and their bytes fit an int.
pub restore-snapshot :
    (m m' : Mem)
    → IsValid m
    → AllShort m.objects
    → length m.objects ≤ max_int64
    → m.used_bytes ≤ max_int64
    → (m'.max_bytes ≡ 0) ⊎ (m.used_bytes ≤ m'.max_bytes)
    → (content : Bytes) × (objects : List (Bytes × Bytes)) × (snapshot none m ≡ ok content)
      × (restore none (new_reader content) m'
          ≡ (none, record m' { objects = objects; used_bytes = m.used_bytes }))
      × ((d : Digest) → lookup d objects ≡ lookup d m.objects)
unfolding snapshot restore
restore-snapshot m m' v short count used cap =
    let keys = sort (snapshot_keys m.objects) in
    let written =
      snapshot_header (length keys) (snapshot_total m.objects) ++ snapshot_records m.objects keys in
    let sum : snapshot_total m.objects ≡ m.used_bytes =
      snapshot_total-total m.objects v.no_absent ∙ sym v.accounted in
    let loaded : sizes m.objects keys ≡ m.used_bytes =
      sizes-sort-snapshot_keys m.objects v.distinct ∙ sum in
    let few : length keys ≤ max_int64 = omega (arith, length-keys-le m.objects) in
    let fresh =
      AreFresh-sort [] (snapshot_keys m.objects)
        (AreFresh-snapshot_keys m.objects v.distinct short) in
    let loop =
      restore_records-snapshot_records m'.max_bytes m.used_bytes m.objects keys [] 0 fresh
        (omega arith) used cap in
    let end =
      restored_at (snapshot_header (length keys) (snapshot_total m.objects))
        (snapshot_records m.objects keys) m'.max_bytes (length keys) m.used_bytes
        (restoring (load m.objects keys []) (0 + sizes m.objects keys) [])
        (rw sum (snapshot_header-IsHeader (length keys) m.used_bytes (omega arith) (omega arith)))
        few used cap loop (omega arith) refl in
    let read : restore none (new_reader written) m' ≡ (
      none,
      record m' { objects = load m.objects keys []; used_bytes = 0 + sizes m.objects keys },
    ) =
      ap
        (λ (x : Result Restoring).
          or_fail x m' (λ s. (none, record m' { objects = s.objects; used_bytes = s.total })))
        end in
    (
      written,
      load m.objects keys [],
      refl,
      read
          ∙ ap {B = Effect Mem}
              (λ n. (none, record m' { objects = load m.objects keys []; used_bytes = n }))
              (omega arith),
      λ d. lookup-load_all m d v,
    )
