-- ===== src/Archive/Reading.antt =====
-- The loop of `Import` over records that `Export` wrote.
use go_cask.Common.{
  ℕ, ◌^◌, ◌≤◌, ◌≡◌, refl, sym, ap, ◌∙◌, inl, inr, true, false, ◌||◌, Option, none, some, List, [],
  ◌∷◌, ◌++◌, arith, ltb, if◌then◌else◌, Bool-cases, length, take, drop, length-append, Bytes,
  bytes_eq, bytes_eq_iff,
}
use go_cask.BigEndian.{put_be, be, length-put_be, be-put_be_8, take_exact, drop_exact}
use go_cask.Common.Assoc.{elem, lookup}
use go_cask.Errors.{Result, ok}
use go_cask.Digest.{Digest, is_zero}
use go_cask.Reader.{new_reader, Reader}
use go_cask.Backend.{check_digest_present, Backend, BackendLaws}
use go_cask.Mem.{max_int64}
use go_cask.Mem.Snapshot.{snapshot_record}
use go_cask.Mem.Snapshot.Numbers.{read_full_exact, read_payload_exact}
use go_cask.Mem.Snapshot.Records.{new_digest_present, snapshot_record-append}
use go_cask.Archive.{max_digest_size, read_entry, import_entries}

-- The records of a list of objects.
unfoldable pub archived : List (Bytes × Bytes) → Bytes
archived [] = []
archived ((key, content) ∷ objects) = snapshot_record key content ++ archived objects

-- Objects that can be read after the digests that were seen: present, each once, with lengths in
-- their bounds.
abbrev pub AreImportable : List Bytes → List (Bytes × Bytes) → Type 0
AreImportable seen [] = Unit
AreImportable seen ((key, content) ∷ objects) =
    (is_zero key ≡ false)
    × (length key ≤ 2 ^ 20)
    × (length content ≤ max_int64)
    × (elem key seen ≡ false)
    × AreImportable (key ∷ seen) objects

small_sizes :
    (k c : ℕ)
    → k ≤ 2 ^ 20
    → c ≤ max_int64
    → ((ltb max_digest_size k || ltb max_int64 k) ≡ false) × (ltb max_int64 c ≡ false)
small_sizes k c hk hc = (ground arith, ground arith)

read_entry_at :
    (seen : List Bytes) (lengths key content rest : Bytes)
    → length lengths ≡ 16
    → be (take 8 lengths) ≡ length key
    → be (drop 8 lengths) ≡ length content
    → is_zero key ≡ false
    → length key ≤ 2 ^ 20
    → length content ≤ max_int64
    → elem key seen ≡ false
    → read_entry none seen (new_reader (lengths ++ (key ++ (content ++ rest))))
      ≡ ok (record { digest = key; payload = content; rest = new_reader rest })
unfolding read_entry
read_entry_at seen lengths key content rest len k c p hk hc fresh =
    let (a, z) = small_sizes (length key) (length content) hk hc in
    rw (read_full_exact 16 lengths (key ++ (content ++ rest)) len) (
      rw (k, c)
        (rw (a, z)
          (rw (read_full_exact (length key) key (content ++ rest) refl) (
            rw (new_digest_present key) (
              rw (check_digest_present key p, fresh)
                (rw (read_payload_exact (length content) content rest refl) refl))))))

-- One record is read back.
read_entry-snapshot_record :
    (seen : List Bytes) (key content rest : Bytes)
    → is_zero key ≡ false
    → length key ≤ 2 ^ 20
    → length content ≤ max_int64
    → elem key seen ≡ false
    → read_entry none seen (new_reader (snapshot_record key content ++ rest))
      ≡ ok (record { digest = key; payload = content; rest = new_reader rest })
read_entry-snapshot_record seen key content rest p hk hc fresh =
    let a = put_be 8 (length key) in
    let b = put_be 8 (length content) in
    rw (snapshot_record-append key content rest) (
      read_entry_at seen (a ++ b) key content rest
        (omega (
          arith,
          length-append a b,
          length-put_be 8 (length key),
          length-put_be 8 (length content),
        ))
        (rw (take_exact 8 a b (length-put_be 8 (length key)))
          (be-put_be_8 (length key) (omega arith)))
        (rw (drop_exact 8 a b (length-put_be 8 (length key)))
          (be-put_be_8 (length content) (omega arith)))
        p hk hc fresh)

abbrev pub first_of {ℓ} : {A : Type ℓ} → Option A → Option A → Option A
first_of none b = b
first_of (some a) b = some a

seen_absent :
    (q : Bytes) (seen : List Bytes) (objects : List (Bytes × Bytes))
    → AreImportable seen objects
    → elem q seen ≡ true
    → lookup q objects ≡ none
unfolding lookup
seen_absent q seen [] f h = refl
seen_absent q seen ((key, content) ∷ objects) (p, hk, hc, fresh, f) h =
    elim (Bool-cases (bytes_eq key q)) [
      | inl same ↦
          let moved : elem key seen ≡ elem q seen =
            ap (λ k. elem k seen) ((bytes_eq_iff key q).0 same) in
          let clash : false ≡ true = sym fresh ∙ moved ∙ h in cc
      | inr differ ↦ rw differ (seen_absent q (key ∷ seen) objects f (unfold elem in ground arith))
    ]

-- A store that takes whatever intact object it is given, as long as `Takes` holds.
pub record TakesAll (b : Backend) (laws : BackendLaws b) (Takes : Backend.State b → Type 0)
    : Type 0 where
  pub takes :
      (d : Digest) (content : Bytes) (s : Backend.State b)
      → BackendLaws.IsValid laws s
      → Takes s
      → is_zero d ≡ false
      → ((Backend.put b none d (new_reader content) s).0 ≡ none)
        × Takes (Backend.put b none d (new_reader content) s).1

module _ (b : Backend) (laws : BackendLaws b) (Takes : Backend.State b → Type 0)
    (all : TakesAll b laws Takes) where
  abbrev pub Imported :
      Backend.State b → List (Bytes × Bytes) → Result Reader × Backend.State b → Type 0
  Imported s objects outcome =
      (outcome.0 ≡ ok (new_reader []))
      × BackendLaws.IsValid laws outcome.1
      × ((j : Digest)
          → BackendLaws.view laws outcome.1 j
            ≡ first_of (lookup j objects) (BackendLaws.view laws s j))

  put_view :
      (key content : Bytes) (seen : List Bytes) (objects : List (Bytes × Bytes))
      (old : Option Bytes) (j : Digest)
      → AreImportable (key ∷ seen) objects
      → first_of (lookup j objects) (if bytes_eq key j then some content else old)
        ≡ first_of (lookup j ((key, content) ∷ objects)) old
  put_view key content seen objects old j f = elim (Bool-cases (bytes_eq key j)) [
    | inl same ↦
        let e = (bytes_eq_iff key j).0 same in
        rw (seen_absent j (key ∷ seen) objects f (unfold elem in rw same refl))
          (unfold lookup in rw same refl)
    | inr differ ↦ unfold lookup in rw differ refl
  ]

  pub import_entries-archived :
      (objects : List (Bytes × Bytes)) (seen : List Bytes) (s : Backend.State b)
      → BackendLaws.IsValid laws s
      → Takes s
      → AreImportable seen objects
      → Imported s objects
          (import_entries b none (length objects) seen (new_reader (archived objects)) s)
  unfolding import_entries archived
  import_entries-archived [] seen s v t f = (refl, v, λ j. unfold lookup in refl)
  import_entries-archived ((key, content) ∷ objects) seen s v t (p, hk, hc, fresh, f) =
      let s' = (Backend.put b none key (new_reader content) s).1 in
      let (done, t') = TakesAll.takes all key content s v t p in
      let (whole, v', views) = BackendLaws.put_done laws none key (new_reader content) s v done in
      let (read, w, rest) = import_entries-archived objects (key ∷ seen) s' v' t' f in
      rw
        (
          read_entry-snapshot_record seen key content (archived objects) p hk hc fresh,
          import_entries,
        )
        (rw done (
          read,
          w,
          λ j.
              rest j
              ∙ ap (first_of (lookup j objects)) (views j)
              ∙ put_view key content seen objects (BackendLaws.view laws s j) j f,
        ))
