-- ===== src/Archive/Writing.antt =====
-- The records that `Export` writes: the listed objects, in the order of their digests.
use go_cask.Common.{
  suc, ◌^◌, ◌≤◌, ◌≡◌, refl, sym, ap, ◌∙◌, inl, inr, true, false, Option, none, some, List, [], ◌∷◌,
  arith, if◌then◌else◌, Bool-cases, Option-cases, length, Bytes, bytes_eq, bytes_eq_iff,
}
use go_cask.Common.Assoc.{elem, lookup}
use go_cask.Common.Sort.{bytes_leb, insert_sorted, sort, elem-insert_sorted, elem-sort}
use go_cask.Errors.{is, ok}
use go_cask.Digest.{Digest, is_zero}
use go_cask.Reader.{is_eof, read_all}
use go_cask.Backend.{is_some, check_digest_present, Backend, BackendLaws}
use go_cask.Mem.{max_int64, read_whole}
use go_cask.Mem.Snapshot.{snapshot_record}
use go_cask.Archive.{export_record, export_records}
use go_cask.Archive.Reading.{archived, AreImportable}

-- Each digest once.
abbrev pub NoRepeats : List Bytes → Type 0
NoRepeats [] = Unit
NoRepeats (d ∷ ds) = (elem d ds ≡ false) × NoRepeats ds

insert_sorted-NoRepeats :
    (k : Bytes) (ks : List Bytes)
    → elem k ks ≡ false
    → NoRepeats ks
    → NoRepeats (insert_sorted k ks)
unfolding insert_sorted
insert_sorted-NoRepeats k [] h n = (h, tt)
insert_sorted-NoRepeats k (j ∷ ks) h (e, n) = elim (Bool-cases (bytes_leb k j)) [
  | inl le ↦ rw le (h, (e, n))
  | inr gt ↦ rw gt (later, insert_sorted-NoRepeats k ks (unfold elem in ground arith) n)
]
  where
    later : elem j (insert_sorted k ks) ≡ false
    later =
        elem-insert_sorted j k ks
        ∙ unfold elem in ground (arith, bytes_eq_iff k j, bytes_eq_iff j k)

pub sort-NoRepeats : (ks : List Bytes) → NoRepeats ks → NoRepeats (sort ks)
unfolding sort
sort-NoRepeats [] n = tt
sort-NoRepeats (k ∷ ks) (e, n) =
    insert_sorted-NoRepeats k (sort ks) (elem-sort k ks ∙ e) (sort-NoRepeats ks n)

abbrev pub bytes_of : Option Bytes → Bytes
bytes_of none = []
bytes_of (some content) = content

module _ (b : Backend) (laws : BackendLaws b) (s : Backend.State b) where
  -- The objects stored under the digests.
  unfoldable pub objects_at : List Digest → List (Bytes × Bytes)
  objects_at [] = []
  objects_at (d ∷ ds) = (d, bytes_of (BackendLaws.view laws s d)) ∷ objects_at ds

  pub length-objects_at : (ds : List Digest) → length (objects_at ds) ≡ length ds
  unfolding objects_at
  length-objects_at [] = refl
  length-objects_at (d ∷ ds) = ap suc (length-objects_at ds)

  pub lookup-objects_at :
      (ds : List Digest) (j : Digest)
      → lookup j (objects_at ds)
        ≡ (if elem j ds then some (bytes_of (BackendLaws.view laws s j)) else none)
  unfolding objects_at lookup elem
  lookup-objects_at [] j = refl
  lookup-objects_at (d ∷ ds) j = elim (Bool-cases (bytes_eq d j)) [
    | inl same ↦ let e = (bytes_eq_iff d j).0 same in rw same (rw e refl)
    | inr differ ↦ rw differ (lookup-objects_at ds j)
  ]

  -- Every digest has an object.
  abbrev pub AllStored : List Digest → Type 0
  AllStored ds = (d : Digest) → elem d ds ≡ true → is_some (BackendLaws.view laws s d) ≡ true

  stored_present :
      (d : Digest)
      → BackendLaws.IsValid laws s
      → is_some (BackendLaws.view laws s d) ≡ true
      → is_zero d ≡ false
  stored_present [] v h = let clash = sym h ∙ ap is_some (BackendLaws.absent laws s v) in cc
  stored_present (x ∷ d) v h = refl

  pub AllStored-later : (d : Digest) (ds : List Digest) → AllStored (d ∷ ds) → AllStored ds
  AllStored-later d ds h j e = h j (unfold elem in ground arith)

  pub AllStored-first :
      (d : Digest) (ds : List Digest)
      → AllStored (d ∷ ds)
      → is_some (BackendLaws.view laws s d) ≡ true
  AllStored-first d ds h = h d (unfold elem in ground (arith, bytes_eq_iff d d))

  export_record_stored :
      (d : Digest)
      → BackendLaws.IsValid laws s
      → is_some (BackendLaws.view laws s d) ≡ true
      → export_record b none d s ≡ ok (snapshot_record d (bytes_of (BackendLaws.view laws s d)))
  unfolding export_record read_whole read_all is_eof
  export_record_stored d v h = elim (Option-cases (BackendLaws.view laws s d)) [
    | inl e ↦ let clash = sym h ∙ ap is_some e in cc
    | inr (content, e) ↦
        let p = stored_present d v h in
        rw (check_digest_present d p, BackendLaws.get_lem laws d s v p) (rw e (unfold is in refl))
  ]

  pub export_records-archived :
      (ds : List Digest)
      → BackendLaws.IsValid laws s
      → AllStored ds
      → export_records b none ds s ≡ ok (archived (objects_at ds))
  unfolding export_records archived objects_at
  export_records-archived [] v h = refl
  export_records-archived (d ∷ ds) v h =
      rw (export_record_stored d v (AllStored-first d ds h))
        (rw (export_records-archived ds v (AllStored-later d ds h)) refl)

  -- Digests and objects within the bounds of the format.
  abbrev pub AllBounded : Type 0
  AllBounded =
      (d : Digest) (content : Bytes)
      → BackendLaws.view laws s d ≡ some content
      → (length d ≤ 2 ^ 20) × (length content ≤ max_int64)

  bounded_bytes :
      (d : Digest)
      → AllBounded
      → is_some (BackendLaws.view laws s d) ≡ true
      → (length d ≤ 2 ^ 20) × (length (bytes_of (BackendLaws.view laws s d)) ≤ max_int64)
  bounded_bytes d a h = elim (Option-cases (BackendLaws.view laws s d)) [
    | inl e ↦ let clash = sym h ∙ ap is_some e in cc
    | inr (content, e) ↦ rw e (a d content e)
  ]

  pub objects_at-AreImportable :
      (ds seen : List Digest)
      → BackendLaws.IsValid laws s
      → AllBounded
      → AllStored ds
      → NoRepeats ds
      → ((d : Digest) → elem d ds ≡ true → elem d seen ≡ false)
      → AreImportable seen (objects_at ds)
  unfolding objects_at
  objects_at-AreImportable [] seen v a h n f = tt
  objects_at-AreImportable (d ∷ ds) seen v a h (e, n) f =
      let there = AllStored-first d ds h in
      let (k, c) = bounded_bytes d a there in
      (
        stored_present d v there,
        k,
        c,
        f d (unfold elem in ground (arith, bytes_eq_iff d d)),
        objects_at-AreImportable ds (d ∷ seen) v a (AllStored-later d ds h) n fresh,
      )
    where
      fresh : (j : Digest) → elem j ds ≡ true → elem j (d ∷ seen) ≡ false
      fresh j q = elim (Bool-cases (bytes_eq d j)) [
        | inl same ↦
            let moved : elem d ds ≡ elem j ds = ap (λ k. elem k ds) ((bytes_eq_iff d j).0 same) in
            let clash : false ≡ true = sym e ∙ moved ∙ q in cc
        | inr differ ↦ unfold elem in rw differ (f j (unfold elem in ground arith))
      ]
