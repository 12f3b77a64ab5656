-- ===== src/Archive/RoundTrip.antt =====
-- `Import` puts what `Export` wrote.
use go_cask.Common.{
  ℕ, suc, ◌≤◌, ◌≡◌, refl, sym, ap, ◌∙◌, Bool, Option, none, some, List, [], ◌∷◌, ◌++◌, arith,
  if◌then◌else◌, le→ltb, length, drop, Bytes, bytes_eq,
}
use go_cask.BigEndian.{put_be, be_from, be, length-put_be, be-put_be_8}
use go_cask.Common.Assoc.{elem, keys}
use go_cask.Common.Sort.{insert_sorted, sort, elem-sort}
use go_cask.Errors.{is, Result, ok}
use go_cask.Digest.{Digest}
use go_cask.Reader.{new_reader, is_eof}
use go_cask.Backend.{is_some, Backend, BackendLaws}
use go_cask.Mem.{max_int64}
use go_cask.Mem.Snapshot.{check_trailing}
use go_cask.Mem.Snapshot.Numbers.{read_full_exact}
use go_cask.Archive.{magic, version, archive_header, export, read_header, finish, import_archive}
use go_cask.Archive.Reading.{archived, first_of, import_entries-archived, TakesAll}
use go_cask.Archive.Writing.{
  NoRepeats, sort-NoRepeats, bytes_of, objects_at, length-objects_at, lookup-objects_at, AllStored,
  export_records-archived, AllBounded, objects_at-AreImportable,
}

read_header-archive_header :
    (count : ℕ) (records : Bytes)
    → count ≤ max_int64
    → read_header none (new_reader (archive_header count ++ records))
      ≡ ok (count, new_reader records)
unfolding read_header archive_header put_be be_from
read_header-archive_header count records h =
    let c = put_be 8 count in
    let header = magic ++ (put_be 2 version ++ c) in
    let counted : be (drop 10 header) ≡ count = be-put_be_8 count (omega arith) in
    rw (read_full_exact 18 header records (omega (arith, length-put_be 8 count)))
      (rw (counted, le→ltb max_int64 count h) (unfold bytes_eq in refl))

length-insert_sorted :
    (key : Bytes) (keys : List Bytes) → length (insert_sorted key keys) ≡ suc (length keys)
unfolding insert_sorted
length-insert_sorted key [] = refl
length-insert_sorted key (j ∷ keys) = ground (arith, length-insert_sorted key keys)

length-sort : (keys : List Bytes) → length (sort keys) ≡ length keys
unfolding sort
length-sort [] = refl
length-sort (key ∷ keys) = length-insert_sorted key (sort keys) ∙ ap suc (length-sort keys)

abbrev listing : List Digest → Result (List Digest)
listing ds = ok ds

first_stored :
    (x : Option Bytes) (y : Option Bytes)
    → first_of (if is_some x then some (bytes_of x) else none) y ≡ first_of x y
first_stored none y = refl
first_stored (some content) y = refl

finish_whole : finish (ok (new_reader [])) ≡ none
unfolding finish check_trailing is_eof is
finish_whole = refl

-- Import of what Export wrote: on live contexts, from a backend that keeps its contract, lists each
-- digest once and holds at most `2 ^ 63 - 1` objects, each with a digest of at most `2 ^ 20` bytes
-- and content whose length fits an int, into one that keeps its contract and takes every intact
-- object. Export gives an archive; its import returns nil, and the destination then holds every
-- object of the source, and its own objects under the other digests.
pub import_archive-export :
    (b : Backend) (laws : BackendLaws b) (s : Backend.State b) (c : Backend) (laws' : BackendLaws c)
    (t : Backend.State c) (Takes : Backend.State c → Type 0) (ds : List Digest)
    → BackendLaws.IsValid laws s
    → AllBounded b laws s
    → Backend.list b none s ≡ ok ds
    → NoRepeats ds
    → length ds ≤ max_int64
    → BackendLaws.IsValid laws' t
    → TakesAll c laws' Takes
    → Takes t
    → (archive : Bytes) × (export b none s ≡ ok archive)
      × ((import_archive c none (new_reader archive) t).0 ≡ none)
      × BackendLaws.IsValid laws' (import_archive c none (new_reader archive) t).1
      × ((j : Digest)
          → BackendLaws.view laws' (import_archive c none (new_reader archive) t).1 j
            ≡ first_of (BackendLaws.view laws s j) (BackendLaws.view laws' t j))
unfolding export import_archive
import_archive-export b laws s c laws' t Takes ds v bounded listed once few w all ready =
    let keys = sort ds in
    let objects = objects_at b laws s keys in
    let held : (d : Digest) → elem d keys ≡ is_some (BackendLaws.view laws s d) =
      λ d. elem-sort d ds ∙ listed_view d in
    let there : AllStored b laws s keys = λ d h. sym (held d) ∙ h in
    let fit =
      objects_at-AreImportable b laws s keys [] v bounded there (sort-NoRepeats ds once)
        (λ d h. unfold elem in refl) in
    let (read, w', views) = import_entries-archived c laws' Takes all objects [] t w ready fit in
    let size : length objects ≡ length keys = length-objects_at b laws s keys in
    let header : read_header none (new_reader (archive_header (length keys) ++ archived objects))
        ≡ ok (length objects, new_reader (archived objects)) =
      read_header-archive_header (length keys) (archived objects) (omega (arith, length-sort ds))
      ∙ ap (λ (n : ℕ). ok (n, new_reader (archived objects))) (sym size) in
    (
      archive_header (length keys) ++ archived objects,
      rw listed (rw (export_records-archived b laws s keys v there) refl),
      rw (header, import_archive) (ap finish read ∙ finish_whole),
      rw (header, import_archive) w',
      λ j.
          rw (header, import_archive)
            (views j
              ∙ ap (λ x. first_of x (BackendLaws.view laws' t j))
                  (lookup-objects_at b laws s keys j
                    ∙ ap
                        (λ (x : Bool).
                          if x then some (bytes_of (BackendLaws.view laws s j)) else none)
                        (held j))
              ∙ first_stored (BackendLaws.view laws s j) (BackendLaws.view laws' t j)),
    )
  where
    same_list : (ds ds' : List Digest) → listing ds' ≡ listing ds → ds' ≡ ds
    same_list ds ds' h = cc

    listed_view : (d : Digest) → elem d ds ≡ is_some (BackendLaws.view laws s d)
    listed_view d =
        let (ds', given, holds) = BackendLaws.list_lem laws s v in
        ap (elem d) (sym (same_list ds ds' (sym given ∙ listed))) ∙ holds d
