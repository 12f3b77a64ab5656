-- ===== src/Tests/Archives.antt =====
-- The archive of a backend: cas/backend/snapshot.
use mathlib.Core.Path.{subst}
use go_cask.Common.{
  ◌^◌, ◌≤◌, ◌≡◌, refl, ap, ◌∙◌, ◌⊎◌, inl, inr, false, none, some, [], ◌∷◌, ◌++◌, arith, Bool-cases,
  length, Bytes, bytes_eq, bytes_eq_iff,
}
use go_cask.Common.Assoc.{elem, lookup, insert, total, size_at}
use go_cask.Common.Sort.{bytes_leb, insert_sorted, sort}
use go_cask.BigEndian.{put_be, be_from}
use go_cask.Mem.Snapshot.{snapshot_record, read_payload}
use go_cask.Errors.{is, other, ok}
use go_cask.Digest.{Digest, is_zero, new_digest, check_digest}
use go_cask.Reader.{new_reader, is_eof, read_all, read_full, Reader}
use go_cask.Backend.{Effect}
use go_cask.Mem.{
  new, max_int64, budget, store, read_whole, read_object, put, addressable, list, mem_backend, Mem,
}
use go_cask.Mem.Contents.{IsValid}
use go_cask.Mem.Laws.{put-done}
use go_cask.Mem.Contract.{mem_laws, put-within_cap_iff}
use go_cask.Archive.{
  archive_header, export, read_entry, read_header, finish, import_entries, import_archive,
}
use go_cask.Archive.Reading.{first_of, TakesAll}
use go_cask.Archive.Writing.{AllBounded}
use go_cask.Archive.RoundTrip.{import_archive-export}
use go_cask.Tests.Data.{ab, raw, short_digest, two_objects, two_objects-IsValid}

-- A memory backend without a cap takes every object.
abbrev IsUncapped : Mem → Type 0
IsUncapped m = m.max_bytes ≡ 0

put-IsUncapped :
    (d : Digest) (r : Reader) (m : Mem)
    → IsUncapped m
    → (put none d r m).0 ≡ none
    → IsUncapped (put none d r m).1
put-IsUncapped d r m h done =
    let (read, p, kept, e) = put-done none d r m done in
    ap (λ (x : Effect Mem). x.1.max_bytes) e ∙ h

mem_takes :
    (d : Digest) (content : Bytes) (m : Mem)
    → IsUncapped m
    → is_zero d ≡ false
    → (put none d (new_reader content) m).0 ≡ none
mem_takes d content m h p =
    (put-within_cap_iff d (new_reader content) m p (unfold read_all is_eof is in refl)).1 (inl h)

mem_takes_all : TakesAll mem_backend mem_laws IsUncapped
mem_takes_all = record {
  takes = λ d content m v h p. (
    mem_takes d content m h p,
    put-IsUncapped d (new_reader content) m h (mem_takes d content m h p),
  );
}

-- A backend without a cap, with an object of its own.
abbrev one_object : Mem
one_object = record { objects = (ab, ab) ∷ []; max_bytes = 0; used_bytes = 2 }

one_object-IsValid : IsValid one_object
unfolding total lookup bytes_eq
one_object-IsValid = record {
  accounted = refl;
  distinct = (refl, tt);
  no_absent = refl;
  within_cap = inl refl;
}

two_listed : list none two_objects ≡ ok ((1 ∷ ab) ∷ short_digest ∷ [])
unfolding list addressable sort insert_sorted bytes_leb new_digest
two_listed = refl

two_stored :
    (d : Digest) (content : Bytes)
    → lookup d two_objects.objects ≡ some content
    → (((1 ∷ ab) ≡ d) × (ab ≡ content)) ⊎ ((short_digest ≡ d) × (raw ≡ content))
unfolding lookup
two_stored d content h = elim (Bool-cases (bytes_eq (1 ∷ ab) d)) [
  | inl same ↦ inl ((bytes_eq_iff (1 ∷ ab) d).0 same, the_same ab content (rw same at h))
  | inr differ ↦ elim (Bool-cases (bytes_eq short_digest d)) [
    | inl same ↦
        inr ((bytes_eq_iff short_digest d).0 same, the_same raw content (rw (differ, same) at h))
    | inr other_key ↦ absurd (nothing content (rw (differ, other_key) at h))
  ]
]
  where
    the_same : (a b : Bytes) → some a ≡ some b → a ≡ b
    the_same a b e = cc

    nothing : (a : Bytes) → none ≡ some a → ⊥
    nothing a e = cc

two_bounded : AllBounded mem_backend mem_laws two_objects
unfolding mem_laws
two_bounded d content h = elim (two_stored d content h) [
  | inl (k, c) ↦ (
    subst (λ x. length x ≤ 2 ^ 20) k (omega arith),
    subst (λ x. length x ≤ max_int64) c (omega arith),
  )
  | inr (k, c) ↦ (
    subst (λ x. length x ≤ 2 ^ 20) k (omega arith),
    subst (λ x. length x ≤ max_int64) c (omega arith),
  )
]

import_archive-export_example :
    (archive : Bytes) × (export mem_backend none two_objects ≡ ok archive)
    × ((import_archive mem_backend none (new_reader archive) one_object).0 ≡ none)
    × IsValid (import_archive mem_backend none (new_reader archive) one_object).1
    × ((j : Digest)
        → lookup j (import_archive mem_backend none (new_reader archive) one_object).1.objects
          ≡ first_of (lookup j two_objects.objects) (lookup j one_object.objects))
unfolding mem_laws
import_archive-export_example =
    import_archive-export mem_backend mem_laws two_objects mem_backend mem_laws one_object
      IsUncapped ((1 ∷ ab) ∷ short_digest ∷ []) two_objects-IsValid two_bounded two_listed
      (unfold elem bytes_eq in refl, (unfold elem in refl, tt)) (omega arith) one_object-IsValid
      mem_takes_all refl

-- An archive that holds a digest twice is refused at the second record, and the first object stays.
repeated_refused :
    import_archive mem_backend none
      (new_reader (archive_header 2 ++ (snapshot_record ab raw ++ snapshot_record ab ab)))
      (new 0)
    ≡ (some (other 42), record { objects = (ab, raw) ∷ []; max_bytes = 0; used_bytes = 3 })
unfolding import_archive import_entries read_header read_entry read_full read_payload archive_header
    snapshot_record put_be be_from bytes_eq check_digest new_digest elem is_eof is new put store
    budget read_object read_whole read_all insert size_at lookup finish
repeated_refused = refl
