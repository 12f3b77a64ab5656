-- ===== src/Tests/Guards.antt =====
-- The filter guard over the memory backend: cas/bloom/guard.go.
use go_cask.Common.{
  ◌*◌, ◌≤◌, ◌≡◌, refl, true, false, none, List, [], ◌∷◌, arith, if◌then◌else◌, or_right, length,
  bytes_eq, bytes_eq_iff, bytes_eq_refl,
}
use go_cask.Common.Assoc.{elem, lookup, insert, remove}
use go_cask.Errors.{is, ok}
use go_cask.Digest.{Digest, check_digest}
use go_cask.Reader.{new_reader, is_eof, read_all, Reader}
use go_cask.Backend.{is_some, Backend, BackendLaws}
use go_cask.Mem.Contract.{mem_laws}
use go_cask.Guard.{put, exists, delete, Filter, FilterLaws, Guard}
use go_cask.Guard.Definitive.{exists-definitive, put-IsCovered, IsCovered}
use go_cask.Mem.{Mem, mem_backend, new}
use go_cask.Guard.Blooms.{counting_filter}
use go_cask.Guard.Removal.{counting_removal, delete-IsAccounted, IsAccounted}
use go_cask.Bloom.Counting.Accounts.{once_less, Accounts, zeros-Accounts, add-Accounts}
use go_cask.Bloom.Slices.{item, set_item, zeros}
use go_cask.Bloom.Counting as Counting
use go_cask.Tests.Data.{ab, raw, short_digest, two_objects, two_objects-IsValid}

-- A filter that remembers every digest.
abbrev exact_filter : Filter
exact_filter = record {
  Bits = List Digest;
  add = λ d ds. d ∷ ds;
  holds = λ d ds. elem d ds;
  take_out = none;
}

exact_filter_lem : FilterLaws exact_filter
unfolding elem
exact_filter_lem = record {
  IsSound = λ ds. Unit;
  sound_add = λ d ds s. tt;
  added = λ d ds s present. rw (bytes_eq_refl d) refl;
  kept = λ d j ds s h. or_right (bytes_eq d j) h;
}

abbrev guarded : Guard mem_backend exact_filter
guarded = record { backend = two_objects; bits = short_digest ∷ (1 ∷ ab) ∷ [] }

in_both :
    (j : Digest)
    → is_some (lookup j two_objects.objects) ≡ true
    → elem j (short_digest ∷ (1 ∷ ab) ∷ []) ≡ true
unfolding lookup elem
in_both j h = ground (arith, bytes_eq_iff (1 ∷ ab) j, bytes_eq_iff short_digest j)

guarded-IsCovered : IsCovered mem_backend mem_laws exact_filter exact_filter_lem guarded
unfolding mem_laws exact_filter_lem
guarded-IsCovered = record { valid = two_objects-IsValid; sound = tt; covered = in_both }

exists-definitive_example :
    exists mem_backend exact_filter none ab guarded ≡ Backend.exists mem_backend none ab two_objects
exists-definitive_example =
    exists-definitive mem_backend mem_laws exact_filter exact_filter_lem ab guarded
      guarded-IsCovered refl

put-IsCovered_example :
    IsCovered mem_backend mem_laws exact_filter exact_filter_lem
      (put mem_backend exact_filter none ab (new_reader raw) guarded).1
put-IsCovered_example =
    put-IsCovered mem_backend mem_laws exact_filter exact_filter_lem none ab (new_reader raw)
      guarded guarded-IsCovered

abbrev colliding : Counting.Filter
colliding = record { counts = zeros 5; k = 2; m = 10; bits = Counting.four; hash = λ d i. i }

-- Two objects whose probes collide, each added once.
abbrev both_counted : Guard mem_backend counting_filter
both_counted = record {
  backend = two_objects;
  bits = Counting.add short_digest (Counting.add (1 ∷ ab) colliding);
}

two_accounted : Accounts (short_digest ∷ (1 ∷ ab) ∷ []) both_counted.bits
unfolding Counting.add
two_accounted =
    add-Accounts short_digest ((1 ∷ ab) ∷ []) (Counting.add (1 ∷ ab) colliding)
      (add-Accounts (1 ∷ ab) [] colliding none_accounted (omega arith)) few
  where
    none_accounted : Accounts [] colliding
    none_accounted =
        unfold Counting.packed_counter_bytes in
        zeros-Accounts 10 2 Counting.four (λ d i. i) (omega arith)

    few :
        length (short_digest ∷ (1 ∷ ab) ∷ []) * Counting.Filter.k (Counting.add (1 ∷ ab) colliding)
        ≤ 15
    few = omega arith

both_counted-IsAccounted :
    IsAccounted mem_backend mem_laws counting_filter Counting.remove counting_removal
      (short_digest ∷ (1 ∷ ab) ∷ [])
      both_counted
unfolding mem_laws counting_removal
both_counted-IsAccounted = record {
  valid = two_objects-IsValid;
  accounted = two_accounted;
  listed = in_both;
}

delete-IsAccounted_example :
    ((delete mem_backend counting_filter none short_digest both_counted).0 ≡ none)
    × IsAccounted mem_backend mem_laws counting_filter Counting.remove counting_removal
        (once_less short_digest (short_digest ∷ (1 ∷ ab) ∷ []))
        (delete mem_backend counting_filter none short_digest both_counted).1
    × ((j : Digest)
        → BackendLaws.view mem_laws
            (Guard.backend (delete mem_backend counting_filter none short_digest both_counted).1)
            j
          ≡ (if bytes_eq short_digest j then none else BackendLaws.view mem_laws two_objects j))
    × ((j : Digest)
        → is_some (
            BackendLaws.view mem_laws
              (Guard.backend (delete mem_backend counting_filter none short_digest both_counted).1)
              j)
          ≡ true
        → Counting.holds j
            (Guard.bits (delete mem_backend counting_filter none short_digest both_counted).1)
          ≡ true)
unfolding mem_laws lookup
delete-IsAccounted_example =
    delete-IsAccounted mem_backend mem_laws counting_filter Counting.remove counting_removal
      short_digest (short_digest ∷ (1 ∷ ab) ∷ []) both_counted refl both_counted-IsAccounted
      (unfold bytes_eq in refl)

-- Two objects whose probes collide, and the first deleted twice.
abbrev twice_deleted : Guard mem_backend counting_filter
twice_deleted =
    let g0 : Guard mem_backend counting_filter = record { backend = new 0; bits = colliding } in
    let g1 = (put mem_backend counting_filter none short_digest (new_reader raw) g0).1 in
    let g2 = (put mem_backend counting_filter none ab (new_reader raw) g1).1 in
    (delete mem_backend counting_filter none short_digest
      (delete mem_backend counting_filter none short_digest g2).1).1

-- The second delete finds nothing to remove and succeeds, and its `Remove` takes the counters of the
-- object that is still stored.
twice_deleted_denied :
    (exists mem_backend counting_filter none ab twice_deleted ≡ ok false)
    × (Backend.exists mem_backend none ab twice_deleted.backend ≡ ok true)
unfolding exists put delete new go_cask.Digest.check_digest Counting.holds Counting.has_probes
    go_cask.Mem.delete lookup go_cask.Mem.put go_cask.Mem.read_object go_cask.Mem.budget
    go_cask.Mem.read_whole go_cask.Reader.read_all go_cask.Reader.is_eof go_cask.Errors.is
    go_cask.Mem.store go_cask.Mem.exists insert bytes_eq remove Counting.add Counting.add_probes
    Counting.increment Counting.remove Counting.counter Counting.decrement Counting.remove_probes
    Counting.set_counter item set_item zeros
twice_deleted_denied = (refl, refl)
