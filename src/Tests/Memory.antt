-- ===== src/Tests/Memory.antt =====
-- The memory backend: cas/backend/mem.
use go_cask.Common.{
  ◌+◌, ◌≤◌, ◌≡◌, refl, ◌↔◌, ◌⊎◌, inr, none, some, List, [], ◌∷◌, ◌++◌, arith, if◌then◌else◌, Bytes,
  bytes_eq,
}
use go_cask.Common.Assoc.{lookup, size_at}
use go_cask.Errors.{is, other, ok}
use go_cask.Digest.{Digest, check_digest}
use go_cask.Reader.{new_reader, is_eof, read_all, limit_reader, Reader}
use go_cask.Mem.{new, budget, store, read_object, put}
use go_cask.Mem.Contents.{put-IsValid, IsValid}
use go_cask.Mem.Contract.{put-contract, put-within_cap_iff}
use go_cask.Mem.Snapshot.{snapshot, restore}
use go_cask.Mem.Snapshot.RoundTrip.{restore-snapshot}
use go_cask.Tests.Data.{ab, raw, two_objects, two_objects-IsValid}

-- One byte more than the cap leaves room for.
abbrev too_long : Reader
too_long = new_reader (
    raw
    ++ (raw
        ++ (raw
            ++ (raw
                ++ (raw
                    ++ (raw
                        ++ (raw
                            ++ (raw
                                ++ (raw
                                    ++ (raw
                                        ++ (raw
                                            ++ (raw ++ (raw ++ (raw ++ (raw ++ 1 ∷ [])))))))))))))))

put_raw : (put none ab (new_reader raw) two_objects).0 ≡ none
unfolding put store budget read_object read_all limit_reader check_digest size_at lookup is_eof is
    bytes_eq
put_raw = refl

put_too_long : (put none ab too_long two_objects).0 ≡ some (other 1)
unfolding put store budget read_object read_all limit_reader check_digest size_at lookup is_eof is
    bytes_eq
put_too_long = refl

put-contract_example :
    (read_all (new_reader raw) ≡ ok raw)
    × IsValid (put none ab (new_reader raw) two_objects).1
    × ((j : Digest)
        → lookup j (put none ab (new_reader raw) two_objects).1.objects
          ≡ (if bytes_eq ab j then some raw else lookup j two_objects.objects))
put-contract_example = put-contract none ab (new_reader raw) two_objects two_objects-IsValid put_raw

put-IsValid_example : IsValid (put none ab too_long two_objects).1
put-IsValid_example = put-IsValid none ab too_long two_objects two_objects-IsValid

put-within_cap_iff_example :
    ((put none ab (new_reader raw) two_objects).0 ≡ none)
    ↔ ((two_objects.max_bytes ≡ 0) ⊎ (5 + 3 ≤ 50 + size_at ab two_objects.objects))
put-within_cap_iff_example =
    put-within_cap_iff ab (new_reader raw) two_objects refl (unfold read_all is_eof is in refl)

restore-snapshot_example :
    (content : Bytes) × (objects : List (Bytes × Bytes)) × (snapshot none two_objects ≡ ok content)
    × (restore none (new_reader content) (new 9)
        ≡ (none, record (new 9) { objects = objects; used_bytes = 5 }))
    × ((d : Digest) → lookup d objects ≡ lookup d two_objects.objects)
restore-snapshot_example =
    restore-snapshot two_objects (new 9) two_objects-IsValid (omega arith, (omega arith, tt))
      (omega arith) (omega arith) (inr (unfold new in omega arith))
