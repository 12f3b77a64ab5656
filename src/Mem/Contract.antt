-- ===== src/Mem/Contract.antt =====
-- The memory backend keeps the contract of `cas.Backend`; its theorems fill `BackendLaws`.
use go_cask.Common.{
  ◌+◌, ◌-◌, ◌≤◌, ◌≡◌, refl, sym, ap, ◌∙◌, ◌↔◌, ◌⊎◌, inl, inr, false, none, some, List, [], ◌∷◌,
  arith, if◌then◌else◌, Bool-cases, Option-cases, length, Bytes, bytes_eq,
}
use go_cask.Common.Assoc.{
  elem, lookup, remove, lookup-insert, lookup-remove, remove_absent, size_at,
}
use go_cask.Common.Sort.{sort, IsSorted, sort-IsSorted, elem-sort}
use go_cask.Errors.{Error, ok}
use go_cask.Digest.{Digest, is_zero, new_digest, check_digest}
use go_cask.Reader.{read_all, Reader}
use go_cask.Backend.{
  Ctx, check_ctx, found, is_some, or_fail-failed, check_digest_present, BackendLaws,
}
use go_cask.Mem.{
  budget, over_cap, store, read_object, put, get, exists, delete, addressable, list, mem_backend,
  Mem,
}
use go_cask.Mem.Contents.{put-IsValid, delete-IsValid, IsValid}
use go_cask.Mem.Laws.{put-done, read_object_fits}

-- A `Put` into a valid backend that returns nil has read the whole stream, keeps the invariant, stores the bytes under its
-- digest and changes no other object.
pub put-contract :
    (ctx : Ctx) (d : Digest) (r : Reader) (m : Mem)
    → IsValid m
    → (put ctx d r m).0 ≡ none
    → (read_all r ≡ ok r.content)
      × IsValid (put ctx d r m).1
      × ((j : Digest)
          → lookup j (put ctx d r m).1.objects
            ≡ (if bytes_eq d j then some r.content else lookup j m.objects))
put-contract ctx d r m v h =
    let (whole, present, fits, done) = put-done ctx d r m h in
    (whole, put-IsValid ctx d r m v, λ j. rw done (lookup-insert d j r.content m.objects))

store_failed :
    (d content : Bytes) (m : Mem) {e : Error}
    → (store d content m).0 ≡ some e
    → (store d content m).1 ≡ m
unfolding store
store_failed d content m h = elim (Bool-cases (over_cap d content m)) [
  | inl over ↦ rw (over, store)
  | inr fits ↦ absurd (cc (rw (fits, store) at h))
]

-- A `Put` that returns an error changes nothing.
pub put_failed :
    (ctx : Ctx) (d : Digest) (r : Reader) (m : Mem) (e : Error)
    → (put ctx d r m).0 ≡ some e
    → (put ctx d r m).1 ≡ m
unfolding put
put_failed ctx d r m e = or_fail-failed (check_ctx ctx) m _ λ _.
    or_fail-failed (check_digest d) m _
      λ _. or_fail-failed (read_object ctx (budget m d) r) m _ λ content. store_failed d content m

delete_absent :
    (d : Digest) (m : Mem)
    → is_zero d ≡ false
    → lookup d m.objects ≡ none
    → delete none d m ≡ (none, m)
unfolding delete
delete_absent d m p e = rw (check_digest_present d p) (rw e)

delete_present :
    (d : Digest) (m : Mem) {old : Bytes}
    → is_zero d ≡ false
    → lookup d m.objects ≡ some old
    → delete none d m
      ≡ (none, record m { objects = remove d m.objects; used_bytes = m.used_bytes - length old })
unfolding delete
delete_present d m p e = rw (check_digest_present d p) (rw e)

-- On a live context a deletion succeeds, and removes the one key.
delete_objects :
    (d : Digest) (m : Mem)
    → is_zero d ≡ false
    → ((delete none d m).0 ≡ none) × ((delete none d m).1.objects ≡ remove d m.objects)
delete_objects d m p = elim (Option-cases (lookup d m.objects)) [
  | inl e ↦ rw (delete_absent d m p e) (refl, sym (remove_absent d m.objects e))
  | inr (old, e) ↦ rw (delete_present d m p e) (refl, refl)
]

-- `Delete` of a present digest from a valid backend succeeds on a live context, keeps the invariant, and removes
-- that one object if it is there.
pub delete-contract :
    (d : Digest) (m : Mem)
    → IsValid m
    → is_zero d ≡ false
    → ((delete none d m).0 ≡ none)
      × IsValid (delete none d m).1
      × ((j : Digest)
          → lookup j (delete none d m).1.objects
            ≡ (if bytes_eq d j then none else lookup j m.objects))
delete-contract d m v present =
    let (done, objects) = delete_objects d m present in
    (done, delete-IsValid none d m v, λ j. ap (lookup j) objects ∙ lookup-remove d j m.objects)

elem-addressable :
    (d : Digest) (m : List (Bytes × Bytes))
    → is_zero d ≡ false
    → elem d (addressable m) ≡ is_some (lookup d m)
unfolding elem addressable lookup new_digest bytes_eq
elem-addressable d [] nz = refl
elem-addressable [] ((k, v) ∷ m) nz = cc
elem-addressable (x ∷ d) (([], v) ∷ m) nz = elem-addressable (x ∷ d) m refl
elem-addressable (x ∷ d) ((y ∷ k, v) ∷ m) nz = ground (arith, elem-addressable (x ∷ d) m refl)

-- No entry of `List` is the absent digest.
elem-addressable_absent : (m : List (Bytes × Bytes)) → elem [] (addressable m) ≡ false
unfolding elem addressable new_digest bytes_eq
elem-addressable_absent [] = refl
elem-addressable_absent (([], v) ∷ m) = elem-addressable_absent m
elem-addressable_absent ((y ∷ k, v) ∷ m) = elem-addressable_absent m

-- `List` of a valid backend gives, on a live context, every stored digest, sorted, and nothing else.
pub list-contract :
    (m : Mem)
    → IsValid m
    → (ds : List Digest) × (list none m ≡ ok ds)
      × ((d : Digest) → elem d ds ≡ is_some (lookup d m.objects))
      × IsSorted ds
unfolding list
list-contract m v = (
  sort (addressable m.objects),
  refl,
  λ d. elem-sort d (addressable m.objects) ∙ listed d,
  sort-IsSorted _,
)
  where
    listed : (d : Digest) → elem d (addressable m.objects) ≡ is_some (lookup d m.objects)
    listed [] = elem-addressable_absent m.objects ∙ ap is_some (sym v.no_absent)
    listed (x ∷ d) = elem-addressable (x ∷ d) m.objects refl

pub get-contract :
    (d : Digest) (m : Mem) → is_zero d ≡ false → get none d m ≡ found (lookup d m.objects)
unfolding get
get-contract d m p = rw (check_digest_present d p)

pub exists-contract :
    (d : Digest) (m : Mem) → is_zero d ≡ false → exists none d m ≡ ok (is_some (lookup d m.objects))
unfolding exists
exists-contract d m p = rw (check_digest_present d p)

-- The memory backend is a map from digests to bytes: `Get`, `Exists` and `List` read that map, a
-- `Put` that succeeds stores the whole stream under its digest and leaves every other object, a
-- `Put` that fails changes nothing, a `Delete` removes one object, and the invariant is kept.
unfoldable pub mem_laws : BackendLaws mem_backend
mem_laws = record {
  IsValid = IsValid;
  view = λ m d. lookup d m.objects;
  absent = λ m v. v.no_absent;
  get_lem = λ d m v p. get-contract d m p;
  exists_lem = λ d m v p. exists-contract d m p;
  put_done = put-contract;
  put_failed = put_failed;
  delete_lem = delete-contract;
  list_lem = λ m v. let (ds, listed, same, sorted) = list-contract m v in (ds, listed, same);
}

-- On a live context, with a digest that is present and a stream that ends regularly, `Put` succeeds
-- exactly if there is no cap, or the resident bytes with the new object in place of the old one stay
-- within it.
pub put-within_cap_iff :
    (d : Digest) (r : Reader) (m : Mem)
    → is_zero d ≡ false
    → read_all r ≡ ok r.content
    → ((put none d r m).0 ≡ none)
      ↔ ((m.max_bytes ≡ 0) ⊎ (m.used_bytes + length r.content ≤ m.max_bytes + size_at d m.objects))
unfolding put store
put-within_cap_iff d r m present whole = (fits, succeeds)
  where
    fits :
        (put none d r m).0 ≡ none
        → (m.max_bytes ≡ 0) ⊎ (m.used_bytes + length r.content ≤ m.max_bytes + size_at d m.objects)
    fits h = let (read, p, kept, done) = put-done none d r m h in ground (arith, kept)

    kept_of :
        (m.max_bytes ≡ 0) ⊎ (m.used_bytes + length r.content ≤ m.max_bytes + size_at d m.objects)
        → over_cap d r.content m ≡ false
    kept_of h = ground arith

    succeeds :
        (m.max_bytes ≡ 0) ⊎ (m.used_bytes + length r.content ≤ m.max_bytes + size_at d m.objects)
        → (put none d r m).0 ≡ none
    succeeds h =
        rw
          (
            put,
            check_digest_present d present,
            read_object_fits d r m whole (kept_of h),
            store,
            kept_of h,
          )
          refl
