-- ===== src/Mem/Contents.antt =====
-- The invariant of the memory backend, and that every operation that changes state keeps it.
use go_cask.Common.{
  ℕ, ◌-◌, ◌≤◌, ◌≡◌, refl, ◌⊎◌, inl, inr, false, none, some, List, [], ◌∷◌, arith, Bool-cases,
  Option-cases, length, Bytes, bytes_eq,
}
use go_cask.Common.Assoc.{
  lookup, remove, Distinct, lookup-insert, lookup-remove, insert-Distinct, remove-Distinct, total,
  size_at, total-insert, total-remove,
}
use go_cask.Digest.{Digest, is_zero, check_digest}
use go_cask.Reader.{Reader}
use go_cask.Backend.{Ctx, check_ctx, found, or_fail-keeps, check_digest-eq-ok}
use go_cask.Mem.{new, budget, over_cap, stored, store, read_object, put, delete, Mem}

-- The accounting is exact, no key stands twice, the absent digest is no key, and the cap holds.
pub record IsValid (m : Mem) : Type 0 where
  pub accounted : m.used_bytes ≡ total m.objects
  pub distinct : Distinct m.objects
  pub no_absent : lookup [] m.objects ≡ none
  pub within_cap : (m.max_bytes ≡ 0) ⊎ (m.used_bytes ≤ m.max_bytes)

-- `New` gives an empty backend.
pub new-IsValid : (max : ℕ) → IsValid (new max)
unfolding new
new-IsValid max = record {
  accounted = unfold total in refl;
  distinct = tt;
  no_absent = unfold lookup in refl;
  within_cap = inr (omega arith);
}

size_at-le-total : (k : Bytes) (m : List (Bytes × Bytes)) → size_at k m ≤ total m
unfolding size_at total lookup
size_at-le-total k [] = omega arith
size_at-le-total k ((j, w) ∷ m) = ground (arith, size_at-le-total k m)

bytes_eq-absent : (key : Bytes) → is_zero key ≡ false → bytes_eq key [] ≡ false
unfolding bytes_eq
bytes_eq-absent [] h = cc
bytes_eq-absent (x ∷ key) h = refl

size_at-some :
    (k : Bytes) (m : List (Bytes × Bytes)) {old : Bytes}
    → lookup k m ≡ some old
    → size_at k m ≡ length old
unfolding size_at
size_at-some k m h = rw (h, size_at)

stored-IsValid :
    (key content : Bytes) (m : Mem)
    → IsValid m
    → is_zero key ≡ false
    → over_cap key content m ≡ false
    → IsValid (stored key content m)
stored-IsValid key content m v nz fits = record {
  accounted =
      omega
        (arith, v.accounted, total-insert key content m.objects, size_at-le-total key m.objects);
  distinct = insert-Distinct key content m.objects v.distinct;
  no_absent =
      ground (arith, lookup-insert key [] content m.objects, bytes_eq-absent key nz, v.no_absent);
  within_cap = ground (arith, v.within_cap, fits);
}

-- `store` keeps the invariant: the resident bytes never exceed the cap.
pub store-IsValid :
    (key content : Bytes) (m : Mem)
    → IsValid m
    → is_zero key ≡ false
    → IsValid (store key content m).1
unfolding store
store-IsValid key content m v nz = elim (Bool-cases (over_cap key content m)) [
  | inl over ↦ rw over v
  | inr fits ↦ rw fits (stored-IsValid key content m v nz fits)
]

-- `Put` keeps the invariant, on every branch.
pub put-IsValid :
    (ctx : Ctx) (d : Digest) (r : Reader) (m : Mem) → IsValid m → IsValid (put ctx d r m).1
unfolding put
put-IsValid ctx d r m v = or_fail-keeps IsValid (check_ctx ctx) m _ v λ _ _.
    or_fail-keeps IsValid (check_digest d) m _ v λ _ present.
      or_fail-keeps IsValid (read_object ctx (budget m d) r) m _ v
        λ content _. store-IsValid d content m v (check_digest-eq-ok d present)

removed-IsValid :
    (d : Digest) (m : Mem) (old : Bytes)
    → IsValid m
    → lookup d m.objects ≡ some old
    → IsValid (record m { objects = remove d m.objects; used_bytes = m.used_bytes - length old })
removed-IsValid d m old v found = record {
  accounted =
      omega
        (arith, v.accounted, total-remove d m.objects v.distinct, size_at-some d m.objects found);
  distinct = remove-Distinct d m.objects v.distinct;
  no_absent = ground (arith, lookup-remove d [] m.objects, v.no_absent);
  within_cap = omega (arith, v.within_cap);
}

-- `Delete` keeps the invariant, on every branch.
pub delete-IsValid : (ctx : Ctx) (d : Digest) (m : Mem) → IsValid m → IsValid (delete ctx d m).1
unfolding delete
delete-IsValid ctx d m v = or_fail-keeps IsValid (check_ctx ctx) m _ v λ _ _.
    or_fail-keeps IsValid (check_digest d) m _ v λ _ _. elim (Option-cases (lookup d m.objects)) [
      | inl absent ↦ rw absent v
      | inr (old, found) ↦ rw found (removed-IsValid d m old v found)
    ]
