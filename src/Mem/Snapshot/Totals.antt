-- ===== src/Mem/Snapshot/Totals.antt =====
-- The keys that `Snapshot` writes, and the sizes of their objects together.
use go_cask.Common.{
  ℕ, ◌+◌, ◌≤◌, ◌≡◌, refl, ap, ◌∙◌, inl, inr, false, none, List, [], ◌∷◌, arith, Bool-cases, length,
  Bytes, bytes_eq, bytes_eq_iff, bytes_eq_refl,
}
use go_cask.Common.Assoc.{elem, lookup, keys, Distinct, total}
use go_cask.Common.Sort.{bytes_leb, insert_sorted, sort, elem-insert_sorted, elem-sort}
use go_cask.Digest.{is_zero}
use go_cask.Backend.{is_some}
use go_cask.Mem.Snapshot.{max_snapshot_digest_size, object_at, snapshot_keys, snapshot_total}

-- The bytes of the objects at a list of keys.
unfoldable pub sizes : List (Bytes × Bytes) → List Bytes → ℕ
sizes m [] = 0
sizes m (key ∷ keys) = length (object_at m key) + sizes m keys

-- Every key is short enough for `Restore`.
abbrev pub AllShort : List (Bytes × Bytes) → Type 0
AllShort [] = Unit
AllShort ((key, content) ∷ m) = (length key ≤ max_snapshot_digest_size) × AllShort m

-- Keys that can be restored after the objects in `objects`: each is a digest, short enough, not yet
-- restored, and does not stand again among the keys behind it.
abbrev pub AreFresh : List (Bytes × Bytes) → List Bytes → Type 0
AreFresh objects [] = Unit
AreFresh objects (key ∷ keys) =
    (is_zero key ≡ false)
    × (length key ≤ max_snapshot_digest_size)
    × (lookup key objects ≡ none)
    × (elem key keys ≡ false)
    × AreFresh objects keys

sizes-insert_sorted :
    (m : List (Bytes × Bytes)) (key : Bytes) (keys : List Bytes)
    → sizes m (insert_sorted key keys) ≡ length (object_at m key) + sizes m keys
unfolding sizes insert_sorted
sizes-insert_sorted m key [] = refl
sizes-insert_sorted m key (j ∷ keys) = ground (arith, sizes-insert_sorted m key keys)

sizes-sort : (m : List (Bytes × Bytes)) (keys : List Bytes) → sizes m (sort keys) ≡ sizes m keys
unfolding sizes sort
sizes-sort m [] = refl
sizes-sort m (key ∷ keys) = omega (arith, sizes-insert_sorted m key (sort keys), sizes-sort m keys)

sizes-cons :
    (j content : Bytes) (m : List (Bytes × Bytes)) (keys : List Bytes)
    → elem j keys ≡ false
    → sizes ((j, content) ∷ m) keys ≡ sizes m keys
unfolding sizes elem object_at lookup
sizes-cons j content m [] h = refl
sizes-cons j content m (key ∷ keys) h =
    ground (arith, sizes-cons j content m keys, bytes_eq_iff j key, bytes_eq_iff key j)

pub elem-snapshot_keys :
    (q : Bytes) (m : List (Bytes × Bytes))
    → is_zero q ≡ false
    → elem q (snapshot_keys m) ≡ is_some (lookup q m)
unfolding elem snapshot_keys lookup bytes_eq
elem-snapshot_keys q [] nz = refl
elem-snapshot_keys [] ((k, v) ∷ m) nz = cc
elem-snapshot_keys (x ∷ q) (([], v) ∷ m) nz = elem-snapshot_keys (x ∷ q) m refl
elem-snapshot_keys (x ∷ q) ((y ∷ k, v) ∷ m) nz = ground (arith, elem-snapshot_keys (x ∷ q) m refl)

pub elem-snapshot_keys_absent : (m : List (Bytes × Bytes)) → elem [] (snapshot_keys m) ≡ false
unfolding elem snapshot_keys bytes_eq
elem-snapshot_keys_absent [] = refl
elem-snapshot_keys_absent (([], v) ∷ m) = elem-snapshot_keys_absent m
elem-snapshot_keys_absent ((y ∷ k, v) ∷ m) = elem-snapshot_keys_absent m

object_at_self : (k v : Bytes) (m : List (Bytes × Bytes)) → object_at ((k, v) ∷ m) k ≡ v
unfolding object_at lookup
object_at_self k v m = rw (bytes_eq_refl k, object_at)

fresh_key :
    (x : ℕ) (k : Bytes) (m : List (Bytes × Bytes))
    → lookup (x ∷ k) m ≡ none
    → elem (x ∷ k) (snapshot_keys m) ≡ false
fresh_key x k m h = elem-snapshot_keys (x ∷ k) m refl ∙ ap is_some h

sizes-snapshot_keys :
    (m : List (Bytes × Bytes)) → Distinct m → sizes m (snapshot_keys m) ≡ snapshot_total m
unfolding snapshot_keys snapshot_total sizes
sizes-snapshot_keys [] d = refl
sizes-snapshot_keys (([], v) ∷ m) d =
    sizes-cons [] v m (snapshot_keys m) (elem-snapshot_keys_absent m) ∙ sizes-snapshot_keys m d.1
sizes-snapshot_keys ((x ∷ k, v) ∷ m) d = omega (
  arith,
  ap length (object_at_self (x ∷ k) v m),
  sizes-cons (x ∷ k) v m (snapshot_keys m) (fresh_key x k m d.0),
  sizes-snapshot_keys m d.1,
)

-- The sizes of the records that are written are the total that the header announces.
pub sizes-sort-snapshot_keys :
    (m : List (Bytes × Bytes)) → Distinct m → sizes m (sort (snapshot_keys m)) ≡ snapshot_total m
sizes-sort-snapshot_keys m d = sizes-sort m (snapshot_keys m) ∙ sizes-snapshot_keys m d

-- Without an absent key nothing is skipped.
pub snapshot_total-total :
    (m : List (Bytes × Bytes)) → lookup [] m ≡ none → snapshot_total m ≡ total m
unfolding snapshot_total total lookup bytes_eq
snapshot_total-total [] h = refl
snapshot_total-total (([], v) ∷ m) h = cc
snapshot_total-total ((x ∷ k, v) ∷ m) h = omega (arith, snapshot_total-total m h)

pub AreFresh-snapshot_keys :
    (m : List (Bytes × Bytes)) → Distinct m → AllShort m → AreFresh [] (snapshot_keys m)
unfolding snapshot_keys
AreFresh-snapshot_keys [] d a = tt
AreFresh-snapshot_keys (([], v) ∷ m) d a = AreFresh-snapshot_keys m d.1 a.1
AreFresh-snapshot_keys ((x ∷ k, v) ∷ m) d a =
    (refl, a.0, unfold lookup in refl, fresh_key x k m d.0, AreFresh-snapshot_keys m d.1 a.1)

AreFresh-insert_sorted :
    (objects : List (Bytes × Bytes)) (key : Bytes) (keys : List Bytes)
    → AreFresh objects (key ∷ keys)
    → AreFresh objects (insert_sorted key keys)
unfolding insert_sorted
AreFresh-insert_sorted objects key [] f = f
AreFresh-insert_sorted objects key (j ∷ keys) (p, s, n, e, (pj, sj, nj, ej, f)) =
    elim (Bool-cases (bytes_leb key j)) [
      | inl le ↦ rw le (p, s, n, e, (pj, sj, nj, ej, f))
      | inr gt ↦
          rw gt (pj, sj, nj, later, AreFresh-insert_sorted objects key keys (p, s, n, not_later, f))
    ]
  where
    not_later : elem key keys ≡ false
    not_later = unfold elem in ground arith

    later : elem j (insert_sorted key keys) ≡ false
    later =
        elem-insert_sorted j key keys
        ∙ unfold elem in ground (arith, bytes_eq_iff key j, bytes_eq_iff j key)

pub AreFresh-sort :
    (objects : List (Bytes × Bytes)) (keys : List Bytes)
    → AreFresh objects keys
    → AreFresh objects (sort keys)
unfolding sort
AreFresh-sort objects [] f = tt
AreFresh-sort objects (key ∷ keys) (p, s, n, e, f) =
    AreFresh-insert_sorted objects key (sort keys)
      (p, s, n, elem-sort key keys ∙ e, AreFresh-sort objects keys f)
