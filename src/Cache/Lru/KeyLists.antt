-- ===== src/Cache/Lru/KeyLists.antt =====
-- cas/cache/lru/lru.go: the keys of the list, and of the map.
use go_cask.Common.{
  suc, ◌≡◌, refl, sym, ap, ◌∙◌, inl, inr, true, false, none, some, List, [], ◌∷◌, arith,
  if◌then◌else◌, Bool-cases, Option-cases, or_right, length, Bytes, bytes_eq, bytes_eq_iff,
  bytes_eq_refl,
}
use go_cask.Common.Assoc.{elem, lookup, insert, remove, Distinct, remove_absent}
use go_cask.Backend.{is_some}
use go_cask.Cache.Lru.{without, back}

-- No key stands twice.
abbrev pub Once : List Bytes → Type 0
Once [] = Unit
Once (k ∷ ks) = (elem k ks ≡ false) × Once ks

pub elem-without :
    (k j : Bytes) (ks : List Bytes)
    → elem j (without k ks) ≡ (if bytes_eq k j then false else elem j ks)
unfolding elem without
elem-without k j [] = ground arith
elem-without k j (i ∷ ks) =
    ground (arith, bytes_eq_iff k j, bytes_eq_iff i k, bytes_eq_iff i j, elem-without k j ks)

pub Once-without : (k : Bytes) (ks : List Bytes) → Once ks → Once (without k ks)
unfolding without
Once-without k [] h = tt
Once-without k (i ∷ ks) h = elim (Bool-cases (bytes_eq i k)) [
  | inl same ↦ rw same (Once-without k ks h.1)
  | inr other_key ↦ rw other_key (ground (arith, elem-without k i ks, h.0), Once-without k ks h.1)
]

pub without_absent : (k : Bytes) (ks : List Bytes) → elem k ks ≡ false → without k ks ≡ ks
unfolding without elem
without_absent k [] h = refl
without_absent k (i ∷ ks) h = ground (arith, without_absent k ks)

pub length-without :
    (k : Bytes) (ks : List Bytes)
    → Once ks
    → elem k ks ≡ true
    → suc (length (without k ks)) ≡ length ks
unfolding without elem
length-without k [] once h = cc
length-without k (i ∷ ks) once h = elim (Bool-cases (bytes_eq i k)) [
  | inl same ↦ rw same (
      ap (λ (l : List Bytes). suc (length l))
        (without_absent k ks (rw (sym ((bytes_eq_iff i k).0 same)) once.0)))
  | inr other_key ↦ rw other_key (ap suc (length-without k ks once.1 (rw other_key at h)))
]

pub elem-back : (ks : List Bytes) (k : Bytes) → back ks ≡ some k → elem k ks ≡ true
unfolding back elem
elem-back [] k h = cc
elem-back (i ∷ ks) k h = elim (Option-cases (back ks)) [
  | inl none_after ↦ rw (unwrap (rw none_after at h), bytes_eq_refl k) refl
  | inr (last, there) ↦
      let e : last ≡ k = unwrap (rw there at h) in
      or_right (bytes_eq i k) (elem-back ks k (there ∙ ap some e))
]
  where
    unwrap : {a b : Bytes} → some a ≡ some b → a ≡ b
    unwrap p = cc

pub back-none : (ks : List Bytes) → back ks ≡ none → length ks ≡ 0
unfolding back
back-none [] h = refl
back-none (i ∷ ks) h = elim (Option-cases (back ks)) [
  | inl none_after ↦ absurd (apart (rw none_after at h))
  | inr (last, there) ↦ absurd (apart (rw there at h))
]
  where
    apart : {k : Bytes} → some k ≡ none → ⊥
    apart p = cc

module _ {V : Type 0} where
  pub length-insert :
      (k : Bytes) (v : V) (m : List (Bytes × V))
      → length (insert k v m) ≡ (if is_some (lookup k m) then length m else suc (length m))
  unfolding insert lookup
  length-insert k v [] = refl
  length-insert k v ((j, w) ∷ m) = ground (arith, length-insert k v m)

  pub length-remove :
      (k : Bytes) (m : List (Bytes × V))
      → Distinct m
      → is_some (lookup k m) ≡ true
      → suc (length (remove k m)) ≡ length m
  unfolding remove lookup
  length-remove k [] d h = cc
  length-remove k ((j, w) ∷ m) d h = elim (Bool-cases (bytes_eq j k)) [
    | inl same ↦ rw same (
        ap (λ (l : List (Bytes × V)). suc (length l))
          (remove_absent k m (rw (sym ((bytes_eq_iff j k).0 same)) d.0)))
    | inr other_key ↦ rw other_key (ap suc (length-remove k m d.1 (rw other_key at h)))
  ]
