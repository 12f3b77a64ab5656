-- ===== src/Common/Keys.antt =====
-- Maps as lists in the order of their keys, which are byte strings: `slices.Sorted(maps.Keys(m))`.
use go_cask.Common.{
  suc, ◌^◌, ◌≤◌, ◌<◌, ◌≡◌, refl, sym, ap, ◌∙◌, inl, inr, Bool, true, false, List, [], ◌∷◌, ◌++◌,
  arith, if◌then◌else◌, Bool-cases, length, Bytes, bytes_eq, bytes_eq_iff,
}
use go_cask.Common.Sort.{bytes_leb}

-- `m[key] = value`, and `slices.Sorted(maps.Keys(m))` by such assignments: the members of a map are
-- kept in the order of their keys.
unfoldable pub set_key {ℓ} : {A : Type ℓ} → Bytes → A → List (Bytes × A) → List (Bytes × A)
set_key k a [] = (k, a) ∷ []
set_key k a ((j, b) ∷ ms) =
    let rest = set_key k a ms in
    if bytes_eq k j
    then (k, a) ∷ ms
    else if bytes_leb k j
    then (k, a) ∷ (j, b) ∷ ms
    else (j, b) ∷ rest

unfoldable pub sorted_keys {ℓ} : {A : Type ℓ} → List (Bytes × A) → List (Bytes × A)
sorted_keys [] = []
sorted_keys ((k, a) ∷ ms) = set_key k a (sorted_keys ms)

-- `f` of the value of each member.
unfoldable pub map_values {ℓ ℓ'} :
    {A : Type ℓ} {B : Type ℓ'} → (A → B) → List (Bytes × A) → List (Bytes × B)
map_values f [] = []
map_values f ((k, a) ∷ ms) = (k, f a) ∷ map_values f ms

-- `k` comes before `j`.
abbrev Before : Bytes → Bytes → Type 0
Before k j = bytes_leb j k ≡ false

-- `k` comes before each key of a list, and each key before those after it.
abbrev pub First {ℓ} : {A : Type ℓ} → Bytes → List (Bytes × A) → Type 0
First k [] = Unit
First k ((j, a) ∷ ms) = Before k j × First k ms

abbrev pub Ascending {ℓ} : {A : Type ℓ} → List (Bytes × A) → Type 0
Ascending [] = Unit
Ascending ((k, a) ∷ ms) = First k ms × Ascending ms

bytes_leb_refl : (a : Bytes) → bytes_leb a a ≡ true
unfolding bytes_leb
bytes_leb_refl [] = refl
bytes_leb_refl (x ∷ a) = ground (arith, bytes_leb_refl a)

Before-trans : (i j k : Bytes) → Before i j → Before j k → Before i k
unfolding bytes_leb
Before-trans i [] k p q = cc
Before-trans i (y ∷ j) [] p q = cc
Before-trans [] (y ∷ j) (z ∷ k) p q = refl
Before-trans (x ∷ i) (y ∷ j) (z ∷ k) p q = ground (arith, Before-trans i j k)

leb-Before : (k j : Bytes) → bytes_leb k j ≡ true → bytes_eq k j ≡ false → Before k j
unfolding bytes_leb bytes_eq
leb-Before [] [] p q = cc
leb-Before [] (y ∷ j) p q = refl
leb-Before (x ∷ k) [] p q = cc
leb-Before (x ∷ k) (y ∷ j) p q = ground (arith, leb-Before k j)

First-Before {ℓ} :
    {A : Type ℓ} (i k : Bytes) (ms : List (Bytes × A)) → Before i k → First k ms → First i ms
First-Before i k [] p f = tt
First-Before i k ((j, a) ∷ ms) p f = (Before-trans i k j p f.0, First-Before i k ms p f.1)

First-set_key {ℓ} :
    {A : Type ℓ} (i k : Bytes) (a : A) (ms : List (Bytes × A))
    → Before i k
    → First i ms
    → First i (set_key k a ms)
unfolding set_key
First-set_key i k a [] p f = (p, tt)
First-set_key i k a ((j, b) ∷ ms) p f = elim (Bool-cases (bytes_eq k j)) [
  | inl same ↦ rw same (p, f.1)
  | inr other_key ↦ rw other_key (elim (Bool-cases (bytes_leb k j)) [
    | inl before ↦ rw before (p, f)
    | inr after ↦ rw after (f.0, First-set_key i k a ms p f.1)
  ])
]

Ascending-set_key {ℓ} :
    {A : Type ℓ} (k : Bytes) (a : A) (ms : List (Bytes × A))
    → Ascending ms
    → Ascending (set_key k a ms)
unfolding set_key
Ascending-set_key k a [] h = (tt, tt)
Ascending-set_key k a ((j, b) ∷ ms) h = elim (Bool-cases (bytes_eq k j)) [
  | inl same ↦ rw same (rw ((bytes_eq_iff k j).0 same) h.0, h.1)
  | inr other_key ↦ rw other_key (elim (Bool-cases (bytes_leb k j)) [
    | inl before ↦ rw before (
      (leb-Before k j before other_key, First-Before k j ms (leb-Before k j before other_key) h.0),
      h,
    )
    | inr after ↦ rw after (First-set_key j k a ms after h.0, Ascending-set_key k a ms h.1)
  ])
]

pub sorted_keys-Ascending {ℓ} : {A : Type ℓ} (ms : List (Bytes × A)) → Ascending (sorted_keys ms)
unfolding sorted_keys
sorted_keys-Ascending [] = tt
sorted_keys-Ascending ((k, a) ∷ ms) =
    Ascending-set_key k a (sorted_keys ms) (sorted_keys-Ascending ms)

-- A key after all others goes to the end.
pub set_key_last {ℓ} :
    {A : Type ℓ} (k : Bytes) (a : A) (ms rest : List (Bytes × A))
    → Ascending (ms ++ (k, a) ∷ rest)
    → set_key k a ms ≡ ms ++ (k, a) ∷ []
unfolding set_key
set_key_last k a [] rest h = refl
set_key_last k a ((j, b) ∷ ms) rest h =
    let before = first_last j k a ms rest h.0 in
    rw (distinct j k before, before) (ap (◌∷◌ (j, b)) (set_key_last k a ms rest h.1))
  where
    first_last :
        {A : Type ℓ} (j k : Bytes) (a : A) (ms rest : List (Bytes × A))
        → First j (ms ++ (k, a) ∷ rest)
        → Before j k
    first_last j k a [] rest f = f.0
    first_last j k a ((i, b) ∷ ms) rest f = first_last j k a ms rest f.1

    distinct : (j k : Bytes) → Before j k → bytes_eq k j ≡ false
    distinct j k before = elim (Bool-cases (bytes_eq k j)) [
      | inl same ↦ absurd (apart before (rw (sym ((bytes_eq_iff k j).0 same)) (bytes_leb_refl k)))
      | inr different ↦ different
    ]
      where
        apart : {t : Bool} → t ≡ false → t ≡ true → ⊥
        apart p q = cc

-- `f` of each value, before the keys are sorted or after.
map_values-set_key {ℓ ℓ'} :
    {A : Type ℓ} {B : Type ℓ'} (f : A → B) (k : Bytes) (a : A) (ms : List (Bytes × A))
    → map_values f (set_key k a ms) ≡ set_key k (f a) (map_values f ms)
unfolding set_key map_values
map_values-set_key f k a [] = refl
map_values-set_key f k a ((j, b) ∷ ms) = elim (Bool-cases (bytes_eq k j)) [
  | inl same ↦ rw same refl
  | inr other_key ↦ rw other_key (elim (Bool-cases (bytes_leb k j)) [
    | inl before ↦ rw before refl
    | inr after ↦ rw after (ap (◌∷◌ (j, f b)) (map_values-set_key f k a ms))
  ])
]

pub map_values-sorted_keys {ℓ ℓ'} :
    {A : Type ℓ} {B : Type ℓ'} (f : A → B) (ms : List (Bytes × A))
    → map_values f (sorted_keys ms) ≡ sorted_keys (map_values f ms)
unfolding sorted_keys map_values
map_values-sorted_keys f [] = refl
map_values-sorted_keys f ((k, a) ∷ ms) =
    map_values-set_key f k a (sorted_keys ms) ∙ ap (set_key k (f a)) (map_values-sorted_keys f ms)

length-set_key {ℓ} :
    {A : Type ℓ} (k : Bytes) (a : A) (ms : List (Bytes × A))
    → length (set_key k a ms) ≤ suc (length ms)
unfolding set_key
length-set_key k a [] = omega arith
length-set_key k a ((j, b) ∷ ms) = ground (arith, length-set_key k a ms)

pub length-sorted_keys {ℓ} :
    {A : Type ℓ} (ms : List (Bytes × A)) → length (sorted_keys ms) ≤ length ms
unfolding sorted_keys
length-sorted_keys [] = omega arith
length-sorted_keys ((k, a) ∷ ms) =
    omega (arith, length-set_key k a (sorted_keys ms), length-sorted_keys ms)

pub length-map_values {ℓ ℓ'} :
    {A : Type ℓ} {B : Type ℓ'} (f : A → B) (ms : List (Bytes × A))
    → length (map_values f ms) ≡ length ms
unfolding map_values
length-map_values f [] = refl
length-map_values f ((k, a) ∷ ms) = ap suc (length-map_values f ms)

-- Each key has a length that the head can hold.
abbrev pub ShortKeys {ℓ} : {A : Type ℓ} → List (Bytes × A) → Type 0
ShortKeys [] = Unit
ShortKeys ((k, a) ∷ ms) = (length k < 2 ^ 64) × ShortKeys ms

set_key-ShortKeys {ℓ} :
    {A : Type ℓ} (k : Bytes) (a : A) (ms : List (Bytes × A))
    → length k < 2 ^ 64
    → ShortKeys ms
    → ShortKeys (set_key k a ms)
unfolding set_key
set_key-ShortKeys k a [] h s = (h, tt)
set_key-ShortKeys k a ((j, b) ∷ ms) h s = elim (Bool-cases (bytes_eq k j)) [
  | inl same ↦ rw same (h, s.1)
  | inr other_key ↦ rw other_key (elim (Bool-cases (bytes_leb k j)) [
    | inl before ↦ rw before (h, s)
    | inr after ↦ rw after (s.0, set_key-ShortKeys k a ms h s.1)
  ])
]

pub sorted_keys-ShortKeys {ℓ} :
    {A : Type ℓ} (ms : List (Bytes × A)) → ShortKeys ms → ShortKeys (sorted_keys ms)
unfolding sorted_keys
sorted_keys-ShortKeys [] s = tt
sorted_keys-ShortKeys ((k, a) ∷ ms) s =
    set_key-ShortKeys k a (sorted_keys ms) s.0 (sorted_keys-ShortKeys ms s.1)
