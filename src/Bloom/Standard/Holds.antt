-- ===== src/Bloom/Standard/Holds.antt =====
-- cas/bloom/standard/filter.go: a filter holds every digest that was added.
use go_cask.Common.{
  ℕ, zero, suc, ◌*◌, ◌%◌, ◌≤◌, ◌<◌, ◌≡◌, refl, sym, inl, inr, true, false, List, [], ◌∷◌, arith,
  if◌then◌else◌, Bool-cases, length, Bytes, bytes_eq, bytes_eq_iff,
}
use go_cask.Common.Assoc.{elem}
use go_cask.Digest.{Digest, is_zero}
use go_cask.Bloom.{IndexHash}
use go_cask.Bloom.Slices.{zeros}
use go_cask.Bloom.Standard.{set_bit, has_bit, add_probes, has_probes, add, holds, reset, Filter}
use go_cask.Bloom.Standard.Words.{
  length-set_bit, length-add_probes, has_bit-zeros, has_bit-set_bit, set_bit-keeps, IsSound,
}

module _ (hash : IndexHash) (m : ℕ) where
  add_probes-keeps :
      (d : Bytes) (i n j : ℕ) (ws : List ℕ)
      → has_bit j ws ≡ true
      → has_bit j (add_probes hash m d i n ws) ≡ true
  unfolding add_probes
  add_probes-keeps d i zero j ws q = q
  add_probes-keeps d i (suc n) j ws q =
      add_probes-keeps d (suc i) n j (set_bit (hash d i % m) ws)
        (set_bit-keeps (hash d i % m) j ws q)

  pub has_probes-add_probes :
      (d e : Bytes) (i n a b : ℕ) (ws : List ℕ)
      → has_probes hash m e i n ws ≡ true
      → has_probes hash m e i n (add_probes hash m d a b ws) ≡ true
  unfolding has_probes
  has_probes-add_probes d e i zero a b ws q = refl
  has_probes-add_probes d e i (suc n) a b ws q = elim (Bool-cases (has_bit (hash e i % m) ws)) [
    | inl set ↦
        rw (add_probes-keeps d a b (hash e i % m) ws set)
          (has_probes-add_probes d e (suc i) n a b ws (rw set at q))
    | inr unset ↦ absurd (apart (rw unset at q))
  ]
    where
      apart : false ≡ true → ⊥
      apart h = cc

  -- Each probe is in range of the words.
  pub probe-in_range : (d : Bytes) (i c : ℕ) → 0 < m → m ≤ 64 * c → hash d i % m < 64 * c
  probe-in_range d i c pos room = omega arith

  pub add_probes-added :
      (d : Bytes) (i n : ℕ) (ws : List ℕ)
      → 0 < m
      → m ≤ 64 * length ws
      → has_probes hash m d i n (add_probes hash m d i n ws) ≡ true
  unfolding add_probes has_probes
  add_probes-added d i zero ws pos room = refl
  add_probes-added d i (suc n) ws pos room =
      let idx = hash d i % m in
      rw
        (add_probes-keeps d (suc i) n idx (set_bit idx ws)
          (has_bit-set_bit idx ws (probe-in_range d i (length ws) pos room)))
        (add_probes-added d (suc i) n (set_bit idx ws) pos (rw (length-set_bit idx ws) room))

has_probes-zeros :
    (hash : IndexHash) (m : ℕ) (d : Bytes) (i n c : ℕ)
    → 0 < n
    → has_probes hash m d i n (zeros c) ≡ false
unfolding has_probes
has_probes-zeros hash m d i zero c pos = absurd (omega arith)
has_probes-zeros hash m d i (suc n) c pos = rw (has_bit-zeros (hash d i % m) c) refl

pub add-IsSound : (d : Digest) (f : Filter) → IsSound f → IsSound (add d f)
unfolding add
add-IsSound d f s = elim (Bool-cases (is_zero d)) [
  | inl zero_digest ↦ rw zero_digest s
  | inr present ↦ rw present (record {
    positive = s.positive;
    room = rw (length-add_probes f.hash f.m d 0 f.k f.bits) s.room;
  })
]

-- A digest that is present is held once it was added.
pub holds-add : (d : Digest) (f : Filter) → IsSound f → is_zero d ≡ false → holds d (add d f) ≡ true
unfolding holds add
holds-add d f s present = rw present (add_probes-added f.hash f.m d 0 f.k f.bits s.positive s.room)

pub add-keeps : (d e : Digest) (f : Filter) → holds e f ≡ true → holds e (add d f) ≡ true
unfolding holds add
add-keeps d e f q = elim (Bool-cases (is_zero e)) [
  | inl zero_digest ↦ absurd (apart (rw zero_digest at q))
  | inr present ↦ rw present (elim (Bool-cases (is_zero d)) [
    | inl nothing ↦ rw nothing (rw present at q)
    | inr other_digest ↦
        rw other_digest (has_probes-add_probes f.hash f.m d e 0 f.k 0 f.k f.bits (rw present at q))
  ])
]
  where
    apart : false ≡ true → ⊥
    apart h = cc

-- `Add` of each digest of a list.
abbrev pub add_all : List Digest → Filter → Filter
add_all [] f = f
add_all (d ∷ ds) f = add_all ds (add d f)

add_all-keeps :
    (ds : List Digest) (e : Digest) (f : Filter) → holds e f ≡ true → holds e (add_all ds f) ≡ true
add_all-keeps [] e f q = q
add_all-keeps (d ∷ ds) e f q = add_all-keeps ds e (add d f) (add-keeps d e f q)

add_all-holds :
    (ds : List Digest) (d : Digest) (f : Filter)
    → IsSound f
    → elem d ds ≡ true
    → is_zero d ≡ false
    → holds d (add_all ds f) ≡ true
unfolding elem
add_all-holds [] d f s h present = cc
add_all-holds (e ∷ ds) d f s h present = elim (Bool-cases (bytes_eq e d)) [
  | inl same ↦ add_all-keeps ds d (add e f) (
      rw (sym ((bytes_eq_iff e d).0 same))
        (holds-add e f s (rw ((bytes_eq_iff e d).0 same) present)))
  | inr different ↦ add_all-holds ds d (add e f) (add-IsSound e f s) (rw different at h) present
]

-- No false negative: in a filter of at least one position, with words for all of them, each present
-- digest of a list is held after `Add` of the whole list, whatever was in the filter before and
-- whatever the hash is. After `Reset`, a filter of at least one probe holds no digest.
pub holds-add_all :
    (ds : List Digest) (d : Digest) (f : Filter)
    → IsSound f
    → 0 < f.k
    → elem d ds ≡ true
    → is_zero d ≡ false
    → (holds d (add_all ds f) ≡ true) × (holds d (reset f) ≡ false)
unfolding holds reset
holds-add_all ds d f s pos h present = (add_all-holds ds d f s h present, reset_none f.k pos)
  where
    reset_none :
        (k : ℕ)
        → 0 < k
        → (if is_zero d then false else has_probes f.hash f.m d 0 k (zeros (length f.bits))) ≡ false
    reset_none k pos = elim (Bool-cases (is_zero d)) [
      | inl z ↦ rw z refl
      | inr p ↦ rw p (has_probes-zeros f.hash f.m d 0 k (length f.bits) pos)
    ]
