-- ===== src/Bloom/Counting/Balance.antt =====
-- cas/bloom/counting/filter.go: the counters count the probes.
use Prim.Native.Nat.{min}
use go_cask.Common.{
  ℕ, zero, suc, ◌+◌, ◌-◌, ◌*◌, ◌/◌, ◌%◌, ◌≤◌, ◌<◌, ◌≡◌, refl, sym, ◌∙◌, inl, inr, arith, ltb, ◌==◌,
  if◌then◌else◌, ==_iff, Bool-cases, length, Bytes,
}
use go_cask.Bloom.{IndexHash}
use go_cask.Bloom.Slices.{zeros, length-zeros, item-zeros}
use go_cask.Bloom.Counting.{
  width_bits, mask, packed_counter_bytes, counter, increment, decrement, add_probes, remove_probes,
  Width, four, eight, sixteen,
}
use go_cask.Bloom.Counting.Slots.{
  SlotFits, length-set_counter, counter-set_counter, counter-set_counter_other,
}

-- How many of `n` probes from probe `i` on hit slot `j`.
unfoldable pub hits : IndexHash → ℕ → Bytes → ℕ → ℕ → ℕ → ℕ
hits hash m d i zero j = 0
hits hash m d i (suc n) j =
    let rest = hits hash m d (suc i) n j in if hash d i % m == j then suc rest else rest

slot_fits :
    (m : ℕ) (w : Width) (c x : ℕ)
    → 0 < m
    → m * width_bits w ≤ 8 * c
    → (x % m + 1) * width_bits w ≤ 8 * c
slot_fits m four c x pos room = omega arith
slot_fits m eight c x pos room = omega arith
slot_fits m sixteen c x pos room = omega arith

counter-increment :
    (w : Width) (idx j : ℕ) (cs : Bytes)
    → SlotFits w idx cs
    → counter w idx cs ≤ mask w
    → counter w j (increment w idx cs)
      ≡ (if idx == j then min (mask w) (counter w j cs + 1) else counter w j cs)
unfolding increment
counter-increment w idx j cs fit le = elim (Bool-cases (idx == j)) [
  | inl same ↦
      rw (same, sym ((==_iff idx j).0 same))
        (elim (Bool-cases (ltb (counter w idx cs) (mask w))) [
          | inl below ↦ rw below (
              counter-set_counter w idx (counter w idx cs + 1) cs fit (ground arith) ∙ ground arith)
          | inr full ↦ rw full (ground arith)
        ])
  | inr other_slot ↦ rw other_slot (elim (Bool-cases (ltb (counter w idx cs) (mask w))) [
    | inl below ↦ rw below (
        counter-set_counter_other w idx j (counter w idx cs + 1) cs fit (ground arith)
          (λ e. ground arith))
    | inr full ↦ rw full refl
  ])
]

counter-decrement :
    (w : Width) (idx j : ℕ) (cs : Bytes)
    → SlotFits w idx cs
    → counter w idx cs ≤ mask w
    → counter w j (decrement w idx cs) ≡ (if idx == j then counter w j cs - 1 else counter w j cs)
unfolding decrement
counter-decrement w idx j cs fit le = elim (Bool-cases (idx == j)) [
  | inl same ↦
      rw (same, sym ((==_iff idx j).0 same))
        (elim (Bool-cases (ltb 0 (counter w idx cs))) [
          | inl some_count ↦
              rw some_count (counter-set_counter w idx (counter w idx cs - 1) cs fit (omega arith))
          | inr none_left ↦ rw none_left (ground arith)
        ])
  | inr other_slot ↦ rw other_slot (elim (Bool-cases (ltb 0 (counter w idx cs))) [
    | inl some_count ↦ rw some_count (
        counter-set_counter_other w idx j (counter w idx cs - 1) cs fit (omega arith)
          (λ e. ground arith))
    | inr none_left ↦ rw none_left refl
  ])
]

length-increment : (w : Width) (idx : ℕ) (cs : Bytes) → length (increment w idx cs) ≡ length cs
unfolding increment
length-increment w idx cs = elim (Bool-cases (ltb (counter w idx cs) (mask w))) [
  | inl below ↦ rw below (length-set_counter w idx (counter w idx cs + 1) cs)
  | inr full ↦ rw full refl
]

length-decrement : (w : Width) (idx : ℕ) (cs : Bytes) → length (decrement w idx cs) ≡ length cs
unfolding decrement
length-decrement w idx cs = elim (Bool-cases (ltb 0 (counter w idx cs))) [
  | inl some_count ↦ rw some_count (length-set_counter w idx (counter w idx cs - 1) cs)
  | inr none_left ↦ rw none_left refl
]

pub hits-le : (hash : IndexHash) (m : ℕ) (d : Bytes) (i n j : ℕ) → hits hash m d i n j ≤ n
unfolding hits
hits-le hash m d i zero j = omega arith
hits-le hash m d i (suc n) j = ground (arith, hits-le hash m d (suc i) n j)

-- The slots lie in the bytes, and no counter is above the mask.
pub record IsPacked (m : ℕ) (w : Width) (cs : Bytes) : Type 0 where
  pub positive : 0 < m
  pub room : m * width_bits w ≤ 8 * length cs
  pub bounded : (j : ℕ) → counter w j cs ≤ mask w

module _ (m : ℕ) (w : Width) (x : ℕ) (cs : Bytes) (p : IsPacked m w cs) where
  slot : SlotFits w (x % m) cs
  slot = slot_fits m w (length cs) x p.positive p.room

  increment-IsPacked : IsPacked m w (increment w (x % m) cs)
  increment-IsPacked = record {
    positive = p.positive;
    room = rw (length-increment w (x % m) cs) p.room;
    bounded = λ j.
        rw (counter-increment w (x % m) j cs slot (p.bounded (x % m)))
          (ground (arith, p.bounded j));
  }

  decrement-IsPacked : IsPacked m w (decrement w (x % m) cs)
  decrement-IsPacked = record {
    positive = p.positive;
    room = rw (length-decrement w (x % m) cs) p.room;
    bounded = λ j.
        rw (counter-decrement w (x % m) j cs slot (p.bounded (x % m)))
          (ground (arith, p.bounded j));
  }

module _ (hash : IndexHash) (m : ℕ) (w : Width) (d : Bytes) where
  pub add_probes-counter :
      (i n : ℕ) (cs : Bytes)
      → IsPacked m w cs
      → IsPacked m w (add_probes hash m w d i n cs)
        × ((j : ℕ)
            → counter w j (add_probes hash m w d i n cs)
              ≡ min (mask w) (counter w j cs + hits hash m d i n j))
  unfolding add_probes hits
  add_probes-counter i zero cs p = (p, λ j. omega (arith, p.bounded j))
  add_probes-counter i (suc n) cs p =
      let idx = hash d i % m in
      let (packed, counts) =
        add_probes-counter (suc i) n (increment w idx cs)
          (increment-IsPacked m w (hash d i) cs p) in
      (
        packed,
        λ j. ground (
          arith,
          counts j,
          counter-increment w idx j cs (slot m w (hash d i) cs p) (p.bounded idx),
        ),
      )

  pub remove_probes-counter :
      (i n : ℕ) (cs : Bytes)
      → IsPacked m w cs
      → IsPacked m w (remove_probes hash m w d i n cs)
        × ((j : ℕ)
            → counter w j (remove_probes hash m w d i n cs) ≡ counter w j cs - hits hash m d i n j)
  unfolding remove_probes hits
  remove_probes-counter i zero cs p = (p, λ j. omega arith)
  remove_probes-counter i (suc n) cs p =
      let idx = hash d i % m in
      let (packed, counts) =
        remove_probes-counter (suc i) n (decrement w idx cs)
          (decrement-IsPacked m w (hash d i) cs p) in
      (
        packed,
        λ j. ground (
          arith,
          counts j,
          counter-decrement w idx j cs (slot m w (hash d i) cs p) (p.bounded idx),
        ),
      )

pub counter-zeros : (w : Width) (j n : ℕ) → counter w j (zeros n) ≡ 0
unfolding counter
counter-zeros four j n = rw (item-zeros (j / 2) n) (ground arith)
counter-zeros eight j n = item-zeros j n
counter-zeros sixteen j n = rw (item-zeros (j * 2) n, item-zeros (j * 2 + 1) n) refl

-- The counters that `NewFilter` makes.
pub zeros-IsPacked :
    (m : ℕ) (w : Width) → 0 < m → IsPacked m w (zeros (packed_counter_bytes m (width_bits w)))
unfolding packed_counter_bytes
zeros-IsPacked m w pos = record {
  positive = pos;
  room = rw (length-zeros (packed_counter_bytes m (width_bits w))) (omega arith);
  bounded = λ j. rw (counter-zeros w j (packed_counter_bytes m (width_bits w))) (omega arith);
}
