-- ===== src/Bloom/Counting/Slots.antt =====
-- cas/bloom/counting/filter.go: a packed counter is stored without disturbing the others.
use go_cask.Common.{
  ℕ, ◌+◌, ◌*◌, ◌/◌, ◌%◌, ◌≤◌, ◌≡◌, refl, sym, ap, ◌∙◌, ◌≢◌, inl, inr, true, false, arith, ◌==◌,
  ==_iff, Bool-cases, length, Bytes,
}
use go_cask.Bloom.Slices.{set_item, length-set_item, item-set_item, item-set_item_other}
use go_cask.Bloom.Counting.{width_bits, mask, counter, set_counter, Width, four, eight, sixteen}

-- A slot whose counter lies in the bytes.
abbrev pub SlotFits : Width → ℕ → Bytes → Type 0
SlotFits w idx cs = (idx + 1) * width_bits w ≤ 8 * length cs

pub length-set_counter :
    (w : Width) (idx v : ℕ) (cs : Bytes) → length (set_counter w idx v cs) ≡ length cs
unfolding set_counter
length-set_counter four idx v cs = elim (Bool-cases (idx % 2 == 0)) [
  | inl even ↦ rw even (length-set_item _ _ cs)
  | inr odd ↦ rw odd (length-set_item _ _ cs)
]
length-set_counter eight idx v cs = length-set_item idx _ cs
length-set_counter sixteen idx v cs = length-set_item _ _ _ ∙ length-set_item _ _ cs

half_own : (b v : ℕ) → v ≤ 15 → (b / 16 * 16 + v % 256) % 16 ≡ v
half_own b v h = omega arith

half_other : (b v : ℕ) → v ≤ 15 → (b / 16 * 16 + v % 256) / 16 ≡ b / 16
half_other b v h = omega arith

top_own : (b v : ℕ) → v ≤ 15 → (b % 16 + v * 16 % 256) / 16 ≡ v
top_own b v h = omega arith

top_other : (b v : ℕ) → v ≤ 15 → (b % 16 + v * 16 % 256) % 16 ≡ b % 16
top_other b v h = omega arith

pub counter-set_counter :
    (w : Width) (idx v : ℕ) (cs : Bytes)
    → SlotFits w idx cs
    → v ≤ mask w
    → counter w idx (set_counter w idx v cs) ≡ v
unfolding counter set_counter
counter-set_counter four idx v cs fit h = elim (Bool-cases (idx % 2 == 0)) [
  | inl even ↦ rw even (rw (item-set_item (idx / 2) _ cs (omega arith)) (half_own _ v h))
  | inr odd ↦ rw odd (rw (item-set_item (idx / 2) _ cs (omega arith)) (top_own _ v h))
]
counter-set_counter eight idx v cs fit h =
    item-set_item idx (v % 256) cs (omega arith) ∙ omega arith
counter-set_counter sixteen idx v cs fit h =
    let low = set_item (idx * 2) (v % 256) cs in
    let i = item-set_item_other (idx * 2 + 1) (idx * 2) (v / 256 % 256) low (λ e. omega arith) in
    let j = item-set_item (idx * 2) (v % 256) cs (omega arith) in
    let l =
      item-set_item (idx * 2 + 1) (v / 256 % 256) low
        (rw (length-set_item (idx * 2) (v % 256) cs) (omega arith)) in
    rw (i, j, l) (omega arith)

pub counter-set_counter_other :
    (w : Width) (idx j v : ℕ) (cs : Bytes)
    → SlotFits w idx cs
    → v ≤ mask w
    → idx ≢ j
    → counter w j (set_counter w idx v cs) ≡ counter w j cs
unfolding counter set_counter
counter-set_counter_other four idx j v cs fit h ne = elim (Bool-cases (idx / 2 == j / 2)) [
  | inl same ↦
      let e = (==_iff (idx / 2) (j / 2)).0 same in
      elim (Bool-cases (idx % 2 == 0)) [
        | inl even ↦
            rw (even, odd_after e even)
              (rw (sym e) (
                ap (λ (t : ℕ). t / 16) (item-set_item (idx / 2) _ cs (omega arith))
                ∙ half_other _ v h))
        | inr odd ↦
            rw (odd, even_after e odd)
              (rw (sym e) (
                ap (λ (t : ℕ). t % 16) (item-set_item (idx / 2) _ cs (omega arith))
                ∙ top_other _ v h))
      ]
  | inr apart ↦ elim (Bool-cases (idx % 2 == 0)) [
    | inl even ↦
        rw even (rw (item-set_item_other (idx / 2) (j / 2) _ cs (λ e. distinct apart e)) refl)
    | inr odd ↦
        rw odd (rw (item-set_item_other (idx / 2) (j / 2) _ cs (λ e. distinct apart e)) refl)
  ]
]
  where
    odd_after : idx / 2 ≡ j / 2 → (idx % 2 == 0) ≡ true → (j % 2 == 0) ≡ false
    odd_after e even = elim (Bool-cases (j % 2 == 0)) [
      | inl even' ↦ absurd (ne (ground arith))
      | inr odd ↦ odd
    ]

    even_after : idx / 2 ≡ j / 2 → (idx % 2 == 0) ≡ false → (j % 2 == 0) ≡ true
    even_after e odd = elim (Bool-cases (j % 2 == 0)) [
      | inl even ↦ even
      | inr odd' ↦ absurd (ne (ground arith))
    ]

    distinct : (idx / 2 == j / 2) ≡ false → idx / 2 ≡ j / 2 → ⊥
    distinct apart e = ground arith
counter-set_counter_other eight idx j v cs fit h ne = item-set_item_other idx j (v % 256) cs ne
counter-set_counter_other sixteen idx j v cs fit h ne =
    let low = set_item (idx * 2) (v % 256) cs in
    let a = item-set_item_other (idx * 2 + 1) (j * 2) (v / 256 % 256) low (λ e. ne (omega arith)) in
    let b = item-set_item_other (idx * 2) (j * 2) (v % 256) cs (λ e. ne (omega arith)) in
    let c =
      item-set_item_other (idx * 2 + 1) (j * 2 + 1) (v / 256 % 256) low (λ e. ne (omega arith)) in
    let d = item-set_item_other (idx * 2) (j * 2 + 1) (v % 256) cs (λ e. ne (omega arith)) in
    rw (a, b, c, d) refl
