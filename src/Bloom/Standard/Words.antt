-- ===== src/Bloom/Standard/Words.antt =====
-- cas/bloom/standard/filter.go: setting a bit of the words, and the bits that are set.
use go_cask.Common.{
  ℕ, zero, suc, ◌*◌, ◌/◌, ◌%◌, ◌^◌, ◌≤◌, ◌<◌, ◌≡◌, refl, ap, ◌∙◌, true, false, List, [], ◌∷◌, arith,
  or_right, length, Bytes,
}
use go_cask.Bits.{bit_at, bit_at-bit_or, bit_at_own, bit_at_zero}
use go_cask.Bloom.Slices.{item, zeros, item-zeros}
use go_cask.Bloom.Standard.{or_at, set_bit, has_bit, add_probes, Filter}

-- The words have room for each of the `m` positions.
pub record IsSound (f : Filter) : Type 0 where
  pub positive : 0 < f.m
  pub room : f.m ≤ 64 * length f.bits

length-or_at : (i v : ℕ) (ws : List ℕ) → length (or_at i v ws) ≡ length ws
unfolding or_at
length-or_at i v [] = refl
length-or_at zero v (w ∷ ws) = refl
length-or_at (suc i) v (w ∷ ws) = ap suc (length-or_at i v ws)

pub length-set_bit : (idx : ℕ) (ws : List ℕ) → length (set_bit idx ws) ≡ length ws
unfolding set_bit
length-set_bit idx ws = length-or_at _ _ ws

pub length-add_probes :
    (hash : Bytes → ℕ → ℕ) (m : ℕ) (d : Bytes) (i n : ℕ) (ws : List ℕ)
    → length (add_probes hash m d i n ws) ≡ length ws
unfolding add_probes
length-add_probes hash m d i zero ws = refl
length-add_probes hash m d i (suc n) ws =
    length-add_probes hash m d (suc i) n (set_bit (hash d i % m) ws) ∙ length-set_bit _ ws

pub has_bit-zeros : (idx n : ℕ) → has_bit idx (zeros n) ≡ false
unfolding has_bit
has_bit-zeros idx n = rw (item-zeros (idx / 64) n) (bit_at_zero (idx % 64))

own_at :
    (i v b : ℕ) (ws : List ℕ)
    → i < length ws
    → bit_at v b ≡ true
    → bit_at (item i (or_at i v ws)) b ≡ true
unfolding item or_at
own_at i v b [] h q = absurd (omega arith)
own_at zero v b (w ∷ ws) h q = rw (bit_at-bit_or w v b, q) (or_right (bit_at w b) refl)
own_at (suc i) v b (w ∷ ws) h q = own_at i v b ws (omega arith) q

kept_at :
    (i v j b : ℕ) (ws : List ℕ)
    → bit_at (item j ws) b ≡ true
    → bit_at (item j (or_at i v ws)) b ≡ true
unfolding item or_at
kept_at i v j b [] q = q
kept_at zero v zero b (w ∷ ws) q = rw (bit_at-bit_or w v b, q) refl
kept_at zero v (suc j) b (w ∷ ws) q = q
kept_at (suc i) v zero b (w ∷ ws) q = q
kept_at (suc i) v (suc j) b (w ∷ ws) q = kept_at i v j b ws q

-- A bit that is set is set, and no other bit is lost.
pub has_bit-set_bit :
    (idx : ℕ) (ws : List ℕ) → idx < 64 * length ws → has_bit idx (set_bit idx ws) ≡ true
unfolding has_bit set_bit
has_bit-set_bit idx ws h =
    own_at (idx / 64) (2 ^ (idx % 64)) (idx % 64) ws (omega arith) (bit_at_own (idx % 64))

pub set_bit-keeps :
    (idx j : ℕ) (ws : List ℕ) → has_bit j ws ≡ true → has_bit j (set_bit idx ws) ≡ true
unfolding has_bit set_bit
set_bit-keeps idx j ws q = kept_at (idx / 64) (2 ^ (idx % 64)) (j / 64) (j % 64) ws q
