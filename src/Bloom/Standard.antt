-- ===== src/Bloom/Standard.antt =====
-- cas/bloom/standard/filter.go: the bit-vector Bloom filter.
pub mod Words
pub mod Holds
use Prim.Native.Nat.{bit_or}
use go_cask.Common.{
  ℕ, zero, suc, ◌+◌, ◌/◌, ◌%◌, ◌^◌, Bool, true, false, not, Option, List, [], ◌∷◌, if◌then◌else◌,
  length, Bytes,
}
use go_cask.Errors.{◌>>=◌, ◌>>◌, Result, ok}
use go_cask.Digest.{Digest, is_zero}
use go_cask.Bits.{bit_at}
use go_cask.Bloom.{IndexHash, resolve_index_hash, sized}
use go_cask.Bloom.Slices.{item, zeros}

-- `Filter`: `bits` are 64-bit words.
pub record Filter : Type 0 where
  pub bits : List ℕ
  pub k : ℕ
  pub m : ℕ
  pub hash : IndexHash

-- `bits[i] |= v`.
unfoldable pub or_at : ℕ → ℕ → List ℕ → List ℕ
or_at i v [] = []
or_at zero v (w ∷ ws) = bit_or w v ∷ ws
or_at (suc i) v (w ∷ ws) = w ∷ or_at i v ws

-- `bits[idx>>6] |= uint64(1) << (idx & 63)`.
unfoldable pub set_bit : ℕ → List ℕ → List ℕ
set_bit idx ws = or_at (idx / 64) (2 ^ (idx % 64)) ws

-- `bits[idx>>6] & (uint64(1) << (idx&63)) != 0`.
unfoldable pub has_bit : ℕ → List ℕ → Bool
has_bit idx ws = bit_at (item (idx / 64) ws) (idx % 64)

unfoldable pub new_filter :
    IndexHash → ℕ → Result (Unit {0}) → Result (ℕ × ℕ) → Option IndexHash → Result Filter
new_filter default_hash expected rate shape h = do
  (m, k) ← sized expected rate shape
  ok (record {
    bits = zeros ((m + 63) / 64);
    k = k;
    m = m;
    hash = resolve_index_hash default_hash h;
  })

-- The loops of `Add` and `Contains`: `n` probes from probe `i` on.
module _ (hash : IndexHash) (m : ℕ) (content : Bytes) where
  unfoldable pub add_probes : ℕ → ℕ → List ℕ → List ℕ
  add_probes i zero ws = ws
  add_probes i (suc n) ws = add_probes (suc i) n (set_bit (hash content i % m) ws)

  unfoldable pub has_probes : ℕ → ℕ → List ℕ → Bool
  has_probes i zero ws = true
  has_probes i (suc n) ws =
      let rest = has_probes (suc i) n ws in
      if not (has_bit (hash content i % m) ws) then false else rest

unfoldable pub add : Digest → Filter → Filter
add d f = if is_zero d then f else record f { bits = add_probes f.hash f.m d 0 f.k f.bits }

unfoldable pub holds : Digest → Filter → Bool
holds d f = if is_zero d then false else has_probes f.hash f.m d 0 f.k f.bits

unfoldable pub reset : Filter → Filter
reset f = record f { bits = zeros (length f.bits) }
