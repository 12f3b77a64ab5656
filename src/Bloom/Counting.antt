-- ===== src/Bloom/Counting.antt =====
-- cas/bloom/counting/filter.go: the counting Bloom filter, its counters packed to their width.
pub mod Slots
pub mod Balance
pub mod Holds
pub mod Accounts
use go_cask.Common.{
  ℕ, zero, suc, ◌+◌, ◌-◌, ◌*◌, ◌/◌, ◌%◌, Bool, true, false, Option, ltb, ◌==◌, if◌then◌else◌,
  length, Bytes,
}
use go_cask.Errors.{is, ◌>>=◌, fail_if, ◌>>◌, Error, Result, other, err, ok}
use go_cask.Digest.{Digest, is_zero, bytes}
use go_cask.Bloom.{IndexHash, resolve_index_hash}
use go_cask.Bloom.Slices.{item, set_item, zeros}

-- `CounterBits`: 4, 8 or 16.
pub data Width : Type 0 where
  four eight sixteen : Width

abbrev pub width_bits : Width → ℕ
width_bits four = 4
width_bits eight = 8
width_bits sixteen = 16

-- `Filter`: `counts` are bytes, and `bits` the width.
pub record Filter : Type 0 where
  pub counts : Bytes
  pub k : ℕ
  pub m : ℕ
  pub bits : Width
  pub hash : IndexHash

-- The field `mask`, which `NewFilter` sets from the width.
abbrev pub mask : Width → ℕ
mask four = 15
mask eight = 255
mask sixteen = 65535

unfoldable pub packed_counter_bytes : ℕ → ℕ → ℕ
packed_counter_bytes m counter_bits = (m * counter_bits + 7) / 8

-- The check of `Config.CounterBits`.
unfoldable pub counter_width : ℕ → Result Width
counter_width n =
    if n == 4
    then ok four
    else if n == 8
    then ok eight
    else if n == 16
    then ok sixteen
    else err (other 31)

-- `ErrFilterTooLarge`, and `MaxCounterBytes`.
abbrev pub filter_too_large : Error
filter_too_large = other 32

abbrev pub max_counter_bytes : ℕ
max_counter_bytes = 2147483648

unfoldable pub new_filter :
    IndexHash → ℕ → Result (Unit {0}) → ℕ → Result (ℕ × ℕ) → Option IndexHash → Result Filter
new_filter default_hash expected rate counter_bits shape h = do
  fail_if (expected == 0) (other 30)
  rate
  w ← counter_width counter_bits
  (m, k) ← shape
  let size = packed_counter_bytes m (width_bits w)
  fail_if (ltb max_counter_bytes size) filter_too_large
  ok (record {
    counts = zeros size;
    k = k;
    m = m;
    bits = w;
    hash = resolve_index_hash default_hash h;
  })

-- `b & 0x0f` is `b % 16` of a byte, and `b >> 4` is `b / 16`.
unfoldable pub counter : Width → ℕ → Bytes → ℕ
counter four idx cs = let b = item (idx / 2) cs in if idx % 2 == 0 then b % 16 else b / 16
counter eight idx cs = item idx cs
counter sixteen idx cs = let pos = idx * 2 in item pos cs + item (pos + 1) cs * 256

-- `b & 0xf0 | uint8(v)` and `b & 0x0f | uint8(v) << 4` put `v` into one half of a byte.
unfoldable pub set_counter : Width → ℕ → ℕ → Bytes → Bytes
set_counter four idx v cs =
    let pos = idx / 2 in
    let b = item pos cs in
    if idx % 2 == 0
    then set_item pos (b / 16 * 16 + v % 256) cs
    else set_item pos (b % 16 + v * 16 % 256) cs
set_counter eight idx v cs = set_item idx (v % 256) cs
set_counter sixteen idx v cs =
    let pos = idx * 2 in set_item (pos + 1) (v / 256 % 256) (set_item pos (v % 256) cs)

-- The bodies of the loops of `Add` and `Remove`.
unfoldable pub increment : Width → ℕ → Bytes → Bytes
increment w idx cs =
    let v = counter w idx cs in if ltb v (mask w) then set_counter w idx (v + 1) cs else cs

unfoldable pub decrement : Width → ℕ → Bytes → Bytes
decrement w idx cs =
    let v = counter w idx cs in if ltb 0 v then set_counter w idx (v - 1) cs else cs

-- The loops: `n` probes from probe `i` on.
module _ (hash : IndexHash) (m : ℕ) (w : Width) (content : Bytes) where
  unfoldable pub add_probes : ℕ → ℕ → Bytes → Bytes
  add_probes i zero cs = cs
  add_probes i (suc n) cs = add_probes (suc i) n (increment w (hash content i % m) cs)

  unfoldable pub remove_probes : ℕ → ℕ → Bytes → Bytes
  remove_probes i zero cs = cs
  remove_probes i (suc n) cs = remove_probes (suc i) n (decrement w (hash content i % m) cs)

  unfoldable pub has_probes : ℕ → ℕ → Bytes → Bool
  has_probes i zero cs = true
  has_probes i (suc n) cs =
      let rest = has_probes (suc i) n cs in
      if counter w (hash content i % m) cs == 0 then false else rest

unfoldable pub add : Digest → Filter → Filter
add d f = record f {
  counts = if is_zero d then f.counts else add_probes f.hash f.m f.bits d 0 f.k f.counts;
}

unfoldable pub remove : Digest → Filter → Filter
remove d f = record f {
  counts = if is_zero d then f.counts else remove_probes f.hash f.m f.bits d 0 f.k f.counts;
}

unfoldable pub holds : Digest → Filter → Bool
holds d f = if is_zero d then false else has_probes f.hash f.m f.bits d 0 f.k f.counts

unfoldable pub reset : Filter → Filter
reset f = record f { counts = zeros (length f.counts) }
