-- ===== src/Pack.antt =====
-- cas/pack/pack.go: payload chunking. A chunk size is an `int`, 0 here for every value that is not
-- positive. The number of chunks is computed as int64, with its wrap-around; a position in a buffer is
-- below 2 ^ 62, so that the position of the next chunk does not wrap around.
pub mod Chunks
use Prim.Native.Nat.{min}
use go_cask.Common.{
  ℕ, zero, suc, ◌+◌, ◌-◌, ◌/◌, ◌%◌, ◌^◌, not, Option, none, some, List, [], ◌∷◌, ◌++◌, ltb,
  if◌then◌else◌, is_empty, length, take, drop, Bytes,
}

-- A signed integer: `pos n` is n, `negsuc n` is -(n + 1).
pub data ℤ : Type 0 where
  pos negsuc : ℕ → ℤ

abbrev pub negate : ℕ → ℤ
negate zero = pos 0
negate (suc n) = negsuc n

-- The int64 quotient, rounded to zero, of the int64 with the bits of `w`.
abbrev pub quotient : ℕ → ℕ → ℤ
quotient w n = if ltb w (2 ^ 63) then pos (w / n) else negate ((2 ^ 64 - w) / n)

-- `(n + size - 1) / size`.
abbrev pub rounded_up : ℕ → ℕ → ℤ
rounded_up n size = quotient ((n + size - 1) % 2 ^ 64) size

-- `data[i:end]`.
abbrev pub slice : ℕ → ℕ → Bytes → Bytes
slice i end content = take (end - i) (drop i content)

-- The loop from the position `i`: `fuel` bounds the turns.
unfoldable pub split_from : ℕ → ℕ → ℕ → Bytes → List Bytes
split_from zero size i content = []
split_from (suc fuel) size i content =
    let rest = split_from fuel size (i + size) content in
    if ltb i (length content) then slice i (min (i + size) (length content)) content ∷ rest else []

-- `make` panics on a negative capacity.
abbrev pub make_chunks : ℤ → List Bytes → Option (List Bytes)
make_chunks (pos n) chunks = some chunks
make_chunks (negsuc n) chunks = none

-- The position grows with every turn, so there are no more turns than bytes.
unfoldable pub split : Bytes → ℕ → Option (List Bytes)
split content zero = some (content ∷ [])
split content (suc n) =
    if is_empty content
    then some []
    else make_chunks (rounded_up (length content) (suc n))
        (split_from (length content) (suc n) 0 content)

unfoldable pub join : List Bytes → Bytes
join [] = []
join (chunk ∷ chunks) = chunk ++ join chunks

unfoldable pub count : ℕ → ℕ → ℤ
count size zero = pos 1
count zero (suc n) = pos 0
count (suc size) (suc n) = rounded_up (suc size) (suc n)
