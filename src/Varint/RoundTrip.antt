-- ===== src/Varint/RoundTrip.antt =====
-- Reading a varint gives the number that was written, and leaves what stands behind it; the two
-- readers accept the same inputs.
use go_cask.Common.{
  ℕ, zero, suc, ◌+◌, ◌*◌, ◌/◌, ◌%◌, ◌^◌, ◌<◌, ◌≡◌, refl, ap, ◌∙◌, inl, inr, some, [], ◌∷◌, ◌++◌,
  arith, ltb, Bool-cases, Bytes,
}
use go_cask.Errors.{Error, ok}
use go_cask.Varint.{put_uvarint_upto, put_uvarint, uvarint_from, uvarint, read_uvarint_from}

-- 128 to a power, by clauses so that it computes at the source's widths.
abbrev pow128 : ℕ → ℕ
pow128 zero = 1
pow128 (suc n) = 128 * pow128 n

digit_scale :
    (x y scale : ℕ) → x + (y % 128 + 128) % 128 * scale + y / 128 * (scale * 128) ≡ x + y * scale
digit_scale x y scale =
    let low : (y % 128 + 128) % 128 ≡ y % 128 = omega arith in
    let all : y ≡ y / 128 * 128 + y % 128 = omega arith in
    rw low (omega (arith, ap (λ (t : ℕ). t * scale) all))

uvarint_from-put :
    (n i x scale y : ℕ) (rest : Bytes)
    → i + n ≡ 9
    → y < 2 * pow128 n
    → uvarint_from i x scale (put_uvarint_upto n y ++ rest) ≡ some (x + y * scale, rest)
unfolding uvarint_from put_uvarint_upto
uvarint_from-put zero i x scale y rest e h = ground arith
uvarint_from-put (suc n) i x scale y rest e h = elim (Bool-cases (ltb y 128)) [
  | inl small ↦ rw small (ground arith)
  | inr large ↦ rw large (
      ground (
        arith,
        digit_scale x y scale,
        uvarint_from-put n (i + 1) (x + (y % 128 + 128) % 128 * scale) (scale * 128) (y / 128) rest,
      ))
]

-- `Uvarint` reads back what `PutUvarint` wrote, with anything behind it, for every uint64.
pub uvarint-put_uvarint :
    (y : ℕ) (rest : Bytes) → y < 2 ^ 64 → uvarint (put_uvarint y ++ rest) ≡ some (y, rest)
uvarint-put_uvarint y rest h =
    uvarint_from-put 9 0 0 1 y rest refl h ∙ ap (λ (t : ℕ). some (t, rest)) (omega arith)

-- What stands behind a varint does not change how it is read.
pub uvarint_from-append :
    (bs : Bytes) (i x scale : ℕ) (tail : Bytes) {v : ℕ} {rest : Bytes}
    → uvarint_from i x scale bs ≡ some (v, rest)
    → uvarint_from i x scale (bs ++ tail) ≡ some (v, rest ++ tail)
unfolding uvarint_from
uvarint_from-append [] i x scale tail h = cc
uvarint_from-append (b ∷ bs) i x scale tail {v} {rest} h = ground (
  arith,
  uvarint_from-append bs (i + 1) (x + b % 128 * scale) (scale * 128) tail {v = v} {rest = rest},
)

-- `ReadUvarint` on a stream gives what `Uvarint` gives on its bytes, and an error exactly where
-- that gives none.
pub read_uvarint_from-uvarint_from :
    (bs : Bytes) (i x scale : ℕ) (ending : Error)
    → ((p : ℕ × Bytes)
        → uvarint_from i x scale bs ≡ some p
        → read_uvarint_from i x scale bs ending ≡ ok p)
      × ((p : ℕ × Bytes)
          → read_uvarint_from i x scale bs ending ≡ ok p
          → uvarint_from i x scale bs ≡ some p)
unfolding uvarint_from read_uvarint_from
read_uvarint_from-uvarint_from [] i x scale ending = (λ p h. cc, λ p h. ground arith)
read_uvarint_from-uvarint_from (b ∷ bs) i x scale ending =
    let (to, from) =
      read_uvarint_from-uvarint_from bs (i + 1) (x + b % 128 * scale) (scale * 128) ending in
    (λ p h. ground (arith, to p), λ p h. ground (arith, from p))
