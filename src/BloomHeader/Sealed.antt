-- ===== src/BloomHeader/Sealed.antt =====
-- A persistent filter trusts exactly the headers that it writes.
use mathlib.Core.Path.{subst}
use go_cask.Common.{
  ℕ, zero, suc, ◌+◌, ◌/◌, ◌≤◌, ◌<◌, ◌≡◌, refl, sym, ap, ◌∙◌, ◌↔◌, ◌⊎◌, Bool, true, false, not, ◌&&◌,
  ◌||◌, none, some, [], ◌∷◌, ◌++◌, append_assoc, arith, ltb, ◌==◌, if◌then◌else◌, length, take,
  drop, length-append, take-append-drop, length-take, length-drop, Bytes, bytes_eq, bytes_eq_iff,
}
use go_cask.BigEndian.{take_exact, drop_exact}
use go_cask.BloomHeader.{
  bloom_magic, put_le, byte_at, header_checksum, encode_header, decode_header,
}

length-put_le : (k n : ℕ) → length (put_le k n) ≡ k
unfolding put_le
length-put_le zero n = refl
length-put_le (suc k) n = ap suc (length-put_le k (n / 256))

drop_byte : (i : ℕ) (xs : Bytes) → i < length xs → drop i xs ≡ byte_at i xs ∷ drop (suc i) xs
unfolding byte_at
drop_byte i [] h = absurd (omega arith)
drop_byte zero (x ∷ xs) h = refl
drop_byte (suc i) (x ∷ xs) h = drop_byte i xs (omega arith)

drop_further : (m n k : ℕ) (xs : Bytes) → m + n ≡ k → m ≤ length xs → drop n (drop m xs) ≡ drop k xs
drop_further zero n k xs e h = ap (λ (i : ℕ). drop i xs) (omega arith)
drop_further (suc m) n k [] e h = absurd (omega arith)
drop_further (suc m) n zero (x ∷ xs) e h = absurd (omega arith)
drop_further (suc m) n (suc k) (x ∷ xs) e h = drop_further m n k xs (omega arith) (omega arith)

-- The only way past four refusals.
chosen :
    (a b c d : Bool) (x y : ℕ × Bytes)
    → (if a then none else if b then none else if c then none else if d then none else some x)
      ≡ some y
    → (a ≡ false) × (b ≡ false) × (c ≡ false) × (d ≡ false) × (x ≡ y)
chosen true b c d x y h = cc
chosen false true c d x y h = cc
chosen false false true d x y h = cc
chosen false false false true x y h = cc
chosen false false false false x y h = (refl, refl, refl, refl, got x y h)
  where
    got : (x y : ℕ × Bytes) → some x ≡ some y → x ≡ y
    got x y e = cc

module _ (crc : Bytes → ℕ) where
  length-header_checksum : (kind : ℕ) (key : Bytes) → length (header_checksum crc kind key) ≡ 6
  unfolding header_checksum
  length-header_checksum kind key =
      omega (arith, length-take 6 (put_le 8 (crc (kind ∷ key))), length-put_le 8 (crc (kind ∷ key)))

  -- A source of at least 48 bytes in its fields.
  fields :
      (src : Bytes)
      → 48 ≤ length src
      → src
        ≡ take 8 src
          ++ (byte_at 8 src
              ∷ byte_at 9 src
              ∷ (take 6 (drop 10 src) ++ (take 32 (drop 16 src) ++ drop 48 src)))
  fields src h =
      sym (take-append-drop 8 src)
      ∙ ap (λ (t : Bytes). take 8 src ++ t)
          (drop_byte 8 src (omega arith)
            ∙ ap (λ (t : Bytes). byte_at 8 src ∷ t)
                (drop_byte 9 src (omega arith)
                  ∙ ap (λ (t : Bytes). byte_at 9 src ∷ t)
                      (sym (take-append-drop 6 (drop 10 src))
                        ∙ ap (λ (t : Bytes). take 6 (drop 10 src) ++ t)
                            (drop_further 10 6 16 src refl (omega arith)
                              ∙ sym (take-append-drop 32 (drop 16 src))
                              ∙ ap (λ (t : Bytes). take 32 (drop 16 src) ++ t)
                                  (drop_further 16 32 48 src refl (omega arith))))))

  read_back :
      (kind : ℕ) (key rest : Bytes)
      → (kind ≡ 0) ⊎ (kind ≡ 1)
      → length key ≡ 32
      → decode_header crc (encode_header crc kind key ++ rest) ≡ some (kind, key)
  unfolding decode_header encode_header byte_at
  read_back kind key rest k l =
      let sum = header_checksum crc kind key in
      let six = length-header_checksum kind key in
      let long : ltb (length (encode_header crc kind key ++ rest)) 48 ≡ false =
        ground (arith, length-append (sum ++ key) rest, length-append sum key) in
      let known : (not (kind == 0) && not (kind == 1)) ≡ false = ground arith in
      let there : take 32 (drop 6 (sum ++ key ++ rest)) ≡ key =
        rw (append_assoc sum key rest)
          (rw (drop_exact 6 sum (key ++ rest) six) (take_exact 32 key rest l)) in
      let summed : take 6 (sum ++ key ++ rest) ≡ sum =
        rw (append_assoc sum key rest) (take_exact 6 sum (key ++ rest) six) in
      rw (long, there, summed) (rw (known, (bytes_eq_iff sum sum).1 refl) (unfold bytes_eq in refl))

  -- A source that is accepted is a header and what follows it.
  abbrev IsSealed : Bytes → ℕ × Bytes → Type 0
  IsSealed src fields =
      ((fields.0 ≡ 0) ⊎ (fields.0 ≡ 1))
      × (length fields.1 ≡ 32)
      × ((rest : Bytes) × (src ≡ encode_header crc fields.0 fields.1 ++ rest))

  sealed :
      (m sum key rest : Bytes) (kind s : ℕ)
      → m ≡ bloom_magic
      → s ≡ 1
      → header_checksum crc kind key ≡ sum
      → m ++ (kind ∷ s ∷ (sum ++ (key ++ rest))) ≡ encode_header crc kind key ++ rest
  unfolding encode_header
  sealed m sum key rest kind s em es ec =
      rw (em, es) (rw (← ec) (rw (append_assoc (header_checksum crc kind key) key rest) refl))

  accepted :
      (src : Bytes) (kind : ℕ) (key : Bytes)
      → decode_header crc src ≡ some (kind, key)
      → IsSealed src (kind, key)
  unfolding decode_header
  accepted src kind key h =
      let found : ℕ × Bytes = (byte_at 8 src, take 32 (drop 16 src)) in
      let (start, known, scheme, intact, same) =
        chosen (ltb (length src) 48 || not (bytes_eq (take 8 src) bloom_magic))
          (not (byte_at 8 src == 0) && not (byte_at 8 src == 1)) (not (byte_at 9 src == 1))
          (not (
            bytes_eq (header_checksum crc (byte_at 8 src) (take 32 (drop 16 src)))
              (take 6 (drop 10 src))))
          found (kind, key) h in
      let long : 48 ≤ length src = ground arith in
      let begins : bytes_eq (take 8 src) bloom_magic ≡ true = ground arith in
      let agrees : bytes_eq (header_checksum crc (byte_at 8 src) (take 32 (drop 16 src)))
            (take 6 (drop 10 src))
          ≡ true =
        ground arith in
      subst (IsSealed src) same (
        (ground arith),
        omega (arith, length-take 32 (drop 16 src), length-drop 16 src),
        (
          drop 48 src,
          fields src long
              ∙ sealed (take 8 src) (take 6 (drop 10 src)) (take 32 (drop 16 src)) (drop 48 src)
                  (byte_at 8 src) (byte_at 9 src) ((bytes_eq_iff (take 8 src) bloom_magic).0 begins)
                  (ground arith)
                  ((bytes_eq_iff (header_checksum crc (byte_at 8 src) (take 32 (drop 16 src)))
                      (take 6 (drop 10 src))).0
                    agrees),
        ),
      )

  -- Whatever the checksum function: decodeHeader accepts a source with a kind and a key exactly if the
  -- kind is one of the two, the key has 32 bytes, and the source begins with the header that
  -- encodeHeader writes for them.
  pub decode_header-encode_header_iff :
      (src : Bytes) (kind : ℕ) (key : Bytes)
      → (decode_header crc src ≡ some (kind, key)) ↔ (
          ((kind ≡ 0) ⊎ (kind ≡ 1))
          × (length key ≡ 32)
          × ((rest : Bytes) × (src ≡ encode_header crc kind key ++ rest)))
  decode_header-encode_header_iff src kind key = (
    accepted src kind key,
    λ (k, l, (rest, e)). ap (decode_header crc) e ∙ read_back kind key rest k l,
  )
