-- ===== src/Pack/Chunks.antt =====
-- cas/pack/pack.go: the chunks of a payload are the payload, and as many as `Count` says.
use Prim.Native.Nat.{min}
use native.Mathlib.Nat.{div-eq_of_lt, div-eq-sub-div}
use go_cask.Common.{
  ℕ, zero, suc, ◌+◌, ◌-◌, ◌*◌, ◌/◌, ◌%◌, ◌^◌, ◌≤◌, ◌<◌, ◌≡◌, refl, sym, ap, ◌∙◌, inl, inr, false,
  none, some, List, [], ◌∷◌, ◌++◌, append-nil, arith, ltb, leb, ltb→lt, lt→ltb, ltb→le, le→ltb,
  leb→le, Bool-cases, is_empty, length, drop, take-append-drop, length-drop, take_all, Bytes,
}
use go_cask.Pack.{negate, rounded_up, slice, split_from, split, join, count, pos, negsuc}

rest_div :
    (n size : ℕ) → 0 < n → 0 < size → (n + size - 1 - size) / size ≡ (n - size + size - 1) / size
rest_div n size p q = elim (Bool-cases (leb n size)) [
  | inl h ↦
      let fits = leb→le n size h in div-eq_of_lt (omega arith) ∙ sym (div-eq_of_lt (omega arith))
  | inr h ↦
      let same : n + size - 1 - size ≡ n - size + size - 1 = ground arith in ap (λ k. k / size) same
]

ceil_step :
    (n size : ℕ) → 0 < n → 0 < size → (n + size - 1) / size ≡ suc ((n - size + size - 1) / size)
ceil_step n size p q = div-eq-sub-div q (omega arith) ∙ rw (rest_div n size p q) (omega arith)

drop_all {ℓ} : {A : Type ℓ} (n : ℕ) (xs : List A) → length xs ≤ n → drop n xs ≡ []
drop_all zero [] h = refl
drop_all (suc n) [] h = refl
drop_all zero (x ∷ xs) h = absurd (omega arith)
drop_all (suc n) (x ∷ xs) h = drop_all n xs (omega arith)

drop-drop {ℓ} : {A : Type ℓ} (m n : ℕ) (xs : List A) → drop n (drop m xs) ≡ drop (m + n) xs
drop-drop zero n xs = let e : n ≡ zero + n = omega arith in ap (λ k. drop k xs) e
drop-drop (suc m) n [] = drop_all n [] (omega arith) ∙ sym (drop_all (suc m + n) [] (omega arith))
drop-drop (suc m) n (x ∷ xs) =
    let e : suc (m + n) ≡ suc m + n = omega arith in drop-drop m n xs ∙ ap (λ k. drop k (x ∷ xs)) e

-- One chunk and what the loop has left are the rest of the payload.
slice-rest :
    (i size : ℕ) (content : Bytes)
    → i < length content
    → slice i (min (i + size) (length content)) content ++ drop (i + size) content ≡ drop i content
slice-rest i size content h = elim (Bool-cases (leb (i + size) (length content))) [
  | inl q ↦
      let whole : min (i + size) (length content) - i ≡ size = ground arith in
      rw (whole, sym (drop-drop i size content)) (take-append-drop size (drop i content))
  | inr q ↦
      let rest : min (i + size) (length content) - i ≡ length content - i = ground arith in
      rw (rest, drop_all (i + size) content (ground arith))
        (append-nil _
          ∙ take_all (length content - i) (drop i content)
              (rw (length-drop i content) (omega arith)))
]

-- From the position `i` the loop gives the rest of the payload, in the number of chunks that is the
-- rest's length over the size, rounded up.
split_from-join :
    (fuel size i : ℕ) (content : Bytes)
    → 0 < size
    → length content ≤ fuel + i
    → (join (split_from fuel size i content) ≡ drop i content)
      × (length (split_from fuel size i content) ≡ (length content - i + size - 1) / size)
unfolding split_from join
split_from-join zero size i content p h =
    let nothing : length content - i ≡ 0 = omega arith in
    (sym (drop_all i content (omega arith)), rw nothing (sym (div-eq_of_lt (omega arith))))
split_from-join (suc fuel) size i content p h = elim (Bool-cases (ltb i (length content))) [
  | inl q ↦
      let inside = ltb→lt i (length content) q in
      let (joined, counted) = split_from-join fuel size (i + size) content p (omega arith) in
      let further : length content - (i + size) ≡ length content - i - size = omega arith in
      rw (q, split_from)
        (
          rw joined (slice-rest i size content inside),
          rw (counted, further) (sym (ceil_step (length content - i) size (omega arith) p)),
        )
  | inr q ↦
      let outside = ltb→le i (length content) q in
      let nothing : length content - i ≡ 0 = omega arith in
      rw (q, split_from)
        (sym (drop_all i content outside), rw nothing (sym (div-eq_of_lt (omega arith))))
]

rounded_up_small :
    (n size : ℕ) → n + size ≤ 2 ^ 63 → 0 < n → rounded_up n size ≡ pos ((n + size - 1) / size)
rounded_up_small n size h p =
    let same : (n + size - 1) % 2 ^ 64 ≡ n + size - 1 = omega arith in
    rw same (rw (lt→ltb (n + size - 1) (2 ^ 63) (omega arith)) refl)

negate_suc : (n : ℕ) → 0 < n → negate n ≡ negsuc (n - 1)
negate_suc zero h = absurd (omega arith)
negate_suc (suc n) h = let same : n ≡ suc n - 1 = omega arith in ap negsuc same

rounded_up_wrapped :
    (n size : ℕ)
    → 0 < size
    → 2 ^ 63 < n + size
    → n + 2 * size ≤ 2 ^ 64 + 1
    → rounded_up n size ≡ negsuc ((2 ^ 64 - (n + size - 1)) / size - 1)
rounded_up_wrapped n size q h k =
    let same : (n + size - 1) % 2 ^ 64 ≡ n + size - 1 = omega arith in
    let once = div-eq-sub-div {m = size} {n = 2 ^ 64 - (n + size - 1)} q (omega arith) in
    rw same
      (rw (le→ltb (n + size - 1) (2 ^ 63) (omega arith)) (negate_suc _ (rw once (omega arith))))

-- `Split` gives chunks that `Join` makes the payload again, as many as `Count` says for its length,
-- if the length and the chunk size together are at most 2 ^ 63.
pub join-split :
    (content : Bytes) (size : ℕ)
    → length content + size ≤ 2 ^ 63
    → (chunks : List Bytes) × (split content size ≡ some chunks)
      × (join chunks ≡ content)
      × (count (length content) size ≡ pos (length chunks))
unfolding split join count
join-split content zero h = (content ∷ [], refl, append-nil content, refl)
join-split [] (suc n) h = ([], refl, refl, refl)
join-split (x ∷ content) (suc n) h =
    let (joined, counted) =
      split_from-join (length (x ∷ content)) (suc n) 0 (x ∷ content) (omega arith) (omega arith) in
    let whole : length (x ∷ content) - 0 ≡ length (x ∷ content) = omega arith in
    let up = rounded_up_small (length (x ∷ content)) (suc n) h (omega arith) in
    (
      split_from (length (x ∷ content)) (suc n) 0 (x ∷ content),
      rw up refl,
      joined,
      rw (counted, whole) up,
    )

-- Where length and chunk size together exceed 2 ^ 63, and length and twice the chunk size are at most
-- 2 ^ 64 + 1, `Split` of a payload panics.
pub split_panics :
    (content : Bytes) (size : ℕ)
    → is_empty content ≡ false
    → 0 < size
    → 2 ^ 63 < length content + size
    → length content + 2 * size ≤ 2 ^ 64 + 1
    → split content size ≡ none
unfolding split
split_panics content zero e p h k = absurd (omega arith)
split_panics content (suc n) e p h k =
    rw (e, split) (rw (rounded_up_wrapped (length content) (suc n) p h k) refl)
