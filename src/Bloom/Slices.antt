-- ===== src/Bloom/Slices.antt =====
-- Slices of numbers, read and written at an index: the words and counters of cas/bloom.
use go_cask.Common.{ℕ, zero, suc, ◌<◌, ◌≡◌, refl, ap, ◌≢◌, List, [], ◌∷◌, arith, length}

-- `xs[i]`. Each index of the filters is in range (`probe-in_range`, `room_for`), so what stands out of
-- range is never read.
unfoldable pub item : ℕ → List ℕ → ℕ
item i [] = 0
item zero (x ∷ xs) = x
item (suc i) (x ∷ xs) = item i xs

-- `xs[i] = v`.
unfoldable pub set_item : ℕ → ℕ → List ℕ → List ℕ
set_item i v [] = []
set_item zero v (x ∷ xs) = v ∷ xs
set_item (suc i) v (x ∷ xs) = x ∷ set_item i v xs

-- `make([]…, n)`.
unfoldable pub zeros : ℕ → List ℕ
zeros zero = []
zeros (suc n) = 0 ∷ zeros n

pub length-set_item : (i v : ℕ) (xs : List ℕ) → length (set_item i v xs) ≡ length xs
unfolding set_item
length-set_item i v [] = refl
length-set_item zero v (x ∷ xs) = refl
length-set_item (suc i) v (x ∷ xs) = ap suc (length-set_item i v xs)

pub item-set_item : (i v : ℕ) (xs : List ℕ) → i < length xs → item i (set_item i v xs) ≡ v
unfolding item set_item
item-set_item i v [] h = absurd (omega arith)
item-set_item zero v (x ∷ xs) h = refl
item-set_item (suc i) v (x ∷ xs) h = item-set_item i v xs (omega arith)

pub item-set_item_other : (i j v : ℕ) (xs : List ℕ) → i ≢ j → item j (set_item i v xs) ≡ item j xs
unfolding item set_item
item-set_item_other i j v [] h = refl
item-set_item_other zero zero v (x ∷ xs) h = absurd (h refl)
item-set_item_other zero (suc j) v (x ∷ xs) h = refl
item-set_item_other (suc i) zero v (x ∷ xs) h = refl
item-set_item_other (suc i) (suc j) v (x ∷ xs) h = item-set_item_other i j v xs (λ e. h (ap suc e))

pub length-zeros : (n : ℕ) → length (zeros n) ≡ n
unfolding zeros
length-zeros zero = refl
length-zeros (suc n) = ap suc (length-zeros n)

pub item-zeros : (i n : ℕ) → item i (zeros n) ≡ 0
unfolding item zeros
item-zeros i zero = refl
item-zeros zero (suc n) = refl
item-zeros (suc i) (suc n) = item-zeros i n
