-- ===== src/Bloom/Counting/Holds.antt =====
-- cas/bloom/counting/filter.go: what is held after digests were added and some removed again.
use Prim.Native.Nat.{min}
use go_cask.Common.{
  ℕ, zero, suc, ◌+◌, ◌-◌, ◌*◌, ◌%◌, ◌≤◌, ◌<◌, ◌≡◌, refl, ap, ◌∙◌, inl, inr, true, false, List, [],
  ◌∷◌, ◌++◌, arith, if◌then◌else◌, Bool-cases, length, Bytes, bytes_eq, bytes_eq_iff,
}
use go_cask.Common.Assoc.{elem}
use go_cask.Digest.{Digest, is_zero}
use go_cask.Bloom.{IndexHash}
use go_cask.Bloom.Counting.{
  mask, counter, has_probes, add, remove, holds, Width, Filter, four, eight, sixteen,
}
use go_cask.Bloom.Counting.Balance.{
  hits, hits-le, add_probes-counter, remove_probes-counter, IsPacked,
}

abbrev pub IsSound : Filter → Type 0
IsSound f = IsPacked f.m f.bits f.counts

-- The counter of a slot.
abbrev pub count : Filter → ℕ → ℕ
count f j = counter f.bits j f.counts

-- How often the probes of a digest hit a slot; the absent digest has no probes.
unfoldable pub hits_of : IndexHash → ℕ → ℕ → Digest → ℕ → ℕ
hits_of hash m k d j = if is_zero d then 0 else hits hash m d 0 k j

unfoldable pub hits_of_all : IndexHash → ℕ → ℕ → List Digest → ℕ → ℕ
hits_of_all hash m k [] j = 0
hits_of_all hash m k (d ∷ ds) j = hits_of hash m k d j + hits_of_all hash m k ds j

-- `Add`, or `Remove`, of each digest of a list.
abbrev pub add_all : List Digest → Filter → Filter
add_all [] f = f
add_all (d ∷ ds) f = add_all ds (add d f)

abbrev pub remove_all : List Digest → Filter → Filter
remove_all [] f = f
remove_all (d ∷ ds) f = remove_all ds (remove d f)

-- How the counters of a filter change.
abbrev pub Counts : Filter → (ℕ → ℕ) → Type 0
Counts g expected = IsSound g × ((j : ℕ) → count g j ≡ expected j)

pub add-Counts :
    (d : Digest) (f : Filter)
    → IsSound f
    → Counts (add d f) (λ j. min (mask f.bits) (count f j + hits_of f.hash f.m f.k d j))
unfolding add hits_of
add-Counts d f s = elim (Bool-cases (is_zero d)) [
  | inl z ↦ rw z (s, λ j. omega (arith, IsPacked.bounded s j))
  | inr p ↦ rw p (add_probes-counter f.hash f.m f.bits d 0 f.k f.counts s)
]

pub remove-Counts :
    (d : Digest) (f : Filter)
    → IsSound f
    → Counts (remove d f) (λ j. count f j - hits_of f.hash f.m f.k d j)
unfolding remove hits_of
remove-Counts d f s = elim (Bool-cases (is_zero d)) [
  | inl z ↦ rw z (s, λ j. omega arith)
  | inr p ↦ rw p (remove_probes-counter f.hash f.m f.bits d 0 f.k f.counts s)
]

add_all-Counts :
    (ds : List Digest) (f : Filter)
    → IsSound f
    → Counts (add_all ds f) (λ j. min (mask f.bits) (count f j + hits_of_all f.hash f.m f.k ds j))
unfolding hits_of_all add counter
add_all-Counts [] f s = (s, λ j. omega (arith, IsPacked.bounded s j))
add_all-Counts (d ∷ ds) f s =
    let (one, first) = add-Counts d f s in
    let (sound, rest) = add_all-Counts ds (add d f) one in
    (sound, λ j. rest j ∙ omega (arith, first j))

remove_all-Counts :
    (ds : List Digest) (f : Filter)
    → IsSound f
    → Counts (remove_all ds f) (λ j. count f j - hits_of_all f.hash f.m f.k ds j)
unfolding hits_of_all counter remove hits_of
remove_all-Counts [] f s = (s, λ j. omega arith)
remove_all-Counts (d ∷ ds) f s =
    let (one, first) = remove-Counts d f s in
    let (sound, rest) = remove_all-Counts ds (remove d f) one in
    (sound, λ j. rest j ∙ omega (arith, first j))

-- Only the counters of a filter change.
abbrev with_counts : Filter → Bytes → Filter
with_counts f cs = record f { counts = cs }

add_all-fields :
    (ds : List Digest) (f : Filter) → add_all ds f ≡ with_counts f (Filter.counts (add_all ds f))
unfolding add
add_all-fields [] f = refl
add_all-fields (d ∷ ds) f = add_all-fields ds (add d f)

remove_all-fields :
    (ds : List Digest) (f : Filter)
    → remove_all ds f ≡ with_counts f (Filter.counts (remove_all ds f))
unfolding remove
remove_all-fields [] f = refl
remove_all-fields (d ∷ ds) f = remove_all-fields ds (remove d f)

hits_of_all-append :
    (hash : IndexHash) (m k : ℕ) (ds es : List Digest) (j : ℕ)
    → hits_of_all hash m k (ds ++ es) j ≡ hits_of_all hash m k ds j + hits_of_all hash m k es j
unfolding hits_of_all
hits_of_all-append hash m k [] es j = omega arith
hits_of_all-append hash m k (d ∷ ds) es j = omega (arith, hits_of_all-append hash m k ds es j)

pub hits_of_all-elem :
    (hash : IndexHash) (m k : ℕ) (ds : List Digest) (d : Digest) (j : ℕ)
    → elem d ds ≡ true
    → hits_of hash m k d j ≤ hits_of_all hash m k ds j
unfolding hits_of_all elem
hits_of_all-elem hash m k [] d j h = cc
hits_of_all-elem hash m k (e ∷ ds) d j h = elim (Bool-cases (bytes_eq e d)) [
  | inl same ↦ rw ((bytes_eq_iff e d).0 same) (omega arith)
  | inr different ↦ omega (arith, hits_of_all-elem hash m k ds d j (rw different at h))
]

-- Fewer than `mask / k` digests saturate no counter of a new filter.
pub hits_of_all-le :
    (hash : IndexHash) (m k : ℕ) (ds : List Digest) (j : ℕ)
    → hits_of_all hash m k ds j ≤ length ds * k
unfolding hits_of_all hits_of
hits_of_all-le hash m k [] j = omega arith
hits_of_all-le hash m k (d ∷ ds) j =
    ground (arith, hits-le hash m d 0 k j, hits_of_all-le hash m k ds j)

-- A digest is held when each slot that its probes hit has a counter.
has_probes-hits :
    (hash : IndexHash) (m : ℕ) (w : Width) (d : Bytes) (i n : ℕ) (cs : Bytes)
    → ((j : ℕ) → min 1 (hits hash m d i n j) ≤ counter w j cs)
    → has_probes hash m w d i n cs ≡ true
unfolding has_probes hits
has_probes-hits hash m w d i zero cs h = refl
has_probes-hits hash m w d i (suc n) cs h =
    let rest = has_probes-hits hash m w d (suc i) n cs (λ j. ground (arith, h j)) in
    let own = h (hash d i % m) in ground (arith, rest, own)

pub holds-hits :
    (d : Digest) (f : Filter)
    → is_zero d ≡ false
    → ((j : ℕ) → min 1 (hits_of f.hash f.m f.k d j) ≤ count f j)
    → holds d f ≡ true
unfolding holds hits_of
holds-hits d f present h =
    rw present (has_probes-hits f.hash f.m f.bits d 0 f.k f.counts (rw present at h))

mask_positive : (w : Width) → 0 < mask w
mask_positive four = omega arith
mask_positive eight = omega arith
mask_positive sixteen = omega arith

-- `Add` into a sound filter gives a sound one that holds the digest, and whatever was held.
pub add-IsSound : (d : Digest) (f : Filter) → IsSound f → IsSound (add d f)
add-IsSound d f s = (add-Counts d f s).0

pub holds-add : (d : Digest) (f : Filter) → IsSound f → is_zero d ≡ false → holds d (add d f) ≡ true
unfolding add counter
holds-add d f s present =
    let (sound, counts) = add-Counts d f s in
    holds-hits d (add d f) present (λ j. omega (arith, counts j, mask_positive f.bits))

has_probes-grows :
    (hash : IndexHash) (m : ℕ) (w : Width) (d : Bytes) (i n : ℕ) (cs bs : Bytes)
    → ((j : ℕ) → min 1 (counter w j cs) ≤ counter w j bs)
    → has_probes hash m w d i n cs ≡ true
    → has_probes hash m w d i n bs ≡ true
unfolding has_probes
has_probes-grows hash m w d i zero cs bs h q = refl
has_probes-grows hash m w d i (suc n) cs bs h q =
    let own = h (hash d i % m) in
    let rest = has_probes-grows hash m w d (suc i) n cs bs h in ground (arith, own, rest)

pub add-keeps :
    (d e : Digest) (f : Filter) → IsSound f → holds e f ≡ true → holds e (add d f) ≡ true
unfolding holds add
add-keeps d e f s q = elim (Bool-cases (is_zero e)) [
  | inl zero_digest ↦ absurd (apart (rw zero_digest at q))
  | inr present ↦ rw present (
      has_probes-grows f.hash f.m f.bits e 0 f.k f.counts (Filter.counts (add d f)) (λ j. grown j)
        (rw present at q))
]
  where
    apart : false ≡ true → ⊥
    apart h = cc

    grown : (j : ℕ) → min 1 (counter f.bits j f.counts) ≤ counter f.bits j (Filter.counts (add d f))
    grown j =
        let (sound, counts) = add-Counts d f s in omega (arith, counts j, mask_positive f.bits)

-- Each digest of two lists added, and each of the first removed again.
abbrev pub left_over : List Digest → List Digest → Filter → Filter
left_over gone kept f = remove_all gone (add_all (gone ++ kept) f)

module _ (gone kept : List Digest) (f : Filter) (s : IsSound f)
    (below : (j : ℕ) → count f j + hits_of_all f.hash f.m f.k (gone ++ kept) j ≤ mask f.bits) where
  left_over-fields : (left_over gone kept f) ≡ with_counts f (Filter.counts (left_over gone kept f))
  left_over-fields =
      remove_all-fields gone (add_all (gone ++ kept) f)
      ∙ ap (λ (h : Filter). with_counts h (Filter.counts (left_over gone kept f)))
          (add_all-fields (gone ++ kept) f)

  left_over-count :
      (j : ℕ) → count (left_over gone kept f) j ≡ count f j + hits_of_all f.hash f.m f.k kept j
  left_over-count j =
      let g = add_all (gone ++ kept) f in
      let (sound, added) = add_all-Counts (gone ++ kept) f s in
      let (still, removed) = remove_all-Counts gone g sound in
      let same_hits =
        ap (λ (h : Filter). hits_of_all (Filter.hash h) (Filter.m h) (Filter.k h) gone j)
          (add_all-fields (gone ++ kept) f) in
      omega (
        arith,
        added j,
        removed j,
        same_hits,
        hits_of_all-append f.hash f.m f.k gone kept j,
        below j,
      )

  -- In a sound filter, when no counter saturates: after each digest of two lists was added and each of
  -- the first list removed again, every slot counts what it counted before and the hits of the second
  -- list, and a present digest of the second list is held.
  pub remove_all-balanced :
      (d : Digest)
      → elem d kept ≡ true
      → is_zero d ≡ false
      → ((j : ℕ) → count (left_over gone kept f) j ≡ count f j + hits_of_all f.hash f.m f.k kept j)
        × (holds d (left_over gone kept f) ≡ true)
  remove_all-balanced d h present =
      (left_over-count, holds-hits d (left_over gone kept f) present (enough d h))
    where
      enough :
          (d : Digest)
          → elem d kept ≡ true
          → (j : ℕ)
          → min 1 (
              hits_of
                (Filter.hash (left_over gone kept f))
                (Filter.m (left_over gone kept f))
                (Filter.k (left_over gone kept f))
                d
                j)
            ≤ count (left_over gone kept f) j
      enough d h j =
          let same_hits =
            ap (λ (g : Filter). hits_of (Filter.hash g) (Filter.m g) (Filter.k g) d j)
              left_over-fields in
          omega (arith, left_over-count j, same_hits, hits_of_all-elem f.hash f.m f.k kept d j h)
