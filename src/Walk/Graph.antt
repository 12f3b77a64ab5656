-- ===== src/Walk/Graph.antt =====
-- The graph that a walk sees: what can be reached from the roots, and how much is left to push.
use go_cask.Common.{
  ℕ, ◌+◌, ◌≤◌, ◌≡◌, ap, ◌⊎◌, inl, inr, true, false, not, List, [], ◌∷◌, arith, if◌then◌else◌,
  Bool-cases, length, bytes_eq, bytes_eq_iff, bytes_eq_refl,
}
use go_cask.Common.Assoc.{elem}
use go_cask.Digest.{Digest, is_zero}
use go_cask.Walk.{push_roots, push_refs}

pub elem-cons_self : (d : Digest) (ds : List Digest) → elem d (d ∷ ds) ≡ true
unfolding elem
elem-cons_self d ds = ground (arith, bytes_eq_refl d)

pub elem-cons_of : (j d : Digest) (ds : List Digest) → elem d ds ≡ true → elem d (j ∷ ds) ≡ true
unfolding elem
elem-cons_of j d ds h = ground arith

pub elem-cons-inv :
    (j d : Digest) (ds : List Digest) → elem d (j ∷ ds) ≡ true → (j ≡ d) ⊎ (elem d ds ≡ true)
unfolding elem
elem-cons-inv j d ds h = ground (arith, bytes_eq_iff j d)

-- What `push_refs` pushes lies among the references and is not absent; nothing leaves the stack.
pub push_refs-inv :
    (visited refs stack : List Digest) (r : Digest)
    → elem r (push_refs visited refs stack) ≡ true
    → (elem r stack ≡ true) ⊎ ((elem r refs ≡ true) × (is_zero r ≡ false))
unfolding push_refs elem
push_refs-inv visited [] stack r h = inl h
push_refs-inv visited (ref ∷ refs) stack r h =
    ground (arith, push_refs-inv visited refs stack r, bytes_eq_iff ref r)

pub push_refs-stack :
    (visited refs stack : List Digest) (r : Digest)
    → elem r stack ≡ true
    → elem r (push_refs visited refs stack) ≡ true
unfolding push_refs elem
push_refs-stack visited [] stack r h = h
push_refs-stack visited (ref ∷ refs) stack r h =
    ground (arith, push_refs-stack visited refs stack r)

-- A reference that is not absent is visited already, or is on the stack afterwards.
pub push_refs-covers :
    (visited refs stack : List Digest) (r : Digest)
    → elem r refs ≡ true
    → is_zero r ≡ false
    → (elem r visited ≡ true) ⊎ (elem r (push_refs visited refs stack) ≡ true)
unfolding push_refs elem
push_refs-covers visited [] stack r h nz = cc
push_refs-covers visited (ref ∷ refs) stack r h nz =
    ground (arith, push_refs-covers visited refs stack r, bytes_eq_iff ref r)

pub length-push_refs-le :
    (visited refs stack : List Digest)
    → length (push_refs visited refs stack) ≤ length refs + length stack
unfolding push_refs
length-push_refs-le visited [] stack = omega arith
length-push_refs-le visited (ref ∷ refs) stack =
    ground (arith, length-push_refs-le visited refs stack)

pub push_roots-inv :
    (roots stack : List Digest) (r : Digest)
    → elem r (push_roots roots stack) ≡ true
    → (elem r stack ≡ true) ⊎ ((elem r roots ≡ true) × (is_zero r ≡ false))
unfolding push_roots elem
push_roots-inv [] stack r h = inl h
push_roots-inv (root ∷ roots) stack r h = ground (
  arith,
  push_roots-inv roots (if not (is_zero root) then root ∷ stack else stack) r,
  bytes_eq_iff root r,
)

pub push_roots-covers :
    (roots stack : List Digest) (r : Digest)
    → (elem r stack ≡ true) ⊎ ((elem r roots ≡ true) × (is_zero r ≡ false))
    → elem r (push_roots roots stack) ≡ true
unfolding push_roots elem
push_roots-covers [] stack r h = ground arith
push_roots-covers (root ∷ roots) stack r h = ground (
  arith,
  push_roots-covers roots (if not (is_zero root) then root ∷ stack else stack) r,
  bytes_eq_iff root r,
)

pub length-push_roots-le :
    (roots stack : List Digest) → length (push_roots roots stack) ≤ length roots + length stack
unfolding push_roots
length-push_roots-le [] stack = omega arith
length-push_roots-le (root ∷ roots) stack =
    ground (arith, length-push_roots-le roots (if not (is_zero root) then root ∷ stack else stack))

module _ (refs : Digest → List Digest) where
  -- What can be reached from the roots along references that are not absent.
  pub data Reach (roots : List Digest) : Digest → Type 0 where
    root : {d : Digest} → elem d roots ≡ true → is_zero d ≡ false → Reach roots d
    step :
        {d r : Digest} → Reach roots d → elem r (refs d) ≡ true → is_zero r ≡ false → Reach roots r

  -- A finite set of digests that no reference leaves.
  pub record IsClosed (universe roots : List Digest) : Type 0 where
    pub has_roots : (r : Digest) → elem r roots ≡ true → is_zero r ≡ false → elem r universe ≡ true
    pub has_refs :
        (d r : Digest)
        → elem d universe ≡ true
        → elem r (refs d) ≡ true
        → is_zero r ≡ false
        → elem r universe ≡ true

  -- The references of the objects that are not visited yet.
  unfoldable pub pending : List Digest → List Digest → ℕ
  pending visited [] = 0
  pending visited (u ∷ us) = (if elem u visited then 0 else length (refs u)) + pending visited us

  pending_mono :
      (d : Digest) (visited us : List Digest) → pending (d ∷ visited) us ≤ pending visited us
  unfolding pending elem
  pending_mono d visited [] = omega arith
  pending_mono d visited (u ∷ us) = ground (arith, pending_mono d visited us)

  -- A first visit takes the object's own references off what is pending.
  pub pending-visit :
      (d : Digest) (visited us : List Digest)
      → elem d us ≡ true
      → elem d visited ≡ false
      → pending (d ∷ visited) us + length (refs d) ≤ pending visited us
  unfolding pending elem
  pending-visit d visited [] h n = cc
  pending-visit d visited (u ∷ us) h n = elim (Bool-cases (bytes_eq u d)) [
    | inl same ↦
        let e = (bytes_eq_iff u d).0 same in
        ground (
          arith,
          bytes_eq_iff d u,
          pending_mono d visited us,
          ap (λ (x : Digest). length (refs x)) e,
          ap (λ (x : Digest). elem x visited) e,
        )
    | inr other ↦ ground (arith, bytes_eq_iff d u, bytes_eq_iff u d, pending-visit d visited us)
  ]
