-- ===== src/Walk/Invariant.antt =====
-- What holds at every round of a walk: all that is visited or waiting can be reached, and every root
-- and every reference of a visited object is visited or waiting.
use go_cask.Common.{◌≡◌, ◌↔◌, ◌⊎◌, inl, inr, true, false, List, [], ◌∷◌}
use go_cask.Common.Assoc.{elem}
use go_cask.Digest.{Digest, is_zero}
use go_cask.Walk.{push_roots, push_refs}
use go_cask.Walk.Graph.{
  elem-cons_self, elem-cons_of, elem-cons-inv, push_refs-inv, push_refs-stack, push_refs-covers,
  push_roots-inv, push_roots-covers, Reach, IsClosed, root, step,
}

-- No digest stands twice.
abbrev pub NoRepeat : List Digest → Type 0
NoRepeat [] = Unit
NoRepeat (d ∷ ds) = (elem d ds ≡ false) × NoRepeat ds

-- Visited, or on the stack.
abbrev pub IsSeen : List Digest → List Digest → Digest → Type 0
IsSeen visited stack d = (elem d visited ≡ true) ⊎ (elem d stack ≡ true)

module _ (refs : Digest → List Digest) (roots : List Digest) where
  pub record Frontier (visited stack : List Digest) : Type 0 where
    pub reached : (d : Digest) → IsSeen visited stack d → Reach refs roots d
    pub covered :
        (d r : Digest)
        → elem d visited ≡ true
        → elem r (refs d) ≡ true
        → is_zero r ≡ false
        → IsSeen visited stack r
    pub started : (r : Digest) → elem r roots ≡ true → is_zero r ≡ false → IsSeen visited stack r

  absent_elem : (r : Digest) → elem r [] ≡ true → ⊥
  unfolding elem
  absent_elem r h = cc

  pub Frontier-start : Frontier [] (push_roots roots [])
  Frontier-start = record {
    reached = λ d h. elim h [
      | inl v ↦ absurd (absent_elem d v)
      | inr s ↦ elim (push_roots-inv roots [] d s) [
        | inl e ↦ absurd (absent_elem d e)
        | inr (e, nz) ↦ root e nz
      ]
    ];
    covered = λ d r v e nz. absurd (absent_elem d v);
    started = λ r e nz. inr (push_roots-covers roots [] r (inr (e, nz)));
  }

  -- What is seen with `d` on the stack is seen without it, where `d` is visited.
  IsSeen-skip :
      (visited stack : List Digest) (d r : Digest)
      → elem d visited ≡ true
      → IsSeen visited (d ∷ stack) r
      → IsSeen visited stack r
  IsSeen-skip visited stack d r v (inl h) = inl h
  IsSeen-skip visited stack d r v (inr h) = elim (elem-cons-inv d r stack h) [
    | inl e ↦ inl (rw (← e) v)
    | inr s ↦ inr s
  ]

  pub Frontier-skip :
      {visited stack : List Digest} (d : Digest)
      → elem d visited ≡ true
      → Frontier visited (d ∷ stack)
      → Frontier visited stack
  Frontier-skip {visited} {stack} d v f = record {
    reached = λ r h. elim h [
      | inl s ↦ f.reached r (inl s)
      | inr s ↦ f.reached r (inr (elem-cons_of d r stack s))
    ];
    covered = λ x r e m nz. IsSeen-skip visited stack d r v (f.covered x r e m nz);
    started = λ r e nz. IsSeen-skip visited stack d r v (f.started r e nz);
  }

  -- What is seen before a visit is seen after it.
  IsSeen-visit :
      (visited stack more : List Digest) (d r : Digest)
      → IsSeen visited (d ∷ stack) r
      → IsSeen (d ∷ visited) (push_refs (d ∷ visited) more stack) r
  IsSeen-visit visited stack more d r (inl h) = inl (elem-cons_of d r visited h)
  IsSeen-visit visited stack more d r (inr h) = elim (elem-cons-inv d r stack h) [
    | inl e ↦ inl (rw (← e) (elem-cons_self d visited))
    | inr s ↦ inr (push_refs-stack (d ∷ visited) more stack r s)
  ]

  visit-reached :
      {visited stack : List Digest} (d : Digest)
      → Frontier visited (d ∷ stack)
      → (r : Digest) → IsSeen (d ∷ visited) (push_refs (d ∷ visited) (refs d) stack) r
      → Reach refs roots r
  visit-reached {visited} {stack} d f r (inl h) = elim (elem-cons-inv d r visited h) [
    | inl e ↦ f.reached r (inr (rw (← e) (elem-cons_self d stack)))
    | inr v ↦ f.reached r (inl v)
  ]
  visit-reached {visited} {stack} d f r (inr h) =
      elim (push_refs-inv (d ∷ visited) (refs d) stack r h) [
        | inl s ↦ f.reached r (inr (elem-cons_of d r stack s))
        | inr (m, nz) ↦ step (f.reached d (inr (elem-cons_self d stack))) m nz
      ]

  visit-covered :
      {visited stack : List Digest} (d : Digest)
      → Frontier visited (d ∷ stack)
      → (x r : Digest) → elem x (d ∷ visited) ≡ true
      → elem r (refs x) ≡ true
      → is_zero r ≡ false
      → IsSeen (d ∷ visited) (push_refs (d ∷ visited) (refs d) stack) r
  visit-covered {visited} {stack} d f x r h m nz = elim (elem-cons-inv d x visited h) [
    | inl e ↦ push_refs-covers (d ∷ visited) (refs d) stack r (rw e m) nz
    | inr v ↦ IsSeen-visit visited stack (refs d) d r (f.covered x r v m nz)
  ]

  pub Frontier-visit :
      {visited stack : List Digest} (d : Digest)
      → Frontier visited (d ∷ stack)
      → Frontier (d ∷ visited) (push_refs (d ∷ visited) (refs d) stack)
  Frontier-visit {visited} {stack} d f = record {
    reached = visit-reached d f;
    covered = visit-covered d f;
    started = λ r e nz. IsSeen-visit visited stack (refs d) d r (f.started r e nz);
  }

  -- With an empty stack the visited digests are those that can be reached.
  pub Frontier-end :
      {visited : List Digest}
      → Frontier visited []
      → (d : Digest) → (elem d visited ≡ true) ↔ Reach refs roots d
  Frontier-end {visited} f d = (λ h. f.reached d (inl h), ends d)
    where
      visited_of : (r : Digest) → IsSeen visited [] r → elem r visited ≡ true
      visited_of r (inl h) = h
      visited_of r (inr h) = absurd (absent_elem r h)

      ends : (r : Digest) → Reach refs roots r → elem r visited ≡ true
      ends r (root e nz) = visited_of r (f.started r e nz)
      ends r (step {d = x} p m nz) = visited_of r (f.covered x r (ends x p) m nz)

  -- All that can be reached lies in a closed set.
  pub Reach-universe :
      {universe : List Digest}
      → IsClosed refs universe roots
      → {d : Digest} → Reach refs roots d
      → elem d universe ≡ true
  Reach-universe c (root {d = d} e nz) = c.has_roots d e nz
  Reach-universe c (step {d = x} {r = r} p m nz) = c.has_refs x r (Reach-universe c p) m nz
