-- ===== src/Walk/Correct.antt =====
-- A walk over a finite graph ends, and visits each digest that can be reached exactly once.
use go_cask.Common.{
  ℕ, zero, suc, ◌+◌, ◌<◌, ◌≡◌, refl, ◌↔◌, inl, inr, true, Option, none, some, List, [], ◌∷◌, arith,
  Bool-cases, length,
}
use go_cask.Common.Assoc.{elem}
use go_cask.Errors.{Result, ok}
use go_cask.Digest.{Digest}
use go_cask.Backend.{Ctx}
use go_cask.Walk.{push_roots, push_refs, Refs, visit_object, walk_loop, walk_digests}
use go_cask.Walk.Graph.{
  elem-cons_self, length-push_refs-le, length-push_roots-le, pending, pending-visit, Reach,
  IsClosed,
}
use go_cask.Walk.Invariant.{
  NoRepeat, Frontier-start, Frontier-skip, Frontier-visit, Frontier-end, Reach-universe, Frontier,
}

-- What the visits leave behind, the last visited digest first.
abbrev pub replay : {V : Type 0} → (Digest → V → V) → List Digest → V → V
replay add [] v = v
replay add (d ∷ ds) v = add d (replay add ds v)

module _ {N V : Type 0} (references : N → Refs) (resolve : Digest → Result (Option N × Refs))
    (visit : Digest → Option N → Refs → V → Result V) (ctx : ℕ → Ctx) (refs : Digest → List Digest)
    (add : Digest → V → V) (universe roots : List Digest) where
  -- The context stays live, and every object of the universe resolves and is visited with no error.
  pub record Works : Type 0 where
    pub live : (n : ℕ) → ctx n ≡ none
    pub visited_ok :
        (d : Digest) (v : V)
        → elem d universe ≡ true
        → visit_object references resolve visit ctx d v ≡ ok (refs d, add d v)
    pub closed : IsClosed refs universe roots

  -- How a walk ends.
  pub record Ends (result : Option (Result V)) (v : V) : Type 0 where
    pub order : List Digest
    pub result_is : result ≡ some (ok (replay add order v))
    pub once : NoRepeat order
    pub exactly : (d : Digest) → (elem d order ≡ true) ↔ Reach refs roots d

  loop-Ends :
      (fuel n : ℕ) (visited stack : List Digest) (v : V)
      → Works
      → Frontier refs roots visited stack
      → NoRepeat visited
      → length stack + pending refs visited universe < fuel
      → Ends (walk_loop references resolve visit ctx fuel n visited stack (replay add visited v)) v
  unfolding walk_loop
  loop-Ends zero n visited stack v w f nr h = absurd (omega arith)
  loop-Ends (suc fuel) n visited [] v w f nr h = record {
    order = visited;
    result_is = refl;
    once = nr;
    exactly = Frontier-end refs roots f;
  }
  loop-Ends (suc fuel) n visited (d ∷ stack) v w f nr h = elim (Bool-cases (elem d visited)) [
    | inl seen ↦
        rw (w.live n, walk_loop)
          (rw seen (
            loop-Ends fuel (suc n) visited stack v w (Frontier-skip refs roots d seen f) nr
              (omega arith)))
    | inr new ↦
        let here =
          Reach-universe refs roots w.closed (f.reached d (inr (elem-cons_self d stack))) in
        rw (w.live n, walk_loop)
          (rw new (
            rw (w.visited_ok d (replay add visited v) here) (
              loop-Ends fuel (suc n) (d ∷ visited) (push_refs (d ∷ visited) (refs d) stack) v w
                (Frontier-visit refs roots d f) (new, nr)
                (omega (
                  arith,
                  length-push_refs-le (d ∷ visited) (refs d) stack,
                  pending-visit refs d visited universe here new,
                )))))
  ]

  -- On a live context, over a finite set of digests that holds the roots and is closed under
  -- references, with every object of the set resolved and visited with no error, and with fuel for
  -- the roots and all references of the set, the walk ends with no error; it visits exactly the
  -- digests that can be reached from the roots, each of them once.
  pub walk_digests-Ends :
      (fuel : ℕ) (v : V)
      → Works
      → length roots + pending refs [] universe < fuel
      → Ends (walk_digests references resolve visit ctx fuel roots v) v
  unfolding walk_digests
  walk_digests-Ends fuel v w h =
      rw (w.live 0, walk_digests)
        (loop-Ends fuel 1 [] (push_roots roots []) v w (Frontier-start refs roots) tt
          (omega (arith, length-push_roots-le roots [])))
