-- ===== src/Tests/Walks.antt =====
-- Walks over a small graph: cas/reachability.go.
use go_cask.Common.{
  ℕ, ◌+◌, ◌<◌, ◌≡◌, refl, sym, ap, ◌∙◌, ◌⊎◌, inl, inr, true, false, Option, none, some, List, [],
  ◌∷◌, arith, if◌then◌else◌, bytes_eq,
}
use go_cask.Common.Assoc.{elem}
use go_cask.Errors.{Result, ok}
use go_cask.Digest.{Digest, is_zero}
use go_cask.Backend.{found}
use go_cask.Walk.{Refs, node_refs, visit_object, walk_digests}
use go_cask.Walk.Graph.{elem-cons-inv, pending, IsClosed}
use go_cask.Walk.Correct.{walk_digests-Ends, Works, Ends}

abbrev one : Digest
one = 1 ∷ []

abbrev two : Digest
two = 2 ∷ []

-- Two objects that refer to each other; the first has an absent reference too.
abbrev links : Digest → List Digest
links d = if bytes_eq d one then two ∷ [] ∷ [] else if bytes_eq d two then one ∷ [] else []

abbrev both : List Digest
both = one ∷ two ∷ []

none_in : (d : Digest) → elem d [] ≡ true → ⊥
none_in d h = unfold elem in cc

both-inv : (d : Digest) → elem d both ≡ true → (one ≡ d) ⊎ (two ≡ d)
both-inv d h = elim (elem-cons-inv one d (two ∷ []) h) [
  | inl e ↦ inl e
  | inr h' ↦ elim (elem-cons-inv two d [] h') [ inl e ↦ inr e | inr n ↦ absurd (none_in d n) ]
]

in_both : (d : Digest) → (one ≡ d) ⊎ (two ≡ d) → elem d both ≡ true
unfolding elem bytes_eq
in_both d (inl e) = rw (sym e) refl
in_both d (inr e) = rw (sym e) refl

refs_of_one : (r : Digest) → elem r (two ∷ [] ∷ []) ≡ true → is_zero r ≡ false → elem r both ≡ true
refs_of_one r h z = elim (elem-cons-inv two r ([] ∷ []) h) [
  | inl e ↦ in_both r (inr e)
  | inr h' ↦ elim (elem-cons-inv [] r [] h') [
    | inl e ↦ let clash : true ≡ false = ap is_zero e ∙ z in cc
    | inr n ↦ absurd (none_in r n)
  ]
]

refs_of_two : (r : Digest) → elem r (one ∷ []) ≡ true → is_zero r ≡ false → elem r both ≡ true
refs_of_two r h z = elim (elem-cons-inv one r [] h) [
  | inl e ↦ in_both r (inl e)
  | inr n ↦ absurd (none_in r n)
]

links-closed :
    (d r : Digest)
    → (one ≡ d) ⊎ (two ≡ d)
    → elem r (links d) ≡ true
    → is_zero r ≡ false
    → elem r both ≡ true
unfolding bytes_eq
links-closed d r (inl e) h z = refs_of_one r (ap (λ t. elem r (links t)) e ∙ h) z
links-closed d r (inr e) h z = refs_of_two r (ap (λ t. elem r (links t)) e ∙ h) z

links-IsClosed : IsClosed links both (one ∷ [])
links-IsClosed = record {
  has_roots = λ r h z. refs_of_two r h z;
  has_refs = λ d r m h z. links-closed d r (both-inv d m) h z;
}

abbrev lister : Digest → Result Refs
lister d = ok (some (links d))

few_links : 1 + pending links [] both < 9
unfolding pending elem bytes_eq
few_links = omega arith

abbrev resolve : Digest → Result (Option (Unit {0}) × Refs)
resolve d = ok (none, some (links d))

abbrev count_visit : Digest → Option (Unit {0}) → Refs → ℕ → Result ℕ
count_visit d found refs n = ok (n + 1)

abbrev no_refs : Unit {0} → Refs
no_refs u = none

links_Works : Works no_refs resolve count_visit (λ n. none) links (λ d n. n + 1) both (one ∷ [])
unfolding visit_object node_refs
links_Works = record { live = λ n. refl; visited_ok = λ d v h. refl; closed = links-IsClosed }

walk_digests-Ends_example :
    Ends no_refs resolve count_visit
      (λ n. none)
      links
      (λ d n. n + 1)
      both
      (one ∷ [])
      (walk_digests no_refs resolve count_visit (λ n. none) 9 (one ∷ []) 0)
      0
walk_digests-Ends_example =
    walk_digests-Ends no_refs resolve count_visit (λ n. none) links (λ d n. n + 1) both (one ∷ []) 9
      0 links_Works few_links
