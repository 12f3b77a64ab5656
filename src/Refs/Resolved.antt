-- ===== src/Refs/Resolved.antt =====
-- cas/refs/refs.go: which reference `Resolve` finds.
use go_cask.Common.{
  ℕ, suc, ◌<◌, ◌≡◌, refl, sym, ap, ◌∙◌, ◌⊎◌, inl, inr, true, false, none, some, List, [], ◌∷◌,
  arith, if◌then◌else◌, Bool-cases, Option-cases, length, Bytes, bytes_eq, bytes_eq_iff,
}
use go_cask.Common.Assoc.{elem}
use go_cask.Errors.{Result, err, ok}
use go_cask.Digest.{prefix}
use go_cask.RefName.{starts_with}
use go_cask.Refs.{ref_not_found, ambiguous, find_exact, matches, resolve_in, Ref}

-- The names of references.
abbrev pub names : List Ref → List Bytes
names [] = []
names (r ∷ refs) = Ref.name r ∷ names refs

-- How many names have a prefix.
unfoldable pub with_prefix : Bytes → List Bytes → ℕ
with_prefix prefix [] = 0
with_prefix prefix (name ∷ ns) =
    let rest = with_prefix prefix ns in if starts_with prefix name then suc rest else rest

-- A reference is one of a list, with its digest.
abbrev pub IsAmong : Ref → List Ref → Type 0
IsAmong r [] = ⊥
IsAmong r (q ∷ refs) = (q ≡ r) ⊎ IsAmong r refs

-- What `Resolve` promises of a result, among the references of the store.
pub data Answers (name : Bytes) (refs : List Ref) : Result Ref → Type 0 where
  exact : (r : Ref) → Ref.name r ≡ name → IsAmong r refs → Answers name refs (ok r)
  only :
      (r : Ref)
      → elem name (names refs) ≡ false
      → starts_with name (Ref.name r) ≡ true
      → IsAmong r refs
      → with_prefix name (names refs) ≡ 1
      → Answers name refs (ok r)
  missing :
      elem name (names refs) ≡ false
      → with_prefix name (names refs) ≡ 0
      → Answers name refs (err ref_not_found)
  several :
      elem name (names refs) ≡ false
      → 1 < with_prefix name (names refs)
      → Answers name refs (err ambiguous)

find_exact-none :
    (name : Bytes) (refs : List Ref) → find_exact name refs ≡ none → elem name (names refs) ≡ false
unfolding find_exact elem
find_exact-none name [] h = refl
find_exact-none name (r ∷ refs) h = ground (arith, find_exact-none name refs)

find_exact-some :
    (name : Bytes) (refs : List Ref) (r : Ref)
    → find_exact name refs ≡ some r
    → (Ref.name r ≡ name) × IsAmong r refs
unfolding find_exact elem
find_exact-some name [] r h = cc
find_exact-some name (q ∷ refs) r h = elim (Bool-cases (bytes_eq q.name name)) [
  | inl same ↦
      let e : q ≡ r = unwrap (rw same at h) in
      (sym (ap Ref.name e) ∙ (bytes_eq_iff q.name name).0 same, inl e)
  | inr different ↦
      let (is_it, found) = find_exact-some name refs r (rw different at h) in (is_it, inr found)
]
  where
    unwrap : {a b : Ref} → some a ≡ some b → a ≡ b
    unwrap p = cc

length-matches :
    (prefix : Bytes) (refs : List Ref)
    → length (matches prefix refs) ≡ with_prefix prefix (names refs)
unfolding matches with_prefix
length-matches prefix [] = refl
length-matches prefix (r ∷ refs) = ground (arith, length-matches prefix refs)

matches_first :
    (prefix : Bytes) (refs : List Ref) (r : Ref) (more : List Ref)
    → matches prefix refs ≡ r ∷ more
    → (starts_with prefix (Ref.name r) ≡ true) × IsAmong r refs
unfolding matches elem
matches_first prefix [] r more h = cc
matches_first prefix (q ∷ refs) r more h = elim (Bool-cases (starts_with prefix q.name)) [
  | inl does ↦ let e : q ≡ r = head (rw does at h) in (rw (sym (ap Ref.name e)) does, inl e)
  | inr does_not ↦
      let (starts, found) = matches_first prefix refs r more (rw does_not at h) in
      (starts, inr found)
]
  where
    head : {a b : Ref} {xs ys : List Ref} → a ∷ xs ≡ b ∷ ys → a ≡ b
    head p = cc

-- `Resolve` among the references that `List` gives: a reference of the list with the exact name if there
-- is one, else the one reference of the list whose name starts
-- with it, else that there is none or that there are several.
pub resolve_in-Answers : (name : Bytes) (refs : List Ref) → Answers name refs (resolve_in name refs)
unfolding resolve_in
resolve_in-Answers name refs = elim (Option-cases (find_exact name refs)) [
  | inr (r, found) ↦
      rw (found, resolve_in)
        (exact r (find_exact-some name refs r found).0 (find_exact-some name refs r found).1)
  | inl nothing ↦
      rw (nothing, resolve_in) (go (matches name refs) refl (find_exact-none name refs nothing))
]
  where
    go :
        (ms : List Ref)
        → matches name refs ≡ ms
        → elem name (names refs) ≡ false
        → Answers name refs (elim ms [
          | [] ↦ err ref_not_found
          | ◌∷◌ r more ↦ elim more [ [] ↦ ok r | ◌∷◌ r' more' ↦ err ambiguous ]
        ])
    go [] h not_exact = missing not_exact (sym (length-matches name refs) ∙ ap length h)
    go (r ∷ []) h not_exact =
        only r not_exact (matches_first name refs r [] h).0 (matches_first name refs r [] h).1
          (sym (length-matches name refs) ∙ ap length h)
    go (r ∷ r' ∷ more) h not_exact =
        several not_exact (omega (arith, length-matches name refs, ap length h))
