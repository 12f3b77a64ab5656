-- ===== src/Sweep/Marks.antt =====
-- cas/sweep.go: what a sweep marks, and what its second loop deletes.
use go_cask.Common.{
  ℕ, suc, ◌≡◌, refl, sym, ap, ◌∙◌, ◌⊎◌, inl, inr, Bool, true, false, ◌||◌, Option, none, some, List,
  [], ◌∷◌, arith, if◌then◌else◌, Bool-cases, Option-cases, or_right, Bytes, bytes_eq, bytes_eq_iff,
  bytes_eq_refl,
}
use go_cask.Common.Assoc.{elem}
use go_cask.Errors.{>>=-eq-ok, Result, ok}
use go_cask.Digest.{Digest, is_zero, string}
use go_cask.Backend.{Ctx, is_some, Backend, BackendLaws}
use go_cask.Sweep.{delete_all, chosen_statter, is_doomed, collect, marked}

ok-injective {ℓ} : {A : Type ℓ} {a b : A} → ok a ≡ ok b → a ≡ b
ok-injective h = cc

hidden {ℓ} :
    {A : Type ℓ} (p q : Bool) (x : Option A)
    → (if q then none else (if p then none else x)) ≡ (if p || q then none else x)
hidden true true x = refl
hidden true false x = refl
hidden false true x = refl
hidden false false x = refl

collected_turn :
    (chosen : Bool) (d' : Digest) (rest doomed : List Digest) (d : Digest)
    → ok (if chosen then d' ∷ rest else rest) ≡ ok doomed
    → elem d doomed ≡ true
    → ((chosen ≡ true) × (d' ≡ d)) ⊎ (elem d rest ≡ true)
unfolding elem
collected_turn true d' rest doomed d h m =
    let same : d' ∷ rest ≡ doomed = cc in
    let m' : elem d (d' ∷ rest) ≡ true = ap (elem d) same ∙ m in
    elim (Bool-cases (bytes_eq d' d)) [
      | inl e ↦ inl (refl, (bytes_eq_iff d' d).0 e)
      | inr e ↦ inr (rw e at m')
    ]
collected_turn false d' rest doomed d h m = let same : rest ≡ doomed = cc in inr (rw same m)

module _ (b : Backend) (mod_time : Option (Ctx → Digest → Backend.State b → Result ℕ)) where
  -- What is doomed is not live, and the context was live when it was found.
  is_doomed-eq-true :
      (ctx : Ctx) (statter : Option (Ctx → Digest → Backend.State b → Result ℕ)) (min_age now : ℕ)
      (live : List Bytes) (d : Digest) (s : Backend.State b)
      → is_doomed b mod_time ctx statter min_age now live d s ≡ ok true
      → (ctx ≡ none) × (elem (string d) live ≡ false)
  unfolding is_doomed
  is_doomed-eq-true none statter min_age now live d s h = elim (Bool-cases (elem (string d) live)) [
    | inl q ↦ let clash = rw (q, is_doomed) at h in cc
    | inr q ↦ (refl, q)
  ]
  is_doomed-eq-true (some e) statter min_age now live d s h = cc

  -- What is collected stands in the list, is not live, and was found on a live context.
  collect-eq-ok :
      (ctx : Ctx) (statter : Option (Ctx → Digest → Backend.State b → Result ℕ)) (min_age now : ℕ)
      (live : List Bytes) (ds : List Digest) (s : Backend.State b) (doomed : List Digest)
      → collect b mod_time ctx statter min_age now live ds s ≡ ok doomed
      → (d : Digest) → elem d doomed ≡ true
      → (ctx ≡ none) × (elem d ds ≡ true) × (elem (string d) live ≡ false)
  unfolding collect elem
  collect-eq-ok ctx statter min_age now live [] s doomed h d m =
      let same : [] ≡ doomed = cc in let clash = rw (sym same) at m in cc
  collect-eq-ok ctx statter min_age now live (d' ∷ ds) s doomed h d m =
      let (chosen, c, h₁) =
        >>=-eq-ok (is_doomed b mod_time ctx statter min_age now live d' s) _ h in
      let (rest, r, h₂) = >>=-eq-ok (collect b mod_time ctx statter min_age now live ds s) _ h₁ in
      let later = collect-eq-ok ctx statter min_age now live ds s rest r d in
      elim (collected_turn chosen d' rest doomed d h₂ m) [
        | inl (picked, e) ↦
            let (alive, dead) =
              is_doomed-eq-true ctx statter min_age now live d' s (c ∙ ap ok picked) in
            (alive, rw (e, bytes_eq_refl d) refl, rw (sym e) dead)
        | inr m' ↦
            let (alive, listed, dead) = later m' in (alive, or_right (bytes_eq d' d) listed, dead)
      ]

  -- What a run marks is not live.
  pub marked_dead :
      (ctx : Ctx) (live : List Bytes) (min_age now : ℕ) (s : Backend.State b) (doomed : List Digest)
      → marked b mod_time ctx live min_age now s ≡ ok doomed
      → (d : Digest) → elem d doomed ≡ true
      → elem (string d) live ≡ false
  unfolding marked
  marked_dead ctx live min_age now s doomed h d m =
      let (statter, t, h₁) = >>=-eq-ok (chosen_statter b mod_time ctx min_age) _ h in
      let (digests, l, h₂) = >>=-eq-ok (Backend.list b ctx s) _ h₁ in
      let (alive, listed, dead) =
        collect-eq-ok ctx statter min_age now live digests s doomed h₂ d m in
      dead

-- What a delete may do besides removing its object, whatever it returns and whatever the context: keep
-- the backend valid, and every other object.
pub record KeepsOthers (b : Backend) : Type 1 where
  pub IsValid : Backend.State b → Type 0
  pub view : Backend.State b → Digest → Option Bytes
  pub delete_valid :
      (ctx : Ctx) (d : Digest) (s : Backend.State b)
      → IsValid s
      → IsValid (Backend.delete b ctx d s).1
  pub delete_others :
      (ctx : Ctx) (d j : Digest) (s : Backend.State b)
      → IsValid s
      → bytes_eq d j ≡ false
      → view (Backend.delete b ctx d s).1 j ≡ view s j

module _ (b : Backend) (keeps : KeepsOthers b) where
  -- However the loop ends, an object that it is not to delete is kept.
  pub delete_all-keeps :
      (errs : ℕ → Ctx) (ds : List Digest) (s : Backend.State b) (j : Digest)
      → KeepsOthers.IsValid keeps s
      → elem j ds ≡ false
      → KeepsOthers.IsValid keeps (delete_all b errs ds s).1
        × (KeepsOthers.view keeps (delete_all b errs ds s).1 j ≡ KeepsOthers.view keeps s j)
  unfolding delete_all elem
  delete_all-keeps errs [] s j v h = (v, refl)
  delete_all-keeps errs (d ∷ ds) s j v h =
      let valid = KeepsOthers.delete_valid keeps (errs 1) d s v in
      let same = KeepsOthers.delete_others keeps (errs 1) d j s v (ground (arith, h)) in
      let (valid', same') =
        delete_all-keeps (λ i. errs (suc (suc i))) ds (Backend.delete b (errs 1) d s).1 j valid
          (ground (arith, h)) in
      elim (Option-cases (errs 0)) [
        | inr (e, ended) ↦ rw (ended, delete_all) (v, refl)
        | inl alive ↦ elim (Option-cases (Backend.delete b (errs 1) d s).0) [
          | inr (e, failed) ↦ rw (alive, delete_all) (rw (failed, delete_all) (valid, same))
          | inl done ↦ rw (alive, delete_all) (rw (done, delete_all) (valid', same' ∙ same))
        ]
      ]

module _ (b : Backend) (laws : BackendLaws b)
    (mod_time : Option (Ctx → Digest → Backend.State b → Result ℕ)) where
  pub listed_present :
      (d : Digest) (s : Backend.State b)
      → BackendLaws.IsValid laws s
      → is_some (BackendLaws.view laws s d) ≡ true
      → is_zero d ≡ false
  listed_present [] s v h = let clash = rw (BackendLaws.absent laws s v) at h in cc
  listed_present (x ∷ d) s v h = refl

  delete_all-views :
      (ds : List Digest) (s : Backend.State b)
      → BackendLaws.IsValid laws s
      → ((d : Digest) → elem d ds ≡ true → is_zero d ≡ false)
      → ((delete_all b (λ i. none) ds s).0 ≡ none)
        × BackendLaws.IsValid laws (delete_all b (λ i. none) ds s).1
        × ((j : Digest)
            → BackendLaws.view laws (delete_all b (λ i. none) ds s).1 j
              ≡ (if elem j ds then none else BackendLaws.view laws s j))
  unfolding delete_all elem
  delete_all-views [] s v h = (refl, v, λ j. refl)
  delete_all-views (d ∷ ds) s v h =
      let (gone, v', views) = BackendLaws.delete_lem laws d s v (h d (rw (bytes_eq_refl d) refl)) in
      let (all_gone, v'', views'') =
        delete_all-views ds _ v' (λ j m. h j (or_right (bytes_eq d j) m)) in
      (
        rw (gone, delete_all) all_gone,
        rw (gone, delete_all) v'',
        λ j. rw (gone, delete_all) (views'' j ∙ rw (views j) (hidden (bytes_eq d j) (elem j ds) _)),
      )

  -- The same, where the context is live if there is anything to delete.
  pub delete_all-deleted :
      (ctx : Ctx) (ds : List Digest) (s : Backend.State b)
      → BackendLaws.IsValid laws s
      → ((d : Digest) → elem d ds ≡ true → (ctx ≡ none) × (is_zero d ≡ false))
      → ((delete_all b (λ i. ctx) ds s).0 ≡ none)
        × BackendLaws.IsValid laws (delete_all b (λ i. ctx) ds s).1
        × ((j : Digest)
            → BackendLaws.view laws (delete_all b (λ i. ctx) ds s).1 j
              ≡ (if elem j ds then none else BackendLaws.view laws s j))
  unfolding delete_all elem
  delete_all-deleted ctx [] s v h = (refl, v, λ j. refl)
  delete_all-deleted ctx (d ∷ ds) s v h =
      rw (h d (rw (bytes_eq_refl d) refl)).0 (delete_all-views (d ∷ ds) s v (λ j m. (h j m).1))

  -- What a run marks stands in the list of the backend, and is not live.
  pub marked-eq-ok :
      (ctx : Ctx) (live : List Bytes) (min_age now : ℕ) (s : Backend.State b) (doomed : List Digest)
      → BackendLaws.IsValid laws s
      → marked b mod_time ctx live min_age now s ≡ ok doomed
      → (d : Digest) → elem d doomed ≡ true
      → (ctx ≡ none) × (is_zero d ≡ false) × (elem (string d) live ≡ false)
  unfolding marked
  marked-eq-ok ctx live min_age now s doomed v h d m =
      let (statter, t, h₁) = >>=-eq-ok (chosen_statter b mod_time ctx min_age) _ h in
      let (digests, l, h₂) = >>=-eq-ok (Backend.list b ctx s) _ h₁ in
      let (alive, listed, dead) =
        collect-eq-ok b mod_time ctx statter min_age now live digests s doomed h₂ d m in
      let (ds, l', exact) = BackendLaws.list_lem laws s v in
      let same : digests ≡ ds = ok-injective (sym l ∙ rw alive l') in
      (alive, listed_present d s v (sym (exact d) ∙ rw (sym same) listed), dead)
