-- ===== src/Verify/Intact.antt =====
-- cas/verifier.go: what a verification tells of the bytes that are stored.
use go_cask.Common.{
  ℕ, ◌+◌, ◌≡◌, refl, sym, ap, ◌∙◌, ◌↔◌, inl, inr, Bool, true, false, not, Option, none, some, List,
  [], ◌∷◌, ◌++◌, append_assoc, append-nil, arith, if◌then◌else◌, Bool-cases, Option-cases, or_right,
  length, Bytes, bytes_eq, bytes_eq_refl,
}
use go_cask.Common.Assoc.{elem}
use go_cask.Errors.{is, fail_if, Error, Result, not_found, digest_mismatch, wrap, ok, err}
use go_cask.Digest.{Digest, is_zero, equal}
use go_cask.Digest.Text.{equal_iff}
use go_cask.Reader.{new_reader}
use go_cask.ReadClose.{prefixed, read_then_close, read_then_close-ok_iff, read_wins}
use go_cask.Backend.{is_some, check_digest_present, Backend, BackendLaws}
use go_cask.Hasher.{Hasher, HasherLaws}
use go_cask.Verify.{verify, verify_each, verify_all, Report}

err_ok {ℓ} : {A : Type ℓ} {e : Error} {a : A} → err e ≡ ok a → ⊥
err_ok h = cc

none-some {ℓ} : {A : Type ℓ} {a : A} → none ≡ some a → ⊥
none-some h = cc

some-injective {ℓ} : {A : Type ℓ} {a a' : A} → some a ≡ some a' → a ≡ a'
some-injective h = cc

apart : {t : Bool} → t ≡ false → t ≡ true → ⊥
apart h k = cc

mismatch_is : is digest_mismatch (wrap digest_mismatch) ≡ true
unfolding is
mismatch_is = refl

module _ (b : Backend) (laws : BackendLaws b) (hasher : Hasher) (h : HasherLaws hasher) where
  -- The answer of `Verify` on what is stored under the digest.
  abbrev verdict : Digest → Option Bytes → Result (Unit {0})
  verdict d none = err (wrap not_found)
  verdict d (some content) =
      fail_if (not (equal (HasherLaws.hash h content) d)) (wrap digest_mismatch)

  digest_stored :
      (content : Bytes)
      → read_then_close (new_reader content) (Hasher.digest hasher) read_wins prefixed prefixed
        ≡ ok (HasherLaws.hash h content)
  digest_stored content =
      (read_then_close-ok_iff (new_reader content) (Hasher.digest hasher) read_wins prefixed
          prefixed _).1
        (HasherLaws.digest_lem h content, refl)

  -- On a live context, for a digest that is present and of the hasher's own form, `Verify` finds no
  -- object, or answers whether the stored bytes hash to the digest.
  pub verify-verdict :
      (d : Digest) (s : Backend.State b)
      → BackendLaws.IsValid laws s
      → is_zero d ≡ false
      → Hasher.validate_digest hasher d ≡ ok tt
      → verify b hasher none d s ≡ verdict d (BackendLaws.view laws s d)
  unfolding verify
  verify-verdict d s v present valid = elim (Option-cases (BackendLaws.view laws s d)) [
    | inl q ↦
        rw (check_digest_present d present)
          (rw valid (rw (BackendLaws.get_lem laws d s v present) (rw q refl)))
    | inr (content, q) ↦ rw (check_digest_present d present) (
        rw valid
          (rw (BackendLaws.get_lem laws d s v present) (rw q (rw (digest_stored content) refl))))
  ]

  verdict-ok_iff :
      (d : Digest) (o : Option Bytes)
      → (verdict d o ≡ ok tt)
        ↔ ((content : Bytes) × (o ≡ some content) × (HasherLaws.hash h content ≡ d))
  verdict-ok_iff d none =
      ((λ e. absurd (err_ok e)), λ (content, held, same). absurd (none-some held))
  verdict-ok_iff d (some content) = elim (Bool-cases (equal (HasherLaws.hash h content) d)) [
    | inl e ↦ ((λ _. (content, refl, ((equal_iff _ d).0 e).0)), λ _. rw e refl)
    | inr e ↦ (
      (λ f. absurd (err_ok (rw e at f))),
      λ (content', held, same). absurd (
          apart e (
            (equal_iff (HasherLaws.hash h content) d).1 (
              ap (HasherLaws.hash h) (some-injective held) ∙ same,
              HasherLaws.hash_present h content,
            ))),
    )
  ]

  -- On a live context, over a backend and a hasher that keep their contracts, and for a digest that is
  -- present and of the hasher's own form, `Verify` succeeds exactly if the bytes that are stored hash to the digest.
  pub verify-intact_iff :
      (d : Digest) (s : Backend.State b)
      → BackendLaws.IsValid laws s
      → is_zero d ≡ false
      → Hasher.validate_digest hasher d ≡ ok tt
      → (verify b hasher none d s ≡ ok tt) ↔ (
          (content : Bytes) × (BackendLaws.view laws s d ≡ some content)
          × (HasherLaws.hash h content ≡ d))
  verify-intact_iff d s v present valid =
      rw (verify-verdict d s v present valid) (verdict-ok_iff d (BackendLaws.view laws s d))

  -- Whether stored bytes hash to something else than their digest.
  abbrev pub disagrees : Digest → Option Bytes → Bool
  disagrees d none = false
  disagrees d (some content) = not (equal (HasherLaws.hash h content) d)

  -- The digests whose stored bytes hash to something else, in their order.
  abbrev pub damaged : List Digest → Backend.State b → List Digest
  damaged [] s = []
  damaged (d ∷ ds) s =
      let rest = damaged ds s in if disagrees d (BackendLaws.view laws s d) then d ∷ rest else rest

  verdict-disagrees :
      (d : Digest) (o : Option Bytes)
      → is_some o ≡ true
      → verdict d o ≡ fail_if (disagrees d o) (wrap digest_mismatch)
  verdict-disagrees d none held = cc
  verdict-disagrees d (some content) held = refl

  same_report :
      {m n : ℕ} {xs ys : List Digest}
      → m ≡ n
      → xs ≡ ys
      → ◌≡◌ {A = Report × Option Error}
          (record { checked = m; bad = xs }, none)
          (record { checked = n; bad = ys }, none)
  same_report p q = rw (p, q) refl

  verify_each-exact :
      (ds : List Digest) (s : Backend.State b) (report : Report)
      → BackendLaws.IsValid laws s
      → ((d : Digest)
          → elem d ds ≡ true
          → (is_some (BackendLaws.view laws s d) ≡ true)
            × (is_zero d ≡ false)
            × (Hasher.validate_digest hasher d ≡ ok tt))
      → verify_each b hasher none ds s report
        ≡ (record { checked = report.checked + length ds; bad = report.bad ++ damaged ds s }, none)
  unfolding verify_each elem
  verify_each-exact [] s report v good = same_report (omega arith) (sym (append-nil report.bad))
  verify_each-exact (d ∷ ds) s report v good =
      let (held, present, valid) = good d (rw (bytes_eq_refl d) refl) in
      let turn =
        verify-verdict d s v present valid ∙ verdict-disagrees d (BackendLaws.view laws s d) held in
      let later =
        λ (r : Report). verify_each-exact ds s r v (λ j m. good j (or_right (bytes_eq d j) m)) in
      elim (Bool-cases (disagrees d (BackendLaws.view laws s d))) [
        | inl bad ↦
            rw (turn, bad, mismatch_is, verify_each)
              (later (record { checked = report.checked + 1; bad = report.bad ++ d ∷ [] })
                ∙ (same_report (omega arith) (append_assoc report.bad (d ∷ []) (damaged ds s))))
        | inr fine ↦
            rw (turn, fine, verify_each)
              (later (record report { checked = report.checked + 1 })
                ∙ (same_report (omega arith) refl))
      ]

  -- `VerifyAll`, on a live context, over a backend and a hasher that keep their contracts and over a list of stored digests of the hasher's own form, checks
  -- them all, and reports exactly the damaged ones, in the order of the list.
  pub verify_all-exact :
      (s : Backend.State b) (ds : List Digest)
      → BackendLaws.IsValid laws s
      → Backend.list b none s ≡ ok ds
      → ((d : Digest)
          → elem d ds ≡ true
          → (is_zero d ≡ false) × (Hasher.validate_digest hasher d ≡ ok tt))
      → verify_all b hasher none s
        ≡ (some (record { checked = length ds; bad = damaged ds s }), none)
  unfolding verify_all
  verify_all-exact s ds v listed good =
      let (ds', listed', same) = BackendLaws.list_lem laws s v in
      let one : ds ≡ ds' = cc in
      rw (listed, verify_all)
        (rw
          (verify_each-exact ds s _ v
            (λ d m. (sym (same d) ∙ rw (sym one) m, (good d m).0, (good d m).1)))
          (ap (λ r. (some r.0, r.1)) (same_report (omega arith) refl)))
