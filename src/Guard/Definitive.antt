-- ===== src/Guard/Definitive.antt =====
-- cas/bloom/guard.go: a guard answers as the backend behind it.
use go_cask.Common.{
  ◌≡◌, refl, sym, ap, ◌∙◌, inl, inr, Bool, true, false, Option, none, [], ◌∷◌, arith, if◌then◌else◌,
  Bool-cases, Option-cases, Bytes, bytes_eq, bytes_eq_iff,
}
use go_cask.Errors.{ok}
use go_cask.Digest.{Digest, is_zero}
use go_cask.Reader.{Reader}
use go_cask.Backend.{Ctx, is_some, check_digest_present, Backend, BackendLaws}
use go_cask.Guard.{put, exists, delete, Filter, FilterLaws, Guard}

module _ (b : Backend) (laws : BackendLaws b) (f : Filter) (fl : FilterLaws f) where
  -- The backend is valid and the filter is sound, and the filter holds every digest that is stored.
  pub record IsCovered (g : Guard b f) : Type 0 where
    pub valid : BackendLaws.IsValid laws g.backend
    pub sound : FilterLaws.IsSound fl g.bits
    pub covered :
        (j : Digest)
        → is_some (BackendLaws.view laws g.backend j) ≡ true
        → Filter.holds f j g.bits ≡ true

  -- On a live context and for a digest that is present, over a valid backend that keeps its contract,
  -- `Exists` of a guard whose filter holds every
  -- stored digest is the answer of the backend: a negative answer of the filter is definitive.
  pub exists-definitive :
      (d : Digest) (g : Guard b f)
      → IsCovered g
      → is_zero d ≡ false
      → exists b f none d g ≡ Backend.exists b none d g.backend
  unfolding exists
  exists-definitive d g v present = elim (Bool-cases (Filter.holds f d g.bits)) [
    | inl q ↦ rw (check_digest_present d present) (rw q refl)
    | inr q ↦ elim (Bool-cases (is_some (BackendLaws.view laws g.backend d))) [
      | inl stored ↦ absurd (apart q (v.covered d stored))
      | inr gone ↦
          rw (check_digest_present d present)
            (rw q (sym (BackendLaws.exists_lem laws d g.backend v.valid present ∙ ap ok gone)))
    ]
  ]
    where
      apart : {t : Bool} → t ≡ false → t ≡ true → ⊥
      apart h k = cc

  stored_present :
      (s : Backend.State b)
      → BackendLaws.IsValid laws s
      → (d : Digest) → is_some (BackendLaws.view laws s d) ≡ true
      → is_zero d ≡ false
  stored_present s valid [] h = absurd (apart (rw (BackendLaws.absent laws s valid) at h))
    where
      apart : false ≡ true → ⊥
      apart h = cc
  stored_present s valid (x ∷ d) h = refl

  -- `Put` of a guard keeps that its backend is valid and that its filter holds every stored digest, on
  -- every branch, over a backend and a filter that keep their contracts.
  pub put-IsCovered :
      (ctx : Ctx) (d : Digest) (r : Reader) (g : Guard b f)
      → IsCovered g
      → IsCovered (put b f ctx d r g).1
  unfolding put
  put-IsCovered ctx d r g v = elim (Option-cases ((Backend.put b ctx d r g.backend).0)) [
    | inl done ↦
        let (whole, valid', views) = BackendLaws.put_done laws ctx d r g.backend v.valid done in
        rw (done, put)
          (record {
            valid = valid';
            sound = FilterLaws.sound_add fl d g.bits v.sound;
            covered = λ j held. elim (Bool-cases (bytes_eq d j)) [
              | inl same ↦ rw (sym ((bytes_eq_iff d j).0 same)) (
                  FilterLaws.added fl d g.bits v.sound (
                    rw ((bytes_eq_iff d j).0 same)
                      (stored_present (Backend.put b ctx d r g.backend).1 valid' j held)))
              | inr other_key ↦
                  FilterLaws.kept fl d j g.bits v.sound
                    (v.covered j (ap is_some (sym (views j ∙ rw other_key refl)) ∙ held))
            ];
          })
    | inr (e, failed) ↦
        let same = BackendLaws.put_failed laws ctx d r g.backend e failed in
        rw (failed, put) (rw same v)
  ]

  -- `Delete` on a live context keeps it too, for a digest that is present and a filter that cannot
  -- remove.
  pub delete-IsCovered :
      (d : Digest) (g : Guard b f)
      → IsCovered g
      → is_zero d ≡ false
      → Filter.take_out f ≡ none
      → IsCovered (delete b f none d g).1
  unfolding delete
  delete-IsCovered d g v present stays =
      let (done, valid', views) = BackendLaws.delete_lem laws d g.backend v.valid present in
      rw (done, delete)
        (rw (stays, delete)
          (record {
            valid = valid';
            sound = v.sound;
            covered = λ j held. v.covered j (still j (views j) held);
          }))
    where
      still :
          (j : Digest) {o : Option Bytes}
          → o ≡ (if bytes_eq d j then none else BackendLaws.view laws g.backend j)
          → is_some o ≡ true
          → is_some (BackendLaws.view laws g.backend j) ≡ true
      still j e held = ground (arith, e, held)
