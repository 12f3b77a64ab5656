-- ===== src/Guard/Removal.antt =====
-- cas/bloom/guard.go: a guard whose filter can remove.
use go_cask.Common.{
  ◌≡◌, refl, sym, ap, ◌∙◌, inl, inr, true, false, Option, none, some, List, [], ◌∷◌, arith,
  if◌then◌else◌, Bool-cases, Bytes, bytes_eq, bytes_eq_iff,
}
use go_cask.Common.Assoc.{elem}
use go_cask.Digest.{Digest, is_zero}
use go_cask.Backend.{is_some, Backend, BackendLaws}
use go_cask.Guard.{delete, Filter, Guard}
use go_cask.Guard.Blooms.{counting_filter}
use go_cask.Bloom.Counting.Accounts.{once_less, Accounts, remove-Accounts, holds-Accounts}
use go_cask.Bloom.Counting as Counting

-- What a filter with a `Remove` promises: it accounts for digests, each as often as it was added and not
-- removed again, holds each of them, and a `Remove` of one of them takes it off once.
pub record RemovalLaws (f : Filter) (take_off : Digest → Filter.Bits f → Filter.Bits f)
    : Type 1 where
  pub Accounted : List Digest → Filter.Bits f → Type 0
  pub held :
      (d : Digest) (ds : List Digest) (bits : Filter.Bits f)
      → elem d ds ≡ true
      → is_zero d ≡ false
      → Accounted ds bits
      → Filter.holds f d bits ≡ true
  pub taken :
      (d : Digest) (ds : List Digest) (bits : Filter.Bits f)
      → elem d ds ≡ true
      → Accounted ds bits
      → Accounted (once_less d ds) (take_off d bits)

-- The counting filter keeps it.
unfoldable pub counting_removal : RemovalLaws counting_filter Counting.remove
counting_removal = record { Accounted = Accounts; held = holds-Accounts; taken = remove-Accounts }

elem-once_less :
    (d j : Digest) (ds : List Digest) → bytes_eq d j ≡ false → elem j (once_less d ds) ≡ elem j ds
unfolding elem once_less
elem-once_less d j [] h = refl
elem-once_less d j (e ∷ ds) h =
    ground (arith, elem-once_less d j ds h, bytes_eq_iff e d, bytes_eq_iff e j, bytes_eq_iff d j)

module _ (b : Backend) (laws : BackendLaws b) (f : Filter)
    (take_off : Digest → Filter.Bits f → Filter.Bits f) (removal : RemovalLaws f take_off) where
  -- The filter accounts for the digests, and every stored digest is one of them.
  pub record IsAccounted (ds : List Digest) (g : Guard b f) : Type 0 where
    pub valid : BackendLaws.IsValid laws g.backend
    pub accounted : RemovalLaws.Accounted removal ds g.bits
    pub listed :
        (j : Digest) → is_some (BackendLaws.view laws g.backend j) ≡ true → elem j ds ≡ true

  stored_held :
      (ds : List Digest) (g : Guard b f) (j : Digest)
      → IsAccounted ds g
      → is_some (BackendLaws.view laws g.backend j) ≡ true
      → Filter.holds f j g.bits ≡ true
  stored_held ds g [] v there =
      let clash : false ≡ true =
        sym (ap is_some (BackendLaws.absent laws g.backend v.valid)) ∙ there in
      cc
  stored_held ds g (x ∷ j) v there =
      RemovalLaws.held removal (x ∷ j) ds g.bits (v.listed (x ∷ j) there) refl v.accounted

  -- `Delete` on a live context of a digest that is stored, through a guard whose filter can remove and
  -- accounts for every stored digest, over a valid backend that keeps its contract: it succeeds and
  -- removes that one object, the filter accounts for the digest once less and for the others as before,
  -- and every object that is still stored is held by the filter.
  pub delete-IsAccounted :
      (d : Digest) (ds : List Digest) (g : Guard b f)
      → Filter.take_out f ≡ some take_off
      → IsAccounted ds g
      → is_some (BackendLaws.view laws g.backend d) ≡ true
      → ((delete b f none d g).0 ≡ none)
        × IsAccounted (once_less d ds) (delete b f none d g).1
        × ((j : Digest)
            → BackendLaws.view laws (Guard.backend (delete b f none d g).1) j
              ≡ (if bytes_eq d j then none else BackendLaws.view laws g.backend j))
        × ((j : Digest)
            → is_some (BackendLaws.view laws (Guard.backend (delete b f none d g).1) j) ≡ true
            → Filter.holds f j (Guard.bits (delete b f none d g).1) ≡ true)
  unfolding delete
  delete-IsAccounted d ds g can v there =
      let (done, valid', views) =
        BackendLaws.delete_lem laws d g.backend v.valid (present d there) in
      let after : Guard b f = record {
        backend = (Backend.delete b none d g.backend).1;
        bits = take_off d g.bits;
      } in
      let still : IsAccounted (once_less d ds) after = record {
        valid = valid';
        accounted = RemovalLaws.taken removal d ds g.bits (v.listed d there) v.accounted;
        listed = λ j held. listed_still j (views j) held;
      } in
      rw (done, delete)
        (rw (can, delete)
          (refl, still, views, λ j held. stored_held (once_less d ds) after j still held))
    where
      present :
          (d : Digest) → is_some (BackendLaws.view laws g.backend d) ≡ true → is_zero d ≡ false
      present [] h =
          let clash : false ≡ true =
            sym (ap is_some (BackendLaws.absent laws g.backend v.valid)) ∙ h in
          cc
      present (x ∷ d) h = refl

      listed_still :
          (j : Digest) {o : Option Bytes}
          → o ≡ (if bytes_eq d j then none else BackendLaws.view laws g.backend j)
          → is_some o ≡ true
          → elem j (once_less d ds) ≡ true
      listed_still j {o} e held = elim (Bool-cases (bytes_eq d j)) [
        | inl same ↦
            let gone : o ≡ none = e ∙ rw same refl in
            let clash : false ≡ true = sym (ap is_some gone) ∙ held in cc
        | inr differ ↦
            let before : o ≡ BackendLaws.view laws g.backend j = e ∙ rw differ refl in
            elem-once_less d j ds differ ∙ v.listed j (sym (ap is_some before) ∙ held)
      ]
