-- ===== src/Batch/Served.antt =====
-- cas/batch.go: the objects are served in the order given, up to the first error.
use go_cask.Common.{
  ◌≡◌, refl, sym, ap, ◌∙◌, inl, inr, false, Option, none, some, List, [], ◌∷◌, Option-cases, Bytes,
}
use go_cask.Errors.{Error, Result}
use go_cask.Digest.{Digest, is_zero}
use go_cask.Reader.{new_reader, Reader}
use go_cask.ReadClose.{render, prefixed, close_outcome, read_then_close, read_wins}
use go_cask.Backend.{Effect, or_fail, unless, check_digest_present, Backend, BackendLaws}
use go_cask.Batch.{close_after_fn, get_many_each, get_many}

closed_whole :
    (content : Bytes) (failure : Option Error)
    → ◌≡◌ {A = Result (Unit {0})}
        (read_then_close (new_reader content) (λ _. unless failure tt) read_wins none prefixed)
        (unless failure tt)
unfolding read_then_close close_outcome render
closed_whole content none = refl
closed_whole content (some e) = refl

module _ {V : Type 0} (b : Backend) (laws : BackendLaws b)
    (fn : Digest → Reader → V → Effect V) where
  -- What the caller's function makes of objects, one after the other, until it fails.
  abbrev pub serve : List (Digest × Bytes) → V → Effect V
  serve [] v = (none, v)
  serve ((d, content) ∷ objects) v =
      let (failure, v') = fn d (new_reader content) v in
      elim failure [ some e ↦ (some e, v') | none ↦ serve objects v' ]

  abbrev pub digests : List (Digest × Bytes) → List Digest
  digests [] = []
  digests ((d, content) ∷ objects) = d ∷ digests objects

  abbrev pub AllStored : Backend.State b → List (Digest × Bytes) → Type 0
  AllStored s [] = Unit
  AllStored s ((d, content) ∷ objects) =
      ((is_zero d ≡ false) × (BackendLaws.view laws s d ≡ some content)) × AllStored s objects

  close_after_fn_lem :
      (d : Digest) (content : Bytes) (v : V)
      → close_after_fn b none fn d (new_reader content) v
        ≡ (unless ((fn d (new_reader content) v).0) tt, (fn d (new_reader content) v).1)
  unfolding close_after_fn
  close_after_fn_lem d content v =
      ap (λ (r : Result (Unit {0})). (r, (fn d (new_reader content) v).1))
        (closed_whole content (fn d (new_reader content) v).0)

  serve_fine :
      (d : Digest) (content : Bytes) (objects : List (Digest × Bytes)) (v : V)
      → (fn d (new_reader content) v).0 ≡ none
      → serve ((d, content) ∷ objects) v ≡ serve objects (fn d (new_reader content) v).1
  serve_fine d content objects v h = rw (h, serve) refl

  serve_failed :
      (d : Digest) (content : Bytes) (objects : List (Digest × Bytes)) (v : V) (e : Error)
      → (fn d (new_reader content) v).0 ≡ some e
      → serve ((d, content) ∷ objects) v ≡ (some e, (fn d (new_reader content) v).1)
  serve_failed d content objects v e h = rw (h, serve) refl

  -- On a live context, over a backend that keeps its contract and is no `BatchGetter`, `GetMany` of
  -- stored objects calls the
  -- caller's function once for each appearance, in the order given, on a reader of the stored bytes; the
  -- function's first error ends the batch and is returned as it is.
  pub get_many-serves :
      (objects : List (Digest × Bytes)) (s : Backend.State b) (v : V)
      → BackendLaws.IsValid laws s
      → AllStored s objects
      → get_many b none fn none (digests objects) s v ≡ serve objects v
  unfolding get_many get_many_each
  get_many-serves [] s v valid stored = refl
  get_many-serves ((d, content) ∷ objects) s v valid ((present, held), stored) =
      elim (Option-cases ((fn d (new_reader content) v).0)) [
        | inl fine ↦ rw (check_digest_present d present) (
            rw (BackendLaws.get_lem laws d s valid present) (
              rw held (
                rw (close_after_fn_lem d content v, or_fail)
                  (rw fine (
                    get_many-serves objects s _ valid stored
                    ∙ rw (close_after_fn_lem d content v)
                        (sym (serve_fine d content objects v fine)))))))
        | inr (e, failed) ↦ rw (check_digest_present d present) (
            rw (BackendLaws.get_lem laws d s valid present) (
              rw held (
                rw (close_after_fn_lem d content v, or_fail)
                  (rw failed (
                    rw (close_after_fn_lem d content v)
                      (sym (serve_failed d content objects v e failed)))))))
      ]
