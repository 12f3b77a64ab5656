-- ===== src/Guard.antt =====
-- cas/bloom/guard.go: a backend behind an advisory membership filter.
pub mod Definitive
pub mod Blooms
pub mod Removal
use go_cask.Common.{◌≡◌, Bool, true, false, not, Option, none, some, List, if◌then◌else◌}
use go_cask.Errors.{is, ◌>>=◌, ◌>>◌, Result, ok}
use go_cask.Digest.{Digest, is_zero, check_digest}
use go_cask.Reader.{Reader}
use go_cask.Backend.{Ctx, Effect, Stats, Backend}

-- `Filter`, with the `Remove` that a filter may have.
pub record Filter : Type 1 where
  pub Bits : Type 0
  pub add : Digest → Bits → Bits
  pub holds : Digest → Bits → Bool
  pub take_out : Option (Digest → Bits → Bits)

-- What the interface asks of a filter: a digest that was added is held, and adding loses none. `IsSound`
-- is what an implementation keeps true of its bits.
pub record FilterLaws (f : Filter) : Type 1 where
  pub IsSound : Filter.Bits f → Type 0
  pub sound_add : (d : Digest) (bits : Filter.Bits f) → IsSound bits → IsSound (Filter.add f d bits)
  pub added :
      (d : Digest) (bits : Filter.Bits f)
      → IsSound bits
      → is_zero d ≡ false
      → Filter.holds f d (Filter.add f d bits) ≡ true
  pub kept :
      (d j : Digest) (bits : Filter.Bits f)
      → IsSound bits
      → Filter.holds f j bits ≡ true
      → Filter.holds f j (Filter.add f d bits) ≡ true

module _ (b : Backend) (f : Filter) where
  -- `Guard`: the state of the backend and the filter.
  pub record Guard : Type 0 where
    pub backend : Backend.State b
    pub bits : Filter.Bits f

  unfoldable pub put : Ctx → Digest → Reader → Guard → Effect Guard
  put ctx d r g =
      let (failure, s') = Backend.put b ctx d r g.backend in
      elim failure [
        | some e ↦ (some e, record g { backend = s' })
        | none ↦ (none, record { backend = s'; bits = Filter.add f d g.bits })
      ]

  unfoldable pub get : Ctx → Digest → Guard → Result Reader
  get ctx d g = Backend.get b ctx d g.backend

  unfoldable pub exists : Ctx → Digest → Guard → Result Bool
  exists ctx d g = do
    check_digest d
    if not (Filter.holds f d g.bits) then ok false else Backend.exists b ctx d g.backend

  unfoldable pub delete : Ctx → Digest → Guard → Effect Guard
  delete ctx d g =
      let (failure, s') = Backend.delete b ctx d g.backend in
      elim failure [
        | some e ↦ (some e, record g { backend = s' })
        | none ↦ elim (Filter.take_out f) [
          | none ↦ (none, record g { backend = s' })
          | some remove ↦ (none, record { backend = s'; bits = remove d g.bits })
        ]
      ]

  unfoldable pub list : Ctx → Guard → Result (List Digest)
  list ctx g = Backend.list b ctx g.backend

  unfoldable pub stats : Ctx → Guard → Result Stats
  stats ctx g = Backend.stats b ctx g.backend
