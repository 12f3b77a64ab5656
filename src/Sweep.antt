-- ===== src/Sweep.antt =====
-- cas/sweep.go: mark-and-sweep reclamation over any backend. Times and ages are plain numbers of
-- nanoseconds: an object is too young where less than the minimal age lies between its time and now.
pub mod Exact
pub mod Marks
use go_cask.Common.{
  ℕ, suc, ◌+◌, Bool, true, false, not, ◌||◌, Option, none, some, List, [], ◌∷◌, ltb, ◌==◌,
  if◌then◌else◌, Bytes,
}
use go_cask.Common.Assoc.{elem}
use go_cask.Errors.{is, ◌>>=◌, ◌>>◌, Result, not_found, invalid_digest, unsupported, wrap, err, ok}
use go_cask.Digest.{Digest, string}
use go_cask.Backend.{Ctx, check_ctx, Effect, unless, Backend}

pub record SweepOptions : Type 0 where
  pub dry_run : Bool
  pub min_age : ℕ

-- The second loop. The context may end while it runs: `errs` lists what ctx.Err() gives, at each check
-- and during the deletion behind it.
module _ (b : Backend) where
  unfoldable pub delete_all : (ℕ → Ctx) → List Digest → Backend.State b → Effect (Backend.State b)
  delete_all errs [] s = (none, s)
  delete_all errs (d ∷ ds) s = elim (check_ctx (errs 0)) [
    | err e ↦ (some e, s)
    | ok _ ↦
        let (failure, s') = Backend.delete b (errs 1) d s in
        elim failure [ some e ↦ (some e, s') | none ↦ delete_all (λ i. errs (suc (suc i))) ds s' ]
  ]

-- `mod_time`: the `Statter` that the backend may be. `ctx` is what ctx.Err() gives while candidates are
-- collected.
module _ (b : Backend) (mod_time : Option (Ctx → Digest → Backend.State b → Result ℕ))
    (ctx : Ctx) where
  -- The statter that is asked: none unless there is a minimal age.
  unfoldable pub chosen_statter : ℕ → Result (Option (Ctx → Digest → Backend.State b → Result ℕ))
  chosen_statter min_age =
      if min_age == 0
      then ok none
      else elim mod_time [ none ↦ err (wrap unsupported) | some ask ↦ ok (some ask) ]

  -- Whether the object is skipped for its age, or because it is gone or cannot be addressed.
  unfoldable pub is_young :
      Option (Ctx → Digest → Backend.State b → Result ℕ)
      → ℕ
      → ℕ
      → Digest
      → Backend.State b
      → Result Bool
  is_young none min_age now d s = ok false
  is_young (some ask) min_age now d s = elim (ask ctx d s) [
    | ok time ↦ ok (ltb now (time + min_age))
    | err e ↦ if is not_found e || is invalid_digest e then ok true else err e
  ]

  module _ (statter : Option (Ctx → Digest → Backend.State b → Result ℕ)) (min_age now : ℕ)
      (live : List Bytes) where
    -- One turn of the first loop: whether `d` is appended to `doomed`.
    unfoldable pub is_doomed : Digest → Backend.State b → Result Bool
    is_doomed d s = elim (check_ctx ctx) [
      | err e ↦ err e
      | ok _ ↦ elim (elem (string d) live) [
        | true ↦ ok false
        | false ↦ elim (Backend.exists b ctx d s) [
          | err e ↦ if is invalid_digest e then ok false else err e
          | ok false ↦ ok false
          | ok true ↦ is_young statter min_age now d s >>= λ young. ok (not young)
        ]
      ]
    ]

    unfoldable pub collect : List Digest → Backend.State b → Result (List Digest)
    collect [] s = ok []
    collect (d ∷ ds) s = do
      doomed ← is_doomed d s
      rest ← collect ds s
      ok (if doomed then d ∷ rest else rest)

  unfoldable pub marked : List Bytes → ℕ → ℕ → Backend.State b → Result (List Digest)
  marked live min_age now s = do
    statter ← chosen_statter min_age
    digests ← Backend.list b ctx s
    collect statter min_age now live digests s

  unfoldable pub sweep :
      (ℕ → Ctx)
      → List Bytes
      → SweepOptions
      → ℕ
      → Backend.State b
      → Result (List Digest) × Backend.State b
  sweep errs live opts now s = elim (marked live opts.min_age now s) [
    | err e ↦ (err e, s)
    | ok doomed ↦ elim opts.dry_run [
      | true ↦ (ok doomed, s)
      | false ↦ let (failure, s') = delete_all b errs doomed s in (unless failure doomed, s')
    ]
  ]
