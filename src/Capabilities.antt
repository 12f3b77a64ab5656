-- ===== src/Capabilities.antt =====
-- cas/capabilities.go: what a backend can do beyond the minimal interface. That the backend is a
-- `Cleaner` is a flag, that it is a `Statter` the function that it then has.
use go_cask.Common.{ℕ, ◌≡◌, refl, Bool, true, false, Option, none, some, List, ◌==◌, Bytes}
use go_cask.Errors.{Result, unsupported, wrap, err}
use go_cask.Digest.{Digest}
use go_cask.Backend.{Ctx, is_some, Backend}
use go_cask.Sweep.{SweepOptions, chosen_statter, marked, sweep}

pub record Capabilities : Type 0 where
  pub verify : Bool
  pub sweep : Bool
  pub clean : Bool
  pub stat : Bool

unfoldable pub capabilities_of :
    {S : Type 0} → Bool → Option (Ctx → Digest → S → Result ℕ) → Capabilities
capabilities_of cleaner statter = record {
  verify = true;
  sweep = true;
  clean = cleaner;
  stat = is_some statter;
}

-- A sweep with a minimal age is refused as unsupported, with nothing changed, where `Stat` is not
-- reported.
sweep-unsupported :
    (b : Backend) (cleaner : Bool) (mod_time : Option (Ctx → Digest → Backend.State b → Result ℕ))
    (ctx : Ctx) (errs : ℕ → Ctx) (live : List Bytes) (opts : SweepOptions) (now : ℕ)
    (s : Backend.State b)
    → (opts.min_age == 0) ≡ false
    → Capabilities.stat (capabilities_of cleaner mod_time) ≡ false
    → sweep b mod_time ctx errs live opts now s ≡ (err (wrap unsupported), s)
unfolding capabilities_of sweep marked chosen_statter
sweep-unsupported b cleaner none ctx errs live opts now s h k =
    rw (h, sweep, marked, chosen_statter) refl
sweep-unsupported b cleaner (some ask) ctx errs live opts now s h k = cc
