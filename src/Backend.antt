-- ===== src/Backend.antt =====
-- cas/backend.go and cas/stats.go: the storage interface, as a record of operations on a state, and
-- the laws that its contract promises.
use go_cask.Common.{
  ℕ, ◌≡◌, refl, Bool, true, false, Option, none, some, List, [], if◌then◌else◌, Bytes, bytes_eq,
}
use go_cask.Common.Assoc.{elem}
use go_cask.Errors.{fail_if-eq-ok, Error, Result, not_found, invalid_digest, wrap, ok, err}
use go_cask.Digest.{Digest, is_zero, check_digest}
use go_cask.Reader.{new_reader, read_all, Reader}

-- `ctx.Err()` while an operation runs: `none` for a live context.
abbrev pub Ctx : Type 0
Ctx = Option Error

-- `if err := ctx.Err(); err != nil { return err }`.
abbrev pub check_ctx : Ctx → Result (Unit {0})
check_ctx none = ok tt
check_ctx (some e) = err e

pub record Stats : Type 0 where
  pub total_size : ℕ
  pub object_count : ℕ

-- An operation that returns an `error` gives `none` for nil, and the state that it leaves.
abbrev pub Effect : Type 0 → Type 0
Effect S = Option Error × S

-- `cas.Backend`.
pub record Backend : Type 1 where
  pub State : Type 0
  pub put : Ctx → Digest → Reader → State → Effect State
  pub get : Ctx → Digest → State → Result Reader
  pub exists : Ctx → Digest → State → Result Bool
  pub delete : Ctx → Digest → State → Effect State
  pub list : Ctx → State → Result (List Digest)
  pub stats : Ctx → State → Result Stats

-- What `Get` of an intact object gives: a reader over the stored bytes, or `ErrNotFound`.
abbrev pub found : Option Bytes → Result Reader
found none = err (wrap not_found)
found (some content) = ok (new_reader content)

abbrev pub is_some {ℓ} : {A : Type ℓ} → Option A → Bool
is_some none = false
is_some (some a) = true

-- `if err := …; err != nil { return err }` in an operation that leaves the state `s` on an error.
abbrev pub or_fail : {A S : Type 0} → Result A → S → (A → Effect S) → Effect S
or_fail (ok a) s k = k a
or_fail (err e) s k = (some e, s)

-- `if err := …; err != nil { return …, err }; return a, nil`.
abbrev pub unless {ℓ} : {A : Type ℓ} → Option Error → A → Result A
unless none a = ok a
unless (some e) a = err e

-- The contract of a backend whose devices do not fail: it is a map from digests to bytes. `view` is that map, and `IsValid` what the
-- implementation keeps true of its state.
pub record BackendLaws (b : Backend) : Type 1 where
  pub IsValid : Backend.State b → Type 0
  pub view : Backend.State b → Digest → Option Bytes
  -- Nothing is stored under the absent digest.
  pub absent : (s : Backend.State b) → IsValid s → view s [] ≡ none
  pub get_lem :
      (d : Digest) (s : Backend.State b)
      → IsValid s
      → is_zero d ≡ false
      → Backend.get b none d s ≡ found (view s d)
  pub exists_lem :
      (d : Digest) (s : Backend.State b)
      → IsValid s
      → is_zero d ≡ false
      → Backend.exists b none d s ≡ ok (is_some (view s d))
  -- A put that returns nil has stored the whole stream, under its digest alone.
  pub put_done :
      (ctx : Ctx) (d : Digest) (r : Reader) (s : Backend.State b)
      → IsValid s
      → (Backend.put b ctx d r s).0 ≡ none
      → (read_all r ≡ ok r.content)
        × IsValid (Backend.put b ctx d r s).1
        × ((j : Digest)
            → view (Backend.put b ctx d r s).1 j
              ≡ (if bytes_eq d j then some r.content else view s j))
  -- A put that fails changes nothing.
  pub put_failed :
      (ctx : Ctx) (d : Digest) (r : Reader) (s : Backend.State b) (e : Error)
      → (Backend.put b ctx d r s).0 ≡ some e
      → (Backend.put b ctx d r s).1 ≡ s
  -- A delete on a live context removes the one object, or finds nothing to remove.
  pub delete_lem :
      (d : Digest) (s : Backend.State b)
      → IsValid s
      → is_zero d ≡ false
      → ((Backend.delete b none d s).0 ≡ none)
        × IsValid (Backend.delete b none d s).1
        × ((j : Digest)
            → view (Backend.delete b none d s).1 j ≡ (if bytes_eq d j then none else view s j))
  pub list_lem :
      (s : Backend.State b)
      → IsValid s
      → (ds : List Digest) × (Backend.list b none s ≡ ok ds)
        × ((d : Digest) → elem d ds ≡ is_some (view s d))

-- Where an operation stops at an error it leaves its state; where it goes on, the rest decides.
pub or_fail-keeps {κ} :
    {A S : Type 0} (P : S → Type κ) (r : Result A) (s : S) (k : A → Effect S)
    → P s
    → ((a : A) → r ≡ ok a → P (k a).1)
    → P (or_fail r s k).1
or_fail-keeps P (ok a) s k p h = h a refl
or_fail-keeps P (err e) s k p h = p

pub or_fail-done :
    {A S : Type 0} (r : Result A) (s : S) (k : A → Effect S)
    → (or_fail r s k).0 ≡ none
    → (a : A) × (r ≡ ok a) × (or_fail r s k ≡ k a)
or_fail-done (ok a) s k h = (a, refl, refl)
or_fail-done (err e) s k h = cc

pub or_fail-failed :
    {A S : Type 0} (r : Result A) (s : S) (k : A → Effect S) {e : Error}
    → ((a : A) → (k a).0 ≡ some e → (k a).1 ≡ s)
    → (or_fail r s k).0 ≡ some e
    → (or_fail r s k).1 ≡ s
or_fail-failed (ok a) s k keep h = keep a h
or_fail-failed (err e) s k keep h = refl

pub check_digest-eq-ok : (d : Digest) {u : Unit {0}} → check_digest d ≡ ok u → is_zero d ≡ false
unfolding check_digest
check_digest-eq-ok d h = fail_if-eq-ok (is_zero d) (wrap invalid_digest) h

pub check_digest_present : (d : Digest) → is_zero d ≡ false → check_digest d ≡ ok tt
unfolding check_digest
check_digest_present d h = rw h
