-- ===== src/Errors.antt =====
-- cas/errors.go: the sentinel errors, error values as `errors.Is` sees them, and results.
-- Of an error value the model keeps the sentinels on its chain and drops the message text.
use go_cask.Common.{ℕ, Bool, true, false, ◌||◌, ◌==◌, ◌≡◌, refl, ◌⊎◌, inl, inr}

-- The sentinels of the package, of `io` and of `context`.
pub data Sentinel : Type 0 where
  not_found digest_mismatch invalid_digest unknown_type corrupt codec_mismatch unsupported :
      Sentinel
  eof unexpected_eof canceled deadline_exceeded : Sentinel

-- `wrap s` is the sentinel, or `fmt.Errorf("… %w", s)`; `wrap_cause` wraps two errors (`%w: … %w`);
-- `other` is an error with no sentinel on its chain, told apart by a number.
pub data Error : Type 0 where
  wrap : Sentinel → Error
  wrap_cause : Error → Error → Error
  other : ℕ → Error

-- `binary.overflow`, told apart from the errors that the program itself composes.
abbrev pub overflow : Error
overflow = other 0

abbrev rank : Sentinel → ℕ
rank not_found = 0
rank digest_mismatch = 1
rank invalid_digest = 2
rank unknown_type = 3
rank corrupt = 4
rank codec_mismatch = 5
rank unsupported = 6
rank eof = 7
rank unexpected_eof = 8
rank canceled = 9
rank deadline_exceeded = 10

-- `errors.Is(e, s)`.
unfoldable pub is : Sentinel → Error → Bool
is s (wrap t) = rank s == rank t
is s (wrap_cause a b) = is s a || is s b
is s (other n) = false

-- What a function that returns `(A, error)` gives: one of the two.
pub data Result {ℓ} (A : Type ℓ) : Type ℓ where
  err : Error → Result A
  ok : A → Result A

infixl 5 ◌>>=◌ ◌>>◌
-- `a, err := …; if err != nil { return err }`, and what follows it.
abbrev pub ◌>>=◌ {κ κ'} : {A : Type κ} {B : Type κ'} → Result A → (A → Result B) → Result B
err failure >>= next = err failure
ok value >>= next = next value

-- `if b { return err }`.
abbrev pub fail_if : Bool → Error → Result (Unit {0})
fail_if true e = err e
fail_if false e = ok tt

abbrev pub ◌>>◌ {κ} : {B : Type κ} → Result (Unit {0}) → Result B → Result B
first >> second = first >>= λ done. second

pub Result-cases {ℓ} :
    {A : Type ℓ} (r : Result A) → ((a : A) × (r ≡ ok a)) ⊎ ((e : Error) × (r ≡ err e))
Result-cases (ok a) = inl (a, refl)
Result-cases (err e) = inr (e, refl)

-- A chain that succeeds is a chain of steps that succeed.
pub >>=-eq-ok {κ κ'} :
    {A : Type κ} {B : Type κ'} (first : Result A) (next : A → Result B) {result : B}
    → (first >>= next) ≡ ok result
    → (value : A) × (first ≡ ok value) × (next value ≡ ok result)
>>=-eq-ok (err failure) next h = cc
>>=-eq-ok (ok value) next h = (value, refl, h)

pub fail_if-eq-ok : (b : Bool) (e : Error) {u : Unit {0}} → fail_if b e ≡ ok u → b ≡ false
fail_if-eq-ok true e h = cc
fail_if-eq-ok false e h = refl
