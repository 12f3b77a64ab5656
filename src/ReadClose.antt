-- ===== src/ReadClose.antt =====
-- cas/readclose.go: read an object, close its reader, and report one failure.
use go_cask.Common.{◌≡◌, refl, ◌↔◌, Option, none, some}
use go_cask.Errors.{Error, Result, ok, err}
use go_cask.Reader.{Reader}

pub data CloseOrder : Type 0 where
  read_wins close_wins : CloseOrder

-- A nil renderer leaves the error as it is.
unfoldable pub render : Option (Error → Error) → Error → Error
render none e = e
render (some render_err) e = render_err e

-- `wrap(prefix)`: the message changes, the chain of the error does not.
abbrev pub prefixed : Option (Error → Error)
prefixed = some (λ e. e)

-- The deferred close, on the outcome of the read.
unfoldable pub close_outcome {ℓ} :
    {A : Type ℓ} → CloseOrder → Option (Error → Error) → Option Error → Result A → Result A
close_outcome close_wins close_err (some cerr) outcome = err (render close_err cerr)
close_outcome close_wins close_err none outcome = outcome
close_outcome read_wins close_err (some cerr) (ok v) = err (render close_err cerr)
close_outcome read_wins close_err (some cerr) (err e) = err e
close_outcome read_wins close_err none outcome = outcome

-- What the body returns before the deferred close.
abbrev pub rendered {ℓ} : {A : Type ℓ} → Option (Error → Error) → Result A → Result A
rendered read_err (ok v) = ok v
rendered read_err (err e) = err (render read_err e)

unfoldable pub read_then_close {ℓ} :
    {A : Type ℓ}
    → Reader
    → (Reader → Result A)
    → CloseOrder
    → Option (Error → Error)
    → Option (Error → Error)
    → Result A
read_then_close rc read order read_err close_err =
    close_outcome order close_err rc.closing (rendered read_err (read rc))

nothing : {e : Error} → some e ≡ none → ⊥
nothing h = cc

close_outcome-ok_iff {ℓ} :
    {A : Type ℓ} (order : CloseOrder) (close_err : Option (Error → Error)) (closing : Option Error)
    (outcome : Result A) (v : A)
    → (close_outcome order close_err closing outcome ≡ ok v) ↔ ((outcome ≡ ok v) × (closing ≡ none))
unfolding close_outcome
close_outcome-ok_iff close_wins f (some e) outcome v = ((λ h. cc), λ h. absurd (nothing h.1))
close_outcome-ok_iff close_wins f none outcome v = ((λ h. (h, refl)), λ h. h.0)
close_outcome-ok_iff read_wins f (some e) (ok a) v = ((λ h. cc), λ h. absurd (nothing h.1))
close_outcome-ok_iff read_wins f (some e) (err e') v = ((λ h. cc), λ h. absurd (nothing h.1))
close_outcome-ok_iff read_wins f none (ok a) v = ((λ h. (h, refl)), λ h. h.0)
close_outcome-ok_iff read_wins f none (err e') v = ((λ h. (h, refl)), λ h. h.0)

rendered-ok_iff {ℓ} :
    {A : Type ℓ} (f : Option (Error → Error)) (r : Result A) (v : A)
    → (rendered f r ≡ ok v) ↔ (r ≡ ok v)
rendered-ok_iff f (ok a) v = ((λ h. h), λ h. h)
rendered-ok_iff f (err e) v = ((λ h. cc), λ h. cc)

-- A value is returned exactly if both the read and the close succeeded, whatever the order, and then
-- it is the value that was read.
pub read_then_close-ok_iff {ℓ} :
    {A : Type ℓ} (rc : Reader) (read : Reader → Result A) (order : CloseOrder)
    (read_err close_err : Option (Error → Error)) (v : A)
    → (read_then_close rc read order read_err close_err ≡ ok v)
      ↔ ((read rc ≡ ok v) × (rc.closing ≡ none))
unfolding read_then_close
read_then_close-ok_iff rc read order read_err close_err v =
    let closed = close_outcome-ok_iff order close_err rc.closing (rendered read_err (read rc)) v in
    let same = rendered-ok_iff read_err (read rc) v in
    (λ h. (same.0 (closed.0 h).0, (closed.0 h).1), λ h. closed.1 (same.1 h.0, h.1))

-- Where both fail, the order decides whose error is reported.
pub read_then_close_both {ℓ} :
    {A : Type ℓ} (rc : Reader) (read : Reader → Result A)
    (read_err close_err : Option (Error → Error)) (rerr cerr : Error)
    → read rc ≡ err rerr
    → rc.closing ≡ some cerr
    → (read_then_close rc read read_wins read_err close_err ≡ err (render read_err rerr))
      × (read_then_close rc read close_wins read_err close_err ≡ err (render close_err cerr))
unfolding read_then_close close_outcome
read_then_close_both rc read read_err close_err rerr cerr r c =
    (rw (r, c, close_outcome) refl, rw (r, c, close_outcome) refl)
