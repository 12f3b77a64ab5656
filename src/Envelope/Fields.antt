-- ===== src/Envelope/Fields.antt =====
-- The fields of a header that is read: their length prefix, and what the prefix measures.
use go_cask.Common.{
  ℕ, ◌≤◌, ◌≡◌, refl, sym, ap, ◌∙◌, ◌≢◌, inl, inr, some, ◌++◌, arith, Option-cases, length, take,
  drop, length-append, take-append_left, drop-append_left, Bytes,
}
use go_cask.Errors.{ok}
use go_cask.Varint.{uvarint}
use go_cask.Varint.RoundTrip.{uvarint_from-append}
use go_cask.Envelope.{codec_field, type_field, payload_field}
use go_cask.Envelope.RoundTrip.{codec_field-some, type_field-some, payload_field-some}

-- `name` is announced by a varint at the start of `rest`, and `behind` follows it.
pub record IsField (rest name behind : Bytes) : Type 0 where
  pub size : ℕ
  pub after : Bytes
  pub announced : uvarint rest ≡ some (size, after)
  pub fits : size ≤ length after
  pub name_is : name ≡ take size after
  pub behind_is : behind ≡ drop size after

pub codec_field-IsField :
    (rest : Bytes) {name behind : Bytes}
    → codec_field rest ≡ ok (name, behind)
    → IsField rest name behind
unfolding codec_field
codec_field-IsField rest {name} {behind} h = elim (Option-cases (uvarint rest)) [
  | inl u ↦ absurd (ground arith)
  | inr (q, u) ↦ record {
    size = q.0;
    after = q.1;
    announced = u;
    fits = ground arith;
    name_is = ground arith;
    behind_is = ground arith;
  }
]

type_field-ne :
    (rest : Bytes) {name behind : Bytes} {size : ℕ} {after : Bytes}
    → type_field rest ≡ ok (name, behind)
    → uvarint rest ≡ some (size, after)
    → (size ≢ 0) × (size ≤ length after) × (name ≡ take size after) × (behind ≡ drop size after)
unfolding type_field
type_field-ne rest h u = ground arith

-- A type field is a field that is not empty.
pub type_field-IsField :
    (rest : Bytes) {name behind : Bytes}
    → type_field rest ≡ ok (name, behind)
    → (f : IsField rest name behind) × (f.size ≢ 0)
type_field-IsField rest {name} {behind} h = elim (Option-cases (uvarint rest)) [
  | inl u ↦ absurd (unfold type_field in ground arith)
  | inr (q, u) ↦
      let (ne, fits, n, b) = type_field-ne rest {size = q.0} {after = q.1} h u in
      (
        record { size = q.0; after = q.1; announced = u; fits = fits; name_is = n; behind_is = b },
        ne,
      )
]

pub IsField-codec_field :
    {rest name behind : Bytes} → IsField rest name behind → codec_field rest ≡ ok (name, behind)
IsField-codec_field {rest} f =
    rw (f.name_is, f.behind_is) (codec_field-some rest f.announced f.fits)

pub IsField-type_field :
    {rest name behind : Bytes} (f : IsField rest name behind)
    → f.size ≢ 0
    → type_field rest ≡ ok (name, behind)
IsField-type_field {rest} f ne =
    rw (f.name_is, f.behind_is) (type_field-some rest f.announced ne f.fits)

-- What follows the bytes changes neither the field nor its length.
pub IsField-append :
    {rest name behind : Bytes} (tail : Bytes)
    → (f : IsField rest name behind)
    → (g : IsField (rest ++ tail) name (behind ++ tail)) × (g.size ≡ f.size)
IsField-append {rest} tail f = (
  record {
    size = f.size;
    after = f.after ++ tail;
    announced = uvarint_from-append rest 0 0 1 tail f.announced;
    fits = omega (arith, f.fits, length-append f.after tail);
    name_is = f.name_is ∙ sym (take-append_left f.size f.after tail f.fits);
    behind_is = ap (λ t. t ++ tail) f.behind_is ∙ sym (drop-append_left f.size f.after tail f.fits);
  },
  refl,
)

pub payload_field-inv :
    (rest : Bytes) {payload : Bytes}
    → payload_field rest ≡ ok payload
    → (behind : Bytes) × IsField rest payload behind
payload_field-inv rest {payload} h = elim (Option-cases (uvarint rest)) [
  | inl u ↦ absurd (unfold payload_field in ground arith)
  | inr (q, u) ↦ (
    drop q.0 q.1,
    record {
      size = q.0;
      after = q.1;
      announced = u;
      fits = unfold payload_field in ground arith;
      name_is = unfold payload_field in ground arith;
      behind_is = refl;
    },
  )
]

pub IsField-payload_field :
    {rest payload behind : Bytes} → IsField rest payload behind → payload_field rest ≡ ok payload
IsField-payload_field {rest} f = rw f.name_is (payload_field-some rest f.announced f.fits)
