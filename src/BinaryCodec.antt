-- ===== src/BinaryCodec.antt =====
-- cas/codec/binary/binary.go: a codec stack around an inner codec, or a raw codec of the caller's.
pub mod RoundTrip
use go_cask.Common.{Option, none, some, [], ◌∷◌, ◌++◌, ◌==◌, if◌then◌else◌, is_empty, Bytes}
use go_cask.Errors.{is, ◌>>=◌, ◌>>◌, Error, Result, other, err, ok}

-- `cas.Codec[T]` with the tag of `CodecNamer`, empty where it declares none.
pub record Inner (T : Type 0) : Type 0 where
  pub encode : T → Result Bytes
  pub decode : Bytes → Result T
  pub codec_name : Bytes

-- A function field that is nil is `none`.
pub record Codec (T : Type 0) : Type 0 where
  pub next : Option (Inner T)
  pub transform : Option (Bytes → Result Bytes)
  pub restore : Option (Bytes → Result Bytes)
  pub raw_encode : Option (T → Result Bytes)
  pub raw_decode : Option (Bytes → Result T)

unfoldable pub new_codec :
    {T : Type 0}
    → Option (Inner T)
    → Option (Bytes → Result Bytes)
    → Option (Bytes → Result Bytes)
    → Codec T
new_codec next transform restore = record {
  next = next;
  transform = transform;
  restore = restore;
  raw_encode = none;
  raw_decode = none;
}

unfoldable pub new_raw :
    {T : Type 0} → Option (T → Result Bytes) → Option (Bytes → Result T) → Codec T
new_raw encode decode = record {
  next = none;
  transform = none;
  restore = none;
  raw_encode = encode;
  raw_decode = decode;
}

-- `errNilEncode` and `errNilDecode`.
abbrev pub nil_encode : Error
nil_encode = other 20

abbrev pub nil_decode : Error
nil_decode = other 21

-- `if f == nil { return err }`.
abbrev pub given : {F : Type 0} → Option F → Error → Result F
given none e = err e
given (some f) e = ok f

-- "binary".
abbrev pub binary_tag : Bytes
binary_tag = b'b' ∷ b'i' ∷ b'n' ∷ b'a' ∷ b'r' ∷ b'y' ∷ []

-- cas/codec/internal/bounded/bounded.go: `ComposeTag`.
unfoldable pub compose_tag : Bytes → Bytes → Bytes
compose_tag name inner = if is_empty inner then [] else name ++ (b'+' ∷ inner)

module _ {T : Type 0} (c : Codec T) where
  unfoldable pub encode : T → Result Bytes
  encode v = elim c.next [
    | some next ↦ do
      transform ← given c.transform nil_encode
      payload ← Inner.encode next v
      transform payload
    | none ↦ do raw ← given c.raw_encode nil_encode; raw v
  ]

  unfoldable pub decode : Bytes → Result T
  decode content = elim c.next [
    | some next ↦ do
      restore ← given c.restore nil_decode
      payload ← restore content
      Inner.decode next payload
    | none ↦ do raw ← given c.raw_decode nil_decode; raw content
  ]

  unfoldable pub codec_name : Bytes
  codec_name = elim c.next [
    | none ↦ binary_tag
    | some next ↦ compose_tag binary_tag (Inner.codec_name next)
  ]
