-- ===== src/Header.antt =====
-- cas/envelope.go: `Header` and `HeaderType`, the bounded read of a stored object's header.
use go_cask.Common.{
  ℕ, ◌≡◌, refl, sym, ap, ◌∙◌, inl, inr, false, Option, none, some, [], ◌∷◌, ◌++◌, append-nil, leb,
  Bool-cases, length, drop, take-append-drop, Bytes,
}
use go_cask.Errors.{◌>>=◌, >>=-eq-ok, Result, ok}
use go_cask.Digest.{Digest, is_zero, decoded}
use go_cask.Reader.{new_reader, limit_reader, Reader}
use go_cask.ReadClose.{prefixed, read_then_close, read_then_close-ok_iff, close_wins}
use go_cask.Backend.{Ctx, found, Backend, BackendLaws}
use go_cask.Envelope.{decode_header}
use go_cask.Envelope.Peek.{header_prefix_limit, peek_header}
use go_cask.Envelope.Extend.{decode_header-append}
use go_cask.Envelope.Streams.{peek_header-decode_header}

-- What `Header` reads from the bounded stream: `headerFields`.
unfoldable pub header_fields : Reader → Result (ℕ × Bytes × Bytes)
header_fields r = do
  (version, codec, type_name, _) ← peek_header (limit_reader r header_prefix_limit)
  ok (version, codec, type_name)

module _ (b : Backend) (ctx : Ctx) where
  unfoldable pub header : Digest → Backend.State b → Result (ℕ × Bytes × Bytes)
  header d s = do
    rc ← Backend.get b ctx d s
    read_then_close rc header_fields close_wins prefixed prefixed

  unfoldable pub header_type : Digest → Backend.State b → Result Bytes
  header_type d s = do (_, _, type_name) ← header d s; ok type_name

-- A limited stream has a prefix of the bytes.
limit_reader-prefix :
    (r : Reader) (n : ℕ) → (tail : Bytes) × (r.content ≡ (limit_reader r n).content ++ tail)
unfolding limit_reader
limit_reader-prefix r n = elim (Bool-cases (leb n (length r.content))) [
  | inl q ↦ (drop n r.content, rw (q, limit_reader) (sym (take-append-drop n r.content)))
  | inr q ↦ ([], rw (q, limit_reader) (sym (append-nil r.content)))
]

ok-injective {ℓ} : {A : Type ℓ} {a b : A} → ok a ≡ ok b → a ≡ b
ok-injective h = cc

header_fields-decode_header :
    (r : Reader) {version : ℕ} {codec typ : Bytes}
    → header_fields r ≡ ok (version, codec, typ)
    → (rest behind : Bytes) × (r.content ≡ version ∷ rest)
      × (decode_header r.content ≡ ok (codec, typ, behind))
unfolding header_fields
header_fields-decode_header r h =
    let (fields, peeked, same) = >>=-eq-ok (peek_header (limit_reader r header_prefix_limit)) _ h in
    let (rest, start, decoded) =
      peek_header-decode_header (limit_reader r header_prefix_limit) peeked in
    let (tail, joined) = limit_reader-prefix r header_prefix_limit in
    let eq = ok-injective same in
    (
      rest ++ tail,
      fields.3.content ++ tail,
      joined ∙ ap (λ t. t ++ tail) start ∙ ap (λ p. p.0 ∷ (rest ++ tail)) eq,
      ap decode_header joined
          ∙ decode_header-append _ tail decoded
          ∙ ap (λ p. ok (p.1, p.2, fields.3.content ++ tail)) eq,
    )

found-inv :
    (o : Option Bytes) {rc : Reader}
    → found o ≡ ok rc
    → (content : Bytes) × (o ≡ some content) × (content ≡ rc.content)
found-inv none h = cc
found-inv (some content) {rc} h =
    let same : new_reader content ≡ rc = cc in (content, refl, ap (λ (t : Reader). t.content) same)

-- A header that `Header` reports is the one that the buffer reader decodes from the object's bytes,
-- with the version byte in front, on every backend that keeps its contract.
pub header-decode_header :
    (b : Backend) (laws : BackendLaws b) (d : Digest) (s : Backend.State b) {version : ℕ}
    {codec typ : Bytes}
    → BackendLaws.IsValid laws s
    → is_zero d ≡ false
    → header b none d s ≡ ok (version, codec, typ)
    → (content rest behind : Bytes) × (BackendLaws.view laws s d ≡ some content)
      × (content ≡ version ∷ rest)
      × (decode_header content ≡ ok (codec, typ, behind))
unfolding header
header-decode_header b laws d s v present h =
    let (rc, got, h₁) = >>=-eq-ok (Backend.get b none d s) _ h in
    let (read, closed) =
      (read_then_close-ok_iff rc header_fields close_wins prefixed prefixed _).0 h₁ in
    let (rest, behind, start, decoded) = header_fields-decode_header rc read in
    let (content, held, same) =
      found-inv (BackendLaws.view laws s d) (sym (BackendLaws.get_lem laws d s v present) ∙ got) in
    (content, rest, behind, held, same ∙ start, ap decode_header same ∙ decoded)
