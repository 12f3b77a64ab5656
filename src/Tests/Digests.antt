-- ===== src/Tests/Digests.antt =====
-- Digests: cas/digest.go.
use go_cask.Common.{◌≡◌, refl, ◌↔◌, [], ◌∷◌, AreBytes}
use go_cask.Errors.{invalid_digest, wrap, err, ok}
use go_cask.Digest.{
  Digest, hex_encode, string, all_lower_hex, is_lower_hex, unmarshal_text, parse_digest,
}
use go_cask.Digest.Text.{parse_digest-IsDigestText, IsDigestText}
use go_cask.Tests.Data.{short_digest, short_text}

string_short : string short_digest ≡ short_text
unfolding string hex_encode
string_short = refl

parse_upper : parse_digest (48 ∷ 65 ∷ []) ≡ err (wrap invalid_digest)
unfolding parse_digest unmarshal_text is_lower_hex all_lower_hex
parse_upper = refl

parse_digest-IsDigestText_example :
    IsDigestText short_text
    ↔ ((d : Digest) × (parse_digest short_text ≡ ok d) × (string d ≡ short_text) × AreBytes d)
parse_digest-IsDigestText_example = parse_digest-IsDigestText short_text
