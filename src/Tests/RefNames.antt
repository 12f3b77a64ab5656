-- ===== src/Tests/RefNames.antt =====
-- Reference names: cas/refs/refs.go.
use go_cask.Common.{◌≡◌, refl, [], ◌∷◌, Bytes, bytes_eq, contains}
use go_cask.Errors.{err, ok}
use go_cask.RefName.{
  invalid_name, split_slash, has_control, stem, bad_part, check_parts, validate_name,
}
use go_cask.RefName.Inside.{join_slash, AllInside, validate_name-AllInside}

-- "a/b" and "../b".
abbrev a_b : Bytes
a_b = b'a' ∷ b'/' ∷ b'b' ∷ []

abbrev up_b : Bytes
up_b = b'.' ∷ b'.' ∷ b'/' ∷ b'b' ∷ []

accepted : validate_name a_b ≡ ok tt
unfolding validate_name check_parts bad_part stem split_slash has_control contains bytes_eq
accepted = refl

refused : validate_name up_b ≡ err invalid_name
unfolding validate_name check_parts bad_part stem split_slash has_control contains bytes_eq
refused = refl

validate_name-AllInside_example : (join_slash (split_slash a_b) ≡ a_b) × AllInside (split_slash a_b)
validate_name-AllInside_example = validate_name-AllInside a_b accepted
