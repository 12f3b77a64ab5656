-- ===== src/RefName.antt =====
-- cas/refs/refs.go: the names under which references are stored. The refs themselves are files.
pub mod Inside
use go_cask.Common.{
  ℕ, ◌+◌, ◌-◌, ◌*◌, ◌<◌, Bool, false, ◌&&◌, ◌||◌, List, [], ◌∷◌, ltb, leb, ◌==◌, if◌then◌else◌,
  is_empty, length, take, drop, Bytes, bytes_eq, contains,
}
use go_cask.Errors.{is, ◌>>=◌, fail_if, ◌>>◌, Error, Result, other, ok}

-- `ErrInvalidName`.
abbrev pub invalid_name : Error
invalid_name = other 60

abbrev pub starts_with : Bytes → Bytes → Bool
starts_with p s = bytes_eq (take (length p) s) p

abbrev pub ends_with : Bytes → Bytes → Bool
ends_with p s = leb (length p) (length s) && bytes_eq (drop (length s - length p) s) p

-- `strings.SplitSeq(name, "/")`.
abbrev pub push_front : ℕ → List Bytes → List Bytes
push_front x [] = (x ∷ []) ∷ []
push_front x (part ∷ parts) = (x ∷ part) ∷ parts

unfoldable pub split_slash : Bytes → List Bytes
split_slash [] = [] ∷ []
split_slash (x ∷ name) =
    let rest = split_slash name in if x == b'/' then [] ∷ rest else push_front x rest

unfoldable pub has_control : Bytes → Bool
has_control [] = false
has_control (x ∷ name) = ltb x 32 || x == 127 || has_control name

-- `strings.SplitN(part, ".", 2)[0]`, in lower case.
unfoldable pub stem : Bytes → Bytes
stem [] = []
stem (x ∷ part) =
    let rest = stem part in
    if x == b'.' then [] else (if leb b'A' x && leb x b'Z' then x + 32 else x) ∷ rest

abbrev pub any_of : List Bytes → Bytes → Bool
any_of [] s = false
any_of (name ∷ names) s = bytes_eq name s || any_of names s

-- `windowsReservedNames`: the devices, and COM0 to COM9 and LPT0 to LPT9.
abbrev pub is_device : Bytes → Bool
is_device s =
    any_of
      ((b'c' ∷ b'o' ∷ b'n' ∷ [])
        ∷ (b'p' ∷ b'r' ∷ b'n' ∷ [])
        ∷ (b'a' ∷ b'u' ∷ b'x' ∷ [])
        ∷ (b'n' ∷ b'u' ∷ b'l' ∷ [])
        ∷ [])
      s
    || (length s == 4
        && (starts_with (b'c' ∷ b'o' ∷ b'm' ∷ []) s || starts_with (b'l' ∷ b'p' ∷ b't' ∷ []) s)
        && any_of
            ((b'0' ∷ [])
              ∷ (b'1' ∷ [])
              ∷ (b'2' ∷ [])
              ∷ (b'3' ∷ [])
              ∷ (b'4' ∷ [])
              ∷ (b'5' ∷ [])
              ∷ (b'6' ∷ [])
              ∷ (b'7' ∷ [])
              ∷ (b'8' ∷ [])
              ∷ (b'9' ∷ [])
              ∷ [])
            (drop 3 s))

-- `strings.ContainsAny(part, windowsReservedChars)`: < > : " | ? * and the backslash, 92.
abbrev pub has_reserved : Bytes → Bool
has_reserved part =
    contains 60 part
    || contains 62 part
    || contains 58 part
    || contains 34 part
    || contains 124 part
    || contains 63 part
    || contains 42 part
    || contains 92 part

-- The cases of the switch; each of them is `ErrInvalidName`.
unfoldable pub bad_part : Bytes → Bool
bad_part part =
    is_empty part
    || bytes_eq part (b'.' ∷ [])
    || bytes_eq part (b'.' ∷ b'.' ∷ [])
    || starts_with (b'.' ∷ []) part
    || ends_with (b'.' ∷ b'l' ∷ b'o' ∷ b'c' ∷ b'k' ∷ []) part
    || ends_with (32 ∷ []) part
    || ends_with (b'.' ∷ []) part
    || has_reserved part
    || is_device (stem part)

unfoldable pub check_parts : List Bytes → Result (Unit {0})
check_parts [] = ok tt
check_parts (part ∷ parts) = do fail_if (bad_part part) invalid_name; check_parts parts

-- `filepath.IsAbs` holds of a leading "/"; what Windows takes for absolute has a ":" or a backslash.
unfoldable pub validate_name : Bytes → Result (Unit {0})
validate_name name = do
  fail_if (is_empty name) invalid_name
  fail_if (has_control name) invalid_name
  fail_if (starts_with (b'/' ∷ []) name) invalid_name
  check_parts (split_slash name)
