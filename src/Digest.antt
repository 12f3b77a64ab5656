-- ===== src/Digest.antt =====
-- cas/digest.go: content digests and their text form. The hex codec is Go's `encoding/hex`.
pub mod Text
use go_cask.Common.{
  ℕ, zero, suc, ◌+◌, ◌-◌, ◌*◌, ◌/◌, ◌%◌, Bool, true, false, not, ◌&&◌, ◌||◌, Option, none, some,
  List, [], ◌∷◌, ltb, leb, ◌==◌, if◌then◌else◌, is_empty, length, take, Bytes, bytes_eq,
}
use go_cask.Errors.{Error, wrap, invalid_digest, Result, ok, err, ◌>>=◌, ◌>>◌, fail_if}

-- The absent digest, nil in the source, is the empty list.
abbrev pub Digest : Type 0
Digest = Bytes

abbrev pub is_zero : Digest → Bool
is_zero = is_empty

-- A copy of the bytes: a value of the model is never written through, so the copy is the list.
unfoldable pub new_digest : Bytes → Digest
new_digest b = if is_empty b then [] else b

unfoldable pub equal : Digest → Digest → Bool
equal d other = if is_zero d || is_zero other then false else bytes_eq d other

unfoldable pub bytes : Digest → Bytes
bytes d = if is_empty d then [] else d

-- `hex.Encode`: two lowercase digits for a byte.
abbrev pub hex_digit : ℕ → ℕ
hex_digit v = if ltb v 10 then b'0' + v else b'a' + (v - 10)

unfoldable pub hex_encode : Bytes → Bytes
hex_encode [] = []
hex_encode (c ∷ cs) = hex_digit (c / 16) ∷ hex_digit (c % 16) ∷ hex_encode cs

-- `hex.Decode`, which takes upper case too; `none` is its error.
unfoldable pub hex_value : ℕ → Option ℕ
hex_value c =
    if leb b'0' c && leb c b'9'
    then some (c - b'0')
    else if leb b'a' c && leb c b'f'
    then some (c - b'a' + 10)
    else if leb b'A' c && leb c b'F'
    then some (c - b'A' + 10)
    else none

abbrev join_nibbles : Option ℕ → Option ℕ → Option Bytes → Option Bytes
join_nibbles (some hi) (some lo) (some rest) = some ((hi * 16 + lo) ∷ rest)
join_nibbles _ _ _ = none

unfoldable pub hex_decode : Bytes → Option Bytes
unfolding hex_value
hex_decode [] = some []
hex_decode (c ∷ []) = none
hex_decode (c ∷ c' ∷ cs) = join_nibbles (hex_value c) (hex_value c') (hex_decode cs)

abbrev pub encoded_len : ℕ → ℕ
encoded_len n = n * 2

-- Both branches render the same text: the short one fills a buffer on the stack.
unfoldable pub string : Digest → Bytes
string d =
    if is_empty d
    then []
    else if leb (encoded_len (length d)) 128
    then take (encoded_len (length d)) (hex_encode d)
    else hex_encode d

-- `n` stands for the source's int: zero for every `n <= 0`.
unfoldable pub prefix : Digest → ℕ → Bytes
prefix d n = if leb n 0 then [] else let s = string d in if leb (length s) n then s else take n s

unfoldable pub marshal_text : Digest → Bytes
marshal_text d = if is_empty d then [] else hex_encode d

abbrev pub is_lower_digit : ℕ → Bool
is_lower_digit c = not ((ltb c b'0' || ltb b'9' c) && (ltb c b'a' || ltb b'f' c))

unfoldable pub all_lower_hex : Bytes → Bool
all_lower_hex [] = true
all_lower_hex (c ∷ cs) = is_lower_digit c && all_lower_hex cs

unfoldable pub is_lower_hex : Bytes → Bool
is_lower_hex b = if is_empty b then false else all_lower_hex b

abbrev pub decoded : Option Bytes → Result Digest
decoded none = err (wrap invalid_digest)
decoded (some raw) = ok raw

-- The digest that `UnmarshalText` stores, or its error.
unfoldable pub unmarshal_text : Bytes → Result Digest
unmarshal_text b =
    if is_empty b
    then ok []
    else if not (length b % 2 == 0) || not (is_lower_hex b)
    then err (wrap invalid_digest)
    else decoded (hex_decode b)

unfoldable pub parse_digest : Bytes → Result Digest
parse_digest s = do d ← unmarshal_text s; fail_if (is_zero d) (wrap invalid_digest); ok d

unfoldable pub check_digest : Digest → Result (Unit {0})
check_digest d = fail_if (is_zero d) (wrap invalid_digest)
