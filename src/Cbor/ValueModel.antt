-- ===== src/Cbor/ValueModel.antt =====
-- cas/codec/cbor/cbor.go: the value model of the decoder.
use Prim.Native.Nat.{max}
use go_cask.Common.{ℕ, suc, ◌^◌, ◌<◌, ◌≡◌, true, List, [], ◌∷◌, map, length, Bytes}
use go_cask.Common.Keys.{sorted_keys, map_values}
use go_cask.Cbor.{
  is_finite, Value, Values, Members, Floats, nil_value, other_type, bool_value, non_negative,
  negative, uint_value, float32_value, float64_value, string_value, bytes_value, strings_value,
  array_value, map_value, string_map, no_items, and_item, no_members, and_member,
}
use go_cask.Cbor.Decoding.{of_list, of_members}

-- How many arrays and maps stand around the innermost item.
unfoldable mutual
  pub height : Value → ℕ
  height (strings_value (t ∷ ts)) = 1
  height (array_value items) = item_height items
  height (map_value ms) = member_height ms
  height (string_map (m ∷ ms)) = 1
  height v = 0

  pub item_height : Values → ℕ
  item_height no_items = 0
  item_height (and_item v vs) = max (suc (height v)) (item_height vs)

  pub member_height : Members → ℕ
  member_height no_members = 0
  member_height (and_member k v ms) = max (suc (height v)) (member_height ms)

abbrev pub AreShort : List Bytes → Type 0
AreShort [] = Unit
AreShort (t ∷ ts) = (length t < 2 ^ 64) × AreShort ts

abbrev pub SmallMap : List (Bytes × Bytes) → Type 0
SmallMap [] = Unit
SmallMap ((k, t) ∷ ms) = (length k < 2 ^ 64) × (length t < 2 ^ 64) × SmallMap ms

module _ (fl : Floats) where
  -- The value that comes back: signed integers, float64, and []any and map[string]any.
  unfoldable mutual
    pub normal : Value → Value
    normal (uint_value n) = non_negative n
    normal (float32_value bits) = float64_value (Floats.widen fl bits)
    normal (strings_value texts) = array_value (of_list (map string_value texts))
    normal (array_value items) = array_value (of_list (normal_items items))
    normal (map_value ms) = map_value (of_members (sorted_keys (normal_members ms)))
    normal (string_map ms) = map_value (of_members (sorted_keys (map_values string_value ms)))
    normal v = v

    pub normal_items : Values → List Value
    normal_items no_items = []
    normal_items (and_item v vs) = normal v ∷ normal_items vs

    pub normal_members : Members → List (Bytes × Value)
    normal_members no_members = []
    normal_members (and_member k v ms) = (k, normal v) ∷ normal_members ms

  abbrev pub IsFloat : ℕ → Type 0
  IsFloat bits = (is_finite bits ≡ true) × (bits < 2 ^ 64)

  -- The values of the value model: integers of an int64, finite floats, lengths of a uint64.
  unfoldable mutual
    pub Fits : Value → Type 0
    Fits nil_value = Unit
    Fits other_type = ⊥
    Fits (bool_value b) = Unit
    Fits (non_negative n) = n < 2 ^ 63
    Fits (negative n) = n < 2 ^ 63
    Fits (uint_value n) = n < 2 ^ 63
    Fits (float32_value bits) = IsFloat (Floats.widen fl bits)
    Fits (float64_value bits) = IsFloat bits
    Fits (string_value content) = length content < 2 ^ 64
    Fits (bytes_value content) = length content < 2 ^ 64
    Fits (strings_value texts) = (length texts < 2 ^ 64) × AreShort texts
    Fits (array_value items) = (length (normal_items items) < 2 ^ 64) × FitItems items
    Fits (map_value ms) = (length (normal_members ms) < 2 ^ 64) × FitMembers ms
    Fits (string_map ms) = (length ms < 2 ^ 64) × SmallMap ms

    pub FitItems : Values → Type 0
    FitItems no_items = Unit
    FitItems (and_item v vs) = Fits v × FitItems vs

    pub FitMembers : Members → Type 0
    FitMembers no_members = Unit
    FitMembers (and_member k v ms) = (length k < 2 ^ 64) × Fits v × FitMembers ms
