-- ===== src/Cbor/RoundTrip.antt =====
-- cas/codec/cbor/cbor.go: a value that the value model holds is decoded as it was encoded.
use go_cask.Common.{
  ℕ, zero, suc, ◌^◌, ◌≤◌, ◌<◌, ◌≡◌, refl, sym, ap, ◌∙◌, true, false, List, [], ◌∷◌, ◌++◌, map,
  append-nil, arith, lt→ltb, le→ltb, length, Bytes,
}
use go_cask.Common.Keys.{sorted_keys, map_values, length-map_values, ShortKeys}
use go_cask.Errors.{Result, err, ok}
use go_cask.BigEndian.{put_be}
use go_cask.Cbor.{
  malformed, max_depth, append_major, append_string_bytes, encode_float64, append_members,
  append_array_value, append_map_value, encode_any, encode_items, encode_members, Value, Values,
  Members, Floats, nil_value, other_type, bool_value, non_negative, negative, uint_value,
  float32_value, float64_value, string_value, bytes_value, strings_value, array_value, map_value,
  string_map, no_items, and_item, no_members, and_member,
}
use go_cask.Cbor.Decoding.{
  read_length, decode_float, decode_simple, of_list, of_members, decode_members, decode_map,
  decode_integer, decode_payload, decode_head, decode_one, decode_any,
}
use go_cask.Cbor.Lengths.{read_number-put_be, decode_head-append_major, append_major-nonempty}
use go_cask.Cbor.Entries.{
  length-map, EntryFor, string_entry, bytes_entry, array_entry, map_entry, Entry,
}
use go_cask.Cbor.ValueModel.{
  height, item_height, member_height, AreShort, SmallMap, normal, normal_items, normal_members,
  IsFloat, Fits, FitItems, FitMembers,
}

module _ (fl : Floats) where
  -- An entry for a value.
  abbrev Reads : ℕ → Value → Type 0
  Reads l v = EntryFor fl l (encode_any fl v) (normal fl v)

  abbrev leaf :
      (l : ℕ) (content : Bytes) (x : Value)
      → 1 ≤ length content
      → ((rest : Bytes) → decode_one fl (suc l) (content ++ rest) ≡ ok (x, rest))
      → Entry fl (suc l)
  leaf l content x some_byte decodes = record {
    encoded = ok content;
    value = x;
    content = content;
    is_ok = refl;
    nonempty = some_byte;
    decodes = decodes;
  }

  integer_decodes :
      (l mt n : ℕ) (as_value : ℕ → Value) (rest : Bytes)
      → mt < 7
      → n < 2 ^ 63
      → decode_payload (decode_one fl l) mt n rest ≡ decode_integer as_value n rest
      → decode_one fl (suc l) (append_major mt n ++ rest) ≡ ok (as_value n, rest)
  unfolding decode_integer
  integer_decodes l mt n as_value rest small h same =
      decode_head-append_major fl l mt n rest small (omega arith)
      ∙ same
      ∙ rw (lt→ltb n (2 ^ 63) h) refl

  float_decodes :
      (l bits : ℕ) (rest : Bytes)
      → bits < 2 ^ 64
      → decode_one fl (suc l) ((0xfb ∷ put_be 8 bits) ++ rest) ≡ ok (float64_value bits, rest)
  unfolding decode_one decode_head decode_simple decode_float
  float_decodes l bits rest h = rw (read_number-put_be 8 bits rest h) refl

  float_reads :
      (l bits : ℕ)
      → IsFloat fl bits
      → (e : Entry fl (suc l)) × (e.encoded ≡ encode_float64 bits) × (e.value ≡ float64_value bits)
  unfolding encode_float64
  float_reads l bits (finite, small) = (
    leaf l (0xfb ∷ put_be 8 bits) (float64_value bits) (omega arith)
        (λ rest. float_decodes l bits rest small),
    rw finite refl,
    refl,
  )

  texts :
      (l : ℕ) (ts : List Bytes)
      → AreShort ts
      → (es : List (Entry fl (suc l))) × (map Entry.encoded es
          ≡ map (λ (t : Bytes). ok (append_string_bytes t)) ts)
        × (map Entry.value es ≡ map string_value ts)
  texts l [] s = ([], refl, refl)
  texts l (t ∷ ts) s =
      let (es, written, read) = texts l ts s.1 in
      let (e, wrote, gave) = string_entry fl l t s.0 in
      (e ∷ es, rw (wrote, written) refl, rw (gave, read) refl)

  text_members :
      (l : ℕ) (ms : List (Bytes × Bytes))
      → SmallMap ms
      → (es : List (Bytes × Entry fl (suc l))) × (map_values Entry.encoded es
          ≡ map_values (λ (t : Bytes). ok (append_string_bytes t)) ms)
        × (map_values Entry.value es ≡ map_values string_value ms)
        × ShortKeys es
  unfolding map_values
  text_members l [] s = ([], refl, refl, tt)
  text_members l ((k, t) ∷ ms) s =
      let (es, written, read, short) = text_members l ms s.2 in
      let (e, wrote, gave) = string_entry fl l t s.1 in
      ((k, e) ∷ es, rw (wrote, written) refl, rw (gave, read) refl, (s.0, short))

  as_array :
      (l : ℕ) (es : List (Entry fl l)) (rs : List (Result Bytes)) (xs : List Value)
      → map Entry.encoded es ≡ rs
      → map Entry.value es ≡ xs
      → length xs < 2 ^ 64
      → EntryFor fl (suc l) (append_array_value rs) (array_value (of_list xs))
  as_array l es rs xs written read h =
      let (e, wrote, gave) = array_entry fl l es (rw (sym (length-map Entry.value es), read) h) in
      (
        e,
        wrote ∙ ap append_array_value written,
        gave ∙ ap (λ (vs : List Value). array_value (of_list vs)) read,
      )

  as_map :
      (l : ℕ) (es : List (Bytes × Entry fl (suc l))) (rs : List (Bytes × Result Bytes))
      (xs : List (Bytes × Value))
      → map_values Entry.encoded es ≡ rs
      → map_values Entry.value es ≡ xs
      → ShortKeys es
      → length xs < 2 ^ 64
      → EntryFor fl (suc (suc l)) (append_map_value rs) (map_value (of_members (sorted_keys xs)))
  as_map l es rs xs written read short h =
      let (e, wrote, gave) =
        map_entry fl l es (rw (sym (length-map_values Entry.value es), read) h) short in
      (
        e,
        wrote ∙ ap append_map_value written,
        gave ∙ ap (λ (vs : List (Bytes × Value)). map_value (of_members (sorted_keys vs))) read,
      )

  empty_map : (l : ℕ) → EntryFor fl (suc l) (append_map_value []) (map_value no_members)
  unfolding append_map_value append_members sorted_keys append_major decode_one decode_head
      read_length decode_payload decode_map decode_members of_members
  empty_map l = (
    leaf l (0xa0 ∷ []) (map_value no_members) (omega arith)
        (λ rest. rw (le→ltb (length rest) 0 (omega arith)) refl),
    refl,
    refl,
  )

  mutual
    unfolding Fits height encode_any normal of_members sorted_keys map_values decode_one decode_head
        decode_simple decode_payload

    reads : (v : Value) (l : ℕ) → Fits fl v → height v ≤ l → Reads (suc l) v
    reads nil_value l f h = (leaf l (0xf6 ∷ []) nil_value (omega arith) (λ rest. refl), refl, refl)
    reads other_type l f h = absurd f
    reads (bool_value true) l f h =
        (leaf l (0xf5 ∷ []) (bool_value true) (omega arith) (λ rest. refl), refl, refl)
    reads (bool_value false) l f h =
        (leaf l (0xf4 ∷ []) (bool_value false) (omega arith) (λ rest. refl), refl, refl)
    reads (non_negative n) l f h = (
      leaf l (append_major 0 n) (non_negative n) (append_major-nonempty 0 n)
          (λ rest. integer_decodes l 0 n non_negative rest (omega arith) f refl),
      refl,
      refl,
    )
    reads (negative n) l f h = (
      leaf l (append_major 1 n) (negative n) (append_major-nonempty 1 n)
          (λ rest. integer_decodes l 1 n negative rest (omega arith) f refl),
      refl,
      refl,
    )
    reads (uint_value n) l f h = (
      leaf l (append_major 0 n) (non_negative n) (append_major-nonempty 0 n)
          (λ rest. integer_decodes l 0 n non_negative rest (omega arith) f refl),
      refl,
      refl,
    )
    reads (float32_value bits) l f h = float_reads l (Floats.widen fl bits) f
    reads (float64_value bits) l f h = float_reads l bits f
    reads (string_value content) l f h = string_entry fl l content f
    reads (bytes_value content) l f h = bytes_entry fl l content f
    reads (strings_value []) l f h = array_entry fl l [] (omega arith)
    reads (strings_value (t ∷ ts)) zero f h = absurd (omega arith)
    reads (strings_value (t ∷ ts)) (suc l) f h =
        let (es, written, read) = texts l (t ∷ ts) f.1 in
        as_array (suc l) es _ _ written read (rw (length-map string_value (t ∷ ts)) f.0)
    reads (array_value items) l f h =
        let (es, written, read) = reads_items items l f.1 h in as_array l es _ _ written read f.0
    reads (map_value no_members) l f h = empty_map l
    reads (map_value (and_member k v ms)) zero f h = absurd (omega arith)
    reads (map_value (and_member k v ms)) (suc l) f h =
        let (es, written, read, short) = reads_members (and_member k v ms) l f.1 h in
        as_map l es _ _ written read short f.0
    reads (string_map []) l f h = empty_map l
    reads (string_map (m ∷ ms)) zero f h = absurd (omega arith)
    reads (string_map (m ∷ ms)) (suc l) f h =
        let (es, written, read, short) = text_members l (m ∷ ms) f.1 in
        as_map l es _ _ written read short (rw (length-map_values string_value (m ∷ ms)) f.0)

    reads_items :
        (vs : Values) (l : ℕ)
        → FitItems fl vs
        → item_height vs ≤ l
        → (es : List (Entry fl l)) × (map Entry.encoded es ≡ encode_items fl vs)
          × (map Entry.value es ≡ normal_items fl vs)
    reads_items no_items l f h = ([], refl, refl)
    reads_items (and_item v vs) zero f h = absurd (omega arith)
    reads_items (and_item v vs) (suc l) f h =
        let (e, wrote, gave) = reads v l f.0 (omega arith) in
        let (es, written, read) = reads_items vs (suc l) f.1 (omega arith) in
        (e ∷ es, rw (wrote, written) refl, rw (gave, read) refl)

    reads_members :
        (ms : Members) (l : ℕ)
        → FitMembers fl ms
        → member_height ms ≤ suc l
        → (es : List (Bytes × Entry fl (suc l))) × (map_values Entry.encoded es
            ≡ encode_members fl ms)
          × (map_values Entry.value es ≡ normal_members fl ms)
          × ShortKeys es
    reads_members no_members l f h = ([], refl, refl, tt)
    reads_members (and_member k v ms) l f h =
        let (e, wrote, gave) = reads v l f.1 (omega arith) in
        let (es, written, read, short) = reads_members ms l f.2 (omega arith) in
        ((k, e) ∷ es, rw (wrote, written) refl, rw (gave, read) refl, (f.0, short))

  -- A value of the value model whose arrays and maps nest at most MaxDepth deep is encoded, and decoding
  -- the bytes gives back the same value with signed integers, float64 and the general array and map
  -- types; bytes after it are reported.
  pub decode_any-encode_any :
      (v : Value)
      → Fits fl v
      → height v ≤ max_depth
      → (content : Bytes) × (encode_any fl v ≡ ok content)
        × (decode_any fl content ≡ ok (normal fl v))
        × ((b : ℕ) (rest : Bytes) → decode_any fl (content ++ b ∷ rest) ≡ err malformed)
  unfolding decode_any
  decode_any-encode_any v f h =
      let (e, wrote, gave) = reads v max_depth f h in
      (
        e.content,
        sym wrote ∙ e.is_ok,
        rw (sym (append-nil e.content)) (rw (e.decodes []) (rw gave refl)),
        λ b rest. rw (e.decodes (b ∷ rest)) refl,
      )
