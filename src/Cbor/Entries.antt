-- ===== src/Cbor/Entries.antt =====
-- cas/codec/cbor/cbor.go: arrays and maps of values that are read as they were written.
use go_cask.Common.{
  ℕ, suc, ◌^◌, ◌≤◌, ◌<◌, ◌≡◌, refl, sym, ap, ◌∙◌, false, List, [], ◌∷◌, ◌++◌, map, append_assoc,
  append-nil, arith, ltb, length, length-append, take-length_append, drop-length_append, Bytes,
}
use go_cask.Common.Keys.{
  sorted_keys, map_values, Ascending, sorted_keys-Ascending, set_key_last, map_values-sorted_keys,
  length-sorted_keys, length-map_values, ShortKeys, sorted_keys-ShortKeys,
}
use go_cask.Errors.{Result, ok}
use go_cask.Cbor.{
  append_major, append_bytes, append_string_bytes, append_items, append_members, append_array_value,
  append_map_value, Value, Floats, string_value, bytes_value, array_value, map_value,
}
use go_cask.Cbor.Decoding.{
  of_list, of_members, key_string, decode_items, decode_members, decode_array, decode_map,
  decode_content, decode_payload, decode_one,
}
use go_cask.Cbor.Lengths.{decode_head-append_major, append_major-nonempty}

pub length-map : {A B : Type 0} (f : A → B) (xs : List A) → length (map f xs) ≡ length xs
length-map f [] = refl
length-map f (x ∷ xs) = ap suc (length-map f xs)

module _ (fl : Floats) where
  -- An encoding that decodes to a value, whatever follows it, with `l` levels left.
  pub record Entry (l : ℕ) : Type 0 where
    pub encoded : Result Bytes
    pub value : Value
    pub content : Bytes
    pub is_ok : encoded ≡ ok content
    pub nonempty : 1 ≤ length content
    pub decodes : (rest : Bytes) → decode_one fl l (content ++ rest) ≡ ok (value, rest)

  -- An entry with the encoding `r` and the value `x`.
  abbrev pub EntryFor : ℕ → Result Bytes → Value → Type 0
  EntryFor l r x = (e : Entry l) × (e.encoded ≡ r) × (e.value ≡ x)

  headed :
      (l mt n : ℕ) (body rest : Bytes)
      → mt < 7
      → n < 2 ^ 64
      → decode_one fl (suc l) ((append_major mt n ++ body) ++ rest)
        ≡ decode_payload (decode_one fl l) mt n (body ++ rest)
  headed l mt n body rest small h =
      rw (append_assoc (append_major mt n) body rest)
        (decode_head-append_major fl l mt n (body ++ rest) small h)

  headed_nonempty : (mt n : ℕ) (body : Bytes) → 1 ≤ length (append_major mt n ++ body)
  headed_nonempty mt n body =
      omega (arith, length-append (append_major mt n) body, append_major-nonempty mt n)

  enough :
      (n : ℕ) (content rest : Bytes) → n ≤ length content → ltb (length (content ++ rest)) n ≡ false
  enough n content rest h = ground (arith, length-append content rest)

  decode_content-append :
      (as_value : Bytes → Value) (content rest : Bytes)
      → decode_content as_value (length content) (content ++ rest) ≡ ok (as_value content, rest)
  unfolding decode_content
  decode_content-append as_value content rest =
      rw (enough (length content) content rest (omega arith))
        (rw (take-length_append content rest, drop-length_append content rest) refl)

  string_decodes :
      (l : ℕ) (content rest : Bytes)
      → length content < 2 ^ 64
      → decode_one fl (suc l) (append_string_bytes content ++ rest)
        ≡ ok (string_value content, rest)
  unfolding append_string_bytes decode_payload
  string_decodes l content rest h =
      headed l 3 (length content) content rest (omega arith) h
      ∙ decode_content-append string_value content rest

  -- A string and a byte string.
  pub string_entry :
      (l : ℕ) (content : Bytes)
      → length content < 2 ^ 64
      → EntryFor (suc l) (ok (append_string_bytes content)) (string_value content)
  unfolding append_string_bytes
  string_entry l content h = (
    record {
      encoded = ok (append_string_bytes content);
      value = string_value content;
      content = append_string_bytes content;
      is_ok = refl;
      nonempty = headed_nonempty 3 (length content) content;
      decodes = λ rest. string_decodes l content rest h;
    },
    refl,
    refl,
  )

  pub bytes_entry :
      (l : ℕ) (content : Bytes)
      → length content < 2 ^ 64
      → EntryFor (suc l) (ok (append_bytes content)) (bytes_value content)
  unfolding append_bytes decode_payload
  bytes_entry l content h = (
    record {
      encoded = ok (append_bytes content);
      value = bytes_value content;
      content = append_bytes content;
      is_ok = refl;
      nonempty = headed_nonempty 2 (length content) content;
      decodes = λ rest.
          headed l 2 (length content) content rest (omega arith) h
          ∙ decode_content-append bytes_value content rest;
    },
    refl,
    refl,
  )

  -- The items of an array.
  abbrev Items : (l : ℕ) → List (Entry l) → Type 0
  Items l es =
      (content : Bytes) × (append_items (map Entry.encoded es) ≡ ok content)
      × (length es ≤ length content)
      × ((rest : Bytes)
          → decode_items (decode_one fl l) (length es) (content ++ rest)
            ≡ ok (map Entry.value es, rest))

  items : (l : ℕ) (es : List (Entry l)) → Items l es
  unfolding append_items decode_items
  items l [] = ([], refl, omega arith, λ rest. refl)
  items l (e ∷ es) =
      let (content, written, enough, reads) = items l es in
      (
        e.content ++ content,
        rw (e.is_ok) (rw written refl),
        omega (arith, length-append e.content content, e.nonempty),
        λ rest.
            rw (append_assoc e.content content rest)
              (rw (e.decodes (content ++ rest)) (rw (reads rest) refl)),
      )

  pub array_entry :
      (l : ℕ) (es : List (Entry l))
      → length es < 2 ^ 64
      → EntryFor
          (suc l)
          (append_array_value (map Entry.encoded es))
          (array_value (of_list (map Entry.value es)))
  unfolding append_array_value decode_payload decode_array
  array_entry l es h =
      let (content, written, fits, reads) = items l es in
      (
        record {
          encoded = append_array_value (map Entry.encoded es);
          value = array_value (of_list (map Entry.value es));
          content = append_major 4 (length es) ++ content;
          is_ok = rw written (rw (length-map Entry.encoded es) refl);
          nonempty = headed_nonempty 4 (length es) content;
          decodes = λ rest.
              headed l 4 (length es) content rest (omega arith) h
              ∙ rw (enough (length es) content rest fits) (rw (reads rest) refl);
        },
        refl,
        refl,
      )

  -- The members of a map, in the order of their keys; `done` are those that were read before.
  abbrev MembersOf : (l : ℕ) → List (Bytes × Entry l) → Type 0
  MembersOf l es =
      (content : Bytes) × (append_members (map_values Entry.encoded es) ≡ ok content)
      × (length es ≤ length content)
      × ((done : List (Bytes × Value)) (rest : Bytes)
          → Ascending (done ++ map_values Entry.value es)
          → decode_members (decode_one fl l) (length es) (content ++ rest) done
            ≡ ok (done ++ map_values Entry.value es, rest))

  members : (l : ℕ) (es : List (Bytes × Entry (suc l))) → ShortKeys es → MembersOf (suc l) es
  unfolding append_members decode_members map_values key_string
  members l [] s = ([], refl, omega arith, λ done rest up. rw (append-nil done) refl)
  members l ((k, e) ∷ es) s =
      let (content, written, enough, reads) = members l es s.1 in
      (
        append_string_bytes k ++ e.content ++ content,
        rw (e.is_ok) (rw written refl),
        omega (
          arith,
          length-append (append_string_bytes k ++ e.content) content,
          length-append (append_string_bytes k) e.content,
          e.nonempty,
        ),
        λ done rest up.
            rw
              (
                append_assoc (append_string_bytes k ++ e.content) content rest,
                append_assoc (append_string_bytes k) e.content (content ++ rest),
              )
              (rw (string_decodes l k (e.content ++ (content ++ rest)) s.0) (
                rw (e.decodes (content ++ rest)) (
                  rw (set_key_last k e.value done (map_values Entry.value es) up) (
                    reads (done ++ (k, e.value) ∷ []) rest
                      (rw (append_assoc done ((k, e.value) ∷ []) (map_values Entry.value es)) up)
                    ∙ ap (λ (ms : List (Bytes × Value)). ok (ms, rest))
                        (append_assoc done ((k, e.value) ∷ []) (map_values Entry.value es)))))),
      )

  pub map_entry :
      (l : ℕ) (es : List (Bytes × Entry (suc l)))
      → length es < 2 ^ 64
      → ShortKeys es
      → EntryFor
          (suc (suc l))
          (append_map_value (map_values Entry.encoded es))
          (map_value (of_members (sorted_keys (map_values Entry.value es))))
  unfolding append_map_value decode_payload decode_map
  map_entry l es h s =
      let sorted = sorted_keys es in
      let small : length sorted < 2 ^ 64 = omega (arith, length-sorted_keys es) in
      let (content, written, fits, reads) = members l sorted (sorted_keys-ShortKeys es s) in
      (
        record {
          encoded = append_map_value (map_values Entry.encoded es);
          value = map_value (of_members (sorted_keys (map_values Entry.value es)));
          content = append_major 5 (length sorted) ++ content;
          is_ok =
              rw (sym (map_values-sorted_keys Entry.encoded es))
                (rw written (rw (length-map_values Entry.encoded sorted) refl));
          nonempty = headed_nonempty 5 (length sorted) content;
          decodes = λ rest.
              headed (suc l) 5 (length sorted) content rest (omega arith) small
              ∙ rw (enough (length sorted) content rest fits) (
                  rw
                    (reads [] rest (
                      rw (map_values-sorted_keys Entry.value es)
                        (sorted_keys-Ascending (map_values Entry.value es))))
                    (rw (map_values-sorted_keys Entry.value es) refl));
        },
        refl,
        refl,
      )
