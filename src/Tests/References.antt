-- ===== src/Tests/References.antt =====
-- Named references: cas/refs.
use go_cask.Common.{
  ℕ, zero, suc, ◌+◌, ◌-◌, ◌*◌, ◌/◌, ◌%◌, ◌^◌, ◌≤◌, ◌<◌, ◌≡◌, refl, ap, ◌∙◌, inl, inr, Bool, true,
  false, ◌||◌, Option, none, some, [], ◌∷◌, ◌++◌, arith, ltb, ◌==◌, if◌then◌else◌, le→ltb,
  Bool-cases, is_empty, Bytes, bytes_eq, bytes_eq_refl, contains, contains-append,
}
use go_cask.Errors.{Result, err, ok}
use go_cask.Digest.{
  Digest, hex_encode, hex_decode, string, all_lower_hex, is_lower_hex, unmarshal_text, parse_digest,
  check_digest,
}
use go_cask.RefName.{split_slash, has_control, stem, bad_part, check_parts, validate_name}
use go_cask.RefLog.{
  log_line, split_lines, cut_tab, parse_log_digest, parse_fields, parse_line, parse_lines,
  parse_log, Text,
}
use go_cask.RefLog.Lines.{EntryBytes, log_text, parse_log-log_text, TextLaws}
use go_cask.Refs.{
  not_exist, ref_not_found, is_other, old_value, resolve_in, reversed, tolerate_missing, read_value,
  get, append_log, set, delete, log, Location, System, value_path, log_path,
}
use go_cask.Refs.Log.{log_of, SystemLaws, LogIs}
use go_cask.Refs.Current.{set-get, delete-get}
use go_cask.Refs.Resolved.{resolve_in-Answers, Answers}
use go_cask.Tests.Data.{ab}

-- Decimal numbers. The number is fuel enough for its digits.
unfoldable digits : ℕ → ℕ → Bytes
digits zero n = (48 + n) ∷ []
digits (suc fuel) n =
    let rest = digits fuel (n / 10) in
    if ltb n 10 then (48 + n) ∷ [] else rest ++ ((48 + n % 10) ∷ [])

unfoldable format_decimal : ℕ → Bytes
format_decimal n = digits n n

-- The value of a text behind the number `n`: `none` for a byte that is no digit.
unfoldable value_from : ℕ → Bytes → Option ℕ
value_from n [] = some n
value_from n (x ∷ s) =
    let rest = value_from (n * 10 + (x - 48)) s in if ltb x 48 || ltb 57 x then none else rest

abbrev in_int64 : Option ℕ → Option ℕ
in_int64 none = none
in_int64 (some n) = if ltb n (2 ^ 63) then some n else none

unfoldable parse_decimal : Bytes → Option ℕ
parse_decimal s = if is_empty s then none else in_int64 (value_from 0 s)

-- White space that is a newline.
unfoldable up_to_newline : Bytes → Bytes
up_to_newline [] = []
up_to_newline (x ∷ s) = let rest = up_to_newline s in if x == 10 then [] else x ∷ rest

abbrev text : Text
text = record { trim_space = up_to_newline; format_int = format_decimal; parse_int = parse_decimal }

value_from-append :
    (n m c : ℕ) (s : Bytes)
    → value_from n s ≡ some m
    → c < 10
    → value_from n (s ++ ((48 + c) ∷ [])) ≡ some (m * 10 + c)
unfolding value_from
value_from-append n m c [] h small =
    let same : n ≡ m = unwrap h in
    rw (le→ltb (48 + c) 48 (omega arith), le→ltb 57 (48 + c) (omega arith))
      (ap some (omega (arith, same)))
  where
    unwrap : {a b : ℕ} → some a ≡ some b → a ≡ b
    unwrap p = cc
value_from-append n m c (x ∷ s) h small = elim (Bool-cases (ltb x 48 || ltb 57 x)) [
  | inl bad ↦ absurd (nothing (rw bad at h))
  | inr good ↦ rw good (value_from-append (n * 10 + (x - 48)) m c s (rw good at h) small)
]
  where
    nothing : none ≡ some m → ⊥
    nothing p = cc

value_from-digits : (fuel n : ℕ) → n ≤ fuel → value_from 0 (digits fuel n) ≡ some n
unfolding digits value_from
value_from-digits zero n h =
    rw (le→ltb (48 + n) 48 (omega arith), le→ltb 57 (48 + n) (omega arith)) (ap some (omega arith))
value_from-digits (suc fuel) n h = elim (Bool-cases (ltb n 10)) [
  | inl one ↦ rw one (
      rw (le→ltb (48 + n) 48 (omega arith), le→ltb 57 (48 + n) (ground arith))
        (ap some (omega arith)))
  | inr more ↦ rw more (
      value_from-append 0 (n / 10) (n % 10) (digits fuel (n / 10))
        (value_from-digits fuel (n / 10) (ground arith)) (omega arith)
      ∙ ap some (omega arith))
]

digits-some : (fuel n : ℕ) → is_empty (digits fuel n) ≡ false
unfolding digits
digits-some zero n = refl
digits-some (suc fuel) n = elim (Bool-cases (ltb n 10)) [
  | inl one ↦ rw one refl
  | inr more ↦ rw more (longer (digits fuel (n / 10)))
]
  where
    longer : (s : Bytes) → is_empty (s ++ ((48 + n % 10) ∷ [])) ≡ false
    longer [] = refl
    longer (x ∷ s) = refl

parse_decimal-format_decimal : (n : ℕ) → n < 2 ^ 63 → parse_decimal (format_decimal n) ≡ some n
unfolding parse_decimal format_decimal
parse_decimal-format_decimal n small =
    rw (digits-some n n, value_from-digits n n (omega arith)) (rw (below n small) refl)
  where
    below : (n : ℕ) → n < 2 ^ 63 → ltb n (2 ^ 63) ≡ true
    below n small = ground (arith, small)

digits-lack : (c fuel n : ℕ) → c < 48 → contains c (digits fuel n) ≡ false
unfolding digits contains
digits-lack c zero n h = ground (arith, h)
digits-lack c (suc fuel) n h = elim (Bool-cases (ltb n 10)) [
  | inl one ↦ rw one (ground (arith, h))
  | inr more ↦ rw more (
      contains-append c (digits fuel (n / 10)) ((48 + n % 10) ∷ [])
      ∙ rw (digits-lack c fuel (n / 10) h) (ground (arith, h)))
]

up_to_newline-append : (s : Bytes) → all_lower_hex s ≡ true → up_to_newline (s ++ (10 ∷ [])) ≡ s
unfolding up_to_newline all_lower_hex
up_to_newline-append [] h = refl
up_to_newline-append (x ∷ s) h = ground (arith, up_to_newline-append s)

text_laws : TextLaws text
text_laws = record {
  parse_format = parse_decimal-format_decimal;
  no_tab = λ n small. unfold format_decimal in digits-lack 9 n n (omega arith);
  no_newline = λ n small. unfold format_decimal in digits-lack 10 n n (omega arith);
  trim_line = up_to_newline-append;
}

unfoldable same_location : Location → Location → Bool
same_location (value_path a) (value_path b) = bytes_eq a b
same_location (log_path a) (log_path b) = bytes_eq a b
same_location a b = false

same_location_refl : (l : Location) → same_location l l ≡ true
unfolding same_location
same_location_refl (value_path a) = bytes_eq_refl a
same_location_refl (log_path a) = bytes_eq_refl a

abbrev file_content : Option Bytes → Bytes
file_content none = []
file_content (some content) = content

abbrev read_result : Option Bytes → Result Bytes
read_result none = err not_exist
read_result (some content) = ok content

held :
    (o : Option Bytes) {before : Bytes}
    → log_of (read_result o) ≡ some before
    → file_content o ≡ before
unfolding is_other
held none h = cc
held (some content) h = cc

-- Files that never fail.
abbrev write_at : Location → Option Bytes → (Location → Option Bytes) → Location → Option Bytes
write_at l content files j = if same_location l j then content else files j

abbrev system : System
system = record {
  Files = Location → Option Bytes;
  read_file = λ l files. read_result (files l);
  publish = λ ctx l content files. (none, write_at l (some content) files);
  append_file =
      λ l content files. (none, write_at l (some (file_content (files l) ++ content)) files);
  remove_file = λ l files. (none, write_at l none files);
  walk = λ files. ok [];
  text = text;
}

system_laws : SystemLaws system
unfolding same_location is_other
system_laws = record {
  text_laws = text_laws;
  IsApart = λ l j. same_location l j ≡ false;
  kinds_apart = λ a b valid valid'. (refl, refl);
  publish_done =
      λ ctx l content files done. (rw (same_location_refl l) refl, λ j apart. rw apart refl);
  append_done = λ l before content files was done. (
    rw (same_location_refl l) (ap (λ (b : Bytes). ok (b ++ content)) (held (files l) was)),
    λ j apart. rw apart refl,
  );
  remove_done =
      λ l files done. ((not_exist, rw (same_location_refl l) refl, refl), λ j apart. rw apart refl);
  remove_there = λ l files content e there failed. cc;
}

first_entry : EntryBytes (record { digest = ab; old = []; time = 3 })
first_entry = ((omega arith, (omega arith, tt)), (tt, omega arith))

parse_log-log_text_example :
    (parse_log text (log_text text (record { digest = ab; old = []; time = 3 } ∷ []))
      ≡ record { digest = ab; old = []; time = 3 } ∷ [])
    × (parse_log text (log_text text (record { digest = ab; old = []; time = 3 } ∷ []) ++ (49 ∷ []))
        ≡ record { digest = ab; old = []; time = 3 } ∷ [])
    × (parse_log text (
          log_text text (record { digest = ab; old = []; time = 3 } ∷ [])
          ++ ((49 ∷ []) ++ (9 ∷ (97 ∷ []))))
        ≡ record { digest = ab; old = []; time = 3 } ∷ [])
unfolding contains
parse_log-log_text_example =
    parse_log-log_text text text_laws (record { digest = ab; old = []; time = 3 } ∷ []) (49 ∷ [])
      (97 ∷ []) (first_entry, tt) refl refl refl refl

abbrev no_files : Location → Option Bytes
no_files l = none

nothing_logged : LogIs system system_laws no_files (97 ∷ []) []
unfolding system_laws log_text
nothing_logged = record { written = refl; entries = tt }

set_done : (set system none 3 (97 ∷ []) ab no_files).0 ≡ none
unfolding set validate_name has_control bytes_eq check_parts split_slash bad_part contains stem
    check_digest old_value read_value is_other append_log
set_done = refl

b_valid : validate_name (98 ∷ []) ≡ ok tt
unfolding validate_name has_control bytes_eq check_parts split_slash bad_part contains stem
b_valid = refl

value_files_apart : SystemLaws.IsApart system_laws (value_path (97 ∷ [])) (value_path (98 ∷ []))
unfolding system_laws same_location bytes_eq
value_files_apart = refl

-- "a" set to a digest for the first time.
set-get_example :
    (old : Digest) × (old_value (read_value system (97 ∷ []) no_files) ≡ ok old)
    × (get system none (97 ∷ []) (set system none 3 (97 ∷ []) ab no_files).1 ≡ ok ab)
    × (read_value system (98 ∷ []) (set system none 3 (97 ∷ []) ab no_files).1
        ≡ read_value system (98 ∷ []) no_files)
    × (log system none (97 ∷ []) 0 (set system none 3 (97 ∷ []) ab no_files).1
        ≡ ok (record { digest = ab; old = old; time = 3 } ∷ reversed [] []))
set-get_example =
    set-get system system_laws 3 (97 ∷ []) ab no_files [] (omega arith, (omega arith, tt))
      (omega arith) nothing_logged set_done (98 ∷ []) b_valid value_files_apart

abbrev one_value : Location → Option Bytes
one_value = write_at (value_path (97 ∷ [])) (some (54 ∷ 49 ∷ 54 ∷ 50 ∷ 10 ∷ [])) no_files

one_value_logged : LogIs system system_laws one_value (97 ∷ []) []
unfolding system_laws log_text same_location
one_value_logged = record { written = refl; entries = tt }

one_value_read : read_value system (97 ∷ []) one_value ≡ ok ab
unfolding read_value same_location bytes_eq parse_digest unmarshal_text up_to_newline is_lower_hex
    all_lower_hex hex_decode
one_value_read = refl

one_value_deleted : (delete system none 4 (97 ∷ []) one_value).0 ≡ none
unfolding delete read_value same_location bytes_eq parse_digest unmarshal_text up_to_newline
    is_lower_hex all_lower_hex hex_decode validate_name has_control check_parts split_slash bad_part
    contains stem append_log tolerate_missing is_other
one_value_deleted = refl

delete-get_example :
    (get system none (97 ∷ []) (delete system none 4 (97 ∷ []) one_value).1 ≡ err ref_not_found)
    × (read_value system (98 ∷ []) (delete system none 4 (97 ∷ []) one_value).1
        ≡ read_value system (98 ∷ []) one_value)
    × (log system none (97 ∷ []) 0 (delete system none 4 (97 ∷ []) one_value).1
        ≡ ok (record { digest = []; old = ab; time = 4 } ∷ reversed [] []))
delete-get_example =
    delete-get system system_laws 4 (97 ∷ []) one_value [] ab one_value_logged one_value_read
      one_value_deleted (omega arith) (98 ∷ []) b_valid value_files_apart

resolve_in-Answers_example :
    Answers
      (97 ∷ [])
      (record { name = 98 ∷ []; digest = ab } ∷ record { name = 97 ∷ 98 ∷ []; digest = ab } ∷ [])
      (resolve_in
        (97 ∷ [])
        (record { name = 98 ∷ []; digest = ab } ∷ record { name = 97 ∷ 98 ∷ []; digest = ab } ∷ []))
resolve_in-Answers_example =
    resolve_in-Answers (97 ∷ [])
      (record { name = 98 ∷ []; digest = ab } ∷ record { name = 97 ∷ 98 ∷ []; digest = ab } ∷ [])

-- A log whose tail was torn after the first tab: the next entry joins the torn line and is left out
-- with it.
torn_tail_takes_next :
    parse_log text
      ((49 ∷ 9 ∷ 54 ∷ []) ++ log_line text (record { digest = ab; old = []; time = 3 }))
    ≡ []
unfolding parse_log parse_lines split_lines log_line format_decimal digits parse_decimal value_from
    string hex_encode parse_line cut_tab parse_fields parse_log_digest parse_digest unmarshal_text
    is_lower_hex all_lower_hex hex_decode
torn_tail_takes_next = refl
