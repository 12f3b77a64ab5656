-- ===== src/RefLog/Lines.antt =====
-- cas/refs/refs.go: a log is read as it was written, and a torn tail is left out.
use go_cask.Common.{
  ℕ, ◌^◌, ◌<◌, ◌≡◌, refl, sym, ap, inl, inr, Bool, true, false, none, some, List, [], ◌∷◌, ◌++◌,
  append_assoc, append-nil, arith, ◌==◌, if◌then◌else◌, Bool-cases, Option-cases, is_empty, Bytes,
  contains, contains-append, AreBytes,
}
use go_cask.Errors.{ok}
use go_cask.Digest.{Digest, string, all_lower_hex}
use go_cask.Digest.Text.{parse_digest-string, parse_digest-IsDigestText, IsDigestText}
use go_cask.RefLog.{
  log_line, split_lines, cut_tab, parse_log_digest, parse_fields, parse_line, parse_lines,
  parse_log, Entry, Text,
}

-- What the libraries promise of white space, and of numbers that fit an int64.
pub record TextLaws (text : Text) : Type 0 where
  pub parse_format : (n : ℕ) → n < 2 ^ 63 → Text.parse_int text (Text.format_int text n) ≡ some n
  pub no_tab : (n : ℕ) → n < 2 ^ 63 → contains 9 (Text.format_int text n) ≡ false
  pub no_newline : (n : ℕ) → n < 2 ^ 63 → contains 10 (Text.format_int text n) ≡ false
  pub trim_line : (s : Bytes) → all_lower_hex s ≡ true → Text.trim_space text (s ++ (10 ∷ [])) ≡ s

split_lines_some :
    (a : Bytes) → (line : Bytes) × (lines : List Bytes) × (split_lines a ≡ line ∷ lines)
unfolding split_lines
split_lines_some [] = ([], [], refl)
split_lines_some (x ∷ a) =
    let (line, lines, e) = split_lines_some a in
    elim (Bool-cases (x == 10)) [
      | inl newline ↦ ([], split_lines a, rw newline refl)
      | inr other_byte ↦ (x ∷ line, lines, rw (other_byte, e) refl)
    ]

-- A newline splits the text on both sides of it.
split_lines-append : (a b : Bytes) → split_lines (a ++ (10 ∷ b)) ≡ split_lines a ++ split_lines b
unfolding split_lines
split_lines-append [] b = refl
split_lines-append (x ∷ a) b = elim (Bool-cases (x == 10)) [
  | inl newline ↦ rw newline (ap (◌∷◌ []) (split_lines-append a b))
  | inr other_byte ↦
      let (line, lines, e) = split_lines_some a in
      rw other_byte (rw (split_lines-append a b) (rw e refl))
]

split_lines_one : (a : Bytes) → contains 10 a ≡ false → split_lines a ≡ a ∷ []
unfolding split_lines contains
split_lines_one [] h = refl
split_lines_one (x ∷ a) h = elim (Bool-cases (x == 10)) [
  | inl newline ↦ absurd (apart (rw newline at h))
  | inr other_byte ↦ rw (other_byte, split_lines_one a (rw other_byte at h)) refl
]
  where
    apart : true ≡ false → ⊥
    apart h = cc

cut_tab-append : (a b : Bytes) → contains 9 a ≡ false → cut_tab (a ++ (9 ∷ b)) ≡ some (a, b)
unfolding cut_tab contains
cut_tab-append [] b h = refl
cut_tab-append (x ∷ a) b h = elim (Bool-cases (x == 9)) [
  | inl tab ↦ absurd (apart (rw tab at h))
  | inr other_byte ↦ rw (other_byte, cut_tab-append a b (rw other_byte at h)) refl
]
  where
    apart : true ≡ false → ⊥
    apart h = cc

cut_tab-none : (a : Bytes) → contains 9 a ≡ false → cut_tab a ≡ none
unfolding cut_tab contains
cut_tab-none [] h = refl
cut_tab-none (x ∷ a) h = elim (Bool-cases (x == 9)) [
  | inl tab ↦ absurd (apart (rw tab at h))
  | inr other_byte ↦ rw (other_byte, cut_tab-none a (rw other_byte at h)) refl
]
  where
    apart : true ≡ false → ⊥
    apart h = cc

parse_lines-append :
    (text : Text) (xs ys : List Bytes)
    → parse_lines text (xs ++ ys) ≡ parse_lines text xs ++ parse_lines text ys
unfolding parse_lines
parse_lines-append text [] ys = refl
parse_lines-append text (line ∷ xs) ys = elim (Bool-cases (is_empty line)) [
  | inl blank ↦ rw blank (parse_lines-append text xs ys)
  | inr written ↦ rw written (elim (Option-cases (parse_line text line)) [
    | inl bad ↦ rw bad (parse_lines-append text xs ys)
    | inr (e, good) ↦ rw good (ap (◌∷◌ e) (parse_lines-append text xs ys))
  ])
]

no_byte_below : (c : ℕ) (s : Bytes) → c < 48 → all_lower_hex s ≡ true → contains c s ≡ false
unfolding contains all_lower_hex
no_byte_below c [] h lower = refl
no_byte_below c (x ∷ s) h lower = ground (arith, no_byte_below c s h)

pub string-lower : (d : Digest) → AreBytes d → all_lower_hex (string d) ≡ true
unfolding string all_lower_hex
string-lower [] h = refl
string-lower (c ∷ d) h = IsDigestText.lower (
    (parse_digest-IsDigestText (string (c ∷ d))).1
      (c ∷ d, parse_digest-string (c ∷ d) h (λ e. cc), refl, h))

string-nonempty : (c : ℕ) (d : Digest) → AreBytes (c ∷ d) → is_empty (string (c ∷ d)) ≡ false
string-nonempty c d h = IsDigestText.ne_nil (
    (parse_digest-IsDigestText (string (c ∷ d))).1
      (c ∷ d, parse_digest-string (c ∷ d) h (λ e. cc), refl, h))

parse_log_digest-string : (d : Digest) → AreBytes d → parse_log_digest (string d) ≡ ok d
unfolding parse_log_digest string
parse_log_digest-string [] h = refl
parse_log_digest-string (c ∷ d) h =
    rw (string-nonempty c d h) (parse_digest-string (c ∷ d) h (λ e. cc))

-- The digests of an entry are byte strings, and its time fits an int64.
abbrev pub EntryBytes : Entry → Type 0
EntryBytes e = AreBytes (Entry.digest e) × (AreBytes (Entry.old e) × (Entry.time e < 2 ^ 63))

abbrev pub AllBytes : List Entry → Type 0
AllBytes [] = Unit
AllBytes (e ∷ es) = EntryBytes e × AllBytes es

-- The file of a log, oldest entry first.
unfoldable pub log_text : Text → List Entry → Bytes
log_text text [] = []
log_text text (e ∷ es) = log_line text e ++ log_text text es

module _ (text : Text) (laws : TextLaws text) where
  abbrev body : Entry → Bytes
  body e = Text.format_int text e.time ++ (9 ∷ (string e.digest ++ (9 ∷ string e.old)))

  log_line-body : (e : Entry) (rest : Bytes) → log_line text e ++ rest ≡ body e ++ (10 ∷ rest)
  unfolding log_line
  log_line-body e rest =
      let time = Text.format_int text e.time in
      rw
        (
          append_assoc time (9 ∷ (string e.digest ++ (9 ∷ (string e.old ++ (10 ∷ []))))) rest,
          append_assoc time (9 ∷ (string e.digest ++ (9 ∷ string e.old))) (10 ∷ rest),
        )
        (rw
          (
            append_assoc (string e.digest) (9 ∷ (string e.old ++ (10 ∷ []))) rest,
            append_assoc (string e.digest) (9 ∷ string e.old) (10 ∷ rest),
          )
          (rw (append_assoc (string e.old) (10 ∷ []) rest) refl))

  body_one_line : (e : Entry) → EntryBytes e → contains 10 (body e) ≡ false
  unfolding contains
  body_one_line e h =
      rw
        (
          contains-append 10 (Text.format_int text e.time)
              (9 ∷ (string e.digest ++ (9 ∷ string e.old))),
          TextLaws.no_newline laws e.time h.1.1,
        )
        (rw
          (
            contains-append 10 (string e.digest) (9 ∷ string e.old),
            no_byte_below 10 (string e.digest) (omega arith) (string-lower e.digest h.0),
          )
          (no_byte_below 10 (string e.old) (omega arith) (string-lower e.old h.1.0)))

  parse_line-body : (e : Entry) → EntryBytes e → parse_line text (body e) ≡ some e
  unfolding parse_line parse_fields
  parse_line-body e h =
      rw
        (
          cut_tab-append (Text.format_int text e.time) (string e.digest ++ (9 ∷ string e.old))
              (TextLaws.no_tab laws e.time h.1.1),
          parse_line,
        )
        (rw
          (
            cut_tab-append (string e.digest) (string e.old)
                (no_byte_below 9 (string e.digest) (omega arith) (string-lower e.digest h.0)),
            parse_line,
          )
          (rw
            (
              TextLaws.parse_format laws e.time h.1.1,
              parse_log_digest-string e.digest h.0,
              parse_log_digest-string e.old h.1.0,
              parse_fields,
            )
            refl))

  some_byte : (time rest : Bytes) → is_empty (time ++ (9 ∷ rest)) ≡ false
  some_byte [] rest = refl
  some_byte (x ∷ time) rest = refl

  parse_log-lines :
      (es : List Entry) (tail : Bytes)
      → AllBytes es
      → parse_log text tail ≡ []
      → parse_log text (log_text text es ++ tail) ≡ es
  unfolding parse_log log_text parse_lines
  parse_log-lines [] tail h torn = torn
  parse_log-lines (e ∷ es) tail h torn =
      rw
        (
          append_assoc (log_line text e) (log_text text es) tail,
          log_line-body e (log_text text es ++ tail),
        )
        (rw
          (
            split_lines-append (body e) (log_text text es ++ tail),
            split_lines_one (body e) (body_one_line e h.0),
          )
          (rw
            (
              some_byte (Text.format_int text e.time) (string e.digest ++ (9 ∷ string e.old)),
              parse_line-body e h.0,
            )
            (ap (◌∷◌ e) (parse_log-lines es tail h.1 torn))))

  parse_log_torn :
      (u : Bytes) → contains 10 u ≡ false → parse_line text u ≡ none → parse_log text u ≡ []
  unfolding parse_log parse_lines
  parse_log_torn u one_line bad = rw (split_lines_one u one_line) (rw bad (either (is_empty u)))
    where
      either : (b : Bool) → ◌≡◌ {A = List Entry} (if b then [] else []) []
      either true = refl
      either false = refl

  -- A log of entries whose times fit an int64 is read as those entries, oldest first, when such numbers are printed and read without loss; and
  -- a last line that was torn before its second tab is left out, without the loss of any other entry.
  pub parse_log-log_text :
      (es : List Entry) (u v : Bytes)
      → AllBytes es
      → contains 10 u ≡ false
      → contains 9 u ≡ false
      → contains 10 v ≡ false
      → contains 9 v ≡ false
      → (parse_log text (log_text text es) ≡ es)
        × (parse_log text (log_text text es ++ u) ≡ es)
        × (parse_log text (log_text text es ++ (u ++ (9 ∷ v))) ≡ es)
  unfolding contains parse_line
  parse_log-log_text es u v h nu tu nv tv = (
    rw (sym (append-nil (log_text text es)))
        (parse_log-lines es [] h (unfold parse_log split_lines parse_lines in refl)),
    parse_log-lines es u h (parse_log_torn u nu (rw (cut_tab-none u tu, parse_line) refl)),
    parse_log-lines es (u ++ (9 ∷ v)) h (
        parse_log_torn (u ++ (9 ∷ v)) (rw (contains-append 10 u (9 ∷ v), nu) nv)
          (rw (cut_tab-append u v tu, parse_line) (rw (cut_tab-none v tv, parse_line) refl))),
  )
