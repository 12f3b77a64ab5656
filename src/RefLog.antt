-- ===== src/RefLog.antt =====
-- cas/refs/refs.go: the text of a log, one line for each change of a reference.
pub mod Lines
use go_cask.Common.{
  ℕ, not, Option, none, some, List, [], ◌∷◌, ◌++◌, ◌==◌, if◌then◌else◌, is_empty, Bytes,
}
use go_cask.Errors.{is, ◌>>=◌, ◌>>◌, Result, err, ok}
use go_cask.Digest.{Digest, string, parse_digest}

-- `Entry`; the time is its UnixNano, an int64 that is not negative.
pub record Entry : Type 0 where
  pub digest : Digest
  pub old : Digest
  pub time : ℕ

-- strings.TrimSpace, and the decimal int64 of fmt and strconv: `none` is an error of ParseInt. The
-- clock is not before 1970.
pub record Text : Type 0 where
  pub trim_space : Bytes → Bytes
  pub format_int : ℕ → Bytes
  pub parse_int : Bytes → Option ℕ

-- The line of `appendLog`: tab 9, newline 10.
unfoldable pub log_line : Text → Entry → Bytes
log_line text e =
    Text.format_int text e.time ++ (9 ∷ (string e.digest ++ (9 ∷ (string e.old ++ (10 ∷ [])))))

-- `strings.Split(data, "\n")`.
abbrev pub push_front : ℕ → List Bytes → List Bytes
push_front x [] = (x ∷ []) ∷ []
push_front x (line ∷ lines) = (x ∷ line) ∷ lines

unfoldable pub split_lines : Bytes → List Bytes
split_lines [] = [] ∷ []
split_lines (x ∷ content) =
    let rest = split_lines content in if x == 10 then [] ∷ rest else push_front x rest

-- What stands before the first tab, and after it.
unfoldable pub cut_tab : Bytes → Option (Bytes × Bytes)
cut_tab [] = none
cut_tab (x ∷ line) =
    let rest = cut_tab line in
    if x == 9 then some ([], line) else elim rest [ none ↦ none | some (a, b) ↦ some (x ∷ a, b) ]

unfoldable pub parse_log_digest : Bytes → Result Digest
parse_log_digest s = if is_empty s then ok [] else parse_digest s

-- The three fields of `strings.SplitN(line, "\t", 3)`; a field that does not parse drops the line.
unfoldable pub parse_fields : Text → Bytes → Bytes → Bytes → Option Entry
parse_fields text time next old = elim (Text.parse_int text time) [
  | none ↦ none
  | some ns ↦ elim (parse_log_digest next) [
    | err e ↦ none
    | ok d ↦ elim (parse_log_digest old) [
      | err e ↦ none
      | ok o ↦ some (record { digest = d; old = o; time = ns })
    ]
  ]
]

unfoldable pub parse_line : Text → Bytes → Option Entry
parse_line text line = elim (cut_tab line) [
  | none ↦ none
  | some (time, rest) ↦ elim (cut_tab rest) [
    | none ↦ none
    | some (next, old) ↦ parse_fields text time next old
  ]
]

unfoldable pub parse_lines : Text → List Bytes → List Entry
parse_lines text [] = []
parse_lines text (line ∷ lines) =
    let rest = parse_lines text lines in
    if is_empty line then rest else elim (parse_line text line) [ none ↦ rest | some e ↦ e ∷ rest ]

unfoldable pub parse_log : Text → Bytes → List Entry
parse_log text content = parse_lines text (split_lines content)
