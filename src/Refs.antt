-- ===== src/Refs.antt =====
-- cas/refs/refs.go: named references in files, each with a log of its changes.
pub mod Log
pub mod Current
pub mod Resolved
use go_cask.Common.{
  ℕ, zero, Bool, false, not, ◌&&◌, ◌||◌, Option, none, some, List, [], ◌∷◌, ◌++◌, map, ltb, ◌==◌,
  if◌then◌else◌, is_empty, length, take, Bytes, bytes_eq,
}
use go_cask.Common.Keys.{sorted_keys}
use go_cask.Errors.{is, ◌>>=◌, fail_if, ◌>>◌, Error, Result, wrap, wrap_cause, other, err, ok}
use go_cask.Digest.{Digest, is_zero, string, prefix, parse_digest, check_digest}
use go_cask.Backend.{Ctx, check_ctx, Effect, found, or_fail}
use go_cask.RefName.{invalid_name, starts_with, validate_name}
use go_cask.RefLog.{log_line, parse_log, Entry, Text}

-- The two files of a name: `valuePath` and `logPath`.
pub data Location : Type 0 where
  value_path log_path : Bytes → Location

-- The operating system and the libraries of Go, as far as the store calls them. `publish` is
-- atomicfile.Publish, `append_file` the open, write, sync and close of `appendLog`, `walk` the names of
-- the files that `List` visits and does not skip.
pub record System : Type 1 where
  pub Files : Type 0
  pub read_file : Location → Files → Result Bytes
  pub publish : Ctx → Location → Bytes → Files → Effect Files
  pub append_file : Location → Bytes → Files → Effect Files
  pub remove_file : Location → Files → Effect Files
  pub walk : Files → Result (List Bytes)
  pub text : Text

-- `os.ErrNotExist`, and `ErrNotFound` and `ErrAmbiguous` of this package.
abbrev pub not_exist : Error
not_exist = other 61

abbrev pub ref_not_found : Error
ref_not_found = other 62

abbrev pub ambiguous : Error
ambiguous = other 63

-- `errors.Is(err, …)` for such an error.
unfoldable pub is_other : ℕ → Error → Bool
is_other n (wrap s) = false
is_other n (wrap_cause a b) = is_other n a || is_other n b
is_other n (other m) = n == m

pub record Ref : Type 0 where
  pub name : Bytes
  pub digest : Digest

-- The value that stands before a change: absent where the reference does not exist.
unfoldable pub old_value : Result Digest → Result Digest
old_value (ok d) = ok d
old_value (err e) = if is_other 62 e then ok [] else err e

-- The loops of `Resolve`.
unfoldable pub find_exact : Bytes → List Ref → Option Ref
find_exact name [] = none
find_exact name (r ∷ refs) =
    let rest = find_exact name refs in if bytes_eq r.name name then some r else rest

unfoldable pub matches : Bytes → List Ref → List Ref
matches prefix [] = []
matches prefix (r ∷ refs) =
    let rest = matches prefix refs in if starts_with prefix r.name then r ∷ rest else rest

unfoldable pub resolve_in : Bytes → List Ref → Result Ref
resolve_in name refs = elim (find_exact name refs) [
  | some r ↦ ok r
  | none ↦ elim (matches name refs) [
    | [] ↦ err ref_not_found
    | ◌∷◌ r more ↦ elim more [ [] ↦ ok r | ◌∷◌ r' more' ↦ err ambiguous ]
  ]
]

unfoldable pub present_digests : List Ref → List Digest
present_digests [] = []
present_digests (r ∷ refs) =
    let rest = present_digests refs in if is_zero (Ref.digest r) then rest else Ref.digest r ∷ rest

unfoldable pub reversed : List Entry → List Entry → List Entry
reversed done [] = done
reversed done (e ∷ es) = reversed (e ∷ done) es

unfoldable pub log_entries : Text → ℕ → Result Bytes → Result (List Entry)
log_entries text limit (err e) = if is_other 61 e then ok [] else err e
log_entries text limit (ok content) =
    let entries = reversed [] (parse_log text content) in
    ok (if ltb 0 limit && ltb limit (length entries) then take limit entries else entries)

unfoldable pub previous_in : List Entry → Result Digest
previous_in [] = err ref_not_found
previous_in (e ∷ es) = if is_zero (Entry.old e) then err ref_not_found else ok (Entry.old e)

-- `if err := …; err != nil { return err }` of an operation on the files.
abbrev pub and_then : {S : Type 0} → Effect S → (S → Effect S) → Effect S
and_then (none, s) k = k s
and_then (some e, s) k = (some e, s)

-- `if err := os.Remove(…); err != nil && !errors.Is(err, os.ErrNotExist) { return err }; return nil`.
unfoldable pub tolerate_missing : {S : Type 0} → Effect S → Effect S
tolerate_missing (none, s) = (none, s)
tolerate_missing (some e, s) = if is_other 61 e then (none, s) else (some e, s)

module _ (sys : System) where
  unfoldable pub read_value : Bytes → System.Files sys → Result Digest
  read_value name files = elim (System.read_file sys (value_path name) files) [
    | err e ↦ if is_other 61 e then err ref_not_found else err e
    | ok content ↦ parse_digest (Text.trim_space (System.text sys) content)
  ]

  unfoldable pub get : Ctx → Bytes → System.Files sys → Result Digest
  get ctx name files = do check_ctx ctx; validate_name name; read_value name files

  unfoldable pub append_log :
      ℕ → Bytes → Digest → Digest → System.Files sys → Effect (System.Files sys)
  append_log now name old next files =
      System.append_file sys (log_path name)
        (log_line (System.text sys) (record { digest = next; old = old; time = now })) files

  -- `Set` at the time `now`.
  unfoldable pub set : Ctx → ℕ → Bytes → Digest → System.Files sys → Effect (System.Files sys)
  set ctx now name d files =
      or_fail
        (check_ctx ctx >> validate_name name >> check_digest d >> old_value (read_value name files))
        files
        (λ old.
          and_then (System.publish sys ctx (value_path name) (string d ++ (10 ∷ [])) files)
            (append_log now name old d))

  unfoldable pub delete : Ctx → ℕ → Bytes → System.Files sys → Effect (System.Files sys)
  delete ctx now name files = or_fail (check_ctx ctx >> validate_name name) files (λ done.
      elim (read_value name files) [
        | err e ↦ if is_other 62 e then (none, files) else (some e, files)
        | ok old ↦
            and_then (append_log now name old [] files)
              (λ files'. tolerate_missing (System.remove_file sys (value_path name) files'))
      ])

  unfoldable pub read_all_values : List Bytes → System.Files sys → Result (List (Bytes × Digest))
  read_all_values [] files = ok []
  read_all_values (name ∷ names) files = do
    d ← read_value name files
    rest ← read_all_values names files
    ok ((name, d) ∷ rest)

  unfoldable pub list : Ctx → System.Files sys → Result (List Ref)
  list ctx files = do
    check_ctx ctx
    names ← System.walk sys files
    found ← read_all_values names files
    ok (
        map (λ ((name, d) : Bytes × Digest). record { name = name; digest = d })
          (sorted_keys found))

  unfoldable pub resolve : Ctx → Bytes → System.Files sys → Result Ref
  resolve ctx name files = do
    check_ctx ctx
    fail_if (is_empty name) invalid_name
    refs ← list ctx files
    resolve_in name refs

  unfoldable pub roots : Ctx → System.Files sys → Result (List Digest)
  roots ctx files = do refs ← list ctx files; ok (present_digests refs)

  -- `Log`; a limit of zero or less is no limit.
  unfoldable pub log : Ctx → Bytes → ℕ → System.Files sys → Result (List Entry)
  log ctx name limit files = do
    check_ctx ctx
    validate_name name
    log_entries (System.text sys) limit (System.read_file sys (log_path name) files)

  unfoldable pub previous : Ctx → Bytes → System.Files sys → Result Digest
  previous ctx name files = do entries ← log ctx name 1 files; previous_in entries
