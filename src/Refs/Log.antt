-- ===== src/Refs/Log.antt =====
-- cas/refs/refs.go: what the store relies on of the system, and the log of a name.
use go_cask.Common.{
  ℕ, ◌^◌, ◌<◌, ◌≡◌, refl, sym, ap, ◌∙◌, inl, inr, true, false, Option, none, some, List, [], ◌∷◌,
  ◌++◌, append_assoc, append-nil, if◌then◌else◌, Bool-cases, Bytes, contains, AreBytes,
}
use go_cask.Errors.{Error, Result, err, ok}
use go_cask.Digest.{Digest}
use go_cask.Backend.{Ctx}
use go_cask.RefName.{validate_name}
use go_cask.RefLog.{log_line, split_lines, parse_lines, parse_log, Entry}
use go_cask.RefLog.Lines.{EntryBytes, AllBytes, log_text, parse_log-log_text, TextLaws}
use go_cask.Refs.{
  is_other, reversed, log_entries, append_log, log, Location, System, value_path, log_path,
}

-- What a log holds whose file was read: a file that is not there is an empty log, and one that cannot be
-- read is none.
abbrev pub log_of : Result Bytes → Option Bytes
log_of (ok content) = some content
log_of (err e) = if is_other 61 e then some [] else none

-- What the store relies on: a step that is acknowledged is seen by the next read of the file, and no file
-- changes whose path does not name the same one. Any step may fail, a read as well. `IsApart` says that
-- two paths name different files, which a file system that ignores case does not grant of all different
-- names; the value of a valid name and the log of one lie in different directories.
pub record SystemLaws (sys : System) : Type 1 where
  pub text_laws : TextLaws (System.text sys)
  pub IsApart : Location → Location → Type 0
  pub kinds_apart :
      (a b : Bytes)
      → validate_name a ≡ ok tt
      → validate_name b ≡ ok tt
      → IsApart (value_path a) (log_path b) × IsApart (log_path b) (value_path a)
  pub publish_done :
      (ctx : Ctx) (l : Location) (content : Bytes) (files : System.Files sys)
      → (System.publish sys ctx l content files).0 ≡ none
      → (System.read_file sys l (System.publish sys ctx l content files).1 ≡ ok content)
        × ((j : Location)
            → IsApart l j
            → System.read_file sys j (System.publish sys ctx l content files).1
              ≡ System.read_file sys j files)
  pub append_done :
      (l : Location) (before content : Bytes) (files : System.Files sys)
      → log_of (System.read_file sys l files) ≡ some before
      → (System.append_file sys l content files).0 ≡ none
      → (System.read_file sys l (System.append_file sys l content files).1 ≡ ok (before ++ content))
        × ((j : Location)
            → IsApart l j
            → System.read_file sys j (System.append_file sys l content files).1
              ≡ System.read_file sys j files)
  pub remove_done :
      (l : Location) (files : System.Files sys)
      → (System.remove_file sys l files).0 ≡ none
      → ((e : Error) × (System.read_file sys l (System.remove_file sys l files).1 ≡ err e)
          × (is_other 61 e ≡ true))
        × ((j : Location)
            → IsApart l j
            → System.read_file sys j (System.remove_file sys l files).1
              ≡ System.read_file sys j files)
  -- A file that can be read is not reported as missing.
  pub remove_there :
      (l : Location) (files : System.Files sys) (content : Bytes) (e : Error)
      → System.read_file sys l files ≡ ok content
      → (System.remove_file sys l files).0 ≡ some e
      → is_other 61 e ≡ false

pub reversed-append :
    (done es : List Entry) (e : Entry) → reversed done (es ++ e ∷ []) ≡ e ∷ reversed done es
unfolding reversed
reversed-append done [] e = refl
reversed-append done (x ∷ es) e = reversed-append (x ∷ done) es e

module _ (sys : System) (laws : SystemLaws sys) where
  -- The log of a name is these entries, oldest first.
  pub record LogIs (files : System.Files sys) (name : Bytes) (es : List Entry) : Type 0 where
    pub written :
        log_of (System.read_file sys (log_path name) files) ≡ some (log_text (System.text sys) es)
    pub entries : AllBytes es

  log_text-append :
      (es : List Entry) (e : Entry)
      → log_text (System.text sys) (es ++ e ∷ [])
        ≡ log_text (System.text sys) es ++ log_line (System.text sys) e
  unfolding log_text
  log_text-append [] e = append-nil _
  log_text-append (x ∷ es) e = rw (log_text-append es e) (
      sym (
        append_assoc (log_line (System.text sys) x) (log_text (System.text sys) es)
          (log_line (System.text sys) e)))

  AllBytes-append :
      (es : List Entry) (e : Entry) → AllBytes es → EntryBytes e → AllBytes (es ++ e ∷ [])
  AllBytes-append [] e h h' = (h', tt)
  AllBytes-append (x ∷ es) e h h' = (h.0, AllBytes-append es e h.1 h')

  -- `appendLog` that returns nil adds its entry, and changes no other file.
  pub append_log-LogIs :
      (now : ℕ) (name : Bytes) (old next : Digest) (files : System.Files sys) (es : List Entry)
      → validate_name name ≡ ok tt
      → LogIs files name es
      → now < 2 ^ 63
      → AreBytes next
      → AreBytes old
      → (append_log sys now name old next files).0 ≡ none
      → LogIs
          (append_log sys now name old next files).1
          name
          (es ++ record { digest = next; old = old; time = now } ∷ [])
        × ((j : Bytes)
            → validate_name j ≡ ok tt
            → System.read_file sys (value_path j) (append_log sys now name old next files).1
              ≡ System.read_file sys (value_path j) files)
  unfolding append_log
  append_log-LogIs now name old next files es valid known small b b' done =
      let views =
        SystemLaws.append_done laws (log_path name) (log_text (System.text sys) es) _ files
          known.written done in
      (
        record {
          written = ap log_of views.0 ∙ ap some (sym (log_text-append es _));
          entries = AllBytes-append es _ known.entries (b, (b', small));
        },
        λ j valid'. views.1 (value_path j) (SystemLaws.kinds_apart laws j name valid' valid).1,
      )

  -- `Log` without a limit, and the newest entry alone.
  pub log-LogIs :
      (name : Bytes) (files : System.Files sys) (es : List Entry) {u : Unit {0}}
      → validate_name name ≡ ok u
      → LogIs files name es
      → log sys none name 0 files ≡ ok (reversed [] es)
  unfolding log log_entries reversed contains parse_log split_lines parse_lines
  log-LogIs name files es valid known =
      rw valid (entries (System.read_file sys (log_path name) files) known.written)
    where
      parsed : parse_log (System.text sys) (log_text (System.text sys) es) ≡ es
      parsed =
          (parse_log-log_text (System.text sys) (SystemLaws.text_laws laws) es [] [] known.entries
            refl refl refl refl).0

      nothing : [] ≡ log_text (System.text sys) es → es ≡ []
      nothing h = sym parsed ∙ rw (sym h) refl

      unwrap : {a b : Bytes} → some a ≡ some b → a ≡ b
      unwrap p = cc

      apart : none ≡ some (log_text (System.text sys) es) → ⊥
      apart p = cc

      entries :
          (r : Result Bytes)
          → log_of r ≡ some (log_text (System.text sys) es)
          → log_entries (System.text sys) 0 r ≡ ok (reversed [] es)
      entries (ok content) h =
          rw (unwrap h) (ap (λ (found : List Entry). ok (reversed [] found)) parsed)
      entries (err e) h = elim (Bool-cases (is_other 61 e)) [
        | inl missing ↦ rw missing (rw (nothing (unwrap (rw missing at h))) refl)
        | inr failed ↦ absurd (apart (rw failed at h))
      ]
