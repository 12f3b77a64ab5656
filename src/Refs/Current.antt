-- ===== src/Refs/Current.antt =====
-- cas/refs/refs.go: the current value of a reference after it is set or deleted.
use go_cask.Common.{
  ℕ, ◌^◌, ◌<◌, ◌≡◌, refl, sym, ap, ◌∙◌, inl, inr, true, false, none, some, List, [], ◌∷◌, ◌++◌,
  if◌then◌else◌, Bool-cases, Bytes, AreBytes,
}
use go_cask.Errors.{◌>>◌, >>=-eq-ok, Error, Result, err, ok}
use go_cask.Digest.{Digest, is_zero, string, parse_digest, check_digest}
use go_cask.Digest.Text.{parse_digest-string, parse_digest-AreBytes}
use go_cask.Backend.{Effect, or_fail-done, check_digest-eq-ok}
use go_cask.RefName.{validate_name}
use go_cask.RefLog.{Entry, Text}
use go_cask.RefLog.Lines.{string-lower, TextLaws}
use go_cask.Refs.{
  ref_not_found, is_other, old_value, reversed, and_then, tolerate_missing, read_value, get,
  append_log, set, delete, log, System, value_path, log_path,
}
use go_cask.Refs.Log.{log_of, reversed-append, append_log-LogIs, log-LogIs, SystemLaws, LogIs}

and_then_done :
    {S : Type 0} (p : Effect S) (k : S → Effect S)
    → (and_then p k).0 ≡ none
    → (p.0 ≡ none) × (and_then p k ≡ k p.1)
and_then_done (none, s) k h = (refl, refl)
and_then_done (some e, s) k h = cc

tolerate_missing_done :
    {S : Type 0} (p : Effect S)
    → ((e : Error) → p.0 ≡ some e → is_other 61 e ≡ false)
    → (tolerate_missing p).0 ≡ none
    → (p.0 ≡ none) × (tolerate_missing p ≡ p)
unfolding tolerate_missing
tolerate_missing_done (none, s) there h = (refl, refl)
tolerate_missing_done (some e, s) there h = absurd (apart (rw (there e refl) at h))
  where
    apart : some e ≡ none → ⊥
    apart p = cc

module _ (sys : System) (laws : SystemLaws sys) where
  -- What a value file says.
  abbrev value_of : Result Bytes → Result Digest
  value_of (err e) = if is_other 61 e then err ref_not_found else err e
  value_of (ok content) = parse_digest (Text.trim_space (System.text sys) content)

  read_value-read_file :
      (name : Bytes) (files : System.Files sys)
      → read_value sys name files ≡ value_of (System.read_file sys (value_path name) files)
  unfolding read_value
  read_value-read_file name files = said (System.read_file sys (value_path name) files)
    where
      said :
          (r : Result Bytes)
          → elim r [
            | err e ↦ if is_other 61 e then err ref_not_found else err e
            | ok content ↦ parse_digest (Text.trim_space (System.text sys) content)
          ]
            ≡ value_of r
      said (err e) = refl
      said (ok content) = refl

  read_value-same :
      (name : Bytes) (files files' : System.Files sys)
      → System.read_file sys (value_path name) files' ≡ System.read_file sys (value_path name) files
      → read_value sys name files' ≡ read_value sys name files
  read_value-same name files files' h =
      read_value-read_file name files' ∙ ap value_of h ∙ sym (read_value-read_file name files)

  -- A value file that `Set` wrote is read as its digest.
  read_value_written :
      (name : Bytes) (d : Digest) (files : System.Files sys)
      → AreBytes d
      → is_zero d ≡ false
      → System.read_file sys (value_path name) files ≡ ok (string d ++ (10 ∷ []))
      → read_value sys name files ≡ ok d
  read_value_written name d files small present h =
      read_value-read_file name files
      ∙ ap value_of h
      ∙ rw (TextLaws.trim_line (SystemLaws.text_laws laws) (string d) (string-lower d small))
          (parse_digest-string d small (λ e. absurd (apart (sym present ∙ ap is_zero e))))
    where
      apart : false ≡ true → ⊥
      apart h = cc

  value_of-AreBytes :
      (r : Result Bytes) (old : Digest) → old_value (value_of r) ≡ ok old → AreBytes old
  unfolding old_value is_other
  value_of-AreBytes (err e) old h = elim (Bool-cases (is_other 61 e)) [
    | inl missing ↦ rw (unwrap (sym (rw missing at h))) tt
    | inr failed ↦ elim (Bool-cases (is_other 62 e)) [
      | inl never ↦ rw (unwrap (sym (rw (failed, never) at h))) tt
      | inr stops ↦ absurd (apart (rw (failed, stops) at h))
    ]
  ]
    where
      unwrap : {a b : Digest} → ok a ≡ ok b → a ≡ b
      unwrap p = cc

      apart : err e ≡ ok old → ⊥
      apart p = cc
  value_of-AreBytes (ok content) old h =
      go (parse_digest (Text.trim_space (System.text sys) content)) refl h
    where
      go :
          (r : Result Digest)
          → parse_digest (Text.trim_space (System.text sys) content) ≡ r
          → old_value r ≡ ok old
          → AreBytes old
      go (ok d) parsed h' = parse_digest-AreBytes _ old (parsed ∙ h')
      go (err e) parsed h' = elim (Bool-cases (is_other 62 e)) [
        | inl missing ↦ rw (unwrap (sym (rw missing at h'))) tt
        | inr failed ↦ absurd (apart (rw failed at h'))
      ]
        where
          unwrap : {a b : Digest} → ok a ≡ ok b → a ≡ b
          unwrap p = cc

          apart : err e ≡ ok old → ⊥
          apart p = cc

  -- The files after the value was written.
  abbrev published : Bytes → Digest → System.Files sys → Effect (System.Files sys)
  published name d files = System.publish sys none (value_path name) (string d ++ (10 ∷ [])) files

  -- The steps of a `Set` that returns nil.
  set_steps :
      (now : ℕ) (name : Bytes) (d : Digest) (files : System.Files sys)
      → (set sys none now name d files).0 ≡ none
      → (old : Digest) × (validate_name name ≡ ok tt)
        × (is_zero d ≡ false)
        × (old_value (read_value sys name files) ≡ ok old)
        × ((published name d files).0 ≡ none)
        × (set sys none now name d files ≡ append_log sys now name old d (published name d files).1)
  unfolding set
  set_steps now name d files done =
      let (old, checks, same) =
        or_fail-done (validate_name name >> check_digest d >> old_value (read_value sys name files))
          files _ done in
      let (u, both, value) =
        >>=-eq-ok (validate_name name >> check_digest d)
          (λ x. old_value (read_value sys name files)) checks in
      let (w, valid, present) = >>=-eq-ok (validate_name name) (λ x. check_digest d) both in
      let (wrote, after) =
        and_then_done (published name d files) (append_log sys now name old d)
          (ap (λ (x : Effect (System.Files sys)). x.0) (sym same) ∙ done) in
      (old, valid, check_digest-eq-ok d present, value, wrote, same ∙ after)

  -- `Set` on a live context that returns nil, at a time that fits an int64: `Get` gives the new digest, no
  -- reference with a valid name and a file of its own changes, and the newest entry of the log is the
  -- change from the old value, before all that was logged, if the log of the name held whole entries and
  -- the file system does what it acknowledges.
  pub set-get :
      (now : ℕ) (name : Bytes) (d : Digest) (files : System.Files sys) (es : List Entry)
      → AreBytes d
      → now < 2 ^ 63
      → LogIs sys laws files name es
      → (set sys none now name d files).0 ≡ none
      → (j : Bytes) → validate_name j ≡ ok tt
      → SystemLaws.IsApart laws (value_path name) (value_path j)
      → (old : Digest) × (old_value (read_value sys name files) ≡ ok old)
        × (get sys none name (set sys none now name d files).1 ≡ ok d)
        × (read_value sys j (set sys none now name d files).1 ≡ read_value sys j files)
        × (log sys none name 0 (set sys none now name d files).1
            ≡ ok (record { digest = d; old = old; time = now } ∷ reversed [] es))
  unfolding get
  set-get now name d files es small time known done j valid' apart =
      let (old, valid, present, value, wrote, same) = set_steps now name d files done in
      let views =
        SystemLaws.publish_done laws none (value_path name) (string d ++ (10 ∷ [])) files wrote in
      let old_small =
        value_of-AreBytes (System.read_file sys (value_path name) files) old
          (ap old_value (sym (read_value-read_file name files)) ∙ value) in
      let still : LogIs sys laws (published name d files).1 name es = record {
        written =
            ap log_of
              (views.1 (log_path name) (SystemLaws.kinds_apart laws name name valid valid).0)
            ∙ known.written;
        entries = known.entries;
      } in
      let (logged, kept) =
        append_log-LogIs sys laws now name old d (published name d files).1 es valid still time
          small old_small (ap (λ (x : Effect (System.Files sys)). x.0) (sym same) ∙ done) in
      rw same (
        old,
        value,
        rw valid (read_value_written name d _ small present (kept name valid ∙ views.0)),
        read_value-same j files _ (kept j valid' ∙ views.1 (value_path j) apart),
        log-LogIs sys laws name _ _ valid logged ∙ ap ok (reversed-append [] es _),
      )

  -- The steps of a `Delete` that returns nil, of a reference that is there.
  delete_steps :
      (now : ℕ) (name : Bytes) (files : System.Files sys) {old : Digest}
      → read_value sys name files ≡ ok old
      → (delete sys none now name files).0 ≡ none
      → (validate_name name ≡ ok tt)
        × ((append_log sys now name old [] files).0 ≡ none)
        × (delete sys none now name files
            ≡ tolerate_missing
                (System.remove_file sys (value_path name) (append_log sys now name old [] files).1))
  unfolding delete
  delete_steps now name files {old} there done =
      let (u, valid, same) = or_fail-done (validate_name name) files _ done in
      let logged : delete sys none now name files
          ≡ and_then (append_log sys now name old [] files)
              (λ files'. tolerate_missing (System.remove_file sys (value_path name) files')) =
        same ∙ rw there refl in
      let (wrote, after) =
        and_then_done (append_log sys now name old [] files)
          (λ files'. tolerate_missing (System.remove_file sys (value_path name) files'))
          (ap (λ (x : Effect (System.Files sys)). x.0) (sym logged) ∙ done) in
      (valid, wrote, logged ∙ after)

  -- `Delete` on a live context that returns nil, of a reference with a value: `Get` reports it as
  -- missing, no reference with a valid name and a file of its own changes, and its log ends with a tombstone that keeps the old value,
  -- under the conditions of `Set`.
  pub delete-get :
      (now : ℕ) (name : Bytes) (files : System.Files sys) (es : List Entry) (old : Digest)
      → LogIs sys laws files name es
      → read_value sys name files ≡ ok old
      → (delete sys none now name files).0 ≡ none
      → now < 2 ^ 63
      → (j : Bytes) → validate_name j ≡ ok tt
      → SystemLaws.IsApart laws (value_path name) (value_path j)
      → (get sys none name (delete sys none now name files).1 ≡ err ref_not_found)
        × (read_value sys j (delete sys none now name files).1 ≡ read_value sys j files)
        × (log sys none name 0 (delete sys none now name files).1
            ≡ ok (record { digest = []; old = old; time = now } ∷ reversed [] es))
  unfolding get old_value
  delete-get now name files es old known there done time j valid' apart =
      let (valid, wrote, after) = delete_steps now name files there done in
      let logged_files = (append_log sys now name old [] files).1 in
      let old_small =
        value_of-AreBytes (System.read_file sys (value_path name) files) old
          (ap old_value (sym (read_value-read_file name files) ∙ there)) in
      let (logged, kept) =
        append_log-LogIs sys laws now name old [] files es valid known time tt old_small wrote in
      let (content, stands) =
        value_there (System.read_file sys (value_path name) files)
          (sym (read_value-read_file name files) ∙ there) in
      let (gone, same) =
        tolerate_missing_done (System.remove_file sys (value_path name) logged_files)
          (λ e failed.
            SystemLaws.remove_there laws (value_path name) logged_files content e
              (kept name valid ∙ stands) failed)
          (ap (λ (x : Effect (System.Files sys)). x.0) (sym after) ∙ done) in
      let views = SystemLaws.remove_done laws (value_path name) logged_files gone in
      let missing : value_of (
            System.read_file sys (value_path name)
              (System.remove_file sys (value_path name) logged_files).1)
          ≡ err ref_not_found =
        (let (e, failed, gone_is) = views.0 in ap value_of failed ∙ rw gone_is refl) in
      rw (after ∙ same) (
        rw valid (read_value-read_file name _ ∙ missing),
        read_value-same j files _ (views.1 (value_path j) apart ∙ kept j valid'),
        log-LogIs sys laws name _ _ valid (record {
          written =
              ap log_of
                (views.1 (log_path name) (SystemLaws.kinds_apart laws name name valid valid).0)
              ∙ logged.written;
          entries = logged.entries;
        })
            ∙ ap ok (reversed-append [] es _),
      )
    where
      value_there : (r : Result Bytes) → value_of r ≡ ok old → (content : Bytes) × (r ≡ ok content)
      value_there (ok content) h = (content, refl)
      value_there (err e) h = elim (Bool-cases (is_other 61 e)) [
        | inl missing ↦ absurd (no_value (rw missing at h))
        | inr failed ↦ absurd (no_value (rw failed at h))
      ]
        where
          no_value : {f : Error} → err f ≡ ok old → ⊥
          no_value p = cc
