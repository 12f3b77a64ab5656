-- ===== src/Stream/Stored.antt =====
-- cas/stream.go: where a stream is stored, and that it is stored whole.
use go_cask.Common.{
  ◌≡◌, refl, sym, ap, ◌∙◌, inl, inr, Bool, true, false, not, ◌&&◌, Option, none, some,
  if◌then◌else◌, Bool-cases, Bytes, bytes_eq,
}
use go_cask.Errors.{Error, Result, ok}
use go_cask.Digest.{Digest}
use go_cask.Reader.{new_reader, Reader}
use go_cask.Backend.{is_some, unless, Backend, BackendLaws}
use go_cask.Hasher.{Hasher, HasherLaws}
use go_cask.Stream.{address, put_stream}

unless-eq-ok {ℓ} :
    {A : Type ℓ} (failure : Option Error) (a : A) {a' : A}
    → unless failure a ≡ ok a'
    → (failure ≡ none) × (a ≡ a')
unless-eq-ok none a h = (refl, cc)
unless-eq-ok (some e) a h = cc

unchanged : (p : Bool) (x y : Option Bytes) → y ≡ (if p && false then x else y)
unchanged true x y = refl
unchanged false x y = refl

changed : (p : Bool) (x y : Option Bytes) → (if p then x else y) ≡ (if p && true then x else y)
changed true x y = refl
changed false x y = refl

module _ (b : Backend) (laws : BackendLaws b) (hasher : Hasher) (h : HasherLaws hasher)
    (spool : Reader → Result Bytes) where
  address_live :
      (r : Reader) (s : Backend.State b) (content : Bytes)
      → BackendLaws.IsValid laws s
      → spool r ≡ ok content
      → address b hasher spool none none r s
        ≡ ok (
          HasherLaws.hash h content,
          is_some (BackendLaws.view laws s (HasherLaws.hash h content)),
          content,
        )
  unfolding address
  address_live r s content v e = rw e (
      rw (HasherLaws.digest_lem h content)
        (rw (BackendLaws.exists_lem laws _ s v (HasherLaws.hash_present h content)) refl))

  old_step :
      (r : Reader) (s : Backend.State b) (content : Bytes)
      → address b hasher spool none none r s
        ≡ ok (
          HasherLaws.hash h content,
          is_some (BackendLaws.view laws s (HasherLaws.hash h content)),
          content,
        )
      → is_some (BackendLaws.view laws s (HasherLaws.hash h content)) ≡ true
      → put_stream b hasher spool none none r s ≡ (ok (HasherLaws.hash h content, true), s)
  unfolding put_stream
  old_step r s content live old = rw (live, put_stream) (rw old refl)

  new_step :
      (r : Reader) (s : Backend.State b) (content : Bytes)
      → address b hasher spool none none r s
        ≡ ok (
          HasherLaws.hash h content,
          is_some (BackendLaws.view laws s (HasherLaws.hash h content)),
          content,
        )
      → is_some (BackendLaws.view laws s (HasherLaws.hash h content)) ≡ false
      → put_stream b hasher spool none none r s ≡ (
        unless
            ((Backend.put b none (HasherLaws.hash h content) (new_reader content) s).0)
            (HasherLaws.hash h content, false),
        (Backend.put b none (HasherLaws.hash h content) (new_reader content) s).1,
      )
  unfolding put_stream
  new_step r s content live new = rw (live, put_stream) (rw new refl)

  -- On a live context, over a backend and a hasher that keep their contracts: a stream that is spooled
  -- whole, and for which `PutStream` returns a digest, is addressed by the hash of its bytes.
  -- The answer says whether the address was occupied; if it was not, the bytes are now stored there, and
  -- nothing else has changed.
  pub put_stream-stored :
      (r : Reader) (s : Backend.State b) (d : Digest) (deduplicated : Bool)
      → BackendLaws.IsValid laws s
      → spool r ≡ ok r.content
      → (put_stream b hasher spool none none r s).0 ≡ ok (d, deduplicated)
      → (d ≡ HasherLaws.hash h r.content)
        × (deduplicated ≡ is_some (BackendLaws.view laws s d))
        × BackendLaws.IsValid laws (put_stream b hasher spool none none r s).1
        × ((j : Digest)
            → BackendLaws.view laws (put_stream b hasher spool none none r s).1 j ≡ (
                if bytes_eq d j && not deduplicated
                then some r.content
                else BackendLaws.view laws s j))
  unfolding put_stream
  put_stream-stored r s d flag v e done =
      let live = address_live r s r.content v e in
      elim (Bool-cases (is_some (BackendLaws.view laws s (HasherLaws.hash h r.content)))) [
        | inl old ↦
            let step = old_step r s r.content live old in
            let (n, same) = unless-eq-ok none _ (rw step at done) in
            (
              sym (ap (λ p. p.0) same),
              rw (sym (ap (λ p. p.0) same), sym (ap (λ p. p.1) same)) (sym old),
              rw step v,
              λ j. rw (step, sym (ap (λ p. p.1) same)) (unchanged (bytes_eq d j) _ _),
            )
        | inr new ↦
            let step = new_step r s r.content live new in
            let (n, same) = unless-eq-ok _ _ (rw step at done) in
            let (whole, v', views) =
              BackendLaws.put_done laws none (HasherLaws.hash h r.content) (new_reader r.content) s
                v n in
            (
              sym (ap (λ p. p.0) same),
              rw (sym (ap (λ p. p.0) same), sym (ap (λ p. p.1) same)) (sym new),
              rw step v',
              λ j.
                  rw (step, sym (ap (λ p. p.0) same), sym (ap (λ p. p.1) same))
                    (views j ∙ changed (bytes_eq (HasherLaws.hash h r.content) j) _ _),
            )
      ]
