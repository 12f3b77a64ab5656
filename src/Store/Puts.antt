-- ===== src/Store/Puts.antt =====
-- cas/store.go: what `Put` and `PutDedup` leave in the backend, and what a later `Get` returns.
use go_cask.Common.{
  ◌≡◌, refl, sym, ap, ◌∙◌, inl, inr, Bool, true, false, Option, none, some, if◌then◌else◌,
  Bool-cases, Bytes, bytes_eq, bytes_eq_refl,
}
use go_cask.Errors.{◌>>◌, Result-cases, Error, ok, err}
use go_cask.Digest.{Digest}
use go_cask.Reader.{new_reader}
use go_cask.Backend.{Ctx, check_ctx, is_some, unless, Backend, BackendLaws}
use go_cask.Hasher.{HasherLaws}
use go_cask.Store.{marshal, encoded, unmarshal, put, put_dedup, get, Config}
use go_cask.Store.RoundTrip.{unmarshal-marshal, encoded-marshal, get-view, IsStorable}

unless-eq-ok {ℓ} :
    {A : Type ℓ} (failure : Option Error) (a : A) {a' : A}
    → unless failure a ≡ ok a'
    → (failure ≡ none) × (a ≡ a')
unless-eq-ok none a h = (refl, cc)
unless-eq-ok (some e) a h = cc

unless-eq-err {ℓ} :
    {A : Type ℓ} (failure : Option Error) (a : A) {e : Error}
    → unless failure a ≡ err e
    → failure ≡ some e
unless-eq-err none a h = cc
unless-eq-err (some e) a h = cc

module _ {T : Type 0} (c : Config T) (b : Backend) where
  put-encoded :
      (obj : T) (content d : Bytes) (s : Backend.State b)
      → encoded c obj ≡ ok (d, content)
      → put c b none obj s ≡ (
        unless ((Backend.put b none d (new_reader content) s).0) d,
        (Backend.put b none d (new_reader content) s).1,
      )
  unfolding put
  put-encoded obj content d s e = rw (e, put) refl

  module _ (laws : BackendLaws b) where
    -- On a backend that keeps its contract, a `Put` that returns an error has stored nothing.
    pub put-failed :
        (ctx : Ctx) (obj : T) (s : Backend.State b) (e : Error)
        → (put c b ctx obj s).0 ≡ err e
        → (put c b ctx obj s).1 ≡ s
    unfolding put
    put-failed ctx obj s e h = elim (Result-cases (check_ctx ctx >> encoded c obj)) [
      | inl ((d, content), q) ↦
          rw (q, put)
            (BackendLaws.put_failed laws ctx d (new_reader content) s e
              (unless-eq-err (Backend.put b ctx d (new_reader content) s).0 d (rw (q, put) at h)))
      | inr (e', q) ↦ rw (q, put) refl
    ]

    module _ (h : HasherLaws (Config.hasher c)) where
      stored_under :
          (obj : T) (content : Bytes) (s : Backend.State b)
          → BackendLaws.IsValid laws s
          → IsStorable c obj
          → marshal c obj ≡ ok content
          → unmarshal c content ≡ ok obj
          → (failure : Option Error) (s' : Backend.State b)
          → Backend.put b none (HasherLaws.hash h content) (new_reader content) s ≡ (failure, s')
          → failure ≡ none
          → BackendLaws.IsValid laws s'
            × ((j : Digest)
                → BackendLaws.view laws s' j ≡ (
                    if bytes_eq (HasherLaws.hash h content) j
                    then some content
                    else BackendLaws.view laws s j))
            × (get c b none (HasherLaws.hash h content) s' ≡ ok obj)
      stored_under obj content s v st m u failure s' e n =
          let (whole, v', views) =
            BackendLaws.put_done laws none (HasherLaws.hash h content) (new_reader content) s v
              (rw e n) in
          let v'' = rw e at v' in
          let views' = rw e at views in
          (
            v'',
            views',
            get-view c h b laws content content s' v'' (
                  rw (views' (HasherLaws.hash h content), bytes_eq_refl (HasherLaws.hash h content))
                    refl)
                ∙ u,
          )

      -- On a live context, over a backend and a hasher that keep their contracts: a storable object that
      -- `Put` stores is filed under the hash of its frame, no other address changes, the backend stays
      -- valid, and `Get` under the digest that `Put` returned gives the object back.
      pub put-get :
          (obj : T) (d : Digest) (s : Backend.State b)
          → BackendLaws.IsValid laws s
          → IsStorable c obj
          → (put c b none obj s).0 ≡ ok d
          → (content : Bytes) × (marshal c obj ≡ ok content)
            × (d ≡ HasherLaws.hash h content)
            × BackendLaws.IsValid laws (put c b none obj s).1
            × ((j : Digest)
                → BackendLaws.view laws (put c b none obj s).1 j
                  ≡ (if bytes_eq d j then some content else BackendLaws.view laws s j))
            × (get c b none d (put c b none obj s).1 ≡ ok obj)
      put-get obj d s v st done =
          let (content, m, u) = unmarshal-marshal c obj st in
          let step =
            put-encoded obj content (HasherLaws.hash h content) s
              (encoded-marshal c h obj content st m) in
          let (n, same) = unless-eq-ok _ _ (rw step at done) in
          let (v', views, got) = stored_under obj content s v st m u _ _ refl n in
          (content, m, sym same, rw step v', rw (sym same, step) views, rw (sym same, step) got)

      put_dedup_known :
          (obj : T) (content : Bytes) (s : Backend.State b) (flag : Bool)
          → BackendLaws.IsValid laws s
          → encoded c obj ≡ ok (HasherLaws.hash h content, content)
          → is_some (BackendLaws.view laws s (HasherLaws.hash h content)) ≡ flag
          → put_dedup c b none obj s ≡ (
              if flag then (ok (HasherLaws.hash h content, true), s) else (
                unless
                    ((Backend.put b none (HasherLaws.hash h content) (new_reader content) s).0)
                    (HasherLaws.hash h content, false),
                (Backend.put b none (HasherLaws.hash h content) (new_reader content) s).1,
              ))
      unfolding put_dedup
      put_dedup_known obj content s true v e f =
          rw (e, put_dedup)
            (rw (BackendLaws.exists_lem laws _ s v (HasherLaws.hash_present h content)) (rw f refl))
      put_dedup_known obj content s false v e f =
          rw (e, put_dedup)
            (rw (BackendLaws.exists_lem laws _ s v (HasherLaws.hash_present h content)) (rw f refl))

      -- Under the same conditions `PutDedup` reports whether the address was occupied; asked again for
      -- the same object, it reports a duplicate under the same digest, and writes nothing.
      pub put_dedup-again :
          (obj : T) (d : Digest) (deduplicated : Bool) (s : Backend.State b)
          → BackendLaws.IsValid laws s
          → IsStorable c obj
          → (put_dedup c b none obj s).0 ≡ ok (d, deduplicated)
          → (deduplicated ≡ is_some (BackendLaws.view laws s d))
            × (put_dedup c b none obj (put_dedup c b none obj s).1
                ≡ (ok (d, true), (put_dedup c b none obj s).1))
      put_dedup-again obj d flag s v st done =
          let (content, m, u) = unmarshal-marshal c obj st in
          let e = encoded-marshal c h obj content st m in
          elim (Bool-cases (is_some (BackendLaws.view laws s (HasherLaws.hash h content)))) [
            | inl old ↦
                let step = put_dedup_known obj content s true v e old in
                let (n, same) = unless-eq-ok none _ (rw step at done) in
                (
                  rw (sym (ap (λ p. p.0) same), sym (ap (λ p. p.1) same)) (sym old),
                  rw (sym (ap (λ p. p.0) same)) (rw step step),
                )
            | inr new ↦
                let step = put_dedup_known obj content s false v e new in
                let (n, same) = unless-eq-ok _ _ (rw step at done) in
                let (v', views, got) = stored_under obj content s v st m u _ _ refl n in
                let held : is_some (
                      BackendLaws.view laws
                        (Backend.put b none (HasherLaws.hash h content) (new_reader content) s).1
                        (HasherLaws.hash h content))
                    ≡ true =
                  rw (views (HasherLaws.hash h content), bytes_eq_refl (HasherLaws.hash h content))
                    refl in
                (
                  rw (sym (ap (λ p. p.0) same), sym (ap (λ p. p.1) same)) (sym new),
                  rw (sym (ap (λ p. p.0) same))
                      (rw step (put_dedup_known obj content _ true v' e held)),
                )
          ]
