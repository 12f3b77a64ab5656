-- ===== src/Cache/Lru/Answers.antt =====
-- cas/cache/lru/lru.go: what a cache answers is what the store answers.
use go_cask.Common.{
  ℕ, zero, suc, ◌≡◌, refl, sym, ap, ◌∙◌, ◌⊎◌, inl, inr, Bool, true, false, not, Option, none, some,
  List, ltb, if◌then◌else◌, Bool-cases, Option-cases, length, Bytes, bytes_eq, bytes_eq_iff,
  AreBytes,
}
use go_cask.Common.Assoc.{elem, lookup, insert, remove, lookup-insert, lookup-remove}
use go_cask.Errors.{is, ◌>>=◌, fail_if, ◌>>◌, Error, Result, not_found, wrap, err, ok}
use go_cask.Digest.{Digest, hex_decode, string}
use go_cask.Digest.Text.{hex_decode-hex_encode, string-hex_encode}
use go_cask.Backend.{is_some}
use go_cask.Cache.{write_back, load, evict_key, incr_evicts, CachedObject, CachedStore, Source}
use go_cask.Cache.Lru.{
  new, back, push_found, or_lookup, touch, drop_key, make_room, note, proxy_object, load_found,
  get_object, Cache,
}
use go_cask.Cache.Lru.Tracked.{with_new}
use go_cask.Cache.Lru.Bounded.{proxy-Proxied, Proxied, hit, miss, fresh}

string-injective : (a b : Digest) → AreBytes a → AreBytes b → string a ≡ string b → a ≡ b
string-injective a b ha hb h = unwrap (
    sym (hex_decode-hex_encode a ha)
    ∙ ap hex_decode (sym (string-hex_encode a) ∙ h ∙ string-hex_encode b)
    ∙ hex_decode-hex_encode b hb)
  where
    unwrap : {x y : Digest} → some x ≡ some y → x ≡ y
    unwrap p = cc

module _ {T : Type 0} (store : Source T) where
  -- An object that was loaded on a live context holds the answer of the store.
  pub record IsFaithful (k : Bytes) (co : CachedObject T) : Type 0 where
    pub keyed : string co.digest ≡ k
    pub small : AreBytes co.digest
    pub loaded : (co.memo ≡ none) ⊎ (co.memo ≡ some (Source.get store none co.digest))

  abbrev pub AreFaithful : List (Bytes × CachedObject T) → Type 0
  AreFaithful m = (k : Bytes) (co : CachedObject T) → lookup k m ≡ some co → IsFaithful k co

  insert-AreFaithful :
      (k : Bytes) (co : CachedObject T) (m : List (Bytes × CachedObject T))
      → AreFaithful m
      → IsFaithful k co
      → AreFaithful (insert k co m)
  insert-AreFaithful k co m f new j co' h = elim (Bool-cases (bytes_eq k j)) [
    | inl same ↦
        let e : co ≡ co' = unwrap (sym (lookup-insert k j co m ∙ rw same refl) ∙ h) in
        rw (sym ((bytes_eq_iff k j).0 same), sym e) new
    | inr other_key ↦ f j co' (sym (lookup-insert k j co m ∙ rw other_key refl) ∙ h)
  ]
    where
      unwrap : {a b : CachedObject T} → some a ≡ some b → a ≡ b
      unwrap p = cc

  pushed-cached :
      (key : Bytes) (co : Option (CachedObject T)) (c : Cache T)
      → Cache.cached (push_found key co c) ≡ c.cached
  unfolding push_found
  pushed-cached key none c = refl
  pushed-cached key (some co) c = refl

  touch-cached :
      (key : Bytes) (co : Option (CachedObject T)) (c : Cache T)
      → Cache.cached (touch key co c) ≡ c.cached
  unfolding touch
  touch-cached key co c = elim (Bool-cases (elem key c.index)) [
    | inl there ↦ rw there refl
    | inr gone ↦ rw gone (pushed-cached key (or_lookup co (lookup key c.cached.cache)) c)
  ]

  remove-AreFaithful :
      (k : Bytes) (m : List (Bytes × CachedObject T)) → AreFaithful m → AreFaithful (remove k m)
  remove-AreFaithful k m f j co h = elim (Bool-cases (bytes_eq k j)) [
    | inl same ↦ absurd (apart (sym (lookup-remove k j m ∙ rw same refl) ∙ h))
    | inr other_key ↦ f j co (sym (lookup-remove k j m ∙ rw other_key refl) ∙ h)
  ]
    where
      apart : none ≡ some co → ⊥
      apart p = cc

  make_room-AreFaithful :
      (fuel : ℕ) (c : Cache T)
      → AreFaithful c.cached.cache
      → AreFaithful (CachedStore.cache (Cache.cached (make_room fuel c)))
  unfolding make_room drop_key evict_key incr_evicts
  make_room-AreFaithful zero c f = f
  make_room-AreFaithful (suc fuel) c f = elim (Bool-cases (ltb c.max_size (length c.list))) [
    | inr fits ↦ rw fits f
    | inl over ↦ rw over (elim (Option-cases (back c.list)) [
      | inl empty ↦ rw empty f
      | inr (last, there) ↦
          rw there (
            make_room-AreFaithful fuel (drop_key last c) (remove-AreFaithful last c.cached.cache f))
    ])
  ]

  note-AreFaithful :
      (key : Bytes) (c : Cache T)
      → AreFaithful c.cached.cache
      → AreFaithful (CachedStore.cache (Cache.cached (note key c)))
  unfolding note
  note-AreFaithful key c f =
      make_room-AreFaithful _ (touch key none c) (rw (touch-cached key none c) f)

  -- `Get` of the store alone, after the check that `Proxy` makes of a new key.
  abbrev pub direct : Digest → Result T
  direct d = do
    there ← Source.exists store none d
    fail_if (not there) (wrap not_found)
    Source.get store none d

  direct_fails :
      (d : Digest) (e : Error)
      → (Source.exists store none d >>= λ (there : Bool). fail_if (not there) (wrap not_found))
        ≡ err e
      → direct d ≡ err e
  direct_fails d e h = go (Source.exists store none d) refl h
    where
      unwrap : {x y : Error} → ◌≡◌ {A = Result (Unit {0})} (err x) (err y) → x ≡ y
      unwrap p = cc

      go :
          (r : Result Bool)
          → Source.exists store none d ≡ r
          → (r >>= λ (there : Bool). fail_if (not there) (wrap not_found)) ≡ err e
          → direct d ≡ err e
      go (err f) said h' = rw said (ap (λ (x : Error). err x) (unwrap h'))
      go (ok false) said h' = rw said (ap (λ (x : Error). err x) (unwrap h'))
      go (ok true) said h' = cc

  load_found-AreFaithful :
      (co : CachedObject T) (k : Bytes) (c : Cache T)
      → IsFaithful k co
      → AreFaithful c.cached.cache
      → ((load_found store none (ok co, c)).0 ≡ Source.get store none co.digest)
        × AreFaithful (CachedStore.cache (Cache.cached (load_found store none (ok co, c)).1))
  unfolding load_found load write_back
  load_found-AreFaithful co k c is f = elim is.loaded [
    | inr memo ↦ rw memo (refl, f)
    | inl empty ↦ rw empty (
      refl,
      elim (Bool-cases (is_some (lookup (string co.digest) c.cached.cache))) [
        | inr gone ↦ rw gone f
        | inl there ↦ rw there (
            insert-AreFaithful (string co.digest) _ c.cached.cache f
              (record { keyed = refl; small = is.small; loaded = inr refl }))
      ],
    )
  ]

  -- `Get` of the cache on a live context answers as the store behind it, and leaves a cache that does,
  -- if the objects of the store have not changed since they were loaded and no load was made on a
  -- context that had ended: for a digest that is cached the answer is that of `Store.Get`, and for
  -- another it is preceded by the check that the object exists.
  pub get_object-answers :
      (d : Digest) (c : Cache T)
      → AreBytes d
      → AreFaithful c.cached.cache
      → ((get_object store none d c).0 ≡ (
          if is_some (lookup (string d) c.cached.cache) then Source.get store none d else direct d))
        × AreFaithful (CachedStore.cache (Cache.cached (get_object store none d c).1))
  unfolding get_object proxy_object load_found
  get_object-answers d c small f = go (proxy-Proxied store none d c.cached)
    where
      found_first : Source.exists store none d ≡ ok true → direct d ≡ Source.get store none d
      found_first there = rw there refl

      go :
          Proxied store none d c.cached
          → ((get_object store none d c).0 ≡ (
              if is_some (lookup (string d) c.cached.cache)
              then Source.get store none d
              else direct d))
            × AreFaithful (CachedStore.cache (Cache.cached (get_object store none d c).1))
      go (hit co there e) =
          let known = f (string d) co there in
          let same = string-injective co.digest d known.small small known.keyed in
          let base = record c { cached = record c.cached { hits = suc c.cached.hits } } in
          let (answer, kept) =
            load_found-AreFaithful co (string d) (touch (string d) (some co) base) known
              (rw (touch-cached (string d) (some co) base) f) in
          rw (e, get_object, proxy_object)
            (rw (e, there) (answer ∙ ap (Source.get store none) same, kept))
      go (miss failure absent why e) =
          rw (e, get_object, proxy_object) (rw (e, absent) (sym (direct_fails d failure why), f))
      go (fresh absent there e) =
          let co : CachedObject T = record { digest = d; memo = none } in
          let base = with_new (string d) co (record c.cached { misses = suc c.cached.misses }) c in
          let known : IsFaithful (string d) co = record {
            keyed = refl;
            small = small;
            loaded = inl refl;
          } in
          let noted =
            note-AreFaithful (string d) base
              (insert-AreFaithful (string d) co c.cached.cache f known) in
          let (answer, kept) =
            load_found-AreFaithful co (string d) (touch (string d) (some co) (note (string d) base))
              known (rw (touch-cached (string d) (some co) (note (string d) base)) noted) in
          rw (e, get_object, proxy_object) (rw (e, absent) (answer ∙ sym (found_first there), kept))
