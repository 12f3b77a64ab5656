-- ===== src/Cache/Lru/Bounded.antt =====
-- cas/cache/lru/lru.go: every operation keeps the bookkeeping and the cap.
use go_cask.Common.{
  ℕ, suc, ◌≤◌, ◌≡◌, refl, sym, ap, ◌∙◌, inl, inr, Bool, true, false, not, Option, none, some, [],
  arith, leb, Bool-cases, Option-cases, length, Bytes, bytes_eq_iff,
}
use go_cask.Common.Assoc.{
  elem, lookup, insert, remove, lookup-insert, lookup-remove, remove_absent, insert-Distinct,
  remove-Distinct,
}
use go_cask.Errors.{◌>>=◌, fail_if, Error, Result, not_found, wrap, err, ok}
use go_cask.Digest.{Digest, string}
use go_cask.Backend.{Ctx, is_some}
use go_cask.Cache.{
  write_back, add_new, proxy, load, evict_key, incr_evicts, evict, clear, size, CachedObject,
  CachedStore, Source,
}
use go_cask.Cache.Lru.{
  new, touch, note, forget, evict_object, evict_entry, clear_all, proxy_object, load_found,
  get_object, Cache,
}
use go_cask.Cache.Lru.KeyLists.{
  elem-without, Once-without, length-without, length-insert, length-remove,
}
use go_cask.Cache.Lru.Tracked.{touch-IsTracked, with_new, note-IsTracked, IsTracked}

module _ {T : Type 0} where
  -- The bookkeeping, and the cap.
  pub record IsBounded (cap : ℕ) (c : Cache T) : Type 0 where
    pub tracked : IsTracked c
    pub within : length c.list ≤ cap
    pub capped : c.max_size ≡ cap
    pub positive : 1 ≤ cap

  -- A new cache over an empty store is within the cap that `New` accepts.
  new-IsBounded :
      (base : CachedStore T) (max_size : ℕ) {c : Cache T}
      → base.cache ≡ []
      → new base max_size ≡ ok c
      → IsBounded max_size c
  unfolding new
  new-IsBounded base max_size {c} empty made = elim (Bool-cases (leb max_size 0)) [
    | inl small ↦ let clash = rw small at made in cc
    | inr room ↦ rw (sym (unwrap (rw room at made))) (record {
      tracked = record {
        once = tt;
        indexed = λ k. unfold elem in refl;
        held = λ k. rw empty (unfold lookup elem in refl);
        distinct = rw empty tt;
        counted = rw empty refl;
      };
      within = omega arith;
      capped = refl;
      positive = ground arith;
    })
  ]
    where
      unwrap : {a b : Cache T} → ok a ≡ ok b → a ≡ b
      unwrap p = cc

  touch-IsBounded :
      (key : Bytes) (co : Option (CachedObject T)) (c : Cache T) {cap : ℕ}
      → IsBounded cap c
      → elem key c.list ≡ true
      → IsBounded cap (touch key co c)
  touch-IsBounded key co c b in_list =
      let (t, same, max) = touch-IsTracked key co c b.tracked in_list in
      record {
        tracked = t;
        within = omega (arith, same, b.within);
        capped = max ∙ b.capped;
        positive = b.positive;
      }

  -- Only the metrics change.
  counted-IsBounded :
      (base : CachedStore T) (c : Cache T) {cap : ℕ}
      → IsBounded cap c
      → IsBounded cap (record c { cached = record base { cache = c.cached.cache } })
  counted-IsBounded base c b = record {
    tracked = record {
      once = b.tracked.once;
      indexed = b.tracked.indexed;
      held = b.tracked.held;
      distinct = b.tracked.distinct;
      counted = b.tracked.counted;
    };
    within = b.within;
    capped = b.capped;
    positive = b.positive;
  }

  note-IsBounded :
      (key : Bytes) (co : CachedObject T) (base : CachedStore T) (c : Cache T) {cap : ℕ}
      → IsBounded cap c
      → lookup key c.cached.cache ≡ none
      → IsBounded cap (note key (with_new key co base c))
        × (elem key (Cache.list (note key (with_new key co base c))) ≡ true)
  note-IsBounded key co base c b absent =
      let (t, fits, max, front) =
        note-IsTracked key co base c b.tracked absent (omega (arith, b.capped, b.positive)) in
      (
        record {
          tracked = t;
          within = omega (arith, fits, b.capped);
          capped = max ∙ b.capped;
          positive = b.positive;
        },
        front,
      )

  forget-IsBounded :
      (key : Bytes) (base : CachedStore T) (c : Cache T) {cap : ℕ}
      → IsBounded cap c
      → IsBounded cap
          (forget key (record c { cached = record base { cache = remove key c.cached.cache } }))
  unfolding forget
  forget-IsBounded key base c b = elim (Bool-cases (elem key c.index)) [
    | inl there ↦
        let in_list = sym (b.tracked.indexed key) ∙ there in
        rw there (record {
          tracked = record {
            once = Once-without key c.list b.tracked.once;
            indexed = λ k.
                rw (elem-without key k c.index, elem-without key k c.list, b.tracked.indexed k)
                  refl;
            held = λ k.
                rw (lookup-remove key k c.cached.cache, elem-without key k c.list)
                  (ground (arith, b.tracked.held k));
            distinct = remove-Distinct key c.cached.cache b.tracked.distinct;
            counted = omega (
              arith,
              length-without key c.list b.tracked.once in_list,
              length-remove key c.cached.cache b.tracked.distinct (b.tracked.held key ∙ in_list),
              b.tracked.counted,
            );
          };
          within = omega (arith, length-without key c.list b.tracked.once in_list, b.within);
          capped = b.capped;
          positive = b.positive;
        })
    | inr gone ↦
        rw
          (
            gone,
            remove_absent key c.cached.cache
                (not_some (b.tracked.held key ∙ sym (b.tracked.indexed key) ∙ gone)),
          )
          (counted-IsBounded base c b)
  ]
    where
      not_some : {o : Option (CachedObject T)} → is_some o ≡ false → o ≡ none
      not_some {o} h = ground (arith, h)

  evict_entry-IsBounded :
      (key : Bytes) (c : Cache T) {cap : ℕ} → IsBounded cap c → IsBounded cap (evict_entry key c)
  unfolding evict_entry evict_key
  evict_entry-IsBounded key c b = forget-IsBounded key c.cached c b

  -- `Evict` of the wrapped store removes the key, and counts it if it was there.
  evict-removes :
      (d : Digest) (c : CachedStore T)
      → (n : ℕ) × (evict d c ≡ record c { evicts = n; cache = remove (string d) c.cache })
  unfolding evict evict_key incr_evicts
  evict-removes d c = elim (Option-cases (lookup (string d) c.cache)) [
    | inl absent ↦
        (c.evicts, rw (absent, evict) (rw (remove_absent (string d) c.cache absent) refl))
    | inr (co, there) ↦ (suc c.evicts, rw (there, evict) refl)
  ]

  evict_object-IsBounded :
      (d : Digest) (c : Cache T) {cap : ℕ} → IsBounded cap c → IsBounded cap (evict_object d c)
  unfolding evict_object
  evict_object-IsBounded d c b =
      let (n, e) = evict-removes d c.cached in
      rw (e, evict_object) (forget-IsBounded (string d) (record c.cached { evicts = n }) c b)

  clear_all-IsBounded : (c : Cache T) {cap : ℕ} → IsBounded cap c → IsBounded cap (clear_all c)
  unfolding clear_all clear elem lookup
  clear_all-IsBounded c b = record {
    tracked = record {
      once = tt;
      indexed = λ k. refl;
      held = λ k. refl;
      distinct = tt;
      counted = refl;
    };
    within = omega arith;
    capped = b.capped;
    positive = b.positive;
  }

  module _ (store : Source T) where
    write_back-IsBounded :
        (co : CachedObject T) (base : CachedStore T) (c : Cache T) {cap : ℕ}
        → IsBounded cap c
        → IsBounded cap (record c { cached = record base { cache = write_back co c.cached.cache } })
    unfolding write_back
    write_back-IsBounded co base c b =
        elim (Bool-cases (is_some (lookup (string co.digest) c.cached.cache))) [
          | inr gone ↦ rw gone (record {
            tracked = record {
              once = b.tracked.once;
              indexed = b.tracked.indexed;
              held = b.tracked.held;
              distinct = b.tracked.distinct;
              counted = b.tracked.counted;
            };
            within = b.within;
            capped = b.capped;
            positive = b.positive;
          })
          | inl there ↦ rw there (record {
            tracked = record {
              once = b.tracked.once;
              indexed = b.tracked.indexed;
              held = λ k.
                  rw (lookup-insert (string co.digest) k co c.cached.cache)
                    (ground (arith, b.tracked.held k, bytes_eq_iff (string co.digest) k, there));
              distinct = insert-Distinct (string co.digest) co c.cached.cache b.tracked.distinct;
              counted =
                  length-insert (string co.digest) co c.cached.cache ∙ rw there b.tracked.counted;
            };
            within = b.within;
            capped = b.capped;
            positive = b.positive;
          })
        ]

    -- The three ways in which `Proxy` of the wrapped store ends.
    pub data Proxied (ctx : Ctx) (d : Digest) (c : CachedStore T) : Type 0 where
      hit :
          (co : CachedObject T)
          → lookup (string d) c.cache ≡ some co
          → proxy store ctx d c ≡ (ok (co, false), record c { hits = suc c.hits })
          → Proxied ctx d c
      miss :
          (e : Error)
          → lookup (string d) c.cache ≡ none
          → (Source.exists store ctx d >>= λ there. fail_if (not there) (wrap not_found)) ≡ err e
          → proxy store ctx d c ≡ (err e, record c { misses = suc c.misses })
          → Proxied ctx d c
      fresh :
          lookup (string d) c.cache ≡ none
          → Source.exists store ctx d ≡ ok true
          → proxy store ctx d c ≡ (
            ok (record { digest = d; memo = none }, true),
            record c {
              misses = suc c.misses;
              cache = insert (string d) (record { digest = d; memo = none }) c.cache;
            },
          )
          → Proxied ctx d c

    pub proxy-Proxied : (ctx : Ctx) (d : Digest) (c : CachedStore T) → Proxied ctx d c
    unfolding proxy add_new
    proxy-Proxied ctx d c = elim (Option-cases (lookup (string d) c.cache)) [
      | inr (co, there) ↦ hit co there (rw (there, proxy) refl)
      | inl absent ↦ go (Source.exists store ctx d) refl absent
    ]
      where
        go :
            (r : Result Bool)
            → Source.exists store ctx d ≡ r
            → lookup (string d) c.cache ≡ none
            → Proxied ctx d c
        go (err e) h absent = miss e absent (rw h refl) (rw (absent, proxy) (rw (h, add_new) refl))
        go (ok false) h absent =
            miss (wrap not_found) absent (rw h refl) (rw (absent, proxy) (rw (h, add_new) refl))
        go (ok true) h absent = fresh absent h (rw (absent, proxy) (rw (h, add_new) refl))

    proxy_object-IsBounded :
        (ctx : Ctx) (d : Digest) (c : Cache T) {cap : ℕ}
        → IsBounded cap c
        → IsBounded cap (proxy_object store ctx d c).1
    unfolding proxy_object
    proxy_object-IsBounded ctx d c {cap} b = go (proxy-Proxied ctx d c.cached)
      where
        go : Proxied ctx d c.cached → IsBounded cap (proxy_object store ctx d c).1
        go (hit co there e) =
            rw (e, proxy_object)
              (rw e (
                touch-IsBounded (string d) (some co) _
                  (counted-IsBounded (record c.cached { hits = suc c.cached.hits }) c b)
                  (sym (b.tracked.held (string d)) ∙ ap is_some there)))
        go (miss failure absent why e) =
            rw (e, proxy_object)
              (rw e (counted-IsBounded (record c.cached { misses = suc c.cached.misses }) c b))
        go (fresh absent there e) =
            let (noted, front) =
              note-IsBounded (string d) _ (record c.cached { misses = suc c.cached.misses }) c b
                absent in
            rw (e, proxy_object)
              (rw e (
                touch-IsBounded (string d) (some (record { digest = d; memo = none })) _ noted
                  front))

    load-IsBounded :
        (ctx : Ctx) (co : CachedObject T) (c : Cache T) {cap : ℕ}
        → IsBounded cap c
        → IsBounded cap (record c { cached = (load store ctx co c.cached).1 })
    unfolding load
    load-IsBounded ctx co c b = elim (Option-cases co.memo) [
      | inr (r, memo) ↦ rw memo (counted-IsBounded c.cached c b)
      | inl empty ↦ rw empty (
          write_back-IsBounded (record co { memo = some (Source.get store ctx co.digest) })
            (record c.cached { loads = suc c.cached.loads }) c b)
    ]

    load_found-IsBounded :
        (ctx : Ctx) (p : Result (CachedObject T) × Cache T) {cap : ℕ}
        → IsBounded cap p.1
        → IsBounded cap (load_found store ctx p).1
    unfolding load_found
    load_found-IsBounded ctx (err e, c) b = b
    load_found-IsBounded ctx (ok co, c) b = load-IsBounded ctx co c b

    -- Every operation keeps the bookkeeping and a cap of at least one, whatever the store answers: the list, its index
    -- and the map hold the same keys, each once, and at most `cap` objects are cached.
    pub operations-IsBounded :
        (ctx : Ctx) (d : Digest) (key : Bytes) (c : Cache T) {cap : ℕ}
        → IsBounded cap c
        → IsBounded cap (get_object store ctx d c).1
          × IsBounded cap (proxy_object store ctx d c).1
          × IsBounded cap (evict_object d c)
          × IsBounded cap (evict_entry key c)
          × IsBounded cap (clear_all c)
          × (size c.cached ≤ cap)
    unfolding get_object
    operations-IsBounded ctx d key c b = (
      load_found-IsBounded ctx (proxy_object store ctx d c) (proxy_object-IsBounded ctx d c b),
      proxy_object-IsBounded ctx d c b,
      evict_object-IsBounded d c b,
      evict_entry-IsBounded key c b,
      clear_all-IsBounded c b,
      unfold size in omega (arith, b.tracked.counted, b.within),
    )
