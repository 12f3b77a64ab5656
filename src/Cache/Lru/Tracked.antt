-- ===== src/Cache/Lru/Tracked.antt =====
-- cas/cache/lru/lru.go: the list, its index and the map hold the same keys.
use go_cask.Common.{
  ℕ, zero, suc, ◌≤◌, ◌≡◌, refl, sym, ap, ◌∙◌, inl, inr, Bool, true, false, ◌||◌, Option, none, some,
  List, ◌∷◌, arith, ltb, Bool-cases, Option-cases, length, Bytes, bytes_eq, bytes_eq_iff,
  bytes_eq_refl,
}
use go_cask.Common.Assoc.{
  elem, lookup, insert, Distinct, lookup-insert, lookup-remove, insert-Distinct, remove-Distinct,
}
use go_cask.Backend.{is_some}
use go_cask.Cache.{evict_key, incr_evicts, CachedObject, CachedStore}
use go_cask.Cache.Lru.{without, back, push_found, touch, drop_key, make_room, note, Cache}
use go_cask.Cache.Lru.KeyLists.{
  Once, elem-without, Once-without, length-without, elem-back, back-none, length-insert,
  length-remove,
}

module _ {T : Type 0} where
  -- The bookkeeping agrees with the map.
  pub record IsTracked (c : Cache T) : Type 0 where
    pub once : Once c.list
    pub indexed : (k : Bytes) → elem k c.index ≡ elem k c.list
    pub held : (k : Bytes) → is_some (lookup k c.cached.cache) ≡ elem k c.list
    pub distinct : Distinct c.cached.cache
    pub counted : length c.cached.cache ≡ length c.list

  drop_key-IsTracked :
      (key : Bytes) (c : Cache T)
      → IsTracked c
      → elem key c.list ≡ true
      → IsTracked (drop_key key c)
  unfolding drop_key evict_key incr_evicts
  drop_key-IsTracked key c t there = record {
    once = Once-without key c.list t.once;
    indexed = λ k. rw (elem-without key k c.index, elem-without key k c.list, t.indexed k) refl;
    held = λ k.
        rw (lookup-remove key k c.cached.cache, elem-without key k c.list)
          (ground (arith, t.held k));
    distinct = remove-Distinct key c.cached.cache t.distinct;
    counted = omega (
      arith,
      length-without key c.list t.once there,
      length-remove key c.cached.cache t.distinct (t.held key ∙ there),
      t.counted,
    );
  }

  -- The loop of `note` ends at the cap.
  make_room-IsTracked :
      (fuel : ℕ) (c : Cache T)
      → IsTracked c
      → length c.list ≤ fuel
      → IsTracked (make_room fuel c)
        × (length (Cache.list (make_room fuel c)) ≤ c.max_size)
        × (Cache.max_size (make_room fuel c) ≡ c.max_size)
  unfolding make_room drop_key
  make_room-IsTracked zero c t h = (t, omega arith, refl)
  make_room-IsTracked (suc fuel) c t h = elim (Bool-cases (ltb c.max_size (length c.list))) [
    | inr fits ↦ rw fits (t, ground arith, refl)
    | inl over ↦ rw over (elim (Option-cases (back c.list)) [
      | inl empty ↦ absurd (ground (arith, back-none c.list empty))
      | inr (last, there) ↦ rw there (
          make_room-IsTracked fuel (drop_key last c)
            (drop_key-IsTracked last c t (elem-back c.list last there))
            (omega (arith, length-without last c.list t.once (elem-back c.list last there))))
    ])
  ]

  -- The loop of `note` keeps the first key, if the cap leaves room for one.
  make_room-front :
      (fuel : ℕ) (c : Cache T) (key : Bytes) (rest : List Bytes)
      → c.list ≡ key ∷ rest
      → Once (key ∷ rest)
      → 1 ≤ c.max_size
      → elem key (Cache.list (make_room fuel c)) ≡ true
  unfolding make_room drop_key without elem
  make_room-front zero c key rest e once room = rw (e, bytes_eq_refl key) refl
  make_room-front (suc fuel) c key rest e once room =
      elim (Bool-cases (ltb c.max_size (length c.list))) [
        | inr fits ↦ rw fits (rw (e, bytes_eq_refl key) refl)
        | inl over ↦ elim (Option-cases (back rest)) [
          | inl alone ↦ absurd (ground (arith, back-none rest alone, ap length e))
          | inr (last, there) ↦
              let behind : elem last rest ≡ true = elem-back rest last there in
              let other_key : bytes_eq key last ≡ false = differ last behind in
              let at_back : back c.list ≡ some last = ap back e ∙ unfold back in rw there refl in
              let shorter : without last c.list ≡ key ∷ without last rest =
                ap (without last) e ∙ rw other_key refl in
              rw over (
                rw at_back (
                  make_room-front fuel (drop_key last c) key (without last rest) shorter
                    (gone last once.0, Once-without last rest once.1) room))
        ]
      ]
    where
      gone : (last : Bytes) → elem key rest ≡ false → elem key (without last rest) ≡ false
      gone last h = elem-without last key rest ∙ ground (arith, h)

      differ : (last : Bytes) → elem last rest ≡ true → bytes_eq key last ≡ false
      differ last behind = elim (Bool-cases (bytes_eq key last)) [
        | inr other_key ↦ other_key
        | inl same ↦
            let moved : elem key rest ≡ elem last rest =
              ap (λ k. elem k rest) ((bytes_eq_iff key last).0 same) in
            let clash : false ≡ true = sym once.0 ∙ moved ∙ behind in cc
      ]

  -- A key that stands in the list moves to the front.
  pub touch-IsTracked :
      (key : Bytes) (co : Option (CachedObject T)) (c : Cache T)
      → IsTracked c
      → elem key c.list ≡ true
      → IsTracked (touch key co c)
        × (length (Cache.list (touch key co c)) ≡ length c.list)
        × (Cache.max_size (touch key co c) ≡ c.max_size)
  unfolding touch
  touch-IsTracked key co c t in_list = rw (t.indexed key ∙ in_list) (
    record {
      once = (
        rw (elem-without key key c.list, bytes_eq_refl key) refl,
        Once-without key c.list t.once,
      );
      indexed = to_front;
      held = λ k. t.held k ∙ sym (t.indexed k) ∙ to_front k;
      distinct = t.distinct;
      counted = t.counted ∙ sym (length-without key c.list t.once in_list);
    },
    length-without key c.list t.once in_list,
    refl,
  )
    where
      to_front : (k : Bytes) → elem k c.index ≡ elem k (key ∷ without key c.list)
      to_front k =
          unfold elem in
          ground (arith, t.indexed k, elem-without key k c.list, bytes_eq_iff key k, in_list)

  -- A new object under a key that the list does not hold.
  abbrev pub with_new : Bytes → CachedObject T → CachedStore T → Cache T → Cache T
  with_new key co base c = record c {
    cached = record base { cache = insert key co c.cached.cache };
  }

  abbrev in_front : Bytes → CachedObject T → CachedStore T → Cache T → Cache T
  in_front key co base c = record (with_new key co base c) {
    list = key ∷ c.list;
    index = key ∷ c.index;
  }

  touch-with_new :
      (key : Bytes) (co : CachedObject T) (base : CachedStore T) (c : Cache T)
      → IsTracked c
      → lookup key c.cached.cache ≡ none
      → touch key none (with_new key co base c) ≡ in_front key co base c
  unfolding touch push_found
  touch-with_new key co base c t absent =
      rw (t.indexed key ∙ sym (t.held key) ∙ ap is_some absent)
        (rw (lookup-insert key key co c.cached.cache, bytes_eq_refl key) refl)

  in_front-IsTracked :
      (key : Bytes) (co : CachedObject T) (base : CachedStore T) (c : Cache T)
      → IsTracked c
      → lookup key c.cached.cache ≡ none
      → IsTracked (in_front key co base c)
  unfolding elem
  in_front-IsTracked key co base c t absent = record {
    once = (sym (t.held key) ∙ ap is_some absent, t.once);
    indexed = λ k. ap (λ (b : Bool). bytes_eq key k || b) (t.indexed k);
    held = λ k. rw (lookup-insert key k co c.cached.cache) (ground (arith, t.held k));
    distinct = insert-Distinct key co c.cached.cache t.distinct;
    counted = length-insert key co c.cached.cache ∙ rw absent (ap suc t.counted);
  }

  pub note-IsTracked :
      (key : Bytes) (co : CachedObject T) (base : CachedStore T) (c : Cache T)
      → IsTracked c
      → lookup key c.cached.cache ≡ none
      → 1 ≤ c.max_size
      → IsTracked (note key (with_new key co base c))
        × (length (Cache.list (note key (with_new key co base c))) ≤ c.max_size)
        × (Cache.max_size (note key (with_new key co base c)) ≡ c.max_size)
        × (elem key (Cache.list (note key (with_new key co base c))) ≡ true)
  unfolding note
  note-IsTracked key co base c t absent room =
      let t' = in_front-IsTracked key co base c t absent in
      let (tracked, fits, max) =
        make_room-IsTracked (suc (length c.list)) (in_front key co base c) t' (omega arith) in
      rw (touch-with_new key co base c t absent) (
        tracked,
        fits,
        max,
        make_room-front (suc (length c.list)) (in_front key co base c) key c.list refl t'.once room,
      )
