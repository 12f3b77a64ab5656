-- ===== src/Cache/Lru.antt =====
-- cas/cache/lru/lru.go: the least recently used objects make room.
pub mod KeyLists
pub mod Tracked
pub mod Bounded
pub mod Answers
use go_cask.Common.{
  ℕ, zero, suc, Option, none, some, List, [], ◌∷◌, map, ltb, leb, if◌then◌else◌, length, Bytes,
  bytes_eq,
}
use go_cask.Common.Assoc.{elem, lookup, keys}
use go_cask.Errors.{is, ◌>>=◌, fail_if, ◌>>◌, Result, other, err, ok}
use go_cask.Digest.{Digest, string}
use go_cask.Backend.{Ctx, found}
use go_cask.Cache.{
  proxy, load, evict_key, incr_evicts, evict, clear, CachedObject, CachedStore, Source,
}

-- `Cache`: the list holds the keys of its objects, most recent first; `index` is the set of the keys
-- with an element.
pub record Cache (T : Type 0) : Type 0 where
  pub cached : CachedStore T
  pub max_size : ℕ
  pub list : List Bytes
  pub index : List Bytes

-- `New`, with `ValidateMaxSize`; an int at most zero is zero.
unfoldable pub new : {T : Type 0} → CachedStore T → ℕ → Result (Cache T)
new c max_size = do
  fail_if (leb max_size 0) (other 70)
  ok (record { cached = c; max_size = max_size; list = []; index = [] })

-- `list.Remove` of the element of a key, and `delete(c.index, key)`.
unfoldable pub without : Bytes → List Bytes → List Bytes
without key [] = []
without key (k ∷ ks) = let rest = without key ks in if bytes_eq k key then rest else k ∷ rest

-- `list.Back()`.
unfoldable pub back : List Bytes → Option Bytes
back [] = none
back (k ∷ ks) = elim (back ks) [ none ↦ some k | some last ↦ some last ]

module _ {T : Type 0} where
  -- `touchLocked`: an object that the caller has is pushed without a look at the map. The element of an
  -- object is its key.
  unfoldable pub push_found : Bytes → Option (CachedObject T) → Cache T → Cache T
  push_found key none c = c
  push_found key (some co) c = record c { list = key ∷ c.list; index = key ∷ c.index }

  abbrev pub or_lookup : Option (CachedObject T) → Option (CachedObject T) → Option (CachedObject T)
  or_lookup none held = held
  or_lookup (some co) held = some co

  unfoldable pub touch : Bytes → Option (CachedObject T) → Cache T → Cache T
  touch key co c =
      if elem key c.index
      then record c { list = key ∷ without key c.list }
      else push_found key (or_lookup co (lookup key c.cached.cache)) c

  -- One round of the loop of `note`.
  unfoldable pub drop_key : Bytes → Cache T → Cache T
  drop_key key c = record c {
    list = without key c.list;
    index = without key c.index;
    cached = incr_evicts (evict_key key c.cached);
  }

  -- The loop takes one key off the list each time, so the length of the list is fuel enough.
  unfoldable pub make_room : ℕ → Cache T → Cache T
  make_room zero c = c
  make_room (suc fuel) c =
      if ltb c.max_size (length c.list)
      then elim (back c.list) [ none ↦ c | some last ↦ make_room fuel (drop_key last c) ]
      else c

  unfoldable pub note : Bytes → Cache T → Cache T
  note key c = let c' = touch key none c in make_room (length (Cache.list c')) c'

  unfoldable pub forget : Bytes → Cache T → Cache T
  forget key c =
      if elem key c.index
      then record c { list = without key c.list; index = without key c.index }
      else c

  unfoldable pub evict_object : Digest → Cache T → Cache T
  evict_object d c = forget (string d) (record c { cached = evict d c.cached })

  unfoldable pub evict_entry : Bytes → Cache T → Cache T
  evict_entry key c = forget key (record c { cached = evict_key key c.cached })

  unfoldable pub clear_all : Cache T → Cache T
  clear_all c = record c { cached = clear c.cached; list = []; index = [] }

  module _ (store : Source T) where
    -- `Proxy`: a new object is noted before it is touched.
    unfoldable pub proxy_object : Ctx → Digest → Cache T → Result (CachedObject T) × Cache T
    proxy_object ctx d c =
        let (found, cached') = proxy store ctx d c.cached in
        let c' = record c { cached = cached' } in
        elim found [
          | err e ↦ (err e, c')
          | ok (co, new_entry) ↦
              (ok co, touch (string d) (some co) (if new_entry then note (string d) c' else c'))
        ]

    -- `Load` of the object that `Proxy` gave.
    unfoldable pub load_found : Ctx → Result (CachedObject T) × Cache T → Result T × Cache T
    load_found ctx (err e, c) = (err e, c)
    load_found ctx (ok co, c) =
        let (r, cached') = load store ctx co c.cached in (r, record c { cached = cached' })

    unfoldable pub get_object : Ctx → Digest → Cache T → Result T × Cache T
    get_object ctx d c = load_found ctx (proxy_object ctx d c)
