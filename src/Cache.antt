-- ===== src/Cache.antt =====
-- cas/cache/mem/cached.go and cas/cache/lru/lru.go: objects that are loaded once, and the cache that
-- keeps a bounded number of them. Each operation below is one step; concurrent callers are not
-- modelled.
pub mod Lru
use go_cask.Common.{
  ℕ, suc, Bool, true, false, not, Option, none, some, List, [], map, if◌then◌else◌, length, Bytes,
}
use go_cask.Common.Assoc.{lookup, insert, remove}
use go_cask.Errors.{is, ◌>>=◌, ◌>>◌, Result, not_found, wrap, err, ok}
use go_cask.Digest.{Digest, string}
use go_cask.Backend.{Ctx, found, is_some}

-- `CachedObject`: the digest, and the result of its one load.
pub record CachedObject (T : Type 0) : Type 0 where
  pub digest : Digest
  pub memo : Option (Result T)

-- `CachedStore`: the map, and the metrics.
pub record CachedStore (T : Type 0) : Type 0 where
  pub cache : List (Bytes × CachedObject T)
  pub hits : ℕ
  pub misses : ℕ
  pub loads : ℕ
  pub evicts : ℕ

-- The typed store behind the cache, as it answers while the objects do not change.
pub record Source (T : Type 0) : Type 0 where
  pub get : Ctx → Digest → Result T
  pub exists : Ctx → Digest → Result Bool

-- An object that was evicted meanwhile is not in the map that another caller reads.
unfoldable pub write_back :
    {T : Type 0} → CachedObject T → List (Bytes × CachedObject T) → List (Bytes × CachedObject T)
write_back co m =
    if is_some (lookup (string co.digest) m) then insert (string co.digest) co m else m

module _ {T : Type 0} (store : Source T) where
  -- `CachedStore.Proxy`: the object, and whether it is new in the map.
  unfoldable pub add_new :
      Ctx → Digest → CachedStore T → Result (CachedObject T × Bool) × CachedStore T
  add_new ctx d c =
      let c' = record c { misses = suc c.misses } in
      elim (Source.exists store ctx d) [
        | err e ↦ (err e, c')
        | ok there ↦
            if not there
            then (err (wrap not_found), c')
            else (let co : CachedObject T = record { digest = d; memo = none } in
                (ok (co, true), record c' { cache = insert (string d) co c.cache }))
      ]

  unfoldable pub proxy :
      Ctx → Digest → CachedStore T → Result (CachedObject T × Bool) × CachedStore T
  proxy ctx d c = elim (lookup (string d) c.cache) [
    | some co ↦ (ok (co, false), record c { hits = suc c.hits })
    | none ↦ add_new ctx d c
  ]

  -- `CachedObject.Load`; the object is the one in the map.
  unfoldable pub load : Ctx → CachedObject T → CachedStore T → Result T × CachedStore T
  load ctx co c = elim co.memo [
    | some r ↦ (r, c)
    | none ↦
        let r = Source.get store ctx co.digest in
        (
          r,
          record c {
            cache = write_back (record co { memo = some r }) c.cache;
            loads = suc c.loads;
          },
        )
  ]

  unfoldable pub get : Ctx → Digest → CachedStore T → Result T × CachedStore T
  get ctx d c =
      let (found, c') = proxy ctx d c in
      elim found [ err e ↦ (err e, c') | ok (co, new) ↦ load ctx co c' ]

unfoldable pub evict_key : {T : Type 0} → Bytes → CachedStore T → CachedStore T
evict_key key c = record c { cache = remove key c.cache }

unfoldable pub incr_evicts : {T : Type 0} → CachedStore T → CachedStore T
incr_evicts c = record c { evicts = suc c.evicts }

unfoldable pub evict : {T : Type 0} → Digest → CachedStore T → CachedStore T
evict d c = elim (lookup (string d) c.cache) [
  | none ↦ c
  | some co ↦ incr_evicts (evict_key (string d) c)
]

unfoldable pub clear : {T : Type 0} → CachedStore T → CachedStore T
clear c = record c { cache = [] }

-- `CacheStats` without the rate, which is a float.
unfoldable pub size : {T : Type 0} → CachedStore T → ℕ
size c = length c.cache
