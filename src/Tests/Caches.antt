-- ===== src/Tests/Caches.antt =====
-- The caches: cas/cache/mem and cas/cache/lru.
use go_cask.Common.{ℕ, ◌≤◌, ◌≡◌, refl, true, none, [], ◌∷◌, arith, if◌then◌else◌, length}
use go_cask.Common.Assoc.{elem, lookup}
use go_cask.Errors.{ok}
use go_cask.Digest.{string}
use go_cask.Backend.{is_some}
use go_cask.Cache.{size, CachedStore, Source}
use go_cask.Cache.Lru.{evict_object, evict_entry, clear_all, proxy_object, get_object, Cache}
use go_cask.Cache.Lru.Bounded.{operations-IsBounded, IsBounded}
use go_cask.Cache.Lru.Answers.{AreFaithful, direct, get_object-answers}
use go_cask.Tests.Data.{ab}

abbrev store : Source ℕ
store = record { get = λ ctx d. ok (length d); exists = λ ctx d. ok true }

abbrev empty_cache : Cache ℕ
empty_cache = record {
  cached = record { cache = []; hits = 0; misses = 0; loads = 0; evicts = 0 };
  max_size = 1;
  list = [];
  index = [];
}

empty_cache-IsBounded : IsBounded 1 empty_cache
unfolding elem lookup
empty_cache-IsBounded = record {
  tracked = record {
    once = tt;
    indexed = λ k. refl;
    held = λ k. refl;
    distinct = tt;
    counted = refl;
  };
  within = omega arith;
  capped = refl;
  positive = omega arith;
}

operations-IsBounded_example :
    IsBounded 1 (get_object store none ab empty_cache).1
    × IsBounded 1 (proxy_object store none ab empty_cache).1
    × IsBounded 1 (evict_object ab empty_cache)
    × IsBounded 1 (evict_entry (97 ∷ []) empty_cache)
    × IsBounded 1 (clear_all empty_cache)
    × (size empty_cache.cached ≤ 1)
operations-IsBounded_example =
    operations-IsBounded store none ab (97 ∷ []) empty_cache empty_cache-IsBounded

nothing_cached : AreFaithful store []
unfolding lookup
nothing_cached k co h = cc

get_object-answers_example :
    ((get_object store none ab empty_cache).0 ≡ (
      if is_some (lookup (string ab) empty_cache.cached.cache)
      then Source.get store none ab
      else direct store ab))
    × AreFaithful store (CachedStore.cache (Cache.cached (get_object store none ab empty_cache).1))
get_object-answers_example =
    get_object-answers store ab empty_cache (omega arith, (omega arith, tt)) nothing_cached
