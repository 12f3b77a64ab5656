-- ===== src/Mem.antt =====
-- cas/backend/mem/mem.go: the backend that keeps its objects in memory, under an optional cap on the
-- bytes that are resident. The mutex makes each step below one step; sizes are int64 sums of lengths
-- of buffers that exist, so they are far below 2 ^ 63 and are kept as plain numbers.
pub mod Contents
pub mod Contract
pub mod Laws
pub mod Snapshot
use go_cask.Common.{
  ℕ, ◌+◌, ◌-◌, ◌^◌, Bool, not, ◌&&◌, Option, none, some, List, [], ◌∷◌, ltb, ◌==◌, if◌then◌else◌,
  is_empty, length, Bytes,
}
use go_cask.Common.Assoc.{lookup, insert, remove, size_at}
use go_cask.Common.Sort.{sort}
use go_cask.Errors.{is, ◌>>=◌, ◌>>◌, Result, other, ok}
use go_cask.Digest.{Digest, new_digest, bytes, check_digest}
use go_cask.Reader.{read_all, limit_reader, Reader}
use go_cask.Backend.{Ctx, check_ctx, Effect, found, is_some, or_fail, Stats, Backend}

-- `objects`, `maxBytes` (0 for every value that is not positive: no cap) and `usedBytes`.
pub record Mem : Type 0 where
  pub objects : List (Bytes × Bytes)
  pub max_bytes : ℕ
  pub used_bytes : ℕ

-- `New(WithMaxSize(max))`.
unfoldable pub new : ℕ → Mem
new max = record { objects = []; max_bytes = max; used_bytes = 0 }

abbrev pub max_int64 : ℕ
max_int64 = 2 ^ 63 - 1

-- `max(maxBytes - (usedBytes - len(objects[key])), 0)`, if there is a cap.
unfoldable pub budget : Mem → Bytes → Option ℕ
budget m key =
    if m.max_bytes == 0 then none else some (m.max_bytes + size_at key m.objects - m.used_bytes)

-- `m.maxBytes > 0 && m.usedBytes+added > m.maxBytes`, with the old size on the other side, since
-- `added` is negative where a value shrinks.
abbrev pub over_cap : Bytes → Bytes → Mem → Bool
over_cap key content m =
    not (m.max_bytes == 0)
    && ltb (m.max_bytes + size_at key m.objects) (m.used_bytes + length content)

abbrev pub stored : Bytes → Bytes → Mem → Mem
stored key content m = record m {
  objects = insert key content m.objects;
  used_bytes = m.used_bytes + length content - size_at key m.objects;
}

unfoldable pub store : Bytes → Bytes → Mem → Effect Mem
store key content m =
    if over_cap key content m then (some (other 1), m) else (none, stored key content m)

-- `backend.ReadWhole`: its preallocated buffer changes no byte that is read.
unfoldable pub read_whole : Ctx → Reader → Result Bytes
read_whole ctx r = do check_ctx ctx; read_all r

-- The two ways to read the object: at most one byte past the budget, or to the end.
unfoldable pub read_object : Ctx → Option ℕ → Reader → Result Bytes
read_object ctx none r = read_whole ctx r
read_object ctx (some budget) r =
    if ltb budget max_int64 then read_all (limit_reader r (budget + 1)) else read_whole ctx r

unfoldable pub put : Ctx → Digest → Reader → Mem → Effect Mem
put ctx d r m = or_fail (check_ctx ctx) m λ _.
    or_fail (check_digest d) m
      λ _. or_fail (read_object ctx (budget m d) r) m λ content. store d content m

unfoldable pub get : Ctx → Digest → Mem → Result Reader
get ctx d m = do check_ctx ctx; check_digest d; found (lookup d m.objects)

unfoldable pub exists : Ctx → Digest → Mem → Result Bool
exists ctx d m = do check_ctx ctx; check_digest d; ok (is_some (lookup d m.objects))

unfoldable pub delete : Ctx → Digest → Mem → Effect Mem
delete ctx d m = or_fail (check_ctx ctx) m λ _. or_fail (check_digest d) m λ _.
    elim (lookup d m.objects) [
      | none ↦ (none, m)
      | some old ↦
          (none, record m { objects = remove d m.objects; used_bytes = m.used_bytes - length old })
    ]

-- The loop of `List`: the empty key is skipped.
unfoldable pub addressable : List (Bytes × Bytes) → List Digest
addressable [] = []
addressable ((key, content) ∷ m) =
    let rest = addressable m in if is_empty key then rest else new_digest key ∷ rest

unfoldable pub list : Ctx → Mem → Result (List Digest)
list ctx m = do check_ctx ctx; ok (sort (addressable m.objects))

unfoldable pub stats_of : List (Bytes × Bytes) → Stats
stats_of [] = record { total_size = 0; object_count = 0 }
stats_of ((key, content) ∷ m) =
    let st = stats_of m in
    if is_empty key
    then st
    else record { total_size = st.total_size + length content; object_count = st.object_count + 1 }

unfoldable pub stats : Ctx → Mem → Result Stats
stats ctx m = do check_ctx ctx; ok (stats_of m.objects)

abbrev pub mem_backend : Backend
mem_backend = record {
  State = Mem;
  put = put;
  get = get;
  exists = exists;
  delete = delete;
  list = list;
  stats = stats;
}
