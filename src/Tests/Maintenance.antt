-- ===== src/Tests/Maintenance.antt =====
-- Sweeps and verifications of a memory backend: cas/sweep.go, cas/verifier.go.
use go_cask.Common.{
  ℕ, ◌≡◌, refl, ◌∙◌, ◌↔◌, inl, inr, true, false, not, ◌&&◌, none, some, List, [], ◌∷◌, arith, ltb,
  if◌then◌else◌, Option-cases, Bytes, bytes_eq, bytes_eq_refl,
}
use go_cask.Common.Assoc.{elem, lookup, remove, lookup-remove, total}
use go_cask.Errors.{is, canceled, wrap, err, ok}
use go_cask.Digest.{Digest, is_zero, new_digest, hex_encode, string, check_digest}
use go_cask.Backend.{Ctx, check_ctx, found, is_some, or_fail-keeps, Backend, BackendLaws}
use go_cask.Hasher.{Hasher}
use go_cask.Mem.Contract.{mem_laws}
use go_cask.Sweep.{delete_all, chosen_statter, is_young, is_doomed, collect, marked, sweep}
use go_cask.Sweep.Exact.{sweep-keeps_live, sweep-exact}
use go_cask.Verify.{verify, verify_all}
use go_cask.Verify.Intact.{verify-intact_iff, damaged, verify_all-exact}
use go_cask.Mem.{Mem, mem_backend, delete, exists, list, addressable}
use go_cask.Mem.Contents.{delete-IsValid, IsValid}
use go_cask.Sweep.Marks.{KeepsOthers}
use go_cask.Common.Sort.{bytes_leb, insert_sorted, sort}
use go_cask.Tests.Data.{
  ab, raw, short_digest, short_text, plain_hasher, plain_laws, two_objects, two_objects-IsValid,
}

-- Only "0aff" is live.
abbrev live : List Bytes
live = short_text ∷ []

sweep-exact_example :
    (doomed : List Digest) × ((sweep mem_backend none none
        (λ i. none)
        live
        (record { dry_run = false; min_age = 0 })
        7
        two_objects).0
      ≡ ok doomed)
    × ((j : Digest)
        → elem j doomed
          ≡ (is_some (BackendLaws.view mem_laws two_objects j) && not (elem (string j) live)))
    × ((j : Digest)
        → BackendLaws.view mem_laws
            (sweep mem_backend none none
              (λ i. none)
              live
              (record { dry_run = false; min_age = 0 })
              7
              two_objects).1
            j
          ≡ (if elem j doomed && not false then none else BackendLaws.view mem_laws two_objects j))
unfolding mem_laws
sweep-exact_example =
    sweep-exact mem_backend mem_laws none live false 7 two_objects two_objects-IsValid

mem_others :
    (ctx : Ctx) (d j : Digest) (m : Mem)
    → bytes_eq d j ≡ false
    → lookup j (Mem.objects (delete ctx d m).1) ≡ lookup j m.objects
unfolding delete
mem_others ctx d j m h =
    or_fail-keeps (λ (s : Mem). lookup j s.objects ≡ lookup j m.objects) (check_ctx ctx) m _ refl
      λ _ _.
        or_fail-keeps (λ (s : Mem). lookup j s.objects ≡ lookup j m.objects) (check_digest d) m _
          refl
          λ _ _. elim (Option-cases (lookup d m.objects)) [
            | inl absent ↦ rw absent refl
            | inr (old, found) ↦ rw found (lookup-remove d j m.objects ∙ rw h refl)
          ]

mem_keeps : KeepsOthers mem_backend
mem_keeps = record {
  IsValid = IsValid;
  view = λ m d. lookup d m.objects;
  delete_valid = λ ctx d m v. delete-IsValid ctx d m v;
  delete_others = λ ctx d j m v h. mem_others ctx d j m h;
}

-- A context that is canceled between the two deletions of a sweep.
abbrev canceled_between : ℕ → Ctx
canceled_between i = if ltb i 2 then none else some (wrap canceled)

abbrev only_ab : List Bytes
only_ab = string ab ∷ []

abbrev with_ab : Mem
with_ab = record {
  objects = (ab, ab) ∷ (1 ∷ ab, raw) ∷ (short_digest, raw) ∷ [];
  max_bytes = 50;
  used_bytes = 8;
}

with_ab-IsValid : IsValid with_ab
unfolding total lookup bytes_eq
with_ab-IsValid = record {
  accounted = refl;
  distinct = (refl, (refl, (refl, tt)));
  no_absent = refl;
  within_cap = inr (omega arith);
}

-- The sweep below deletes the first of two objects and stops with the error of the context.
canceled_sweep :
    sweep mem_backend none none canceled_between only_ab
      (record { dry_run = false; min_age = 0 })
      7
      with_ab
    ≡ (
      err (wrap canceled),
      record { objects = (ab, ab) ∷ (short_digest, raw) ∷ []; max_bytes = 50; used_bytes = 5 },
    )
unfolding sweep marked chosen_statter collect is_doomed is_young delete_all delete exists list
    addressable sort insert_sorted bytes_leb new_digest check_digest lookup remove elem string
    hex_encode bytes_eq is
canceled_sweep = refl

sweep-keeps_live_example :
    IsValid
      (sweep mem_backend none none canceled_between only_ab
        (record { dry_run = false; min_age = 0 })
        7
        with_ab).1
    × (lookup ab (
          Mem.objects
            (sweep mem_backend none none canceled_between only_ab
              (record { dry_run = false; min_age = 0 })
              7
              with_ab).1)
        ≡ lookup ab with_ab.objects)
unfolding mem_keeps
sweep-keeps_live_example =
    sweep-keeps_live mem_backend mem_keeps none none canceled_between only_ab
      (record { dry_run = false; min_age = 0 }) 7 ab with_ab with_ab-IsValid
      (unfold elem in rw (bytes_eq_refl (string ab)) refl)

verify-intact_iff_example :
    (verify mem_backend plain_hasher none short_digest two_objects ≡ ok tt) ↔ (
      (content : Bytes) × (BackendLaws.view mem_laws two_objects short_digest ≡ some content)
      × (1 ∷ content ≡ short_digest))
unfolding mem_laws
verify-intact_iff_example =
    verify-intact_iff mem_backend mem_laws plain_hasher plain_laws short_digest two_objects
      two_objects-IsValid refl refl

listed : Backend.list mem_backend none two_objects ≡ ok ((1 ∷ ab) ∷ short_digest ∷ [])
unfolding go_cask.Mem.list go_cask.Common.Sort.sort go_cask.Mem.addressable
    go_cask.Common.Sort.insert_sorted go_cask.Common.Sort.bytes_leb go_cask.Digest.new_digest
listed = refl

listed_present :
    (d : Digest)
    → elem d ((1 ∷ ab) ∷ short_digest ∷ []) ≡ true
    → (is_zero d ≡ false) × (Hasher.validate_digest plain_hasher d ≡ ok tt)
unfolding elem bytes_eq
listed_present [] h = cc
listed_present (x ∷ d) h = (refl, refl)

verify_all-exact_example : verify_all mem_backend plain_hasher none two_objects ≡ (
  some (record {
    checked = 2;
    bad =
        damaged mem_backend mem_laws plain_hasher plain_laws
          ((1 ∷ ab) ∷ short_digest ∷ [])
          two_objects;
  }),
  none,
)
verify_all-exact_example =
    verify_all-exact mem_backend mem_laws plain_hasher plain_laws two_objects
      ((1 ∷ ab) ∷ short_digest ∷ []) (unfold mem_laws in two_objects-IsValid) listed listed_present
