-- ===== src/Sweep/Exact.antt =====
-- cas/sweep.go: a sweep deletes what it reports, and nothing that is live.
use go_cask.Common.{
  ℕ, ◌≡◌, refl, sym, ap, ◌∙◌, inl, inr, Bool, true, false, not, ◌&&◌, ◌||◌, Option, none, List, [],
  ◌∷◌, arith, if◌then◌else◌, Bool-cases, or_right, Bytes, bytes_eq, bytes_eq_iff, bytes_eq_refl,
}
use go_cask.Common.Assoc.{elem}
use go_cask.Errors.{Result-cases, Result, ok}
use go_cask.Digest.{Digest, string}
use go_cask.Backend.{Ctx, is_some, Backend, BackendLaws}
use go_cask.Sweep.{chosen_statter, is_young, is_doomed, collect, marked, sweep, SweepOptions}
use go_cask.Sweep.Marks.{
  marked_dead, delete_all-keeps, listed_present, delete_all-deleted, marked-eq-ok, KeepsOthers,
}

kept_dry : (p : Bool) (x : Option Bytes) → x ≡ (if p && false then none else x)
kept_dry true x = refl
kept_dry false x = refl

gone_wet : (p : Bool) (x : Option Bytes) → (if p then none else x) ≡ (if p && true then none else x)
gone_wet true x = refl
gone_wet false x = refl

elem_kept :
    (dead : Bool) (d j : Digest) (rest : List Digest)
    → elem j (if dead then d ∷ rest else rest) ≡ (dead && bytes_eq d j) || elem j rest
unfolding elem
elem_kept true d j rest = refl
elem_kept false d j rest = refl

kept_or :
    (e ld lj m : Bool) → (e ≡ true → ld ≡ lj) → (not ld && e) || (m && not lj) ≡ (e || m) && not lj
kept_or true ld true m h = rw (h refl) (ground arith)
kept_or true ld false m h = rw (h refl) refl
kept_or false true lj m h = refl
kept_or false false lj m h = refl

not_doomed :
    (live : List Bytes) (doomed : List Digest) (j : Digest)
    → (elem j doomed ≡ true → elem (string j) live ≡ false)
    → elem (string j) live ≡ true
    → elem j doomed ≡ false
not_doomed live doomed j dead alive = elim (Bool-cases (elem j doomed)) [
  | inl q ↦ let clash = sym (dead q) ∙ alive in cc
  | inr q ↦ q
]

-- Over a backend whose deletes keep every other object, also those that fail: whatever the options and
-- the outcome, an error of a delete or of the context between two deletes included, a sweep keeps every
-- live object, and the backend valid.
pub sweep-keeps_live :
    (b : Backend) (keeps : KeepsOthers b)
    (mod_time : Option (Ctx → Digest → Backend.State b → Result ℕ)) (ctx : Ctx) (errs : ℕ → Ctx)
    (live : List Bytes) (opts : SweepOptions) (now : ℕ) (j : Digest) (s : Backend.State b)
    → KeepsOthers.IsValid keeps s
    → elem (string j) live ≡ true
    → KeepsOthers.IsValid keeps (sweep b mod_time ctx errs live opts now s).1
      × (KeepsOthers.view keeps (sweep b mod_time ctx errs live opts now s).1 j
          ≡ KeepsOthers.view keeps s j)
unfolding sweep
sweep-keeps_live b keeps mod_time ctx errs live opts now j s v alive =
    elim (Result-cases (marked b mod_time ctx live opts.min_age now s)) [
      | inr (e, q) ↦ rw (q, sweep) (v, refl)
      | inl (doomed, q) ↦ elim (Bool-cases opts.dry_run) [
        | inl dry ↦ rw (q, dry, sweep) (v, refl)
        | inr wet ↦
            let spared =
              not_doomed live doomed j
                (marked_dead b mod_time ctx live opts.min_age now s doomed q j) alive in
            rw (q, wet, sweep) (delete_all-keeps b keeps errs doomed s j v spared)
      ]
    ]

module _ (b : Backend) (laws : BackendLaws b)
    (mod_time : Option (Ctx → Digest → Backend.State b → Result ℕ)) where
  -- Over a backend that keeps its contract, a dry run changes nothing, and reports what a real run with
  -- the same minimal age reports.
  pub sweep-dry_run :
      (ctx : Ctx) (live : List Bytes) (min_age now : ℕ) (s : Backend.State b)
      → BackendLaws.IsValid laws s
      → ((sweep b mod_time ctx
            (λ i. ctx)
            live
            (record { dry_run = true; min_age = min_age })
            now
            s).1
          ≡ s)
        × ((sweep b mod_time ctx
              (λ i. ctx)
              live
              (record { dry_run = true; min_age = min_age })
              now
              s).0
            ≡ (sweep b mod_time ctx
                (λ i. ctx)
                live
                (record { dry_run = false; min_age = min_age })
                now
                s).0)
  unfolding sweep
  sweep-dry_run ctx live min_age now s v =
      elim (Result-cases (marked b mod_time ctx live min_age now s)) [
        | inr (e, q) ↦ rw (q, sweep) (refl, refl)
        | inl (doomed, q) ↦
            let chosen = marked-eq-ok b laws mod_time ctx live min_age now s doomed v q in
            let (gone, v', views) =
              delete_all-deleted b laws mod_time ctx doomed s v
                (λ d m. let (a, p, n) = chosen d m in (a, p)) in
            rw (q, sweep) (refl, rw gone refl)
      ]

  is_doomed_listed :
      (min_age now : ℕ) (live : List Bytes) (d : Digest) (s : Backend.State b)
      → BackendLaws.IsValid laws s
      → is_some (BackendLaws.view laws s d) ≡ true
      → is_doomed b mod_time none none min_age now live d s ≡ ok (not (elem (string d) live))
  unfolding is_doomed is_young
  is_doomed_listed min_age now live d s v held = elim (Bool-cases (elem (string d) live)) [
    | inl q ↦ rw (q, is_doomed) refl
    | inr q ↦
        rw (q, is_doomed)
          (rw (BackendLaws.exists_lem laws d s v (listed_present b laws mod_time d s v held))
            (rw held refl))
  ]

  collect_listed :
      (min_age now : ℕ) (live : List Bytes) (ds : List Digest) (s : Backend.State b)
      → BackendLaws.IsValid laws s
      → ((d : Digest) → elem d ds ≡ true → is_some (BackendLaws.view laws s d) ≡ true)
      → (doomed : List Digest) × (collect b mod_time none none min_age now live ds s ≡ ok doomed)
        × ((d : Digest) → elem d doomed ≡ (elem d ds && not (elem (string d) live)))
  unfolding collect elem
  collect_listed min_age now live [] s v h = ([], refl, λ d. refl)
  collect_listed min_age now live (d ∷ ds) s v h =
      let (rest, r, exact) =
        collect_listed min_age now live ds s v (λ j m. h j (or_right (bytes_eq d j) m)) in
      let turn = is_doomed_listed min_age now live d s v (h d (rw (bytes_eq_refl d) refl)) in
      (
        if not (elem (string d) live) then d ∷ rest else rest,
        rw (turn, r) refl,
        λ j.
            elem_kept (not (elem (string d) live)) d j rest
            ∙ rw (exact j) (
                kept_or (bytes_eq d j) (elem (string d) live) (elem (string j) live) (elem j ds)
                  (λ e. ap (λ i. elem (string i) live) ((bytes_eq_iff d j).0 e))),
      )

  marked_all :
      (live : List Bytes) (now : ℕ) (s : Backend.State b) (ds doomed : List Digest)
      → Backend.list b none s ≡ ok ds
      → collect b mod_time none none 0 now live ds s ≡ ok doomed
      → marked b mod_time none live 0 now s ≡ ok doomed
  unfolding marked chosen_statter
  marked_all live now s ds doomed l c = rw l c

  -- On a live context and without a minimal age, over a backend that keeps its contract, a sweep reports exactly the stored objects that are
  -- not live, and unless it is a dry run those and no others are gone.
  pub sweep-exact :
      (live : List Bytes) (dry : Bool) (now : ℕ) (s : Backend.State b)
      → BackendLaws.IsValid laws s
      → (doomed : List Digest) × ((sweep b mod_time none
            (λ i. none)
            live
            (record { dry_run = dry; min_age = 0 })
            now
            s).0
          ≡ ok doomed)
        × ((j : Digest)
            → elem j doomed ≡ (is_some (BackendLaws.view laws s j) && not (elem (string j) live)))
        × ((j : Digest)
            → BackendLaws.view laws
                (sweep b mod_time none
                  (λ i. none)
                  live
                  (record { dry_run = dry; min_age = 0 })
                  now
                  s).1
                j
              ≡ (if elem j doomed && not dry then none else BackendLaws.view laws s j))
  unfolding sweep
  sweep-exact live dry now s v =
      let (ds, listed, same) = BackendLaws.list_lem laws s v in
      let (doomed, c, exact) = collect_listed 0 now live ds s v (λ d m. sym (same d) ∙ m) in
      let all_marked = marked_all live now s ds doomed listed c in
      let chosen = marked-eq-ok b laws mod_time none live 0 now s doomed v all_marked in
      let (gone, v', views) =
        delete_all-deleted b laws mod_time none doomed s v
          (λ d m. let (a, p, n) = chosen d m in (a, p)) in
      elim (Bool-cases dry) [
        | inl is_dry ↦ (
          doomed,
          rw (all_marked, is_dry, sweep) refl,
          λ j. rw (sym (same j)) (exact j),
          λ j. rw (all_marked, is_dry, sweep) (kept_dry (elem j doomed) _),
        )
        | inr is_wet ↦ (
          doomed,
          rw (all_marked, is_wet, sweep) (rw gone refl),
          λ j. rw (sym (same j)) (exact j),
          λ j. rw (all_marked, is_wet, sweep) (views j ∙ gone_wet (elem j doomed) _),
        )
      ]
