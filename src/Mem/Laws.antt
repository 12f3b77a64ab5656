-- ===== src/Mem/Laws.antt =====
-- The memory backend keeps the contract of `cas.Backend`.
use go_cask.Common.{
  ℕ, ◌+◌, ◌-◌, ◌<◌, ◌≡◌, sym, ap, ◌∙◌, ◌≢◌, ◌⊎◌, inl, inr, true, false, none, some, arith, ltb, leb,
  ◌==◌, if◌then◌else◌, Bool-cases, length, length-take, Bytes,
}
use go_cask.Common.Assoc.{size_at}
use go_cask.Errors.{ok}
use go_cask.Digest.{Digest, is_zero, check_digest}
use go_cask.Reader.{read_all, limit_reader, Reader}
use go_cask.Backend.{Ctx, check_ctx, Effect, or_fail-done, check_digest-eq-ok}
use go_cask.Mem.{max_int64, budget, over_cap, stored, store, read_whole, read_object, put, Mem}

read_all-inv :
    (r : Reader) {content : Bytes}
    → read_all r ≡ ok content
    → (read_all r ≡ ok r.content) × (content ≡ r.content)
unfolding read_all
read_all-inv r h = ground arith

read_whole-inv :
    (ctx : Ctx) (r : Reader) {content : Bytes}
    → read_whole ctx r ≡ ok content
    → read_all r ≡ ok content
unfolding read_whole
read_whole-inv none r h = h
read_whole-inv (some e) r h = cc

-- Under a limit either the whole stream is read, or as many bytes as the limit says.
read_limited-inv :
    (r : Reader) (n : ℕ) {content : Bytes}
    → read_all (limit_reader r n) ≡ ok content
    → (length content ≡ n) ⊎ ((read_all r ≡ ok r.content) × (content ≡ r.content))
unfolding limit_reader
read_limited-inv r n {content} h = elim (Bool-cases (leb n (length r.content))) [
  | inl long ↦ inl (unfold read_all in ground (arith, length-take n r.content))
  | inr short ↦ inr (read_all-inv r (rw (short, limit_reader) at h))
]

-- One byte past the budget is an object that `store` refuses.
over_budget :
    (d content : Bytes) (m : Mem)
    → m.max_bytes ≢ 0
    → length content ≡ m.max_bytes + size_at d m.objects - m.used_bytes + 1
    → over_cap d content m ≡ true
over_budget d content m capped h = ground arith

-- A stream that is read within the budget and then stored was read whole.
read_object-whole :
    (ctx : Ctx) (d : Digest) (r : Reader) (m : Mem) {content : Bytes}
    → read_object ctx (budget m d) r ≡ ok content
    → over_cap d content m ≡ false
    → (read_all r ≡ ok r.content) × (content ≡ r.content)
unfolding read_object budget
read_object-whole ctx d r m {content} h fits = elim (Bool-cases (m.max_bytes == 0)) [
  | inl free ↦ read_all-inv r (read_whole-inv ctx r (rw (free, read_object) at h))
  | inr capped ↦
      go (Bool-cases (ltb (m.max_bytes + size_at d m.objects - m.used_bytes) max_int64))
        (rw (capped, read_object) at h) (ground arith)
]
  where
    go :
        (ltb (m.max_bytes + size_at d m.objects - m.used_bytes) max_int64 ≡ true)
          ⊎ (ltb (m.max_bytes + size_at d m.objects - m.used_bytes) max_int64 ≡ false)
        → (if ltb (m.max_bytes + size_at d m.objects - m.used_bytes) max_int64
            then read_all (limit_reader r (m.max_bytes + size_at d m.objects - m.used_bytes + 1))
            else read_whole ctx r)
          ≡ ok content
        → m.max_bytes ≢ 0
        → (read_all r ≡ ok r.content) × (content ≡ r.content)
    go (inl small) k c = elim (read_limited-inv r _ (rw small at k)) [
      | inl full ↦ absurd (ground (arith, over_budget d content m c full, fits))
      | inr whole ↦ whole
    ]
    go (inr large) k c = read_all-inv r (read_whole-inv ctx r (rw large at k))

store-done :
    (d content : Bytes) (m : Mem)
    → (store d content m).0 ≡ none
    → (over_cap d content m ≡ false) × (store d content m ≡ (none, stored d content m))
unfolding store
store-done d content m h = elim (Bool-cases (over_cap d content m)) [
  | inl over ↦ absurd (cc (rw (over, store) at h))
  | inr fits ↦ (fits, rw fits)
]

pub put-done :
    (ctx : Ctx) (d : Digest) (r : Reader) (m : Mem)
    → (put ctx d r m).0 ≡ none
    → (read_all r ≡ ok r.content)
      × (is_zero d ≡ false)
      × (over_cap d r.content m ≡ false)
      × (put ctx d r m ≡ (none, stored d r.content m))
unfolding put
put-done ctx d r m h =
    let (u, alive, h₁) = or_fail-done (check_ctx ctx) m _ h in
    let (u', present, h₂) =
      or_fail-done (check_digest d) m _ (ap (λ (x : Effect Mem). x.0) (sym h₁) ∙ h) in
    let (content, read, h₃) =
      or_fail-done (read_object ctx (budget m d) r) m (λ content. store d content m)
        (ap (λ (x : Effect Mem). x.0) (sym (h₁ ∙ h₂)) ∙ h) in
    let kept = store-done d content m (ap (λ (x : Effect Mem). x.0) (sym (h₁ ∙ h₂ ∙ h₃)) ∙ h) in
    let (whole, same) = read_object-whole ctx d r m read kept.0 in
    (
      whole,
      check_digest-eq-ok d present,
      rw same at kept.0,
      h₁ ∙ h₂ ∙ h₃ ∙ kept.1 ∙ ap (λ (c : Bytes). (none, stored d c m)) same,
    )

limit_reader_short : (r : Reader) (n : ℕ) → length r.content < n → limit_reader r n ≡ r
unfolding limit_reader
limit_reader_short r n h = ground arith

-- A stream that fits the budget is read whole.
pub read_object_fits :
    (d : Digest) (r : Reader) (m : Mem)
    → read_all r ≡ ok r.content
    → over_cap d r.content m ≡ false
    → read_object none (budget m d) r ≡ ok r.content
unfolding read_object budget read_whole
read_object_fits d r m whole fits = elim (Bool-cases (m.max_bytes == 0)) [
  | inl free ↦ rw free whole
  | inr capped ↦
      rw capped
        (elim (Bool-cases (ltb (m.max_bytes + size_at d m.objects - m.used_bytes) max_int64)) [
          | inl small ↦
              rw
                (
                  small,
                  limit_reader_short r (m.max_bytes + size_at d m.objects - m.used_bytes + 1)
                      (ground (arith, capped, fits)),
                )
                whole
          | inr large ↦ rw large whole
        ])
]
