-- ===== src/RefName/Inside.antt =====
-- cas/refs/refs.go: a valid name stays inside the directory.
use go_cask.Common.{
  ℕ, ◌≡◌, refl, sym, ap, ◌∙◌, inl, inr, false, List, [], ◌∷◌, ◌++◌, arith, ◌==◌, ==_iff, Bool-cases,
  is_empty, Bytes, contains,
}
use go_cask.Errors.{fail_if, >>=-eq-ok, fail_if-eq-ok, ok}
use go_cask.RefName.{
  invalid_name, starts_with, push_front, split_slash, has_control, bad_part, check_parts,
  validate_name,
}

-- The segments with "/" between them.
unfoldable pub join_slash : List Bytes → Bytes
join_slash [] = []
join_slash (part ∷ []) = part
join_slash (part ∷ next ∷ parts) = part ++ (b'/' ∷ join_slash (next ∷ parts))

-- No segment is empty, starts with a dot (so none is "." or ".."), or holds a backslash.
abbrev pub AllInside : List Bytes → Type 0
AllInside [] = Unit
AllInside (part ∷ parts) =
    ((is_empty part ≡ false) × (starts_with (b'.' ∷ []) part ≡ false) × (contains 92 part ≡ false))
    × AllInside parts

join-push_front :
    (x : ℕ) (part : Bytes) (parts : List Bytes)
    → join_slash (push_front x (part ∷ parts)) ≡ x ∷ join_slash (part ∷ parts)
unfolding join_slash
join-push_front x part [] = refl
join-push_front x part (next ∷ parts) = refl

split_slash-cons :
    (name : Bytes) → (part : Bytes) × (parts : List Bytes) × (split_slash name ≡ part ∷ parts)
unfolding split_slash
split_slash-cons [] = ([], [], refl)
split_slash-cons (x ∷ name) =
    let (part, parts, e) = split_slash-cons name in
    elim (Bool-cases (x == b'/')) [
      | inl q ↦ ([], split_slash name, rw (q, split_slash) refl)
      | inr q ↦ (x ∷ part, parts, rw (q, split_slash) (rw e refl))
    ]

join-split_slash : (name : Bytes) → join_slash (split_slash name) ≡ name
unfolding join_slash split_slash
join-split_slash [] = refl
join-split_slash (x ∷ name) =
    let (part, parts, e) = split_slash-cons name in
    let ih = join-split_slash name in
    elim (Bool-cases (x == b'/')) [
      | inl q ↦
          rw (q, split_slash)
            (rw e (
              ap (λ t. b'/' ∷ t) (ap join_slash (sym e) ∙ ih)
              ∙ ap (λ y. y ∷ name) (sym ((==_iff x b'/').0 q))))
      | inr q ↦
          rw (q, split_slash)
            (rw e (join-push_front x part parts ∙ ap (λ t. x ∷ t) (ap join_slash (sym e) ∙ ih)))
    ]

bad_part-inv :
    (part : Bytes)
    → bad_part part ≡ false
    → (is_empty part ≡ false) × (starts_with (b'.' ∷ []) part ≡ false) × (contains 92 part ≡ false)
unfolding bad_part
bad_part-inv part h = ground arith

check_parts-AllInside :
    (parts : List Bytes) {u : Unit {0}} → check_parts parts ≡ ok u → AllInside parts
unfolding check_parts
check_parts-AllInside [] h = tt
check_parts-AllInside (part ∷ parts) h =
    let (u, fine, h₁) = >>=-eq-ok (fail_if (bad_part part) invalid_name) _ h in
    (bad_part-inv part (fail_if-eq-ok _ _ fine), check_parts-AllInside parts h₁)

-- A name that `ValidateName` accepts is its segments with "/" between them; none of them is empty,
-- starts with a dot or holds a backslash, so that the path of the name stays inside the directory.
pub validate_name-AllInside :
    (name : Bytes)
    → validate_name name ≡ ok tt
    → (join_slash (split_slash name) ≡ name) × AllInside (split_slash name)
unfolding validate_name
validate_name-AllInside name h =
    let (u, a, h₁) = >>=-eq-ok (fail_if (is_empty name) invalid_name) _ h in
    let (u', b, h₂) = >>=-eq-ok (fail_if (has_control name) invalid_name) _ h₁ in
    let (u'', c, h₃) = >>=-eq-ok (fail_if (starts_with (b'/' ∷ []) name) invalid_name) _ h₂ in
    (join-split_slash name, check_parts-AllInside (split_slash name) h₃)
