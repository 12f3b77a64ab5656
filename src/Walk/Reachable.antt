-- ===== src/Walk/Reachable.antt =====
-- `Reachable` over a finite graph: the map that it returns holds exactly the digests that can be
-- reached.
use mathlib.Core.Path.{ap₂}
use go_cask.Common.{
  ◌≡◌, refl, ap, true, ◌||◌, some, List, [], ◌∷◌, arith, Bytes, bytes_eq, bytes_eq_iff, AreBytes,
}
use go_cask.Common.Assoc.{elem}
use go_cask.Errors.{Result, ok}
use go_cask.Digest.{Digest, string, unmarshal_text}
use go_cask.Digest.Text.{unmarshal_text-marshal_text, string-marshal_text}
use go_cask.Walk.{Refs}
use go_cask.Walk.Graph.{elem-cons_self, elem-cons_of, IsClosed}

-- The keys of the map, in the order in which they were set.
unfoldable pub marks : List Digest → List Bytes
marks [] = []
marks (d ∷ ds) = string d ∷ marks ds

abbrev pub add_mark : Digest → List Bytes → List Bytes
add_mark d seen = string d ∷ seen

-- The text forms of two digests that hold bytes are equal only if the digests are.
string-injective : (d e : Digest) → AreBytes d → AreBytes e → string d ≡ string e → d ≡ e
string-injective d e hd he h =
    let parsed : unmarshal_text (string d) ≡ ok d =
      rw (string-marshal_text d) (unmarshal_text-marshal_text d hd) in
    let parsed' : unmarshal_text (string e) ≡ ok e =
      rw (string-marshal_text e) (unmarshal_text-marshal_text e he) in
    cc (ap unmarshal_text h)

bytes_eq-string :
    (e d : Digest) → AreBytes e → AreBytes d → bytes_eq (string e) (string d) ≡ bytes_eq e d
bytes_eq-string e d he hd = ground (
  arith,
  bytes_eq_iff e d,
  bytes_eq_iff (string e) (string d),
  string-injective e d he hd,
  λ (same : e ≡ d). ap string same,
)

-- A digest that holds bytes is marked exactly if it is in the list.
pub elem-marks :
    (d : Digest) (ds : List Digest)
    → AreBytes d
    → ((e : Digest) → elem e ds ≡ true → AreBytes e)
    → elem (string d) (marks ds) ≡ elem d ds
unfolding marks elem
elem-marks d [] h a = refl
elem-marks d (e ∷ ds) h a =
    let first = a e (elem-cons_self e ds) in
    let rest = elem-marks d ds h (λ x m. a x (elem-cons_of e x ds m)) in
    ap₂ ◌||◌ (bytes_eq-string e d first h) rest

module _ (lister : Digest → Result Refs) (refs : Digest → List Digest)
    (universe roots : List Digest) where
  -- Every object of a finite, closed set of digests can be expanded.
  pub record Expands : Type 0 where
    pub lists : (d : Digest) → elem d universe ≡ true → lister d ≡ ok (some (refs d))
    pub are_bytes : (d : Digest) → elem d universe ≡ true → AreBytes d
    pub closed : IsClosed refs universe roots
