-- ===== src/Walk.antt =====
-- cas/reachability.go and cas/walker.go: the traversal of an object graph by digests. The context is
-- a function of the number of checks made so far; a round of the loop takes one unit of fuel, and
-- `none` means that the fuel ran out.
pub mod Graph
pub mod Invariant
pub mod Correct
pub mod Reachable
use go_cask.Common.{
  ℕ, zero, suc, true, false, not, ◌&&◌, Option, none, some, List, [], ◌∷◌, ◌==◌, if◌then◌else◌,
  Bytes,
}
use go_cask.Common.Assoc.{elem}
use go_cask.Errors.{is, ◌>>=◌, ◌>>◌, Result, ok, err}
use go_cask.Digest.{Digest, is_zero, string}
use go_cask.Backend.{Ctx}

-- `for _, root := range roots`: the absent roots are skipped, and the last root is on top.
unfoldable pub push_roots : List Digest → List Digest → List Digest
push_roots [] stack = stack
push_roots (root ∷ roots) stack =
    push_roots roots (if not (is_zero root) then root ∷ stack else stack)

-- `for _, ref := range slices.Backward(refs)`: the first reference ends up on top.
unfoldable pub push_refs : List Digest → List Digest → List Digest → List Digest
push_refs visited [] stack = stack
push_refs visited (ref ∷ refs) stack =
    let pushed = push_refs visited refs stack in
    if is_zero ref then pushed else if not (elem ref visited) then ref ∷ pushed else pushed

-- A nil slice of references is `none`.
abbrev pub Refs : Type 0
Refs = Option (List Digest)

abbrev pub range : Refs → List Digest
range none = []
range (some refs) = refs

-- `if refs == nil && node != nil { refs = node.References() }`.
unfoldable pub node_refs : {N : Type 0} → (N → Refs) → Option N → Refs → Refs
node_refs references (some obj) none = references obj
node_refs references (some obj) (some refs) = some refs
node_refs references none refs = refs

module _ {N V : Type 0} (references : N → Refs) where
  module _ (resolve : Digest → Result (Option N × Refs))
      (visit : Digest → Option N → Refs → V → Result V) (ctx : ℕ → Ctx) where
    -- One object: it is resolved and visited; the references that are to be pushed.
    unfoldable pub visit_object : Digest → V → Result (List Digest × V)
    visit_object d v = do
      (node, refs) ← resolve d
      v' ← visit d node (node_refs references node refs) v
      ok (range (node_refs references node refs), v')

    -- The loop: `n` checks of the context are made.
    unfoldable pub walk_loop : ℕ → ℕ → List Digest → List Digest → V → Option (Result V)
    walk_loop zero n visited stack v = none
    walk_loop (suc fuel) n visited [] v = some (ok v)
    walk_loop (suc fuel) n visited (d ∷ stack) v = elim (ctx n) [
      | some e ↦ some (err e)
      | none ↦ elim (elem d visited) [
        | true ↦ walk_loop fuel (suc n) visited stack v
        | false ↦ elim (visit_object d v) [
          | err e ↦ some (err e)
          | ok (refs, v') ↦
              walk_loop fuel (suc n) (d ∷ visited) (push_refs (d ∷ visited) refs stack) v'
        ]
      ]
    ]

    unfoldable pub walk_digests : ℕ → List Digest → V → Option (Result V)
    walk_digests fuel roots v = elim (ctx 0) [
      | some e ↦ some (err e)
      | none ↦ walk_loop fuel 1 [] (push_roots roots []) v
    ]

-- `Reachable`: the set of the digests visited, by their text form. There are no nodes here.
module _ (lister : Digest → Result Refs) (ctx : ℕ → Ctx) where
  unfoldable pub expand : Digest → Result (Option (Unit {0}) × Refs)
  expand d = do direct ← lister d; ok (none, direct)

  unfoldable pub mark : Digest → Option (Unit {0}) → Refs → List Bytes → Result (List Bytes)
  mark d _ refs seen = ok (string d ∷ seen)

  unfoldable pub reachable : ℕ → List Digest → Option (Result (List Bytes))
  reachable fuel roots = walk_digests (λ _. none) expand mark ctx fuel roots []

-- `Walker.Walk`: the nodes are the store's objects, each resolved by `Store.Get`.
module _ {T V : Type 0} (get : Digest → Result T) (references : T → Refs) (visit : T → V → Result V)
    (ctx : ℕ → Ctx) where
  unfoldable pub resolve_object : Digest → Result (Option T × Refs)
  resolve_object d = do obj ← get d; ok (some obj, none)

  -- The store returned an object, so the assertion on the node cannot fail.
  unfoldable pub visit_node : Digest → Option T → Refs → V → Result V
  visit_node d none refs v = ok v
  visit_node d (some obj) refs v = visit obj v

  unfoldable pub walk : ℕ → Digest → V → Option (Result V)
  walk fuel d v = walk_digests references resolve_object visit_node ctx fuel (d ∷ []) v
