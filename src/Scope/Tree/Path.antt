-- ===== src/Scope/Tree/Path.antt =====
-- `ancestors` of src/langharness_scope/tree.py against the path to the root.
use langharness.Prelude.{
  ℕ, zero, suc, String, ◌≡◌, ◌<◌, Bool, true, none, some, List, [], ◌∷◌, ok, inl, inr, arith,
  Option-cases, string_eq, length, if◌then◌else◌,
}
use langharness.Prelude.Dict.{lookup, has, index, has_of_index, index-le-length}
use langharness.Scope.Model.{Scope, Scopes}
use langharness.Scope.Tree.Reads.{climb, ancestors}
use langharness.Scope.Tree.Valid.{IsTree}

-- The nodes above a node, from its parent up to the root.
pub data IsPath (d : Scopes) : Scope → List Scope → Type 0 where
  top : {s : Scope} → s.parent_id ≡ none → IsPath d s []
  up :
      {s above : Scope} {rest : List Scope} (p : String)
      → s.parent_id ≡ some p
      → lookup p d ≡ some above
      → IsPath d above rest
      → IsPath d s (above ∷ rest)

pub parent_of_ordered :
    {d : Scopes} (t : IsTree d) (k p : String) (s : Scope)
    → lookup k d ≡ some s
    → s.parent_id ≡ some p
    → (above : Scope) × (lookup p d ≡ some above)
parent_of_ordered {d} t k p s h e =
    let lt = t.ordered k p s h e in
    let known : has p d ≡ true = has_of_index p d (omega (arith, index-le-length k d)) in
    elim (Option-cases (lookup p d)) [ inl missing ↦ ground arith | inr found ↦ found ]

-- In a tree the loop ends within its fuel, and what it finds is the path to the root.
pub climb-IsPath :
    (fuel : ℕ) {d : Scopes} (k : String) (s : Scope)
    → IsTree d
    → lookup k d ≡ some s
    → index k d < fuel
    → (l : List Scope) × (climb fuel d s ≡ ok l) × IsPath d s l
unfolding climb
climb-IsPath zero k s t h lt = absurd (omega arith)
climb-IsPath (suc fuel) {d} k s t h lt = elim (Option-cases s.parent_id) [
  | inl top_node ↦ ([], rw (top_node, climb), IsPath.top top_node)
  | inr (p, e) ↦
      let (above, found) = parent_of_ordered t k p s h e in
      let below = t.ordered k p s h e in
      let (rest, done, path) = climb-IsPath fuel p above t found (omega arith) in
      (above ∷ rest, ground arith, IsPath.up p e found path)
]

-- In a tree `ancestors` of a known node succeeds, with exactly the path from its parent up to
-- the root, and the node itself in front if it is included.
pub ancestors-IsPath :
    {d : Scopes} (k : String) (s : Scope) (include_self : Bool)
    → IsTree d
    → lookup k d ≡ some s
    → (l : List Scope) × (ancestors d k include_self ≡ ok (if include_self then s ∷ l else l))
      × IsPath d s l
unfolding ancestors
ancestors-IsPath {d} k s include_self t h =
    let (l, done, path) =
      climb-IsPath (suc (length d)) k s t h (omega (arith, index-le-length k d)) in
    (l, ground arith, path)
