-- ===== src/Scope/Tree/Validate.antt =====
-- The check of a loaded snapshot, `_validate_snapshot` of src/langharness_scope/tree.py, and the
-- reload of a saved tree.
use langharness.Prelude.{
  ℕ, zero, suc, ◌≤◌, String, ◌≡◌, refl, ◌<◌, ◌≢◌, Bool, true, false, not, ◌&&◌, some, List, [], ◌∷◌,
  ok, err, inl, inr, arith, Option-cases, Bool-cases, string_eq, length, if◌then◌else◌, Error, ◌==◌,
  All, filter, contains, In, bind, bind_eq_ok, length-filter, sym, ◌∙◌, ap,
}
use langharness.Prelude.Dict.{In-of_lookup, lookup, has, index, values, Distinct}
use langharness.Scope.Model.{Scope, Scopes, root_scope_id}
use langharness.Scope.Tree.Path.{IsPath, parent_of_ordered}
use langharness.Scope.Tree.Reads.{require, climb, ancestors}
use langharness.Scope.Tree.Valid.{IsTree, id_of_lookup, lookup_of_In}
use langharness.Scope.Tree.Writes.{walk, has_parent, validate_each, validate_snapshot}
use mathlib.Core.Path.{subst}
use text.Mathlib.TextEquality.{eq_iff}

-- How many nodes a walk has not seen.
abbrev unseen : List String → Scopes → ℕ
unseen seen d = length (filter (λ e. not (contains e.0 seen)) d)

unseen_le : (k : String) (seen : List String) (d : Scopes) → unseen (k ∷ seen) d ≤ unseen seen d
unseen_le k seen [] = omega arith
unseen_le k seen ((j, t) ∷ d) = ground (arith, unseen_le k seen d)

unseen_lt :
    (k : String) (seen : List String) (d : Scopes)
    → has k d ≡ true
    → contains k seen ≡ false
    → unseen (k ∷ seen) d < unseen seen d
unseen_lt k seen [] h fresh = cc
unseen_lt k seen ((j, t) ∷ d) h fresh = elim (Bool-cases (j == k)) [
  | inl same ↦
      let q : j ≡ k = (eq_iff j k).0 same in
      let r : contains j seen ≡ false = ap (λ a. contains a seen) q ∙ fresh in
      ground (arith, unseen_le k seen d, eq_iff k j)
  | inr other ↦ ground (arith, unseen_lt k seen d, eq_iff k j, eq_iff j k)
]

lower-All :
    (m n : ℕ) (d : Scopes) (seen : List String)
    → m < n
    → All (λ k. n < index k d) seen
    → All (λ k. m < index k d) seen
lower-All m n d [] lt h = tt
lower-All m n d (k ∷ seen) lt h = (omega arith, lower-All m n d seen lt h.1)

not_seen :
    (k : String) (d : Scopes) (seen : List String)
    → All (λ j. index k d < index j d) seen
    → contains k seen ≡ false
not_seen k d [] h = refl
not_seen k d (j ∷ seen) h = elim (Bool-cases (j == k)) [
  | inl same ↦
      let q : index j d ≡ index k d = ap (λ a. index a d) ((eq_iff j k).0 same) in
      absurd (omega arith)
  | inr other ↦ ground (arith, not_seen k d seen h.1)
]

-- The walk ends within its fuel, whatever the parents are: it never meets an id twice.
walk_ends :
    (fuel : ℕ) (d : Scopes) (seen : List String) (s : Scope)
    → All (λ e. e.1.id ≡ e.0) d
    → lookup s.id d ≡ some s
    → unseen seen d < fuel
    → walk fuel d seen s ≢ err Error.diverges
unfolding walk
walk_ends zero d seen s keyed h lt = absurd (omega arith)
walk_ends (suc fuel) d seen s keyed h lt = elim (Option-cases s.parent_id) [
  | inl top_node ↦ ground arith
  | inr (p, e) ↦ elim (Bool-cases (contains s.id seen)) [
    | inl again ↦ ground arith
    | inr fresh ↦ elim (Option-cases (lookup p d)) [
      | inl missing ↦ ground arith
      | inr (above, found) ↦
          let same = id_of_lookup p above d keyed found in
          let next =
            walk_ends fuel d (s.id ∷ seen) above keyed ((ap (λ a. lookup a d) same) ∙ found)
              (omega (arith, unseen_lt s.id seen d (ground arith) fresh)) in
          ground (arith, next)
    ]
  ]
]

-- A walk that passes has climbed to a root.
walk-IsPath :
    (fuel : ℕ) {d : Scopes} (seen : List String) (s : Scope)
    → walk fuel d seen s ≡ ok tt
    → (l : List Scope) × (climb fuel d s ≡ ok l) × IsPath d s l
unfolding walk climb require
walk-IsPath zero seen s h = cc
walk-IsPath (suc fuel) {d} seen s h = elim (Option-cases s.parent_id) [
  | inl top_node ↦ ([], ground arith, IsPath.top top_node)
  | inr (p, e) ↦ elim (Option-cases (lookup p d)) [
    | inl missing ↦ absurd (ground arith)
    | inr (above, found) ↦
        let passed : walk fuel d (s.id ∷ seen) above ≡ ok tt = ground arith in
        let (rest, done, path) = walk-IsPath fuel (s.id ∷ seen) above passed in
        (above ∷ rest, ground arith, IsPath.up p e found path)
  ]
]

validate_each_ends :
    (d : Scopes) (rest : List Scope)
    → All (λ e. e.1.id ≡ e.0) d
    → All (λ s. lookup s.id d ≡ some s) rest
    → validate_each d rest ≢ err Error.diverges
unfolding validate_each
validate_each_ends d [] keyed known = ground arith
validate_each_ends d (s ∷ rest) keyed known = ground (
  arith,
  walk_ends (suc (length d)) d [] s keyed known.0
      (omega (arith, length-filter (λ e. not (contains e.0 [])) d)),
  validate_each_ends d rest keyed known.1,
)

validate_each_cons :
    (d : Scopes) (x : Scope) (rest : List Scope)
    → validate_each d (x ∷ rest) ≡ ok tt
    → (walk (suc (length d)) d [] x ≡ ok tt) × (validate_each d rest ≡ ok tt)
unfolding validate_each
validate_each_cons d x rest h =
    elim (Bool-cases (not (x.id == root_scope_id) && not (has_parent d x))) [
      | inl orphan ↦ absurd (ground arith)
      | inr placed ↦
          let passed : bind (walk (suc (length d)) d [] x) (λ _. validate_each d rest) ≡ ok tt =
            rw placed at h in
          let (u, here, there) = bind_eq_ok (walk (suc (length d)) d [] x) _ passed in (here, there)
    ]

validate_each_paths :
    (d : Scopes) (rest : List Scope)
    → validate_each d rest ≡ ok tt
    → (s : Scope) → In s rest
    → (l : List Scope) × (climb (suc (length d)) d s ≡ ok l) × IsPath d s l
validate_each_paths d [] h s m = absurd m.1
validate_each_paths d (x ∷ rest) h s (inl same) =
    subst (λ y. (l : List Scope) × (climb (suc (length d)) d y ≡ ok l) × IsPath d y l) same
      (walk-IsPath (suc (length d)) [] x (validate_each_cons d x rest h).0)
validate_each_paths d (x ∷ rest) h s (inr later) =
    validate_each_paths d rest (validate_each_cons d x rest h).1 s later

pub All-known :
    (d rest : Scopes)
    → ((s : Scope) → In s (values rest) → lookup s.id d ≡ some s)
    → All (λ s. lookup s.id d ≡ some s) (values rest)
All-known d [] known = tt
All-known d ((j, s) ∷ rest) known = (known s (inl refl), All-known d rest (λ x m. known x (inr m)))

-- The check of a snapshot ends on every dict that holds its nodes under their ids, cycles among
-- the parents included.
pub validate_snapshot_ends :
    (d : Scopes) → All (λ e. e.1.id ≡ e.0) d → Distinct d → validate_snapshot d ≢ err Error.diverges
unfolding validate_snapshot
validate_snapshot_ends d keyed distinct =
    let known = All-known d d (λ s m. lookup_of_In s d keyed distinct m) in
    ground (arith, validate_each_ends d (values d) keyed known)

-- A snapshot that passes the check has no cycle and no orphan: from every node `ancestors` reaches
-- a node without a parent, within the fuel.
pub validate_snapshot-ancestors :
    (d : Scopes) (k : String) (s : Scope) (include_self : Bool)
    → validate_snapshot d ≡ ok tt
    → lookup k d ≡ some s
    → (l : List Scope) × (ancestors d k include_self ≡ ok (if include_self then s ∷ l else l))
      × IsPath d s l
unfolding validate_snapshot ancestors
validate_snapshot-ancestors d k s include_self h found =
    let passed : validate_each d (values d) ≡ ok tt = ground arith in
    let (l, done, path) = validate_each_paths d (values d) passed s (In-of_lookup k s d found) in
    (l, ground arith, path)

-- In a tree, whose parents stand before their children, a walk passes.
pub walk_passes :
    (fuel : ℕ) (d : Scopes) (seen : List String) (s : Scope)
    → IsTree d
    → lookup s.id d ≡ some s
    → index s.id d < fuel
    → All (λ k. index s.id d < index k d) seen
    → walk fuel d seen s ≡ ok tt
unfolding walk
walk_passes zero d seen s t h lt above_seen = absurd (omega arith)
walk_passes (suc fuel) d seen s t h lt above_seen = elim (Option-cases s.parent_id) [
  | inl top_node ↦ ground arith
  | inr (p, e) ↦
      let (above, found) = parent_of_ordered t s.id p s h e in
      let same = id_of_lookup p above d t.keyed found in
      let lower : index above.id d < index s.id d =
        subst (λ a. index a d < index s.id d) (sym same) (t.ordered s.id p s h e) in
      let rest =
        walk_passes fuel d (s.id ∷ seen) above t (ap (λ a. lookup a d) same ∙ found) (omega arith)
          (lower, lower-All (index above.id d) (index s.id d) d seen lower above_seen) in
      ground (arith, not_seen s.id d seen above_seen)
]
