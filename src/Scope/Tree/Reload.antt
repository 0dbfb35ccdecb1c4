-- ===== src/Scope/Tree/Reload.antt =====
-- Round trip of src/langharness_scope/tree.py through its store: what a tree saves, the
-- constructor reads back; and the runs of a tree from a fresh store.
use langharness.Prelude.{
  suc, String, ◌≡◌, refl, false, not, ◌&&◌, none, some, List, [], ◌∷◌, ◌++◌, ok, inl, inr, arith,
  Option-cases, string_eq, length, ◌==◌, All, sym, ◌∙◌, ap, append_assoc, append-nil,
}
use langharness.Prelude.Dict.{lookup, insert, values, Distinct, insert_new, index-le-length}
use langharness.Scope.Model.{Scope, Scopes, root_scope_id, root_scope}
use langharness.Scope.Store.{ScopeStore}
use langharness.Scope.Tree.Create.{IsSynced}
use langharness.Scope.Tree.Path.{parent_of_ordered}
use langharness.Scope.Tree.Valid.{IsTree, lookup_of_In}
use langharness.Scope.Tree.Validate.{walk_passes, All-known}
use langharness.Scope.Tree.Writes.{
  ScopeTree, by_id, has_parent, validate_each, validate_snapshot, open_tree,
}
use mathlib.Core.Path.{subst}
use text.Mathlib.TextEquality.{eq_iff}

not_first :
    (i j : String) (s : Scope) (acc rest : Scopes)
    → lookup i (acc ++ (j, s) ∷ rest) ≡ none
    → (j == i) ≡ false
not_first i j s [] rest h = ground arith
not_first i j s ((k, w) ∷ acc) rest h = ground (arith, not_first i j s acc rest)

fresh_middle :
    (j : String) (s : Scope) (acc rest : Scopes)
    → Distinct (acc ++ (j, s) ∷ rest)
    → lookup j acc ≡ none
fresh_middle j s [] rest h = refl
fresh_middle j s ((k, w) ∷ acc) rest h =
    ground
      (arith, fresh_middle j s acc rest h.1, not_first k j s acc rest h.0, eq_iff k j, eq_iff j k)

-- Reading the nodes of a dict into an empty dict gives the dict again.
by_id-values :
    (rest acc : Scopes)
    → All (λ e. e.1.id ≡ e.0) rest
    → Distinct (acc ++ rest)
    → by_id (values rest) acc ≡ acc ++ rest
by_id-values [] acc keyed distinct = sym (append-nil acc)
by_id-values ((j, s) ∷ rest) acc keyed distinct =
    let fresh : lookup s.id acc ≡ none =
      subst (λ a. lookup a acc ≡ none) (sym keyed.0) (fresh_middle j s acc rest distinct) in
    let grown : insert s.id s acc ≡ acc ++ (j, s) ∷ [] =
      insert_new s.id s acc fresh ∙ ap (λ a. acc ++ (a, s) ∷ []) keyed.0 in
    let again = append_assoc acc ((j, s) ∷ []) rest in
    ap (by_id (values rest)) grown
    ∙ (by_id-values rest (acc ++ (j, s) ∷ []) keyed.1 (subst Distinct (sym again) distinct) ∙ again)

parent_known :
    (d : Scopes) (s : Scope)
    → IsTree d
    → lookup s.id d ≡ some s
    → (not (s.id == root_scope_id) && not (has_parent d s)) ≡ false
parent_known d s t h = elim (Option-cases s.parent_id) [
  | inl top_node ↦ ground (arith, t.rooted s.id s h top_node, eq_iff s.id root_scope_id)
  | inr (p, e) ↦ let (above, found) = parent_of_ordered t s.id p s h e in ground arith
]

validate_each_passes :
    (d : Scopes) (rest : List Scope)
    → IsTree d
    → All (λ s. lookup s.id d ≡ some s) rest
    → validate_each d rest ≡ ok tt
unfolding validate_each
validate_each_passes d [] t known = refl
validate_each_passes d (s ∷ rest) t known = ground (
  arith,
  parent_known d s t known.0,
  walk_passes (suc (length d)) d [] s t known.0 (omega (arith, index-le-length s.id d)) tt,
  validate_each_passes d rest t known.1,
)

validate_snapshot_passes : (d : Scopes) → IsTree d → validate_snapshot d ≡ ok tt
unfolding validate_snapshot
validate_snapshot_passes d t =
    let known = All-known d d (λ s m. lookup_of_In s d t.keyed t.distinct m) in
    ground (arith, validate_each_passes d (values d) t known, t.root)

-- The root alone is a tree.
pub root_only-IsTree : IsTree ((root_scope_id, root_scope) ∷ [])
root_only-IsTree = record {
  keyed = (refl, tt);
  distinct = (refl, tt);
  root = (root_scope, refl, refl);
  rooted = λ k s f e. ground (arith, eq_iff root_scope_id k);
  ordered = λ k p s f e. absurd (ground (arith, eq_iff root_scope_id k));
}

module _ (S : ScopeStore) where
  -- A tree in step with its store is what the constructor builds from that store: a saved tree
  -- passes the check and comes back with the same nodes in the same order, and the same version.
  pub reload : (t : ScopeTree S.State) → IsTree t.scopes → IsSynced S t → open_tree S t.store ≡ ok t
  unfolding open_tree
  reload t shape sync = ground (
    arith,
    sync.held,
    by_id-values t.scopes [] shape.keyed shape.distinct,
    validate_snapshot_passes t.scopes shape,
  )

  -- On an empty store the constructor builds the tree of the root alone, in step with its store.
  pub open_fresh :
      (store : S.State)
      → S.load store ≡ ok none
      → (t : ScopeTree S.State) × (open_tree S store ≡ ok t)
        × IsTree t.scopes
        × IsSynced S t
        × (t.scopes ≡ (root_scope_id, root_scope) ∷ [])
  unfolding open_tree
  open_fresh store h =
      let (store', saved, loaded) =
        S.save_current (record { version = 0; scopes = root_scope ∷ [] }) 0 store
          (S.current_of_load store none h) in
      (
        record { store = store'; scopes = (root_scope_id, root_scope) ∷ []; version = 1 },
        ground (arith, saved, h),
        root_only-IsTree,
        record { held = loaded },
        refl,
      )
