-- ===== src/Scope/Tree/Run.antt =====
-- Any sequence of calls on a `ScopeTree` of src/langharness_scope/tree.py; a call that raises is
-- answered to its caller and the tree goes on.
use langharness.Prelude.{
  String, ◌≡◌, ◌≢◌, Bool, true, false, not, ◌&&◌, none, some, List, [], ◌∷◌, ok, inl, inr, ◌⊎◌,
  arith, Option-cases, Result-cases, string_eq, sym, In, is_nonempty,
}
use langharness.Prelude.Dict.{lookup, has}
use langharness.Prelude.Text.{is_blank}
use langharness.Scope.Model.{Scope, Scopes, root_scope_id}
use langharness.Scope.Store.{ScopeStore}
use langharness.Scope.Tree.Create.{IsSynced, create-IsTree, create_refused}
use langharness.Scope.Tree.Reads.{require, descendants}
use langharness.Scope.Tree.Remove.{remove-IsPruned, remove_refused, node_of_Below}
use langharness.Scope.Tree.Subtree.{Below, descendants-Below}
use langharness.Scope.Tree.Valid.{IsTree, id_of_lookup}
use langharness.Scope.Tree.Writes.{ScopeTree, create, remove}
use mathlib.Core.Path.{subst, subst⁻¹}
use text.Mathlib.TextEquality.{eq_iff}

pub data Request : Type 0 where
  create_scope : String → String → String → Request
  remove_scope : String → Bool → Request

module _ (S : ScopeStore) where
  abbrev pub IsSound : ScopeTree S.State → Type 0
  IsSound t = IsTree t.scopes × IsSynced S t

  unfoldable pub step : Request → ScopeTree S.State → ScopeTree S.State
  step (create_scope scope_id name parent_id) t = (create S scope_id name parent_id t).1
  step (remove_scope scope_id recursive) t = (remove S scope_id recursive t).1

  unfoldable pub run : List Request → ScopeTree S.State → ScopeTree S.State
  unfolding step
  run [] t = t
  run (r ∷ rs) t = run rs (step r t)

  pub create_guards :
      (scope_id name parent_id : String) (t : ScopeTree S.State) (s : Scope)
      → (create S scope_id name parent_id t).0 ≡ ok s
      → (is_blank scope_id ≡ false)
        × (is_blank name ≡ false)
        × (lookup scope_id t.scopes ≡ none)
        × (has parent_id t.scopes ≡ true)
  unfolding create
  create_guards scope_id name parent_id t s h = ground arith

  create-IsSound :
      (scope_id name parent_id : String) (t : ScopeTree S.State)
      → IsSound t
      → IsSound (create S scope_id name parent_id t).1
  create-IsSound scope_id name parent_id t sound =
      elim (Result-cases (create S scope_id name parent_id t).0) [
        | inr (e, raised) ↦
            subst⁻¹ IsSound (create_refused S scope_id name parent_id t e raised).0 sound
        | inl (s, done) ↦
            let (g1, g2, g3, g4) = create_guards scope_id name parent_id t s done in
            let (t', e, shape, sync, _, _) =
              create-IsTree S scope_id name parent_id t sound.0 sound.1 g1 g2 g3 g4 in
            subst⁻¹ (λ r. IsSound r.1) e (shape, sync)
      ]

  remove_guards :
      (scope_id : String) (recursive : Bool) (t : ScopeTree S.State) (l : List Scope)
      (ids : List String)
      → (remove S scope_id recursive t).0 ≡ ok ids
      → descendants t.scopes scope_id false ≡ ok l
      → (scope_id ≢ root_scope_id)
        × (has scope_id t.scopes ≡ true)
        × ((is_nonempty l && not recursive) ≡ false)
  unfolding remove
  remove_guards scope_id recursive t l ids h e = ground (arith, eq_iff scope_id root_scope_id)

  remove_unknown :
      (scope_id : String) (recursive : Bool) (t : ScopeTree S.State) (ids : List String)
      → (remove S scope_id recursive t).0 ≡ ok ids
      → lookup scope_id t.scopes ≡ none
      → ⊥
  unfolding remove require
  remove_unknown scope_id recursive t ids h missing = ground arith

  -- A removal that the guard lets through is recursive, or there is nothing below the node.
  allowed_of_guard :
      (d : Scopes) (scope_id : String) (recursive : Bool) (l : List Scope)
      → IsTree d
      → ((x : Scope) → (lookup x.id d ≡ some x) × Below d scope_id x.id → In x l)
      → (is_nonempty l && not recursive) ≡ false
      → (recursive ≡ true) ⊎ ((j : String) → ¬ Below d scope_id j)
  allowed_of_guard d scope_id recursive (x ∷ l) t exact h = inl (ground arith)
  allowed_of_guard d scope_id recursive [] t exact h = inr λ j below.
      let (x, found) = node_of_Below scope_id j below in
      let same = id_of_lookup j x d t.keyed found in
      let none_listed : In x [] = exact x (
        subst (λ a. lookup a d ≡ some x) (sym same) found,
        subst (Below d scope_id) (sym same) below,
      ) in
      none_listed.1

  remove-IsSound :
      (scope_id : String) (recursive : Bool) (t : ScopeTree S.State)
      → IsSound t
      → IsSound (remove S scope_id recursive t).1
  remove-IsSound scope_id recursive t sound =
      elim (Result-cases (remove S scope_id recursive t).0) [
        | inr (e, raised) ↦ subst⁻¹ IsSound (remove_refused S scope_id recursive t e raised) sound
        | inl (ids, done) ↦ elim (Option-cases (lookup scope_id t.scopes)) [
          | inl missing ↦ absurd (remove_unknown scope_id recursive t ids done missing)
          | inr (s, found) ↦
              let (l, listed, exact) = descendants-Below sound.0 scope_id s found in
              let (g1, g2, g3) = remove_guards scope_id recursive t l ids done listed in
              let allowed =
                allowed_of_guard t.scopes scope_id recursive l sound.0 (λ x m. (exact x).1 m) g3 in
              let (_, t', e, pruned) =
                remove-IsPruned S scope_id recursive s t sound.0 sound.1 g1 found allowed in
              subst⁻¹ (λ r. IsSound r.1) e (pruned.shape, pruned.sync)
        ]
      ]

  step-IsSound : (r : Request) (t : ScopeTree S.State) → IsSound t → IsSound (step r t)
  unfolding step
  step-IsSound (create_scope scope_id name parent_id) t h =
      create-IsSound scope_id name parent_id t h
  step-IsSound (remove_scope scope_id recursive) t h = remove-IsSound scope_id recursive t h

  -- From a tree in step with its store, after any sequence of `create` and `remove` calls,
  -- refused ones included, the nodes form a tree and the store holds exactly the tree's
  -- snapshot.
  pub run-IsTree :
      (rs : List Request) (t : ScopeTree S.State)
      → IsTree t.scopes
      → IsSynced S t
      → IsTree (run rs t).scopes × IsSynced S (run rs t)
  unfolding run
  run-IsTree [] t shape sync = (shape, sync)
  run-IsTree (r ∷ rs) t shape sync =
      let next = step-IsSound r t (shape, sync) in run-IsTree rs (step r t) next.0 next.1
