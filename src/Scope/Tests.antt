-- ===== src/Scope/Tests.antt =====
-- The theorems on src/langharness_scope/ at concrete trees.
use langharness.Prelude.{
  String, ◌≡◌, refl, ◌≢◌, true, false, none, some, List, [], ◌∷◌, ok, err, inl, ◌↔◌, arith, Error,
  string_eq, In,
}
use langharness.Prelude.Dict.{lookup}
use langharness.Prelude.Text.{is_blank}
use langharness.Scope.Model.{Scope, Scopes, root_scope_id, root_scope}
use langharness.Scope.Store.Memory.{InMemoryScopeStore, memory_store}
use langharness.Scope.Store.Memory as Memory
use langharness.Scope.Store.Sqlite.{Table, Agrees, save-Agrees}
use langharness.Scope.Store.Sqlite as Sqlite
use langharness.Scope.Tree.Create.{IsSynced, insert-IsTree}
use langharness.Scope.Tree.Path.{IsPath, ancestors-IsPath}
use langharness.Scope.Tree.Reads.{ancestors, descendants}
use langharness.Scope.Tree.Reload.{reload, root_only-IsTree}
use langharness.Scope.Tree.Remove.{IsPruned, remove-IsPruned}
use langharness.Scope.Tree.Run.{create_scope, remove_scope, run, run-IsTree}
use langharness.Scope.Tree.Subtree.{Below, descendants-Below}
use langharness.Scope.Tree.Valid.{IsTree}
use langharness.Scope.Tree.Validate.{validate_snapshot_ends}
use langharness.Scope.Tree.Writes.{ScopeTree, open_tree, validate_snapshot, create, remove}
use text.Mathlib.TextEquality.{eq_iff}

abbrev ui : Scope
ui = record { id = "ui"; parent_id = some "root"; name = "UI" }

abbrev root_only : Scopes
root_only = ("root", root_scope) ∷ []

abbrev two_nodes : Scopes
two_nodes = ("root", root_scope) ∷ ("ui", ui) ∷ []

two_nodes-IsTree : IsTree two_nodes
two_nodes-IsTree = insert-IsTree "ui" "root" ui root_only-IsTree refl refl refl refl

abbrev tree : ScopeTree InMemoryScopeStore
tree = record {
  store = record { snapshot = some (record { version = 2; scopes = root_scope ∷ ui ∷ [] }) };
  scopes = two_nodes;
  version = 2;
}

tree-IsSynced : IsSynced memory_store tree
unfolding Memory.load
tree-IsSynced = record { held = refl }

run-IsTree_example :
    let t = run memory_store (create_scope "a" "A" "ui" ∷ remove_scope "ui" true ∷ []) tree in
    IsTree t.scopes × IsSynced memory_store t
run-IsTree_example =
    run-IsTree memory_store (create_scope "a" "A" "ui" ∷ remove_scope "ui" true ∷ []) tree
      two_nodes-IsTree tree-IsSynced

abbrev agent : Scope
agent = record { id = "agent"; parent_id = some "ui"; name = "Agent" }

ui_taken : (create memory_store "ui" "UI" "root" tree).0 ≡ err Error.scope_conflict
unfolding create is_blank
ui_taken = refl

remove-IsPruned_example :
    (removed : List String) × (t' : ScopeTree InMemoryScopeStore) × (remove memory_store "ui" true
        tree
      ≡ (ok removed, t'))
    × IsPruned memory_store "ui" tree removed t'
remove-IsPruned_example =
    remove-IsPruned memory_store "ui" true ui tree two_nodes-IsTree tree-IsSynced
      (λ same. ground (arith, eq_iff "ui" root_scope_id)) refl (inl refl)

root_stays : (remove memory_store "root" true tree).0 ≡ err Error.value_error
unfolding remove
root_stays = refl

ancestors-IsPath_example :
    (l : List Scope) × (ancestors two_nodes "ui" true ≡ ok (ui ∷ l)) × IsPath two_nodes ui l
ancestors-IsPath_example = ancestors-IsPath "ui" ui true two_nodes-IsTree refl

descendants-Below_example :
    (l : List Scope) × (descendants two_nodes "root" false ≡ ok l)
    × ((x : Scope) → In x l ↔ ((lookup x.id two_nodes ≡ some x) × Below two_nodes "root" x.id))
descendants-Below_example = descendants-Below two_nodes-IsTree "root" root_scope refl

reload_example : open_tree memory_store tree.store ≡ ok tree
reload_example = reload memory_store tree two_nodes-IsTree tree-IsSynced

validate_snapshot_ends_example : validate_snapshot two_nodes ≢ err Error.diverges
validate_snapshot_ends_example =
    validate_snapshot_ends two_nodes (refl, (refl, tt)) (refl, (refl, tt))

two_nodes_pass : validate_snapshot two_nodes ≡ ok tt
unfolding validate_snapshot
two_nodes_pass = refl

abbrev empty_table : Table
empty_table = record { row = none }

empty_table-Agrees : Agrees empty_table (record { snapshot = none })
unfolding Sqlite.load Memory.load
empty_table-Agrees = record { same = refl }
