-- ===== src/Plugin/CoordinatorTests.antt =====
-- The theorems on src/langharness_plugin/coordinator.py and on the scopes of the manager at
-- concrete states, and an installation that raises and leaves an adapter behind.
use langharness.Prelude.{
  ◌↔◌, ℕ, String, true, false, List, [], ◌∷◌, Option, none, some, ok, err, ◌≡◌, refl, string_eq,
  option_eq, pair_eq, nat_eq, ◌==◌, if◌then◌else◌, scope_not_found, contains,
}
use langharness.Prelude.Dict.{lookup, has}
use langharness.Prelude.Int.{pos}
use langharness.Prelude.Json.{end}
use langharness.Prelude.Text.{is_blank}
use langharness.Scope.Model.{Scope, root_scope}
use langharness.Scope.Store.Memory as Memory
use langharness.Scope.Store.Memory.{InMemoryScopeStore, memory_store}
use langharness.Scope.Tree.Create.{IsSynced, insert-IsTree}
use langharness.Scope.Tree.Reads.{require, descendants, children}
use langharness.Scope.Tree.Reload.{root_only-IsTree}
use langharness.Scope.Tree.Writes.{ScopeTree, remove, commit}
use langharness.Plugin.Registry.{validate_descriptor}
use langharness.Plugin.Discovery.{PluginPackage, PluginContribution, ToolExport}
use langharness.Plugin.Manager.{
  Manager, PluginInstanceSnapshot, create_instance, start_instance, enter_instance, persist_state,
  snapshot_of, install_definition, install_found, install_new, register_descriptor, delete_instance,
  delete_found, remove_instance_record, put_back, rollback_definition,
}
use langharness.Plugin.Manager.Placement.{StoredScope, restore_scopes}
use langharness.Plugin.Manager.Placement.Restored.{Restored, restore_scopes-Restored}
use langharness.Plugin.Manager.Placement.Removal.{ScopedManager, tree_of, remove_scope}
use langharness.Plugin.Manager.Placement.Removed.{remove_scope-instances}
use langharness.Scope.Tree.Remove.{IsPruned}
use langharness.Scope.Tree.Valid.{IsTree}
use langharness.Plugin.Coordinator.{
  Registration, RuntimeMutationCoordinator, Surroundings, install, install_adapters, kill_adapters,
  target_scope, contribution_properties, find_contribution, registration_for,
}
use langharness.Plugin.Coordinator.Install.{Outcome, install-Outcome}
use langharness.Plugin.ManagerTests.{counting_store, components, descriptor, manager}

abbrev export : String → ToolExport
export scope_id = record { name = "t"; method = "run"; target_scope = scope_id }

abbrev contribution : List ToolExport → PluginContribution
contribution exports = record {
  contribution_id = "c";
  target = "root";
  descriptor = descriptor;
  tool_exports = exports;
}

abbrev plugin_package : List ToolExport → PluginPackage
plugin_package exports = record {
  package_id = "p";
  version = "1";
  contributions = contribution exports ∷ [];
}

-- The identifier of the n-th instance.
abbrev numbered : ℕ → String
numbered n = if n == 0 then "u0" else (if n == 1 then "u1" else "u2")

abbrev surroundings : Surroundings ℕ
surroundings = record {
  uuid = numbered;
  effective = λ d scope_id user n. ok user;
  is_same = λ a b. true;
  same_fields = λ a b. true;
  agent_id = λ s. s;
  adapter_properties = λ s es. end;
}

abbrev Coordinator : Type 0
Coordinator = RuntimeMutationCoordinator (Manager counting_store components)

abbrev coordinator : List ToolExport → Coordinator
coordinator exports = record {
  manager = manager;
  catalog = ("p", plugin_package exports) ∷ [];
  adapter_instances = [];
  failures = [];
  next_uuid = 0;
}

abbrev find_service : Manager counting_store components → String → String → Option ℕ
find_service m specification scope_id = some 0

abbrev leaking : List ToolExport
leaking = export "agent_instance" ∷ export "agent" ∷ []

abbrev after_failure : Coordinator
after_failure =
    (install counting_store components surroundings find_service "p" "c" none none
      (coordinator leaking)).1

-- The second adapter has no scope: the installation raises and takes back its registration and
-- its instance, while the first adapter stays.
install_leaks_adapter :
    ((install counting_store components surroundings find_service "p" "c" none none
        (coordinator leaking)).0
      ≡ err (scope_not_found "agent"))
    × (after_failure.manager.provenance ≡ [])
    × (has "u0" after_failure.manager.instances ≡ false)
    × (has "u1" after_failure.manager.instances ≡ true)
unfolding install install_adapters kill_adapters target_scope contribution_properties
    find_contribution create_instance start_instance enter_instance persist_state snapshot_of
    install_definition install_found install_new register_descriptor delete_instance delete_found
    remove_instance_record put_back rollback_definition require validate_descriptor is_blank
install_leaks_adapter = (refl, refl, refl, refl)

install-Outcome_example :
    Outcome counting_store components surroundings find_service [] (
      install counting_store components surroundings find_service "p" "c" none none
        (coordinator []))
install-Outcome_example =
    install-Outcome counting_store components surroundings find_service "p" "c" none none
      (coordinator []) tt refl

abbrev installed : Coordinator
installed =
    (install counting_store components surroundings find_service "p" "c" none none
      (coordinator [])).1

abbrev tree : ScopeTree InMemoryScopeStore
tree = record {
  store = record { snapshot = some (record { version = 1; scopes = root_scope ∷ [] }) };
  scopes = ("root", root_scope) ∷ [];
  version = 1;
}

tree-IsSynced : IsSynced memory_store tree
unfolding Memory.load
tree-IsSynced = record { held = refl }

-- A child before its parent.
abbrev stored : List StoredScope
stored =
    record { id = "agent:a"; parent_id = some "agent"; name = "A" }
    ∷ record { id = "agent"; parent_id = none; name = "Agent" }
    ∷ []

restore_scopes-Restored_example :
    Restored memory_store stored tree (restore_scopes memory_store stored tree)
restore_scopes-Restored_example =
    restore_scopes-Restored memory_store stored tree (root_only-IsTree, tree-IsSynced)

abbrev instance_in : String → String → PluginInstanceSnapshot
instance_in k scope_id = record {
  instance_id = k;
  factory = "f";
  module_name = "m";
  scope_id = scope_id;
  properties = end;
  enabled = false;
  ranking = pos 0;
  status = "disabled";
}

abbrev registration : Registration
registration = registration_for "p" "c" "1" (instance_in "u0" "root") "root" true none

abbrev registered : Coordinator
registered = record {
  manager = record manager {
    instances = ("u0", instance_in "u0" "root") ∷ [];
    provenance = ("u0", registration) ∷ [];
  };
  catalog = ("p", plugin_package []) ∷ [];
  adapter_instances = [];
  failures = [];
  next_uuid = 1;
}

abbrev ui : Scope
ui = record { id = "ui"; parent_id = some "root"; name = "UI" }

abbrev panel : Scope
panel = record { id = "panel"; parent_id = some "ui"; name = "Panel" }

abbrev scoped : ScopedManager memory_store counting_store components
scoped = record {
  manager = record manager {
    scopes = ("root", root_scope) ∷ ("ui", ui) ∷ ("panel", panel) ∷ [];
    instances = ("u0", instance_in "u0" "panel") ∷ ("u1", instance_in "u1" "root") ∷ [];
  };
  scope_store = record {
    snapshot = some (record { version = 3; scopes = root_scope ∷ ui ∷ panel ∷ [] });
  };
  scope_version = 3;
}

scoped-IsTree : IsTree scoped.manager.scopes
scoped-IsTree =
    insert-IsTree "panel" "ui" panel
      (insert-IsTree "ui" "root" ui root_only-IsTree refl refl refl refl) refl refl refl refl

scoped-IsSynced : IsSynced memory_store (tree_of memory_store counting_store components scoped)
unfolding Memory.load
scoped-IsSynced = record { held = refl }

scope_removed : (remove_scope memory_store counting_store components "ui" true scoped).0 ≡ ok tt
unfolding remove_scope descendants children remove commit remove_instance_record persist_state
    snapshot_of require Memory.save
scope_removed = refl

remove_scope-instances_example :
    let after = (remove_scope memory_store counting_store components "ui" true scoped).1 in
    (removed : List String) × IsPruned memory_store "ui"
      (tree_of memory_store counting_store components scoped)
      removed
      (tree_of memory_store counting_store components after)
    × ((j : String) (s : PluginInstanceSnapshot)
        → (lookup j after.manager.instances ≡ some s)
          ↔ ((lookup j scoped.manager.instances ≡ some s) × (contains s.scope_id removed ≡ false)))
remove_scope-instances_example =
    remove_scope-instances memory_store counting_store components "ui" true scoped scoped-IsTree
      scoped-IsSynced (refl, (refl, tt)) (refl, (refl, tt)) scope_removed
