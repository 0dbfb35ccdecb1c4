-- ===== src/Plugin/Coordinator/Restore.antt =====
-- `restore` of src/langharness_plugin/coordinator.py, over the restore of the manager with its
-- scope tree.
use langharness.Prelude.{
  ℕ, String, Bool, true, false, not, List, [], ◌∷◌, Option, none, some, Result, ok, Action, pure,
  lift, gets, ◌>>=◌, ◌==◌, string_eq, if◌then◌else◌, is_nonempty,
}
use langharness.Prelude.Dict.{lookup}
use langharness.Prelude.Json.{Fields}
use langharness.Scope.Store.{ScopeStore}
use langharness.Plugin.Discovery.{PluginPackage, PluginContribution, EntryPoint}
use langharness.Plugin.Manager.{
  PluginInstanceSnapshot, RuntimeStateStore, Framework, Manager, persist_state,
}
use langharness.Plugin.Manager.Placement.Removal.{ScopedManager}
use langharness.Plugin.Manager.Properties.{registrations, attach_provenance}
use langharness.Plugin.Manager.Restore as Whole
use langharness.Plugin.Manager.Restore.{LoadedState}
use langharness.Plugin.Coordinator.{
  Registration, Surroundings, Coordinator, Catalog, on_manager, create_next, install_adapters,
  contribution_properties, contribution_at, is_agent_scope,
}
use langharness.Plugin.Coordinator.Mutations.{rescan}
pub mod Ambiguous
pub mod Entered

abbrev pub contribution_in : String → Option PluginPackage → Option PluginContribution
contribution_in contribution_id none = none
contribution_in contribution_id (some p) = contribution_at contribution_id p

-- The contribution of a registration, if its package is in the catalog and has it.
abbrev pub contribution_of : Catalog → Registration → Option PluginContribution
contribution_of catalog r = contribution_in r.contribution_id (lookup r.package_id catalog)

module _ (R : RuntimeStateStore) (F : Framework) {Service : Type 0} (E : Surroundings Service)
    (find_service : Manager R F → String → String → Option Service) where
  abbrev State : Type 0
  State = Coordinator R F E find_service

  -- `replace(registration, instance=snapshot.instance)`, entered.
  abbrev pub reattach : Registration → PluginInstanceSnapshot → Action State (Unit {0})
  reattach r s =
      on_manager R F E find_service
        (attach_provenance R F (record r { instance_id = s.instance_id }))

  abbrev pub create_anew :
      Registration → PluginContribution → Fields → Action State PluginInstanceSnapshot
  create_anew r c properties =
      create_next R F E find_service c.descriptor.factory c.descriptor.module_name r.scope_id
        properties r.enabled

  abbrev pub recreate_from : Registration → Option PluginContribution → Action State (Unit {0})
  recreate_from r none = pure tt
  recreate_from r (some c) =
      lift (contribution_properties E.agent_id c r.scope_id) >>= λ properties.
      create_anew r c properties >>= reattach r

  -- One round of the first loop.
  unfoldable pub recreate : Registration → Action State (Unit {0})
  unfolding contribution_properties
  recreate r c =
      if is_agent_scope r.scope_id
      then recreate_from r (contribution_of c.catalog r) c
      else (ok tt, c)

  unfoldable pub recreate_each : List Registration → Action State (Unit {0})
  unfolding recreate
  recreate_each [] = pure tt
  recreate_each (r ∷ rs) = recreate r >>= λ _. recreate_each rs

  -- One round of the second loop; what the adapters raise is dropped.
  abbrev pub readapt_from : Registration → Option PluginContribution → Action State (Unit {0})
  readapt_from r none s = (ok tt, s)
  readapt_from r (some c) s = (ok tt, (install_adapters R F E find_service r c s).1)

  abbrev pub readapt : Registration → Action State (Unit {0})
  readapt r c = if r.enabled then readapt_from r (contribution_of c.catalog r) c else (ok tt, c)

  unfoldable pub readapt_each : List Registration → Action State (Unit {0})
  unfolding install_adapters
  readapt_each [] = pure tt
  readapt_each (r ∷ rs) = readapt r >>= λ _. readapt_each rs

  abbrev pub registered : Action State (List Registration)
  registered = gets (λ c. registrations R F c.manager)

  -- `restore` after the restore of the manager.
  unfoldable pub reattach_all : Action State (List Registration)
  unfolding recreate_each readapt_each persist_state
  reattach_all = registered >>= λ rs. recreate_each rs >>= λ _. registered >>= λ rs.
      readapt_each rs >>= λ _. on_manager R F E find_service (persist_state R F) >>= λ _. registered

  -- `if not self._catalog: self.rescan()`
  abbrev pub rescan_if_empty : List EntryPoint → Action State (Unit {0})
  rescan_if_empty entries c =
      if is_nonempty c.catalog
      then (ok tt, c)
      else (rescan R F E find_service entries >>= λ _. pure tt) c

  -- The coordinator with the store of its manager's scope tree.
  module _ (S : ScopeStore) (apply_filters : Fields → Result Fields) where
    pub record ScopedCoordinator : Type 0 where
      pub coordinator : State
      pub scope_store : S.State
      pub scope_version : ℕ

    abbrev pub on_coordinator : {A : Type 0} → Action State A → Action ScopedCoordinator A
    on_coordinator a c = let (r, s) = a c.coordinator in (r, record c { coordinator = s })

    abbrev pub scoped_manager : ScopedCoordinator → ScopedManager S R F
    scoped_manager c = record {
      manager = c.coordinator.manager;
      scope_store = c.scope_store;
      scope_version = c.scope_version;
    }

    -- `manager.restore()`
    abbrev pub restore_manager : Result (Option LoadedState) → Action ScopedCoordinator (Unit {0})
    restore_manager loaded c =
        let (r, m) = Whole.restore S R F apply_filters loaded (scoped_manager c) in
        (
          r,
          record {
            coordinator = record (c.coordinator) { manager = m.manager };
            scope_store = m.scope_store;
            scope_version = m.scope_version;
          },
        )

    unfoldable pub restore :
        List EntryPoint → Result (Option LoadedState) → Action ScopedCoordinator (List Registration)
    unfolding rescan reattach_all
    restore entries loaded = on_coordinator (rescan_if_empty entries) >>= λ _.
        restore_manager loaded >>= λ _. on_coordinator reattach_all
