-- ===== src/Plugin/Manager/Restore.antt =====
-- `restore`, `bind_state`, `discover` and `start` of src/langharness_plugin/plugin_manager.py, over
-- the manager with its scope tree. What the state store loads is an argument, with its scopes read
-- off their dicts. The status of a definition is not kept, nor the time of a discovery.
use mathlib.Core.Path.{sym, ap, subst, ◌∙◌}
use langharness.Prelude.{
  ℕ, String, Bool, true, false, List, [], ◌∷◌, In, NoRepeat, map, ◌≡◌, refl, Option, none, some,
  Result, ok, err, Error, runtime_error, plugin_identity_conflict, Action, pure, raise, lift, gets,
  modify, raise_if, ◌>>=◌, ◌>>◌, ◌==◌, string_eq, pair_eq, if◌then◌else◌, is_some,
}
use langharness.Prelude.Dict.{Dict, lookup, has, values}
use langharness.Prelude.Json.{Fields}
use langharness.Prelude.Order.{text_order, sort_by}
use langharness.Prelude.Text.{codes}
use langharness.Scope.Store.{ScopeStore}
use langharness.Plugin.Discovery.{ClassEntry, Warning, descriptor_discovery}
use langharness.Plugin.Registry.{PluginDescriptor, PluginInstanceRecord, validate_descriptor}
use langharness.Plugin.State.{PersistedDescriptorRecord, PersistedPluginRegistration}
use langharness.Plugin.Manager.{
  RuntimeStateStore, Framework, Manager, on_components, require_started, is_foreign,
  register_descriptor, enter_definition, persist_state, on_error,
}
use langharness.Plugin.Manager.Placement.{StoredScope, restore_scopes, seed_builtin_scopes}
use langharness.Plugin.Manager.Placement.Removal.{ScopedManager, on_tree, on_manager}
use langharness.Plugin.Manager.Properties.{stop}
use langharness.Plugin.Manager.Revival.{restore_instances, restore_loaded, is_derived, by_instance}
pub mod Whole

-- What `load` of the state store answers, if there is a snapshot.
pub record LoadedState : Type 0 where
  pub version : ℕ
  pub scopes : List StoredScope
  pub descriptors : List PersistedDescriptorRecord
  pub instances : List PluginInstanceRecord
  pub registrations : List PersistedPluginRegistration

abbrev pub version_of : Option LoadedState → ℕ
version_of none = 0
version_of (some l) = l.version

-- Sorted by the module, and by the factory where the module is the same.
abbrev pub sorted_descriptors : List PluginDescriptor → List PluginDescriptor
sorted_descriptors ds =
    sort_by text_order (λ d. codes d.module_name) (sort_by text_order (λ d. codes d.factory) ds)

module _ (R : RuntimeStateStore) (F : Framework) where
  unfoldable pub discover :
      List ClassEntry → Action (Manager R F) (List PluginDescriptor × List (String × Warning))
  unfolding descriptor_discovery
  discover entries = require_started R F >>= λ _.
      let (descriptors, warnings) = descriptor_discovery entries in
      modify (λ m. record m { discovered = descriptors }) >>= λ _.
      pure (sorted_descriptors (values descriptors), warnings)

  -- `_install_definition(descriptor, source, persist=False)` for a key that is not installed.
  abbrev pub install_loaded : PluginDescriptor → String → Action (Manager R F) (Unit {0})
  install_loaded d source = (λ m. lift (validate_descriptor d) m) >>= λ _.
      gets (λ m. lookup d.factory m.registry.descriptors) >>= λ old.
      raise_if (is_foreign R F d old) plugin_identity_conflict >>= λ _.
      on_components R F (F.install_bundle d.module_name) >>= λ _.
      register_descriptor R F d >>= λ _. enter_definition R F d source

  -- `"assembly"` and `"discovered"` are the sources.
  abbrev pub source_kept : String → String
  source_kept source = if source == "assembly" then "assembly" else "discovered"

  abbrev pub restore_definition : PersistedDescriptorRecord → Action (Manager R F) (Unit {0})
  restore_definition r m =
      if has (r.descriptor.module_name, r.descriptor.factory) m.plugins
      then (ok tt, m)
      else install_loaded r.descriptor (source_kept r.source) m

  abbrev pub restore_definitions : List PersistedDescriptorRecord → Action (Manager R F) (Unit {0})
  restore_definitions [] = pure tt
  restore_definitions (r ∷ rs) = restore_definition r >>= λ _. restore_definitions rs

  -- `bind_state`; the history is left out.
  unfoldable pub bind_state :
      R.State → Result (Option LoadedState) → Action (Manager R F) (Unit {0})
  bind_state store loaded = modify (λ m. record m { state_store = some store }) >>= λ _.
      (λ m. lift loaded m) >>= λ found. modify (λ m. record m { state_version = version_of found })

module _ (S : ScopeStore) (R : RuntimeStateStore) (F : Framework)
    (apply_filters : Fields → Result Fields) where
  abbrev pub restore_state : LoadedState → Action (ScopedManager S R F) (Unit {0})
  restore_state l = on_manager S R F (modify (λ m. record m { state_version = l.version })) >>= λ _.
      on_tree S R F (restore_scopes S l.scopes) >>= λ _.
      on_manager S R F (restore_definitions R F l.descriptors) >>= λ _.
      on_manager S R F (restore_loaded R F apply_filters l.instances l.registrations)

  abbrev pub restore_if : Option LoadedState → Action (ScopedManager S R F) (Unit {0})
  restore_if none = pure tt
  restore_if (some l) = restore_state l

  -- `restore`, with what the store loads.
  unfoldable pub restore : Result (Option LoadedState) → Action (ScopedManager S R F) (Unit {0})
  unfolding restore_scopes restore_loaded register_descriptor validate_descriptor
  restore loaded m =
      if is_some m.manager.state_store then (lift loaded >>= restore_if) m else (ok tt, m)

  -- `start`, with the new framework; `spare` stands for none once that is deleted again.
  unfoldable pub start : F.State → F.State → Action (ScopedManager S R F) (Unit {0})
  unfolding seed_builtin_scopes stop
  start fresh spare m =
      (raise_if m.manager.started runtime_error >>= λ _.
      on_manager S R F (modify (λ n. record n { started = true; components = fresh })) >>= λ _.
      on_error (on_tree S R F (seed_builtin_scopes S)) (on_manager S R F (modify (stop R F spare))))
        m
