-- ===== src/Plugin/Manager.antt =====
-- src/langharness_plugin/plugin_manager.py: `PluginManager`, over a runtime state store and the
-- component framework. The lock makes each method one step. `uuid.uuid4().hex` is an argument, and
-- so are the effective properties. The index `_registration_instances`, which nothing reads, the
-- history, whose failures are swallowed, and the references of the bundles are left out.
use langharness.Prelude.{
  ℕ, ◌+◌, String, Bool, true, false, not, ◌&&◌, ◌||◌, ◌≡◌, refl, List, [], ◌∷◌, map, Option, none,
  some, Result, ok, err, bind, Error, runtime_error, key_error, plugin_not_found,
  plugin_identity_conflict, plugin_already_installed, plugin_has_instances, instance_not_found,
  scope_has_children, scope_has_instances, Action, pure, raise, lift, gets, modify, raise_if,
  or_raise, ◌>>=◌, ◌>>◌, ◌==◌, string_eq, pair_eq, nat_eq, if◌then◌else◌, filter, is_some,
  is_nonempty, contains,
}
use langharness.Prelude.Dict.{Dict, lookup, has, insert, erase, values}
use langharness.Prelude.Int.{ℤ}
use langharness.Prelude.Json.{Json, Fields, end}
use langharness.Plugin.Registry.{
  PluginDescriptor, validate_descriptor, PluginInstanceRecord, PluginRegistry, add,
  list_descriptors, remove_descriptor,
}
use langharness.Scope.Model.{Scopes}
use langharness.Scope.Store.Sqlite.{encode_scope}
use langharness.Scope.Tree.Reads.{require}
use langharness.Plugin.State.{
  RuntimeStateSnapshot, PersistedDescriptorRecord, PersistedPluginRegistration,
}
pub mod Filters
pub mod Keeps
pub mod Installed
pub mod Properties
pub mod Update
pub mod Ensure
pub mod Apply
pub mod Revival
pub mod Restore
pub mod Discovered
pub mod Placement
pub mod Frame
pub mod Provenance
pub mod Definitions

-- Module and factory.
abbrev pub Key : Type 0
Key = String × String

pub record PluginInstanceSnapshot : Type 0 where
  pub instance_id : String
  pub factory : String
  pub module_name : String
  pub scope_id : String
  pub properties : Fields
  pub enabled : Bool
  pub ranking : ℤ
  pub status : String

-- `RuntimeStateStore`: a save answers the new version or raises.
pub record RuntimeStateStore : Type 1 where
  pub State : Type 0
  pub save : RuntimeStateSnapshot → ℕ → Action State ℕ

-- The calls of the component framework, each of which may raise; `instantiate` is
-- `_instantiate_uuid` with its check of the contract.
pub record Framework : Type 1 where
  pub State : Type 0
  pub install_bundle : String → Action State (Unit {0})
  pub uninstall_bundle : String → Action State (Unit {0})
  pub instantiate : PluginDescriptor → String → Fields → Action State (Unit {0})
  pub kill : String → Action State (Unit {0})

pub record PluginManager (Store Components : Type 0) : Type 0 where
  pub started : Bool
  pub registry : PluginRegistry
  pub scopes : Scopes
  pub discovered : Dict Key PluginDescriptor
  pub plugins : Dict Key PluginDescriptor
  pub instances : Dict String PluginInstanceSnapshot
  pub sources : Dict Key String
  pub provenance : Dict String PersistedPluginRegistration
  pub user_properties : Dict String Fields
  pub state_store : Option Store
  pub state_version : ℕ
  pub components : Components

abbrev pub instance_record : PluginInstanceSnapshot → PluginInstanceRecord
instance_record s = record {
  instance_id = s.instance_id;
  factory = s.factory;
  module_name = s.module_name;
  scope_id = s.scope_id;
  properties = s.properties;
  enabled = s.enabled;
  ranking = s.ranking;
  status = s.status;
}

abbrev pub key_of_instance : PluginInstanceSnapshot → Key
key_of_instance s = (s.module_name, s.factory)

abbrev pub source_or : Option String → String
source_or none = "assembly"
source_or (some s) = s

-- `except Exception: cleanup; raise`
abbrev pub on_error {ℓ κ} :
    {S : Type ℓ} {A : Type κ} → Action S A → Action S (Unit {0}) → Action S A
on_error m cleanup s =
    let (r, s') = m s in elim r [ ok a ↦ (ok a, s') | err e ↦ (cleanup >> raise e) s' ]

module _ (R : RuntimeStateStore) (F : Framework) where
  abbrev pub Manager : Type 0
  Manager = PluginManager R.State F.State

  -- A call of the framework.
  abbrev pub on_components : Action F.State (Unit {0}) → Action Manager (Unit {0})
  on_components a m = let (r, c) = a m.components in (r, record m { components = c })

  -- `_require_started`
  abbrev pub require_started : Action Manager (Unit {0})
  require_started m = raise_if (not m.started) runtime_error m

  unfoldable pub snapshot_of : Manager → RuntimeStateSnapshot
  snapshot_of m = record {
    version = m.state_version;
    scopes = map encode_scope (values m.scopes);
    descriptors =
        map
          (λ d. record {
            descriptor = d;
            source = source_or (lookup (d.module_name, d.factory) m.sources);
          })
          (list_descriptors m.registry);
    instances = map instance_record (values m.instances);
    registrations = values m.provenance;
  }

  abbrev pub stored_version : Manager → Result ℕ × R.State → Result (Unit {0}) × Manager
  stored_version m (ok v, st) = (ok tt, record m { state_store = some st; state_version = v })
  stored_version m (err e, st) = (err e, record m { state_store = some st })

  unfoldable pub persist_state : Action Manager (Unit {0})
  unfolding snapshot_of
  persist_state m = elim m.state_store [
    | none ↦ (ok tt, m)
    | some st ↦ stored_version m (R.save (snapshot_of m) m.state_version st)
  ]

  -- The entries of an instance.
  abbrev pub put_instance : PluginInstanceSnapshot → Fields → Action Manager (Unit {0})
  put_instance s user = modify (λ m. record m {
    instances = insert s.instance_id s m.instances;
    user_properties = insert s.instance_id user m.user_properties;
  })

  abbrev pub drop_instance : String → Action Manager (Unit {0})
  drop_instance instance_id = modify (λ m. record m {
    instances = erase instance_id m.instances;
    user_properties = erase instance_id m.user_properties;
  })

  abbrev pub remove_found : String → Option PluginInstanceSnapshot → Action Manager (Unit {0})
  remove_found instance_id none = pure tt
  remove_found instance_id (some s) =
      (if s.status == "active" then on_components (F.kill instance_id) else pure tt)
      >> drop_instance instance_id

  -- `_remove_instance_record`
  unfoldable pub remove_instance_record : String → Action Manager (Unit {0})
  remove_instance_record instance_id =
      gets (λ m. lookup instance_id m.instances) >>= remove_found instance_id

  unfoldable pub definition_key : String → Option String → Manager → Result Key
  definition_key factory wanted m = elim (lookup factory m.registry.descriptors) [
    | none ↦ err plugin_not_found
    | some d ↦
        if elim wanted as (λ _. Bool) [ none ↦ false | some name ↦ not (d.module_name == name) ]
        then err plugin_identity_conflict
        else ok (d.module_name, factory)
  ]

  -- `_rollback_definition`
  unfoldable pub rollback_definition : Key → Action Manager (Unit {0})
  unfolding remove_descriptor
  rollback_definition key = modify (λ m. record m {
    plugins = erase key m.plugins;
    sources = erase key m.sources;
    registry = (remove_descriptor key.1 m.registry).1;
  })

  -- The module that a descriptor with the same factory came from, if it is another one.
  abbrev pub is_foreign : PluginDescriptor → Option PluginDescriptor → Bool
  is_foreign d none = false
  is_foreign d (some other) = not (other.module_name == d.module_name)

  -- `self.registry.add(descriptor)`
  unfoldable pub register_descriptor : PluginDescriptor → Action Manager (Unit {0})
  unfolding add
  register_descriptor d m = let (r, reg) = add d m.registry in (r, record m { registry = reg })

  abbrev pub enter_definition : PluginDescriptor → String → Action Manager (Unit {0})
  enter_definition d source = modify (λ m. record m {
    sources = insert (d.module_name, d.factory) source m.sources;
    plugins = insert (d.module_name, d.factory) d m.plugins;
  })

  -- `_install_definition` for a key that is not installed.
  unfoldable pub install_new : PluginDescriptor → String → Action Manager PluginDescriptor
  unfolding register_descriptor rollback_definition persist_state
  install_new d source = do
    old ← gets (λ m. lookup d.factory m.registry.descriptors)
    raise_if (is_foreign d old) plugin_identity_conflict
    on_components (F.install_bundle d.module_name)
    register_descriptor d
    enter_definition d source
    on_error persist_state (rollback_definition (d.module_name, d.factory))
    pure d

  -- `is_same` is the equality of descriptors.
  unfoldable pub install_found :
      (PluginDescriptor → PluginDescriptor → Bool)
      → PluginDescriptor
      → String
      → Option PluginDescriptor
      → Action Manager PluginDescriptor
  unfolding install_new
  install_found is_same d source none = install_new d source
  install_found is_same d source (some old) =
      if is_same old d then pure old else raise plugin_already_installed

  -- `_install_definition(descriptor, source, persist=True)`
  unfoldable pub install_definition :
      (PluginDescriptor → PluginDescriptor → Bool)
      → PluginDescriptor
      → String
      → Action Manager PluginDescriptor
  unfolding install_found validate_descriptor
  install_definition is_same d source = do
    λ m. lift (validate_descriptor d) m
    found ← gets (λ m. lookup (d.module_name, d.factory) m.plugins)
    install_found is_same d source found

  -- The instances of a definition.
  abbrev pub instances_of : Key → Manager → List PluginInstanceSnapshot
  instances_of key m = filter (λ s. key_of_instance s == key) (values m.instances)

  abbrev pub drop_definition : Key → PluginDescriptor → Action Manager (Unit {0})
  drop_definition key _ =
      modify (λ m. record m { plugins = erase key m.plugins; sources = erase key m.sources })

  -- `uninstall_plugin` of a definition without instances.
  unfoldable pub uninstall_unused : String → Key → Action Manager (Unit {0})
  unfolding persist_state remove_descriptor
  uninstall_unused factory key = do
    modify (λ m. record m { registry = (remove_descriptor factory m.registry).1 })
    gets (λ m. lookup key m.plugins) >>= λ old. or_raise old key_error >>= drop_definition key
    persist_state

  unfoldable pub uninstall_plugin : String → Option String → Action Manager (Unit {0})
  unfolding definition_key uninstall_unused
  uninstall_plugin factory wanted = do
    require_started
    key ← λ m. lift (definition_key factory wanted m) m
    used ← gets (instances_of key)
    raise_if (is_nonempty used) plugin_has_instances
    uninstall_unused factory key

  abbrev pub new_instance :
      String → String → String → String → Fields → Bool → ℤ → PluginInstanceSnapshot
  new_instance instance_uuid factory module_name scope_id properties enabled ranking = record {
    instance_id = instance_uuid;
    factory = factory;
    module_name = module_name;
    scope_id = scope_id;
    properties = properties;
    enabled = enabled;
    ranking = ranking;
    status = if enabled then "active" else "disabled";
  }

  -- The last part of `create_instance`: the entries, the state, and their removal if it is not
  -- persisted.
  unfoldable pub enter_instance :
      PluginInstanceSnapshot → Fields → Action Manager PluginInstanceSnapshot
  unfolding persist_state
  enter_instance s user = do
    put_instance s user
    on_error persist_state (
        (if s.enabled then on_components (F.kill s.instance_id) else pure tt)
        >> drop_instance s.instance_id)
    pure s

  -- `create_instance` once the definition is found.
  unfoldable pub start_instance :
      (PluginDescriptor → Result Fields)
      → String
      → String
      → String
      → String
      → Fields
      → Bool
      → ℤ
      → PluginDescriptor
      → Action Manager PluginInstanceSnapshot
  unfolding enter_instance
  start_instance effective instance_uuid factory module_name scope_id user enabled ranking
        definition =
      do
        properties ← λ m. lift (effective definition) m
        if enabled
            then on_components (F.instantiate definition instance_uuid properties)
            else pure tt
        enter_instance
            (new_instance instance_uuid factory module_name scope_id properties enabled ranking)
            user

  unfoldable pub create_instance :
      (PluginDescriptor → Result Fields)
      → String
      → String
      → String
      → String
      → Fields
      → Bool
      → ℤ
      → Action Manager PluginInstanceSnapshot
  unfolding start_instance require
  create_instance effective instance_uuid factory module_name scope_id user enabled ranking = do
    require_started
    λ m. lift (require m.scopes scope_id) m
    found ← gets (λ m. lookup (module_name, factory) m.plugins)
    definition ← or_raise found plugin_not_found
    start_instance effective instance_uuid factory module_name scope_id user enabled ranking
        definition

  abbrev pub start_again : PluginInstanceSnapshot → PluginDescriptor → Action Manager (Unit {0})
  start_again s definition = on_components (F.instantiate definition s.instance_id s.properties)

  -- The component of an instance under its definition again.
  abbrev pub revive : PluginInstanceSnapshot → Action Manager (Unit {0})
  revive s =
      gets (λ m. lookup (key_of_instance s) m.plugins)
      >>= (λ found. or_raise found key_error >>= start_again s)

  -- The component and the record of an instance, as `delete_instance` puts them back.
  unfoldable pub put_back : PluginInstanceSnapshot → Action Manager (Unit {0})
  put_back s = (if s.status == "active" then revive s else pure tt) >> put_instance s s.properties

  -- `delete_instance` once the instance is found.
  unfoldable pub delete_found : String → PluginInstanceSnapshot → Action Manager (Unit {0})
  unfolding remove_instance_record persist_state put_back
  delete_found instance_id s = do
    remove_instance_record instance_id
    on_error persist_state (put_back s)

  unfoldable pub delete_instance : String → Action Manager (Unit {0})
  unfolding delete_found
  delete_instance instance_id = do
    require_started
    found ← gets (λ m. lookup instance_id m.instances)
    s ← or_raise found instance_not_found
    delete_found instance_id s
