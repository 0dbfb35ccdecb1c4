-- ===== src/Plugin/Coordinator.antt =====
-- src/langharness_plugin/coordinator.py: `RuntimeMutationCoordinator` over the plugin manager. The
-- lock makes each method one step. Identifiers of instances come from a supply, and the look-up of
-- a service, the effective properties and the properties of an adapter are arguments. The history,
-- whose failures are swallowed, is left out.
use langharness.Prelude.{
  ℕ, suc, String, Bool, true, false, not, ◌&&◌, ◌||◌, List, [], ◌∷◌, ◌++◌, map, Option, none, some,
  Result, ok, err, bind, Error, runtime_mutation, key_error, Action, pure, raise, lift, gets,
  modify, raise_if, or_raise, ◌>>=◌, ◌>>◌, ◌==◌, string_eq, option_eq, if◌then◌else◌, filter, find,
  is_some, is_nonempty,
}
use mathlib.Core.List.{reverse}
use langharness.Prelude.Dict.{Dict, lookup, has, insert, erase, values}
use langharness.Prelude.Int.{ℤ, pos}
use langharness.Prelude.Json.{Fields, end, field, text}
use langharness.Prelude.Text.{codes, starts_with}
use langharness.Plugin.Registry.{PluginDescriptor}
use langharness.Plugin.State.{PersistedPluginRegistration}
use langharness.Plugin.Discovery.{PluginPackage, PluginContribution, ToolExport, DiscoveryFailure}
use langharness.Plugin.Manager.{
  PluginInstanceSnapshot, RuntimeStateStore, Framework, Manager, persist_state, require_started,
  install_definition, create_instance, delete_instance, on_error,
}
use langharness.Plugin.Manager.Update.{update_instance}
use langharness.Plugin.Manager.Properties.{registrations, attach_provenance, detach_provenance}
pub mod Still
pub mod Install
pub mod Mutations
pub mod Restore

abbrev pub Registration : Type 0
Registration = PersistedPluginRegistration

-- `package_id.startswith("builtin.")`
abbrev pub is_builtin : String → Bool
is_builtin package_id = starts_with (codes "builtin.") (codes package_id)

abbrev pub is_agent_scope : String → Bool
is_agent_scope scope_id = starts_with (codes "agent:") (codes scope_id)

-- `TARGET_SCOPES.get(target, ROOT_SCOPE_ID)`
abbrev pub scope_of_target : String → String
scope_of_target target =
    if target == "ui"
    then "ui"
    else (if target == "server" then "server" else (if target == "agent" then "agent" else "root"))

-- `_target_scope`
unfoldable pub target_scope : PluginContribution → Result String
target_scope c =
    if c.target == "agent_instance" then err runtime_mutation else ok (scope_of_target c.target)

-- `_contribution_properties`; `agent_id` takes the prefix `agent:` off.
unfoldable pub contribution_properties :
    (String → String) → PluginContribution → String → Result Fields
contribution_properties agent_id c scope_id =
    if not (c.target == "agent_instance")
    then ok end
    else (if not (is_agent_scope scope_id)
        then err runtime_mutation
        else ok (field "plugin.agent_id" (text (agent_id scope_id)) end))

abbrev pub Catalog : Type 0
Catalog = Dict String PluginPackage

abbrev pub contribution_at : String → PluginPackage → Option PluginContribution
contribution_at k p = find (λ c. c.contribution_id == k) p.contributions

abbrev pub find_in : String → Option PluginPackage → Result (PluginPackage × PluginContribution)
find_in contribution_id none = err key_error
find_in contribution_id (some p) = elim (contribution_at contribution_id p) [
  | none ↦ err key_error
  | some c ↦ ok (p, c)
]

-- `_find`
unfoldable pub find_contribution :
    Catalog → String → String → Result (PluginPackage × PluginContribution)
find_contribution catalog package_id contribution_id =
    find_in contribution_id (lookup package_id catalog)

abbrev pub name_in : String → Option PluginPackage → String
name_in contribution_id none = contribution_id
name_in contribution_id (some p) = elim (contribution_at contribution_id p) [
  | none ↦ contribution_id
  | some c ↦ c.descriptor.name
]

-- `_registration_name`
unfoldable pub registration_name : Catalog → Registration → String
registration_name catalog r = name_in r.contribution_id (lookup r.package_id catalog)

abbrev pub sole : List Registration → Result Registration
sole [] = err key_error
sole (r ∷ []) = ok r
sole (r ∷ r' ∷ rs) = err runtime_mutation

-- `_registration`
unfoldable pub select_registration :
    Catalog → String → String → List Registration → Result Registration
unfolding registration_name
select_registration catalog name scope_id rs =
    sole (filter (λ r. (r.scope_id == scope_id) && (registration_name catalog r == name)) rs)

abbrev pub is_same_request : String → String → String → String → Registration → Bool
is_same_request package_id contribution_id scope_id key r =
    (r.package_id == package_id)
    && (r.contribution_id == contribution_id)
    && (r.scope_id == scope_id)
    && (r.registration_key == some key)

-- The registration that an earlier call with the same key made.
abbrev pub existing_registration :
    String → String → String → Option String → List Registration → Option Registration
existing_registration package_id contribution_id scope_id none rs = none
existing_registration package_id contribution_id scope_id (some key) rs =
    find (is_same_request package_id contribution_id scope_id key) rs

abbrev pub status_of : Bool → String
status_of true = "installed"
status_of false = "disabled"

-- A registration for an instance.
abbrev pub registration_for :
    String → String → String → PluginInstanceSnapshot → String → Bool → Option String → Registration
registration_for package_id contribution_id version s scope_id enabled key = record {
  package_id = package_id;
  contribution_id = contribution_id;
  package_version = version;
  instance_id = s.instance_id;
  factory = s.factory;
  module_name = s.module_name;
  scope_id = scope_id;
  enabled = enabled;
  status = status_of enabled;
  registration_key = key;
}

-- The scope of the adapter for an export.
abbrev pub adapter_scope : String → ToolExport → String
adapter_scope scope_id e = if e.target_scope == "agent_instance" then scope_id else "agent"

-- `groups.setdefault(target_scope, []).append(export)`
abbrev pub add_export :
    String → ToolExport → Dict String (List ToolExport) → Dict String (List ToolExport)
add_export scope_id e groups = elim (lookup scope_id groups) [
  | none ↦ insert scope_id (e ∷ []) groups
  | some es ↦ insert scope_id (es ++ e ∷ []) groups
]

abbrev pub group_exports :
    String → List ToolExport → Dict String (List ToolExport) → Dict String (List ToolExport)
group_exports scope_id [] groups = groups
group_exports scope_id (e ∷ es) groups =
    group_exports scope_id es (add_export (adapter_scope scope_id e) e groups)

abbrev pub adapter_factory : String
adapter_factory = "tool-export-adapter-factory"

abbrev pub adapter_module : String
adapter_module = "langharness_core.plugins.tools.export_adapter"

abbrev pub adapter_descriptor : String → PluginDescriptor
adapter_descriptor version = record {
  name = "tool-export-adapter";
  version = version;
  module_name = adapter_module;
  factory = adapter_factory;
  specification = "agent.plugin.tools";
  description =
      "Adapts a tool export target into scoped tool services. Implements agent.plugin.tools. Properties: plugin.tool_export.target and plugin.tool_export.exports. Managed by the dynamic plugin coordinator.";
  swap_policy = "restart";
}

pub record RuntimeMutationCoordinator (Manager_ : Type 0) : Type 0 where
  pub manager : Manager_
  pub catalog : Catalog
  pub failures : List DiscoveryFailure
  pub adapter_instances : Dict String (List String)
  pub next_uuid : ℕ

-- What stands outside the coordinator: `uuid4`, the effective properties, the equalities of
-- descriptors and of properties, and the properties of an adapter for a service.
pub record Surroundings (Service : Type 0) : Type 0 where
  pub uuid : ℕ → String
  pub effective : PluginDescriptor → String → Fields → ℤ → Result Fields
  pub is_same : PluginDescriptor → PluginDescriptor → Bool
  pub same_fields : Fields → Fields → Bool
  pub agent_id : String → String
  pub adapter_properties : Service → List ToolExport → Fields

module _ (R : RuntimeStateStore) (F : Framework) {Service : Type 0} (E : Surroundings Service)
    (find_service : Manager R F → String → String → Option Service) where
  abbrev pub Coordinator : Type 0
  Coordinator = RuntimeMutationCoordinator (Manager R F)

  abbrev pub on_manager : {A : Type 0} → Action (Manager R F) A → Action Coordinator A
  on_manager a m = let (r, n) = a m.manager in (r, record m { manager = n })

  -- `install_descriptor(descriptor, source="assembly")` unless the factory is known.
  abbrev pub install_unknown : PluginDescriptor → Action (Manager R F) (Unit {0})
  install_unknown d m =
      if has d.factory m.registry.descriptors
      then (ok tt, m)
      else (require_started R F >>= λ _.
            install_definition R F E.is_same d "assembly" >>= λ _. pure tt)
          m

  -- `manager.create_instance` with the next identifier.
  abbrev pub create_next :
      String → String → String → Fields → Bool → Action Coordinator PluginInstanceSnapshot
  create_next factory module_name scope_id properties enabled c =
      let (r, n) =
        create_instance R F (λ d. E.effective d scope_id properties (pos 0)) (E.uuid c.next_uuid)
          factory module_name scope_id properties enabled (pos 0) c.manager in
      (r, record c { manager = n; next_uuid = suc c.next_uuid })

  -- The adapters of the groups, one after the other, and their identifiers.
  abbrev pub create_adapters :
      Service → Dict String (List ToolExport) → Action Coordinator (List String)
  create_adapters target [] = pure []
  create_adapters target ((scope_id, exports) ∷ groups) =
      create_next adapter_factory adapter_module scope_id (E.adapter_properties target exports) true
      >>= λ s. create_adapters target groups >>= λ created. pure (s.instance_id ∷ created)

  abbrev pub note_adapters : String → List String → Action Coordinator (Unit {0})
  note_adapters instance_id created =
      modify (λ c. record c { adapter_instances = insert instance_id created c.adapter_instances })

  abbrev pub adapt : Registration → PluginContribution → Service → Action Coordinator (Unit {0})
  adapt r c target =
      create_adapters target (group_exports r.scope_id c.tool_exports [])
      >>= note_adapters r.instance_id

  -- `_install_adapters`
  unfoldable pub install_adapters :
      Registration → PluginContribution → Action Coordinator (Unit {0})
  unfolding install_definition create_instance
  install_adapters r c =
      if not (is_nonempty c.tool_exports)
      then pure tt
      else on_manager (install_unknown (adapter_descriptor r.package_version)) >>= λ _.
          gets (λ s. find_service s.manager c.descriptor.specification r.scope_id) >>= λ found.
          or_raise found runtime_mutation >>= adapt r c

  -- `try: delete_instance(...) except Exception: pass`
  abbrev pub try_delete : String → Action Coordinator (Unit {0})
  try_delete instance_id c = (ok tt, (on_manager (delete_instance R F instance_id) c).1)

  abbrev pub delete_each : List String → Action Coordinator (Unit {0})
  delete_each [] = pure tt
  delete_each (k ∷ ks) = try_delete k >>= λ _. delete_each ks

  abbrev pub adapters_or_none : Option (List String) → List String
  adapters_or_none none = []
  adapters_or_none (some ks) = ks

  -- `_kill_adapters`
  unfoldable pub kill_adapters : Registration → Action Coordinator (Unit {0})
  unfolding delete_instance
  kill_adapters r c =
      delete_each (reverse (adapters_or_none (lookup r.instance_id c.adapter_instances)))
        (record c { adapter_instances = erase r.instance_id c.adapter_instances })

  -- The last part of `install`: the registration with its adapters, or neither.
  abbrev pub register : Registration → PluginContribution → Action Coordinator Registration
  register r c = on_manager (attach_provenance R F r) >>= λ _.
      on_error (install_adapters r c >>= λ _. on_manager (persist_state R F)) (
        kill_adapters r >>= λ _. on_manager (detach_provenance R F r.instance_id) >>= λ _.
        on_manager (delete_instance R F r.instance_id))
      >>= λ _. pure r

  -- `install` where no registration with the key exists.
  abbrev pub install_chosen :
      PluginPackage
      → PluginContribution
      → String
      → Fields
      → Option String
      → Action Coordinator Registration
  install_chosen p c scope_id properties key = on_manager (install_unknown c.descriptor) >>= λ _.
      create_next c.descriptor.factory c.descriptor.module_name scope_id properties true >>= λ s.
      register (registration_for p.package_id c.contribution_id p.version s scope_id true key) c

  abbrev pub install_unless :
      PluginPackage
      → PluginContribution
      → String
      → Fields
      → Option String
      → Option Registration
      → Action Coordinator Registration
  install_unless p c scope_id properties key (some existing) = pure existing
  install_unless p c scope_id properties key none = install_chosen p c scope_id properties key

  -- `scope_id if scope_id is not None else self._target_scope(contribution)`
  abbrev pub wanted_scope : Option String → PluginContribution → Result String
  wanted_scope none c = target_scope c
  wanted_scope (some s) c = ok s

  -- What `install` reads before it changes anything.
  abbrev pub read_request :
      Catalog
      → String
      → String
      → Option String
      → Result (PluginPackage × PluginContribution × String × Fields)
  read_request catalog package_id contribution_id scope_id =
      if is_builtin package_id
      then err runtime_mutation
      else bind (find_contribution catalog package_id contribution_id) λ found.
        bind (wanted_scope scope_id found.1) λ scope.
          bind (contribution_properties E.agent_id found.1 scope)
            λ properties. ok (found.0, found.1, scope, properties)

  abbrev pub install_read :
      String
      → String
      → Option String
      → PluginPackage × PluginContribution × String × Fields
      → Action Coordinator Registration
  install_read package_id contribution_id key (p, c, scope, properties) s =
      install_unless p c scope properties key
        (existing_registration package_id contribution_id scope key (registrations R F s.manager)) s

  unfoldable pub install :
      String → String → Option String → Option String → Action Coordinator Registration
  unfolding install_adapters kill_adapters target_scope contribution_properties find_contribution
  install package_id contribution_id scope_id key s =
      (lift (read_request s.catalog package_id contribution_id scope_id)
          >>= install_read package_id contribution_id key)
        s
