-- ===== src/Plugin/Manager/Revival.antt =====
-- The last part of `restore` in src/langharness_plugin/plugin_manager.py: the stored instances, once
-- scopes and definitions are back, and the registrations. What it answers, the snapshots that it
-- enters, is left out, and so is its index of instances by registration.
use mathlib.Core.Path.{sym, ap, ◌∙◌}
use mathlib.Core.List.{map}
use langharness.Prelude.{
  String, Bool, true, false, not, List, [], ◌∷◌, In, NoRepeat, contains, ◌≡◌, refl, Option, none,
  some, Result, ok, err, Action, pure, lift, ◌>>=◌, ◌==◌, string_eq, pair_eq, if◌then◌else◌, inl,
  inr, arith, any,
}
use langharness.Prelude.Dict.{Dict, lookup, insert, lookup-insert, lookup-insert_self}
use langharness.Prelude.Json.{Fields}
use langharness.Prelude.Text.{codes, starts_with}
use langharness.Plugin.Registry.{PluginDescriptor, PluginInstanceRecord}
use langharness.Plugin.State.{PersistedPluginRegistration}
use langharness.Plugin.Manager.{
  PluginInstanceSnapshot, RuntimeStateStore, Framework, Manager, on_components, put_instance,
  persist_state,
}
use langharness.Plugin.Manager.Properties.{rehydrate_properties, without_runtime_keys}
pub mod Stored

-- An instance in the scope of an agent, which is made anew from the agent.
abbrev pub is_derived : PluginInstanceRecord → Bool
is_derived r = starts_with (codes "agent:") (codes r.scope_id)

abbrev pub revived : PluginInstanceRecord → Fields → String → PluginInstanceSnapshot
revived r properties status = record {
  instance_id = r.instance_id;
  factory = r.factory;
  module_name = r.module_name;
  scope_id = r.scope_id;
  properties = properties;
  enabled = r.enabled;
  ranking = r.ranking;
  status = status;
}

-- The snapshot after the attempt to start the component.
abbrev pub after_start : PluginInstanceRecord → Result Fields → PluginInstanceSnapshot
after_start r (ok effective) = revived r effective "active"
after_start r (err e) = revived r r.properties "failed"

module _ (R : RuntimeStateStore) (F : Framework) (apply_filters : Fields → Result Fields) where
  -- The effective properties of the component that was started.
  abbrev pub start_record : PluginInstanceRecord → PluginDescriptor → Action (Manager R F) Fields
  start_record r d =
      (λ m. lift (rehydrate_properties apply_filters m.scopes r d) m) >>= λ effective.
      on_components R F (F.instantiate d r.instance_id effective) >>= λ _. pure effective

  abbrev pub enter_started : PluginInstanceRecord → Result Fields × Manager R F → Manager R F
  enter_started r (outcome, m) =
      (put_instance R F (after_start r outcome) (without_runtime_keys r.properties) m).1

  -- An instance whose component is not started.
  abbrev pub enter_idle : PluginInstanceRecord → String → Manager R F → Manager R F
  enter_idle r status m = record m {
    instances = insert r.instance_id (revived r r.properties status) m.instances;
  }

  abbrev pub restore_found :
      PluginInstanceRecord → Option PluginDescriptor → Manager R F → Manager R F
  restore_found r none m = enter_idle r "missing" m
  restore_found r (some d) m =
      if not r.enabled then enter_idle r "disabled" m else enter_started r (start_record r d m)

  abbrev pub restore_record : PluginInstanceRecord → Manager R F → Manager R F
  restore_record r m =
      if is_derived r then m else restore_found r (lookup (r.module_name, r.factory) m.plugins) m

  -- The loop over the stored instances.
  unfoldable pub restore_instances : List PluginInstanceRecord → Manager R F → Manager R F
  unfolding rehydrate_properties
  restore_instances [] m = m
  restore_instances (r ∷ rs) m = restore_instances rs (restore_record r m)

  abbrev pub by_instance :
      List PersistedPluginRegistration
      → Dict String PersistedPluginRegistration
      → Dict String PersistedPluginRegistration
  by_instance [] d = d
  by_instance (p ∷ ps) d = by_instance ps (insert p.instance_id p d)

  unfoldable pub restore_loaded :
      List PluginInstanceRecord → List PersistedPluginRegistration → Action (Manager R F) (Unit {0})
  unfolding restore_instances persist_state
  restore_loaded rs registrations m =
      let restored = record (restore_instances rs m) {
        provenance = by_instance registrations [];
      } in
      if any is_derived rs then persist_state R F restored else (ok tt, restored)
