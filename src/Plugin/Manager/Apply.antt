-- ===== src/Plugin/Manager/Apply.antt =====
-- `apply_config` of src/langharness_plugin/plugin_manager.py: the stored configuration of plugins
-- replaces the properties of their instances. `restart_required`, always empty, is left out.
-- An instance stands under its own id.
use langharness.Prelude.{
  String, Bool, true, false, not, ◌&&◌, ◌||◌, List, [], ◌∷◌, Option, none, some, Result, ok, err,
  Action, pure, lift, gets, modify, or_raise, ◌>>=◌, ◌==◌, string_eq, if◌then◌else◌, value_error,
  key_error,
}
use langharness.Prelude.Dict.{Dict, lookup, insert, values}
use langharness.Prelude.Int.{ℤ}
use langharness.Prelude.Json.{Fields, end}
use langharness.Plugin.Registry.{PluginDescriptor, get_by_name}
use langharness.Plugin.Manager.{PluginInstanceSnapshot, RuntimeStateStore, Framework, Manager}
use langharness.Plugin.Manager.Keeps.{Keeps, bind-Keeps, look-Keeps, found-Keeps, branch-Keeps}
use langharness.Plugin.Manager.Installed.{IsInstalled}
use langharness.Plugin.Manager.Update.{
  or_old, differs, ranks_differ, update_instance, update_instance-Keeps,
}

-- What is stored for a plugin.
pub record Override : Type 0 where
  pub properties : Option Fields
  pub enabled : Option Bool

-- `except KeyError: raise ValueError`
abbrev pub as_value_error : Result PluginDescriptor → Result PluginDescriptor
as_value_error (ok d) = ok d
as_value_error (err key_error) = err value_error
as_value_error (err e) = err e

module _ (R : RuntimeStateStore) (F : Framework)
    (effective : PluginDescriptor → String → Fields → ℤ → Result Fields)
    (same : Fields → Fields → Bool) where
  -- `updated != before`
  abbrev pub snapshot_differs : PluginInstanceSnapshot → PluginInstanceSnapshot → Bool
  snapshot_differs a b =
      not (
        (a.instance_id == b.instance_id)
        && (a.factory == b.factory)
        && (a.module_name == b.module_name)
        && (a.scope_id == b.scope_id)
        && same a.properties b.properties
        && (a.status == b.status))
      || differs a.enabled b.enabled
      || ranks_differ a.ranking b.ranking

  -- The user properties of an instance, emptied and then set anew; whether it has changed.
  abbrev pub apply_found : Override → PluginInstanceSnapshot → Action (Manager R F) Bool
  apply_found o before =
      modify (λ m. record m { user_properties = insert before.instance_id end m.user_properties })
      >>= λ _.
          update_instance R F effective same before.instance_id (some (or_old end o.properties))
            (some (or_old true o.enabled)) none
          >>= λ updated. pure (snapshot_differs updated before)

  -- One instance of the plugin.
  abbrev pub apply_instance : Override → PluginInstanceSnapshot → Action (Manager R F) Bool
  apply_instance o s = gets (λ m. lookup s.instance_id m.instances) >>= λ found.
      or_raise found key_error >>= apply_found o

  -- The instances of a factory among those listed.
  abbrev pub apply_instances :
      Override → String → List PluginInstanceSnapshot → Action (Manager R F) Bool
  apply_instances o factory [] = pure false
  apply_instances o factory (s ∷ ss) =
      (if s.factory == factory then apply_instance o s else pure false) >>= λ here.
      apply_instances o factory ss >>= λ later. pure (here || later)

  abbrev pub apply_override : String → Override → Action (Manager R F) Bool
  apply_override name o = (λ m. lift (as_value_error (get_by_name name m.registry)) m) >>= λ d.
      gets (λ m. values m.instances) >>= apply_instances o d.factory

  -- The names of the plugins with an instance that has changed.
  abbrev pub apply_overrides : Dict String Override → Action (Manager R F) (List String)
  apply_overrides [] = pure []
  apply_overrides ((name, o) ∷ rest) = apply_override name o >>= λ changed.
      apply_overrides rest >>= λ applied. pure (if changed then name ∷ applied else applied)

  unfoldable pub apply_config : Dict String Override → Action (Manager R F) (List String)
  unfolding update_instance get_by_name
  apply_config overrides = apply_overrides overrides

  apply_found-Keeps :
      (o : Override) (s : PluginInstanceSnapshot) → Keeps R F IsInstalled (apply_found o s)
  apply_found-Keeps o s =
      bind-Keeps R F IsInstalled
        (modify (λ m. record m { user_properties = insert s.instance_id end m.user_properties })) _
        (record { kept = λ m h. h })
        (λ _.
          bind-Keeps R F IsInstalled
            (update_instance R F effective same s.instance_id (some (or_old end o.properties))
              (some (or_old true o.enabled)) none)
            (λ updated. pure (snapshot_differs updated s))
            (update_instance-Keeps R F effective same (some (or_old end o.properties))
              (some (or_old true o.enabled)) none s.instance_id)
            (λ updated. record { kept = λ m h. h }))

  apply_instance-Keeps :
      (o : Override) (s : PluginInstanceSnapshot) → Keeps R F IsInstalled (apply_instance o s)
  apply_instance-Keeps o s =
      found-Keeps R F IsInstalled (λ m. lookup s.instance_id m.instances) key_error (apply_found o)
        (λ before m q h. (apply_found-Keeps o before).kept m h)

  apply_instances-Keeps :
      (o : Override) (factory : String) (ss : List PluginInstanceSnapshot)
      → Keeps R F IsInstalled (apply_instances o factory ss)
  apply_instances-Keeps o factory [] = record { kept = λ m h. h }
  apply_instances-Keeps o factory (s ∷ ss) =
      bind-Keeps R F IsInstalled (if s.factory == factory then apply_instance o s else pure false) _
        (branch-Keeps R F IsInstalled (s.factory == factory) (apply_instance o s) (pure false)
          (apply_instance-Keeps o s) (record { kept = λ m h. h }))
        (λ here.
          bind-Keeps R F IsInstalled (apply_instances o factory ss) (λ later. pure (here || later))
            (apply_instances-Keeps o factory ss) (λ later. record { kept = λ m h. h }))

  apply_override-Keeps :
      (name : String) (o : Override) → Keeps R F IsInstalled (apply_override name o)
  apply_override-Keeps name o =
      bind-Keeps R F IsInstalled (λ m. lift (as_value_error (get_by_name name m.registry)) m) _
        (record { kept = λ m h. h })
        (λ d.
          look-Keeps R F IsInstalled (λ m. values m.instances) (apply_instances o d.factory)
            (λ m h. (apply_instances-Keeps o d.factory (values m.instances)).kept m h))

  apply_overrides-Keeps :
      (overrides : Dict String Override) → Keeps R F IsInstalled (apply_overrides overrides)
  apply_overrides-Keeps [] = record { kept = λ m h. h }
  apply_overrides-Keeps ((name, o) ∷ rest) =
      bind-Keeps R F IsInstalled (apply_override name o) _ (apply_override-Keeps name o) (λ changed.
        bind-Keeps R F IsInstalled (apply_overrides rest)
          (λ applied. pure (if changed then name ∷ applied else applied))
          (apply_overrides-Keeps rest) (λ applied. record { kept = λ m h. h }))

  pub apply_config-Keeps :
      (overrides : Dict String Override) → Keeps R F IsInstalled (apply_config overrides)
  unfolding apply_config
  apply_config-Keeps overrides = apply_overrides-Keeps overrides
