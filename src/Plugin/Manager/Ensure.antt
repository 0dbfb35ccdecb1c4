-- ===== src/Plugin/Manager/Ensure.antt =====
-- `ensure_instance` of src/langharness_plugin/plugin_manager.py: an instance of a definition in a
-- scope is created, brought up to date, or left as it is.
use mathlib.Core.Path.{sym, ap, subst, ◌∙◌}
use langharness.Prelude.{
  String, Bool, true, false, not, ◌&&◌, ◌||◌, List, [], ◌∷◌, In, ◌≡◌, refl, Option, none, some,
  some_inj, inl, inr, Result, ok, err, Action, pure, lift, gets, or_raise, ◌>>=◌, ◌==◌, string_eq,
  pair_eq, if◌then◌else◌, plugin_not_found, instance_not_found, instance_state, raise_if,
  runtime_error, find, Bool-cases, arith,
}
use langharness.Prelude.Dict.{lookup, values}
use langharness.Prelude.Int.{ℤ, pos}
use langharness.Prelude.Json.{Fields, end, field}
use langharness.Scope.Model.{root_scope_id}
use langharness.Scope.Tree.Reads.{require}
use langharness.Plugin.Registry.{PluginDescriptor}
use langharness.Plugin.Manager.{
  PluginInstanceSnapshot, RuntimeStateStore, Framework, Manager, on_components, on_error,
  persist_state, put_instance, drop_instance, require_started, key_of_instance, new_instance,
  start_instance, enter_instance, create_instance,
}
use langharness.Plugin.Manager.Keeps.{Keeps, Holds, branch-Keeps}
use langharness.Plugin.Manager.Installed.{IsInstalled, create_instance-Keeps}
use langharness.Plugin.Manager.Frame.{Answers, OfResult, bind-Answers, found-Answers}
use langharness.Plugin.Manager.Update.{
  or_old, differs, ranks_differ, user_differs, merged_user, changed_instance, switch, switch_back,
  enter_update, update_with, update_found, update_instance, update_instance-Keeps,
}
pub mod Placed

abbrev pub is_instance_of : String → String → String → PluginInstanceSnapshot → Bool
is_instance_of factory module_name scope_id s =
    (s.factory == factory) && (s.module_name == module_name) && (s.scope_id == scope_id)

-- `properties or None`
abbrev pub fields_or_none : Fields → Option Fields
fields_or_none end = none
fields_or_none (field k v rest) = some (field k v rest)

module _ (R : RuntimeStateStore) (F : Framework)
    (effective : PluginDescriptor → String → Fields → ℤ → Result Fields)
    (same : Fields → Fields → Bool) where
  -- `ensure_instance` where there is an instance, with its stored user properties.
  abbrev pub ensure_current :
      Fields
      → Bool
      → PluginInstanceSnapshot
      → Option Fields
      → Action (Manager R F) PluginInstanceSnapshot
  ensure_current properties enabled current user =
      if differs current.enabled enabled || not (same (or_old end user) properties)
      then update_instance R F effective same current.instance_id (fields_or_none properties)
          (some enabled) none
      else pure current

  -- `ensure_instance` once the instances are searched.
  abbrev pub ensure_found :
      String
      → String
      → String
      → String
      → Fields
      → Bool
      → Option PluginInstanceSnapshot
      → Action (Manager R F) PluginInstanceSnapshot
  ensure_found uuid factory module_name scope_id properties enabled none m =
      create_instance R F (λ d. effective d scope_id properties (pos 0)) uuid factory module_name
        scope_id properties enabled (pos 0) m
  ensure_found uuid factory module_name scope_id properties enabled (some current) m =
      ensure_current properties enabled current (lookup current.instance_id m.user_properties) m

  -- `uuid` is the identifier for an instance that is created.
  unfoldable pub ensure_instance :
      String
      → String
      → String
      → Option String
      → Option Fields
      → Bool
      → Action (Manager R F) PluginInstanceSnapshot
  unfolding create_instance update_instance
  ensure_instance uuid factory module_name wanted properties enabled m =
      let scope_id = or_old root_scope_id wanted in
      ensure_found uuid factory module_name scope_id (or_old end properties) enabled
        (find (is_instance_of factory module_name scope_id) (values m.instances)) m

  ensure_current-Keeps :
      (properties : Fields) (enabled : Bool) (current : PluginInstanceSnapshot)
      (user : Option Fields)
      → Keeps R F IsInstalled (ensure_current properties enabled current user)
  ensure_current-Keeps properties enabled current user =
      branch-Keeps R F IsInstalled
        (differs current.enabled enabled || not (same (or_old end user) properties)) _ _
        (update_instance-Keeps R F effective same (fields_or_none properties) (some enabled) none
          current.instance_id)
        (record { kept = λ m h. h })

  pub ensure_instance-Keeps :
      (uuid factory module_name : String) (wanted : Option String) (properties : Option Fields)
      (enabled : Bool)
      → Keeps R F IsInstalled (ensure_instance uuid factory module_name wanted properties enabled)
  unfolding ensure_instance
  ensure_instance-Keeps uuid factory module_name wanted properties enabled = record {
    kept = λ m h. go m h (find (is_instance_of factory module_name _) _);
  }
    where
      scope_id : String
      scope_id = or_old root_scope_id wanted

      asked : Fields
      asked = or_old end properties

      go :
          (m : Manager R F)
          → Holds R F IsInstalled m
          → (o : Option PluginInstanceSnapshot)
          → Holds R F IsInstalled
              (ensure_found uuid factory module_name scope_id asked enabled o m).1
      go m h none =
          (create_instance-Keeps R F (λ d. effective d scope_id asked (pos 0)) uuid factory
              module_name scope_id asked enabled (pos 0)).kept
            m h
      go m h (some s) =
          (ensure_current-Keeps asked enabled s (lookup s.instance_id m.user_properties)).kept m h
