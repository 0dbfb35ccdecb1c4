-- ===== src/Plugin/Manager/Properties.antt =====
-- The effective properties of an instance, the reads of the instances, and the start and end of a
-- manager, of src/langharness_plugin/plugin_manager.py. The check and the merge of the filters is
-- an argument, `apply_filters`.
use mathlib.Core.List.{map}
use langharness.Prelude.{
  ℕ, ◌*◌, String, Bool, true, false, not, ◌&&◌, List, [], ◌∷◌, Option, none, some, Result, bind,
  Action, modify, ◌==◌, string_eq, if◌then◌else◌, filter, contains,
}
use langharness.Prelude.Dict.{values, insert, erase}
use langharness.Prelude.Int.{ℤ, pos, ◌+ℤ◌}
use langharness.Prelude.Json.{text, num, arr, Fields, end, field, to_items}
use langharness.Prelude.Order.{text_order, sort_by}
use langharness.Prelude.Text.{codes}
use langharness.Policy.Filter.{visible_scopes}
use langharness.Plugin.Config.Secrets.{set_field}
use langharness.Plugin.Registry.{PluginDescriptor, PluginInstanceRecord}
use langharness.Plugin.State.{PersistedPluginRegistration}
use langharness.Plugin.Manager.{PluginInstanceSnapshot, RuntimeStateStore, Framework, Manager}
use langharness.Scope.Model.{Scopes}
use langharness.Scope.Tree.Reads.{depth}

abbrev pub scope_ranking_stride : ℕ
scope_ranking_stride = 1000000

abbrev pub runtime_keys : List String
runtime_keys =
    "plugin.scope_id" ∷ "plugin.scope_chain" ∷ "plugin.key" ∷ "plugin.instance_id"
    ∷ "plugin.ranking" ∷ "service.ranking" ∷ []

-- The metadata of the scope over the user's properties.
unfoldable pub scope_metadata :
    PluginDescriptor → String → List String → ℕ → Fields → ℤ → String → Fields
unfolding set_field ◌+ℤ◌
scope_metadata descriptor scope_id chain level user ranking instance_uuid =
    set_field "service.ranking" (num (pos (level * scope_ranking_stride) +ℤ ranking)) (
      set_field "plugin.ranking" (num ranking) (
        set_field "plugin.instance_id" (text instance_uuid) (
          set_field "plugin.key" (text descriptor.factory) (
            set_field "plugin.scope_chain" (arr (to_items (map text chain)))
              (set_field "plugin.scope_id" (text scope_id) user)))))

unfoldable pub effective_properties :
    (Fields → Result Fields)
    → Scopes
    → PluginDescriptor
    → String
    → Fields
    → ℤ
    → String
    → Result Fields
unfolding visible_scopes depth scope_metadata
effective_properties apply_filters scopes descriptor scope_id user ranking instance_uuid =
    bind (visible_scopes scopes scope_id) λ chain. bind (depth scopes scope_id) λ level.
      apply_filters (scope_metadata descriptor scope_id chain level user ranking instance_uuid)

-- The properties of a record that are the user's.
abbrev pub without_runtime_keys : Fields → Fields
without_runtime_keys end = end
without_runtime_keys (field k v fs) =
    let rest = without_runtime_keys fs in if contains k runtime_keys then rest else field k v rest

unfoldable pub rehydrate_properties :
    (Fields → Result Fields) → Scopes → PluginInstanceRecord → PluginDescriptor → Result Fields
unfolding effective_properties
rehydrate_properties apply_filters scopes r descriptor =
    effective_properties apply_filters scopes descriptor r.scope_id
      (without_runtime_keys r.properties) r.ranking r.instance_id

abbrev pub text_or_any : Option String → String → Bool
text_or_any none s = true
text_or_any (some wanted) s = s == wanted

abbrev pub flag_or_any : Option Bool → Bool → Bool
flag_or_any none b = true
flag_or_any (some true) b = b
flag_or_any (some false) b = not b

module _ (R : RuntimeStateStore) (F : Framework) where
  -- Three stable sorts, by the last key first, sort by the triple.
  unfoldable pub list_instance :
      Option String
      → Option String
      → Option String
      → Option Bool
      → Manager R F
      → List PluginInstanceSnapshot
  list_instance factory module_name scope_id enabled m =
      sort_by text_order (λ s. codes s.factory)
        (sort_by text_order (λ s. codes s.scope_id)
          (sort_by text_order (λ s. codes s.instance_id)
            (filter
              (λ s.
                text_or_any factory s.factory
                && text_or_any module_name s.module_name
                && text_or_any scope_id s.scope_id
                && flag_or_any enabled s.enabled)
              (values m.instances))))

  abbrev pub registrations : Manager R F → List PersistedPluginRegistration
  registrations m = values m.provenance

  abbrev pub attach_provenance : PersistedPluginRegistration → Action (Manager R F) (Unit {0})
  attach_provenance r = modify (λ m. record m { provenance = insert r.instance_id r m.provenance })

  abbrev pub detach_provenance : String → Action (Manager R F) (Unit {0})
  detach_provenance k = modify (λ m. record m { provenance = erase k m.provenance })

  -- `stop`; the framework is deleted, and a fresh one stands for the next.
  unfoldable pub stop : F.State → Manager R F → Manager R F
  stop fresh m = if not m.started then m else record m {
    started = false;
    components = fresh;
    instances = [];
    plugins = [];
    discovered = [];
    provenance = [];
    user_properties = [];
  }
