-- ===== src/Plugin/Registry.antt =====
-- src/langharness_plugin/registry.py: descriptors, instance records and the catalog
-- `PluginRegistry`, keyed by factory. The field `module` is `module_name` here.
use langharness.Prelude.{
  ℕ, String, Bool, true, false, not, ◌&&◌, ◌||◌, ◌≡◌, refl, List, [], ◌∷◌, map, Option, none, some,
  Result, ok, err, bind, Error, value_error, key_error, plugin_identity_conflict, ambiguous_plugin,
  Action, pure, lift, gets, modify, raise_if, ◌>>=◌, ◌>>◌, ◌==◌, string_eq, if◌then◌else◌, contains,
  filter, all, is_some, All,
}
use langharness.Prelude.Dict.{Dict, lookup, has, insert, erase, values, keys}
use langharness.Prelude.Int.{ℤ, pos}
use langharness.Prelude.Json.{
  Json, null, bool, num, text, arr, obj, Fields, end, field, get, text_at, optional_at, truth,
  of_items, to_items,
}
use langharness.Prelude.Order.{Order, text_order, sort_by}
use langharness.Prelude.Text.{is_blank, codes}
pub mod Codec
pub mod Catalog
pub mod File

pub record PluginDescriptor : Type 0 where
  pub name : String
  pub version : String
  pub module_name : String
  pub factory : String
  pub specification : String
  pub description : String
  pub swap_policy : String

unfoldable pub descriptor_to_dict : PluginDescriptor → Fields
descriptor_to_dict d = field "name" (text d.name) (
    field "version" (text d.version) (
      field "module" (text d.module_name) (
        field "factory" (text d.factory) (
          field "specification" (text d.specification) (
            field "description" (text d.description)
              (field "swap_policy" (text d.swap_policy) end))))))

abbrev pub required_fields : List String
required_fields = "name" ∷ "version" ∷ "module" ∷ "factory" ∷ "specification" ∷ "description" ∷ []

abbrev pub descriptor_fields : List String
descriptor_fields =
    "name" ∷ "version" ∷ "module" ∷ "factory" ∷ "specification" ∷ "description" ∷ "swap_policy" ∷ []

-- `set(data) - set(known)` is empty.
abbrev pub all_known : List String → Fields → Bool
all_known known end = true
all_known known (field k v fs) = contains k known && all_known known fs

abbrev pub is_present : Fields → String → Bool
is_present fs k = is_some (get k fs)

-- `data.get("swap_policy", "restart")`
abbrev pub text_or : String → String → Fields → Result String
text_or key default fields = if is_present fields key then text_at key fields else ok default

-- The fields of a descriptor are texts.
unfoldable pub descriptor_from_dict : Fields → Result PluginDescriptor
descriptor_from_dict stored =
    if not (all_known descriptor_fields stored)
    then err value_error
    else (if not (all (is_present stored) required_fields)
        then err value_error
        else bind (text_at "name" stored) λ name. bind (text_at "version" stored) λ version.
          bind (text_at "module" stored) λ module_name. bind (text_at "factory" stored) λ factory.
            bind (text_at "specification" stored) λ specification.
              bind (text_at "description" stored) λ description.
                bind (text_or "swap_policy" "restart" stored) λ swap_policy. ok (record {
                  name = name;
                  version = version;
                  module_name = module_name;
                  factory = factory;
                  specification = specification;
                  description = description;
                  swap_policy = swap_policy;
                }))

abbrev pub swap_policies : List String
swap_policies = "hot" ∷ "restart" ∷ []

unfoldable pub validate_descriptor : PluginDescriptor → Result (Unit {0})
unfolding is_blank
validate_descriptor d =
    if is_blank d.name
      || is_blank d.version
      || is_blank d.module_name
      || is_blank d.factory
      || is_blank d.specification
      || is_blank d.description
    then err value_error
    else (if not (contains d.swap_policy swap_policies) then err value_error else ok tt)

pub record PluginInstanceRecord : Type 0 where
  pub instance_id : String
  pub factory : String
  pub module_name : String
  pub scope_id : String
  pub properties : Fields
  pub enabled : Bool
  pub ranking : ℤ
  pub status : String

unfoldable pub instance_to_dict : PluginInstanceRecord → Fields
instance_to_dict r = field "instance" (text r.instance_id) (
    field "factory" (text r.factory) (
      field "module" (text r.module_name) (
        field "scope_id" (text r.scope_id) (
          field "properties" (obj r.properties) (
            field "enabled" (bool r.enabled)
              (field "ranking" (num r.ranking) (field "status" (text r.status) end)))))))

-- `dict(data.get("properties", {}))`
abbrev pub properties_at : Fields → Result Fields
properties_at stored = elim (get "properties" stored) [
  | none ↦ ok end
  | some (obj fs) ↦ ok fs
  | some _ ↦ err value_error
]

-- `bool(data.get("enabled", True))`
abbrev pub enabled_at : Fields → Bool
enabled_at stored = elim (get "enabled" stored) [ none ↦ true | some v ↦ truth v ]

-- `int(data.get("ranking", 0))`
abbrev pub ranking_at : Fields → Result ℤ
ranking_at stored = elim (get "ranking" stored) [
  | none ↦ ok (pos 0)
  | some (num n) ↦ ok n
  | some _ ↦ err value_error
]

unfoldable pub instance_from_dict : Fields → Result PluginInstanceRecord
instance_from_dict stored = bind (text_at "instance" stored) λ instance_id.
    bind (text_at "factory" stored) λ factory. bind (text_at "module" stored) λ module_name.
      bind (text_at "scope_id" stored) λ scope_id. bind (properties_at stored) λ properties.
        bind (ranking_at stored) λ ranking. bind (text_or "status" "active" stored) λ status.
          ok (record {
            instance_id = instance_id;
            factory = factory;
            module_name = module_name;
            scope_id = scope_id;
            properties = properties;
            enabled = enabled_at stored;
            ranking = ranking;
            status = status;
          })

-- `self._descriptors`
pub record PluginRegistry : Type 0 where
  pub descriptors : Dict String PluginDescriptor

unfoldable pub add : PluginDescriptor → Action PluginRegistry (Unit {0})
unfolding validate_descriptor
add d = do
  λ r. lift (validate_descriptor d) r
  r ← gets (λ r. r)
  raise_if (has d.factory r.descriptors) plugin_identity_conflict
  modify (λ r. record { descriptors = insert d.factory d r.descriptors })

abbrev pub get_descriptor : String → PluginRegistry → Option PluginDescriptor
get_descriptor factory r = lookup factory r.descriptors

abbrev pub the_only : List PluginDescriptor → Result PluginDescriptor
the_only [] = err key_error
the_only (d ∷ []) = ok d
the_only (d ∷ d' ∷ ds) = err ambiguous_plugin

unfoldable pub get_by_name : String → PluginRegistry → Result PluginDescriptor
get_by_name name r = the_only (filter (λ d. d.name == name) (values r.descriptors))

abbrev pub list_descriptors : PluginRegistry → List PluginDescriptor
list_descriptors r = map (λ e. e.1) (sort_by text_order (λ e. codes e.0) r.descriptors)

unfoldable pub remove_descriptor : String → Action PluginRegistry PluginDescriptor
remove_descriptor factory r = elim (lookup factory r.descriptors) [
  | none ↦ (err key_error, r)
  | some d ↦ (ok d, record { descriptors = erase factory r.descriptors })
]

unfoldable pub add_all : List PluginDescriptor → Action PluginRegistry (Unit {0})
unfolding add
add_all [] = pure tt
add_all (d ∷ ds) = add d >> add_all ds
