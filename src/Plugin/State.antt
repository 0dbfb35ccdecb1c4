-- ===== src/Plugin/State.antt =====
-- src/langharness_plugin/state_store.py: the snapshot of the runtime state, and its codec.
use langharness.Prelude.{
  ℕ, String, Bool, true, false, not, ◌≡◌, refl, List, [], ◌∷◌, map, Option, none, some, Result, ok,
  err, bind, Error, value_error, key_error, state_schema, ◌==◌, nat_eq, string_eq, if◌then◌else◌,
}
use langharness.Prelude.Int.{ℤ, pos}
use langharness.Prelude.Json.{
  Json, null, bool, num, text, arr, obj, Fields, end, field, get, text_at, optional_at, truth,
  of_items, to_items, of_option,
}
use langharness.Plugin.Registry.{
  PluginDescriptor, descriptor_to_dict, descriptor_from_dict, PluginInstanceRecord,
  instance_to_dict, instance_from_dict,
}
pub mod Codec
pub mod Stores
pub mod History

pub record PersistedDescriptorRecord : Type 0 where
  pub descriptor : PluginDescriptor
  pub source : String

pub record PersistedPluginRegistration : Type 0 where
  pub package_id : String
  pub contribution_id : String
  pub package_version : String
  pub instance_id : String
  pub factory : String
  pub module_name : String
  pub scope_id : String
  pub enabled : Bool
  pub status : String
  pub registration_key : Option String

-- The scopes are dicts.
pub record RuntimeStateSnapshot : Type 0 where
  pub version : ℕ
  pub scopes : List Json
  pub descriptors : List PersistedDescriptorRecord
  pub instances : List PluginInstanceRecord
  pub registrations : List PersistedPluginRegistration

abbrev pub runtime_schema : ℕ
runtime_schema = 3

unfoldable pub encode_registration : PersistedPluginRegistration → Json
encode_registration r = obj (
    field "package_id" (text r.package_id) (
      field "contribution_id" (text r.contribution_id) (
        field "package_version" (text r.package_version) (
          field "instance" (text r.instance_id) (
            field "factory" (text r.factory) (
              field "module" (text r.module_name) (
                field "scope_id" (text r.scope_id) (
                  field "enabled" (bool r.enabled) (
                    field "status" (text r.status)
                      (field "registration_key" (of_option r.registration_key) end))))))))))

-- `bool(data["enabled"])`
abbrev pub bool_at : String → Fields → Result Bool
bool_at key stored = elim (get key stored) [ none ↦ err key_error | some v ↦ ok (truth v) ]

-- `data.get(key)`, a text or `None`.
abbrev pub optional_text : String → Fields → Result (Option String)
optional_text key stored = elim (get key stored) [
  | some (text s) ↦ ok (some s)
  | some null ↦ ok none
  | none ↦ ok none
  | some _ ↦ err value_error
]

unfoldable pub decode_registration : Json → Result PersistedPluginRegistration
decode_registration (obj stored) = bind (text_at "package_id" stored) λ package_id.
    bind (text_at "contribution_id" stored) λ contribution_id.
      bind (text_at "package_version" stored) λ package_version.
        bind (text_at "instance" stored) λ instance_id. bind (text_at "factory" stored) λ factory.
          bind (text_at "module" stored) λ module_name. bind (text_at "scope_id" stored) λ scope_id.
            bind (bool_at "enabled" stored) λ enabled. bind (text_at "status" stored) λ status.
              bind (optional_text "registration_key" stored) λ registration_key. ok (record {
                package_id = package_id;
                contribution_id = contribution_id;
                package_version = package_version;
                instance_id = instance_id;
                factory = factory;
                module_name = module_name;
                scope_id = scope_id;
                enabled = enabled;
                status = status;
                registration_key = registration_key;
              })
decode_registration _ = err value_error

unfoldable pub encode_descriptor : PersistedDescriptorRecord → Json
unfolding descriptor_to_dict
encode_descriptor r = obj (
    field "descriptor" (obj (descriptor_to_dict r.descriptor)) (field "source" (text r.source) end))

-- `item[key]` where an object is stored.
abbrev pub object_at : String → Fields → Result Fields
object_at key stored = elim (get key stored) [ some (obj fs) ↦ ok fs | _ ↦ err key_error ]

unfoldable pub decode_descriptor : Json → Result PersistedDescriptorRecord
unfolding descriptor_from_dict
decode_descriptor (obj stored) = bind (object_at "descriptor" stored) λ fs.
    bind (descriptor_from_dict fs) λ descriptor.
      bind (text_at "source" stored)
        λ source. ok (record { descriptor = descriptor; source = source })
decode_descriptor _ = err value_error

unfoldable pub decode_instance : Json → Result PluginInstanceRecord
unfolding instance_from_dict
decode_instance (obj stored) = instance_from_dict stored
decode_instance _ = err value_error

-- `tuple(f(item) for item in items)`
abbrev pub map_result : {A : Type 0} → (Json → Result A) → List Json → Result (List A)
map_result f [] = ok []
map_result f (x ∷ xs) = bind (f x) λ a. bind (map_result f xs) λ items. ok (a ∷ items)

-- `raw[key]` where a list is stored.
abbrev pub list_at : String → Fields → Result (List Json)
list_at key stored = elim (get key stored) [
  | some (arr items) ↦ ok (of_items items)
  | _ ↦ err key_error
]

unfoldable pub encode_snapshot : RuntimeStateSnapshot → Fields
unfolding encode_descriptor instance_to_dict encode_registration
encode_snapshot s = field "schema" (num (pos runtime_schema)) (
    field "scopes" (arr (to_items s.scopes)) (
      field "descriptors" (arr (to_items (map encode_descriptor s.descriptors))) (
        field "instances" (arr (to_items (map (λ r. obj (instance_to_dict r)) s.instances)))
          (field "registrations" (arr (to_items (map encode_registration s.registrations))) end))))

-- `_decode_snapshot`, with the version of the row.
unfoldable pub decode_snapshot : ℕ → Fields → Result RuntimeStateSnapshot
unfolding decode_descriptor decode_instance decode_registration
decode_snapshot version raw = bind (list_at "scopes" raw) λ scopes.
    bind (bind (list_at "descriptors" raw) (map_result decode_descriptor)) λ descriptors.
      bind (bind (list_at "instances" raw) (map_result decode_instance)) λ instances.
        bind (bind (list_at "registrations" raw) (map_result decode_registration)) λ registrations.
          ok (record {
            version = version;
            scopes = scopes;
            descriptors = descriptors;
            instances = instances;
            registrations = registrations;
          })
