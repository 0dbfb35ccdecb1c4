-- ===== src/Plugin/Registry/Codec.antt =====
-- Round trips of src/langharness_plugin/registry.py.
use langharness.Prelude.{◌≡◌, refl, ok}
use langharness.Plugin.Registry.{
  PluginDescriptor, descriptor_to_dict, descriptor_from_dict, PluginInstanceRecord,
  instance_to_dict, instance_from_dict,
}

-- A descriptor is read back from its dict.
pub descriptor_from_dict-to_dict :
    (d : PluginDescriptor) → descriptor_from_dict (descriptor_to_dict d) ≡ ok d
unfolding descriptor_from_dict descriptor_to_dict
descriptor_from_dict-to_dict d = refl

-- An instance record is read back from its dict.
pub instance_from_dict-to_dict :
    (r : PluginInstanceRecord) → instance_from_dict (instance_to_dict r) ≡ ok r
unfolding instance_from_dict instance_to_dict
instance_from_dict-to_dict r = refl
