-- ===== src/Plugin/DiscoveryTests.antt =====
-- The theorems on src/langharness_plugin/discovery.py at concrete entry points.
use langharness.Prelude.{
  ◌+◌, List, [], ◌∷◌, none, some, ok, err, ◌≡◌, refl, string_eq, pair_eq, nat_eq, component_error,
  length, map, NoRepeat, All, discovery,
}
use langharness.Prelude.Dict.{lookup}
use langharness.Prelude.Text.{is_blank}
use langharness.Plugin.Registry.{PluginDescriptor, validate_descriptor}
use langharness.Plugin.Discovery.{
  PluginContribution, PluginPackage, EntryPoint, factory, a_package, no_callable, DiscoveryResult,
  scan, discover, scan_entries, load_package, validate_package, PluginMetadata, ClassEntry, a_class,
  neither, descriptor_discovery, read_entry, key_of,
}
use langharness.Plugin.Discovery.Packages.{IsSound, scan-IsSound}
use langharness.Plugin.Discovery.Classes.{first_read, descriptor_discovery-first}

abbrev descriptor : PluginDescriptor
descriptor = record {
  name = "log";
  version = "1";
  module_name = "m";
  factory = "f";
  specification = "s";
  description = "d";
  swap_policy = "hot";
}

abbrev contribution : PluginContribution
contribution = record {
  contribution_id = "c";
  target = "server";
  descriptor = descriptor;
  tool_exports = [];
}

abbrev sound : PluginPackage
sound = record { package_id = "p"; version = "1"; contributions = contribution ∷ [] }

abbrev repeated : PluginPackage
repeated = record {
  package_id = "q";
  version = "1";
  contributions = contribution ∷ contribution ∷ [];
}

abbrev entry : PluginPackage → EntryPoint
entry p = record { name = "e"; value = "m:f"; load = ok (factory (ok (a_package p))) }

abbrev entries : List EntryPoint
entries =
    entry sound ∷ record { name = "x"; value = "m:x"; load = ok no_callable } ∷ entry repeated ∷ []

abbrev result : DiscoveryResult
result = scan_entries entries

scan_tests :
    (result.packages ≡ sound ∷ [])
    × (length result.failures ≡ 2)
    × (scan (entry sound ∷ entry sound ∷ []) ≡ err discovery)
    × (discover entries ≡ err discovery)
    × (discover (entry sound ∷ []) ≡ ok (sound ∷ []))
unfolding scan discover load_package validate_package validate_descriptor is_blank
scan_tests = (refl, refl, refl, refl, refl)

scan-IsSound_example :
    All IsSound result.packages
    × NoRepeat (map (λ p. p.package_id) result.packages)
    × (length result.packages + length result.failures ≡ 3)
unfolding scan load_package validate_package validate_descriptor is_blank
scan-IsSound_example = scan-IsSound entries result refl

abbrev metadata : PluginMetadata
metadata = record {
  name = "log";
  version = "1";
  factory_name = "f";
  specification = "s";
  description = "d";
  swap_policy = "hot";
  module_name = none;
}

abbrev plugin_class : ClassEntry
plugin_class = record {
  name = "e";
  load = ok (a_class (record { module_name = "m"; metadata = some metadata }));
}

abbrev class_entries : List ClassEntry
class_entries =
    plugin_class
    ∷ record { name = "x"; load = ok neither }
    ∷ record { name = "y"; load = err component_error }
    ∷ plugin_class
    ∷ []

descriptor_discovery_tests :
    (lookup ("m", "f") (descriptor_discovery class_entries).0 ≡ some descriptor)
    × (length (descriptor_discovery class_entries).1 ≡ 3)
unfolding descriptor_discovery read_entry validate_descriptor is_blank
descriptor_discovery_tests = (refl, refl)

descriptor_discovery-first_example :
    (lookup ("m", "f") (descriptor_discovery class_entries).0 ≡ first_read ("m", "f") class_entries)
    × ((d : PluginDescriptor)
        → first_read ("m", "f") class_entries ≡ some d
        → (validate_descriptor d ≡ ok tt) × (key_of d ≡ ("m", "f")))
    × (length (descriptor_discovery class_entries).0 + length (descriptor_discovery class_entries).1
        ≡ 4)
descriptor_discovery-first_example = descriptor_discovery-first class_entries ("m", "f")
