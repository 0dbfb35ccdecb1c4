-- ===== src/Plugin/Discovery.antt =====
-- src/langharness_plugin/discovery.py over src/langharness_plugin/package.py: the scan of entry
-- points for packages and for plugin classes. What an entry point loads is part of it. Of a
-- failure its exception is kept, of a warning its kind.
use langharness.Prelude.{
  ℕ, String, Bool, true, false, not, ◌&&◌, ◌||◌, List, [], ◌∷◌, ◌++◌, map, Option, none, some,
  Result, ok, err, bind, Error, discovery, ◌==◌, string_eq, pair_eq, if◌then◌else◌, contains,
  is_nonempty,
}
use langharness.Prelude.Dict.{Dict, lookup, has, insert}
use langharness.Prelude.Text.{is_blank}
use langharness.Plugin.Registry.{PluginDescriptor, validate_descriptor}
pub mod Packages
pub mod Classes

pub record ToolExport : Type 0 where
  pub name : String
  pub method : String
  pub target_scope : String

pub record PluginContribution : Type 0 where
  pub contribution_id : String
  pub target : String
  pub descriptor : PluginDescriptor
  pub tool_exports : List ToolExport

pub record PluginPackage : Type 0 where
  pub package_id : String
  pub version : String
  pub contributions : List PluginContribution

abbrev pub valid_targets : List String
valid_targets = "root" ∷ "ui" ∷ "server" ∷ "agent" ∷ "agent_instance" ∷ []

abbrev pub tool_export_target : String
tool_export_target = "plugin.tool_export.target"

-- `contribution.tool_exports and descriptor.specification != SPEC_TOOL_EXPORT_TARGET`
abbrev pub exports_wrongly : PluginContribution → Bool
exports_wrongly c =
    is_nonempty c.tool_exports && not (c.descriptor.specification == tool_export_target)

-- The checks of one contribution, after those with these ids.
abbrev pub validate_contribution : List String → PluginContribution → Result (Unit {0})
validate_contribution known c =
    if contains c.contribution_id known
    then err discovery
    else (if not (contains c.target valid_targets)
        then err discovery
        else bind (validate_descriptor c.descriptor)
            λ _. if exports_wrongly c then err discovery else ok tt)

abbrev pub validate_contributions : List String → List PluginContribution → Result (Unit {0})
validate_contributions known [] = ok tt
validate_contributions known (c ∷ cs) =
    bind (validate_contribution known c) λ _. validate_contributions (c.contribution_id ∷ known) cs

-- `_validate_package` on a package.
unfoldable pub validate_package : PluginPackage → Result (Unit {0})
unfolding is_blank validate_descriptor
validate_package p =
    if is_blank p.package_id || is_blank p.version
    then err discovery
    else validate_contributions [] p.contributions

-- What a call of the loaded factory answers.
pub data Loaded : Type 0 where
  a_package : PluginPackage → Loaded
  other_value : Loaded

-- What an entry point loads: no callable, or a factory with the outcome of its call.
pub data Factory : Type 0 where
  no_callable : Factory
  factory : Result Loaded → Factory

pub record EntryPoint : Type 0 where
  pub name : String
  pub value : String
  pub load : Result Factory

pub record DiscoveryFailure : Type 0 where
  pub entry_point : String
  pub value : String
  pub error : Error

abbrev pub check_loaded : Loaded → Result PluginPackage
check_loaded other_value = err discovery
check_loaded (a_package p) = bind (validate_package p) λ _. ok p

abbrev pub call_factory : Factory → Result PluginPackage
call_factory no_callable = err discovery
call_factory (factory outcome) = bind outcome check_loaded

-- The body of the `try` of `scan`.
unfoldable pub load_package : EntryPoint → Result PluginPackage
unfolding validate_package
load_package e = bind e.load call_factory

abbrev pub failure : EntryPoint → Error → DiscoveryFailure
failure e error = record { entry_point = e.name; value = e.value; error = error }

pub record DiscoveryResult : Type 0 where
  pub packages : List PluginPackage
  pub failures : List DiscoveryFailure

abbrev pub add_outcome : EntryPoint → Result PluginPackage → DiscoveryResult → DiscoveryResult
add_outcome e (ok p) r = record r { packages = p ∷ r.packages }
add_outcome e (err error) r = record r { failures = failure e error ∷ r.failures }

-- The loop of `scan`.
abbrev pub scan_entries : List EntryPoint → DiscoveryResult
scan_entries [] = record { packages = []; failures = [] }
scan_entries (e ∷ es) = add_outcome e (load_package e) (scan_entries es)

-- `_validate_catalog`
abbrev pub validate_catalog : List String → List PluginPackage → Result (Unit {0})
validate_catalog known [] = ok tt
validate_catalog known (p ∷ ps) =
    if contains p.package_id known
    then err discovery
    else validate_catalog (p.package_id ∷ known) ps

unfoldable pub scan : List EntryPoint → Result DiscoveryResult
unfolding load_package
scan entries =
    let found = scan_entries entries in bind (validate_catalog [] found.packages) λ _. ok found

unfoldable pub discover : List EntryPoint → Result (List PluginPackage)
unfolding scan
discover entries =
    bind (scan entries) λ r. if is_nonempty r.failures then err discovery else ok r.packages

pub record PluginMetadata : Type 0 where
  pub name : String
  pub version : String
  pub factory_name : String
  pub specification : String
  pub description : String
  pub swap_policy : String
  pub module_name : Option String

-- A class with its `__module__` and its `__plugin_metadata__`, if that is one.
pub record PluginClass : Type 0 where
  pub module_name : String
  pub metadata : Option PluginMetadata

-- What an entry point of a class loads: a class, a callable with the outcome of its call, where
-- `none` is no class, or neither.
pub data ClassSource : Type 0 where
  a_class : PluginClass → ClassSource
  a_callable : Result (Option PluginClass) → ClassSource
  neither : ClassSource

pub record ClassEntry : Type 0 where
  pub name : String
  pub load : Result ClassSource

pub data Warning : Type 0 where
  not_a_class missing_metadata other_module duplicate_key : Warning
  raised : Error → Warning

abbrev pub class_of : ClassSource → Result (Option PluginClass)
class_of (a_class c) = ok (some c)
class_of (a_callable outcome) = outcome
class_of neither = ok none

abbrev pub is_elsewhere : Option String → String → Bool
is_elsewhere none name = false
is_elsewhere (some wanted) name = not (wanted == name)

abbrev pub descriptor_of : String → PluginMetadata → PluginDescriptor
descriptor_of module_name m = record {
  name = m.name;
  version = m.version;
  module_name = module_name;
  factory = m.factory_name;
  specification = m.specification;
  description = m.description;
  swap_policy = m.swap_policy;
}

-- A descriptor that was read, or the warning in its place.
pub data Reading : Type 0 where
  warned : Warning → Reading
  read : PluginDescriptor → Reading

abbrev pub checked : PluginDescriptor → Result (Unit {0}) → Reading
checked d (ok _) = read d
checked d (err e) = warned (raised e)

abbrev pub read_metadata : String → Option PluginMetadata → Reading
read_metadata name none = warned missing_metadata
read_metadata name (some m) =
    if is_elsewhere m.module_name name
    then warned other_module
    else checked (descriptor_of name m) (validate_descriptor (descriptor_of name m))

abbrev pub read_class : Result (Option PluginClass) → Reading
read_class (err e) = warned (raised e)
read_class (ok none) = warned not_a_class
read_class (ok (some c)) = read_metadata c.module_name c.metadata

unfoldable pub read_entry : ClassEntry → Reading
unfolding validate_descriptor
read_entry e = read_class (bind e.load class_of)

abbrev pub Descriptors : Type 0
Descriptors = Dict (String × String) PluginDescriptor

abbrev pub key_of : PluginDescriptor → String × String
key_of d = (d.module_name, d.factory)

abbrev pub enter_found :
    String
    → PluginDescriptor
    → Descriptors
    → Option PluginDescriptor
    → Descriptors × List (String × Warning)
enter_found name d ds none = (insert (key_of d) d ds, [])
enter_found name d ds (some first) = (ds, (name, duplicate_key) ∷ [])

-- One entry point, with the descriptors so far.
abbrev pub enter : String → Reading → Descriptors → Descriptors × List (String × Warning)
enter name (warned w) ds = (ds, (name, w) ∷ [])
enter name (read d) ds = enter_found name d ds (lookup (key_of d) ds)

abbrev pub read_entries : List ClassEntry → Descriptors → Descriptors × List (String × Warning)
read_entries [] ds = (ds, [])
read_entries (e ∷ es) ds =
    let (ds', here) = enter e.name (read_entry e) ds in
    let (last, later) = read_entries es ds' in (last, here ++ later)

unfoldable pub descriptor_discovery : List ClassEntry → Descriptors × List (String × Warning)
unfolding read_entry
descriptor_discovery entries = read_entries entries []
