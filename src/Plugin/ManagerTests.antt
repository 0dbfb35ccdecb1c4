-- ===== src/Plugin/ManagerTests.antt =====
-- The theorems on src/langharness_plugin/plugin_manager.py at concrete managers, with a framework
-- that raises at one module and a store that counts its saves.
use langharness.Prelude.{
  ℕ, Bool, ◌+◌, ◌<◌, ◌≡◌, refl, inl, List, [], ◌∷◌, none, some, String, true, false, ok, err,
  length, string_eq, nat_eq, pair_eq, ◌==◌, if◌then◌else◌, component_error, state_conflict,
}
use langharness.Prelude.Int.{pos}
use langharness.Prelude.Dict.{lookup}
use langharness.Prelude.Json.{end, field, text}
use langharness.Plugin.Registry.{PluginDescriptor, PluginInstanceRecord}
use langharness.Plugin.Manager.{RuntimeStateStore, Framework, Manager}
use langharness.Plugin.Manager.Definitions.{
  Request, install_request, uninstall_request, create_request, delete_request, update_request,
  install_plugin_request, ensure_request, apply_request, run, run-IsInstalled,
}
use langharness.Plugin.Manager.Filters.{merge_filter, both, merge_filter-grows}
use langharness.Plugin.Manager.Installed.{IsInstalled}
use langharness.Plugin.Manager.Revival.{restore_instances}
use langharness.Plugin.Manager.Revival.Stored.{restore_instances-disabled}
use langharness.Scope.Model.{root_scope}

merge_filter-grows_example :
    let scope_filter : List ℕ = b'(' ∷ b'|' ∷ b')' ∷ [] in
    let merged = both scope_filter (b'x' ∷ []) in
    (merge_filter scope_filter (some merged) ≡ both scope_filter merged)
    × (length merged < length (merge_filter scope_filter (some merged)))
merge_filter-grows_example = merge_filter-grows (b')' ∷ []) (b'x' ∷ []) refl

abbrev pub counting_store : RuntimeStateStore
counting_store = record {
  State = ℕ;
  save = λ snapshot expected version.
      if version == expected
      then (ok (version + 1), version + 1)
      else (err state_conflict, version);
}

abbrev pub components : Framework
components = record {
  State = List String;
  install_bundle = λ name c. if name == "broken" then (err component_error, c) else (ok tt, c);
  uninstall_bundle = λ name c. (ok tt, c);
  instantiate = λ d k properties c. (ok tt, k ∷ c);
  kill = λ k c. (ok tt, c);
}

abbrev pub descriptor : PluginDescriptor
descriptor = record {
  name = "log";
  version = "1";
  module_name = "m";
  factory = "f";
  specification = "s";
  description = "d";
  swap_policy = "hot";
}

abbrev pub manager : Manager counting_store components
manager = record {
  started = true;
  registry = record { descriptors = [] };
  scopes = ("root", root_scope) ∷ [];
  discovered = [];
  plugins = [];
  instances = [];
  sources = [];
  provenance = [];
  user_properties = [];
  state_store = some 0;
  state_version = 0;
  components = [];
}

abbrev requests : List (Request counting_store components)
requests =
    install_request (λ a b. false) descriptor "assembly"
    ∷ create_request (λ d. ok end) "u" "f" "m" "root" end true (pos 0)
    ∷ update_request (λ d scope user n. ok user) (λ a b. true) "u" none (some false) none
    ∷ install_plugin_request (λ a b. false) "f" none
    ∷ uninstall_request "f" none
    ∷ ensure_request (λ d scope user n. ok user) (λ a b. true) "v" "f" "m" none none true
    ∷ apply_request (λ d scope user n. ok user) (λ a b. true)
        (("log", record { properties = none; enabled = some false }) ∷ [])
    ∷ delete_request "u"
    ∷ []

run-IsInstalled_example :
    let m = run counting_store components requests manager in IsInstalled m.plugins m.instances
run-IsInstalled_example = run-IsInstalled counting_store components requests manager tt

abbrev pub stored_record : String → String → Bool → PluginInstanceRecord
stored_record instance_id scope_id enabled = record {
  instance_id = instance_id;
  factory = "f";
  module_name = "m";
  scope_id = scope_id;
  properties = field "level" (text "debug") end;
  enabled = enabled;
  ranking = pos 0;
  status = "active";
}

-- A disabled instance, an enabled one, and one in the scope of an agent.
abbrev pub stored_records : List PluginInstanceRecord
stored_records =
    stored_record "off" "root" false
    ∷ stored_record "on" "root" true
    ∷ stored_record "derived" "agent:a" true
    ∷ []

abbrev installed : Manager counting_store components
installed = record manager { plugins = (("m", "f"), descriptor) ∷ [] }

abbrev restored : Manager counting_store components
restored = restore_instances counting_store components (λ user. ok user) stored_records installed

restore_instances-disabled_example : lookup "off" restored.user_properties ≡ none
restore_instances-disabled_example =
    restore_instances-disabled counting_store components (λ user. ok user) stored_records
      (stored_record "off" "root" false) installed (refl, (refl, (refl, tt))) (inl refl) refl refl
