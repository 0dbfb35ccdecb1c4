-- ===== src/Plugin/Tests.antt =====
-- The theorems on src/langharness_plugin/ at concrete values.
use langharness.Prelude.{◌≡◌, refl, List, [], ◌∷◌, some, ok, string_eq, nat_eq, arith}
use langharness.Prelude.Json.{text, obj, Fields, end, field}
use langharness.Plugin.Config.Secrets.{Plugins}
use langharness.Plugin.Config.Store.{
  stored, missing, PluginConfigStore, init_entry, init_payload, load, version, config_of, write,
}
use langharness.Plugin.Config.Store.Versions.{IsHistory}
use langharness.Plugin.Config.Store.Run.{
  Request, set_plugins, roll_back, run, run-version, run-load,
}

abbrev entry : Fields
entry =
    field "properties" (obj (field "model" (text "m") (field "openai.api_key" (text "k") end))) end

abbrev new_plugins : Plugins
new_plugins = ("model", entry) ∷ []

abbrev fresh : PluginConfigStore
fresh = record { file = stored (init_payload "cli" "now"); payload = init_payload "cli" "now" }

fresh-IsHistory : IsHistory fresh
fresh-IsHistory = (omega arith, tt)

fresh_version : version 1 fresh ≡ ok (init_entry "now")
unfolding version
fresh_version = refl

fresh_config : config_of 1 fresh ≡ ok (some [])
unfolding config_of
fresh_config = refl

abbrev requests : List Request
requests =
    set_plugins new_plugins "me" "set" "later"
    ∷ roll_back 9 "me" "later"
    ∷ roll_back 1 "me" "later"
    ∷ []

run-version_example :
    (version 1 (run requests fresh) ≡ ok (init_entry "now")) × IsHistory (run requests fresh)
run-version_example = run-version requests 1 (init_entry "now") fresh fresh-IsHistory fresh_version

fresh_loaded : load "cli" "now" missing ≡ ok fresh
unfolding load write
fresh_loaded = refl

run-load_example : load "cli" "later" ((run requests fresh).file) ≡ ok (run requests fresh)
run-load_example = run-load "cli" "now" "later" missing fresh requests fresh_loaded
