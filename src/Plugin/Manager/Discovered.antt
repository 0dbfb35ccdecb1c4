-- ===== src/Plugin/Manager/Discovered.antt =====
-- `install_plugin` of src/langharness_plugin/plugin_manager.py: the choice among the discovered
-- descriptors.
use langharness.Prelude.{
  String, Bool, List, [], ◌∷◌, Option, none, some, Result, ok, err, Error, plugin_not_found,
  plugin_identity_conflict, Action, lift, ◌>>=◌, ◌>>◌, ◌==◌, string_eq, filter,
}
use langharness.Prelude.Dict.{values}
use langharness.Plugin.Registry.{PluginDescriptor}
use langharness.Plugin.Manager.{
  RuntimeStateStore, Framework, Manager, require_started, install_definition,
}

-- The one match, or the error for none and for several.
abbrev pub sole_match : Error → List PluginDescriptor → Result PluginDescriptor
sole_match e [] = err e
sole_match e (d ∷ []) = ok d
sole_match e (d ∷ d' ∷ ds) = err plugin_identity_conflict

abbrev pub in_module : Option String → List PluginDescriptor → Result PluginDescriptor
in_module none ds = sole_match plugin_not_found ds
in_module (some name) [] = err plugin_not_found
in_module (some name) (d ∷ ds) =
    sole_match plugin_identity_conflict (filter (λ d. d.module_name == name) (d ∷ ds))

module _ (R : RuntimeStateStore) (F : Framework) where
  unfoldable pub select_discovered : String → Option String → Manager R F → Result PluginDescriptor
  select_discovered factory wanted m =
      in_module wanted (filter (λ d. d.factory == factory) (values m.discovered))

  unfoldable pub install_plugin :
      (PluginDescriptor → PluginDescriptor → Bool)
      → String
      → Option String
      → Action (Manager R F) PluginDescriptor
  unfolding select_discovered install_definition
  install_plugin is_same factory wanted = do
    require_started R F
    d ← λ m. lift (select_discovered factory wanted m) m
    install_definition R F is_same d "discovered"
