-- ===== src/Plugin/Manager/Definitions.antt =====
-- Installing and uninstalling definitions in `PluginManager` of
-- src/langharness_plugin/plugin_manager.py, and any sequence of its calls.
use langharness.Prelude.{
  String, Bool, true, false, ◌≡◌, refl, List, [], ◌∷◌, Option, none, some, Result, pure, raise,
  lift, gets, modify, raise_if, or_raise, ◌>>=◌, inl, inr, Bool-cases, arith, ◌==◌, pair_eq,
  string_eq, pair_beq_iff, filter, is_nonempty, plugin_identity_conflict, plugin_already_installed,
  key_error, plugin_has_instances,
}
use langharness.Prelude.Dict.{Dict, lookup, has, insert, values, lookup-insert}
use langharness.Prelude.Int.{ℤ}
use langharness.Prelude.Json.{Fields}
use langharness.Plugin.Registry.{PluginDescriptor, validate_descriptor, remove_descriptor}
use langharness.Plugin.Manager.{
  Key, PluginInstanceSnapshot, RuntimeStateStore, Framework, Manager, on_components, on_error,
  persist_state, key_of_instance, instances_of, create_instance, delete_instance, uninstall_plugin,
  is_foreign, register_descriptor, enter_definition, install_found, drop_definition,
  uninstall_unused, install_definition, install_new, rollback_definition, definition_key,
  require_started,
}
use langharness.Plugin.Manager.Keeps.{
  Holds, look-Keeps, bind-Keeps, guard-Keeps, found-Keeps, error-Keeps, branch-Keeps, persist-Keeps,
  Keeps,
}
use mathlib.Core.Path.{subst}
use langharness.Plugin.Manager.Discovered.{install_plugin, select_discovered}
use langharness.Plugin.Manager.Update.{update_instance, update_instance-Keeps}
use langharness.Plugin.Manager.Apply.{Override, apply_config, apply_config-Keeps}
use langharness.Plugin.Manager.Ensure.{ensure_instance, ensure_instance-Keeps}
use langharness.Plugin.Manager.Installed.{
  IsInstalled, erase_unused, create_instance-Keeps, delete_instance-Keeps,
}

insert_definition :
    (key : Key) (d : PluginDescriptor) (plugins : Dict Key PluginDescriptor)
    (instances : Dict String PluginInstanceSnapshot)
    → IsInstalled plugins instances
    → IsInstalled (insert key d plugins) instances
insert_definition key d plugins [] h = tt
insert_definition key d plugins ((j, t) ∷ is) h = (
  ground (arith, lookup-insert key (key_of_instance t) d plugins),
  insert_definition key d plugins is h.1,
)

-- A definition that is not installed has no instance.
missing_unused :
    (key : Key) (plugins : Dict Key PluginDescriptor)
    (instances : Dict String PluginInstanceSnapshot)
    → lookup key plugins ≡ none
    → IsInstalled plugins instances
    → is_nonempty (filter (λ s. key_of_instance s == key) (values instances)) ≡ false
missing_unused key plugins [] missing h = refl
missing_unused key plugins ((j, t) ∷ is) missing h = elim (Bool-cases (key_of_instance t == key)) [
  | inl same ↦
      let at : key_of_instance t ≡ key = (pair_beq_iff (key_of_instance t) key).0 same in
      let known : has key plugins ≡ true = subst (λ k. has k plugins ≡ true) at h.0 in
      absurd (ground arith)
  | inr other ↦ ground (arith, missing_unused key plugins is missing h.1)
]

module _ (R : RuntimeStateStore) (F : Framework) where
  -- No instance belongs to the definition.
  abbrev Unused : Key → Dict Key PluginDescriptor → Dict String PluginInstanceSnapshot → Type 0
  Unused key plugins instances =
      IsInstalled plugins instances
      × (is_nonempty (filter (λ s. key_of_instance s == key) (values instances)) ≡ false)

  uninstall-Keeps-Unused :
      (factory : String) (key : Key) → Keeps R F (Unused key) (uninstall_unused R F factory key)
  unfolding uninstall_unused
  uninstall-Keeps-Unused factory key =
      let P = Unused key in
      bind-Keeps R F P
        (modify (λ m. record m { registry = (remove_descriptor factory m.registry).1 })) _
        (record { kept = λ m h. h })
        (λ _.
          bind-Keeps R F P
            (gets (λ m. lookup key m.plugins) >>= λ old.
              or_raise old key_error >>= drop_definition R F key)
            (λ _. persist_state R F)
            (found-Keeps R F P (λ m. lookup key m.plugins) key_error (drop_definition R F key)
              (λ d m q h. (erase_unused key m.plugins m.instances h.1 h.0, h.1)))
            (λ _. persist-Keeps R F P))

  pub uninstall_plugin-Keeps :
      (factory : String) (wanted : Option String)
      → Keeps R F IsInstalled (uninstall_plugin R F factory wanted)
  unfolding uninstall_plugin
  uninstall_plugin-Keeps factory wanted =
      bind-Keeps R F IsInstalled (require_started R F) _ (record { kept = λ m h. h })
        (λ _.
          bind-Keeps R F IsInstalled (λ m. lift (definition_key R F factory wanted m) m) _
            (record { kept = λ m h. h })
            (λ key.
              guard-Keeps R F IsInstalled (instances_of R F key) is_nonempty plugin_has_instances
                (uninstall_unused R F factory key)
                (λ m unused h.
                  let after = (uninstall-Keeps-Unused factory key).kept m (h, unused) in after.0)))

  install-Keeps-Unused :
      (d : PluginDescriptor) (source : String)
      → Keeps R F (Unused (d.module_name, d.factory)) (install_new R F d source)
  unfolding install_new register_descriptor rollback_definition
  install-Keeps-Unused d source =
      let key : Key = (d.module_name, d.factory) in
      let P = Unused key in
      bind-Keeps R F P (gets (λ m. lookup d.factory m.registry.descriptors)) _
        (record { kept = λ m h. h })
        (λ old.
          bind-Keeps R F P (raise_if (is_foreign R F d old) plugin_identity_conflict) _
            (record { kept = λ m h. h })
            (λ _.
              bind-Keeps R F P (on_components R F (F.install_bundle d.module_name)) _
                (record { kept = λ m h. h })
                (λ _.
                  bind-Keeps R F P (register_descriptor R F d) _ (record { kept = λ m h. h })
                    (λ _.
                      bind-Keeps R F P (enter_definition R F d source) _
                        (record {
                          kept = λ m h. (insert_definition key d m.plugins m.instances h.0, h.1);
                        })
                        (λ _.
                          bind-Keeps R F P
                            (on_error (persist_state R F) (rollback_definition R F key))
                            (λ _. pure d)
                            (error-Keeps R F P (persist_state R F) (rollback_definition R F key)
                              (persist-Keeps R F P)
                              (record {
                                kept = λ m h. (erase_unused key m.plugins m.instances h.1 h.0, h.1);
                              }))
                            (λ _. record { kept = λ m h. h }))))))

  pub install_definition-Keeps :
      (is_same : PluginDescriptor → PluginDescriptor → Bool) (d : PluginDescriptor)
      (source : String)
      → Keeps R F IsInstalled (install_definition R F is_same d source)
  unfolding install_definition
  install_definition-Keeps is_same d source =
      bind-Keeps R F IsInstalled (λ m. lift (validate_descriptor d) m) _
        (record { kept = λ m h. h })
        (λ _.
          look-Keeps R F IsInstalled (λ m. lookup (d.module_name, d.factory) m.plugins)
            (install_found R F is_same d source)
            (λ m h. found m h (lookup (d.module_name, d.factory) m.plugins) refl))
    where
      found :
          (m : Manager R F)
          → IsInstalled m.plugins m.instances
          → (o : Option PluginDescriptor) → lookup (d.module_name, d.factory) m.plugins ≡ o
          → Holds R F IsInstalled (install_found R F is_same d source o m).1
      found m h none q =
          let after =
            (install-Keeps-Unused d source).kept m
              (h, missing_unused (d.module_name, d.factory) m.plugins m.instances q h) in
          after.0
      found m h (some old) q =
          (branch-Keeps R F IsInstalled (is_same old d) (pure old) (raise plugin_already_installed)
              (record { kept = λ m h. h }) (record { kept = λ m h. h })).kept
            m h

  pub install_plugin-Keeps :
      (is_same : PluginDescriptor → PluginDescriptor → Bool) (factory : String)
      (wanted : Option String)
      → Keeps R F IsInstalled (install_plugin R F is_same factory wanted)
  unfolding install_plugin
  install_plugin-Keeps is_same factory wanted =
      bind-Keeps R F IsInstalled (require_started R F) _ (record { kept = λ m h. h })
        (λ _.
          bind-Keeps R F IsInstalled (λ m. lift (select_discovered R F factory wanted m) m)
            (λ d. install_definition R F is_same d "discovered") (record { kept = λ m h. h })
            (λ d. install_definition-Keeps is_same d "discovered"))

  pub data Request : Type 0 where
    install_request :
        (PluginDescriptor → PluginDescriptor → Bool) → PluginDescriptor → String → Request
    uninstall_request : String → Option String → Request
    create_request :
        (PluginDescriptor → Result Fields)
        → String
        → String
        → String
        → String
        → Fields
        → Bool
        → ℤ
        → Request
    delete_request : String → Request
    update_request :
        (PluginDescriptor → String → Fields → ℤ → Result Fields)
        → (Fields → Fields → Bool)
        → String
        → Option Fields
        → Option Bool
        → Option ℤ
        → Request
    install_plugin_request :
        (PluginDescriptor → PluginDescriptor → Bool) → String → Option String → Request
    ensure_request :
        (PluginDescriptor → String → Fields → ℤ → Result Fields)
        → (Fields → Fields → Bool)
        → String
        → String
        → String
        → Option String
        → Option Fields
        → Bool
        → Request
    apply_request :
        (PluginDescriptor → String → Fields → ℤ → Result Fields)
        → (Fields → Fields → Bool)
        → Dict String Override
        → Request

  abbrev pub step : Request → Manager R F → Manager R F
  step (install_request is_same d source) m = (install_definition R F is_same d source m).1
  step (uninstall_request factory wanted) m = (uninstall_plugin R F factory wanted m).1
  step (create_request effective uuid factory module_name scope_id user enabled ranking) m =
      (create_instance R F effective uuid factory module_name scope_id user enabled ranking m).1
  step (delete_request k) m = (delete_instance R F k m).1
  step (update_request effective same k properties enabled ranking) m =
      (update_instance R F effective same k properties enabled ranking m).1
  step (install_plugin_request is_same factory wanted) m =
      (install_plugin R F is_same factory wanted m).1
  step (ensure_request effective same uuid factory module_name wanted properties enabled) m =
      (ensure_instance R F effective same uuid factory module_name wanted properties enabled m).1
  step (apply_request effective same overrides) m = (apply_config R F effective same overrides m).1

  abbrev pub run : List Request → Manager R F → Manager R F
  run [] m = m
  run (q ∷ qs) m = run qs (step q m)

  step-IsInstalled :
      (q : Request) (m : Manager R F)
      → IsInstalled m.plugins m.instances
      → IsInstalled (step q m).plugins (step q m).instances
  step-IsInstalled (install_request is_same d source) m h =
      (install_definition-Keeps is_same d source).kept m h
  step-IsInstalled (uninstall_request factory wanted) m h =
      (uninstall_plugin-Keeps factory wanted).kept m h
  step-IsInstalled (create_request effective uuid factory module_name scope_id user enabled ranking)
        m h =
      (create_instance-Keeps R F effective uuid factory module_name scope_id user enabled
          ranking).kept
        m h
  step-IsInstalled (delete_request k) m h = (delete_instance-Keeps R F k).kept m h
  step-IsInstalled (update_request effective same k properties enabled ranking) m h =
      (update_instance-Keeps R F effective same properties enabled ranking k).kept m h
  step-IsInstalled (install_plugin_request is_same factory wanted) m h =
      (install_plugin-Keeps is_same factory wanted).kept m h
  step-IsInstalled
        (ensure_request effective same uuid factory module_name wanted properties enabled) m h =
      (ensure_instance-Keeps R F effective same uuid factory module_name wanted properties
          enabled).kept
        m h
  step-IsInstalled (apply_request effective same overrides) m h =
      (apply_config-Keeps R F effective same overrides).kept m h

  -- From a manager whose instances all belong to installed definitions, whatever calls install
  -- and uninstall definitions, create, ensure, change and delete instances or apply a configuration, and whichever of them
  -- raise, of their own, in the framework or in the state store: every instance belongs to a
  -- definition that is installed.
  pub run-IsInstalled :
      (qs : List Request) (m : Manager R F)
      → IsInstalled m.plugins m.instances
      → IsInstalled (run qs m).plugins (run qs m).instances
  run-IsInstalled [] m h = h
  run-IsInstalled (q ∷ qs) m h = run-IsInstalled qs (step q m) (step-IsInstalled q m h)
