-- ===== src/Plugin/Coordinator/Still.antt =====
-- Which calls of src/langharness_plugin/coordinator.py leave the registrations as they are.
use langharness.Prelude.{
  String, Bool, true, not, List, [], ◌∷◌, Option, ok, runtime_mutation, Action, pure, ◌>>=◌,
  string_eq, ◌≡◌, refl, Bool-cases, inl, inr, is_nonempty,
}
use mathlib.Core.List.{reverse}
use langharness.Prelude.Dict.{Dict, lookup, has, erase}
use langharness.Prelude.Int.{pos}
use langharness.Prelude.Json.{Fields}
use langharness.Plugin.Registry.{PluginDescriptor}
use langharness.Plugin.Discovery.{PluginContribution, ToolExport}
use langharness.Plugin.Manager.{
  RuntimeStateStore, Framework, Manager, require_started, install_definition,
}
use langharness.Plugin.Manager.Frame.{Still, bind-Still, branch-Still, found-Still}
use langharness.Plugin.Manager.Provenance.{
  create_instance-Still, install_definition-Still, delete_instance-Still,
}
use langharness.Plugin.Coordinator.{
  Registration, Surroundings, Coordinator, on_manager, install_unknown, create_next,
  create_adapters, note_adapters, adapt, install_adapters, adapter_descriptor, adapter_factory,
  adapter_module, group_exports, try_delete, delete_each, adapters_or_none, kill_adapters,
}

module _ (R : RuntimeStateStore) (F : Framework) {Service : Type 0} (E : Surroundings Service)
    (find_service : Manager R F → String → String → Option Service) where
  abbrev State : Type 0
  State = Coordinator R F E find_service

  abbrev view : State → Dict String Registration
  view c = c.manager.provenance

  pub on_manager-Still :
      {A : Type 0} (a : Action (Manager R F) A)
      → Still (λ m. m.provenance) a
      → Still view (on_manager R F E find_service a)
  on_manager-Still a h = record { still = λ c. h.still c.manager }

  pub install_unknown-Still :
      (d : PluginDescriptor) → Still (λ m. m.provenance) (install_unknown R F E find_service d)
  install_unknown-Still d = record {
    still = λ m. elim (Bool-cases (has d.factory m.registry.descriptors)) [
      | inl known ↦ rw known refl
      | inr new ↦ rw new (chain.still m)
    ];
  }
    where
      chain :
          Still
            (λ m. m.provenance)
            (require_started R F >>= λ _.
              install_definition R F E.is_same d "assembly" >>= λ _. pure tt)
      chain =
          bind-Still (λ m. m.provenance) (require_started R F)
            (λ _. install_definition R F E.is_same d "assembly" >>= λ _. pure tt)
            (record { still = λ m. refl })
            (λ _.
              bind-Still (λ m. m.provenance) (install_definition R F E.is_same d "assembly")
                (λ _. pure tt) (install_definition-Still R F E.is_same d "assembly")
                (λ _. record { still = λ m. refl }))

  pub create_next-Still :
      (factory module_name scope_id : String) (properties : Fields) (enabled : Bool)
      → Still view (create_next R F E find_service factory module_name scope_id properties enabled)
  create_next-Still factory module_name scope_id properties enabled = record {
    still = λ c.
        (create_instance-Still R F (λ d. E.effective d scope_id properties (pos 0))
            (E.uuid c.next_uuid) factory module_name scope_id properties enabled (pos 0)).still
          c.manager;
  }

  pub create_adapters-Still :
      (target : Service) (groups : Dict String (List ToolExport))
      → Still view (create_adapters R F E find_service target groups)
  create_adapters-Still target [] = record { still = λ c. refl }
  create_adapters-Still target ((scope_id, exports) ∷ groups) =
      bind-Still view
        (create_next R F E find_service adapter_factory adapter_module scope_id
          (E.adapter_properties target exports) true)
        _
        (create_next-Still adapter_factory adapter_module scope_id
          (E.adapter_properties target exports) true)
        (λ s.
          bind-Still view (create_adapters R F E find_service target groups)
            (λ created. pure (s.instance_id ∷ created)) (create_adapters-Still target groups)
            (λ created. record { still = λ c. refl }))

  pub install_adapters-Still :
      (r : Registration) (c : PluginContribution)
      → Still view (install_adapters R F E find_service r c)
  unfolding install_adapters
  install_adapters-Still r c =
      branch-Still view (not (is_nonempty c.tool_exports)) (pure tt) _
        (record { still = λ s. refl })
        (bind-Still view
          (on_manager R F E find_service
            (install_unknown R F E find_service (adapter_descriptor r.package_version)))
          _
          (on_manager-Still
            (install_unknown R F E find_service (adapter_descriptor r.package_version))
            (install_unknown-Still (adapter_descriptor r.package_version)))
          (λ _.
            found-Still view (λ s. find_service s.manager c.descriptor.specification r.scope_id)
              runtime_mutation (adapt R F E find_service r c)
              (λ target.
                bind-Still view
                  (create_adapters R F E find_service target
                    (group_exports r.scope_id c.tool_exports []))
                  (note_adapters R F E find_service r.instance_id)
                  (create_adapters-Still target (group_exports r.scope_id c.tool_exports []))
                  (λ created. record { still = λ s. refl }))))

  pub delete_each-Still : (ks : List String) → Still view (delete_each R F E find_service ks)
  delete_each-Still [] = record { still = λ c. refl }
  delete_each-Still (k ∷ ks) =
      bind-Still view (try_delete R F E find_service k) (λ _. delete_each R F E find_service ks)
        (record { still = λ c. (delete_instance-Still R F k).still c.manager })
        (λ _. delete_each-Still ks)

  pub delete_each_answers :
      (ks : List String) (c : State) → (delete_each R F E find_service ks c).0 ≡ ok tt
  delete_each_answers [] c = refl
  delete_each_answers (k ∷ ks) c = delete_each_answers ks (try_delete R F E find_service k c).1

  pub kill_adapters-Still : (r : Registration) → Still view (kill_adapters R F E find_service r)
  unfolding kill_adapters
  kill_adapters-Still r = record {
    still = λ c.
        (delete_each-Still (
            reverse (
              adapters_or_none R F E find_service
                (lookup r.instance_id c.adapter_instances)))).still
          (record c { adapter_instances = erase r.instance_id c.adapter_instances });
  }

  pub kill_adapters_answers :
      (r : Registration) (c : State) → (kill_adapters R F E find_service r c).0 ≡ ok tt
  unfolding kill_adapters
  kill_adapters_answers r c =
      delete_each_answers
        (reverse (adapters_or_none R F E find_service (lookup r.instance_id c.adapter_instances)))
        (record c { adapter_instances = erase r.instance_id c.adapter_instances })
