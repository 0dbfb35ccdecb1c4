-- ===== src/Plugin/Manager/Provenance.antt =====
-- The calls of `PluginManager` in src/langharness_plugin/plugin_manager.py that leave the
-- registrations, `_provenance`, as they are.
use langharness.Prelude.{
  ℕ, String, Bool, ◌≡◌, refl, Option, none, some, Result, ok, err, pure, raise, lift, gets,
  raise_if, ◌>>=◌, if◌then◌else◌, ◌==◌, string_eq, pair_eq, plugin_already_installed,
  plugin_not_found, instance_not_found, key_error, plugin_identity_conflict,
}
use langharness.Prelude.Dict.{Dict, lookup}
use langharness.Prelude.Int.{ℤ}
use langharness.Prelude.Json.{Fields}
use langharness.Plugin.Manager.Frame.{
  Still, bind-Still, error-Still, branch-Still, found-Still, Answers, bind-Answers, found-Answers,
}
use langharness.Plugin.Registry.{PluginDescriptor, validate_descriptor}
use langharness.Plugin.State.{PersistedPluginRegistration}
use langharness.Scope.Tree.Reads.{require}
use langharness.Plugin.Manager.{
  PluginInstanceSnapshot, RuntimeStateStore, Framework, Manager, on_error, on_components,
  require_started, snapshot_of, stored_version, persist_state, put_instance, drop_instance,
  remove_found, remove_instance_record, rollback_definition, is_foreign, register_descriptor,
  enter_definition, install_new, install_found, install_definition, new_instance, enter_instance,
  start_instance, create_instance, start_again, revive, put_back, delete_found, delete_instance,
  key_of_instance,
}

module _ (R : RuntimeStateStore) (F : Framework) where
  abbrev view : Manager R F → Dict String PersistedPluginRegistration
  view m = m.provenance

  pub persist-Still : Still view (persist_state R F)
  unfolding persist_state
  persist-Still = record { still = λ m. go m m.state_store }
    where
      stored :
          (m : Manager R F) (p : Result ℕ × R.State)
          → (stored_version R F m p).1.provenance ≡ m.provenance
      stored m (ok v, st) = refl
      stored m (err e, st) = refl

      go :
          (m : Manager R F) (o : Option R.State)
          → (elim o as (λ _. Result (Unit {0}) × Manager R F) [
            | none ↦ (ok tt, m)
            | some st ↦ stored_version R F m (R.save (snapshot_of R F m) m.state_version st)
          ]).1.provenance
            ≡ m.provenance
      go m none = refl
      go m (some st) = stored m (R.save (snapshot_of R F m) m.state_version st)

  enter_instance-Still :
      (s : PluginInstanceSnapshot) (user : Fields) → Still view (enter_instance R F s user)
  unfolding enter_instance
  enter_instance-Still s user =
      bind-Still view (put_instance R F s user) _ (record { still = λ m. refl })
        (λ _.
          bind-Still view
            (on_error (persist_state R F) (
              (if s.enabled then on_components R F (F.kill s.instance_id) else pure tt) >>= λ _.
              drop_instance R F s.instance_id))
            (λ _. pure s)
            (error-Still view (persist_state R F)
              ((if s.enabled then on_components R F (F.kill s.instance_id) else pure tt) >>= λ _.
                drop_instance R F s.instance_id)
              persist-Still
              (bind-Still view
                (if s.enabled then on_components R F (F.kill s.instance_id) else pure tt)
                (λ _. drop_instance R F s.instance_id)
                (branch-Still view s.enabled (on_components R F (F.kill s.instance_id)) (pure tt)
                  (record { still = λ m. refl }) (record { still = λ m. refl }))
                (λ _. record { still = λ m. refl })))
            (λ _. record { still = λ m. refl }))

  start_instance-Still :
      (effective : PluginDescriptor → Result Fields) (uuid factory module_name scope_id : String)
      (user : Fields) (enabled : Bool) (ranking : ℤ) (definition : PluginDescriptor)
      → Still view (
          start_instance R F effective uuid factory module_name scope_id user enabled ranking
            definition)
  unfolding start_instance
  start_instance-Still effective uuid factory module_name scope_id user enabled ranking definition =
      bind-Still view (λ m. lift (effective definition) m) _ (record { still = λ m. refl })
        (λ properties.
          bind-Still view
            (if enabled
              then on_components R F (F.instantiate definition uuid properties)
              else pure tt)
            _
            (branch-Still view enabled
              (on_components R F (F.instantiate definition uuid properties)) (pure tt)
              (record { still = λ m. refl }) (record { still = λ m. refl }))
            (λ _.
              enter_instance-Still
                (new_instance R F uuid factory module_name scope_id properties enabled ranking)
                user))

  pub create_instance-Still :
      (effective : PluginDescriptor → Result Fields) (uuid factory module_name scope_id : String)
      (user : Fields) (enabled : Bool) (ranking : ℤ)
      → Still view
          (create_instance R F effective uuid factory module_name scope_id user enabled ranking)
  unfolding create_instance
  create_instance-Still effective uuid factory module_name scope_id user enabled ranking =
      bind-Still view (require_started R F) _ (record { still = λ m. refl })
        (λ _.
          bind-Still view (λ m. lift (require m.scopes scope_id) m) _ (record { still = λ m. refl })
            (λ _.
              found-Still view (λ m. lookup (module_name, factory) m.plugins) plugin_not_found
                (start_instance R F effective uuid factory module_name scope_id user enabled
                  ranking)
                (start_instance-Still effective uuid factory module_name scope_id user enabled
                  ranking)))

  install_new-Still :
      (d : PluginDescriptor) (source : String) → Still view (install_new R F d source)
  unfolding install_new register_descriptor rollback_definition
  install_new-Still d source =
      bind-Still view (gets (λ m. lookup d.factory m.registry.descriptors)) _
        (record { still = λ m. refl })
        (λ old.
          bind-Still view (raise_if (is_foreign R F d old) plugin_identity_conflict) _
            (record { still = λ m. refl })
            (λ _.
              bind-Still view (on_components R F (F.install_bundle d.module_name)) _
                (record { still = λ m. refl })
                (λ _.
                  bind-Still view (register_descriptor R F d) _ (record { still = λ m. refl })
                    (λ _.
                      bind-Still view (enter_definition R F d source) _
                        (record { still = λ m. refl })
                        (λ _.
                          bind-Still view
                            (on_error (persist_state R F)
                              (rollback_definition R F (d.module_name, d.factory)))
                            (λ _. pure d)
                            (error-Still view (persist_state R F)
                              (rollback_definition R F (d.module_name, d.factory)) persist-Still
                              (record { still = λ m. refl }))
                            (λ _. record { still = λ m. refl }))))))

  pub install_definition-Still :
      (is_same : PluginDescriptor → PluginDescriptor → Bool) (d : PluginDescriptor)
      (source : String)
      → Still view (install_definition R F is_same d source)
  unfolding install_definition
  install_definition-Still is_same d source =
      bind-Still view (λ m. lift (validate_descriptor d) m) _ (record { still = λ m. refl })
        (λ _.
          bind-Still view (gets (λ m. lookup (d.module_name, d.factory) m.plugins)) _
            (record { still = λ m. refl }) found)
    where
      found : (o : Option PluginDescriptor) → Still view (install_found R F is_same d source o)
      found none = install_new-Still d source
      found (some old) =
          branch-Still view (is_same old d) (pure old) (raise plugin_already_installed)
            (record { still = λ m. refl }) (record { still = λ m. refl })

  remove_instance_record-Still : (k : String) → Still view (remove_instance_record R F k)
  unfolding remove_instance_record
  remove_instance_record-Still k =
      bind-Still view (gets (λ m. lookup k m.instances)) (remove_found R F k)
        (record { still = λ m. refl }) found
    where
      found : (o : Option PluginInstanceSnapshot) → Still view (remove_found R F k o)
      found none = record { still = λ m. refl }
      found (some s) =
          bind-Still view (if s.status == "active" then on_components R F (F.kill k) else pure tt)
            (λ _. drop_instance R F k)
            (branch-Still view (s.status == "active") (on_components R F (F.kill k)) (pure tt)
              (record { still = λ m. refl }) (record { still = λ m. refl }))
            (λ _. record { still = λ m. refl })

  put_back-Still : (s : PluginInstanceSnapshot) → Still view (put_back R F s)
  unfolding put_back
  put_back-Still s =
      bind-Still view (if s.status == "active" then revive R F s else pure tt)
        (λ _. put_instance R F s s.properties)
        (branch-Still view (s.status == "active") (revive R F s) (pure tt)
          (found-Still view (λ m. lookup (key_of_instance s) m.plugins) key_error
            (start_again R F s) (λ d. record { still = λ m. refl }))
          (record { still = λ m. refl }))
        (λ _. record { still = λ m. refl })

  pub delete_instance-Still : (k : String) → Still view (delete_instance R F k)
  unfolding delete_instance delete_found
  delete_instance-Still k =
      bind-Still view (require_started R F) _ (record { still = λ m. refl })
        (λ _.
          found-Still view (λ m. lookup k m.instances) instance_not_found (delete_found R F k)
            (λ s.
              bind-Still view (remove_instance_record R F k)
                (λ _. on_error (persist_state R F) (put_back R F s))
                (remove_instance_record-Still k)
                (λ _.
                  error-Still view (persist_state R F) (put_back R F s) persist-Still
                    (put_back-Still s))))

  -- A created instance has the identifier that it was given.
  abbrev pub HasId : String → PluginInstanceSnapshot → Type 0
  HasId uuid s = s.instance_id ≡ uuid

  pub create_instance-HasId :
      (effective : PluginDescriptor → Result Fields) (uuid factory module_name scope_id : String)
      (user : Fields) (enabled : Bool) (ranking : ℤ)
      → Answers
          (HasId uuid)
          (create_instance R F effective uuid factory module_name scope_id user enabled ranking)
  unfolding create_instance start_instance enter_instance
  create_instance-HasId effective uuid factory module_name scope_id user enabled ranking =
      let P = HasId uuid in
      bind-Answers P (require_started R F) _ (λ _.
        bind-Answers P (λ m. lift (require m.scopes scope_id) m) _
          (λ _.
            found-Answers P (λ m. lookup (module_name, factory) m.plugins) plugin_not_found
              (start_instance R F effective uuid factory module_name scope_id user enabled ranking)
              (λ definition.
                bind-Answers P (λ m. lift (effective definition) m) _
                  (λ properties.
                    let s =
                      new_instance R F uuid factory module_name scope_id properties enabled
                        ranking in
                    bind-Answers P
                      (if enabled
                        then on_components R F (F.instantiate definition uuid properties)
                        else pure tt)
                      (λ _. enter_instance R F s user)
                      (λ _. bind-Answers P (put_instance R F s user) _ (λ _.
                        bind-Answers P
                          (on_error (persist_state R F) (
                            (if s.enabled
                              then on_components R F (F.kill s.instance_id)
                              else pure tt)
                            >>= λ _. drop_instance R F s.instance_id))
                          (λ _. pure s) (λ _. record { answers = λ m. refl })))))))
