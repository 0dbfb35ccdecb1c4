-- ===== src/Plugin/Coordinator/Mutations.antt =====
-- The other changes of src/langharness_plugin/coordinator.py: `rescan`, `set_enabled`,
-- `update_properties`, `upgrade` and `uninstall`.
use mathlib.Core.Path.{sym, ap, ◌∙◌}
use langharness.Prelude.{
  String, Bool, true, false, not, List, [], ◌∷◌, Option, none, some, ok, runtime_error, Action,
  pure, lift, gets, modify, or_raise, ◌>>=◌, ◌==◌, string_eq, if◌then◌else◌, ◌≡◌, find, inl, inr,
}
use langharness.Prelude.Dict.{values, Dict, insert, erase}
use langharness.Prelude.Json.{Fields}
use langharness.Prelude.Order.{text_order, sort_by}
use langharness.Prelude.Text.{codes}
use langharness.Plugin.Discovery.{
  PluginPackage, PluginContribution, EntryPoint, DiscoveryResult, scan,
}
use langharness.Plugin.Manager.{
  PluginInstanceSnapshot, RuntimeStateStore, Framework, Manager, persist_state, delete_instance,
}
use langharness.Plugin.Manager.Frame.{bind_cases, err_ne_ok}
use langharness.Plugin.Manager.Provenance.{persist-Still, delete_instance-Still}
use langharness.Plugin.Manager.Update.{update_instance}
use langharness.Plugin.Manager.Properties.{registrations, attach_provenance, detach_provenance}
use langharness.Plugin.Coordinator.{
  Registration, Surroundings, Coordinator, Catalog, on_manager, create_next, install_adapters,
  kill_adapters, select_registration, registration_for, find_contribution, contribution_properties,
}
use langharness.Plugin.Coordinator.Still.{kill_adapters-Still}

abbrev pub same_flag : Bool → Bool → Bool
same_flag true b = b
same_flag false b = not b

-- `{package.id: package for package in result.packages}`
abbrev pub catalog_of : List PluginPackage → Catalog → Catalog
catalog_of [] catalog = catalog
catalog_of (p ∷ ps) catalog = catalog_of ps (insert p.package_id p catalog)

abbrev discovered : Catalog → List PluginPackage
discovered catalog = values (sort_by text_order (λ e. codes e.0) catalog)

module _ (R : RuntimeStateStore) (F : Framework) {Service : Type 0} (E : Surroundings Service)
    (find_service : Manager R F → String → String → Option Service) where
  abbrev State : Type 0
  State = Coordinator R F E find_service

  unfoldable pub rescan : List EntryPoint → Action State DiscoveryResult
  rescan entries c =
      (lift (scan entries) >>= λ result.
      modify (λ c. record c { catalog = catalog_of result.packages []; failures = result.failures })
      >>= λ _. pure result)
        c

  -- `_registration` on the manager's registrations.
  abbrev pub registration : String → String → Action State Registration
  registration name scope_id c =
      (select_registration c.catalog name scope_id (registrations R F c.manager), c)

  abbrev pub update_registered :
      String → Option Fields → Option Bool → Action State PluginInstanceSnapshot
  update_registered instance_id properties enabled =
      on_manager R F E find_service
        (update_instance R F E.effective E.same_fields instance_id properties enabled none)

  -- The adapters follow the flag.
  abbrev pub switch_adapters : Registration → Bool → Action State (Unit {0})
  switch_adapters r false = kill_adapters R F E find_service r
  switch_adapters r true =
      (λ c. (find_contribution c.catalog r.package_id r.contribution_id, c)) >>= λ found.
      install_adapters R F E find_service r found.1

  abbrev pub enter_registration : Registration → Action State Registration
  enter_registration r = on_manager R F E find_service (attach_provenance R F r) >>= λ _.
      on_manager R F E find_service (persist_state R F) >>= λ _. pure r

  abbrev pub switch_registration : Bool → Registration → Action State Registration
  switch_registration enabled r =
      if same_flag r.enabled enabled
      then pure r
      else update_registered r.instance_id none (some enabled) >>= λ s.
          switch_adapters r enabled >>= λ _. enter_registration (
            registration_for r.package_id r.contribution_id r.package_version s s.scope_id s.enabled
              r.registration_key)

  unfoldable pub set_enabled : String → Bool → String → Action State Registration
  unfolding select_registration install_adapters kill_adapters update_instance persist_state
  set_enabled name enabled scope_id = registration name scope_id >>= switch_registration enabled

  -- `next(item for item in registrations if item.instance == ...)`; `runtime_error` stands for its
  -- `StopIteration`.
  abbrev pub registration_of : String → Action State Registration
  registration_of instance_id =
      gets (λ c. find (λ r. r.instance_id == instance_id) (registrations R F c.manager))
      >>= λ found. or_raise found runtime_error

  unfoldable pub update_properties : String → Fields → String → Action State Registration
  unfolding select_registration update_instance persist_state
  update_properties name properties scope_id = registration name scope_id >>= λ r.
      update_registered r.instance_id (some properties) none >>= λ _.
      on_manager R F E find_service (persist_state R F) >>= λ _. registration_of r.instance_id

  -- The instance of another version in the place of the old one.
  abbrev pub replace_instance :
      Registration → String → PluginContribution → String → Fields → Action State Registration
  replace_instance r version c scope_id properties =
      create_next R F E find_service c.descriptor.factory c.descriptor.module_name scope_id
        properties r.enabled
      >>= λ s. kill_adapters R F E find_service r >>= λ _.
          on_manager R F E find_service (delete_instance R F r.instance_id) >>= λ _.
          on_manager R F E find_service (detach_provenance R F r.instance_id) >>= λ _.
          enter_registration (
            registration_for r.package_id r.contribution_id version s scope_id s.enabled
              r.registration_key)

  abbrev pub upgrade_found :
      String → Registration → PluginPackage × PluginContribution → Action State Registration
  upgrade_found scope_id r (p, c) =
      if p.version == r.package_version
      then pure r
      else lift (contribution_properties E.agent_id c scope_id)
        >>= replace_instance r p.version c scope_id

  unfoldable pub upgrade : String → String → Action State Registration
  unfolding select_registration find_contribution contribution_properties kill_adapters
      delete_instance persist_state
  upgrade name scope_id = registration name scope_id >>= λ r.
      (λ c. (find_contribution c.catalog r.package_id r.contribution_id, c))
      >>= upgrade_found scope_id r

  abbrev pub uninstall_found : Registration → Action State (Unit {0})
  uninstall_found r = kill_adapters R F E find_service r >>= λ _.
      on_manager R F E find_service (delete_instance R F r.instance_id) >>= λ _.
      on_manager R F E find_service (detach_provenance R F r.instance_id) >>= λ _.
      on_manager R F E find_service (persist_state R F)

  unfoldable pub uninstall : String → String → Action State (Unit {0})
  unfolding select_registration kill_adapters delete_instance persist_state
  uninstall name scope_id = registration name scope_id >>= uninstall_found

  abbrev view : State → Dict String Registration
  view c = c.manager.provenance

  -- An uninstallation past the selection, where it answers.
  uninstall_found-erases :
      (r : Registration) (c : State)
      → (uninstall_found r c).0 ≡ ok tt
      → view (uninstall_found r c).1 ≡ erase r.instance_id (view c)
  uninstall_found-erases r c done =
      let delete = on_manager R F E find_service (delete_instance R F r.instance_id) in
      let detach = on_manager R F E find_service (detach_provenance R F r.instance_id) in
      let persist = on_manager R F E find_service (persist_state R F) in
      elim (bind_cases (kill_adapters R F E find_service r)
        (λ _. delete >>= λ _. detach >>= λ _. persist) c) [
          | inl (e, t, stopped, whole) ↦ absurd (err_ne_ok (sym (ap (λ p. p.0) whole) ∙ done))
          | inr (x, t, killed, whole) ↦ elim (bind_cases delete (λ _. detach >>= λ _. persist) t) [
            | inl (e, u, stopped, whole') ↦
                absurd (err_ne_ok (sym (ap (λ p. p.0) (whole ∙ whole')) ∙ done))
            | inr (y, u, deleted, whole') ↦
                ap (λ p. view p.1) (whole ∙ whole')
                ∙ (persist-Still R F).still (detach u).1.manager
                ∙ ap (erase r.instance_id) (
                    ap (λ p. view p.1) (sym deleted)
                    ∙ (delete_instance-Still R F r.instance_id).still t.manager
                    ∙ ap (λ p. view p.1) (sym killed)
                    ∙ (kill_adapters-Still R F E find_service r).still c)
          ]
        ]

  -- An uninstallation that answers takes exactly the registration that is selected by its name
  -- and scope.
  pub uninstall-erases :
      (name scope_id : String) (r : Registration) (c : State)
      → select_registration c.catalog name scope_id (registrations R F c.manager) ≡ ok r
      → (uninstall name scope_id c).0 ≡ ok tt
      → (uninstall name scope_id c).1.manager.provenance ≡ erase r.instance_id c.manager.provenance
  unfolding uninstall
  uninstall-erases name scope_id r c found done =
      let whole : uninstall name scope_id c ≡ uninstall_found r c =
        ap (λ o. (lift o >>= uninstall_found) c) found in
      ap (λ p. view p.1) whole ∙ uninstall_found-erases r c (sym (ap (λ p. p.0) whole) ∙ done)
