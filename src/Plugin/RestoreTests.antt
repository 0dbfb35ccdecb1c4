-- ===== src/Plugin/RestoreTests.antt =====
-- The theorems on what src/langharness_plugin/plugin_manager.py and
-- src/langharness_plugin/coordinator.py restore, at concrete snapshots.
use mathlib.Core.Path.{sym, ap, ◌∙◌}
use langharness.Prelude.{
  ℕ, zero, suc, String, true, List, [], ◌∷◌, length, Option, none, some, ok, err, ◌≡◌, refl, inl,
  inr, string_eq, pair_eq, nat_eq, runtime_mutation, arith,
}
use langharness.Prelude.Dict.{lookup}
use langharness.Prelude.Json.{end}
use langharness.Prelude.Text.{codes, is_blank}
use langharness.Scope.Model.{root_scope}
use langharness.Scope.Store.Memory.{memory_store}
use langharness.Scope.Tree.Reads.{require}
use langharness.Plugin.Registry.{validate_descriptor}
use langharness.Plugin.Discovery.{PluginContribution}
use langharness.Plugin.Manager.{
  Manager, create_instance, start_instance, enter_instance, persist_state, snapshot_of,
  register_descriptor,
}
use langharness.Plugin.Manager.Placement.{restore_scopes}
use langharness.Plugin.Manager.Placement.Removal.{ScopedManager}
use langharness.Plugin.Manager.Revival.{restore_instances, restore_loaded}
use langharness.Plugin.Manager.Revival.Stored.{Stands}
use langharness.Plugin.Manager.Restore.{LoadedState, restore}
use langharness.Plugin.Manager.Restore.Whole.{restore-Stands}
use langharness.Plugin.Coordinator.{
  Registration, RuntimeMutationCoordinator, Surroundings, contribution_properties,
  registration_name, select_registration, install_adapters,
}
use langharness.Plugin.Coordinator.Restore.{recreate, recreate_each, readapt_each, reattach_all}
use langharness.Plugin.Coordinator.Restore.Ambiguous.{IsDoubled, reattach_all-ambiguous}
use langharness.Plugin.Coordinator.Restore.Entered.{IsFresh}
use langharness.Plugin.Manager.Properties.{registrations}
use langharness.Plugin.ManagerTests.{
  counting_store, components, descriptor, manager, stored_record, stored_records,
}

abbrev scoped : ScopedManager memory_store counting_store components
scoped = record {
  manager = manager;
  scope_store = record { snapshot = some (record { version = 1; scopes = root_scope ∷ [] }) };
  scope_version = 1;
}

abbrev loaded : LoadedState
loaded = record {
  version = 0;
  scopes = [];
  descriptors = record { descriptor = descriptor; source = "assembly" } ∷ [];
  instances = stored_records;
  registrations = [];
}

restores :
    (restore memory_store counting_store components (λ user. ok user) (ok (some loaded)) scoped).0
    ≡ ok tt
unfolding restore restore_scopes restore_loaded restore_instances persist_state snapshot_of
    register_descriptor validate_descriptor is_blank
restores = refl

restore-Stands_example :
    let after =
      (restore memory_store counting_store components
        (λ user. ok user)
        (ok (some loaded))
        scoped).1 in
    Stands counting_store components
      (λ user. ok user)
      (stored_record "on" "root" true)
      (lookup "on" after.manager.instances)
restore-Stands_example =
    restore-Stands memory_store counting_store components (λ user. ok user) loaded
      (stored_record "on" "root" true) (refl, (refl, (refl, tt))) (inr (inl refl)) refl scoped refl
      restores

-- The n-th identifier has n characters.
abbrev unary : ℕ → String
unary zero = String.[]
unary (suc n) = String.◌∷◌ "u" (unary n)

length-unary : (n : ℕ) → length (codes (unary n)) ≡ n
length-unary zero = refl
length-unary (suc n) = ap suc (length-unary n)

unary-apart : (n m : ℕ) → unary n ≡ unary m → n ≡ m
unary-apart n m same = sym (length-unary n) ∙ ap (λ s. length (codes s)) same ∙ length-unary m

abbrev contribution : PluginContribution
contribution = record {
  contribution_id = "c";
  target = "agent_instance";
  descriptor = descriptor;
  tool_exports = [];
}

abbrev surroundings : Surroundings ℕ
surroundings = record {
  uuid = unary;
  effective = λ d scope_id user n. ok user;
  is_same = λ a b. true;
  same_fields = λ a b. true;
  agent_id = λ s. s;
  adapter_properties = λ s es. end;
}

abbrev registration : Registration
registration = record {
  package_id = "p";
  contribution_id = "c";
  package_version = "1";
  instance_id = "";
  factory = "f";
  module_name = "m";
  scope_id = "agent:a";
  enabled = true;
  status = "installed";
  registration_key = none;
}

-- After the restore of the manager: the registration is there, its instance is not.
abbrev after_restart : RuntimeMutationCoordinator (Manager counting_store components)
after_restart = record {
  manager = record manager {
    scopes =
        ("root", root_scope)
        ∷ ("agent:a", record { id = "agent:a"; parent_id = some "root"; name = "A" })
        ∷ [];
    plugins = (("m", "f"), descriptor) ∷ [];
    provenance = ("", registration) ∷ [];
  };
  catalog =
      ("p", record { package_id = "p"; version = "1"; contributions = contribution ∷ [] }) ∷ [];
  adapter_instances = [];
  failures = [];
  next_uuid = 1;
}

abbrev find_service : Manager counting_store components → String → String → Option ℕ
find_service m specification scope_id = some 0

after_restart-IsFresh :
    IsFresh counting_store components surroundings find_service unary-apart after_restart
after_restart-IsFresh n later = ground (arith, string_eq.beq_iff "" (unary n), unary-apart 0 n)

abbrev reattached : List Registration
reattached = registration ∷ record registration { instance_id = "u" } ∷ []

reattaches :
    (reattach_all counting_store components surroundings find_service after_restart).0
    ≡ ok reattached
unfolding reattach_all recreate_each recreate readapt_each contribution_properties create_instance
    start_instance enter_instance persist_state snapshot_of require install_adapters
reattaches = refl

reattach_all-ambiguous_example :
    let after =
      (reattach_all counting_store components surroundings find_service after_restart).1 in
    IsDoubled counting_store components surroundings find_service unary-apart registration after
    × (select_registration after_restart.catalog
          (registration_name after_restart.catalog registration)
          "agent:a"
          (registrations counting_store components after.manager)
        ≡ err runtime_mutation)
reattach_all-ambiguous_example =
    reattach_all-ambiguous counting_store components surroundings find_service unary-apart
      registration contribution after_restart reattached refl refl after_restart-IsFresh refl
      reattaches after_restart.catalog
