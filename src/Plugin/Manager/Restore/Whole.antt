-- ===== src/Plugin/Manager/Restore/Whole.antt =====
-- What stands after `restore` of src/langharness_plugin/plugin_manager.py.
use mathlib.Core.Path.{sym, ap, subst, ◌∙◌}
use langharness.Prelude.{
  Bool, true, false, List, [], In, NoRepeat, map, ◌≡◌, refl, some, Result, ok, Action, modify,
  ◌>>=◌, string_eq, if◌then◌else◌, is_some, any,
}
use langharness.Prelude.Dict.{lookup}
use langharness.Prelude.Json.{Fields}
use langharness.Scope.Store.{ScopeStore}
use langharness.Plugin.Registry.{PluginInstanceRecord}
use langharness.Plugin.State.{PersistedPluginRegistration}
use langharness.Plugin.Manager.{RuntimeStateStore, Framework, Manager, persist_state}
use langharness.Plugin.Manager.Frame.{answered}
use langharness.Plugin.Manager.Placement.{restore_scopes}
use langharness.Plugin.Manager.Placement.Removal.{
  ScopedManager, on_tree, on_manager, persist_state-instances,
}
use langharness.Plugin.Manager.Revival.{restore_instances, restore_loaded, is_derived, by_instance}
use langharness.Plugin.Manager.Revival.Stored.{Stands, restore_instances-Stands}
use langharness.Plugin.Manager.Restore.{LoadedState, restore_definitions, restore_state, restore}

module _ (S : ScopeStore) (R : RuntimeStateStore) (F : Framework)
    (apply_filters : Fields → Result Fields) where
  loaded-instances :
      (rs : List PluginInstanceRecord) (registrations : List PersistedPluginRegistration)
      (m : Manager R F)
      → (restore_loaded R F apply_filters rs registrations m).1.instances
        ≡ (restore_instances R F apply_filters rs m).instances
  unfolding restore_loaded
  loaded-instances rs registrations m = go (any is_derived rs)
    where
      restored : Manager R F
      restored = record (restore_instances R F apply_filters rs m) {
        provenance = by_instance R F apply_filters registrations [];
      }

      go :
          (b : Bool)
          → (if b then persist_state R F restored else (ok tt, restored)).1.instances
            ≡ (restore_instances R F apply_filters rs m).instances
      go true = persist_state-instances S R F restored
      go false = refl

  module _ (l : LoadedState) (r : PluginInstanceRecord)
      (distinct : NoRepeat (map (λ r. r.instance_id) l.instances)) (member : In r l.instances)
      (own : is_derived r ≡ false) where
    state-Stands :
        (m : ScopedManager S R F)
        → (restore_state S R F apply_filters l m).0 ≡ ok tt
        → Stands R F apply_filters r
            (lookup r.instance_id (restore_state S R F apply_filters l m).1.manager.instances)
    state-Stands m done =
        let definitions : Action (ScopedManager S R F) (Unit {0}) =
          on_manager S R F (restore_definitions R F l.descriptors) in
        let instances : Action (ScopedManager S R F) (Unit {0}) =
          on_manager S R F (restore_loaded R F apply_filters l.instances l.registrations) in
        let noted = (on_manager S R F (modify (λ n. record n { state_version = l.version })) m).1 in
        let (x, t, went, first) =
          answered (on_tree S R F (restore_scopes S l.scopes)) (λ _. definitions >>= λ _. instances)
            noted tt done in
        let (y, u, went, second) =
          answered definitions (λ _. instances) t tt (sym (ap (λ p. p.0) first) ∙ done) in
        let same =
          ap (λ p. p.1.manager.instances) (first ∙ second)
          ∙ loaded-instances l.instances l.registrations u.manager in
        subst (λ d. Stands R F apply_filters r (lookup r.instance_id d)) (sym same)
          (restore_instances-Stands R F apply_filters l.instances r u.manager distinct member own)

    -- When `restore` answers on a manager with a state store that loads a snapshot of instances
    -- with distinct ids, each stored instance that is not in the scope of an agent stands under
    -- its id, with its factory, module and scope, and enabled or not as it was.
    pub restore-Stands :
        (m : ScopedManager S R F)
        → is_some m.manager.state_store ≡ true
        → (restore S R F apply_filters (ok (some l)) m).0 ≡ ok tt
        → Stands R F apply_filters r
            (lookup r.instance_id (restore S R F apply_filters (ok (some l)) m).1.manager.instances)
    unfolding restore
    restore-Stands m bound done = rw bound (state-Stands m (rw bound at done))
