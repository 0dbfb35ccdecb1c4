-- ===== src/Plugin/Manager/Placement/Removal.antt =====
-- `remove_scope` of src/langharness_plugin/plugin_manager.py: the guards, the instances that go
-- with the scopes, and the scope tree itself.
use mathlib.Core.List.{reverse}
use langharness.Prelude.{
  ℕ, String, Bool, true, false, List, [], ◌∷◌, map, Result, ok, err, bind, Action, pure, lift,
  ◌>>=◌, string_eq, if◌then◌else◌, filter, contains, is_nonempty, ◌≡◌, refl, scope_has_children,
  scope_has_instances,
}
use langharness.Prelude.Dict.{values}
use langharness.Scope.Model.{Scopes}
use langharness.Scope.Store.{ScopeStore}
use langharness.Scope.Tree.Reads.{descendants, children}
use langharness.Scope.Tree.Writes.{ScopeTree, remove}
use langharness.Plugin.Manager.Keeps.{persist-Keeps}
use langharness.Plugin.Manager.{
  PluginInstanceSnapshot, RuntimeStateStore, Framework, Manager, remove_instance_record,
  persist_state,
}

-- The manager with the store and the version of its scope tree.
module _ (S : ScopeStore) (R : RuntimeStateStore) (F : Framework) where
  pub record ScopedManager : Type 0 where
    pub manager : Manager R F
    pub scope_store : S.State
    pub scope_version : ℕ

  abbrev pub tree_of : ScopedManager → ScopeTree S.State
  tree_of m = record { store = m.scope_store; scopes = m.manager.scopes; version = m.scope_version }

  -- A call of the scope tree.
  abbrev pub on_tree : {A : Type 0} → Action (ScopeTree S.State) A → Action ScopedManager A
  on_tree call m =
      let (r, t) = call (tree_of m) in
      (
        r,
        record {
          manager = record m.manager { scopes = t.scopes };
          scope_store = t.store;
          scope_version = t.version;
        },
      )

  abbrev pub on_manager : {A : Type 0} → Action (Manager R F) A → Action ScopedManager A
  on_manager call m = let (r, m') = call m.manager in (r, record m { manager = m' })

  -- The scopes that go.
  abbrev pub targets_of : Scopes → String → Bool → Result (List String)
  targets_of scopes scope_id false = ok (scope_id ∷ [])
  targets_of scopes scope_id true =
      bind (descendants scopes scope_id false) λ below. ok (scope_id ∷ map (λ s. s.id) below)

  abbrev pub stands_in : List String → PluginInstanceSnapshot → Bool
  stands_in targets s = contains s.scope_id targets

  abbrev pub affected_by : List String → Manager R F → List PluginInstanceSnapshot
  affected_by targets m = filter (stands_in targets) (values m.instances)

  -- The guards of a removal that is not recursive.
  abbrev pub guard_scope : String → Bool → List PluginInstanceSnapshot → Scopes → Result (Unit {0})
  guard_scope scope_id true affected scopes = ok tt
  guard_scope scope_id false affected scopes = bind (children scopes scope_id) λ below.
      if is_nonempty below
      then err scope_has_children
      else (if is_nonempty affected then err scope_has_instances else ok tt)

  abbrev pub remove_records : List PluginInstanceSnapshot → Action (Manager R F) (Unit {0})
  remove_records [] = pure tt
  remove_records (s ∷ ss) = remove_instance_record R F s.instance_id >>= λ _. remove_records ss

  -- `remove_scope` past its guards.
  abbrev pub remove_guarded :
      String → Bool → List PluginInstanceSnapshot → Action ScopedManager (Unit {0})
  remove_guarded scope_id recursive affected =
      on_manager (remove_records (reverse affected)) >>= λ _.
      on_tree (remove S scope_id recursive) >>= λ _. on_manager (persist_state R F)

  abbrev pub remove_targets : String → Bool → List String → Action ScopedManager (Unit {0})
  remove_targets scope_id recursive targets m =
      let affected = affected_by targets m.manager in
      (lift (guard_scope scope_id recursive affected m.manager.scopes) >>= λ _.
      remove_guarded scope_id recursive affected)
        m

  unfoldable pub remove_scope : String → Bool → Action ScopedManager (Unit {0})
  unfolding descendants children remove remove_instance_record persist_state
  remove_scope scope_id recursive m =
      (lift (targets_of m.manager.scopes scope_id recursive) >>= remove_targets scope_id recursive)
        m

  pub persist_state-instances : (m : Manager R F) → (persist_state R F m).1.instances ≡ m.instances
  persist_state-instances m =
      (persist-Keeps R F (λ _ instances. instances ≡ m.instances)).kept m refl
