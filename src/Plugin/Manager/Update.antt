-- ===== src/Plugin/Manager/Update.antt =====
-- `update_instance` and the reads of `PluginManager` in src/langharness_plugin/plugin_manager.py.
-- The effective properties and the equality of properties are arguments. An instance stands under
-- its own id.
use langharness.Prelude.{
  String, Bool, true, false, not, ◌&&◌, ◌||◌, ◌≡◌, refl, Option, none, some, Result, ok, err,
  plugin_not_found, instance_not_found, instance_state, Action, pure, lift, gets, or_raise, ◌>>=◌,
  ◌>>◌, ◌==◌, string_eq, pair_eq, if◌then◌else◌,
}
use mathlib.Core.Path.{subst}
use langharness.Prelude.Dict.{lookup}
use langharness.Prelude.Int.{ℤ, ltb_ℤ}
use langharness.Prelude.Json.{Fields, end}
use langharness.Plugin.Config.Secrets.{update_fields}
use langharness.Plugin.Registry.{PluginDescriptor}
use langharness.Plugin.Manager.{
  PluginInstanceSnapshot, RuntimeStateStore, Framework, Manager, on_components, on_error,
  persist_state, key_of_instance, require_started, put_instance, start_again, definition_key,
}
use langharness.Plugin.Manager.Keeps.{
  Keeps, bind-Keeps, found-Keeps, error-Keeps, branch-Keeps, persist-Keeps,
}
use langharness.Plugin.Manager.Installed.{IsInstalled, WithKey, put-Keeps-WithKey, lookup_installed}

abbrev pub or_old {ℓ} : {A : Type ℓ} → A → Option A → A
or_old old none = old
or_old old (some new) = new

-- `!=` of two flags, and of two rankings.
abbrev pub differs : Bool → Bool → Bool
differs true b = not b
differs false b = b

abbrev pub ranks_differ : ℤ → ℤ → Bool
ranks_differ a b = ltb_ℤ a b || ltb_ℤ b a

-- `dict(self._user_properties.get(instance, {}))`, with the given properties over it.
abbrev pub merged_user : Option Fields → Option Fields → Fields
unfolding update_fields
merged_user old none = or_old end old
merged_user old (some new) = update_fields (or_old end old) new

-- `user != self._user_properties.get(instance)`
abbrev pub user_differs : (Fields → Fields → Bool) → Fields → Option Fields → Bool
user_differs same user none = true
user_differs same user (some old) = not (same user old)

module _ (R : RuntimeStateStore) (F : Framework) where
  unfoldable pub get_instance : String → Action (Manager R F) PluginInstanceSnapshot
  get_instance k m = elim (lookup k m.instances) [
    | none ↦ (err instance_not_found, m)
    | some s ↦ (ok s, m)
  ]

  unfoldable pub show_plugin : String → Option String → Action (Manager R F) PluginDescriptor
  unfolding definition_key
  show_plugin factory wanted = do
    key ← λ m. lift (definition_key R F factory wanted m) m
    found ← gets (λ m. lookup key m.plugins)
    or_raise found plugin_not_found

  abbrev pub rebuild : PluginInstanceSnapshot → PluginDescriptor → Action (Manager R F) (Unit {0})
  rebuild s definition = on_components R F (F.kill s.instance_id) >> start_again R F s definition

  -- What happens to the component: `current` is the instance before, `new` after.
  unfoldable pub switch :
      PluginInstanceSnapshot
      → PluginInstanceSnapshot
      → Bool
      → PluginDescriptor
      → Action (Manager R F) (Unit {0})
  switch current new needs_rebind definition =
      if not new.enabled
      then (if current.status == "active"
          then on_components R F (F.kill current.instance_id)
          else pure tt)
      else (if current.status == "disabled"
          then start_again R F new definition
          else (if needs_rebind then rebuild new definition else pure tt))

  -- After an error of the framework.
  unfoldable pub switch_back :
      PluginInstanceSnapshot
      → PluginInstanceSnapshot
      → PluginDescriptor
      → Action (Manager R F) (Unit {0})
  switch_back current new definition =
      if current.status == "active" && new.enabled then rebuild current definition else pure tt

  -- The entries of the changed instance; if the state is not persisted the old snapshot comes back,
  -- with its effective properties as the user's.
  unfoldable pub enter_update :
      PluginInstanceSnapshot
      → PluginInstanceSnapshot
      → Fields
      → Action (Manager R F) PluginInstanceSnapshot
  unfolding persist_state
  enter_update current new user = do
    put_instance R F new user
    on_error (persist_state R F) (put_instance R F current current.properties)
    pure new

  abbrev pub changed_instance : PluginInstanceSnapshot → Fields → Bool → ℤ → PluginInstanceSnapshot
  changed_instance current properties enabled ranking = record {
    instance_id = current.instance_id;
    factory = current.factory;
    module_name = current.module_name;
    scope_id = current.scope_id;
    properties = properties;
    enabled = enabled;
    ranking = ranking;
    status = if enabled then "active" else "disabled";
  }

  -- `update_instance` once the instance and its definition are found; `old` are the stored user
  -- properties.
  unfoldable pub update_with :
      (PluginDescriptor → String → Fields → ℤ → Result Fields)
      → (Fields → Fields → Bool)
      → Option Fields
      → Option Bool
      → Option ℤ
      → PluginInstanceSnapshot
      → PluginDescriptor
      → Option Fields
      → Action (Manager R F) PluginInstanceSnapshot
  unfolding switch switch_back enter_update
  update_with effective same properties enabled ranking current definition old = do
    let user = merged_user old properties
    let new_enabled = or_old current.enabled enabled
    let new_ranking = or_old current.ranking ranking
    resolved ← λ m. lift (effective definition current.scope_id user new_ranking) m
    let new = changed_instance current resolved new_enabled new_ranking
    let needs_rebind =
        differs new_enabled current.enabled
        || ranks_differ new_ranking current.ranking
        || user_differs same user old
    on_error (switch current new needs_rebind definition) (switch_back current new definition)
    enter_update current new user

  -- `update_instance` once the instance is found.
  unfoldable pub update_found :
      (PluginDescriptor → String → Fields → ℤ → Result Fields)
      → (Fields → Fields → Bool)
      → Option Fields
      → Option Bool
      → Option ℤ
      → PluginInstanceSnapshot
      → Action (Manager R F) PluginInstanceSnapshot
  unfolding update_with
  update_found effective same properties enabled ranking current = do
    found ← gets (λ m. lookup (key_of_instance current) m.plugins)
    definition ← or_raise found instance_state
    gets (λ m. lookup current.instance_id m.user_properties)
        >>= update_with effective same properties enabled ranking current definition

  unfoldable pub update_instance :
      (PluginDescriptor → String → Fields → ℤ → Result Fields)
      → (Fields → Fields → Bool)
      → String
      → Option Fields
      → Option Bool
      → Option ℤ
      → Action (Manager R F) PluginInstanceSnapshot
  unfolding update_found
  update_instance effective same k properties enabled ranking = do
    require_started R F
    found ← gets (λ m. lookup k m.instances)
    current ← or_raise found instance_not_found
    update_found effective same properties enabled ranking current

  module _ (current new : PluginInstanceSnapshot) (definition : PluginDescriptor) where
    switch-Keeps-WithKey :
        (needs : Bool)
        → Keeps R F (WithKey R F (key_of_instance current)) (switch current new needs definition)
    unfolding switch
    switch-Keeps-WithKey needs =
        let P = WithKey R F (key_of_instance current) in
        branch-Keeps R F P (not new.enabled) _ _
          (branch-Keeps R F P (current.status == "active")
            (on_components R F (F.kill current.instance_id)) (pure tt) (record { kept = λ m h. h })
            (record { kept = λ m h. h }))
          (branch-Keeps R F P (current.status == "disabled") (start_again R F new definition) _
            (record { kept = λ m h. h })
            (branch-Keeps R F P needs (rebuild new definition) (pure tt)
              (bind-Keeps R F P (on_components R F (F.kill new.instance_id))
                (λ _. start_again R F new definition) (record { kept = λ m h. h })
                (λ _. record { kept = λ m h. h }))
              (record { kept = λ m h. h })))

    back-Keeps-WithKey :
        Keeps R F (WithKey R F (key_of_instance current)) (switch_back current new definition)
    unfolding switch_back
    back-Keeps-WithKey =
        let P = WithKey R F (key_of_instance current) in
        branch-Keeps R F P (current.status == "active" && new.enabled) (rebuild current definition)
          (pure tt)
          (bind-Keeps R F P (on_components R F (F.kill current.instance_id))
            (λ _. start_again R F current definition) (record { kept = λ m h. h })
            (λ _. record { kept = λ m h. h }))
          (record { kept = λ m h. h })

    enter-Keeps-WithKey :
        (user : Fields)
        → key_of_instance new ≡ key_of_instance current
        → Keeps R F (WithKey R F (key_of_instance current)) (enter_update current new user)
    unfolding enter_update
    enter-Keeps-WithKey user same =
        let P = WithKey R F (key_of_instance current) in
        bind-Keeps R F P (put_instance R F new user) _
          (subst (λ k. Keeps R F (WithKey R F k) (put_instance R F new user)) same
            (put-Keeps-WithKey R F new user))
          (λ _.
            bind-Keeps R F P
              (on_error (persist_state R F) (put_instance R F current current.properties))
              (λ _. pure new)
              (error-Keeps R F P (persist_state R F) (put_instance R F current current.properties)
                (persist-Keeps R F P) (put-Keeps-WithKey R F current current.properties))
              (λ _. record { kept = λ m h. h }))

  module _ (effective : PluginDescriptor → String → Fields → ℤ → Result Fields)
      (same : Fields → Fields → Bool) (properties : Option Fields) (enabled : Option Bool)
      (ranking : Option ℤ) where
    with-Keeps-WithKey :
        (current : PluginInstanceSnapshot) (definition : PluginDescriptor) (old : Option Fields)
        → Keeps R F
            (WithKey R F (key_of_instance current))
            (update_with effective same properties enabled ranking current definition old)
    unfolding update_with
    with-Keeps-WithKey current definition old =
        let P = WithKey R F (key_of_instance current) in
        let user = merged_user old properties in
        let new_enabled = or_old current.enabled enabled in
        let new_ranking = or_old current.ranking ranking in
        let needs =
          differs new_enabled current.enabled
          || ranks_differ new_ranking current.ranking
          || user_differs same user old in
        bind-Keeps R F P (λ m. lift (effective definition current.scope_id user new_ranking) m) _
          (record { kept = λ m h. h })
          (λ resolved.
            let new = changed_instance current resolved new_enabled new_ranking in
            bind-Keeps R F P
              (on_error (switch current new needs definition) (switch_back current new definition))
              (λ _. enter_update current new user)
              (error-Keeps R F P (switch current new needs definition)
                (switch_back current new definition)
                (switch-Keeps-WithKey current new definition needs)
                (back-Keeps-WithKey current new definition))
              (λ _. enter-Keeps-WithKey current new definition user refl))

    found-Keeps-WithKey :
        (current : PluginInstanceSnapshot)
        → Keeps R F
            (WithKey R F (key_of_instance current))
            (update_found effective same properties enabled ranking current)
    unfolding update_found
    found-Keeps-WithKey current =
        let P = WithKey R F (key_of_instance current) in
        let go : PluginDescriptor → Action (Manager R F) PluginInstanceSnapshot = λ definition.
          gets (λ m. lookup current.instance_id m.user_properties)
          >>= update_with effective same properties enabled ranking current definition in
        found-Keeps R F P (λ m. lookup (key_of_instance current) m.plugins) instance_state go
          (λ definition m q h.
            let tail =
              bind-Keeps R F P (gets (λ m. lookup current.instance_id m.user_properties))
                (update_with effective same properties enabled ranking current definition)
                (record { kept = λ m h. h }) (with-Keeps-WithKey current definition) in
            tail.kept m h)

    pub update_instance-Keeps :
        (k : String)
        → Keeps R F IsInstalled (update_instance effective same k properties enabled ranking)
    unfolding update_instance
    update_instance-Keeps k =
        bind-Keeps R F IsInstalled (require_started R F) _ (record { kept = λ m h. h })
          (λ _.
            found-Keeps R F IsInstalled (λ m. lookup k m.instances) instance_not_found
              (update_found effective same properties enabled ranking)
              (λ current m found h.
                let after =
                  (found-Keeps-WithKey current).kept m
                    (h, lookup_installed m.plugins k current m.instances found h) in
                after.0))
