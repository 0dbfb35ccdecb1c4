-- ===== src/Plugin/Manager/Ensure/Placed.antt =====
-- What `ensure_instance` of src/langharness_plugin/plugin_manager.py answers.
use mathlib.Core.Path.{sym, subst, ◌∙◌}
use langharness.Prelude.{
  find-holds, String, Bool, true, false, not, ◌||◌, In, ◌≡◌, refl, Option, none, some, inl, inr,
  Result, ok, err, Action, pure, lift, gets, or_raise, ◌>>=◌, string_eq, pair_eq, if◌then◌else◌,
  plugin_not_found, instance_not_found, instance_state, raise_if, runtime_error, find, Bool-cases,
  arith,
}
use langharness.Prelude.Dict.{lookup, values}
use langharness.Prelude.Int.{ℤ, pos}
use langharness.Prelude.Json.{Fields, end}
use langharness.Scope.Model.{root_scope_id}
use langharness.Scope.Tree.Reads.{require}
use langharness.Plugin.Registry.{PluginDescriptor}
use langharness.Plugin.Manager.{
  PluginInstanceSnapshot, RuntimeStateStore, Framework, Manager, on_components, on_error,
  persist_state, put_instance, drop_instance, require_started, key_of_instance, new_instance,
  start_instance, enter_instance, create_instance,
}
use langharness.Plugin.Manager.Frame.{Answers, OfResult, bind-Answers, found-Answers}
use langharness.Plugin.Manager.Update.{
  or_old, differs, ranks_differ, user_differs, merged_user, changed_instance, switch, switch_back,
  enter_update, update_with, update_found, update_instance,
}
use langharness.Plugin.Manager.Ensure.{
  is_instance_of, fields_or_none, ensure_current, ensure_found, ensure_instance,
}

same_flags : (a b c : Bool) → (differs a b || c) ≡ false → a ≡ b
same_flags true true c h = refl
same_flags true false c h = cc
same_flags false true c h = cc
same_flags false false c h = refl

module _ (R : RuntimeStateStore) (F : Framework)
    (effective : PluginDescriptor → String → Fields → ℤ → Result Fields)
    (same : Fields → Fields → Bool) where
  -- An instance of the factory and the module in the scope, enabled or not as wanted.
  abbrev pub IsPlaced : String → String → String → Bool → PluginInstanceSnapshot → Type 0
  IsPlaced factory module_name scope_id enabled s =
      (s.factory ≡ factory)
      × (s.module_name ≡ module_name)
      × (s.scope_id ≡ scope_id)
      × (s.enabled ≡ enabled)

  create_instance-IsPlaced :
      (make : PluginDescriptor → Result Fields) (uuid factory module_name scope_id : String)
      (user : Fields) (enabled : Bool) (ranking : ℤ)
      → Answers
          (IsPlaced factory module_name scope_id enabled)
          (create_instance R F make uuid factory module_name scope_id user enabled ranking)
  unfolding create_instance start_instance enter_instance
  create_instance-IsPlaced make uuid factory module_name scope_id user enabled ranking =
      let P = IsPlaced factory module_name scope_id enabled in
      bind-Answers P (require_started R F) _ (λ _.
        bind-Answers P (λ m. lift (require m.scopes scope_id) m) _
          (λ _.
            found-Answers P (λ m. lookup (module_name, factory) m.plugins) plugin_not_found
              (start_instance R F make uuid factory module_name scope_id user enabled ranking)
              (λ definition.
                bind-Answers P (λ m. lift (make definition) m) _
                  (λ properties.
                    let s =
                      new_instance R F uuid factory module_name scope_id properties enabled
                        ranking in
                    bind-Answers P
                      (if enabled
                        then on_components R F (F.instantiate definition uuid properties)
                        else pure tt)
                      (λ _. enter_instance R F s user)
                      (λ _. bind-Answers P (put_instance R F s user) _ (λ _.
                        bind-Answers P
                          (on_error (persist_state R F) (
                            (if s.enabled
                              then on_components R F (F.kill s.instance_id)
                              else pure tt)
                            >>= λ _. drop_instance R F s.instance_id))
                          (λ _. pure s)
                          (λ _. record { answers = λ m. (refl, refl, refl, refl) })))))))

  update_found-IsPlaced :
      (properties : Option Fields) (enabled : Bool) (current : PluginInstanceSnapshot)
      → Answers
          (IsPlaced current.factory current.module_name current.scope_id enabled)
          (update_found R F effective same properties (some enabled) none current)
  unfolding update_found update_with enter_update
  update_found-IsPlaced properties enabled current =
      let P = IsPlaced current.factory current.module_name current.scope_id enabled in
      found-Answers P (λ m. lookup (key_of_instance current) m.plugins) instance_state
        (λ definition.
          gets (λ m. lookup current.instance_id m.user_properties)
          >>= update_with R F effective same properties (some enabled) none current definition)
        (λ definition.
          bind-Answers P (gets (λ m. lookup current.instance_id m.user_properties))
            (update_with R F effective same properties (some enabled) none current definition)
            (λ old.
              let user = merged_user old properties in
              bind-Answers P
                (λ m. lift (effective definition current.scope_id user current.ranking) m) _
                (λ resolved.
                  let new = changed_instance R F current resolved enabled current.ranking in
                  let needs =
                    differs enabled current.enabled
                    || ranks_differ current.ranking current.ranking
                    || user_differs same user old in
                  bind-Answers P
                    (on_error (switch R F current new needs definition)
                      (switch_back R F current new definition))
                    (λ _. enter_update R F current new user)
                    (λ _. bind-Answers P (put_instance R F new user) _ (λ _.
                      bind-Answers P
                        (on_error (persist_state R F) (put_instance R F current current.properties))
                        (λ _. pure new)
                        (λ _. record { answers = λ m. (refl, refl, refl, refl) }))))))

  update_instance-IsPlaced :
      (properties : Option Fields) (enabled : Bool) (current : PluginInstanceSnapshot)
      (m : Manager R F)
      → lookup current.instance_id m.instances ≡ some current
      → OfResult (IsPlaced current.factory current.module_name current.scope_id enabled) (
          (update_instance R F effective same current.instance_id properties
            (some enabled)
            none
            m).0)
  unfolding update_instance
  update_instance-IsPlaced properties enabled current m own = guarded (not m.started)
    where
      P : PluginInstanceSnapshot → Type 0
      P = IsPlaced current.factory current.module_name current.scope_id enabled

      update : PluginInstanceSnapshot → Action (Manager R F) PluginInstanceSnapshot
      update = update_found R F effective same properties (some enabled) none

      found : Action (Manager R F) PluginInstanceSnapshot
      found = gets (λ n. lookup current.instance_id n.instances) >>= λ o.
          or_raise o instance_not_found >>= update

      guarded : (b : Bool) → OfResult P ((raise_if b runtime_error >>= λ _. found) m).0
      guarded true = tt
      guarded false =
          subst (λ o. OfResult P ((or_raise o instance_not_found >>= update) m).0) (sym own)
            ((update_found-IsPlaced properties enabled current).answers m)

  ensure_current-IsPlaced :
      (properties : Fields) (enabled : Bool) (current : PluginInstanceSnapshot)
      (user : Option Fields) (m : Manager R F)
      → lookup current.instance_id m.instances ≡ some current
      → OfResult
          (IsPlaced current.factory current.module_name current.scope_id enabled)
          ((ensure_current R F effective same properties enabled current user m).0)
  ensure_current-IsPlaced properties enabled current user m own =
      elim (Bool-cases
        (differs current.enabled enabled || not (same (or_old end user) properties))) [
          | inl outdated ↦
              rw outdated
                (update_instance-IsPlaced (fields_or_none properties) enabled current m own)
          | inr current_already ↦ rw current_already (
            refl,
            refl,
            refl,
            same_flags current.enabled enabled (not (same (or_old end user) properties))
                current_already,
          )
        ]

  as_wanted :
      (factory module_name scope_id : String) (enabled : Bool) (s : PluginInstanceSnapshot)
      → is_instance_of factory module_name scope_id s ≡ true
      → (r : Result PluginInstanceSnapshot)
      → OfResult (IsPlaced s.factory s.module_name s.scope_id enabled) r
      → OfResult (IsPlaced factory module_name scope_id enabled) r
  as_wanted factory module_name scope_id enabled s h (err e) placed = tt
  as_wanted factory module_name scope_id enabled s h (ok x) (a, b, c, d) = (
    a ∙ ground (arith, string_eq.beq_iff s.factory factory),
    b ∙ ground (arith, string_eq.beq_iff s.module_name module_name),
    c ∙ ground (arith, string_eq.beq_iff s.scope_id scope_id),
    d,
  )

  -- Where each instance is found under its own id, what `ensure_instance` answers is an instance
  -- of the factory and the module in the scope, the root if none is given, enabled or not as
  -- wanted.
  ensure_instance-IsPlaced :
      (uuid factory module_name : String) (wanted : Option String) (properties : Option Fields)
      (enabled : Bool) (m : Manager R F)
      → ((s : PluginInstanceSnapshot)
          → In s (values m.instances)
          → lookup s.instance_id m.instances ≡ some s)
      → OfResult (IsPlaced factory module_name (or_old root_scope_id wanted) enabled) (
          (ensure_instance R F effective same uuid factory module_name wanted properties enabled
            m).0)
  unfolding ensure_instance
  ensure_instance-IsPlaced uuid factory module_name wanted properties enabled m own =
      let scope_id = or_old root_scope_id wanted in
      go (find (is_instance_of factory module_name scope_id) (values m.instances)) refl
    where
      go :
          (o : Option PluginInstanceSnapshot)
          → find
              (is_instance_of factory module_name (or_old root_scope_id wanted))
              (values m.instances)
            ≡ o
          → OfResult (IsPlaced factory module_name (or_old root_scope_id wanted) enabled) (
              (ensure_found R F effective same uuid factory module_name
                (or_old root_scope_id wanted)
                (or_old end properties)
                enabled
                o
                m).0)
      go none h =
          (create_instance-IsPlaced
              (λ d. effective d (or_old root_scope_id wanted) (or_old end properties) (pos 0)) uuid
              factory module_name (or_old root_scope_id wanted) (or_old end properties) enabled
              (pos 0)).answers
            m
      go (some s) h =
          let (matches, member) = find-holds _ (values m.instances) s h in
          as_wanted factory module_name (or_old root_scope_id wanted) enabled s matches
            (ensure_current R F effective same (or_old end properties) enabled s
              (lookup s.instance_id m.user_properties) m).0
            (ensure_current-IsPlaced (or_old end properties) enabled s
              (lookup s.instance_id m.user_properties) m (own s member))
