-- ===== src/Plugin/Manager/Installed.antt =====
-- The instances of `PluginManager` of src/langharness_plugin/plugin_manager.py and the definitions
-- they belong to.
use langharness.Prelude.{
  String, Bool, true, false, not, ◌≡◌, [], ◌∷◌, Option, none, some, Result, Action, pure, lift,
  gets, ◌>>◌, if◌then◌else◌, inl, inr, Bool-cases, ap, arith, All, ◌==◌, pair_eq, string_eq,
  pair_beq_iff, filter, is_nonempty, plugin_not_found, instance_not_found, key_error, is_some,
}
use langharness.Prelude.Dict.{Dict, lookup, has, insert, erase, values, lookup-erase}
use langharness.Prelude.Int.{ℤ}
use langharness.Prelude.Json.{Fields}
use langharness.Scope.Tree.Reads.{require}
use langharness.Plugin.Registry.{PluginDescriptor}
use langharness.Plugin.Manager.{
  Key, PluginInstanceSnapshot, RuntimeStateStore, Framework, Manager, on_components, on_error,
  persist_state, key_of_instance, create_instance, delete_instance, remove_instance_record,
  put_back, drop_instance, put_instance, enter_instance, new_instance, start_instance, remove_found,
  start_again, revive, delete_found, require_started,
}
use langharness.Plugin.Manager.Keeps.{
  bind-Keeps, found-Keeps, error-Keeps, branch-Keeps, persist-Keeps, Keeps,
}

-- Every instance belongs to a definition that is installed.
abbrev pub IsInstalled : Dict Key PluginDescriptor → Dict String PluginInstanceSnapshot → Type 0
IsInstalled plugins instances = All (λ e. has (key_of_instance e.1) plugins ≡ true) instances

insert-IsInstalled :
    (plugins : Dict Key PluginDescriptor) (k : String) (s : PluginInstanceSnapshot)
    (instances : Dict String PluginInstanceSnapshot)
    → has (key_of_instance s) plugins ≡ true
    → IsInstalled plugins instances
    → IsInstalled plugins (insert k s instances)
insert-IsInstalled plugins k s [] here h = (here, tt)
insert-IsInstalled plugins k s ((j, t) ∷ d) here h =
    ground (arith, insert-IsInstalled plugins k s d here h.1)

filter-IsInstalled :
    (plugins : Dict Key PluginDescriptor) (p : String → Bool)
    (instances : Dict String PluginInstanceSnapshot)
    → IsInstalled plugins instances
    → IsInstalled plugins (filter (λ e. p e.0) instances)
filter-IsInstalled plugins p [] h = tt
filter-IsInstalled plugins p ((j, t) ∷ d) h = ground (arith, filter-IsInstalled plugins p d h.1)

pub lookup_installed :
    (plugins : Dict Key PluginDescriptor) (k : String) (s : PluginInstanceSnapshot)
    (instances : Dict String PluginInstanceSnapshot)
    → lookup k instances ≡ some s
    → IsInstalled plugins instances
    → has (key_of_instance s) plugins ≡ true
lookup_installed plugins k s [] found h = cc
lookup_installed plugins k s ((j, t) ∷ d) found h = ground (arith, lookup_installed plugins k s d)

-- A definition that no instance uses can go.
pub erase_unused :
    (key : Key) (plugins : Dict Key PluginDescriptor)
    (instances : Dict String PluginInstanceSnapshot)
    → is_nonempty (filter (λ s. key_of_instance s == key) (values instances)) ≡ false
    → IsInstalled plugins instances
    → IsInstalled (erase key plugins) instances
erase_unused key plugins [] unused h = tt
erase_unused key plugins ((j, t) ∷ d) unused h = elim (Bool-cases (key_of_instance t == key)) [
  | inl same ↦ absurd (ground arith)
  | inr other ↦ (
    ground (
      arith,
      lookup-erase key (key_of_instance t) plugins,
      pair_beq_iff (key_of_instance t) key,
      pair_beq_iff key (key_of_instance t),
    ),
    erase_unused key plugins d (ground arith) h.1,
  )
]

module _ (R : RuntimeStateStore) (F : Framework) where
  -- With the definition of the instance at hand, its entries keep the property.
  abbrev pub WithKey : Key → Dict Key PluginDescriptor → Dict String PluginInstanceSnapshot → Type 0
  WithKey key plugins instances = IsInstalled plugins instances × (has key plugins ≡ true)

  drop-Keeps : (k : String) → Keeps R F IsInstalled (drop_instance R F k)
  drop-Keeps k = record {
    kept = λ m h. filter-IsInstalled m.plugins (λ j. not (j == k)) m.instances h;
  }

  drop-Keeps-WithKey : (key : Key) (k : String) → Keeps R F (WithKey key) (drop_instance R F k)
  drop-Keeps-WithKey key k = record { kept = λ m h. ((drop-Keeps k).kept m h.0, h.1) }

  pub put-Keeps-WithKey :
      (s : PluginInstanceSnapshot) (user : Fields)
      → Keeps R F (WithKey (key_of_instance s)) (put_instance R F s user)
  put-Keeps-WithKey s user = record {
    kept = λ m h. (insert-IsInstalled m.plugins s.instance_id s m.instances h.1 h.0, h.1);
  }

  enter-Keeps-WithKey :
      (s : PluginInstanceSnapshot) (user : Fields)
      → Keeps R F (WithKey (key_of_instance s)) (enter_instance R F s user)
  unfolding enter_instance
  enter-Keeps-WithKey s user =
      let P = WithKey (key_of_instance s) in
      bind-Keeps R F P (put_instance R F s user) _ (put-Keeps-WithKey s user) (λ _.
        bind-Keeps R F P
          (on_error (persist_state R F) (
            (if s.enabled then on_components R F (F.kill s.instance_id) else pure tt)
            >> drop_instance R F s.instance_id))
          (λ _. pure s)
          (error-Keeps R F P (persist_state R F) _ (persist-Keeps R F P) (
            bind-Keeps R F P
              (if s.enabled then on_components R F (F.kill s.instance_id) else pure tt) _
              (branch-Keeps R F P s.enabled (on_components R F (F.kill s.instance_id)) (pure tt)
                (record { kept = λ m h. h }) (record { kept = λ m h. h }))
              (λ _. drop-Keeps-WithKey (key_of_instance s) s.instance_id)))
          (λ _. record { kept = λ m h. h }))

  start-Keeps-WithKey :
      (effective : PluginDescriptor → Result Fields) (uuid factory module_name scope_id : String)
      (user : Fields) (enabled : Bool) (ranking : ℤ) (definition : PluginDescriptor)
      → Keeps R F (WithKey (module_name, factory)) (
          start_instance R F effective uuid factory module_name scope_id user enabled ranking
            definition)
  unfolding start_instance
  start-Keeps-WithKey effective uuid factory module_name scope_id user enabled ranking definition =
      let P = WithKey (module_name, factory) in
      let enter : Fields → Action (Manager R F) PluginInstanceSnapshot = λ properties.
        enter_instance R F
          (new_instance R F uuid factory module_name scope_id properties enabled ranking) user in
      bind-Keeps R F P (λ m. lift (effective definition) m) _ (record { kept = λ m h. h })
        (λ properties.
          bind-Keeps R F P
            (if enabled
              then on_components R F (F.instantiate definition uuid properties)
              else pure tt)
            (λ _. enter properties)
            (branch-Keeps R F P enabled
              (on_components R F (F.instantiate definition uuid properties)) (pure tt)
              (record { kept = λ m h. h }) (record { kept = λ m h. h }))
            (λ _.
              enter-Keeps-WithKey
                (new_instance R F uuid factory module_name scope_id properties enabled ranking)
                user))

  pub create_instance-Keeps :
      (effective : PluginDescriptor → Result Fields)
      (instance_uuid factory module_name scope_id : String) (user : Fields) (enabled : Bool)
      (ranking : ℤ)
      → Keeps R F IsInstalled (
          create_instance R F effective instance_uuid factory module_name scope_id user enabled
            ranking)
  unfolding create_instance
  create_instance-Keeps effective uuid factory module_name scope_id user enabled ranking =
      let start =
        start_instance R F effective uuid factory module_name scope_id user enabled ranking in
      bind-Keeps R F IsInstalled (require_started R F) _ (record { kept = λ m h. h })
        (λ _.
          bind-Keeps R F IsInstalled (λ m. lift (require m.scopes scope_id) m) _
            (record { kept = λ m h. h })
            (λ _.
              found-Keeps R F IsInstalled (λ m. lookup (module_name, factory) m.plugins)
                plugin_not_found start
                (λ definition m found h.
                  let tail =
                    start-Keeps-WithKey effective uuid factory module_name scope_id user enabled
                      ranking definition in
                  let after = tail.kept m (h, ap is_some found) in after.0)))

  -- Taking an instance away keeps the property, with or without the definition at hand.
  remove-Keeps-WithKey :
      (key : Key) (k : String) → Keeps R F (WithKey key) (remove_instance_record R F k)
  unfolding remove_instance_record
  remove-Keeps-WithKey key k =
      bind-Keeps R F (WithKey key) (gets (λ m. lookup k m.instances)) (remove_found R F k)
        (record { kept = λ m h. h }) found
    where
      found : (o : Option PluginInstanceSnapshot) → Keeps R F (WithKey key) (remove_found R F k o)
      found none = record { kept = λ m h. h }
      found (some s) =
          bind-Keeps R F (WithKey key)
            (if s.status == "active" then on_components R F (F.kill k) else pure tt)
            (λ _. drop_instance R F k)
            (branch-Keeps R F (WithKey key) (s.status == "active") (on_components R F (F.kill k))
              (pure tt) (record { kept = λ m h. h }) (record { kept = λ m h. h }))
            (λ _. drop-Keeps-WithKey key k)

  put_back-Keeps :
      (s : PluginInstanceSnapshot) → Keeps R F (WithKey (key_of_instance s)) (put_back R F s)
  unfolding put_back
  put_back-Keeps s =
      let P = WithKey (key_of_instance s) in
      bind-Keeps R F P (if s.status == "active" then revive R F s else pure tt)
        (λ _. put_instance R F s s.properties)
        (branch-Keeps R F P (s.status == "active") (revive R F s) (pure tt)
          (found-Keeps R F P (λ m. lookup (key_of_instance s) m.plugins) key_error
            (start_again R F s) (λ d m q h. h))
          (record { kept = λ m h. h }))
        (λ _. put-Keeps-WithKey s s.properties)

  deleted-Keeps-WithKey :
      (k : String) (s : PluginInstanceSnapshot)
      → Keeps R F (WithKey (key_of_instance s)) (delete_found R F k s)
  unfolding delete_found
  deleted-Keeps-WithKey k s =
      let P = WithKey (key_of_instance s) in
      bind-Keeps R F P (remove_instance_record R F k)
        (λ _. on_error (persist_state R F) (put_back R F s))
        (remove-Keeps-WithKey (key_of_instance s) k)
        (λ _.
          error-Keeps R F P (persist_state R F) (put_back R F s) (persist-Keeps R F P)
            (put_back-Keeps s))

  pub delete_instance-Keeps : (k : String) → Keeps R F IsInstalled (delete_instance R F k)
  unfolding delete_instance
  delete_instance-Keeps k =
      bind-Keeps R F IsInstalled (require_started R F) _ (record { kept = λ m h. h })
        (λ _.
          found-Keeps R F IsInstalled (λ m. lookup k m.instances) instance_not_found
            (delete_found R F k)
            (λ s m found h.
              let after =
                (deleted-Keeps-WithKey k s).kept m
                  (h, lookup_installed m.plugins k s m.instances found h) in
              after.0))
