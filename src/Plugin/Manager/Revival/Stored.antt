-- ===== src/Plugin/Manager/Revival/Stored.antt =====
-- Where the stored instances stand after `restore` of src/langharness_plugin/plugin_manager.py, and
-- which of them have lost their user's properties.
use mathlib.Core.Path.{sym, ap, subst, ◌∙◌}
use mathlib.Core.List.{map}
use langharness.Prelude.{
  String, Bool, true, false, not, List, [], ◌∷◌, In, NoRepeat, contains, ◌≡◌, refl, Option, none,
  some, Result, ok, err, lift, pure, ◌==◌, string_eq, pair_eq, if◌then◌else◌, inl, inr, arith,
}
use langharness.Prelude.Dict.{Dict, lookup, insert, lookup-insert, lookup-insert_self}
use langharness.Prelude.Json.{Fields}
use langharness.Plugin.Registry.{PluginDescriptor, PluginInstanceRecord}
use langharness.Plugin.Manager.{
  PluginInstanceSnapshot, RuntimeStateStore, Framework, Manager, on_components,
}
use langharness.Plugin.Manager.Frame.{Still, bind-Still}
use langharness.Plugin.Manager.Properties.{rehydrate_properties}
use langharness.Plugin.Manager.Revival.{
  is_derived, start_record, enter_started, enter_idle, restore_found, restore_record,
  restore_instances,
}

insert_apart :
    {V : Type 0} (k j : String) (v : V) (d w : Dict String V)
    → (k == j) ≡ false
    → d ≡ w
    → lookup j (insert k v d) ≡ lookup j w
insert_apart k j v d w apart same = lookup-insert k j v d ∙ rw apart (ap (lookup j) same)

insert_self :
    {V : Type 0} (k : String) (v : V) (d : Dict String V) → lookup k (insert k v d) ≡ some v
insert_self k v d = lookup-insert_self k v d

apart_later :
    (k : String) (r : PluginInstanceRecord) (rs : List PluginInstanceRecord)
    → contains k (map (λ r. r.instance_id) rs) ≡ false
    → In r rs
    → (k == r.instance_id) ≡ false
apart_later k r [] fresh member = absurd member.1
apart_later k r (q ∷ rs) fresh (inl here) =
    let same : q.instance_id ≡ r.instance_id = ap (λ x. x.instance_id) here in
    ground (arith, string_eq.beq_iff q.instance_id k, string_eq.beq_iff k r.instance_id)
apart_later k r (q ∷ rs) fresh (inr later) = apart_later k r rs (ground arith) later

module _ (R : RuntimeStateStore) (F : Framework) (apply_filters : Fields → Result Fields) where
  abbrev view : Manager R F → Dict String PluginInstanceSnapshot × Dict String Fields
  view m = (m.instances, m.user_properties)

  abbrev View : Type 0
  View = Dict String PluginInstanceSnapshot × Dict String Fields

  -- The same entries under a key.
  abbrev SameAt : String → View → View → Type 0
  SameAt k v w = (lookup k v.0 ≡ lookup k w.0) × (lookup k v.1 ≡ lookup k w.1)

  start_record-Still :
      (r : PluginInstanceRecord) (d : PluginDescriptor)
      → Still view (start_record R F apply_filters r d)
  start_record-Still r d =
      bind-Still view (λ m. lift (rehydrate_properties apply_filters m.scopes r d) m) _
        (record { still = λ m. refl })
        (λ effective.
          bind-Still view (on_components R F (F.instantiate d r.instance_id effective))
            (λ _. pure effective) (record { still = λ m. refl })
            (λ _. record { still = λ m. refl }))

  module _ (r : PluginInstanceRecord) where
    started_other :
        (k : String) (v : View) (p : Result Fields × Manager R F)
        → (r.instance_id == k) ≡ false
        → view p.1 ≡ v
        → SameAt k (view (enter_started R F apply_filters r p)) v
    started_other k v (ok e, m) apart same = (
      insert_apart r.instance_id k _ m.instances v.0 apart (ap (λ w. w.0) same),
      insert_apart r.instance_id k _ m.user_properties v.1 apart (ap (λ w. w.1) same),
    )
    started_other k v (err e, m) apart same = (
      insert_apart r.instance_id k _ m.instances v.0 apart (ap (λ w. w.0) same),
      insert_apart r.instance_id k _ m.user_properties v.1 apart (ap (λ w. w.1) same),
    )

    idle_other :
        (k status : String) (m : Manager R F)
        → (r.instance_id == k) ≡ false
        → SameAt k (view (enter_idle R F apply_filters r status m)) (view m)
    idle_other k status m apart =
        (insert_apart r.instance_id k _ m.instances m.instances apart refl, refl)

    enabled_other :
        (k : String) (b : Bool) (d : PluginDescriptor) (m : Manager R F)
        → (r.instance_id == k) ≡ false
        → SameAt k
            (view (
              if not b
              then enter_idle R F apply_filters r "disabled" m
              else enter_started R F apply_filters r (start_record R F apply_filters r d m)))
            (view m)
    enabled_other k false d m apart = idle_other k "disabled" m apart
    enabled_other k true d m apart =
        started_other k (view m) (start_record R F apply_filters r d m) apart
          ((start_record-Still r d).still m)

    found_other :
        (k : String) (o : Option PluginDescriptor) (m : Manager R F)
        → (r.instance_id == k) ≡ false
        → SameAt k (view (restore_found R F apply_filters r o m)) (view m)
    found_other k none m apart = idle_other k "missing" m apart
    found_other k (some d) m apart = enabled_other k r.enabled d m apart

    record_other :
        (k : String) (b : Bool) (m : Manager R F)
        → (r.instance_id == k) ≡ false
        → SameAt k
            (view (
              if b
              then m
              else restore_found R F apply_filters r
                  (lookup (r.module_name, r.factory) m.plugins)
                  m))
            (view m)
    record_other k true m apart = (refl, refl)
    record_other k false m apart =
        found_other k (lookup (r.module_name, r.factory) m.plugins) m apart

  restore_other :
      (rs : List PluginInstanceRecord) (k : String) (m : Manager R F)
      → contains k (map (λ r. r.instance_id) rs) ≡ false
      → SameAt k (view (restore_instances R F apply_filters rs m)) (view m)
  unfolding restore_instances
  restore_other [] k m fresh = (refl, refl)
  restore_other (r ∷ rs) k m fresh =
      let here = record_other r k (is_derived r) m (ground arith) in
      let later = restore_other rs k (restore_record R F apply_filters r m) (ground arith) in
      (later.0 ∙ here.0, later.1 ∙ here.1)

  -- The manager at the turn of a record: what stands under its id is as it was, and what the turn
  -- makes of it stays.
  abbrev AtTurn : PluginInstanceRecord → View → View → Type 0
  AtTurn r v w =
      (n : Manager R F) × SameAt r.instance_id (view n) v
      × SameAt r.instance_id w (view (restore_record R F apply_filters r n))

  restore_turn :
      (rs : List PluginInstanceRecord) (r : PluginInstanceRecord) (m : Manager R F)
      → NoRepeat (map (λ r. r.instance_id) rs)
      → In r rs
      → AtTurn r (view m) (view (restore_instances R F apply_filters rs m))
  unfolding restore_instances
  restore_turn [] r m distinct member = absurd member.1
  restore_turn (q ∷ rs) r m distinct (inl here) =
      subst
        (λ x.
          AtTurn x (view m)
            (view (restore_instances R F apply_filters rs (restore_record R F apply_filters q m))))
        here
        (
          m,
          (refl, refl),
          restore_other rs q.instance_id (restore_record R F apply_filters q m) distinct.0,
        )
  restore_turn (q ∷ rs) r m distinct (inr later) =
      let apart = apart_later q.instance_id r rs distinct.0 later in
      let here = record_other q r.instance_id (is_derived q) m apart in
      let (n, before, after) =
        restore_turn rs r (restore_record R F apply_filters q m) distinct.1 later in
      (n, (before.0 ∙ here.0, before.1 ∙ here.1), after)

  -- A snapshot of the record.
  abbrev pub Stands : PluginInstanceRecord → Option PluginInstanceSnapshot → Type 0
  Stands r none = ⊥
  Stands r (some s) =
      (s.instance_id ≡ r.instance_id)
      × (s.factory ≡ r.factory)
      × (s.module_name ≡ r.module_name)
      × (s.scope_id ≡ r.scope_id)
      × (s.enabled ≡ r.enabled)

  module _ (r : PluginInstanceRecord) where
    started-Stands :
        (p : Result Fields × Manager R F)
        → Stands r (lookup r.instance_id (enter_started R F apply_filters r p).instances)
    started-Stands (ok e, m) =
        subst (Stands r) (sym (insert_self r.instance_id _ m.instances))
          (refl, refl, refl, refl, refl)
    started-Stands (err e, m) =
        subst (Stands r) (sym (insert_self r.instance_id _ m.instances))
          (refl, refl, refl, refl, refl)

    idle-Stands :
        (status : String) (m : Manager R F)
        → Stands r (lookup r.instance_id (enter_idle R F apply_filters r status m).instances)
    idle-Stands status m =
        subst (Stands r) (sym (insert_self r.instance_id _ m.instances))
          (refl, refl, refl, refl, refl)

    enabled-Stands :
        (b : Bool) (d : PluginDescriptor) (m : Manager R F)
        → Stands r (
            lookup r.instance_id
              (if not b
                then enter_idle R F apply_filters r "disabled" m
                else enter_started R F apply_filters r
                    (start_record R F apply_filters r d m)).instances)
    enabled-Stands false d m = idle-Stands "disabled" m
    enabled-Stands true d m = started-Stands (start_record R F apply_filters r d m)

    found-Stands :
        (o : Option PluginDescriptor) (m : Manager R F)
        → Stands r (lookup r.instance_id (restore_found R F apply_filters r o m).instances)
    found-Stands none m = idle-Stands "missing" m
    found-Stands (some d) m = enabled-Stands r.enabled d m

    -- A record that is not enabled does not touch the user's properties.
    found_disabled :
        (o : Option PluginDescriptor) (m : Manager R F)
        → r.enabled ≡ false
        → (restore_found R F apply_filters r o m).user_properties ≡ m.user_properties
    found_disabled none m off = refl
    found_disabled (some d) m off = rw off refl

  -- After the loop over stored instances with distinct ids, each record that is not in the scope
  -- of an agent stands under its id, with its factory, module and scope, and enabled or not as it
  -- was, whatever the framework raises.
  pub restore_instances-Stands :
      (rs : List PluginInstanceRecord) (r : PluginInstanceRecord) (m : Manager R F)
      → NoRepeat (map (λ r. r.instance_id) rs)
      → In r rs
      → is_derived r ≡ false
      → Stands r (lookup r.instance_id (restore_instances R F apply_filters rs m).instances)
  restore_instances-Stands rs r m distinct member own =
      let (n, before, after) = restore_turn rs r m distinct member in
      subst (Stands r) (sym after.0)
        (rw own (found-Stands r (lookup (r.module_name, r.factory) n.plugins) n))

  -- The loop over stored instances with distinct ids leaves the user's properties of a record that
  -- is not enabled and not in the scope of an agent as they were in the manager, whatever is stored
  -- for it.
  pub restore_instances-disabled :
      (rs : List PluginInstanceRecord) (r : PluginInstanceRecord) (m : Manager R F)
      → NoRepeat (map (λ r. r.instance_id) rs)
      → In r rs
      → is_derived r ≡ false
      → r.enabled ≡ false
      → lookup r.instance_id (restore_instances R F apply_filters rs m).user_properties
        ≡ lookup r.instance_id m.user_properties
  restore_instances-disabled rs r m distinct member own off =
      let (n, before, after) = restore_turn rs r m distinct member in
      after.1
      ∙ rw own (
          ap (lookup r.instance_id)
            (found_disabled r (lookup (r.module_name, r.factory) n.plugins) n off))
      ∙ before.1
