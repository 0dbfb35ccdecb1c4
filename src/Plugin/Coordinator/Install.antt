-- ===== src/Plugin/Coordinator/Install.antt =====
-- `install` of src/langharness_plugin/coordinator.py enters a registration when it answers, and
-- leaves none when it raises.
use mathlib.Core.Path.{subst, subst⁻¹, sym, ap, ◌∙◌}
use langharness.Prelude.{
  none_ne_some, String, true, [], ◌∷◌, Option, none, some, Result, ok, err, Error, Action, raise,
  lift, ◌>>=◌, ◌==◌, string_eq, ◌≡◌, refl, arith, Bool-cases, inl, inr, beq_refl, some_inj,
}
use langharness.Prelude.Dict.{Dict, lookup, values, insert, erase, lookup-insert_self}
use langharness.Prelude.Int.{pos}
use langharness.Prelude.Json.{Fields}
use langharness.Plugin.Discovery.{PluginPackage, PluginContribution}
use langharness.Plugin.Manager.{
  PluginInstanceSnapshot, RuntimeStateStore, Framework, Manager, persist_state, delete_instance,
}
use langharness.Plugin.Manager.Frame.{Still, bind-Still, OfResult, bind_cases, err_ne_ok}
use langharness.Plugin.Manager.Provenance.{
  persist-Still, delete_instance-Still, HasId, create_instance-HasId,
}
use langharness.Plugin.Manager.Properties.{registrations, attach_provenance, detach_provenance}
use langharness.Plugin.Coordinator.{
  Registration, Surroundings, Coordinator, on_manager, install_unknown, create_next,
  install_adapters, kill_adapters, register, install_chosen, install_unless, install_read,
  read_request, install, registration_for, existing_registration, is_same_request,
}
use langharness.Plugin.Coordinator.Still.{
  on_manager-Still, install_unknown-Still, create_next-Still, install_adapters-Still,
  kill_adapters-Still, kill_adapters_answers,
}

-- A new entry that is taken out again.
erase-insert_new :
    {V : Type 0} (k : String) (v : V) (d : Dict String V)
    → lookup k d ≡ none
    → erase k (insert k v d) ≡ d
erase-insert_new k v [] h = ground (arith, beq_refl k)
erase-insert_new k v ((j, w) ∷ d) h = ground (arith, erase-insert_new k v d)

module _ (R : RuntimeStateStore) (F : Framework) {Service : Type 0} (E : Surroundings Service)
    (find_service : Manager R F → String → String → Option Service) where
  abbrev State : Type 0
  State = Coordinator R F E find_service

  abbrev view : State → Dict String Registration
  view c = c.manager.provenance

  -- The outcome of an installation, from these registrations.
  abbrev pub Outcome : Dict String Registration → Result Registration × State → Type 0
  Outcome before (ok r, c) = lookup r.instance_id c.manager.provenance ≡ some r
  Outcome before (err e, c) = c.manager.provenance ≡ before

  -- What `register` undoes.
  abbrev undo : Registration → Action State (Unit {0})
  undo r = kill_adapters R F E find_service r >>= λ _.
      on_manager R F E find_service (detach_provenance R F r.instance_id) >>= λ _.
      on_manager R F E find_service (delete_instance R F r.instance_id)

  undo-erases :
      (r : Registration) (c : State) → view (undo r c).1 ≡ erase r.instance_id c.manager.provenance
  undo-erases r c =
      let detach = on_manager R F E find_service (detach_provenance R F r.instance_id) in
      let delete = on_manager R F E find_service (delete_instance R F r.instance_id) in
      elim (bind_cases (kill_adapters R F E find_service r) (λ _. detach >>= λ _. delete) c) [
        | inl (e, t, stopped, whole) ↦
            absurd (
              err_ne_ok
                (sym (ap (λ p. p.0) stopped) ∙ kill_adapters_answers R F E find_service r c))
        | inr (x, t, killed, whole) ↦
            ap (λ p. view p.1) whole
            ∙ (delete_instance-Still R F r.instance_id).still (detach t).1.manager
            ∙ ap (erase r.instance_id) (
                ap (λ p. view p.1) (sym killed)
                ∙ (kill_adapters-Still R F E find_service r).still c)
      ]

  abbrev again : Error → Unit {0} → Action State (Unit {0})
  again e _ = raise e

  undo_raises :
      (r : Registration) (e : Error) (t : State)
      → (e' : Error) × (u : State) × ((undo r >>= again e) t ≡ (err e', u))
        × (view u ≡ erase r.instance_id (view t))
  undo_raises r e t = elim (bind_cases (undo r) (again e) t) [
    | inl (e', u, stopped, whole) ↦
        (e', u, whole, ap (λ p. view p.1) (sym stopped) ∙ undo-erases r t)
    | inr (x, u, undone, whole) ↦ (e, u, whole, ap (λ p. view p.1) (sym undone) ∙ undo-erases r t)
  ]

  register-Outcome :
      (r : Registration) (c : PluginContribution) (s : State)
      → lookup r.instance_id s.manager.provenance ≡ none
      → Outcome s.manager.provenance (register R F E find_service r c s)
  register-Outcome r c s new =
      let attached = (on_manager R F E find_service (attach_provenance R F r) s).1 in
      let body : Action State (Unit {0}) = install_adapters R F E find_service r c >>= λ _.
      on_manager R F E find_service (persist_state R F) in
      let body-Still : Still view body =
        bind-Still view (install_adapters R F E find_service r c) _
          (install_adapters-Still R F E find_service r c)
          (λ _. on_manager-Still R F E find_service (persist_state R F) (persist-Still R F)) in
      finish (body attached).0 (body attached).1 (body-Still.still attached)
    where
      finish :
          (b : Result (Unit {0})) (t : State)
          → view t ≡ insert r.instance_id r s.manager.provenance
          → Outcome s.manager.provenance (
              let (b', t') : Result (Unit {0}) × State =
                elim b as (λ _. Result (Unit {0}) × State) [
                  | ok x ↦ (ok x, t)
                  | err e ↦ (undo r >>= λ _. raise e) t
                ] in
              elim b' as (λ _. Result Registration × State) [
                | ok x ↦ (ok r, t')
                | err e ↦ (err e, t')
              ])
      finish (ok x) t held =
          subst⁻¹ (λ d. lookup r.instance_id d ≡ some r) held
            (lookup-insert_self r.instance_id r s.manager.provenance)
      finish (err e) t held =
          let (e', u, whole, erased) = undo_raises r e t in
          subst⁻¹
            (λ p. Outcome s.manager.provenance (elim p.0 as (λ _. Result Registration × State) [
              | ok x ↦ (ok r, p.1)
              | err x ↦ (err x, p.1)
            ]))
            whole
            (erased
              ∙ ap (erase r.instance_id) held
              ∙ erase-insert_new r.instance_id r s.manager.provenance new)

  install_chosen-Outcome :
      (p : PluginPackage) (c : PluginContribution) (scope_id : String) (properties : Fields)
      (key : Option String) (s : State)
      → lookup (E.uuid s.next_uuid) s.manager.provenance ≡ none
      → Outcome s.manager.provenance
          (install_chosen R F E find_service p c scope_id properties key s)
  install_chosen-Outcome p c scope_id properties key s new =
      let d = c.descriptor in
      let first = on_manager R F E find_service (install_unknown R F E find_service d) in
      let second =
        create_next R F E find_service d.factory d.module_name scope_id properties true in
      let third : PluginInstanceSnapshot → Action State Registration = λ i.
        register R F E find_service
          (registration_for p.package_id c.contribution_id p.version i scope_id true key) c in
      elim (bind_cases first (λ _. second >>= third) s) [
        | inl (e, t, stopped, whole) ↦ subst⁻¹ (Outcome s.manager.provenance) whole (
            ap (λ q. view q.1) (sym stopped)
            ∙ (install_unknown-Still R F E find_service d).still s.manager)
        | inr (x, t, installed, whole) ↦
            let kept : view t ≡ view s =
              ap (λ q. view q.1) (sym installed)
              ∙ (install_unknown-Still R F E find_service d).still s.manager in
            let number : t.next_uuid ≡ s.next_uuid = ap (λ q. q.1.next_uuid) (sym installed) in
            subst⁻¹ (Outcome s.manager.provenance) whole (elim (bind_cases second third t) [
              | inl (e, u, stopped, whole') ↦ subst⁻¹ (Outcome s.manager.provenance) whole' (
                  ap (λ q. view q.1) (sym stopped)
                  ∙ (create_next-Still R F E find_service d.factory d.module_name scope_id
                        properties true).still
                      t
                  ∙ kept)
              | inr (i, u, created, whole') ↦
                  let kept' : view u ≡ view s =
                    ap (λ q. view q.1) (sym created)
                    ∙ (create_next-Still R F E find_service d.factory d.module_name scope_id
                          properties true).still
                        t
                    ∙ kept in
                  let named : i.instance_id ≡ E.uuid t.next_uuid =
                    subst (OfResult (HasId R F (E.uuid t.next_uuid))) (ap (λ q. q.0) created) (
                      (create_instance-HasId R F (λ d'. E.effective d' scope_id properties (pos 0))
                          (E.uuid t.next_uuid) d.factory d.module_name scope_id properties true
                          (pos 0)).answers
                        t.manager) in
                  let own : i.instance_id ≡ E.uuid s.next_uuid = named ∙ ap E.uuid number in
                  let absent : lookup i.instance_id u.manager.provenance ≡ none =
                    subst⁻¹ (λ k. lookup k u.manager.provenance ≡ none) own
                      (subst⁻¹ (λ m. lookup (E.uuid s.next_uuid) m ≡ none) kept' new) in
                  subst⁻¹ (Outcome s.manager.provenance) whole' (
                    subst (λ before. Outcome before (third i u)) kept'
                      (register-Outcome
                        (registration_for p.package_id c.contribution_id p.version i scope_id true
                          key)
                        c u absent))
            ])
      ]

  install_unless-Outcome :
      (p : PluginPackage) (c : PluginContribution) (scope_id : String) (properties : Fields)
      (key : Option String) (found : Option Registration) (s : State)
      → ((r : Registration) → found ≡ some r → lookup r.instance_id s.manager.provenance ≡ some r)
      → lookup (E.uuid s.next_uuid) s.manager.provenance ≡ none
      → Outcome s.manager.provenance
          (install_unless R F E find_service p c scope_id properties key found s)
  install_unless-Outcome p c scope_id properties key (some r) s known new = known r refl
  install_unless-Outcome p c scope_id properties key none s known new =
      install_chosen-Outcome p c scope_id properties key s new

  -- Each registration stands under its instance.
  abbrev pub IsKeyed : Dict String Registration → Type 0
  IsKeyed [] = Unit
  IsKeyed ((k, r) ∷ d) = (k ≡ r.instance_id) × (lookup k d ≡ none) × IsKeyed d

  existing-known :
      (p c scope_id : String) (key : Option String) (d : Dict String Registration)
      (r : Registration)
      → IsKeyed d
      → existing_registration p c scope_id key (values d) ≡ some r
      → lookup r.instance_id d ≡ some r
  existing-known p c scope_id none d r keyed h = cc
  existing-known p c scope_id (some key) [] r keyed h = cc
  existing-known p c scope_id (some key) ((k, q) ∷ d) r keyed h =
      elim (Bool-cases (is_same_request p c scope_id key q)) [
        | inl same ↦
            let eq : q ≡ r = some_inj (rw same at h) in
            let here : k ≡ r.instance_id = keyed.0 ∙ ap (λ x. x.instance_id) eq in
            ground (arith, string_eq.beq_iff k r.instance_id, ap (λ x. some x) eq)
        | inr other ↦
            let later = existing-known p c scope_id (some key) d r keyed.2 (rw other at h) in
            elim (Bool-cases (k == r.instance_id)) [
              | inl clash ↦
                  let eq : k ≡ r.instance_id = (string_eq.beq_iff k r.instance_id).0 clash in
                  absurd (none_ne_some (sym (subst (λ j. lookup j d ≡ none) eq keyed.1) ∙ later))
              | inr apart ↦ rw apart later
            ]
      ]

  -- With a new identifier at hand and each registration under its instance, an installation that
  -- answers has its registration entered, and one that raises leaves the registrations as they
  -- were.
  pub install-Outcome :
      (package_id contribution_id : String) (scope_id key : Option String) (s : State)
      → IsKeyed s.manager.provenance
      → lookup (E.uuid s.next_uuid) s.manager.provenance ≡ none
      → Outcome s.manager.provenance
          (install R F E find_service package_id contribution_id scope_id key s)
  unfolding install
  install-Outcome package_id contribution_id scope_id key s keyed new =
      go (read_request R F E find_service s.catalog package_id contribution_id scope_id)
    where
      go :
          (found : Result (PluginPackage × PluginContribution × String × Fields))
          → Outcome s.manager.provenance
              ((lift found >>= install_read R F E find_service package_id contribution_id key) s)
      go (err e) = refl
      go (ok (p, c, scope, properties)) =
          install_unless-Outcome p c scope properties key
            (existing_registration package_id contribution_id scope key
              (registrations R F s.manager))
            s
            (λ r found.
              existing-known package_id contribution_id scope key s.manager.provenance r keyed
                found)
            new
