-- ===== src/Plugin/Coordinator/Restore/Entered.antt =====
-- One round of the first loop of `restore` of src/langharness_plugin/coordinator.py.
use mathlib.Core.Path.{sym, ap, subst, subst⁻¹, ◌∙◌}
use langharness.Prelude.{
  none_ne_some, ℕ, suc, ◌≤◌, String, true, Option, none, some, Result, ok, err, lift, ◌>>=◌,
  string_eq, ◌≡◌, refl, arith, Bool-cases, inl, inr, ◌⊎◌,
}
use langharness.Prelude.Dict.{Dict, lookup, insert, lookup-insert_ne}
use langharness.Prelude.Int.{pos}
use langharness.Prelude.Json.{Fields}
use langharness.Plugin.Discovery.{PluginContribution}
use langharness.Plugin.Manager.{RuntimeStateStore, Framework, Manager}
use langharness.Plugin.Manager.Frame.{OfResult, answered, err_ne_ok}
use langharness.Plugin.Manager.Provenance.{HasId, create_instance-HasId}
use langharness.Plugin.Coordinator.{
  Registration, Surroundings, Coordinator, contribution_properties, is_agent_scope,
}
use langharness.Plugin.Coordinator.Still.{create_next-Still}
use langharness.Plugin.Coordinator.Restore.{
  contribution_of, reattach, create_anew, recreate_from, recreate,
}

module _ (R : RuntimeStateStore) (F : Framework) {Service : Type 0} (E : Surroundings Service)
    (find_service : Manager R F → String → String → Option Service) where
  abbrev State : Type 0
  State = Coordinator R F E find_service

  abbrev view : State → Dict String Registration
  view c = c.manager.provenance

  -- The registration for the next instance.
  abbrev pub renewed : Registration → State → Registration
  renewed r c = record r { instance_id = E.uuid c.next_uuid }

  -- One registration more, and an identifier less.
  abbrev pub Entered : Registration → State → State → Type 0
  Entered r c t =
      (view t ≡ insert (E.uuid c.next_uuid) (renewed r c) (view c))
      × (t.next_uuid ≡ suc c.next_uuid)
      × (t.catalog ≡ c.catalog)

  created-Entered :
      (r : Registration) (k : PluginContribution) (properties : Fields) (c : State)
      → ((create_anew R F E find_service r k properties >>= reattach R F E find_service r) c).0
        ≡ ok tt
      → Entered r c
          ((create_anew R F E find_service r k properties >>= reattach R F E find_service r) c).1
  created-Entered r k properties c done =
      let d = k.descriptor in
      let (s, u, created, whole) =
        answered (create_anew R F E find_service r k properties) (reattach R F E find_service r) c
          tt done in
      let kept : view u ≡ view c =
        ap (λ q. view q.1) (sym created)
        ∙ (create_next-Still R F E find_service d.factory d.module_name r.scope_id properties
              r.enabled).still
            c in
      let named : s.instance_id ≡ E.uuid c.next_uuid =
        subst (OfResult (HasId R F (E.uuid c.next_uuid))) (ap (λ q. q.0) created) (
          (create_instance-HasId R F (λ d'. E.effective d' r.scope_id properties (pos 0))
              (E.uuid c.next_uuid) d.factory d.module_name r.scope_id properties r.enabled
              (pos 0)).answers
            c.manager) in
      subst⁻¹ (λ q. Entered r c q.1) whole
        (
          ap (insert s.instance_id (record r { instance_id = s.instance_id })) kept
              ∙ ap (λ i. insert i (record r { instance_id = i }) (view c)) named,
          ap (λ q. q.1.next_uuid) (sym created),
          ap (λ q. q.1.catalog) (sym created),
        )

  recreated-Entered :
      (r : Registration) (k : PluginContribution) (c : State)
      → (recreate_from R F E find_service r (some k) c).0 ≡ ok tt
      → Entered r c (recreate_from R F E find_service r (some k) c).1
  recreated-Entered r k c = go (contribution_properties E.agent_id k r.scope_id)
    where
      go :
          (properties : Result Fields)
          → ((lift properties >>= λ p.
                create_anew R F E find_service r k p >>= reattach R F E find_service r)
              c).0
            ≡ ok tt
          → Entered r c
              ((lift properties >>= λ p.
                  create_anew R F E find_service r k p >>= reattach R F E find_service r)
                c).1
      go (err e) done = absurd (err_ne_ok done)
      go (ok p) done = created-Entered r k p c done

  module _ (apart : (n m : ℕ) → E.uuid n ≡ E.uuid m → n ≡ m) where
    -- No identifier to come names a registration.
    abbrev pub IsFresh : State → Type 0
    IsFresh c = (n : ℕ) → c.next_uuid ≤ n → lookup (E.uuid n) (view c) ≡ none

    Entered-keeps :
        (r q : Registration) (j : String) (c t : State)
        → IsFresh c
        → Entered r c t
        → lookup j (view c) ≡ some q
        → lookup j (view t) ≡ some q
    Entered-keeps r q j c t fresh entered held =
        ap (lookup j) entered.0
        ∙ lookup-insert_ne (E.uuid c.next_uuid) j (renewed r c) (view c) (λ same.
          none_ne_some
            (sym (fresh c.next_uuid (omega arith)) ∙ ap (λ i. lookup i (view c)) same ∙ held))
        ∙ held

    Entered-IsFresh : (r : Registration) (c t : State) → IsFresh c → Entered r c t → IsFresh t
    Entered-IsFresh r c t fresh entered n later =
        let past : suc c.next_uuid ≤ n = subst (λ m. m ≤ n) entered.1 later in
        ap (lookup (E.uuid n)) entered.0
        ∙ lookup-insert_ne (E.uuid c.next_uuid) (E.uuid n) (renewed r c) (view c)
            (λ same. let equal = apart c.next_uuid n same in omega arith)
        ∙ fresh n (omega arith)

    recreate-cases :
        (r : Registration) (c : State)
        → (recreate R F E find_service r c).0 ≡ ok tt
        → ((recreate R F E find_service r c).1 ≡ c)
          ⊎ Entered r c (recreate R F E find_service r c).1
    unfolding recreate
    recreate-cases r c done = elim (Bool-cases (is_agent_scope r.scope_id)) [
      | inl derived ↦ rw derived (go (contribution_of c.catalog r) (rw derived at done))
      | inr other ↦ inl (rw other refl)
    ]
      where
        go :
            (k : Option PluginContribution)
            → (recreate_from R F E find_service r k c).0 ≡ ok tt
            → ((recreate_from R F E find_service r k c).1 ≡ c)
              ⊎ Entered r c (recreate_from R F E find_service r k c).1
        go none done = inl refl
        go (some k) done = inr (recreated-Entered r k c done)

    pub recreate-Entered :
        (r : Registration) (k : PluginContribution) (c : State)
        → is_agent_scope r.scope_id ≡ true
        → contribution_of c.catalog r ≡ some k
        → (recreate R F E find_service r c).0 ≡ ok tt
        → Entered r c (recreate R F E find_service r c).1
    unfolding recreate
    recreate-Entered r k c derived known done =
        rw (derived, known) (recreated-Entered r k c (rw (derived, known) at done))

    -- What a round does to the rest of the loop.
    abbrev pub IsNext : State → State → Type 0
    IsNext c t =
        IsFresh t
        × (t.catalog ≡ c.catalog)
        × ((q : Registration) (j : String)
            → lookup j (view c) ≡ some q
            → lookup j (view t) ≡ some q)

    pub recreate-IsNext :
        (r : Registration) (c : State)
        → IsFresh c
        → (recreate R F E find_service r c).0 ≡ ok tt
        → IsNext c (recreate R F E find_service r c).1
    recreate-IsNext r c fresh done = elim (recreate-cases r c done) [
      | inl same ↦ subst⁻¹ (IsNext c) same (fresh, refl, λ q j held. held)
      | inr entered ↦
          let t = (recreate R F E find_service r c).1 in
          (
            Entered-IsFresh r c t fresh entered,
            entered.2,
            λ q j held. Entered-keeps r q j c t fresh entered held,
          )
    ]
