-- ===== src/Plugin/Coordinator/Restore/Ambiguous.antt =====
-- The registrations after the first loop of `restore` of src/langharness_plugin/coordinator.py.
use mathlib.Core.Path.{sym, ap, subst, subst⁻¹, ◌∙◌}
use langharness.Prelude.{
  none_ne_some, ℕ, String, Bool, true, false, ◌&&◌, List, [], ◌∷◌, In, Option, none, some, ok, err,
  runtime_mutation, Action, ◌>>=◌, ◌==◌, string_eq, beq_refl, if◌then◌else◌, ◌≡◌, ◌≢◌, refl, arith,
  filter, Bool-cases, inl, inr, some_inj,
}
use langharness.Prelude.Dict.{In-of_lookup, Dict, lookup, values, lookup-insert_self}
use langharness.Plugin.Discovery.{PluginContribution}
use langharness.Plugin.Manager.{RuntimeStateStore, Framework, Manager, persist_state}
use langharness.Plugin.Manager.Frame.{answered, Still, bind-Still}
use langharness.Plugin.Manager.Provenance.{persist-Still}
use langharness.Plugin.Manager.Properties.{registrations}
use langharness.Plugin.Coordinator.{
  Registration, Surroundings, Coordinator, on_manager, Catalog, is_agent_scope, registration_name,
  select_registration, sole,
}
use langharness.Plugin.Coordinator.Still.{on_manager-Still, install_adapters-Still}
use langharness.Plugin.Coordinator.Restore.{
  readapt, readapt_from, readapt_each, registered, reattach_all, contribution_of, recreate,
  recreate_each,
}
use langharness.Plugin.Coordinator.Restore.Entered.{
  renewed, Entered, IsFresh, IsNext, recreate-Entered, recreate-IsNext,
}

-- A dict with an accepted value under a key has an accepted value.
filter-cons :
    (p : Registration → Bool) (k : String) (r : Registration) (d : Dict String Registration)
    → lookup k d ≡ some r
    → p r ≡ true
    → (q : Registration) × (qs : List Registration) × (filter p (values d) ≡ q ∷ qs)
filter-cons p k r [] h accepted = cc
filter-cons p k r ((j, w) ∷ d) h accepted = elim (Bool-cases (p w)) [
  | inl keep ↦ (w, filter p (values d), rw keep refl)
  | inr drop ↦ elim (Bool-cases (j == k)) [
    | inl same ↦ cc
    | inr other ↦
        let (q, qs, found) = filter-cons p k r d (rw other at h) accepted in
        (q, qs, rw (drop, found) refl)
  ]
]

sole-two :
    (p : Registration → Bool) (k j : String) (r q : Registration) (d : Dict String Registration)
    → k ≢ j
    → lookup k d ≡ some r
    → lookup j d ≡ some q
    → p r ≡ true
    → p q ≡ true
    → sole (filter p (values d)) ≡ err runtime_mutation
sole-two p k j r q [] apart first second hr hq = cc
sole-two p k j r q ((i, w) ∷ d) apart first second hr hq = elim (Bool-cases (i == k)) [
  | inl same ↦
      let taken : p w ≡ true = ap p (some_inj (rw same at first)) ∙ hr in
      let other : (i == j) ≡ false = ground (arith, string_eq.beq_iff i k, string_eq.beq_iff i j) in
      let (x, xs, found) = filter-cons p j q d (rw other at second) hq in rw (taken, found) refl
  | inr other ↦ elim (Bool-cases (i == j)) [
    | inl same ↦
        let taken : p w ≡ true = ap p (some_inj (rw same at second)) ∙ hq in
        let (x, xs, found) = filter-cons p k r d (rw other at first) hr in rw (taken, found) refl
    | inr other' ↦
        let later = rw other at first in
        elim (Bool-cases (p w)) [
          | inl keep ↦ let (x, xs, found) = filter-cons p k r d later hr in rw (keep, found) refl
          | inr drop ↦ rw drop (sole-two p k j r q d apart later (rw other' at second) hr hq)
        ]
  ]
]

module _ (R : RuntimeStateStore) (F : Framework) {Service : Type 0} (E : Surroundings Service)
    (find_service : Manager R F → String → String → Option Service) where
  abbrev State : Type 0
  State = Coordinator R F E find_service

  abbrev view : State → Dict String Registration
  view c = c.manager.provenance

  module _ (apart : (n m : ℕ) → E.uuid n ≡ E.uuid m → n ≡ m) where
    recreate_each-keeps :
        (rs : List Registration) (c : State) (q : Registration) (j : String)
        → IsFresh R F E find_service apart c
        → (recreate_each R F E find_service rs c).0 ≡ ok tt
        → lookup j (view c) ≡ some q
        → lookup j (view (recreate_each R F E find_service rs c).1) ≡ some q
    unfolding recreate_each
    recreate_each-keeps [] c q j fresh done held = held
    recreate_each-keeps (r ∷ rs) c q j fresh done held =
        let (x, t, went, whole) =
          answered (recreate R F E find_service r) (λ _. recreate_each R F E find_service rs) c tt
            done in
        let next : IsNext R F E find_service apart c t =
          subst (λ p. IsNext R F E find_service apart c p.1) went
            (recreate-IsNext R F E find_service apart r c fresh (ap (λ p. p.0) went)) in
        subst⁻¹ (λ p. lookup j (view p.1) ≡ some q) whole
          (recreate_each-keeps rs t q j next.0 (sym (ap (λ p. p.0) whole) ∙ done) (next.2 q j held))

    -- A registration stands with a copy of it under another identifier.
    abbrev pub IsDoubled : Registration → State → Type 0
    IsDoubled r t =
        (j : String) × (r.instance_id ≢ j)
        × (lookup r.instance_id (view t) ≡ some r)
        × (lookup j (view t) ≡ some (record r { instance_id = j }))

    module _ (r : Registration) (k : PluginContribution)
        (derived : is_agent_scope r.scope_id ≡ true) where
      recreate_each-IsDoubled :
          (rs : List Registration) (c : State)
          → In r rs
          → contribution_of c.catalog r ≡ some k
          → IsFresh R F E find_service apart c
          → lookup r.instance_id (view c) ≡ some r
          → (recreate_each R F E find_service rs c).0 ≡ ok tt
          → IsDoubled r (recreate_each R F E find_service rs c).1
      unfolding recreate_each
      recreate_each-IsDoubled [] c member known fresh held done = absurd member.1
      recreate_each-IsDoubled (q ∷ rs) c member known fresh held done =
          let (x, t, went, whole) =
            answered (recreate R F E find_service q) (λ _. recreate_each R F E find_service rs) c tt
              done in
          let over = sym (ap (λ p. p.0) whole) ∙ done in
          let next : IsNext R F E find_service apart c t =
            subst (λ p. IsNext R F E find_service apart c p.1) went
              (recreate-IsNext R F E find_service apart q c fresh (ap (λ p. p.0) went)) in
          subst⁻¹ (λ p. IsDoubled r p.1) whole
            (elim member [
              | inr later ↦
                  recreate_each-IsDoubled rs t later (ap (λ g. contribution_of g r) next.1 ∙ known)
                    next.0 (next.2 r r.instance_id held) over
              | inl here ↦
                  let went' : recreate R F E find_service r c ≡ (ok x, t) =
                    subst (λ q. recreate R F E find_service q c ≡ (ok x, t)) here went in
                  let entered : Entered R F E find_service r c t =
                    subst (λ p. Entered R F E find_service r c p.1) went'
                      (recreate-Entered R F E find_service apart r k c derived known
                        (ap (λ p. p.0) went')) in
                  (
                    E.uuid c.next_uuid,
                    (λ same. none_ne_some (
                        sym (fresh c.next_uuid (omega arith))
                        ∙ ap (λ i. lookup i (view c)) (sym same)
                        ∙ held)),
                    recreate_each-keeps rs t r r.instance_id next.0 over
                        (next.2 r r.instance_id held),
                    recreate_each-keeps rs t (renewed R F E find_service r c) (E.uuid c.next_uuid)
                        next.0 over
                        (ap (lookup (E.uuid c.next_uuid)) entered.0
                          ∙ lookup-insert_self (E.uuid c.next_uuid) (renewed R F E find_service r c)
                              (view c)),
                  )
            ])

    IsDoubled-ambiguous :
        (r : Registration) (t : State) (catalog : Catalog)
        → IsDoubled r t
        → select_registration catalog
            (registration_name catalog r)
            r.scope_id
            (registrations R F t.manager)
          ≡ err runtime_mutation
    unfolding select_registration registration_name
    IsDoubled-ambiguous r t catalog (j, differ, old, new) =
        sole-two
          (λ q.
            (q.scope_id == r.scope_id)
            && (registration_name catalog q == registration_name catalog r))
          r.instance_id j r (record r { instance_id = j }) (view t) differ old new
          (ground (arith, beq_refl r.scope_id, beq_refl (registration_name catalog r)))
          (ground (arith, beq_refl r.scope_id, beq_refl (registration_name catalog r)))

    readapt-Still : (r : Registration) → Still view (readapt R F E find_service r)
    readapt-Still r = record { still = λ c. gate c r.enabled }
      where
        go :
            (c : State) (k : Option PluginContribution)
            → view (readapt_from R F E find_service r k c).1 ≡ view c
        go c none = refl
        go c (some k) = (install_adapters-Still R F E find_service r k).still c

        gate :
            (c : State) (b : Bool)
            → view
                (if b
                  then readapt_from R F E find_service r (contribution_of c.catalog r) c
                  else (ok tt, c)).1
              ≡ view c
        gate c true = go c (contribution_of c.catalog r)
        gate c false = refl

    readapt_each-Still : (rs : List Registration) → Still view (readapt_each R F E find_service rs)
    unfolding readapt_each
    readapt_each-Still [] = record { still = λ c. refl }
    readapt_each-Still (r ∷ rs) =
        bind-Still view (readapt R F E find_service r) (λ _. readapt_each R F E find_service rs)
          (readapt-Still r) (λ _. readapt_each-Still rs)

    reattach_all-view :
        (c : State) (rs : List Registration)
        → (reattach_all R F E find_service c).0 ≡ ok rs
        → ((recreate_each R F E find_service (registrations R F c.manager) c).0 ≡ ok tt)
          × (view (reattach_all R F E find_service c).1
              ≡ view (recreate_each R F E find_service (registrations R F c.manager) c).1)
    unfolding reattach_all
    reattach_all-view c rs done =
        let persist : Action State (Unit {0}) = on_manager R F E find_service (persist_state R F) in
        let all = registered R F E find_service in
        let rest : Action State (List Registration) =
          all >>= λ rs. readapt_each R F E find_service rs >>= λ _. persist >>= λ _. all in
        let rest-Still : Still view rest =
          bind-Still view all _ (record { still = λ s. refl })
            (λ rs.
              bind-Still view (readapt_each R F E find_service rs) _ (readapt_each-Still rs) (λ _.
                bind-Still view persist (λ _. all)
                  (on_manager-Still R F E find_service (persist_state R F) (persist-Still R F))
                  (λ _. record { still = λ s. refl }))) in
        let (x, t, went, whole) =
          answered (recreate_each R F E find_service (registrations R F c.manager)) (λ _. rest) c rs
            done in
        (
          ap (λ p. p.0) went,
          ap (λ p. view p.1) whole ∙ rest-Still.still t ∙ ap (λ p. view p.1) (sym went),
        )

    -- With identifiers that are not repeated and none to come in use, when `restore` answers
    -- after the restore of the manager, a registration in the scope of an agent whose contribution
    -- is in the catalog stands beside a copy of it, and no look-up by its name and scope finds it:
    -- it raises for the two.
    pub reattach_all-ambiguous :
        (r : Registration) (k : PluginContribution) (c : State) (rs : List Registration)
        → is_agent_scope r.scope_id ≡ true
        → contribution_of c.catalog r ≡ some k
        → IsFresh R F E find_service apart c
        → lookup r.instance_id c.manager.provenance ≡ some r
        → (reattach_all R F E find_service c).0 ≡ ok rs
        → (catalog : Catalog)
        → let after = (reattach_all R F E find_service c).1 in
          IsDoubled r after
          × (select_registration catalog
                (registration_name catalog r)
                r.scope_id
                (registrations R F after.manager)
              ≡ err runtime_mutation)
    reattach_all-ambiguous r k c rs derived known fresh held done catalog =
        let (over, same) = reattach_all-view c rs done in
        let all = registrations R F c.manager in
        let member : In r all = In-of_lookup r.instance_id r c.manager.provenance held in
        let doubled : IsDoubled r (reattach_all R F E find_service c).1 =
          subst⁻¹
            (λ d.
              (j : String) × (r.instance_id ≢ j)
              × (lookup r.instance_id d ≡ some r)
              × (lookup j d ≡ some (record r { instance_id = j })))
            same (recreate_each-IsDoubled r k derived all c member known fresh held over) in
        (doubled, IsDoubled-ambiguous r (reattach_all R F E find_service c).1 catalog doubled)
