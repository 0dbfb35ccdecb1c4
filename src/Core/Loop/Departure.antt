-- ===== src/Core/Loop/Departure.antt =====
-- The graph of src/langharness_core/plugins/loop/agent_loop.py after a service has left.
use mathlib.Core.Path.{fun_ext, sym, ap, subst, ◌∙◌}
use langharness.Prelude.{
  ℕ, String, Bool, false, not, List, [], ◌∷◌, ◌||◌, map, filter, Option, none, some, Result, ◌==◌,
  nat_eq, if◌then◌else◌, contains, find, is_nonempty, NoRepeat, ◌≡◌, refl, arith, nat_beq_iff,
}
use langharness.Prelude.Int.{ℤ}
use langharness.Policy.Scoped.{Provider, resolve_scoped_aggregate, resolve_scoped_best}
use langharness.Plugin.Validation.Guard.{Service, held, release}
use langharness.Core.Loop.Services.{
  Field, Kind, index, list_kind, llm_provider, scoped_llm_providers, selected, resolve_scoped_llm,
  kind, PluginAgentLoop, Methods, AgentParts, forget_service, without_excluded, effective, services,
  provider_of, set_model,
}
use langharness.Core.Loop.Rebuild.{current, build, build_from, or_no_graph, rebuild}
use langharness.Core.Loop.Handlers.{on_unbind, release_guard, unbind_kind}
use langharness.Core.Loop.Bound.{Injection, idents}
use langharness.Core.Loop.Conforming.{HasShape}
use langharness.Core.Loop.Ready.{ejected}
use langharness.Core.Loop.Departed.{released, emptied, kept, same-current}

abbrev without_list : List ℕ → List Service → List Service
without_list excluded ss =
    if not (is_nonempty excluded) then ss else filter (λ x. not (contains x.ident excluded)) ss

module _ {Graph Value : Type 0} (methods : Methods Value)
    (create_agent : AgentParts Value → Result Graph)
    (attributes : ℕ → Option String × Option String × ℤ) (is_subclass : String → String → Bool)
    (J : Injection) where
  abbrev pub departed : Field → Service → Bool → PluginAgentLoop Graph → PluginAgentLoop Graph
  departed f s running l =
      ejected methods create_agent attributes is_subclass J f s
        (on_unbind methods create_agent attributes is_subclass f s running l)

  module _ (f : Field) (s : Service) (running : Bool) (l : PluginAgentLoop Graph) where
    abbrev State : Type 0
    State = PluginAgentLoop Graph

    -- The loop in which the graph is built, and the one that is left, where nothing is excluded.
    building : State
    building = forget_service methods create_agent attributes s (
        release_guard methods create_agent attributes is_subclass f s
          (record l { excluded_services = s.ident ∷ [] }))

    excluded_left : List ℕ
    excluded_left = filter (λ k. not (k == s.ident)) (s.ident ∷ [])

    remaining : State
    remaining =
        ejected methods create_agent attributes is_subclass J f s
          (record (rebuild methods create_agent attributes running building) {
            excluded_services = excluded_left;
          })

    excluded_left-nil : excluded_left ≡ []
    unfolding excluded_left
    excluded_left-nil = ground (arith, nat_beq_iff s.ident s.ident)

    same_build :
        HasShape list_kind (l.guards f).field_value
        → NoRepeat (idents (held (l.guards f).field_value))
        → ((h : Field)
            → (index f == index h) ≡ false
            → contains s.ident (idents (held (l.guards h).field_value)) ≡ false)
        → build methods create_agent attributes running building
          ≡ build methods create_agent attributes running remaining
    unfolding building remaining rebuild build effective without_excluded forget_service released
        emptied
    same_build shape distinct alone =
        ap
          (λ c.
            build_from methods create_agent attributes c
              (λ h. effective methods create_agent attributes h building) running)
          (fun_ext (same-current f s is_subclass J l.guards shape))
        ∙ ap
            (λ e.
              build_from methods create_agent attributes
                (λ h. current methods create_agent attributes h remaining) e running)
            (fun_ext λ h.
              ap
                (λ ss.
                  resolve_scoped_aggregate l.scope_chain
                    (map (provider_of methods create_agent attributes) ss)
                    building.service_metadata)
                (kept f s is_subclass J l.guards shape distinct alone h
                  ∙ sym (
                      ap
                        (λ x.
                          without_list x (held (emptied f s is_subclass J l.guards h).field_value))
                        excluded_left-nil)))

  -- When a service leaves a list of services with each once, where nothing else is excluded and it
  -- stands in no other field, the graph then is the one that a rebuild makes of the services that
  -- are left, or none if that makes none.
  pub departed-graph :
      (f : Field) (s : Service) (running : Bool) (l : PluginAgentLoop Graph)
      → kind f ≡ list_kind
      → HasShape list_kind (l.guards f).field_value
      → NoRepeat (idents (services methods create_agent attributes f l))
      → l.excluded_services ≡ []
      → ((h : Field)
          → (index f == index h) ≡ false
          → contains s.ident (idents (services methods create_agent attributes h l)) ≡ false)
      → (departed f s running l).graph
        ≡ (rebuild methods create_agent attributes running (departed f s running l)).graph
  unfolding on_unbind rebuild build effective without_excluded forget_service released emptied
      building remaining excluded_left
  departed-graph f s running l listed shape distinct none_out alone =
      subst (λ k. Rebuilt k l.excluded_services) (sym listed)
        (subst (Rebuilt list_kind) (sym none_out) (
          ap (or_no_graph methods create_agent attributes)
            (same_build f s running l shape distinct alone)))
    where
      left : Kind → List ℕ → PluginAgentLoop Graph
      left k excluded = ejected methods create_agent attributes is_subclass J f s (
          unbind_kind methods create_agent attributes is_subclass k f s running
            (record l { excluded_services = excluded }))

      Rebuilt : Kind → List ℕ → Type 0
      Rebuilt k excluded =
          (left k excluded).graph
          ≡ (rebuild methods create_agent attributes running (left k excluded)).graph

  module _ (s : Service) (running : Bool) (l : PluginAgentLoop Graph)
      (last : services methods create_agent attributes scoped_llm_providers l ≡ s ∷ []) where
    abbrev leaving : PluginAgentLoop Graph
    leaving = forget_service methods create_agent attributes s (
        release_guard methods create_agent attributes is_subclass scoped_llm_providers s
          (record l { excluded_services = s.ident ∷ l.excluded_services }))

    nothing_left : selected methods create_agent attributes leaving ≡ none
    unfolding forget_service release without_excluded resolve_scoped_best
    nothing_left =
        ap
          (λ ss.
            resolve_scoped_best l.scope_chain
              (map (provider_of methods create_agent attributes)
                (filter (λ x. not (contains x.ident (s.ident ∷ l.excluded_services))) ss))
              leaving.service_metadata)
          last
        ∙ ap
            (λ b.
              resolve_scoped_best l.scope_chain
                (map (provider_of methods create_agent attributes)
                  (if not (b || contains s.ident l.excluded_services) then s ∷ [] else []))
                leaving.service_metadata)
            ((nat_beq_iff s.ident s.ident).1 refl)

    -- When the last of the services for models by scope leaves and is the model, it stays the
    -- model.
    pub departed-stale :
        current methods create_agent attributes llm_provider l ≡ some s
        → current methods create_agent attributes llm_provider
            (departed scoped_llm_providers s running l)
          ≡ some s
    unfolding on_unbind resolve_scoped_llm rebuild
    departed-stale model =
        ap (λ o. current methods create_agent attributes llm_provider (resolved o)) nothing_left
        ∙ model
      where
        resolved : Option Provider → PluginAgentLoop Graph
        resolved o = elim o [
          | none ↦ leaving
          | some p ↦
              set_model methods create_agent attributes
                (find (λ x. x.ident == p.ident)
                  (services methods create_agent attributes scoped_llm_providers leaving))
                leaving
        ]
