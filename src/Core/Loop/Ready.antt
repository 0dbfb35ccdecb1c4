-- ===== src/Core/Loop/Ready.antt =====
-- What the handlers of src/langharness_core/plugins/loop/agent_loop.py do to the fields, and which
-- services stand there afterwards.
use mathlib.Core.Path.{sym, ap, subst}
use langharness.Prelude.{
  ℕ, String, Bool, true, false, List, ◌∷◌, Option, none, some, Result, ◌==◌, nat_eq, find,
  find-holds, inl, inr, ◌≡◌, refl,
}
use langharness.Prelude.Int.{ℤ}
use langharness.Plugin.Validation.Contract.{Violation, validate}
use langharness.Plugin.Validation.Guard.{Service, FieldValue, single, ContractGuard, admit, release}
use langharness.Policy.Scoped.{Provider}
use langharness.Core.Loop.Services.{
  Field, Kind, model_kind, scoped_kind, list_kind, single_kind, kind, Reference, PluginAgentLoop,
  Methods, AgentParts, set_guard, remember_with, remember_service, forget_service,
  resolve_scoped_llm, set_model, selected, services, llm_provider, scoped_llm_providers,
}
use langharness.Core.Loop.Rebuild.{rebuild}
use langharness.Core.Loop.Handlers.{bind_answer, on_bind, release_guard, unbind_kind}
use langharness.Core.Loop.Bound.{Injection, IsNew}
use langharness.Core.Loop.Conforming.{
  IsBound, IsAllowed, Fills, changed, changed-IsBound, changed_self, changed_twice,
  admit_with-Fills, admit_with-protocol,
}

module _ {Graph Value : Type 0} (methods : Methods Value)
    (create_agent : AgentParts Value → Result Graph)
    (attributes : ℕ → Option String × Option String × ℤ) (is_subclass : String → String → Bool)
    (J : Injection) where
  abbrev pub Loop : Type 0
  Loop = PluginAgentLoop Graph

  abbrev pub set_value : Field → FieldValue → Loop → Loop
  set_value f v l =
      set_guard methods create_agent attributes f (record (l.guards f) { field_value = v }) l

  abbrev pub injected : Field → Service → Loop → Loop
  injected f s l = set_value f (J.inject s (l.guards f).field_value) l

  abbrev pub ejected : Field → Service → Loop → Loop
  ejected f s l = set_value f (J.eject s (l.guards f).field_value) l

  module _ (unchecked : List Service) where
    abbrev pub IsReady : Loop → Type 0
    IsReady l = IsBound is_subclass unchecked l.guards

    pub resolve-IsReady :
        (l : Loop) → IsReady l → IsReady (resolve_scoped_llm methods create_agent attributes l)
    unfolding resolve_scoped_llm
    resolve-IsReady l ready = go (selected methods create_agent attributes l)
      where
        set :
            (o : Option Service)
            → ((s : Service)
                → o ≡ some s
                → IsAllowed is_subclass unchecked (l.guards llm_provider).protocol s)
            → IsReady (set_model methods create_agent attributes o l)
        set none fits = ready
        set (some s) fits =
            changed-IsBound is_subclass unchecked llm_provider
              (record (l.guards llm_provider) { field_value = single (some s) }) l.guards ready
              (
                refl,
                (refl, tt),
                λ x m. elim m [
                  | inl same ↦
                      subst (IsAllowed is_subclass unchecked (l.guards llm_provider).protocol) same
                        (fits s refl)
                  | inr bad ↦ absurd bad.1
                ],
              )
              refl

        go :
            (o : Option Provider)
            → IsReady (elim o as (λ _. Loop) [
              | none ↦ l
              | some p ↦
                  set_model methods create_agent attributes
                    (find
                      (λ s. s.ident == p.ident)
                      (services methods create_agent attributes scoped_llm_providers l))
                    l
            ])
        go none = ready
        go (some p) =
            set
              (find (λ s. s.ident == p.ident)
                (services methods create_agent attributes scoped_llm_providers l))
              (λ s found.
                subst (λ q. IsAllowed is_subclass unchecked q s) (sym ready.1)
                  ((ready.0 scoped_llm_providers).2 s
                    (find-holds _ (services methods create_agent attributes scoped_llm_providers l)
                      s found).1))

    remember_service-guards :
        (s : Service) (reference : Option Reference) (l : Loop)
        → (remember_service methods create_agent attributes s reference l).guards ≡ l.guards
    unfolding remember_service
    remember_service-guards s none l = refl
    remember_service-guards s (some r) l = known r.scope_id r.plugin_key
      where
        known :
            (scope_id key : Option String)
            → (remember_with methods create_agent attributes s scope_id key r.ranking l).guards
              ≡ l.guards
        known none key = refl
        known (some scope_id) none = refl
        known (some scope_id) (some key) = refl

    rebuild-guards :
        (running : Bool) (l : Loop)
        → (rebuild methods create_agent attributes running l).guards ≡ l.guards
    unfolding rebuild
    rebuild-guards running l = refl

    bind_answer-IsReady :
        (k : Kind) (s : Service) (reference : Option Reference) (running admitted : Bool) (l : Loop)
        → IsReady l
        → IsReady (
            bind_answer methods create_agent attributes is_subclass k s reference running admitted
              l)
    unfolding rebuild
    bind_answer-IsReady model_kind s reference running false l ready = ready
    bind_answer-IsReady scoped_kind s reference running false l ready = ready
    bind_answer-IsReady list_kind s reference running false l ready = ready
    bind_answer-IsReady single_kind s reference running false l ready = ready
    bind_answer-IsReady model_kind s reference running true l ready = ready
    bind_answer-IsReady scoped_kind s reference running true l ready =
        resolve-IsReady (remember_service methods create_agent attributes s reference l) (
          subst (IsBound is_subclass unchecked) (sym (remember_service-guards s reference l)) ready)
    bind_answer-IsReady list_kind s reference running true l ready =
        subst (IsBound is_subclass unchecked) (sym (remember_service-guards s reference l)) ready
    bind_answer-IsReady single_kind s reference running true l ready = ready

    pub on_bind-IsReady :
        (f : Field) (s : Service) (reference : Option Reference) (running : Bool) (l : Loop)
        → IsNew s (l.guards f).field_value
        → IsReady l
        → IsReady (
            on_bind methods create_agent attributes is_subclass f s reference running
              (injected f s l))
    unfolding on_bind admit
    on_bind-IsReady f s reference running l new ready =
        let g : ContractGuard = record (l.guards f) {
          field_value = J.inject s (l.guards f).field_value;
        } in
        let asked : Bool × ContractGuard = admit is_subclass s ((injected f s l).guards f) in
        let same : asked ≡ admit is_subclass s g =
          ap (admit is_subclass s) (changed_self is_subclass f g l.guards) in
        let vs : List (String × Violation) = validate is_subclass s.attributes g.protocol in
        bind_answer-IsReady (kind f) s reference running asked.0
          (set_guard methods create_agent attributes f asked.1 (injected f s l))
          (subst (IsBound is_subclass unchecked)
            (sym (changed_twice is_subclass f asked.1 g l.guards))
            (subst (λ a. IsBound is_subclass unchecked (changed is_subclass f a.1 l.guards))
              (sym same)
              (changed-IsBound is_subclass unchecked f (admit is_subclass s g).1 l.guards ready
                (subst
                  (λ p.
                    Fills is_subclass unchecked (kind f) p (admit is_subclass s g).1.field_value)
                  (sym (admit_with-protocol is_subclass s g vs))
                  (admit_with-Fills is_subclass unchecked J (kind f) s (l.guards f) vs refl new
                    (ready.0 f)))
                (admit_with-protocol is_subclass s g vs))))

    release-IsReady :
        (f : Field) (s : Service) (l : Loop)
        → IsReady l
        → IsReady (release_guard methods create_agent attributes is_subclass f s l)
    unfolding release
    release-IsReady f s l ready =
        changed-IsBound is_subclass unchecked f (release is_subclass s (l.guards f)) l.guards ready
          (ready.0 f) refl

    pub unbind_kind-IsReady :
        (k : Kind) (f : Field) (s : Service) (running : Bool) (l : Loop)
        → IsReady l
        → IsReady (unbind_kind methods create_agent attributes is_subclass k f s running l)
    unfolding rebuild forget_service
    unbind_kind-IsReady model_kind f s running l ready = release-IsReady f s l ready
    unbind_kind-IsReady single_kind f s running l ready = release-IsReady f s l ready
    unbind_kind-IsReady list_kind f s running l ready =
        release-IsReady f s (record l { excluded_services = s.ident ∷ l.excluded_services }) ready
    unbind_kind-IsReady scoped_kind f s running l ready =
        resolve-IsReady
          (forget_service methods create_agent attributes s (
            release_guard methods create_agent attributes is_subclass f s
              (record l { excluded_services = s.ident ∷ l.excluded_services })))
          (release-IsReady f s (record l { excluded_services = s.ident ∷ l.excluded_services })
            ready)
