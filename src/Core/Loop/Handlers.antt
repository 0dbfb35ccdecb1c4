-- ===== src/Core/Loop/Handlers.antt =====
-- The handlers of src/langharness_core/plugins/loop/agent_loop.py that the component framework
-- calls when a service is bound to a field, once it is injected there, and when it is unbound,
-- before it is taken out.
use langharness.Prelude.{
  ℕ, String, Bool, true, false, not, ◌∷◌, filter, Option, Result, ◌==◌, nat_eq,
}
use langharness.Prelude.Int.{ℤ}
use langharness.Plugin.Validation.Guard.{Service, admit, release}
use langharness.Core.Loop.Services.{
  Field, Kind, model_kind, scoped_kind, list_kind, single_kind, kind, Reference, PluginAgentLoop,
  Methods, AgentParts, set_guard, remember_service, forget_service, resolve_scoped_llm,
}
use langharness.Core.Loop.Rebuild.{rebuild, clear}

-- `is_subclass` is `issubclass` of two classes, which the guards ask.
module _ {Graph Value : Type 0} (methods : Methods Value)
    (create_agent : AgentParts Value → Result Graph)
    (attributes : ℕ → Option String × Option String × ℤ)
    (is_subclass : String → String → Bool) where
  -- What a handler does with the answer of the guard.
  abbrev pub bind_answer :
      Kind
      → Service
      → Option Reference
      → Bool
      → Bool
      → PluginAgentLoop Graph
      → PluginAgentLoop Graph
  bind_answer model_kind s reference running false l = clear methods create_agent attributes l
  bind_answer _ s reference running false l = l
  bind_answer model_kind s reference running true l =
      rebuild methods create_agent attributes running l
  bind_answer scoped_kind s reference running true l =
      rebuild methods create_agent attributes running (
        resolve_scoped_llm methods create_agent attributes
          (remember_service methods create_agent attributes s reference l))
  bind_answer list_kind s reference running true l =
      rebuild methods create_agent attributes running
        (remember_service methods create_agent attributes s reference l)
  bind_answer single_kind s reference running true l =
      rebuild methods create_agent attributes running l

  -- `_on_…_bind` of a field.
  unfoldable pub on_bind :
      Field → Service → Option Reference → Bool → PluginAgentLoop Graph → PluginAgentLoop Graph
  unfolding admit remember_service resolve_scoped_llm rebuild
  on_bind f s reference running l =
      let (admitted, g) = admit is_subclass s (l.guards f) in
      bind_answer (kind f) s reference running admitted
        (set_guard methods create_agent attributes f g l)

  abbrev pub release_guard : Field → Service → PluginAgentLoop Graph → PluginAgentLoop Graph
  release_guard f s l =
      set_guard methods create_agent attributes f (release is_subclass s (l.guards f)) l

  -- `_excluding_service` around a call.
  abbrev pub excluding :
      Service
      → (PluginAgentLoop Graph → PluginAgentLoop Graph)
      → PluginAgentLoop Graph
      → PluginAgentLoop Graph
  excluding s call l =
      let after = call (record l { excluded_services = s.ident ∷ l.excluded_services }) in
      record after { excluded_services = filter (λ k. not (k == s.ident)) after.excluded_services }

  abbrev pub unbind_kind :
      Kind → Field → Service → Bool → PluginAgentLoop Graph → PluginAgentLoop Graph
  unbind_kind scoped_kind f s running l =
      excluding s
        (λ m. rebuild methods create_agent attributes running (
          resolve_scoped_llm methods create_agent attributes
            (forget_service methods create_agent attributes s (release_guard f s m))))
        l
  unbind_kind list_kind f s running l =
      excluding s
        (λ m.
          rebuild methods create_agent attributes running
            (forget_service methods create_agent attributes s (release_guard f s m)))
        l
  unbind_kind _ f s running l = clear methods create_agent attributes (release_guard f s l)

  -- `_on_…_unbind` of a field.
  unfoldable pub on_unbind : Field → Service → Bool → PluginAgentLoop Graph → PluginAgentLoop Graph
  unfolding release forget_service resolve_scoped_llm rebuild
  on_unbind f s running l = unbind_kind (kind f) f s running l
