-- ===== src/Core/Loop/Reach.antt =====
-- The calls of the component framework on src/langharness_core/plugins/loop/agent_loop.py as steps:
-- a service is injected, and bound if the component is valid, or unbound and taken out, the
-- component is validated or invalidated, and a request asks for the graph.
use langharness.Prelude.{
  ℕ, String, Bool, true, false, List, ◌∷◌, if◌then◌else◌, Option, Result, nat_eq, ◌≡◌,
}
use langharness.Prelude.Int.{ℤ}
use langharness.Plugin.Validation.Guard.{Service}
use langharness.Core.Loop.Services.{
  Field, Kind, single_kind, kind, Reference, PluginAgentLoop, Methods, AgentParts,
}
use langharness.Core.Loop.Rebuild.{rebuild, on_validate, on_invalidate}
use langharness.Core.Loop.Handlers.{on_bind, on_unbind}
use langharness.Core.Loop.Bound.{Injection, IsNew}
use langharness.Core.Loop.Conforming.{IsBound}
use langharness.Core.Loop.Ready.{injected, ejected}

module _ {Graph Value : Type 0} (methods : Methods Value)
    (create_agent : AgentParts Value → Result Graph)
    (attributes : ℕ → Option String × Option String × ℤ) (is_subclass : String → String → Bool)
    (J : Injection) where
  abbrev Loop : Type 0
  Loop = PluginAgentLoop Graph

  -- The component as the framework sees it, with a record of the services that were injected while
  -- it was not valid.
  pub record Component : Type 0 where
    pub loop : Loop
    pub is_valid : Bool
    pub unchecked : List Service

  -- The handlers of the single services are called whenever one leaves, all others only while the
  -- component is valid (`if_valid=True`).
  abbrev pub calls_unbind : Kind → Bool → Bool
  calls_unbind single_kind is_valid = true
  calls_unbind _ is_valid = is_valid

  abbrev pub left : Field → Service → Bool → Bool → Loop → Loop
  left f s running is_valid l = ejected methods create_agent attributes is_subclass J f s (
      if calls_unbind (kind f) is_valid
      then on_unbind methods create_agent attributes is_subclass f s running l
      else l)

  pub data Step : Component → Component → Type 0 where
    bound :
        (f : Field) (s : Service) (reference : Option Reference) (running : Bool) (c : Component)
        → c.is_valid ≡ true
        → IsNew s (c.loop.guards f).field_value
        → Step c (record c {
          loop =
              on_bind methods create_agent attributes is_subclass f s reference running
                (injected methods create_agent attributes is_subclass J f s c.loop);
        })
    injected_unchecked :
        (f : Field) (s : Service) (c : Component)
        → c.is_valid ≡ false
        → IsNew s (c.loop.guards f).field_value
        → Step c (record c {
          loop = injected methods create_agent attributes is_subclass J f s c.loop;
          unchecked = s ∷ c.unchecked;
        })
    unbound :
        (f : Field) (s : Service) (running : Bool) (c : Component)
        → Step c (record c { loop = left f s running c.is_valid c.loop })
    validated :
        (running : Bool) (c : Component)
        → c.is_valid ≡ false
        → Step c (record c {
          loop = on_validate methods create_agent attributes running c.loop;
          is_valid = true;
        })
    invalidated :
        (c : Component)
        → c.is_valid ≡ true
        → Step c (record c {
          loop = on_invalidate methods create_agent attributes c.loop;
          is_valid = false;
        })
    asked :
        (running : Bool) (c : Component)
        → Step c (record c { loop = rebuild methods create_agent attributes running c.loop })

  pub data Reach : Component → Component → Type 0 where
    here : (c : Component) → Reach c c
    after : (c d e : Component) → Reach c d → Step d e → Reach c e

  module _ (unchecked : List Service) where
    abbrev IsReady : Loop → Type 0
    IsReady l = IsBound is_subclass unchecked l.guards
