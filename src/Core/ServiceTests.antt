-- ===== src/Core/ServiceTests.antt =====
-- The theorems on the services of src/langharness_core/plugins/loop/agent_loop.py at loops with a
-- contract of one method, a service that has it and one that does not.
use langharness.Prelude.{
  ℕ, String, Bool, true, false, List, [], ◌∷◌, ◌++◌, Option, none, some, Result, ok, ◌≡◌, refl,
  nat_eq, contains, ◌==◌, string_eq, inr,
}
use langharness.Prelude.Int.{ℤ, pos}
use langharness.Plugin.Validation.Contract.{
  Protocol, function, plain_value, validate, check_method, method_problems, method_contract,
  describe, parameter_problems,
}
use langharness.Plugin.Validation.Guard.{
  Service, FieldValue, single, several, held, quarantine, remove_first, admit,
}
use langharness.Core.Loop.Services.{
  Field, Kind, kind, index, services, middleware_providers, system_prompt_providers,
  interrupt_before_providers, interrupt_after_providers, transformers_providers,
  response_format_provider, state_schema_provider, context_schema_provider, checkpointer_provider,
  store_provider, debug_provider, name_provider, cache_provider, model_kind, scoped_kind, list_kind,
  single_kind, llm_provider, scoped_llm_providers, tool_providers, PluginAgentLoop, Methods,
  AgentParts, remember_service,
}
use langharness.Core.Loop.Rebuild.{rebuild, current, on_invalidate}
use langharness.Core.Loop.Handlers.{on_bind}
use langharness.Core.Loop.Bound.{Injection, idents}
use langharness.Core.Loop.Reach.{Component}
use langharness.Core.Loop.Ready.{injected}
use langharness.Core.Loop.Departure.{departed, departed-graph, departed-stale}

abbrev methods : Methods ℕ
methods = record {
  get_model = λ k. ok (some k);
  get_values = λ f k. ok (k ∷ []);
  get_system_prompt = λ k. ok [];
  get_value = λ f k. ok (some k);
  get_debug = λ k. ok false;
}

abbrev make : AgentParts ℕ → Result (AgentParts ℕ)
make parts = ok parts

abbrev attributes : ℕ → Option String × Option String × ℤ
attributes k = (none, none, pos 0)

abbrev is_subclass : String → String → Bool
is_subclass c d = false

abbrev injection : Injection
injection = record {
  inject = inject;
  eject = eject;
  inject_several = λ s ss. refl;
  inject_single = λ s o. refl;
  eject_several = λ s ss. refl;
  eject_single = λ s o. refl;
}
  where
    inject : Service → FieldValue → FieldValue
    inject s (several ss) = several (ss ++ s ∷ [])
    inject s (single o) = single (some s)

    eject : Service → FieldValue → FieldValue
    eject s (several ss) = several (remove_first s.ident ss)
    eject s (single o) = single none

abbrev protocol : Protocol
protocol = record {
  name = "Tools";
  specification = none;
  functions = ("get_tools", record { signature = inr []; hints = inr [] }) ∷ [];
}

abbrev good : Service
good = record {
  ident = 1;
  attributes = ("get_tools", function (record { signature = inr []; hints = inr [] })) ∷ [];
}

abbrev bad : Service
bad = record { ident = 2; attributes = ("get_tools", plain_value) ∷ [] }

abbrev empty_of : Kind → FieldValue
empty_of model_kind = single none
empty_of scoped_kind = several []
empty_of list_kind = several []
empty_of single_kind = single none

abbrev new_loop : PluginAgentLoop (AgentParts ℕ)
new_loop = record {
  scope_chain = [];
  guards = λ f. record { field_value = empty_of (kind f); protocol = protocol; rejected = [] };
  service_metadata = [];
  excluded_services = [];
  graph = none;
}

abbrev Loop : Type 0
Loop = PluginAgentLoop (AgentParts ℕ)

abbrev component :
    Loop → Bool → List Service → Component methods make attributes is_subclass injection
component l is_valid unchecked = record { loop = l; is_valid = is_valid; unchecked = unchecked }

-- While the component is valid, a tool that conforms is bound, and one that does not is refused.
abbrev with_tool : Loop
with_tool =
    on_bind methods make attributes is_subclass tool_providers good none true
      (injected methods make attributes is_subclass injection tool_providers good new_loop)

abbrev late : Service
late = record { ident = 4; attributes = ("get_tools", plain_value) ∷ [] }

abbrev with_late : Loop
with_late =
    on_bind methods make attributes is_subclass tool_providers late none true
      (injected methods make attributes is_subclass injection tool_providers late with_tool)

-- Then it is invalidated, and a tool that does not conform is injected.
abbrev idle : Loop
idle = on_invalidate methods make attributes with_late

abbrev with_bad : Loop
with_bad = injected methods make attributes is_subclass injection tool_providers bad idle

bad_stays : held (with_bad.guards tool_providers).field_value ≡ good ∷ bad ∷ []
unfolding on_bind on_invalidate admit validate describe check_method method_contract method_problems
    parameter_problems rebuild remember_service quarantine
bad_stays = refl

-- The service that leaves stands in one field only.
abbrev two_tools : PluginAgentLoop (AgentParts ℕ)
two_tools = record new_loop {
  guards = λ f. record { field_value = tools_of f; protocol = protocol; rejected = [] };
}
  where
    tools_of : Field → FieldValue
    tools_of tool_providers = several (good ∷ bad ∷ [])
    tools_of llm_provider = single (some (record { ident = 3; attributes = [] }))
    tools_of f = empty_of (kind f)

abbrev scoped_model : PluginAgentLoop (AgentParts ℕ)
scoped_model = record new_loop {
  guards = λ f. record { field_value = models_of f; protocol = protocol; rejected = [] };
}
  where
    models_of : Field → FieldValue
    models_of llm_provider = single (some good)
    models_of scoped_llm_providers = several (good ∷ [])
    models_of f = empty_of (kind f)

departed-stale_example :
    current methods make attributes llm_provider (
      departed methods make attributes is_subclass injection scoped_llm_providers good true
        scoped_model)
    ≡ some good
departed-stale_example =
    departed-stale methods make attributes is_subclass injection good true scoped_model refl refl

good_alone :
    (h : Field)
    → (index tool_providers == index h) ≡ false
    → contains 1 (idents (services methods make attributes h two_tools)) ≡ false
good_alone llm_provider other = refl
good_alone scoped_llm_providers other = refl
good_alone tool_providers other = cc
good_alone middleware_providers other = refl
good_alone system_prompt_providers other = refl
good_alone interrupt_before_providers other = refl
good_alone interrupt_after_providers other = refl
good_alone transformers_providers other = refl
good_alone response_format_provider other = refl
good_alone state_schema_provider other = refl
good_alone context_schema_provider other = refl
good_alone checkpointer_provider other = refl
good_alone store_provider other = refl
good_alone debug_provider other = refl
good_alone name_provider other = refl
good_alone cache_provider other = refl

departed-graph_example :
    let left =
      departed methods make attributes is_subclass injection tool_providers good true two_tools in
    left.graph ≡ (rebuild methods make attributes true left).graph
departed-graph_example =
    departed-graph methods make attributes is_subclass injection tool_providers good true two_tools
      refl refl (refl, (refl, tt)) refl good_alone
