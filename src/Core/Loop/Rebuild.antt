-- ===== src/Core/Loop/Rebuild.antt =====
-- `_rebuild` of src/langharness_core/plugins/loop/agent_loop.py, and the handlers of the component's
-- start and end.
use langharness.Prelude.{
  ℕ, String, Bool, false, not, ◌&&◌, List, [], ◌∷◌, ◌++◌, filter, Option, none, some, Result, ok,
  err, bind, nat_eq, string_eq, if◌then◌else◌, is_nonempty, is_some,
}
use langharness.Prelude.Int.{ℤ}
use langharness.Policy.Scoped.{Provider}
use langharness.Plugin.Validation.Guard.{Service, FieldValue, single, several}
use langharness.Core.Loop.Stream.{Text}
use langharness.Core.Loop.Services.{
  Field, PluginAgentLoop, Methods, AgentParts, effective, resolve_scoped_llm, llm_provider,
  tool_providers, middleware_providers, system_prompt_providers, interrupt_before_providers,
  interrupt_after_providers, transformers_providers, response_format_provider,
  state_schema_provider, context_schema_provider, checkpointer_provider, store_provider,
  debug_provider, name_provider, cache_provider,
}

abbrev pub list_or_none : {A : Type 0} → List A → Option (List A)
list_or_none [] = none
list_or_none (x ∷ xs) = some (x ∷ xs)

-- The results of a call for each of a list, joined.
abbrev pub collect : {A : Type 0} → (ℕ → Result (List A)) → List Provider → Result (List A)
collect get [] = ok []
collect get (p ∷ ps) = bind (get p.ident) λ here. bind (collect get ps) λ later. ok (here ++ later)

abbrev pub collect_each : {A : Type 0} → (ℕ → Result A) → List Provider → Result (List A)
collect_each get ps = collect (λ k. bind (get k) λ x. ok (x ∷ [])) ps

abbrev pub join_lines : Text → List Text → Text
join_lines t [] = t
join_lines t (u ∷ us) = t ++ (10 ∷ join_lines u us)

-- `"\n".join(parts)` of the parts that are not empty, if any.
abbrev pub join_parts : List Text → Option Text
join_parts parts = elim (filter is_nonempty parts) [ [] ↦ none | t ∷ ts ↦ some (join_lines t ts) ]

-- A single field as an attribute.
abbrev pub first_of : FieldValue → Option Service
first_of (single o) = o
first_of (several ss) = none

-- `attributes` are the plugin attributes of a service object, by its identity.
module _ {Graph Value : Type 0} (methods : Methods Value)
    (create_agent : AgentParts Value → Result Graph)
    (attributes : ℕ → Option String × Option String × ℤ) where
  abbrev pub current : Field → PluginAgentLoop Graph → Option Service
  current f l = first_of (l.guards f).field_value

  -- Over the services of the single fields and the effective ones of the lists.
  module _ (current_of : Field → Option Service) (effective_of : Field → List Provider) where
    -- `provider.get_…() if provider else None`
    abbrev pub value_of : Field → Result (Option Value)
    value_of f = elim (current_of f) [ none ↦ ok none | some s ↦ methods.get_value f s.ident ]

    abbrev pub debug_of : Result Bool
    debug_of = elim (current_of debug_provider) [
      | none ↦ ok false
      | some s ↦ methods.get_debug s.ident
    ]

    abbrev pub model_of : Result (Option Value)
    model_of = elim (current_of llm_provider) [
      | none ↦ ok none
      | some s ↦ methods.get_model s.ident
    ]

    abbrev pub values_of : Field → Result (List Value)
    values_of f = collect (methods.get_values f) (effective_of f)

    -- `_collect_system_prompt`
    abbrev pub system_prompt_of : Result (Option Text)
    system_prompt_of =
        bind (collect_each methods.get_system_prompt (effective_of system_prompt_providers))
          λ parts. ok (join_parts parts)

    -- The arguments, in the order in which they are evaluated.
    unfoldable pub parts_of : Value → Result (AgentParts Value)
    parts_of model = bind (values_of tool_providers) λ tools.
        bind (values_of middleware_providers) λ middleware. bind system_prompt_of λ system_prompt.
          bind (value_of response_format_provider) λ response_format.
            bind (value_of state_schema_provider) λ state_schema.
              bind (value_of context_schema_provider) λ context_schema.
                bind (value_of checkpointer_provider) λ checkpointer.
                  bind (value_of store_provider) λ store.
                    bind (values_of interrupt_before_providers) λ interrupt_before.
                      bind (values_of interrupt_after_providers) λ interrupt_after.
                        bind debug_of λ debug. bind (value_of name_provider) λ agent_name.
                          bind (value_of cache_provider) λ cache.
                            bind (values_of transformers_providers) λ transformers. ok record {
                              model = model;
                              tools = tools;
                              middleware = middleware;
                              system_prompt = system_prompt;
                              response_format = response_format;
                              state_schema = state_schema;
                              context_schema = context_schema;
                              checkpointer = checkpointer;
                              store = store;
                              interrupt_before = list_or_none interrupt_before;
                              interrupt_after = list_or_none interrupt_after;
                              debug = debug;
                              agent_name = agent_name;
                              cache = cache;
                              transformers = list_or_none transformers;
                            }

    -- A checkpointer without a running event loop puts the build off.
    abbrev pub is_deferred : Bool → Bool
    is_deferred running = is_some (current_of checkpointer_provider) && not running

    abbrev pub build_with : Bool → Option Value → Result (Option Graph)
    build_with running none = ok none
    build_with running (some model) =
        if is_deferred running
        then ok none
        else bind (parts_of model) λ parts. bind (create_agent parts) λ graph. ok (some graph)

    unfoldable pub build_from : Bool → Result (Option Graph)
    unfolding parts_of
    build_from running = bind model_of (build_with running)

  -- The body of the `try` of `_rebuild`.
  unfoldable pub build : Bool → PluginAgentLoop Graph → Result (Option Graph)
  unfolding build_from effective
  build running l =
      build_from (λ f. current f l) (λ f. effective methods create_agent attributes f l) running

  abbrev pub or_no_graph : Result (Option Graph) → Option Graph
  or_no_graph (ok graph) = graph
  or_no_graph (err e) = none

  -- `_rebuild`, which never raises.
  unfoldable pub rebuild : Bool → PluginAgentLoop Graph → PluginAgentLoop Graph
  unfolding build
  rebuild running l = record l { graph = or_no_graph (build running l) }

  abbrev pub clear : PluginAgentLoop Graph → PluginAgentLoop Graph
  clear l = record l { graph = none }

  -- `_validate` and `_invalidate`.
  unfoldable pub on_validate : Bool → PluginAgentLoop Graph → PluginAgentLoop Graph
  unfolding resolve_scoped_llm rebuild
  on_validate running l = rebuild running (resolve_scoped_llm methods create_agent attributes l)

  unfoldable pub on_invalidate : PluginAgentLoop Graph → PluginAgentLoop Graph
  on_invalidate l = clear l
