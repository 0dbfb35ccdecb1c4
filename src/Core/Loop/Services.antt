-- ===== src/Core/Loop/Services.antt =====
-- The services of src/langharness_core/plugins/loop/agent_loop.py: the fields that the component
-- framework fills, the handlers that it calls, and what `_rebuild` makes of the services. The
-- graph, the values that services answer and `create_agent` are parameters, and `running` says
-- whether `asyncio.get_running_loop` answers.
use langharness.Prelude.{
  ℕ, String, Bool, not, List, map, filter, Option, none, some, Result, ◌==◌, nat_eq, string_eq,
  if◌then◌else◌, contains, find, is_nonempty,
}
use langharness.Prelude.Dict.{Dict, insert, erase}
use langharness.Prelude.Int.{ℤ, pos}
use langharness.Policy.Scoped.{Provider, Meta, resolve_scoped_aggregate, resolve_scoped_best}
use langharness.Plugin.Validation.Guard.{Service, single, ContractGuard, held}
use langharness.Core.Loop.Stream.{Text}

-- The fields with a guard, under their names without the underscore.
pub data Field : Type 0 where
  llm_provider scoped_llm_providers : Field
  tool_providers middleware_providers system_prompt_providers : Field
  interrupt_before_providers interrupt_after_providers transformers_providers : Field
  response_format_provider state_schema_provider context_schema_provider : Field
  checkpointer_provider store_provider debug_provider name_provider cache_provider : Field

abbrev pub index : Field → ℕ
index llm_provider = 0
index scoped_llm_providers = 1
index tool_providers = 2
index middleware_providers = 3
index system_prompt_providers = 4
index interrupt_before_providers = 5
index interrupt_after_providers = 6
index transformers_providers = 7
index response_format_provider = 8
index state_schema_provider = 9
index context_schema_provider = 10
index checkpointer_provider = 11
index store_provider = 12
index debug_provider = 13
index name_provider = 14
index cache_provider = 15

-- How the handlers of a field behave: the model, the models by scope, another list of services,
-- another single service.
pub data Kind : Type 0 where
  model_kind scoped_kind list_kind single_kind : Kind

abbrev pub kind : Field → Kind
kind llm_provider = model_kind
kind scoped_llm_providers = scoped_kind
kind tool_providers = list_kind
kind middleware_providers = list_kind
kind system_prompt_providers = list_kind
kind interrupt_before_providers = list_kind
kind interrupt_after_providers = list_kind
kind transformers_providers = list_kind
kind _ = single_kind

-- What `get_property` of a service reference answers.
pub record Reference : Type 0 where
  pub scope_id : Option String
  pub plugin_key : Option String
  pub ranking : Option ℤ

pub record PluginAgentLoop (Graph : Type 0) : Type 0 where
  pub scope_chain : List String
  pub guards : Field → ContractGuard
  pub service_metadata : Dict ℕ Meta
  pub excluded_services : List ℕ
  pub graph : Option Graph

-- The methods of the services, by the identity of the service; each may raise. `get_values` are
-- `get_tools`, `get_middlewares`, `get_interrupt_before`, `get_interrupt_after` and
-- `get_transformers`, and `get_value` the methods of the single services, by the field.
pub record Methods (Value : Type 0) : Type 0 where
  pub get_model : ℕ → Result (Option Value)
  pub get_values : Field → ℕ → Result (List Value)
  pub get_system_prompt : ℕ → Result Text
  pub get_value : Field → ℕ → Result (Option Value)
  pub get_debug : ℕ → Result Bool

-- The arguments of `create_agent`.
pub record AgentParts (Value : Type 0) : Type 0 where
  pub model : Value
  pub tools : List Value
  pub middleware : List Value
  pub system_prompt : Option Text
  pub response_format : Option Value
  pub state_schema : Option Value
  pub context_schema : Option Value
  pub checkpointer : Option Value
  pub store : Option Value
  pub interrupt_before : Option (List Value)
  pub interrupt_after : Option (List Value)
  pub debug : Bool
  pub agent_name : Option Value
  pub cache : Option Value
  pub transformers : Option (List Value)

abbrev pub or_zero : Option ℤ → ℤ
or_zero none = pos 0
or_zero (some n) = n

-- `attributes` are the plugin attributes of a service object, by its identity.
module _ {Graph Value : Type 0} (methods : Methods Value)
    (create_agent : AgentParts Value → Result Graph)
    (attributes : ℕ → Option String × Option String × ℤ) where
  abbrev pub Loop : Type 0
  Loop = PluginAgentLoop Graph

  abbrev pub provider_of : Service → Provider
  provider_of s = record {
    ident = s.ident;
    plugin_scope_id = (attributes s.ident).0;
    plugin_key = (attributes s.ident).1;
    plugin_ranking = (attributes s.ident).2;
  }

  abbrev pub services : Field → Loop → List Service
  services f l = held (l.guards f).field_value

  -- `_without_excluded`
  unfoldable pub without_excluded : List Service → Loop → List Service
  without_excluded ss l =
      if not (is_nonempty l.excluded_services)
      then ss
      else filter (λ s. not (contains s.ident l.excluded_services)) ss

  -- `_effective`
  unfoldable pub effective : Field → Loop → List Provider
  unfolding without_excluded resolve_scoped_aggregate
  effective f l =
      resolve_scoped_aggregate l.scope_chain (map provider_of (without_excluded (services f l) l))
        l.service_metadata

  abbrev pub set_guard : Field → ContractGuard → Loop → Loop
  set_guard f g l = record l { guards = λ h. if index f == index h then g else l.guards h }

  abbrev pub remember_with : Service → Option String → Option String → Option ℤ → Loop → Loop
  remember_with s (some scope_id) (some key) ranking l = record l {
    service_metadata = insert s.ident (scope_id, key, or_zero ranking) l.service_metadata;
  }
  remember_with s _ _ ranking l = l

  -- `_remember_service`; `none` is no reference.
  unfoldable pub remember_service : Service → Option Reference → Loop → Loop
  remember_service s none l = l
  remember_service s (some r) l = remember_with s r.scope_id r.plugin_key r.ranking l

  -- `_forget_service`
  unfoldable pub forget_service : Service → Loop → Loop
  forget_service s l = record l { service_metadata = erase s.ident l.service_metadata }

  abbrev pub set_model : Option Service → Loop → Loop
  set_model none l = l
  set_model (some s) l =
      set_guard llm_provider (record (l.guards llm_provider) { field_value = single (some s) }) l

  abbrev pub selected : Loop → Option Provider
  unfolding resolve_scoped_best without_excluded
  selected l =
      resolve_scoped_best l.scope_chain
        (map provider_of (without_excluded (services scoped_llm_providers l) l)) l.service_metadata

  -- `_resolve_scoped_llm`
  unfoldable pub resolve_scoped_llm : Loop → Loop
  resolve_scoped_llm l = elim (selected l) [
    | none ↦ l
    | some p ↦ set_model (find (λ s. s.ident == p.ident) (services scoped_llm_providers l)) l
  ]
