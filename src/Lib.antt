-- ===== src/Lib.antt =====
-- langharness: a host for language-model agents that are put together from plugins. This library
-- models its scope tree, its plugin system and the rules of its services, and proves what makes
-- them correct.
--
-- The parts and their files:
--   Prelude        shared names and lemmas: results and exceptions as values, a Python dict in
--                  insertion order, JSON, texts, sorting by an order.
--   Scope          src/langharness_scope. Model is model.py; Store has the contract of
--                  contracts.py, the in-memory store of tree.py and the database store of
--                  sqlite.py; Tree is the class ScopeTree of tree.py: Reads and Writes are its
--                  methods under their own names (`open_tree` is the constructor, `commit` is
--                  _commit, `walk` the inner loop of _validate_snapshot), the other files prove.
--   Policy         src/langharness_plugin/scope_policy.py: who sees which service, and which of
--                  several is chosen, over the ancestors that the scope tree answers.
--   Plugin         src/langharness_plugin. Config is config_store.py: Secrets are the functions
--                  before the class, Store is PluginConfigStore with the file it writes. Registry
--                  is registry.py: descriptors and instance records with their dicts, the catalog
--                  and its file. State is state_store.py: the snapshot with its codec, the two
--                  stores, the two histories. Manager is plugin_manager.py: a definition is
--                  installed and uninstalled, an instance created, changed and deleted, each with
--                  its error paths; Manager/Filters is _apply_scoped_filters,
--                  Manager/Properties _effective_properties and the reads, Manager/Placement the
--                  calls on scopes, with remove_scope in Removal, proved in Removed; Ensure and Apply are
--                  ensure_instance and apply_config, Revival the last part of restore, from the
--                  stored instances on, Restore the whole of it, with start, bind_state and
--                  discover; Frame and Provenance say which calls leave which part of
--                  the state alone. Longer methods are cut at the point
--                  where a definition or an instance is found (`install_new`, `start_instance`,
--                  `enter_instance`, `delete_found`, `update_with`, `uninstall_unused`).
--                  Validation is validation.py: Annotations is _annotations_match, Contract the
--                  contracts, _parameter_problems and validate, Guard is ContractGuard, Pins the
--                  two tables of the module. Discovery is discovery.py with the data of
--                  package.py: `scan` of packages and `descriptor_discovery` of classes.
--                  Coordinator is coordinator.py, which takes packages that were discovered and
--                  makes instances of them through the manager: `install` there, the other
--                  changes in Coordinator/Mutations, restore in Coordinator/Restore; Still
--                  says which of its calls leave the registrations alone.
--   Core           src/langharness_core: Ids is common/ids.py, identifiers and the keys of memories;
--                  Agents is plugins/agents/registry.py, Sessions is plugins/sessions/sqlite.py, and
--                  Loop is plugins/loop/agent_loop.py: Stream the events it makes of a stream,
--                  Services its fields and what they answer by scope, Rebuild is _rebuild, and
--                  Handlers are the thirty-two handlers of services that come and go, by the kind
--                  of their field, with Ready on what they leave there; Reach has the calls of the framework as steps, those
--                  of a component that is not valid included.
--   Api            src/langharness_api: RateLimit is plugins/rate_limit/rate_limit.py and
--                  ClientRegistry is common/client_registry.py, with its grace period in Grace.
--
-- A call is a function from the state to a result and the state after it, since what was written
-- before an exception stays written. An object behind a lock, or a transaction that begins
-- immediately, makes each of its calls one step. JSON texts stand for their values. Messages of
-- exceptions are left out; their classes are constructors of `Error`.
--
-- The component framework below the plugin manager is a parameter, the record `Framework`: each of
-- its calls may raise and change its state, and nothing else is assumed of it. The manager takes
-- any store of the runtime state, the record `RuntimeStateStore`, in the same way. The effective
-- properties of an instance and the equality of descriptors are arguments of the calls that use
-- them. Arguments are also: what `issubclass` answers of two classes, the look-up of a service, the
-- supply of new identifiers and the properties of an adapter (the record `Surroundings`), and the
-- text that `str` makes of the content of a message. What an entry point loads, what `inspect` and
-- `get_type_hints` answer for a function, and the chunks of the agent's graph are data of the
-- calls. For the agent's loop, the injection of services into its fields is the record `Injection`,
-- what the services answer the record `Methods`, and `create_agent` a function that may raise.
--
-- Loops without a bound of their own run on fuel: `climb` and `walk` take one more step than there
-- are nodes, `visit` goes as deep as there are nodes: in a tree a walk meets each node once at most.
-- `rounds` takes as many passes as scopes are pending, since a pass that goes on places one. Running
-- out is the error `diverges`. `match_within` goes as deep as the two annotations are large together.
--
-- Not modelled: the terminal program, the routes, the start and logging: input and output, or code of
-- other packages. Of the plugin manager: the look-ups of services, which the framework answers, the
-- history, and the check of filters. The sections
-- of the configuration.
pub mod Prelude
pub mod Scope
pub mod Policy
pub mod Core
pub mod Api
pub mod Plugin
