-- ===== src/Plugin/Manager/Placement.antt =====
-- The scopes of `PluginManager` in src/langharness_plugin/plugin_manager.py: `add_scope`,
-- `_seed_builtin_scopes`, `remove_scope` and `_restore_scopes`. The nodes of the manager's scope
-- tree are its field `scopes`; here the tree's store and version stand beside the manager.
use langharness.Prelude.{
  ℕ, zero, suc, String, Bool, true, false, not, ◌&&◌, ◌||◌, List, [], ◌∷◌, ◌++◌, map, Option, none,
  some, Result, ok, err, Error, Action, pure, raise, lift, gets, modify, raise_if, ◌>>=◌, ◌>>◌,
  ◌==◌, string_eq, option_eq, if◌then◌else◌, filter, contains, is_nonempty, length, diverges,
  runtime_error, value_error, scope_has_children, scope_has_instances,
}
use mathlib.Core.List.{reverse}
use langharness.Prelude.Dict.{Dict, lookup, has, values}
use langharness.Scope.Model.{Scope, Scopes, root_scope_id}
use langharness.Scope.Store.{ScopeStore}
use langharness.Scope.Tree.Reads.{descendants, children}
use langharness.Scope.Tree.Writes.{ScopeTree, create, remove}
use langharness.Plugin.Manager.{
  PluginInstanceSnapshot, RuntimeStateStore, Framework, Manager, remove_instance_record,
  persist_state,
}
pub mod Restored
pub mod Removal
pub mod Without
pub mod Removed

-- A scope of the loaded snapshot.
pub record StoredScope : Type 0 where
  pub id : String
  pub parent_id : Option String
  pub name : String

-- `item["parent_id"] or str(ROOT_SCOPE_ID)`
abbrev pub parent_or_root : Option String → String
parent_or_root none = root_scope_id
parent_or_root (some p) = if p == "" then root_scope_id else p

-- `parent_id if parent_id is not None else ROOT_SCOPE_ID`
abbrev pub default_parent : Option String → String
default_parent none = root_scope_id
default_parent (some p) = p

-- `pending` at first: neither the root nor a scope of the tree; ids are distinct in a snapshot.
abbrev pub is_pending : Scopes → StoredScope → Bool
is_pending scopes item = not (item.id == root_scope_id) && not (has item.id scopes)

module _ (S : ScopeStore) where
  abbrev pub Tree : Type 0
  Tree = ScopeTree S.State

  abbrev pub add_found : String → String → String → Option Scope → Action Tree Scope
  add_found scope_id name wanted none = create S scope_id name wanted
  add_found scope_id name wanted (some existing) =
      if not (existing.parent_id == some wanted) then raise value_error else pure existing

  unfoldable pub add_scope : String → String → Option String → Action Tree Scope
  unfolding create
  add_scope scope_id name parent_id t =
      add_found scope_id name (default_parent parent_id) (lookup scope_id t.scopes) t

  -- `_seed_builtin_scopes` over `BUILTIN_SCOPES`.
  unfoldable pub seed_builtin_scopes : Action Tree (Unit {0})
  unfolding add_scope
  seed_builtin_scopes =
      add_scope "ui" "UI" (some root_scope_id)
      >> add_scope "server" "Server" (some root_scope_id)
      >> add_scope "agent" "Agent" (some root_scope_id)
      >> pure tt

  -- One pass over the pending scopes: those that are left, and whether one was created.
  abbrev pub note : Result (List StoredScope × Bool) → Result (List StoredScope × Bool)
  note (ok (left, _)) = ok (left, true)
  note (err e) = err e

  abbrev pub wait :
      StoredScope → Result (List StoredScope × Bool) → Result (List StoredScope × Bool)
  wait item (ok (left, progressed)) = ok (item ∷ left, progressed)
  wait item (err e) = err e

  abbrev pub after_create :
      Action Tree (List StoredScope × Bool)
      → Result Scope × Tree
      → Result (List StoredScope × Bool) × Tree
  after_create rest (ok s, t) = let (r, t') = rest t in (note r, t')
  after_create rest (err e, t) = (err e, t)

  abbrev pub place :
      StoredScope
      → Action Tree (List StoredScope × Bool)
      → Bool
      → Action Tree (List StoredScope × Bool)
  place item rest false t = let (r, t') = rest t in (wait item r, t')
  place item rest true t =
      after_create rest (create S item.id item.name (parent_or_root item.parent_id) t)

  abbrev pub pass : List StoredScope → Action Tree (List StoredScope × Bool)
  pass [] t = (ok ([], false), t)
  pass (item ∷ items) t = place item (pass items) (has (parent_or_root item.parent_id) t.scopes) t

  abbrev pub go_on :
      (List StoredScope → Action Tree (Unit {0})) → List StoredScope × Bool → Action Tree (Unit {0})
  go_on rest (left, false) = raise runtime_error
  go_on rest (left, true) = rest left

  -- The loop of `_restore_scopes` with a bound on its rounds.
  abbrev pub rounds : ℕ → List StoredScope → Action Tree (Unit {0})
  rounds n [] = pure tt
  rounds zero (item ∷ items) = raise diverges
  rounds (suc n) (item ∷ items) = pass (item ∷ items) >>= go_on (rounds n)

  -- `_restore_scopes`
  unfoldable pub restore_scopes : List StoredScope → Action Tree (Unit {0})
  unfolding create
  restore_scopes items t =
      let pending = filter (is_pending t.scopes) items in rounds (length pending) pending t
