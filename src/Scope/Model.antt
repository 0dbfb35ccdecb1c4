-- ===== src/Scope/Model.antt =====
-- src/langharness_scope/model.py: the nodes and the snapshots of a scope tree.
use langharness.Prelude.{ℕ, String, Option, none, List}
use langharness.Prelude.Dict.{Dict}

-- `Scope`; ids are texts.
pub record Scope : Type 0 where
  pub id : String
  pub parent_id : Option String
  pub name : String

-- `ScopeSnapshot`
pub record ScopeSnapshot : Type 0 where
  pub version : ℕ
  pub scopes : List Scope

abbrev pub root_scope_id : String
root_scope_id = "root"

-- The root node that a fresh tree begins with.
abbrev pub root_scope : Scope
root_scope = record { id = "root"; parent_id = none; name = "root" }

-- `self._scopes`: the nodes by id.
abbrev pub Scopes : Type 0
Scopes = Dict String Scope
