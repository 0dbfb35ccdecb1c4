-- ===== src/Scope/Tree/Reads.antt =====
-- The reads of `ScopeTree`, src/langharness_scope/tree.py: `require`, `parent`, `children`,
-- `ancestors`, `descendants`, `depth` and `is_ancestor`.
use langharness.Prelude.{
  ℕ, zero, suc, String, Bool, false, Option, none, some, List, [], ◌∷◌, ◌++◌, Result, ok, err,
  Error, bind, filter, any, length, ◌==◌, if◌then◌else◌, string_eq, option_eq,
}
use langharness.Prelude.Dict.{lookup, values}
use langharness.Scope.Model.{Scope, Scopes}

infixl 5 ◌>>=◌
abbrev ◌>>=◌ : {A B : Type 0} → Result A → (A → Result B) → Result B
m >>= f = bind m f

unfoldable pub require : Scopes → String → Result Scope
require scopes scope_id = elim (lookup scope_id scopes) [
  | none ↦ err (Error.scope_not_found scope_id)
  | some scope ↦ ok scope
]

-- `ScopeTree.parent`
unfoldable pub parent : Scopes → String → Result (Option Scope)
unfolding require
parent scopes scope_id = do
  scope ← require scopes scope_id
  elim scope.parent_id [ none ↦ ok none | some p ↦ require scopes p >>= λ s. ok (some s) ]

abbrev pub is_child : String → Scope → Bool
is_child parent_id scope = scope.parent_id == some parent_id

unfoldable pub children : Scopes → String → Result (List Scope)
unfolding require
children scopes scope_id = do
  _ ← require scopes scope_id
  ok (filter (is_child scope_id) (values scopes))

-- The loop of `ancestors`: the nodes above `current`.
unfoldable pub climb : ℕ → Scopes → Scope → Result (List Scope)
unfolding require
climb zero scopes current = err Error.diverges
climb (suc fuel) scopes current = elim current.parent_id [
  | none ↦ ok []
  | some p ↦ do above ← require scopes p; rest ← climb fuel scopes above; ok (above ∷ rest)
]

unfoldable pub ancestors : Scopes → String → Bool → Result (List Scope)
unfolding require climb
ancestors scopes scope_id include_self = do
  current ← require scopes scope_id
  rest ← climb (suc (length scopes)) scopes current
  ok (if include_self then current ∷ rest else rest)

-- The loop of `visit`: each child, then what is below it, by the given recursive call.
unfoldable pub visit_all : (String → Result (List Scope)) → List Scope → Result (List Scope)
visit_all visit_child [] = ok []
visit_all visit_child (child ∷ rest) = do
  below ← visit_child child.id
  others ← visit_all visit_child rest
  ok (child ∷ (below ++ others))

-- `visit` of `descendants`
unfoldable pub visit : ℕ → Scopes → String → Result (List Scope)
unfolding children visit_all
visit zero scopes parent_id = err Error.diverges
visit (suc fuel) scopes parent_id = children scopes parent_id >>= visit_all (visit fuel scopes)

unfoldable pub descendants : Scopes → String → Bool → Result (List Scope)
unfolding require visit
descendants scopes scope_id include_self = do
  root ← require scopes scope_id
  below ← visit (length scopes) scopes scope_id
  ok (if include_self then root ∷ below else below)

unfoldable pub depth : Scopes → String → Result ℕ
unfolding ancestors
depth scopes scope_id = do above ← ancestors scopes scope_id false; ok (length above)

unfoldable pub is_ancestor : Scopes → String → String → Bool → Result Bool
unfolding require ancestors
is_ancestor scopes ancestor_id descendant_id include_self = do
  _ ← require scopes ancestor_id
  above ← ancestors scopes descendant_id include_self
  ok (any (λ scope. scope.id == ancestor_id) above)
