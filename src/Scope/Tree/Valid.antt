-- ===== src/Scope/Tree/Valid.antt =====
-- The shape of the dict that a `ScopeTree` of src/langharness_scope/tree.py holds.
use langharness.Prelude.{
  String, ◌≡◌, ◌<◌, none, some, [], ◌∷◌, In, All, inl, inr, arith, string_eq, option_eq,
}
use langharness.Prelude.Dict.{lookup, index, values, Distinct}
use langharness.Scope.Model.{Scope, Scopes, root_scope_id}
use text.Mathlib.TextEquality.{eq_iff}

-- Each node stands under its own id, once; the root has no parent and every other node has one;
-- a parent stands before its children.
pub record IsTree (d : Scopes) : Type 0 where
  pub keyed : All (λ e. e.1.id ≡ e.0) d
  pub distinct : Distinct d
  pub root : (r : Scope) × (lookup root_scope_id d ≡ some r) × (r.parent_id ≡ none)
  pub rooted :
      (k : String) (s : Scope) → lookup k d ≡ some s → s.parent_id ≡ none → k ≡ root_scope_id
  pub ordered :
      (k p : String) (s : Scope)
      → lookup k d ≡ some s
      → s.parent_id ≡ some p
      → index p d < index k d

pub id_of_lookup :
    (k : String) (s : Scope) (d : Scopes)
    → All (λ e. e.1.id ≡ e.0) d
    → lookup k d ≡ some s
    → s.id ≡ k
id_of_lookup k s [] keyed h = cc
id_of_lookup k s ((j, t) ∷ d) keyed h = ground (arith, eq_iff j k, id_of_lookup k s d keyed.1)

pub lookup_of_In :
    (s : Scope) (d : Scopes)
    → All (λ e. e.1.id ≡ e.0) d
    → Distinct d
    → In s (values d)
    → lookup s.id d ≡ some s
lookup_of_In s [] keyed distinct (_, bad) = absurd bad
lookup_of_In s ((j, t) ∷ d) keyed distinct (inl same) = ground (arith, eq_iff j s.id)
lookup_of_In s ((j, t) ∷ d) keyed distinct (inr later) =
    ground (arith, eq_iff j s.id, lookup_of_In s d keyed.1 distinct.1 later)
