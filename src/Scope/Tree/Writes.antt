-- ===== src/Scope/Tree/Writes.antt =====
-- The writes of `ScopeTree`, src/langharness_scope/tree.py: the constructor with its check of a
-- loaded snapshot, `create`, `remove` and `_commit`.
use langharness.Prelude.{
  ℕ, zero, suc, String, Bool, false, not, ◌||◌, ◌&&◌, none, some, List, [], ◌∷◌, ◌++◌, map, Result,
  ok, err, Error, bind, Action, pure, gets, lift, raise_if, ◌>>=◌, ◌>>◌, filter, length, contains,
  is_nonempty, ◌==◌, if◌then◌else◌, string_eq, option_eq,
}
use langharness.Prelude.Dict.{lookup, has, insert, values}
use langharness.Prelude.Text.{is_blank}
use langharness.Scope.Model.{Scope, Scopes, root_scope_id, root_scope}
use langharness.Scope.Store.{ScopeStore}
use langharness.Scope.Tree.Reads.{require, descendants}
use mathlib.Core.List.{reverse}

pub record ScopeTree (Store : Type 0) : Type 0 where
  pub store : Store
  pub scopes : Scopes
  pub version : ℕ

-- `{scope.id: scope for scope in scopes}`
abbrev pub by_id : List Scope → Scopes → Scopes
by_id [] d = d
by_id (s ∷ ss) d = by_id ss (insert s.id s d)

-- The inner loop of `_validate_snapshot`: the walk up from one node, with the ids seen.
unfoldable pub walk : ℕ → Scopes → List String → Scope → Result (Unit {0})
walk zero scopes seen current = err Error.diverges
walk (suc fuel) scopes seen current = elim current.parent_id [
  | none ↦ ok tt
  | some p ↦
      if contains current.id seen
      then err Error.value_error
      else (elim (lookup p scopes) as (λ _. Result (Unit {0})) [
        | none ↦ err Error.key_error
        | some above ↦ walk fuel scopes (current.id ∷ seen) above
      ])
]

-- `scope.parent_id in self._scopes`; `None` is never a key.
abbrev pub has_parent : Scopes → Scope → Bool
has_parent scopes scope = elim scope.parent_id [ none ↦ false | some p ↦ has p scopes ]

-- The outer loop of `_validate_snapshot`.
unfoldable pub validate_each : Scopes → List Scope → Result (Unit {0})
unfolding walk
validate_each scopes [] = ok tt
validate_each scopes (scope ∷ rest) =
    if not (scope.id == root_scope_id) && not (has_parent scopes scope)
    then err Error.value_error
    else bind (walk (suc (length scopes)) scopes [] scope) (λ _. validate_each scopes rest)

unfoldable pub validate_snapshot : Scopes → Result (Unit {0})
unfolding validate_each
validate_snapshot scopes = elim (lookup root_scope_id scopes) [
  | none ↦ err Error.value_error
  | some root ↦ elim root.parent_id [
    | none ↦ validate_each scopes (values scopes)
    | some _ ↦ err Error.value_error
  ]
]

-- The ids that a removal takes, the deepest first.
abbrev pub removed_ids : String → List Scope → List String
removed_ids scope_id below = map (λ s. s.id) (reverse below) ++ scope_id ∷ []

module _ (S : ScopeStore) where
  -- `ScopeTree.__init__`, with the store as it is handed over.
  unfoldable pub open_tree : S.State → Result (ScopeTree S.State)
  unfolding validate_snapshot
  open_tree store = elim (S.load store) [
    | err e ↦ err e
    | ok none ↦
        let (r, store') = S.save (record { version = 0; scopes = root_scope ∷ [] }) 0 store in
        bind r λ v.
          ok (record { store = store'; scopes = (root_scope_id, root_scope) ∷ []; version = v })
    | ok (some snapshot) ↦
        let scopes = by_id snapshot.scopes [] in
        bind (validate_snapshot scopes)
          λ _. ok (record { store = store; scopes = scopes; version = snapshot.version })
  ]

  -- `_commit`: the tree changes only once the store has taken the snapshot.
  unfoldable pub commit : Scopes → Action (ScopeTree S.State) (Unit {0})
  commit scopes t =
      let (r, store') =
        S.save (record { version = t.version; scopes = values scopes }) t.version t.store in
      elim r [
        | ok v ↦ (ok tt, record { store = store'; scopes = scopes; version = v })
        | err e ↦ (err e, record t { store = store' })
      ]

  unfoldable pub create : String → String → String → Action (ScopeTree S.State) Scope
  unfolding commit
  create scope_id name parent_id = do
    raise_if (is_blank scope_id || is_blank name) Error.value_error
    scopes ← gets (λ t. t.scopes)
    raise_if (has scope_id scopes) Error.scope_conflict
    raise_if (not (has parent_id scopes)) (Error.scope_not_found parent_id)
    let scope : Scope = record { id = scope_id; parent_id = some parent_id; name = name }
    commit (insert scope_id scope scopes)
    pure scope

  unfoldable pub remove : String → Bool → Action (ScopeTree S.State) (List String)
  unfolding commit require descendants
  remove scope_id recursive = do
    raise_if (scope_id == root_scope_id) Error.value_error
    scopes ← gets (λ t. t.scopes)
    lift (require scopes scope_id)
    below ← lift (descendants scopes scope_id false)
    raise_if (is_nonempty below && not recursive) Error.scope_not_empty
    let removed = removed_ids scope_id below
    commit (filter (λ entry. not (contains entry.0 removed)) scopes)
    pure removed
