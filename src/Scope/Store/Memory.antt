-- ===== src/Scope/Store/Memory.antt =====
-- `InMemoryScopeStore` of src/langharness_scope/tree.py. Its lock makes each call one step.
use langharness.Prelude.{
  ℕ, ◌+◌, ◌≡◌, ◌≢◌, refl, Option, some, Action, Result, ok, err, Error, ◌==◌, if◌then◌else◌, not,
  arith, nat_eq,
}
use langharness.Scope.Model.{ScopeSnapshot}
use langharness.Scope.Store.Contract.{ScopeStore, version_of}

pub record InMemoryScopeStore : Type 0 where
  pub snapshot : Option ScopeSnapshot

unfoldable pub load : InMemoryScopeStore → Result (Option ScopeSnapshot)
load s = ok s.snapshot

-- `self._snapshot.version if self._snapshot is not None else 0`
unfoldable pub current : InMemoryScopeStore → ℕ
current s = version_of s.snapshot

pub current_of_load_lem :
    (s : InMemoryScopeStore) (o : Option ScopeSnapshot) → load s ≡ ok o → current s ≡ version_of o
unfolding load current
current_of_load_lem s o h = ground arith

unfoldable pub save : ScopeSnapshot → ℕ → Action InMemoryScopeStore ℕ
unfolding current
save snapshot expected_version s =
    let version = current s in
    if not (version == expected_version) then (err Error.scope_conflict, s) else (
      ok (version + 1),
      record { snapshot = some (record { version = version + 1; scopes = snapshot.scopes }) },
    )

module _ (snapshot : ScopeSnapshot) (version : ℕ) (s : InMemoryScopeStore) where
  pub save_current_lem :
      current s ≡ version
      → (s' : InMemoryScopeStore) × (save snapshot version s ≡ (ok (version + 1), s'))
        × (load s' ≡ ok (some (record { version = version + 1; scopes = snapshot.scopes })))
  unfolding load save
  save_current_lem h = (
    record { snapshot = some (record { version = version + 1; scopes = snapshot.scopes }) },
    ground arith,
    refl,
  )

  pub save_stale_lem : current s ≢ version → save snapshot version s ≡ (err Error.scope_conflict, s)
  unfolding load save
  save_stale_lem h = ground arith

-- The in-memory store meets the contract.
abbrev pub memory_store : ScopeStore
memory_store = record {
  State = InMemoryScopeStore;
  load = load;
  current = current;
  current_of_load = current_of_load_lem;
  save = save;
  save_current = save_current_lem;
  save_stale = save_stale_lem;
}
