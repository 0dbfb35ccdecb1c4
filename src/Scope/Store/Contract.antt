-- ===== src/Scope/Store/Contract.antt =====
-- `ScopeStore` of src/langharness_scope/contracts.py: a store holds one versioned snapshot, and a
-- write names the version that it replaces.
use langharness.Prelude.{ℕ, ◌+◌, ◌≡◌, ◌≢◌, Option, none, some, Action, Result, ok, err, Error}
use langharness.Scope.Model.{ScopeSnapshot}

abbrev pub version_of : Option ScopeSnapshot → ℕ
version_of none = 0
version_of (some snapshot) = snapshot.version

pub record ScopeStore : Type 1 where
  pub State : Type 0
  pub load : State → Result (Option ScopeSnapshot)
  pub save : ScopeSnapshot → ℕ → Action State ℕ
  -- The version that a write is held to, 0 while nothing is stored.
  pub current : State → ℕ
  pub current_of_load :
      (s : State) (o : Option ScopeSnapshot) → load s ≡ ok o → current s ≡ version_of o
  -- A write against the current version stores the scopes under the next one.
  pub save_current :
      (snapshot : ScopeSnapshot) (version : ℕ) (s : State)
      → current s ≡ version
      → (s' : State) × (save snapshot version s ≡ (ok (version + 1), s'))
        × (load s' ≡ ok (some (record { version = version + 1; scopes = snapshot.scopes })))
  -- A write against another version is refused and changes nothing.
  pub save_stale :
      (snapshot : ScopeSnapshot) (version : ℕ) (s : State)
      → current s ≢ version
      → save snapshot version s ≡ (err Error.scope_conflict, s)
