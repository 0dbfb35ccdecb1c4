-- ===== src/Scope/Store/Sqlite.antt =====
-- `SqliteScopeStore` of src/langharness_scope/sqlite.py: the snapshot as JSON in the one row of a
-- table. `BEGIN IMMEDIATE` makes each call one step; the row stands for the table.
use langharness.Prelude.{
  ℕ, ◌+◌, ◌≡◌, ◌≢◌, refl, Option, none, some, Action, Result, ok, err, Error, ◌==◌, if◌then◌else◌,
  not, arith, nat_eq, string_eq, List, [], ◌∷◌, map, ap, bind, sym, ◌∙◌, Option-cases, Result-cases,
  inl, inr,
}
use langharness.Prelude.Json.{
  text_at, optional_at, Json, text, arr, obj, field, end, to_items, of_items, of_items-to_items,
  of_option,
}
use native.Mathlib.Decide.{ℕ_discrete}
use langharness.Scope.Model.{Scope, ScopeSnapshot}
use langharness.Scope.Store.Memory
use langharness.Scope.Store.Contract.{ScopeStore, version_of}

-- The columns `version` and `snapshot_json` of the row with `singleton_id = 1`.
pub record Table : Type 0 where
  pub row : Option (ℕ × Json)

-- One entry of the payload of `save`.
abbrev pub encode_scope : Scope → Json
encode_scope scope = obj (
    field "id" (text scope.id)
      (field "parent_id" (of_option scope.parent_id) (field "name" (text scope.name) end)))

abbrev pub encode_scopes : List Scope → Json
encode_scopes scopes = arr (to_items (map encode_scope scopes))

unfoldable pub decode_scope : Json → Result Scope
decode_scope (obj fields) = bind (text_at "id" fields) λ id.
    bind (optional_at "parent_id" fields) λ parent_id.
      bind (text_at "name" fields)
        λ name. ok (record { id = id; parent_id = parent_id; name = name })
decode_scope _ = err Error.key_error

unfoldable pub decode_all : List Json → Result (List Scope)
unfolding decode_scope
decode_all [] = ok []
decode_all (x ∷ xs) = bind (decode_scope x) λ s. bind (decode_all xs) λ ss. ok (s ∷ ss)

unfoldable pub decode_scopes : Json → Result (List Scope)
unfolding decode_all
decode_scopes (arr items) = decode_all (of_items items)
decode_scopes _ = err Error.key_error

unfoldable pub load : Table → Result (Option ScopeSnapshot)
unfolding decode_scopes
load t = elim t.row [
  | none ↦ ok none
  | some (version, raw) ↦
      bind (decode_scopes raw) λ scopes. ok (some (record { version = version; scopes = scopes }))
]

-- `int(row[0]) if row is not None else 0`
unfoldable pub current : Table → ℕ
current t = elim t.row [ none ↦ 0 | some (version, raw) ↦ version ]

unfoldable pub save : ScopeSnapshot → ℕ → Action Table ℕ
unfolding current
save snapshot expected_version t =
    let payload = encode_scopes snapshot.scopes in
    let version = current t in
    if not (version == expected_version)
    then (err Error.scope_conflict, t)
    else (ok (version + 1), record { row = some (version + 1, payload) })

decode_scope-encode : (s : Scope) → decode_scope (encode_scope s) ≡ ok s
unfolding decode_scope
decode_scope-encode s = elim (Option-cases s.parent_id) [
  | inl top_node ↦ ground arith
  | inr (p, e) ↦ ground arith
]

decode_all-encode : (ss : List Scope) → decode_all (map encode_scope ss) ≡ ok ss
unfolding decode_all
decode_all-encode [] = refl
decode_all-encode (s ∷ ss) = ground (arith, decode_scope-encode s, decode_all-encode ss)

-- The payload of a list of nodes is read back as that list.
pub decode_scopes-encode : (ss : List Scope) → decode_scopes (encode_scopes ss) ≡ ok ss
unfolding decode_scopes
decode_scopes-encode ss = rw (of_items-to_items (map encode_scope ss)) (decode_all-encode ss)

pub current_of_load_lem :
    (t : Table) (o : Option ScopeSnapshot) → load t ≡ ok o → current t ≡ version_of o
unfolding load current
current_of_load_lem t o h = elim (Option-cases t.row) [
  | inl empty ↦ ground arith
  | inr ((version, raw), e) ↦ elim (Result-cases (decode_scopes raw)) [
    | inl (scopes, decoded) ↦ ground arith
    | inr (why, raised) ↦ absurd (ground arith)
  ]
]

module _ (snapshot : ScopeSnapshot) (version : ℕ) (t : Table) where
  -- What the database stores, it loads: a write against the current version is read back whole.
  pub save_current_lem :
      current t ≡ version
      → (t' : Table) × (save snapshot version t ≡ (ok (version + 1), t'))
        × (load t' ≡ ok (some (record { version = version + 1; scopes = snapshot.scopes })))
  unfolding load save
  save_current_lem h = (
    record { row = some (version + 1, encode_scopes snapshot.scopes) },
    ground arith,
    ground (arith, decode_scopes-encode snapshot.scopes),
  )

  pub save_stale_lem : current t ≢ version → save snapshot version t ≡ (err Error.scope_conflict, t)
  unfolding save
  save_stale_lem h = ground arith

-- The database store meets the contract of `ScopeStore`.
abbrev pub sqlite_store : ScopeStore
sqlite_store = record {
  State = Table;
  load = load;
  current = current;
  current_of_load = current_of_load_lem;
  save = save;
  save_current = save_current_lem;
  save_stale = save_stale_lem;
}

-- The table and the in-memory store hold the same.
pub record Agrees (t : Table) (m : Memory.InMemoryScopeStore) : Type 0 where
  pub same : load t ≡ Memory.load m

same_current :
    (t : Table) (m : Memory.InMemoryScopeStore) → Agrees t m → current t ≡ Memory.current m
unfolding Memory.load
same_current t m agrees =
    current_of_load_lem t m.snapshot agrees.same
    ∙ sym (Memory.current_of_load_lem m m.snapshot refl)

-- A database store and an in-memory store that hold the same answer every write alike, and go
-- on holding the same snapshot.
pub save-Agrees :
    (snapshot : ScopeSnapshot) (version : ℕ) (t : Table) (m : Memory.InMemoryScopeStore)
    → Agrees t m
    → ((save snapshot version t).0 ≡ (Memory.save snapshot version m).0)
      × Agrees (save snapshot version t).1 (Memory.save snapshot version m).1
save-Agrees snapshot version t m agrees = elim (ℕ_discrete (current t) version) [
  | yes now ↦
      let (t', done, loaded) = save_current_lem snapshot version t now in
      let (m', done', loaded') =
        Memory.save_current_lem snapshot version m (sym (same_current t m agrees) ∙ now) in
      (
        ground (arith, done, done'),
        record {
          same =
              ap load (ap (λ r. r.1) done)
              ∙ (loaded ∙ sym (ap Memory.load (ap (λ r. r.1) done') ∙ loaded'));
        },
      )
  | no stale ↦
      let refused = save_stale_lem snapshot version t stale in
      let refused' =
        Memory.save_stale_lem snapshot version m (λ e. stale (same_current t m agrees ∙ e)) in
      (
        ground (arith, refused, refused'),
        record {
          same =
              ap load (ap (λ r. r.1) refused)
              ∙ (agrees.same ∙ sym (ap Memory.load (ap (λ r. r.1) refused')));
        },
      )
]
