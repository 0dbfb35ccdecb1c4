-- ===== src/Plugin/State/Stores.antt =====
-- `InMemoryRuntimeStateStore` and `SqliteRuntimeStateStore` of
-- src/langharness_plugin/state_store.py; the row stands for the table, and a transaction that
-- begins immediately makes each call one step.
use langharness.Prelude.{
  ℕ, ◌+◌, Bool, true, false, ◌⊎◌, not, ◌≡◌, ◌≢◌, refl, ap, ◌∙◌, Option, none, some, Result, ok, err,
  bind, state_conflict, state_schema, Action, ◌==◌, nat_eq, nat_beq_iff, if◌then◌else◌, arith,
  Bool-cases, inl, inr,
}
use mathlib.Core.Path.{subst, subst⁻¹}
use native.Mathlib.Decide.{ℕ_discrete}
use langharness.Prelude.Int.{pos}
use langharness.Prelude.Json.{Json, num, Fields, get}
use langharness.Plugin.State.{
  RuntimeStateSnapshot, runtime_schema, encode_snapshot, decode_snapshot,
}
use langharness.Plugin.State.Codec.{decode_snapshot-encode}

pub record InMemoryRuntimeStateStore : Type 0 where
  pub snapshot : Option RuntimeStateSnapshot

unfoldable pub memory_load : InMemoryRuntimeStateStore → Result (Option RuntimeStateSnapshot)
memory_load m = ok m.snapshot

abbrev pub memory_version : Option RuntimeStateSnapshot → ℕ
memory_version none = 0
memory_version (some s) = s.version

unfoldable pub memory_save : RuntimeStateSnapshot → ℕ → Action InMemoryRuntimeStateStore ℕ
memory_save snapshot expected m =
    let version = memory_version m.snapshot in
    if not (version == expected)
    then (err state_conflict, m)
    else (ok (version + 1), record { snapshot = some (record snapshot { version = version + 1 }) })

-- `version` and `snapshot_json` of the row with `singleton_id = 1`.
pub record RuntimeStateTable : Type 0 where
  pub row : Option (ℕ × Fields)

-- `raw.get("schema") != RUNTIME_SCHEMA`
abbrev pub is_schema : Option Json → Bool
is_schema (some (num (pos n))) = n == runtime_schema
is_schema _ = false

unfoldable pub load_row : Option (ℕ × Fields) → Result (Option RuntimeStateSnapshot)
unfolding decode_snapshot
load_row none = ok none
load_row (some (version, raw)) =
    if not (is_schema (get "schema" raw))
    then err state_schema
    else bind (decode_snapshot version raw) λ s. ok (some s)

unfoldable pub table_load : RuntimeStateTable → Result (Option RuntimeStateSnapshot)
unfolding load_row
table_load t = load_row t.row

abbrev pub row_version : Option (ℕ × Fields) → ℕ
row_version none = 0
row_version (some (version, raw)) = version

unfoldable pub table_save : RuntimeStateSnapshot → ℕ → Action RuntimeStateTable ℕ
unfolding encode_snapshot
table_save snapshot expected t =
    let payload = encode_snapshot snapshot in
    let version = row_version t.row in
    if not (version == expected)
    then (err state_conflict, t)
    else (ok (version + 1), record { row = some (version + 1, payload) })

-- The row that a save of `snapshot` wrote reads as that snapshot, under the version of the row.
load_row-encode :
    (version : ℕ) (snapshot : RuntimeStateSnapshot)
    → load_row (some (version, encode_snapshot snapshot))
      ≡ ok (some (record snapshot { version = version }))
unfolding load_row encode_snapshot
load_row-encode version snapshot =
    ap (λ r. bind r (λ s. ok (some s))) (decode_snapshot-encode version snapshot)

-- The table and the in-memory store hold the same.
pub record Agrees (t : RuntimeStateTable) (m : InMemoryRuntimeStateStore) : Type 0 where
  pub same : table_load t ≡ memory_load m
  pub version : row_version t.row ≡ memory_version m.snapshot

module _ (snapshot : RuntimeStateSnapshot) (expected : ℕ) where
  pub table_saved :
      (t : RuntimeStateTable)
      → (row_version t.row == expected) ≡ true
      → table_save snapshot expected t ≡ (
        ok (row_version t.row + 1),
        record { row = some (row_version t.row + 1, encode_snapshot snapshot) },
      )
  unfolding table_save
  table_saved t now = ground arith

  pub table_stale :
      (t : RuntimeStateTable)
      → (row_version t.row == expected) ≡ false
      → table_save snapshot expected t ≡ (err state_conflict, t)
  unfolding table_save
  table_stale t stale = ground arith

  pub memory_saved :
      (m : InMemoryRuntimeStateStore)
      → (memory_version m.snapshot == expected) ≡ true
      → memory_save snapshot expected m ≡ (
        ok (memory_version m.snapshot + 1),
        record { snapshot = some (record snapshot { version = memory_version m.snapshot + 1 }) },
      )
  unfolding memory_save
  memory_saved m now = ground arith

  pub memory_stale :
      (m : InMemoryRuntimeStateStore)
      → (memory_version m.snapshot == expected) ≡ false
      → memory_save snapshot expected m ≡ (err state_conflict, m)
  unfolding memory_save
  memory_stale m stale = ground arith

  written :
      (v w : ℕ)
      → v ≡ w
      → Agrees
          (record { row = some (v, encode_snapshot snapshot) })
          (record { snapshot = some (record snapshot { version = w }) })
  unfolding table_load memory_load
  written v w same = record {
    same = load_row-encode v snapshot ∙ ap (λ n. ok (some (record snapshot { version = n }))) same;
    version = same;
  }

abbrev Alike : Result ℕ × RuntimeStateTable → Result ℕ × InMemoryRuntimeStateStore → Type 0
Alike p q = (p.0 ≡ q.0) × Agrees p.1 q.1

-- A database store and an in-memory store that hold the same answer every save alike, a stale
-- one included, and go on holding the same snapshot under the same version.
pub table_save-Agrees :
    (snapshot : RuntimeStateSnapshot) (expected : ℕ) (t : RuntimeStateTable)
    (m : InMemoryRuntimeStateStore)
    → Agrees t m
    → ((table_save snapshot expected t).0 ≡ (memory_save snapshot expected m).0)
      × Agrees (table_save snapshot expected t).1 (memory_save snapshot expected m).1
table_save-Agrees snapshot expected t m agrees =
    let same = agrees.version in
    elim (Bool-cases (row_version t.row == expected)) [
      | inl now ↦
          let now' = subst (λ n. (n == expected) ≡ true) same now in
          subst⁻¹ (λ p. Alike p (memory_save snapshot expected m))
            (table_saved snapshot expected t now)
            (subst⁻¹ (Alike _) (memory_saved snapshot expected m now')
              (ap (λ n. ok (n + 1)) same, written snapshot expected _ _ (ap (λ n. n + 1) same)))
      | inr stale ↦
          let stale' = subst (λ n. (n == expected) ≡ false) same stale in
          subst⁻¹ (λ p. Alike p (memory_save snapshot expected m))
            (table_stale snapshot expected t stale)
            (subst⁻¹ (Alike _) (memory_stale snapshot expected m stale') (refl, agrees))
    ]

-- A save against the version that the store holds is read back whole under the next version; a
-- save against any other version raises and changes nothing.
pub table_save-load :
    (snapshot : RuntimeStateSnapshot) (expected : ℕ) (t : RuntimeStateTable)
    → ((row_version t.row ≡ expected)
        × (table_load (table_save snapshot expected t).1
            ≡ ok (some (record snapshot { version = expected + 1 }))))
      ⊎ ((row_version t.row ≢ expected)
          × (table_save snapshot expected t ≡ (err state_conflict, t)))
unfolding table_load
table_save-load snapshot expected t = elim (ℕ_discrete (row_version t.row) expected) [
  | yes same ↦ inl (
    same,
    subst⁻¹ (λ p. load_row (p.1).row ≡ ok (some (record snapshot { version = expected + 1 })))
        (table_saved snapshot expected t ((nat_beq_iff (row_version t.row) expected).1 same))
        (load_row-encode (row_version t.row + 1) snapshot
          ∙ ap (λ n. ok (some (record snapshot { version = n + 1 }))) same),
  )
  | no other ↦ inr (
    other,
    table_stale snapshot expected t (ground (arith, nat_beq_iff (row_version t.row) expected)),
  )
]
