-- ===== src/Scope/Tree/Create.antt =====
-- `create` and `_commit` of src/langharness_scope/tree.py.
use langharness.Prelude.{
  ◌+◌, String, ◌≡◌, refl, ◌<◌, ◌≢◌, true, false, none, some, [], ◌∷◌, ok, err, inl, inr, ◌⊎◌, arith,
  string_eq, if◌then◌else◌, Error, ◌==◌, All, ap, sym, ◌∙◌, Bool-cases, some_inj,
}
use langharness.Prelude.Dict.{
  lookup, has, insert, index, values, lookup-insert, insert-Distinct, index-insert_old,
  index-insert_new, index-lt-length, has_of_index,
}
use langharness.Prelude.Text.{is_blank}
use langharness.Scope.Model.{Scope, Scopes, root_scope_id}
use langharness.Scope.Store.{ScopeStore}
use langharness.Scope.Tree.Valid.{IsTree}
use langharness.Scope.Tree.Writes.{ScopeTree, commit, create}
use mathlib.Core.Path.{subst₂}
use native.Mathlib.Decide.{ℕ_discrete}
use text.Mathlib.TextEquality.{eq_iff}

insert_keyed :
    (k : String) (s : Scope) (d : Scopes)
    → s.id ≡ k
    → All (λ e. e.1.id ≡ e.0) d
    → All (λ e. e.1.id ≡ e.0) (insert k s d)
insert_keyed k s [] same keyed = (same, tt)
insert_keyed k s ((j, t) ∷ d) same keyed =
    ground (arith, eq_iff j k, insert_keyed k s d same keyed.1)

-- The new node stands behind its parent.
insert_behind :
    (d : Scopes) (k p : String) (s : Scope)
    → lookup k d ≡ none
    → has p d ≡ true
    → index p (insert k s d) < index k (insert k s d)
insert_behind d k p s fresh known =
    omega (
      arith,
      index-insert_old k p s d known,
      index-insert_new k s d fresh,
      index-lt-length p d known,
    )

-- The nodes that were there keep their places.
insert_order :
    (d : Scopes) (k q j : String) (s : Scope)
    → has j d ≡ true
    → index q d < index j d
    → index q (insert k s d) < index j (insert k s d)
insert_order d k q j s present lt =
    let known : has q d ≡ true = has_of_index q d (omega (arith, index-lt-length j d present)) in
    omega (arith, index-insert_old k q s d known, index-insert_old k j s d present)

-- A new leaf under a known node.
pub insert-IsTree :
    {d : Scopes} (k p : String) (s : Scope)
    → IsTree d
    → lookup k d ≡ none
    → has p d ≡ true
    → s.id ≡ k
    → s.parent_id ≡ some p
    → IsTree (insert k s d)
insert-IsTree {d} k p s t fresh known same parent = record {
  keyed = insert_keyed k s d same t.keyed;
  distinct = insert-Distinct k s d t.distinct;
  root = (
    t.root.0,
    ground (arith, lookup-insert k root_scope_id s d, eq_iff k root_scope_id, t.root),
    t.root.2,
  );
  rooted = λ j x h e. elim (Bool-cases (k == j)) [
    | inl new ↦ absurd (ground (arith, lookup-insert k j s d))
    | inr old ↦ t.rooted j x (ground (arith, lookup-insert k j s d)) e
  ];
  ordered = λ j q x h e. elim (Bool-cases (k == j)) [
    | inl new ↦
        let at : k ≡ j = (eq_iff k j).0 new in
        let node : s ≡ x = ground (arith, lookup-insert k j s d) in
        let above : p ≡ q = some_inj (sym parent ∙ (ap (λ y. y.parent_id) node ∙ e)) in
        subst₂ (λ a b. index a (insert k s d) < index b (insert k s d)) above at
          (insert_behind d k p s fresh known)
    | inr old ↦
        let before : lookup j d ≡ some x = ground (arith, lookup-insert k j s d) in
        insert_order d k q j s (ground arith) (t.ordered j q x before e)
  ];
}

-- The tree and its store hold the same snapshot.
pub record IsSynced (S : ScopeStore) (t : ScopeTree S.State) : Type 0 where
  pub held : S.load t.store ≡ ok (some (record { version = t.version; scopes = values t.scopes }))

module _ (S : ScopeStore) where
  -- A commit against a store in step writes the dict; against any other it changes nothing.
  pub commit_lem :
      (scopes : Scopes) (t : ScopeTree S.State)
      → S.current t.store ≡ t.version
      → (store' : S.State) × (commit S scopes t
          ≡ (ok tt, record { store = store'; scopes = scopes; version = t.version + 1 }))
        × (S.load store' ≡ ok (some (record { version = t.version + 1; scopes = values scopes })))
  unfolding commit
  commit_lem scopes t h =
      let (store', saved, loaded) =
        S.save_current (record { version = t.version; scopes = values scopes }) t.version t.store
          h in
      (store', ground (arith, saved), loaded)

  pub commit_stale :
      (scopes : Scopes) (t : ScopeTree S.State)
      → S.current t.store ≢ t.version
      → commit S scopes t ≡ (err Error.scope_conflict, t)
  unfolding commit
  commit_stale scopes t h = ground (
    arith,
    S.save_stale (record { version = t.version; scopes = values scopes }) t.version t.store h,
  )

  -- A commit writes, or it changes nothing.
  pub commit_cases :
      (scopes : Scopes) (t : ScopeTree S.State)
      → ((t' : ScopeTree S.State) × (commit S scopes t ≡ (ok tt, t')))
        ⊎ (commit S scopes t ≡ (err Error.scope_conflict, t))
  commit_cases scopes t = elim (ℕ_discrete (S.current t.store) t.version) [
    | yes same ↦ let (store', done, loaded) = commit_lem scopes t same in inl (_, done)
    | no other ↦ inr (commit_stale scopes t other)
  ]

  -- The version that a tree in step expects.
  pub version_of_synced : {t : ScopeTree S.State} → IsSynced S t → S.current t.store ≡ t.version
  version_of_synced {t} sync = S.current_of_load t.store (some _) sync.held

  -- With a usable id and name, a new id and a known parent, `create` on a tree in step with its
  -- store adds exactly the new leaf, keeps the shape of a tree, and leaves the store in step under
  -- the next version.
  pub create-IsTree :
      (scope_id name parent_id : String) (t : ScopeTree S.State)
      → IsTree t.scopes
      → IsSynced S t
      → is_blank scope_id ≡ false
      → is_blank name ≡ false
      → lookup scope_id t.scopes ≡ none
      → has parent_id t.scopes ≡ true
      → let leaf : Scope = record { id = scope_id; parent_id = some parent_id; name = name } in
        (t' : ScopeTree S.State) × (create S scope_id name parent_id t ≡ (ok leaf, t'))
        × IsTree t'.scopes
        × IsSynced S t'
        × (t'.version ≡ t.version + 1)
        × ((j : String)
            → lookup j t'.scopes ≡ (if scope_id == j then some leaf else lookup j t.scopes))
  unfolding create
  create-IsTree scope_id name parent_id t shape sync id_given name_given fresh known =
      let leaf : Scope = record { id = scope_id; parent_id = some parent_id; name = name } in
      let d = insert scope_id leaf t.scopes in
      let (store', done, loaded) = commit_lem d t (version_of_synced sync) in
      (
        record { store = store'; scopes = d; version = t.version + 1 },
        ground (arith, done),
        insert-IsTree scope_id parent_id leaf shape fresh known refl refl,
        record { held = loaded },
        refl,
        λ j. lookup-insert scope_id j leaf t.scopes,
      )

  -- A call of `create` that raises changes neither the tree nor its store: the id or the name is
  -- blank, the id is taken, the parent is unknown, or another writer has moved the store on.
  pub create_refused :
      (scope_id name parent_id : String) (t : ScopeTree S.State) (e : Error)
      → (create S scope_id name parent_id t).0 ≡ err e
      → ((create S scope_id name parent_id t).1 ≡ t)
        × ((is_blank scope_id ≡ true)
            ⊎ (is_blank name ≡ true)
            ⊎ (has scope_id t.scopes ≡ true)
            ⊎ (has parent_id t.scopes ≡ false)
            ⊎ (S.current t.store ≢ t.version))
  unfolding create
  create_refused scope_id name parent_id t e h =
      let leaf : Scope = record { id = scope_id; parent_id = some parent_id; name = name } in
      let d = insert scope_id leaf t.scopes in
      elim (ℕ_discrete (S.current t.store) t.version) [
        | yes same ↦ let (store', done, loaded) = commit_lem d t same in ground (arith, done)
        | no other ↦ ground (arith, commit_stale d t other)
      ]
