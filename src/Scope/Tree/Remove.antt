-- ===== src/Scope/Tree/Remove.antt =====
-- `remove` of src/langharness_scope/tree.py: it takes a subtree, and leaves a tree.
use langharness.Prelude.{
  ◌+◌, String, ◌≡◌, refl, ◌≢◌, Bool, true, false, not, ◌&&◌, none, some, List, [], ◌∷◌, map, ok,
  err, inl, inr, ◌⊎◌, ◌↔◌, arith, string_eq, if◌then◌else◌, Error, All, sym, filter, contains, In,
  In-map, map-In, In-reverse, reverse-In, In-append, append-In_left, append-In_right, contains-In,
  In-contains, is_nonempty, Result-cases, Option, Bool-cases, ◌==◌,
}
use langharness.Prelude.Dict.{lookup, lookup-filter, filter-Distinct, index-filter-lt}
use langharness.Scope.Model.{Scope, Scopes, root_scope_id}
use langharness.Scope.Store.{ScopeStore}
use langharness.Scope.Tree.Create.{IsSynced, commit_lem, commit_cases, version_of_synced}
use langharness.Scope.Tree.Reads.{require, descendants}
use langharness.Scope.Tree.Subtree.{Below, descendants-Below}
use langharness.Scope.Tree.Valid.{IsTree, id_of_lookup}
use langharness.Scope.Tree.Writes.{ScopeTree, remove, removed_ids}
use mathlib.Core.List.{reverse}
use mathlib.Core.Path.{subst}
use text.Mathlib.TextEquality.{eq_iff}

filter_keyed :
    (p : String → Bool) (d : Scopes)
    → All (λ e. e.1.id ≡ e.0) d
    → All (λ e. e.1.id ≡ e.0) (filter (λ e. p e.0) d)
filter_keyed p [] keyed = tt
filter_keyed p ((j, t) ∷ d) keyed = ground (arith, filter_keyed p d keyed.1)

lookup_kept :
    (p : String → Bool) (k : String) (s : Scope) (d : Scopes)
    → lookup k (filter (λ e. p e.0) d) ≡ some s
    → (p k ≡ true) × (lookup k d ≡ some s)
lookup_kept p k s d h = ground (arith, lookup-filter p k d)

-- What stays is a tree, if the root stays and with each node its parent.
pub filter-IsTree :
    {d : Scopes} (p : String → Bool)
    → IsTree d
    → p root_scope_id ≡ true
    → ((k q : String) (s : Scope)
        → lookup k d ≡ some s
        → s.parent_id ≡ some q
        → p k ≡ true
        → p q ≡ true)
    → IsTree (filter (λ e. p e.0) d)
filter-IsTree {d} p t keep_root closed = record {
  keyed = filter_keyed p d t.keyed;
  distinct = filter-Distinct p d t.distinct;
  root = (t.root.0, ground (arith, lookup-filter p root_scope_id d, t.root), t.root.2);
  rooted = λ k s h e. t.rooted k s (lookup_kept p k s d h).1 e;
  ordered = λ k q s h e.
      let (kept, before) = lookup_kept p k s d h in
      index-filter-lt p q k d (closed k q s before e kept) kept (t.ordered k q s before e);
}

Below-root : {d : Scopes} (k : String) → IsTree d → ¬ Below d k root_scope_id
Below-root k t (Below.child s h e) = ground (arith, t.root)
Below-root k t (Below.deeper s p h e b) = ground (arith, t.root)

-- The ids that go are those of the node and of what stands below it.
In-removed :
    {d : Scopes} (k : String) (l : List Scope)
    → IsTree d
    → ((x : Scope) → In x l ↔ ((lookup x.id d ≡ some x) × Below d k x.id))
    → (j : String) → contains j (removed_ids k l) ≡ true
    → (k ≡ j) ⊎ Below d k j
In-removed {d} k l t exact j h =
    elim (In-append j (map (λ s. s.id) (reverse l)) (k ∷ []) (contains-In j (removed_ids k l) h)) [
      | inl below ↦
          let (x, i, same) = In-map (λ s. s.id) j (reverse l) below in
          inr (subst (Below d k) same ((exact x).0 (In-reverse x l i)).1)
      | inr last ↦ elim last [ inl same ↦ inl same | inr bad ↦ absurd bad.1 ]
    ]

pub node_of_Below : {d : Scopes} (k j : String) → Below d k j → (s : Scope) × (lookup j d ≡ some s)
node_of_Below k j (Below.child s h e) = (s, h)
node_of_Below k j (Below.deeper s p h e b) = (s, h)

removed-In :
    {d : Scopes} (k : String) (l : List Scope)
    → IsTree d
    → ((x : Scope) → In x l ↔ ((lookup x.id d ≡ some x) × Below d k x.id))
    → (j : String) → (k ≡ j) ⊎ Below d k j
    → contains j (removed_ids k l) ≡ true
removed-In k l t exact j (inl same) =
    In-contains j (removed_ids k l)
      (append-In_right j (map (λ s. s.id) (reverse l)) (k ∷ []) (inl same))
removed-In {d} k l t exact j (inr below) =
    let (x, found) = node_of_Below k j below in
    let same : x.id ≡ j = id_of_lookup j x d t.keyed found in
    let listed : In x l =
      (exact x).1
        (subst (λ a. lookup a d ≡ some x) (sym same) found, subst (Below d k) (sym same) below) in
    In-contains j (removed_ids k l) (
      append-In_left j (map (λ s. s.id) (reverse l)) (k ∷ []) (
        subst (λ a. In a (map (λ s. s.id) (reverse l))) same
          (map-In (λ s. s.id) x (reverse l) (reverse-In x l listed))))

err_ne_ok : {A : Type 0} {e : Error} {a : A} → err e ≢ ok a
err_ne_ok h = cc

not_eq_true : (b : Bool) → ¬ (b ≡ true) → not b ≡ true
not_eq_true true h = absurd (h refl)
not_eq_true false h = refl

not-true : {b : Bool} → not b ≡ true → b ≡ true → ⊥
not-true h e = ground arith

Below-step :
    {d : Scopes} (scope_id k q : String) (x : Scope)
    → lookup k d ≡ some x
    → x.parent_id ≡ some q
    → (scope_id ≡ q) ⊎ Below d scope_id q
    → Below d scope_id k
Below-step scope_id k q x h e (inl same) =
    Below.child x h (subst (λ a. x.parent_id ≡ some a) (sym same) e)
Below-step scope_id k q x h e (inr b) = Below.deeper x q h e b

-- The guard against a removal of a parent does not fire.
guard_passes :
    {d : Scopes} (k : String) (recursive : Bool) (l : List Scope)
    → ((x : Scope) → In x l ↔ ((lookup x.id d ≡ some x) × Below d k x.id))
    → (recursive ≡ true) ⊎ ((j : String) → ¬ Below d k j)
    → (is_nonempty l && not recursive) ≡ false
guard_passes k recursive [] exact allowed = refl
guard_passes k recursive (x ∷ l) exact (inl r) = ground arith
guard_passes k recursive (x ∷ l) exact (inr leaf) = absurd (leaf x.id ((exact x).0 (inl refl)).1)

module _ (S : ScopeStore) where
  -- The tree after a removal: the store in step under the next version, a tree again, without the
  -- node and what stands below it, and with every other node as it was.
  pub record IsPruned (k : String) (t : ScopeTree S.State) (removed : List String)
      (t' : ScopeTree S.State) : Type 0 where
    pub shape : IsTree t'.scopes
    pub sync : IsSynced S t'
    pub next : t'.version ≡ t.version + 1
    pub exact : (j : String) → (contains j removed ≡ true) ↔ ((k ≡ j) ⊎ Below t.scopes k j)
    pub kept :
        (j : String) → lookup j t'.scopes ≡ (if contains j removed then none else lookup j t.scopes)

  -- On a tree in step with its store, `remove` of a known node other than the root succeeds if it
  -- is recursive or the node has nothing below it, and takes exactly the node and its subtree.
  pub remove-IsPruned :
      (scope_id : String) (recursive : Bool) (s : Scope) (t : ScopeTree S.State)
      → IsTree t.scopes
      → IsSynced S t
      → scope_id ≢ root_scope_id
      → lookup scope_id t.scopes ≡ some s
      → (recursive ≡ true) ⊎ ((j : String) → ¬ Below t.scopes scope_id j)
      → (removed : List String) × (t' : ScopeTree S.State) × (remove S scope_id recursive t
          ≡ (ok removed, t'))
        × IsPruned scope_id t removed t'
  unfolding remove require
  remove-IsPruned scope_id recursive s t shape sync proper found allowed =
      let (l, listed, exact) = descendants-Below shape scope_id s found in
      let removed = removed_ids scope_id l in
      let stay : String → Bool = λ j. not (contains j removed) in
      let d = filter (λ e. stay e.0) t.scopes in
      let stays : (j : String) → ¬ ((scope_id ≡ j) ⊎ Below t.scopes scope_id j) → stay j ≡ true =
        λ j out.
          not_eq_true (contains j removed) (λ c. out (In-removed scope_id l shape exact j c)) in
      let under : (k q : String) (x : Scope)
          → lookup k t.scopes ≡ some x
          → x.parent_id ≡ some q
          → (scope_id ≡ q) ⊎ Below t.scopes scope_id q
          → Below t.scopes scope_id k =
        λ k q x h e gone. Below-step scope_id k q x h e gone in
      let (store', done, loaded) = commit_lem S d t (version_of_synced S sync) in
      let unrefused : (is_nonempty l && not recursive) ≡ false =
        guard_passes scope_id recursive l exact allowed in
      (
        removed,
        record { store = store'; scopes = d; version = t.version + 1 },
        ground (arith, eq_iff scope_id root_scope_id, listed, done),
        record {
          shape =
              filter-IsTree stay shape
                (stays root_scope_id (λ gone. elim gone [
                  | inl same ↦ proper same
                  | inr b ↦ Below-root scope_id shape b
                ]))
                (λ k q x h e k_stays. stays q (λ gone.
                  not-true k_stays
                    (removed-In scope_id l shape exact k (inr (under k q x h e gone)))));
          sync = record { held = loaded };
          next = refl;
          exact = λ j. (In-removed scope_id l shape exact j, removed-In scope_id l shape exact j);
          kept = λ j. ground (arith, lookup-filter stay j t.scopes);
        },
      )

  -- A call of `remove` that raises changes neither the tree nor its store.
  pub remove_refused :
      (scope_id : String) (recursive : Bool) (t : ScopeTree S.State) (e : Error)
      → (remove S scope_id recursive t).0 ≡ err e
      → (remove S scope_id recursive t).1 ≡ t
  unfolding remove
  remove_refused scope_id recursive t e h =
      elim (Result-cases (descendants t.scopes scope_id false)) [
        | inr (why, raised) ↦ ground arith
        | inl (below, listed) ↦
            let removed = removed_ids scope_id below in
            ground
              (arith, commit_cases S (filter (λ entry. not (contains entry.0 removed)) t.scopes) t)
      ]

  -- What holds of a removal that succeeds: the node is known and not the root, and has nothing below
  -- it unless the removal is recursive.
  pub remove_answers :
      (scope_id : String) (recursive : Bool) (t : ScopeTree S.State) (removed : List String)
      → IsTree t.scopes
      → (remove S scope_id recursive t).0 ≡ ok removed
      → (scope_id ≢ root_scope_id)
        × ((s : Scope) × (lookup scope_id t.scopes ≡ some s))
        × ((recursive ≡ true) ⊎ ((j : String) → ¬ Below t.scopes scope_id j))
  unfolding remove require
  remove_answers scope_id recursive t removed shape done =
      elim (Bool-cases (scope_id == root_scope_id)) [
        | inl same ↦ absurd (err_ne_ok (rw same at done))
        | inr differ ↦ known differ (lookup scope_id t.scopes) refl
      ]
    where
      known :
          (scope_id == root_scope_id) ≡ false
          → (o : Option Scope) → lookup scope_id t.scopes ≡ o
          → (scope_id ≢ root_scope_id)
            × ((s : Scope) × (lookup scope_id t.scopes ≡ some s))
            × ((recursive ≡ true) ⊎ ((j : String) → ¬ Below t.scopes scope_id j))
      known differ none absent = absurd (err_ne_ok (rw (differ, absent) at done))
      known differ (some s) found =
          let (l, listed, exact) = descendants-Below shape scope_id s found in
          (
            λ same. ground (arith, eq_iff scope_id root_scope_id),
            (s, found),
            elim (Bool-cases recursive) [
              | inl forced ↦ inl forced
              | inr unforced ↦ elim (Bool-cases (is_nonempty l)) [
                | inl some_below ↦
                    absurd (err_ne_ok (rw (differ, found, listed, some_below, unforced) at done))
                | inr none_below ↦ inr λ j below.
                    let (x, held) = node_of_Below scope_id j below in
                    let own : x.id ≡ j = id_of_lookup j x t.scopes shape.keyed held in
                    nothing l none_below x (
                      (exact x).1 (
                        subst (λ a. lookup a t.scopes ≡ some x) (sym own) held,
                        subst (Below t.scopes scope_id) (sym own) below,
                      ))
              ]
            ],
          )
        where
          nothing : (l : List Scope) → is_nonempty l ≡ false → (x : Scope) → In x l → ⊥
          nothing [] h x m = m.1
          nothing (y ∷ l) h x m = cc
