-- ===== src/Plugin/Manager/Placement/Removed.antt =====
-- What `remove_scope` of src/langharness_plugin/plugin_manager.py takes when it succeeds: the subtree
-- of the scope, and the instances that stand in it.
use mathlib.Core.Path.{subst, subst⁻¹, sym, ap, ◌∙◌}
use mathlib.Core.List.{reverse}
use mathlib.Core.Bool.{false≢true}
use langharness.Prelude.{
  ℕ, none_ne_some, String, Bool, true, false, List, [], ◌∷◌, map, Option, none, some, Result, ok,
  err, lift, ◌>>=◌, string_eq, if◌then◌else◌, contains, ◌≡◌, refl, arith, Bool-cases, All, In, inl,
  inr, ◌⊎◌, ◌↔◌, map-In, In-map, In-contains, contains-In, reverse-In, In-reverse, filter-In,
  In-filter, some_inj, ok_inj,
}
use langharness.Prelude.Dict.{Dict, In-of_lookup, Distinct, lookup, values}
use langharness.Scope.Model.{Scope, Scopes}
use langharness.Scope.Store.{ScopeStore}
use langharness.Scope.Tree.Create.{IsSynced}
use langharness.Scope.Tree.Remove.{IsPruned, remove-IsPruned, remove_answers, node_of_Below}
use langharness.Scope.Tree.Subtree.{Below, descendants-Below}
use langharness.Scope.Tree.Valid.{IsTree, id_of_lookup}
use langharness.Scope.Tree.Writes.{remove}
use langharness.Plugin.Manager.{
  PluginInstanceSnapshot, RuntimeStateStore, Framework, Manager, persist_state, stored_version,
  snapshot_of,
}
use langharness.Plugin.Manager.Frame.{answered}
use langharness.Plugin.Manager.Placement.Removal.{
  ScopedManager, tree_of, on_tree, on_manager, targets_of, stands_in, affected_by, guard_scope,
  remove_records, remove_guarded, remove_targets, remove_scope, persist_state-instances,
}
use langharness.Plugin.Manager.Placement.Without.{remove_records-Without}

-- Each instance stands under its own id.
abbrev pub IsKeyed : Dict String PluginInstanceSnapshot → Type 0
IsKeyed = All (λ e. e.1.instance_id ≡ e.0)

own_id :
    (k : String) (s : PluginInstanceSnapshot) (d : Dict String PluginInstanceSnapshot)
    → IsKeyed d
    → lookup k d ≡ some s
    → s.instance_id ≡ k
own_id k s [] keyed h = cc
own_id k s ((j, t) ∷ d) keyed h = ground (arith, string_eq.beq_iff j k, own_id k s d keyed.1)

listed_once :
    (s : PluginInstanceSnapshot) (d : Dict String PluginInstanceSnapshot)
    → IsKeyed d
    → Distinct d
    → In s (values d)
    → lookup s.instance_id d ≡ some s
listed_once s [] keyed distinct (_, bad) = absurd bad
listed_once s ((j, t) ∷ d) keyed distinct (inl same) =
    ground (arith, string_eq.beq_iff j s.instance_id)
listed_once s ((j, t) ∷ d) keyed distinct (inr later) =
    ground (arith, string_eq.beq_iff j s.instance_id, listed_once s d keyed.1 distinct.1 later)

module _ (S : ScopeStore) (R : RuntimeStateStore) (F : Framework) where
  persist_state-scopes : (m : Manager R F) → (persist_state R F m).1.scopes ≡ m.scopes
  unfolding persist_state
  persist_state-scopes m = go m m.state_store
    where
      stored :
          (m : Manager R F) (p : Result ℕ × R.State) → (stored_version R F m p).1.scopes ≡ m.scopes
      stored m (ok v, st) = refl
      stored m (err e, st) = refl

      go :
          (m : Manager R F) (o : Option R.State)
          → (elim o as (λ _. Result (Unit {0}) × Manager R F) [
            | none ↦ (ok tt, m)
            | some st ↦ stored_version R F m (R.save (snapshot_of R F m) m.state_version st)
          ]).1.scopes
            ≡ m.scopes
      go m none = refl
      go m (some st) = stored m (R.save (snapshot_of R F m) m.state_version st)

  -- The scopes whose instances go are the node and what stands below it.
  targets-exact :
      (k : String) (recursive : Bool) (s : Scope) (targets : List String) (d : Scopes)
      → IsTree d
      → lookup k d ≡ some s
      → (recursive ≡ true) ⊎ ((j : String) → ¬ Below d k j)
      → targets_of S R F d k recursive ≡ ok targets
      → (j : String) → (contains j targets ≡ true) ↔ ((k ≡ j) ⊎ Below d k j)
  targets-exact k false s targets d shape found allowed named j =
      let same : k ∷ [] ≡ targets = ok_inj named in
      let leaf : ¬ Below d k j = elim allowed [
        | inl forced ↦ absurd (false≢true forced)
        | inr bare ↦ bare j
      ] in
      subst (λ l. (contains j l ≡ true) ↔ ((k ≡ j) ⊎ Below d k j)) same
        (
          (λ h. elim (contains-In j (k ∷ []) h) [ inl here ↦ inl here | inr bad ↦ absurd bad.1 ]),
          λ h. elim h [
            | inl here ↦ In-contains j (k ∷ []) (inl here)
            | inr below ↦ absurd (leaf below)
          ],
        )
  targets-exact k true s targets d shape found allowed named j =
      let (l, listed, exact) = descendants-Below shape k s found in
      let same : k ∷ map (λ x. x.id) l ≡ targets = ok_inj (rw listed at named) in
      let ids = map (λ x. x.id) l in
      subst (λ l. (contains j l ≡ true) ↔ ((k ≡ j) ⊎ Below d k j)) same
        (
          (λ h. elim (contains-In j (k ∷ ids) h) [
            | inl here ↦ inl here
            | inr later ↦
                let (x, i, eq) = In-map (λ x. x.id) j l later in
                inr (subst (Below d k) eq ((exact x).0 i).1)
          ]),
          λ h. elim h [
            | inl here ↦ In-contains j (k ∷ ids) (inl here)
            | inr below ↦
                let (x, held) = node_of_Below k j below in
                let own : x.id ≡ j = id_of_lookup j x d shape.keyed held in
                let i : In x l = (exact x).1 (
                  subst (λ a. lookup a d ≡ some x) (sym own) held,
                  subst (Below d k) (sym own) below,
                ) in
                In-contains j (k ∷ ids) (inr (subst (λ a. In a ids) own (map-In (λ x. x.id) x l i)))
          ],
        )

  -- The instances left are those that were there and stood in none of the targets.
  kept-exact :
      (targets : List String) (m : Manager R F) (d : Dict String PluginInstanceSnapshot)
      → IsKeyed m.instances
      → Distinct m.instances
      → ((j : String)
          → lookup j d ≡ (
              if contains j (map (λ s. s.instance_id) (reverse (affected_by S R F targets m)))
              then none
              else lookup j m.instances))
      → (j : String) (s : PluginInstanceSnapshot)
      → (lookup j d ≡ some s)
        ↔ ((lookup j m.instances ≡ some s) × (contains s.scope_id targets ≡ false))
  kept-exact targets m d keyed distinct left j s =
      let affected = affected_by S R F targets m in
      let ids = map (λ t. t.instance_id) (reverse affected) in
      (
        λ h. elim (Bool-cases (contains j ids)) [
          | inl gone ↦ absurd (none_ne_some (sym (left j ∙ rw gone refl) ∙ h))
          | inr unlisted ↦
              let old : lookup j m.instances ≡ some s = sym (left j ∙ rw unlisted refl) ∙ h in
              (
                old,
                elim (Bool-cases (contains s.scope_id targets)) [
                  | inr elsewhere ↦ elsewhere
                  | inl there ↦
                      let i =
                        filter-In (stands_in S R F targets) s (values m.instances)
                          (In-of_lookup j s m.instances old) there in
                      let named =
                        map-In (λ t. t.instance_id) s (reverse affected)
                          (reverse-In s affected i) in
                      absurd (
                        false≢true (
                          sym unlisted
                          ∙ subst (λ k. contains k ids ≡ true) (own_id j s m.instances keyed old)
                              (In-contains s.instance_id ids named)))
                ],
              )
        ],
        λ (old, elsewhere). elim (Bool-cases (contains j ids)) [
          | inr unlisted ↦ left j ∙ rw unlisted old
          | inl gone ↦
              let (t, i, eq) =
                In-map (λ t. t.instance_id) j (reverse affected) (contains-In j ids gone) in
              let (held, there) =
                In-filter (stands_in S R F targets) t (values m.instances)
                  (In-reverse t affected i) in
              let same : s ≡ t = some_inj (
                sym old
                ∙ subst (λ k. lookup k m.instances ≡ some t) eq
                    (listed_once t m.instances keyed distinct held)) in
              absurd (
                false≢true
                  (sym elsewhere ∙ subst⁻¹ (λ x. contains x.scope_id targets ≡ true) same there))
        ],
      )

  -- What a removal past its guards comes to.
  record IsCarriedOut (k : String) (recursive : Bool) (affected : List PluginInstanceSnapshot)
      (m after : ScopedManager S R F) : Type 0 where
    node : Scope
    known : lookup k m.manager.scopes ≡ some node
    allowed : (recursive ≡ true) ⊎ ((j : String) → ¬ Below m.manager.scopes k j)
    removed : List String
    pruned : IsPruned S k (tree_of S R F m) removed (tree_of S R F after)
    left :
        (j : String)
        → lookup j after.manager.instances ≡ (
            if contains j (map (λ s. s.instance_id) (reverse affected))
            then none
            else lookup j m.manager.instances)

  remove_guarded-IsCarriedOut :
      (k : String) (recursive : Bool) (affected : List PluginInstanceSnapshot)
      (m : ScopedManager S R F)
      → IsTree m.manager.scopes
      → IsSynced S (tree_of S R F m)
      → (remove_guarded S R F k recursive affected m).0 ≡ ok tt
      → IsCarriedOut k recursive affected m (remove_guarded S R F k recursive affected m).1
  remove_guarded-IsCarriedOut k recursive affected m shape sync done =
      let records = remove_records S R F (reverse affected) in
      let take = on_tree S R F (remove S k recursive) in
      let persist = on_manager S R F (persist_state R F) in
      let (x, m1, went, whole) =
        answered (on_manager S R F records) (λ _. take >>= λ _. persist) m tt done in
      let (y, m2, went', whole') =
        answered take (λ _. persist) m1 tt (sym (ap (λ p. p.0) whole) ∙ done) in
      let gone = remove_records-Without S R F (reverse affected) m.manager (ap (λ p. p.0) went) in
      let same : tree_of S R F m1 ≡ tree_of S R F m =
        ap (λ p. tree_of S R F p.1) (sym went)
        ∙ ap (λ d. record { store = m.scope_store; scopes = d; version = m.scope_version })
            gone.1 in
      let (proper, (s, found), allowed) =
        remove_answers S k recursive (tree_of S R F m) y shape
          (ap (λ t. (remove S k recursive t).0) (sym same) ∙ ap (λ p. p.0) went') in
      let (removed, t', taken, pruned) =
        remove-IsPruned S k recursive s (tree_of S R F m) shape sync proper found allowed in
      let later : tree_of S R F m2 ≡ t' =
        ap (λ p. tree_of S R F p.1) (sym went')
        ∙ ap (λ t. (remove S k recursive t).1) same
        ∙ ap (λ p. p.1) taken in
      let final : tree_of S R F (remove_guarded S R F k recursive affected m).1 ≡ t' =
        ap (λ p. tree_of S R F p.1) (whole ∙ whole')
        ∙ ap (λ d. record { store = m2.scope_store; scopes = d; version = m2.scope_version })
            (persist_state-scopes m2.manager)
        ∙ later in
      record {
        node = s;
        known = found;
        allowed = allowed;
        removed = removed;
        pruned = subst⁻¹ (IsPruned S k (tree_of S R F m) removed) final pruned;
        left = λ j.
            ap (λ p. lookup j p.1.manager.instances) (whole ∙ whole')
            ∙ ap (lookup j) (
                persist_state-instances S R F m2.manager
                ∙ ap (λ p. p.1.manager.instances) (sym went')
                ∙ ap (λ p. p.1.manager.instances) (sym went))
            ∙ gone.0 j;
      }

  false_of_iff : (b c : Bool) → (b ≡ true) ↔ (c ≡ true) → b ≡ false → c ≡ false
  false_of_iff b c same h = ground (arith, same)

  -- On a scope tree in step with its store and instances with distinct ids, a removal that succeeds
  -- takes exactly the scope and its subtree from the tree, which is a tree in step again, and of
  -- the instances exactly those that stood in one of the scopes removed.
  pub remove_scope-instances :
      (scope_id : String) (recursive : Bool) (m : ScopedManager S R F)
      → IsTree m.manager.scopes
      → IsSynced S (tree_of S R F m)
      → IsKeyed m.manager.instances
      → Distinct m.manager.instances
      → (remove_scope S R F scope_id recursive m).0 ≡ ok tt
      → let after = (remove_scope S R F scope_id recursive m).1 in
        (removed : List String) × IsPruned S scope_id
          (tree_of S R F m)
          removed
          (tree_of S R F after)
        × ((j : String) (s : PluginInstanceSnapshot)
            → (lookup j after.manager.instances ≡ some s)
              ↔ ((lookup j m.manager.instances ≡ some s) × (contains s.scope_id removed ≡ false)))
  unfolding remove_scope
  remove_scope-instances scope_id recursive m shape sync keyed distinct done =
      let (targets, m0, named, whole) =
        answered (lift (targets_of S R F m.manager.scopes scope_id recursive))
          (remove_targets S R F scope_id recursive) m tt done in
      let named' = ap (λ p. p.0) named in
      let affected = affected_by S R F targets m.manager in
      let body : remove_scope S R F scope_id recursive m
          ≡ remove_targets S R F scope_id recursive targets m =
        whole ∙ ap (remove_targets S R F scope_id recursive targets) (ap (λ p. p.1) (sym named)) in
      let (x, m1, passed, whole') =
        answered (lift (guard_scope S R F scope_id recursive affected m.manager.scopes))
          (λ _. remove_guarded S R F scope_id recursive affected) m tt
          (sym (ap (λ p. p.0) body) ∙ done) in
      let all : remove_scope S R F scope_id recursive m
          ≡ remove_guarded S R F scope_id recursive affected m =
        body
        ∙ whole'
        ∙ ap (remove_guarded S R F scope_id recursive affected) (ap (λ p. p.1) (sym passed)) in
      let out =
        remove_guarded-IsCarriedOut scope_id recursive affected m shape sync
          (sym (ap (λ p. p.0) all) ∙ done) in
      let exact =
        targets-exact scope_id recursive out.node targets m.manager.scopes shape out.known
          out.allowed named' in
      let agree : (j : String) → (contains j targets ≡ true) ↔ (contains j out.removed ≡ true) =
        λ j. (
          (λ h. (out.pruned.exact j).1 ((exact j).0 h)),
          λ h. (exact j).1 ((out.pruned.exact j).0 h),
        ) in
      subst⁻¹
        (λ p.
          (removed : List String) × IsPruned S scope_id (tree_of S R F m) removed
            (tree_of S R F p.1)
          × ((j : String) (s : PluginInstanceSnapshot)
              → (lookup j p.1.manager.instances ≡ some s) ↔ (
                  (lookup j m.manager.instances ≡ some s) × (contains s.scope_id removed ≡ false))))
        all
        (
          out.removed,
          out.pruned,
          λ j s.
              let there =
                kept-exact targets m.manager
                  (remove_guarded S R F scope_id recursive affected m).1.manager.instances keyed
                  distinct out.left j s in
              (
                (λ h.
                    let (old, elsewhere) = there.0 h in
                    (
                      old,
                      false_of_iff (contains s.scope_id targets) (contains s.scope_id out.removed)
                          (agree s.scope_id) elsewhere,
                    )),
                λ (old, elsewhere). there.1 (
                  old,
                  false_of_iff (contains s.scope_id out.removed) (contains s.scope_id targets)
                      ((agree s.scope_id).1, (agree s.scope_id).0) elsewhere,
                ),
              ),
        )
