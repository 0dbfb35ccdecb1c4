-- ===== src/Plugin/Manager/Placement/Restored.antt =====
-- `_restore_scopes` of src/langharness_plugin/plugin_manager.py ends, and restores every scope
-- that it is given or raises.
use mathlib.Core.Path.{subst, subst⁻¹, ap, ◌∙◌}
use langharness.Prelude.{
  ℕ, zero, suc, ◌≤◌, ◌<◌, String, Bool, true, false, List, [], ◌∷◌, some, Result, ok, err,
  string_eq, ◌≡◌, ◌≢◌, refl, arith, Result-cases, inl, inr, ◌⊎◌, length, diverges, filter, beq_refl,
  In, ◌>>=◌,
}
use native.Mathlib.Decide.{ℕ_discrete}
use mathlib.Core.Bool.{false≢true}
use langharness.Prelude.Dict.{has, insert}
use langharness.Scope.Model.{Scope}
use langharness.Scope.Store.{ScopeStore}
use langharness.Scope.Tree.Create.{commit_lem, commit_stale, create-IsTree, create_refused}
use langharness.Scope.Tree.Run.{IsSound, create_guards}
use langharness.Scope.Tree.Writes.{create}
use langharness.Plugin.Manager.Placement.{
  StoredScope, parent_or_root, is_pending, Tree, note, wait, after_create, place, pass, go_on,
  rounds, restore_scopes,
}

module _ (S : ScopeStore) where
  pair_eq_of : {A B : Type 0} {p : A × B} {a : A} {b : B} → p.0 ≡ a → p.1 ≡ b → p ≡ (a, b)
  pair_eq_of h k = cc

  -- Every scope that was there is there still.
  abbrev pub Grows : Tree S → Tree S → Type 0
  Grows t t' = (j : String) → has j t.scopes ≡ true → has j t'.scopes ≡ true

  -- The outcome of a creation: the scope is there, or the call raised.
  abbrev Created : StoredScope → Tree S → Result Scope × Tree S → Type 0
  Created item t (ok s, t') = IsSound S t' × Grows t t' × (has item.id t'.scopes ≡ true)
  Created item t (err e, t') = IsSound S t' × Grows t t' × (e ≢ diverges)

  create_ends : (i n p : String) (t : Tree S) → IsSound S t → (create S i n p t).0 ≢ err diverges
  unfolding create
  create_ends i n p t sound h =
      let leaf : Scope = record { id = i; parent_id = some p; name = n } in
      elim (ℕ_discrete (S.current t.store) t.version) [
        | yes same ↦
            let (store', done, loaded) = commit_lem S (insert i leaf t.scopes) t same in
            ground (arith, done)
        | no other ↦ ground (arith, commit_stale S (insert i leaf t.scopes) t other)
      ]

  create-Created :
      (item : StoredScope) (t : Tree S)
      → IsSound S t
      → Created item t (create S item.id item.name (parent_or_root item.parent_id) t)
  create-Created item t sound =
      let p = parent_or_root item.parent_id in
      let call = create S item.id item.name p t in
      elim (Result-cases call.0) [
        | inr (e, raised) ↦
            let same = (create_refused S item.id item.name p t e raised).0 in
            let whole : call ≡ (err e, t) = pair_eq_of raised same in
            subst⁻¹ (Created item t) whole (
              sound,
              λ j h. h,
              λ bad. create_ends item.id item.name p t sound (raised ∙ ap (λ x. err x) bad),
            )
        | inl (s, done) ↦
            let (g1, g2, g3, g4) = create_guards S item.id item.name p t s done in
            let (t', e, shape, sync, _, found) =
              create-IsTree S item.id item.name p t sound.0 sound.1 g1 g2 g3 g4 in
            subst⁻¹ (Created item t) e (
              (shape, sync),
              λ j h. ground (arith, found j),
              ground (arith, found item.id, beq_refl item.id),
            )
      ]

  -- What a pass leaves of the given scopes: fewer if one was created, and the others in the tree.
  abbrev Left : List StoredScope → List StoredScope → Bool → Tree S → Type 0
  Left items left moved t =
      (length left ≤ length items)
      × (moved ≡ true → length left < length items)
      × ((i : StoredScope) → In i items → In i left ⊎ (has i.id t.scopes ≡ true))

  abbrev Passed : List StoredScope → Tree S → Result (List StoredScope × Bool) × Tree S → Type 0
  Passed items t (ok (left, moved), t') = IsSound S t' × Grows t t' × Left items left moved t'
  Passed items t (err e, t') = IsSound S t' × Grows t t' × (e ≢ diverges)

  wait-Passed :
      (item : StoredScope) (items : List StoredScope) (t : Tree S)
      (r : Result (List StoredScope × Bool)) (t' : Tree S)
      → Passed items t (r, t')
      → Passed (item ∷ items) t (wait S item r, t')
  wait-Passed item items t (err e) t' passed = passed
  wait-Passed item items t (ok (left, moved)) t' (sound, grows, (fewer, less, rest)) = (
    sound,
    grows,
    (
      omega arith,
      λ yes. omega (arith, less yes),
      λ i m. elim m [
        | inl here ↦ inl (inl here)
        | inr later ↦ elim (rest i later) [ inl kept ↦ inl (inr kept) | inr there ↦ inr there ]
      ],
    ),
  )

  note-Passed :
      (item : StoredScope) (items : List StoredScope) (t t' : Tree S)
      (r : Result (List StoredScope × Bool)) (u : Tree S)
      → Grows t t'
      → has item.id t'.scopes ≡ true
      → Passed items t' (r, u)
      → Passed (item ∷ items) t (note S r, u)
  note-Passed item items t t' (err e) u before there (sound, grows, ends) =
      (sound, λ j h. grows j (before j h), ends)
  note-Passed item items t t' (ok (left, moved)) u before there
        (sound, grows, (fewer, less, rest)) =
      (
        sound,
        λ j h. grows j (before j h),
        (
          omega arith,
          λ _. omega arith,
          λ i m. elim m [
            | inl here ↦ inr (subst (λ x. has x.id u.scopes ≡ true) here (grows item.id there))
            | inr later ↦ rest i later
          ],
        ),
      )

  after_create-Passed :
      (item : StoredScope) (items : List StoredScope) (t : Tree S) (r : Result Scope) (t' : Tree S)
      → Created item t (r, t')
      → ((u : Tree S) → IsSound S u → Passed items u (pass S items u))
      → Passed (item ∷ items) t (after_create S (pass S items) (r, t'))
  after_create-Passed item items t (err e) t' created later = created
  after_create-Passed item items t (ok s) t' (sound, grows, there) later =
      note-Passed item items t t' (pass S items t').0 (pass S items t').1 grows there
        (later t' sound)

  place-Passed :
      (item : StoredScope) (items : List StoredScope) (known : Bool) (t : Tree S)
      → IsSound S t
      → ((u : Tree S) → IsSound S u → Passed items u (pass S items u))
      → Passed (item ∷ items) t (place S item (pass S items) known t)
  place-Passed item items false t sound later =
      wait-Passed item items t (pass S items t).0 (pass S items t).1 (later t sound)
  place-Passed item items true t sound later =
      let call = create S item.id item.name (parent_or_root item.parent_id) t in
      after_create-Passed item items t call.0 call.1 (create-Created item t sound) later

  pass-Passed :
      (items : List StoredScope) (t : Tree S) → IsSound S t → Passed items t (pass S items t)
  pass-Passed [] t sound =
      (sound, λ j h. h, (omega arith, λ no. absurd (false≢true no), λ i m. absurd m.1))
  pass-Passed (item ∷ items) t sound =
      place-Passed item items (has (parent_or_root item.parent_id) t.scopes) t sound
        (pass-Passed items)

  -- The outcome of a restoration: all given scopes are there, or the call raised.
  abbrev pub Restored : List StoredScope → Tree S → Result (Unit {0}) × Tree S → Type 0
  Restored items t (ok _, t') =
      IsSound S t' × Grows t t' × ((i : StoredScope) → In i items → has i.id t'.scopes ≡ true)
  Restored items t (err e, t') = IsSound S t' × Grows t t' × (e ≢ diverges)

  go_on-Restored :
      (n : ℕ) (items : List StoredScope) (t : Tree S) (r : Result (List StoredScope × Bool))
      (t' : Tree S)
      → length items ≤ suc n
      → Passed items t (r, t')
      → ((left : List StoredScope) (u : Tree S)
          → length left ≤ n
          → IsSound S u
          → Restored left u (rounds S n left u))
      → Restored items t (((λ _. (r, t')) >>= go_on S (rounds S n)) t)
  go_on-Restored n items t (err e) t' small passed later = passed
  go_on-Restored n items t (ok (left, false)) t' small (sound, grows, _) later =
      (sound, grows, λ bad. cc)
  go_on-Restored n items t (ok (left, true)) t' small (sound, grows, (fewer, less, rest)) later =
      chain (rounds S n left t').0 (rounds S n left t').1
        (later left t' (omega (arith, less refl)) sound)
    where
      chain :
          (r : Result (Unit {0})) (u : Tree S) → Restored left t' (r, u) → Restored items t (r, u)
      chain (err e) u (sound', grows', ends) = (sound', λ j h. grows' j (grows j h), ends)
      chain (ok x) u (sound', grows', there) = (
        sound',
        λ j h. grows' j (grows j h),
        λ i m. elim (rest i m) [ inl kept ↦ there i kept | inr known ↦ grows' i.id known ],
      )

  rounds-Restored :
      (n : ℕ) (items : List StoredScope) (t : Tree S)
      → length items ≤ n
      → IsSound S t
      → Restored items t (rounds S n items t)
  rounds-Restored n [] t small sound = (sound, λ j h. h, λ i m. absurd m.1)
  rounds-Restored zero (item ∷ items) t small sound = absurd (omega arith)
  rounds-Restored (suc n) (item ∷ items) t small sound =
      go_on-Restored n (item ∷ items) t (pass S (item ∷ items) t).0 (pass S (item ∷ items) t).1
        small (pass-Passed (item ∷ items) t sound)
        (λ left u fits fine. rounds-Restored n left u fits fine)

  -- On a tree in step with its store, the loop ends: it leaves the shape of a tree, in step with
  -- its store, with all the scopes it had, and either every pending scope is in it or the call
  -- raises.
  pub restore_scopes-Restored :
      (items : List StoredScope) (t : Tree S)
      → IsSound S t
      → Restored (filter (is_pending t.scopes) items) t (restore_scopes S items t)
  unfolding restore_scopes
  restore_scopes-Restored items t sound =
      let pending = filter (is_pending t.scopes) items in
      rounds-Restored (length pending) pending t (omega arith) sound
