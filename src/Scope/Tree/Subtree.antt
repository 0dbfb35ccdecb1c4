-- ===== src/Scope/Tree/Subtree.antt =====
-- `descendants` of src/langharness_scope/tree.py against the relation "stands below".
use langharness.Prelude.{
  ℕ, zero, suc, ◌+◌, ◌≤◌, String, ◌≡◌, refl, false, some, List, [], ◌∷◌, ◌++◌, Result, ok, inl, inr,
  ◌⊎◌, arith, Option-cases, string_eq, option_eq, length, filter, In, ◌↔◌, option_beq_iff, ap, sym,
  ◌∙◌, bind_eq_ok, ok_inj, some_inj, In-filter, filter-In, In-append, append-In_left,
  append-In_right,
}
use mathlib.Core.Path.{subst}
use langharness.Prelude.Dict.{In-of_lookup, lookup, index, values, index-lt-length}
use langharness.Scope.Model.{Scope, Scopes}
use langharness.Scope.Tree.Reads.{require, children, visit_all, visit, descendants, is_child}
use langharness.Scope.Tree.Valid.{IsTree, id_of_lookup, lookup_of_In}

-- `j` stands below `k`: its parent is `k`, or stands below `k`.
pub data Below (d : Scopes) (k : String) : String → Type 0 where
  child : {j : String} (s : Scope) → lookup j d ≡ some s → s.parent_id ≡ some k → Below d k j
  deeper :
      {j : String} (s : Scope) (p : String)
      → lookup j d ≡ some s
      → s.parent_id ≡ some p
      → Below d k p
      → Below d k j

-- Below a node means to be one of its children, or below one of them.
pub Below-first :
    {d : Scopes} (k j : String)
    → Below d k j
    → (c : String) × (s : Scope) × (lookup c d ≡ some s)
      × (s.parent_id ≡ some k)
      × ((c ≡ j) ⊎ Below d c j)
Below-first k j (Below.child s h e) = (j, s, h, e, inl refl)
Below-first {d} k j (Below.deeper s p h e b) =
    let (c, t, found, parent, rest) = Below-first k p b in
    (c, t, found, parent, inr (extend c rest))
  where
    extend : (c : String) → (c ≡ p) ⊎ Below d c p → Below d c j
    extend c (inl same) = Below.child s h (rw same e)
    extend c (inr under) = Below.deeper s p h e under

-- Above a node that stands below `c`, and `c` a child of `k`: it stands below `k`.
pub Below-trans :
    {d : Scopes} (k c j : String) (s : Scope)
    → lookup c d ≡ some s
    → s.parent_id ≡ some k
    → Below d c j
    → Below d k j
Below-trans k c j s h e (Below.child t ht et) = Below.deeper t c ht et (Below.child s h e)
Below-trans k c j s h e (Below.deeper t p ht et b) =
    Below.deeper t p ht et (Below-trans k c p s h e b)

module _ {d : Scopes} (t : IsTree d) where
  -- The nodes that `children` lists are those whose parent is the given one.
  In-children :
      (k : String) (x : Scope)
      → In x (filter (is_child k) (values d))
      → (lookup x.id d ≡ some x) × (x.parent_id ≡ some k)
  In-children k x m =
      let (a, b) = In-filter (is_child k) x (values d) m in
      (lookup_of_In x d t.keyed t.distinct a, (option_beq_iff x.parent_id (some k)).0 b)

  children-In :
      (k j : String) (x : Scope)
      → lookup j d ≡ some x
      → x.parent_id ≡ some k
      → In x (filter (is_child k) (values d))
  children-In k j x h e =
      filter-In (is_child k) x (values d) (In-of_lookup j x d h)
        ((option_beq_iff x.parent_id (some k)).1 e)

visit_all_cons :
    (g : String → Result (List Scope)) (c : Scope) (cs l : List Scope)
    → visit_all g (c ∷ cs) ≡ ok l
    → (sub others : List Scope) × (g c.id ≡ ok sub)
      × (visit_all g cs ≡ ok others)
      × (c ∷ (sub ++ others) ≡ l)
unfolding visit_all
visit_all_cons g c cs l h =
    let (sub, e, h') = bind_eq_ok (g c.id) _ h in
    let (others, e', h'') = bind_eq_ok (visit_all g cs) _ h' in (sub, others, e, e', ok_inj h'')

visit_all_nil : (g : String → Result (List Scope)) (l : List Scope) → visit_all g [] ≡ ok l → [] ≡ l
unfolding visit_all
visit_all_nil g l h = ok_inj h

visit_all_sound :
    (g : String → Result (List Scope)) (P : Scope → Type 0) (cs l : List Scope)
    → ((c : Scope) → In c cs → P c)
    → ((c : Scope) (sub : List Scope) → In c cs → g c.id ≡ ok sub → (x : Scope) → In x sub → P x)
    → visit_all g cs ≡ ok l
    → (x : Scope) → In x l
    → P x
visit_all_sound g P [] l own below h x m =
    let n : In x [] = subst (In x) (sym (visit_all_nil g l h)) m in absurd n.1
visit_all_sound g P (c ∷ cs) l own below h x m =
    let (sub, others, e, e', q) = visit_all_cons g c cs l h in
    let n : In x (c ∷ (sub ++ others)) = subst (In x) (sym q) m in
    elim n [
      | inl same ↦ subst P same (own c (inl refl))
      | inr later ↦ elim (In-append x sub others later) [
        | inl here ↦ below c sub (inl refl) e x here
        | inr there ↦
            visit_all_sound g P cs others (λ c' i. own c' (inr i)) (λ c' s i. below c' s (inr i)) e'
              x there
      ]
    ]

visit_all_complete :
    (g : String → Result (List Scope)) (cs l : List Scope)
    → visit_all g cs ≡ ok l
    → (c : Scope) → In c cs
    → In c l × ((sub : List Scope) × (g c.id ≡ ok sub) × ((x : Scope) → In x sub → In x l))
visit_all_complete g [] l h c m = absurd m.1
visit_all_complete g (a ∷ cs) l h c m =
    let (sub, others, e, e', q) = visit_all_cons g a cs l h in
    elim m [
      | inl same ↦ (
        subst (In c) q (inl same),
        (
          sub,
          subst (λ b. g b.id ≡ ok sub) same e,
          λ x i. subst (In x) q (inr (append-In_left x sub others i)),
        ),
      )
      | inr later ↦
          let (mem, (s, done, inside)) = visit_all_complete g cs others e' c later in
          (
            subst (In c) q (inr (append-In_right c sub others mem)),
            (s, done, λ x i. subst (In x) q (inr (append-In_right x sub others (inside x i)))),
          )
    ]

visit_all_total :
    (g : String → Result (List Scope)) (cs : List Scope)
    → ((c : Scope) → In c cs → (l : List Scope) × (g c.id ≡ ok l))
    → (l : List Scope) × (visit_all g cs ≡ ok l)
unfolding visit_all
visit_all_total g [] total = ([], refl)
visit_all_total g (c ∷ cs) total =
    let (sub, e) = total c (inl refl) in
    let (others, e') = visit_all_total g cs (λ c' i. total c' (inr i)) in
    (c ∷ (sub ++ others), rw (e, e'))

visit-zero : (d : Scopes) (k : String) (l : List Scope) → visit zero d k ≡ ok l → ⊥
unfolding visit
visit-zero d k l h = cc

visit_step :
    (fuel : ℕ) (d : Scopes) (k : String) (s : Scope)
    → lookup k d ≡ some s
    → visit (suc fuel) d k ≡ visit_all (visit fuel d) (filter (is_child k) (values d))
unfolding visit children require
visit_step fuel d k s h = ground arith

visit-suc :
    (fuel : ℕ) (d : Scopes) (k : String) (l : List Scope)
    → visit (suc fuel) d k ≡ ok l
    → visit_all (visit fuel d) (filter (is_child k) (values d)) ≡ ok l
unfolding visit children require
visit-suc fuel d k l h = elim (Option-cases (lookup k d)) [
  | inl missing ↦ absurd (ground arith)
  | inr (s, found) ↦ ground arith
]

module _ {d : Scopes} (t : IsTree d) where
  pub visit_sound :
      (fuel : ℕ) (k : String) (l : List Scope)
      → visit fuel d k ≡ ok l
      → (x : Scope) → In x l
      → (lookup x.id d ≡ some x) × Below d k x.id
  visit_sound zero k l h x m = absurd (visit-zero d k l h)
  visit_sound (suc fuel) k l h x m =
      visit_all_sound (visit fuel d) (λ x. (lookup x.id d ≡ some x) × Below d k x.id)
        (filter (is_child k) (values d)) l
        (λ c i. let (a, b) = In-children t k c i in (a, Below.child c a b))
        (λ c sub i e x m.
          let (a, b) = In-children t k c i in
          let (found, under) = visit_sound fuel c.id sub e x m in
          (found, Below-trans k c.id x.id c a b under))
        (visit-suc fuel d k l h) x m

  pub visit_complete :
      (fuel : ℕ) (k : String) (l : List Scope)
      → visit fuel d k ≡ ok l
      → (x : Scope) → lookup x.id d ≡ some x
      → Below d k x.id
      → In x l
  visit_complete zero k l h x found under = absurd (visit-zero d k l h)
  visit_complete (suc fuel) k l h x found under =
      let (c, s, at, e, rest) = Below-first k x.id under in
      let same : s.id ≡ c = id_of_lookup c s d t.keyed at in
      let (mem, (sub, done, inside)) =
        visit_all_complete (visit fuel d) (filter (is_child k) (values d)) l
          (visit-suc fuel d k l h) s (children-In t k c s at e) in
      elim rest [
        | inl here ↦
            let q : s ≡ x = some_inj (sym at ∙ (ap (λ y. lookup y d) here ∙ found)) in
            subst (λ y. In y l) q mem
        | inr lower ↦ inside x (
            visit_complete fuel s.id sub done x found
              (subst (λ y. Below d y x.id) (sym same) lower))
      ]

  pub visit_total :
      (fuel : ℕ) (k : String) (s : Scope)
      → lookup k d ≡ some s
      → length d ≤ fuel + index k d
      → (l : List Scope) × (visit fuel d k ≡ ok l)
  visit_total zero k s h room = absurd (omega (arith, index-lt-length k d (ground arith)))
  visit_total (suc fuel) k s h room =
      let (l, e) = visit_all_total (visit fuel d) (filter (is_child k) (values d)) (λ c i.
        let (a, b) = In-children t k c i in
        visit_total fuel c.id c a (omega (arith, t.ordered c.id k c a b))) in
      (l, visit_step fuel d k s h ∙ e)

  -- In a tree `descendants` of a known node succeeds, and lists exactly the nodes that stand
  -- below it.
  pub descendants-Below :
      (k : String) (s : Scope)
      → lookup k d ≡ some s
      → (l : List Scope) × (descendants d k false ≡ ok l)
        × ((x : Scope) → In x l ↔ ((lookup x.id d ≡ some x) × Below d k x.id))
  unfolding descendants
  descendants-Below k s h =
      let (l, e) = visit_total (length d) k s h (omega arith) in
      (
        l,
        ground arith,
        λ x. (
          visit_sound (length d) k l e x,
          λ (found, under). visit_complete (length d) k l e x found under,
        ),
      )
