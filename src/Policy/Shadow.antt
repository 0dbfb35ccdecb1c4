-- ===== src/Policy/Shadow.antt =====
-- Shadowing by key, as the loops of src/langharness_plugin/scope_policy.py do it: of the elements
-- with one key the first is taken.
use langharness.Prelude.{
  String, true, false, ◌≡◌, refl, List, [], ◌∷◌, ◌++◌, map, ◌==◌, string_eq, if◌then◌else◌,
  contains, In, All, all_in, arith, inl, inr, ◌⊎◌, Bool-cases, ap, ◌∙◌, NoRepeat, beq_refl,
  contains-In, In-map,
}
use mathlib.Core.Path.{subst}
use text.Mathlib.TextEquality.{eq_iff}

-- Each element stands in the relation to all behind it.
abbrev pub IsOrdered : {A : Type 0} → (A → A → Type 0) → List A → Type 0
IsOrdered R [] = Unit
IsOrdered R (x ∷ xs) = All (R x) xs × IsOrdered R xs

module _ {A : Type 0} (key : A → String) where
  unfoldable pub firsts : List String → List A → List A
  firsts seen [] = []
  firsts seen (x ∷ xs) =
      let old = contains (key x) seen in
      let rest = firsts (if old then seen else key x ∷ seen) xs in if old then rest else x ∷ rest

  firsts_old :
      (seen : List String) (x : A) (xs : List A)
      → contains (key x) seen ≡ true
      → firsts seen (x ∷ xs) ≡ firsts seen xs
  unfolding firsts
  firsts_old seen x xs h = rw h

  firsts_new :
      (seen : List String) (x : A) (xs : List A)
      → contains (key x) seen ≡ false
      → firsts seen (x ∷ xs) ≡ x ∷ firsts (key x ∷ seen) xs
  unfolding firsts
  firsts_new seen x xs h = rw h

  -- What is taken is an element, and its key was not seen before.
  pub In-firsts :
      (seen : List String) (xs : List A) (z : A)
      → In z (firsts seen xs)
      → In z xs × (contains (key z) seen ≡ false)
  In-firsts seen [] z m = let n : In z [] = unfold firsts in m in absurd n.1
  In-firsts seen (x ∷ xs) z m = elim (Bool-cases (contains (key x) seen)) [
    | inl old ↦
        let (i, fresh) = In-firsts seen xs z (subst (In z) (firsts_old seen x xs old) m) in
        (inr i, fresh)
    | inr new ↦
        let n : In z (x ∷ firsts (key x ∷ seen) xs) = subst (In z) (firsts_new seen x xs new) m in
        elim n [
          | inl same ↦ (inl same, subst (λ y. contains (key y) seen ≡ false) same new)
          | inr later ↦
              let (i, fresh) = In-firsts (key x ∷ seen) xs z later in (inr i, ground arith)
        ]
  ]

  -- No key is taken twice.
  pub firsts-NoRepeat : (seen : List String) (xs : List A) → NoRepeat (map key (firsts seen xs))
  firsts-NoRepeat seen [] = unfold firsts in tt
  firsts-NoRepeat seen (x ∷ xs) = elim (Bool-cases (contains (key x) seen)) [
    | inl old ↦ rw (firsts_old seen x xs old) (firsts-NoRepeat seen xs)
    | inr new ↦ rw (firsts_new seen x xs new) (
      not_taken (firsts (key x ∷ seen) xs) (λ z m. (In-firsts (key x ∷ seen) xs z m).1),
      firsts-NoRepeat (key x ∷ seen) xs,
    )
  ]
    where
      not_taken :
          (ys : List A)
          → ((z : A) → In z ys → contains (key z) (key x ∷ seen) ≡ false)
          → contains (key x) (map key ys) ≡ false
      not_taken ys fresh = elim (Bool-cases (contains (key x) (map key ys))) [
        | inr absent ↦ absent
        | inl found ↦
            let (z, i, e) = In-map key (key x) ys (contains-In (key x) (map key ys) found) in
            absurd (ground (arith, fresh z i, eq_iff (key x) (key z)))
      ]

  from_rest :
      (x : A) (seen : List String) (c : A) (taken : List A)
      → (contains (key c) (key x ∷ seen) ≡ true) ⊎ ((r : A) × In r taken × (key r ≡ key c))
      → (contains (key c) seen ≡ true) ⊎ ((r : A) × In r (x ∷ taken) × (key r ≡ key c))
  from_rest x seen c taken (inr (r, i, e)) = inr (r, inr i, e)
  from_rest x seen c taken (inl h) = elim (Bool-cases (key x == key c)) [
    | inl same ↦ inr (x, inl refl, (eq_iff (key x) (key c)).0 same)
    | inr other ↦ inl (ground arith)
  ]

  clash :
      (seen : List String) (k l : String)
      → contains k seen ≡ true
      → contains l seen ≡ false
      → k ≡ l
      → ⊥
  clash seen k l h fresh e = ground (arith, ap (λ a. contains a seen) e)

  -- Each key of an element is seen before, or taken.
  pub firsts_complete :
      (seen : List String) (xs : List A) (c : A)
      → In c xs
      → (contains (key c) seen ≡ true) ⊎ ((r : A) × In r (firsts seen xs) × (key r ≡ key c))
  firsts_complete seen [] c m = absurd m.1
  firsts_complete seen (x ∷ xs) c m = elim (Bool-cases (contains (key x) seen)) [
    | inl old ↦ elim m [
      | inl same ↦ inl (subst (λ y. contains (key y) seen ≡ true) same old)
      | inr later ↦ rw (firsts_old seen x xs old) (firsts_complete seen xs c later)
    ]
    | inr new ↦ rw (firsts_new seen x xs new) (elim m [
      | inl same ↦ inr (x, inl refl, ap key same)
      | inr later ↦
          from_rest x seen c (firsts (key x ∷ seen) xs) (firsts_complete (key x ∷ seen) xs c later)
    ])
  ]

  -- What is taken comes, in any order that the list keeps, not after an element with its key.
  pub firsts_least :
      (R : A → A → Type 0)
      → ((x : A) → R x x)
      → (seen : List String) (xs : List A) → IsOrdered R xs
      → (r c : A) → In r (firsts seen xs)
      → In c xs
      → key c ≡ key r
      → R r c
  firsts_least R R_refl seen [] o r c m i e = absurd i.1
  firsts_least R R_refl seen (x ∷ xs) o r c m i e = elim (Bool-cases (contains (key x) seen)) [
    | inl old ↦
        let n = subst (In r) (firsts_old seen x xs old) m in
        let fresh = (In-firsts seen xs r n).1 in
        elim i [
          | inl same ↦ absurd (clash seen (key x) (key r) old fresh (ap key same ∙ e))
          | inr later ↦ firsts_least R R_refl seen xs o.1 r c n later e
        ]
    | inr new ↦
        let n : In r (x ∷ firsts (key x ∷ seen) xs) = subst (In r) (firsts_new seen x xs new) m in
        elim n [
          | inl here ↦
              subst (λ y. R y c) here
                (elim i [
                  | inl same ↦ subst (R x) same (R_refl x)
                  | inr later ↦ all_in (R x) c xs o.0 later
                ])
          | inr rest ↦
              let fresh = (In-firsts (key x ∷ seen) xs r rest).1 in
              elim i [
                | inl same ↦ absurd (
                    clash (key x ∷ seen) (key x) (key r) (ground (arith, beq_refl (key x))) fresh
                      (ap key same ∙ e))
                | inr later ↦ firsts_least R R_refl (key x ∷ seen) xs o.1 r c rest later e
              ]
        ]
  ]

module _ {A : Type 0} where
  All-of_In : (P : A → Type 0) (xs : List A) → ((x : A) → In x xs → P x) → All P xs
  All-of_In P [] h = tt
  All-of_In P (x ∷ xs) h = (h x (inl refl), All-of_In P xs (λ y m. h y (inr m)))

  All-append : (P : A → Type 0) (xs ys : List A) → All P xs → All P ys → All P (xs ++ ys)
  All-append P [] ys a b = b
  All-append P (x ∷ xs) ys a b = (a.0, All-append P xs ys a.1 b)

  pub IsOrdered-append :
      (R : A → A → Type 0) (xs ys : List A)
      → IsOrdered R xs
      → IsOrdered R ys
      → ((x y : A) → In x xs → In y ys → R x y)
      → IsOrdered R (xs ++ ys)
  IsOrdered-append R [] ys a b h = b
  IsOrdered-append R (x ∷ xs) ys a b h = (
    All-append (R x) xs ys a.0 (All-of_In (R x) ys (λ y m. h x y (inl refl) m)),
    IsOrdered-append R xs ys a.1 b (λ u v i j. h u v (inr i) j),
  )

  pub IsOrdered-mono :
      (R Q : A → A → Type 0) (xs : List A)
      → ((x y : A) → In x xs → In y xs → R x y → Q x y)
      → IsOrdered R xs
      → IsOrdered Q xs
  IsOrdered-mono R Q [] h a = tt
  IsOrdered-mono R Q (x ∷ xs) h a = (
    All-of_In (Q x) xs (λ y m. h x y (inl refl) (inr m) (all_in (R x) y xs a.0 m)),
    IsOrdered-mono R Q xs (λ u v i j. h u v (inr i) (inr j)) a.1,
  )
