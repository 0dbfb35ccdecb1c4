-- ===== src/Prelude/Lists.antt =====
-- Lists measured by native numbers, Boolean searches, and predicates by recursion.
use Prim.Native.Nat.{ℕ, suc, ◌+◌, ◌≤◌}
use mathlib.Core.Path.{◌∙◌, sym, subst, subst⁻¹, ap, ◌≡◌, refl}
use mathlib.Core.Logic.{◌⊎◌}
use mathlib.Core.Bool.{Bool, true, false, ◌||◌, ◌&&◌}
use mathlib.Core.List.{reverse, reverse-append, map, List, [], ◌∷◌, ◌++◌}
use mathlib.Core.Option.{Option, none, some}
use native.Mathlib.Omega.{arith}
use langharness.Prelude.Tests.{if◌then◌else◌, Bool-cases}
use mathlib.Core.Logic.{inl, inr}
use langharness.Prelude.Equality.{Eq, ◌==◌}

module _ {ℓ} {A : Type ℓ} where
  abbrev pub length : List A → ℕ
  length [] = 0
  length (x ∷ xs) = suc (length xs)

  abbrev pub filter : (A → Bool) → List A → List A
  filter p [] = []
  filter p (x ∷ xs) = if p x then x ∷ filter p xs else filter p xs

  abbrev pub any : (A → Bool) → List A → Bool
  any p [] = false
  any p (x ∷ xs) = p x || any p xs

  abbrev pub all : (A → Bool) → List A → Bool
  all p [] = true
  all p (x ∷ xs) = p x && all p xs

  abbrev pub is_nonempty : List A → Bool
  is_nonempty [] = false
  is_nonempty (x ∷ xs) = true

  -- The first entry that passes, as of `next(..., None)`.
  abbrev pub find : (A → Bool) → List A → Option A
  find p [] = none
  find p (x ∷ xs) = if p x then some x else find p xs

  abbrev pub All {κ} : (A → Type κ) → List A → Type κ
  All P [] = Unit
  All P (x ∷ xs) = P x × All P xs

  -- Membership as a type computed from the list.
  abbrev pub In : A → List A → Type ℓ
  In a [] = Unit × ⊥
  In a (x ∷ xs) = (x ≡ a) ⊎ In a xs

  pub all_in {κ} : (P : A → Type κ) (x : A) (xs : List A) → All P xs → In x xs → P x
  all_in P x [] a m = absurd m.1
  all_in P x (y ∷ ys) a (inl same) = subst P same a.0
  all_in P x (y ∷ ys) a (inr later) = all_in P x ys a.1 later

  pub length-append : (xs ys : List A) → length (xs ++ ys) ≡ length xs + length ys
  length-append [] ys = omega arith
  length-append (x ∷ xs) ys = omega (arith, length-append xs ys)

  pub length-filter : (p : A → Bool) (xs : List A) → length (filter p xs) ≤ length xs
  length-filter p [] = omega arith
  length-filter p (x ∷ xs) = ground (arith, length-filter p xs)

  pub filter-append :
      (p : A → Bool) (xs ys : List A) → filter p (xs ++ ys) ≡ filter p xs ++ filter p ys
  filter-append p [] ys = refl
  filter-append p (x ∷ xs) ys = ground (arith, filter-append p xs ys)

  pub filter_idem : (p : A → Bool) (xs : List A) → filter p (filter p xs) ≡ filter p xs
  filter_idem p [] = refl
  filter_idem p (x ∷ xs) = ground (arith, filter_idem p xs)

  pub In-filter : (p : A → Bool) (x : A) (xs : List A) → In x (filter p xs) → In x xs × (p x ≡ true)
  In-filter p x [] m = absurd m.1
  In-filter p x (y ∷ ys) m = elim (Bool-cases (p y)) [
    | inl keep ↦
        let n : In x (y ∷ filter p ys) = rw keep at m in
        elim n [
          | inl same ↦ (inl same, rw same at keep)
          | inr later ↦ let (a, b) = In-filter p x ys later in (inr a, b)
        ]
    | inr drop ↦ let (a, b) = In-filter p x ys (rw drop at m) in (inr a, b)
  ]

  pub filter-In : (p : A → Bool) (x : A) (xs : List A) → In x xs → p x ≡ true → In x (filter p xs)
  filter-In p x [] m h = m
  filter-In p x (y ∷ ys) (inl same) h = rw (same, h) (inl refl)
  filter-In p x (y ∷ ys) (inr later) h = elim (Bool-cases (p y)) [
    | inl keep ↦ rw keep (inr (filter-In p x ys later h))
    | inr drop ↦ rw drop (filter-In p x ys later h)
  ]

  pub In-append : (x : A) (xs ys : List A) → In x (xs ++ ys) → In x xs ⊎ In x ys
  In-append x [] ys m = inr m
  In-append x (y ∷ xs) ys (inl same) = inl (inl same)
  In-append x (y ∷ xs) ys (inr later) = elim (In-append x xs ys later) [
    | inl a ↦ inl (inr a)
    | inr b ↦ inr b
  ]

  pub append-In_left : (x : A) (xs ys : List A) → In x xs → In x (xs ++ ys)
  append-In_left x [] ys m = absurd m.1
  append-In_left x (y ∷ xs) ys (inl same) = inl same
  append-In_left x (y ∷ xs) ys (inr later) = inr (append-In_left x xs ys later)

  pub append-In_right : (x : A) (xs ys : List A) → In x ys → In x (xs ++ ys)
  append-In_right x [] ys m = m
  append-In_right x (y ∷ xs) ys m = inr (append-In_right x xs ys m)

module _ {ℓ} {A : Type ℓ} ⦃e : Eq A⦄ where
  abbrev pub contains : A → List A → Bool
  contains a [] = false
  contains a (x ∷ xs) = (x == a) || contains a xs

  pub contains-append :
      (a : A) (xs ys : List A) → contains a (xs ++ ys) ≡ (contains a xs || contains a ys)
  contains-append a [] ys = refl
  contains-append a (x ∷ xs) ys = ground (arith, contains-append a xs ys)

  -- The first position of an element, the length if it is absent.
  abbrev pub position : A → List A → ℕ
  position a [] = 0
  position a (x ∷ xs) = if x == a then 0 else suc (position a xs)

  -- Each element once.
  abbrev pub NoRepeat : List A → Type 0
  NoRepeat [] = Unit
  NoRepeat (x ∷ xs) = (contains x xs ≡ false) × NoRepeat xs

  pub NoRepeat-snoc :
      (a : A) (xs : List A) → NoRepeat xs → contains a xs ≡ false → NoRepeat (xs ++ a ∷ [])
  NoRepeat-snoc a [] h fresh = (refl, tt)
  NoRepeat-snoc a (x ∷ xs) h fresh = (
    ground (arith, contains-append x xs (a ∷ []), e.beq_iff x a, e.beq_iff a x),
    NoRepeat-snoc a xs h.1 (ground arith),
  )

  pub contains-In : (a : A) (xs : List A) → contains a xs ≡ true → In a xs
  contains-In a [] h = cc
  contains-In a (x ∷ xs) h = elim (Bool-cases (x == a)) [
    | inl same ↦ inl ((e.beq_iff x a).0 same)
    | inr other ↦ inr (contains-In a xs (ground arith))
  ]

  pub In-contains : (a : A) (xs : List A) → In a xs → contains a xs ≡ true
  In-contains a [] m = absurd m.1
  In-contains a (x ∷ xs) (inl same) = ground (arith, (e.beq_iff x a).1 same)
  In-contains a (x ∷ xs) (inr later) = ground (arith, In-contains a xs later)

pub find-holds :
    {A : Type 0} (p : A → Bool) (xs : List A) (x : A) → find p xs ≡ some x → (p x ≡ true) × In x xs
find-holds p [] x h = cc
find-holds p (y ∷ ys) x h = elim (Bool-cases (p y)) [
  | inl here ↦
      let found : some y ≡ some x = rw here at h in
      let eq : y ≡ x = cc in (ap p (sym eq) ∙ here, inl eq)
  | inr other ↦ let (held, later) = find-holds p ys x (rw other at h) in (held, inr later)
]

module _ {ℓ κ} {A : Type ℓ} {B : Type κ} where
  pub In-map : (f : A → B) (y : B) (xs : List A) → In y (map f xs) → (x : A) × In x xs × (f x ≡ y)
  In-map f y [] m = absurd m.1
  In-map f y (x ∷ xs) (inl same) = (x, inl refl, same)
  In-map f y (x ∷ xs) (inr later) = let (z, i, e) = In-map f y xs later in (z, inr i, e)

  pub map-In : (f : A → B) (x : A) (xs : List A) → In x xs → In (f x) (map f xs)
  map-In f x [] m = absurd m.1
  map-In f x (y ∷ xs) (inl same) = inl (ap f same)
  map-In f x (y ∷ xs) (inr later) = inr (map-In f x xs later)

module _ {ℓ} {A : Type ℓ} where
  pub In-reverse : (x : A) (xs : List A) → In x (reverse xs) → In x xs
  In-reverse x [] m = m
  In-reverse x (y ∷ xs) m =
      elim (In-append x (reverse xs) (y ∷ []) (subst (In x) (reverse-append (y ∷ []) xs) m)) [
        | inl a ↦ inr (In-reverse x xs a)
        | inr b ↦ elim b [ inl same ↦ inl same | inr bad ↦ absurd bad.1 ]
      ]

  pub reverse-In : (x : A) (xs : List A) → In x xs → In x (reverse xs)
  reverse-In x [] m = m
  reverse-In x (y ∷ xs) (inl same) =
      subst⁻¹ (In x) (reverse-append (y ∷ []) xs)
        (append-In_right x (reverse xs) (y ∷ []) (inl same))
  reverse-In x (y ∷ xs) (inr later) =
      subst⁻¹ (In x) (reverse-append (y ∷ []) xs)
        (append-In_left x (reverse xs) (y ∷ []) (reverse-In x xs later))
