-- ===== src/Prelude/Order.antt =====
-- Strict orders as Boolean tests, the stable `sorted` and the first minimum of `min`.
use Prim.Native.Nat.{ℕ}
use mathlib.Core.Path.{◌≡◌, refl, subst, subst⁻¹, ap}
use mathlib.Core.Logic.{inl, inr}
use mathlib.Core.Bool.{Bool, true, false, ◌||◌, ◌&&◌}
use mathlib.Core.Option.{Option, none, some}
use mathlib.Core.List.{List, [], ◌∷◌}
use native.Mathlib.Omega.{arith}
use langharness.Prelude.Tests.{ltb, nat_beq, if◌then◌else◌, Bool-cases}
use langharness.Prelude.Outcome.{some_inj}
use langharness.Prelude.Lists.{In, All}

-- The laws of a strict order whose incomparable values count as equal.
pub record Order {ℓ} (K : Type ℓ) : Type ℓ where
  pub lt : K → K → Bool
  pub asym : (a b : K) → lt a b ≡ true → lt b a ≡ false
  pub trans : (a b c : K) → lt b a ≡ false → lt c b ≡ false → lt c a ≡ false

-- `<` of Python's texts: by code points, a prefix first.
abbrev pub text_ltb : List ℕ → List ℕ → Bool
text_ltb xs [] = false
text_ltb [] (y ∷ ys) = true
text_ltb (x ∷ xs) (y ∷ ys) = ltb x y || (nat_beq x y && text_ltb xs ys)

pub text_ltb_asym : (a b : List ℕ) → text_ltb a b ≡ true → text_ltb b a ≡ false
text_ltb_asym [] [] h = refl
text_ltb_asym [] (y ∷ ys) h = refl
text_ltb_asym (x ∷ xs) [] h = cc
text_ltb_asym (x ∷ xs) (y ∷ ys) h = ground (arith, text_ltb_asym xs ys)

pub text_ltb_trans :
    (a b c : List ℕ) → text_ltb b a ≡ false → text_ltb c b ≡ false → text_ltb c a ≡ false
text_ltb_trans [] b c h k = refl
text_ltb_trans (x ∷ xs) [] c h k = cc
text_ltb_trans (x ∷ xs) (y ∷ ys) [] h k = cc
text_ltb_trans (x ∷ xs) (y ∷ ys) (z ∷ zs) h k = ground (arith, text_ltb_trans xs ys zs)

abbrev pub text_order : Order (List ℕ)
text_order = record { lt = text_ltb; asym = text_ltb_asym; trans = text_ltb_trans }

module _ {ℓ κ} {K : Type ℓ} {A : Type κ} (o : Order K) (key : A → K) where
  abbrev pub insert_sorted : A → List A → List A
  insert_sorted x [] = x ∷ []
  insert_sorted x (y ∷ ys) = if o.lt (key y) (key x) then y ∷ insert_sorted x ys else x ∷ y ∷ ys

  -- `sorted(xs, key=...)`, which keeps the order of equal keys.
  abbrev pub sort_by : List A → List A
  sort_by [] = []
  sort_by (x ∷ xs) = insert_sorted x (sort_by xs)

  abbrev pub min_from : A → List A → A
  min_from best [] = best
  min_from best (x ∷ xs) = min_from (if o.lt (key x) (key best) then x else best) xs

  -- `min(xs, key=...)`, the first of the least ones.
  abbrev pub min_by : List A → Option A
  min_by [] = none
  min_by (x ∷ xs) = some (min_from x xs)

  -- No element has a smaller key than one before it.
  abbrev pub IsSorted : List A → Type 0
  IsSorted [] = Unit
  IsSorted (x ∷ xs) = All (λ y. o.lt (key y) (key x) ≡ false) xs × IsSorted xs

  lt_irrefl : (a : K) → o.lt a a ≡ false
  lt_irrefl a = elim (Bool-cases (o.lt a a)) [
    | inl less ↦ o.asym a a less
    | inr not_less ↦ not_less
  ]

  min_from_less :
      (best x : A) (xs : List A)
      → o.lt (key x) (key best) ≡ true
      → min_from best (x ∷ xs) ≡ min_from x xs
  min_from_less best x xs h = ap (λ b. min_from (if b then x else best) xs) h

  min_from_kept :
      (best x : A) (xs : List A)
      → o.lt (key x) (key best) ≡ false
      → min_from best (x ∷ xs) ≡ min_from best xs
  min_from_kept best x xs h = ap (λ b. min_from (if b then x else best) xs) h

  -- No element is less than `m`.
  abbrev pub IsLeast : A → List A → Type 0
  IsLeast m = All (λ x. o.lt (key x) (key m) ≡ false)

  pub min_from_le : (best : A) (xs : List A) → IsLeast (min_from best xs) (best ∷ xs)
  min_from_le best [] = (lt_irrefl (key best), tt)
  min_from_le best (x ∷ xs) = elim (Bool-cases (o.lt (key x) (key best))) [
    | inl less ↦
        let (own, rest) = min_from_le x xs in
        let m = key (min_from x xs) in
        subst⁻¹ (λ y. IsLeast y (best ∷ x ∷ xs)) (min_from_less best x xs less)
          (o.trans m (key x) (key best) own (o.asym (key x) (key best) less), (own, rest))
    | inr kept ↦
        let (own, rest) = min_from_le best xs in
        let m = key (min_from best xs) in
        subst⁻¹ (λ y. IsLeast y (best ∷ x ∷ xs)) (min_from_kept best x xs kept)
          (own, (o.trans m (key best) (key x) own kept, rest))
  ]

  pub min_from-In : (best : A) (xs : List A) → In (min_from best xs) (best ∷ xs)
  min_from-In best [] = inl refl
  min_from-In best (x ∷ xs) = elim (Bool-cases (o.lt (key x) (key best))) [
    | inl less ↦
        subst⁻¹ (λ y. In y (best ∷ x ∷ xs)) (min_from_less best x xs less) (inr (min_from-In x xs))
    | inr kept ↦
        subst⁻¹ (λ y. In y (best ∷ x ∷ xs)) (min_from_kept best x xs kept)
          (elim (min_from-In best xs) [ inl same ↦ inl same | inr later ↦ inr (inr later) ])
  ]

  pub min_by-IsLeast : (xs : List A) (m : A) → min_by xs ≡ some m → In m xs × IsLeast m xs
  min_by-IsLeast [] m h = cc
  min_by-IsLeast (x ∷ xs) m h =
      let same : min_from x xs ≡ m = some_inj h in
      (
        subst (λ y. In y (x ∷ xs)) same (min_from-In x xs),
        subst (λ y. IsLeast y (x ∷ xs)) same (min_from_le x xs),
      )

  pub min_by-none : (xs : List A) → min_by xs ≡ none → xs ≡ []
  min_by-none [] h = refl
  min_by-none (x ∷ xs) h = cc

  All-insert : (P : A → Type 0) (x : A) (xs : List A) → P x → All P xs → All P (insert_sorted x xs)
  All-insert P x [] px pxs = (px, tt)
  All-insert P x (y ∷ ys) px pxs = elim (Bool-cases (o.lt (key y) (key x))) [
    | inl less ↦ rw less (pxs.0, All-insert P x ys px pxs.1)
    | inr kept ↦ rw kept (px, pxs)
  ]

  pub In-insert_sorted : (z x : A) (xs : List A) → In z (insert_sorted x xs) → In z (x ∷ xs)
  In-insert_sorted z x [] m = m
  In-insert_sorted z x (y ∷ ys) m = elim (Bool-cases (o.lt (key y) (key x))) [
    | inl less ↦
        let n : In z (y ∷ insert_sorted x ys) = rw less at m in
        elim n [
          | inl same ↦ inr (inl same)
          | inr later ↦ elim (In-insert_sorted z x ys later) [
            | inl here ↦ inl here
            | inr there ↦ inr (inr there)
          ]
        ]
    | inr kept ↦ let n : In z (x ∷ y ∷ ys) = rw kept at m in n
  ]

  insert_sorted-In : (z x : A) (xs : List A) → In z (x ∷ xs) → In z (insert_sorted x xs)
  insert_sorted-In z x [] m = m
  insert_sorted-In z x (y ∷ ys) m = elim (Bool-cases (o.lt (key y) (key x))) [
    | inl less ↦
        let out : In z (y ∷ insert_sorted x ys) = elim m [
          | inl same ↦ inr (insert_sorted-In z x ys (inl same))
          | inr (inl same) ↦ inl same
          | inr (inr later) ↦ inr (insert_sorted-In z x ys (inr later))
        ] in
        rw less out
    | inr kept ↦ rw kept m
  ]

  -- Sorting keeps the elements.
  pub In-sort : (z : A) (xs : List A) → In z (sort_by xs) → In z xs
  In-sort z [] m = m
  In-sort z (x ∷ xs) m = elim (In-insert_sorted z x (sort_by xs) m) [
    | inl same ↦ inl same
    | inr later ↦ inr (In-sort z xs later)
  ]

  pub sort-In : (z : A) (xs : List A) → In z xs → In z (sort_by xs)
  sort-In z [] m = m
  sort-In z (x ∷ xs) (inl same) = insert_sorted-In z x (sort_by xs) (inl same)
  sort-In z (x ∷ xs) (inr later) = insert_sorted-In z x (sort_by xs) (inr (sort-In z xs later))

  All-below :
      (x y : A) (zs : List A)
      → o.lt (key y) (key x) ≡ false
      → All (λ z. o.lt (key z) (key y) ≡ false) zs
      → All (λ z. o.lt (key z) (key x) ≡ false) zs
  All-below x y [] h a = tt
  All-below x y (z ∷ zs) h a = (o.trans (key x) (key y) (key z) h a.0, All-below x y zs h a.1)

  insert_sorted-IsSorted : (x : A) (xs : List A) → IsSorted xs → IsSorted (insert_sorted x xs)
  insert_sorted-IsSorted x [] h = (tt, tt)
  insert_sorted-IsSorted x (y ∷ ys) h = elim (Bool-cases (o.lt (key y) (key x))) [
    | inl less ↦ rw less (
      All-insert (λ z. o.lt (key z) (key y) ≡ false) x ys (o.asym (key y) (key x) less) h.0,
      insert_sorted-IsSorted x ys h.1,
    )
    | inr kept ↦ rw kept ((kept, All-below x y ys kept h.0), h)
  ]

  -- Sorting sorts.
  pub sort-IsSorted : (xs : List A) → IsSorted (sort_by xs)
  sort-IsSorted [] = tt
  sort-IsSorted (x ∷ xs) = insert_sorted-IsSorted x (sort_by xs) (sort-IsSorted xs)
