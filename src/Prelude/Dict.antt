-- ===== src/Prelude/Dict.antt =====
-- A Python dict in insertion order: a write of a known key keeps its place, a new key goes last.
use langharness.Prelude.Tests.{if◌then◌else◌, is_some, Bool-cases}
use langharness.Prelude.Equality.{Eq, ◌==◌, beq_refl}
use langharness.Prelude.Lists.{length, filter, In}
use Prim.Native.Nat.{ℕ, suc, ◌≤◌, ◌<◌}
use mathlib.Core.Path.{◌≡◌, refl, ap}
use mathlib.Core.Logic.{◌≢◌, inl, inr}
use mathlib.Core.Bool.{Bool, true, not}
use mathlib.Core.Option.{Option, none, some, some_inj}
use mathlib.Core.List.{List, [], ◌∷◌, ◌++◌, map}
use native.Mathlib.Omega.{arith}

abbrev pub Dict {ℓ κ} : Type ℓ → Type κ → Type (ℓ ⊔ κ)
Dict K V = List (K × V)

module _ {ℓ κ} {K : Type ℓ} {V : Type κ} where
  abbrev pub keys : Dict K V → List K
  keys = map (λ e. e.0)

  abbrev pub values : Dict K V → List V
  values = map (λ e. e.1)

module _ {ℓ κ} {K : Type ℓ} {V : Type κ} ⦃e : Eq K⦄ where
  abbrev pub lookup : K → Dict K V → Option V
  lookup k [] = none
  lookup k ((j, v) ∷ d) = if j == k then some v else lookup k d

  -- `k in d`
  abbrev pub has : K → Dict K V → Bool
  has k d = is_some (lookup k d)

  -- `d[k] = v`
  abbrev pub insert : K → V → Dict K V → Dict K V
  insert k v [] = (k, v) ∷ []
  insert k v ((j, w) ∷ d) = if j == k then (j, v) ∷ d else (j, w) ∷ insert k v d

  -- `d.pop(k, None)`; a dict has a key once, so the filter removes one entry at most.
  abbrev pub erase : K → Dict K V → Dict K V
  erase k = filter (λ x. not (x.0 == k))

  -- The position of a key, the length if it is absent.
  abbrev pub index : K → Dict K V → ℕ
  index k [] = 0
  index k ((j, v) ∷ d) = if j == k then 0 else suc (index k d)

  pub In-of_lookup : (k : K) (v : V) (d : Dict K V) → lookup k d ≡ some v → In v (values d)
  In-of_lookup k v [] h = cc
  In-of_lookup k v ((j, w) ∷ d) h = elim (Bool-cases (j == k)) [
    | inl same ↦ inl (some_inj.0 (rw same at h))
    | inr other ↦ inr (In-of_lookup k v d (rw other at h))
  ]

  pub lookup-insert :
      (k j : K) (v : V) (d : Dict K V)
      → lookup j (insert k v d) ≡ (if k == j then some v else lookup j d)
  lookup-insert k j v [] = refl
  lookup-insert k j v ((i, w) ∷ d) =
      ground (arith, e.beq_iff k j, e.beq_iff i k, e.beq_iff i j, lookup-insert k j v d)

  pub lookup-insert_self : (k : K) (v : V) (d : Dict K V) → lookup k (insert k v d) ≡ some v
  lookup-insert_self k v d = rw (lookup-insert k k v d, beq_refl k)

  pub lookup-insert_ne :
      (k j : K) (v : V) (d : Dict K V) → k ≢ j → lookup j (insert k v d) ≡ lookup j d
  lookup-insert_ne k j v d h = ground (arith, lookup-insert k j v d, e.beq_iff k j)

  pub lookup-erase :
      (k j : K) (d : Dict K V) → lookup j (erase k d) ≡ (if k == j then none else lookup j d)
  lookup-erase k j [] = ground arith
  lookup-erase k j ((i, w) ∷ d) =
      ground (arith, e.beq_iff k j, e.beq_iff i k, e.beq_iff i j, lookup-erase k j d)

  -- A new key goes last.
  pub insert_new :
      (k : K) (v : V) (d : Dict K V) → lookup k d ≡ none → insert k v d ≡ d ++ (k, v) ∷ []
  insert_new k v [] h = refl
  insert_new k v ((i, w) ∷ d) h = ground (arith, insert_new k v d)

  pub index-lt-length : (k : K) (d : Dict K V) → has k d ≡ true → index k d < length d
  index-lt-length k [] h = cc
  index-lt-length k ((i, w) ∷ d) h = ground (arith, index-lt-length k d)

  pub has_of_index : (k : K) (d : Dict K V) → index k d < length d → has k d ≡ true
  has_of_index k [] h = absurd (omega arith)
  has_of_index k ((i, w) ∷ d) h = ground (arith, has_of_index k d)

  pub index-le-length : (k : K) (d : Dict K V) → index k d ≤ length d
  index-le-length k [] = omega arith
  index-le-length k ((i, w) ∷ d) = ground (arith, index-le-length k d)

  pub index-insert_old :
      (k j : K) (v : V) (d : Dict K V) → has j d ≡ true → index j (insert k v d) ≡ index j d
  index-insert_old k j v [] h = cc
  index-insert_old k j v ((i, w) ∷ d) h =
      ground (arith, e.beq_iff i k, e.beq_iff i j, index-insert_old k j v d)

  pub index-insert_new :
      (k : K) (v : V) (d : Dict K V) → lookup k d ≡ none → index k (insert k v d) ≡ length d
  index-insert_new k v [] h = ground (arith, beq_refl k)
  index-insert_new k v ((i, w) ∷ d) h = ground (arith, index-insert_new k v d)

  -- Each key once.
  abbrev pub Distinct : Dict K V → Type (ℓ ⊔ κ)
  Distinct [] = Unit
  Distinct ((k, v) ∷ d) = (lookup k d ≡ none) × Distinct d

  pub lookup-filter :
      (p : K → Bool) (k : K) (d : Dict K V)
      → lookup k (filter (λ x. p x.0) d) ≡ (if p k then lookup k d else none)
  lookup-filter p k [] = ground arith
  lookup-filter p k ((i, w) ∷ d) = elim (Bool-cases (i == k)) [
    | inl same ↦
        let q : i ≡ k = (e.beq_iff i k).0 same in ground (arith, lookup-filter p k d, ap p q)
    | inr other ↦ ground (arith, lookup-filter p k d)
  ]

  pub insert-Distinct : (k : K) (v : V) (d : Dict K V) → Distinct d → Distinct (insert k v d)
  insert-Distinct k v [] h = (refl, tt)
  insert-Distinct k v ((i, w) ∷ d) h =
      ground (arith, insert-Distinct k v d h.1, lookup-insert k i v d, e.beq_iff i k, e.beq_iff k i)

  pub filter-Distinct :
      (p : K → Bool) (d : Dict K V) → Distinct d → Distinct (filter (λ x. p x.0) d)
  filter-Distinct p [] h = tt
  filter-Distinct p ((i, w) ∷ d) h = ground (arith, filter-Distinct p d h.1, lookup-filter p i d)

  -- A filter by key keeps the order of the keys that stay.
  pub index-filter-lt :
      (p : K → Bool) (j k : K) (d : Dict K V)
      → p j ≡ true
      → p k ≡ true
      → index j d < index k d
      → index j (filter (λ x. p x.0) d) < index k (filter (λ x. p x.0) d)
  index-filter-lt p j k [] hj hk h = absurd (omega arith)
  index-filter-lt p j k ((i, w) ∷ d) hj hk h = elim (Bool-cases (i == j)) [
    | inl same ↦ let q : i ≡ j = (e.beq_iff i j).0 same in ground (arith, ap p q)
    | inr other ↦ ground (arith, index-filter-lt p j k d hj hk)
  ]
