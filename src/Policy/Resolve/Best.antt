-- ===== src/Policy/Resolve/Best.antt =====
-- What `resolve_best` of src/langharness_plugin/scope_policy.py returns.
use langharness.Prelude.{
  ℕ, suc, ◌≤◌, ◌+◌, String, ◌||◌, all_in, position, NoRepeat, true, false, ◌≡◌, refl, List, [], ◌∷◌,
  none, some, ◌==◌, string_eq, filter, contains, In, arith, inl, inr, In-filter, filter-In,
  Bool-cases, ap,
}
use langharness.Prelude.Dict.{Dict, lookup, has, insert, lookup-insert}
use langharness.Prelude.Order.{min_by-IsLeast, min_by-none}
use langharness.Policy.Rank.{rank_order, rank_ltb, rank_not_before}
use langharness.Policy.Resolve.Defs.{PluginCandidate, distances, distance_of, best_rank, best_of}
use mathlib.Core.Path.{subst}
use langharness.Prelude.Int.{◌≤ℤ◌}
use text.Mathlib.TextEquality.{eq_iff}

has-distances :
    (i : ℕ) (scopes : List String) (d : Dict String ℕ) (s : String)
    → has s (distances i scopes d) ≡ (contains s scopes || has s d)
has-distances i [] d s = refl
has-distances i (x ∷ xs) d s =
    ground (arith, has-distances (suc i) xs (insert x i d) s, lookup-insert x s i d)

lookup-distances_old :
    (i : ℕ) (scopes : List String) (d : Dict String ℕ) (s : String)
    → contains s scopes ≡ false
    → lookup s (distances i scopes d) ≡ lookup s d
lookup-distances_old i [] d s h = refl
lookup-distances_old i (x ∷ xs) d s h =
    ground (arith, lookup-distances_old (suc i) xs (insert x i d) s, lookup-insert x s i d)

-- A scope's distance is its place in the list.
lookup-distances :
    (i : ℕ) (scopes : List String) (d : Dict String ℕ) (s : String)
    → NoRepeat scopes
    → contains s scopes ≡ true
    → lookup s (distances i scopes d) ≡ some (i + position s scopes)
lookup-distances i [] d s once h = cc
lookup-distances i (x ∷ xs) d s once h = elim (Bool-cases (x == s)) [
  | inl same ↦
      let q : x ≡ s = (eq_iff x s).0 same in
      ground (
        arith,
        lookup-distances_old (suc i) xs (insert x i d) s,
        lookup-insert x s i d,
        ap (λ a. contains a xs) q,
      )
  | inr other ↦ ground (arith, lookup-distances (suc i) xs (insert x i d) s once.1)
]

pub distance_lem :
    (scopes : List String) (s : String)
    → NoRepeat scopes
    → contains s scopes ≡ true
    → distance_of s (distances 0 scopes []) ≡ position s scopes
distance_lem scopes s once h = ground (arith, lookup-distances 0 scopes [] s once h)

nearest :
    {Service : Type 0} {m n : ℕ} (d : Dict String ℕ) (item best : PluginCandidate Service)
    → rank_ltb (best_rank d item) (best_rank d best) ≡ false
    → distance_of item.scope_id d ≡ m
    → distance_of best.scope_id d ≡ n
    → (n ≤ m) × (item.scope_id ≡ best.scope_id → item.ranking ≤ℤ best.ranking)
nearest d item best h p q =
    let (near, high) = rank_not_before (best_rank d item) (best_rank d best) h in
    (omega arith, λ e. high (ap (λ s. distance_of s d) e))

module _ {Service : Type 0} (scopes : List String)
    (candidates : List (PluginCandidate Service)) where
  abbrev pub IsVisible : PluginCandidate Service → Type 0
  IsVisible item = In item candidates × (contains item.scope_id scopes ≡ true)

  In-visible :
      (item : PluginCandidate Service)
      → IsVisible item
      → In item (filter (λ c. has c.scope_id (distances 0 scopes [])) candidates)
  In-visible item v =
      filter-In (λ c. has c.scope_id (distances 0 scopes [])) item candidates v.0
        (ground (arith, has-distances 0 scopes [] item.scope_id, v.1))

  IsVisible-In :
      (item : PluginCandidate Service)
      → In item (filter (λ c. has c.scope_id (distances 0 scopes [])) candidates)
      → IsVisible item
  IsVisible-In item m =
      let (i, h) = In-filter (λ c. has c.scope_id (distances 0 scopes [])) item candidates m in
      (i, ground (arith, has-distances 0 scopes [] item.scope_id))

  best_of-IsLeast :
      (best : PluginCandidate Service)
      → best_of scopes candidates ≡ some best
      → IsVisible best
        × ((item : PluginCandidate Service)
            → IsVisible item
            → rank_ltb
                (best_rank (distances 0 scopes []) item)
                (best_rank (distances 0 scopes []) best)
              ≡ false)
  unfolding best_of
  best_of-IsLeast best h =
      let d = distances 0 scopes [] in
      let (m, least) =
        min_by-IsLeast rank_order (best_rank d) (filter (λ c. has c.scope_id d) candidates) best
          h in
      (
        IsVisible-In best m,
        λ item v.
            all_in (λ x. rank_ltb (best_rank d x) (best_rank d best) ≡ false) item
              (filter (λ c. has c.scope_id d) candidates) least (In-visible item v),
      )

  -- The best candidate is a candidate of a visible scope. No visible candidate stands in a nearer
  -- scope, and none in its own scope has a higher ranking.
  pub best_of-nearest :
      (best : PluginCandidate Service)
      → NoRepeat scopes
      → best_of scopes candidates ≡ some best
      → IsVisible best
        × ((item : PluginCandidate Service)
            → IsVisible item
            → (position best.scope_id scopes ≤ position item.scope_id scopes)
              × (item.scope_id ≡ best.scope_id → item.ranking ≤ℤ best.ranking))
  best_of-nearest best once h =
      let (v, least) = best_of-IsLeast best h in
      (
        v,
        λ item w.
            nearest (distances 0 scopes []) item best (least item w)
              (distance_lem scopes item.scope_id once w.1)
              (distance_lem scopes best.scope_id once v.1),
      )

  -- Where no best candidate is found, no candidate is visible.
  pub best_of-none :
      best_of scopes candidates ≡ none → (item : PluginCandidate Service) → ¬ IsVisible item
  unfolding best_of
  best_of-none h item v =
      let d = distances 0 scopes [] in
      let empty =
        min_by-none rank_order (best_rank d) (filter (λ c. has c.scope_id d) candidates) h in
      let m : In item [] = subst (In item) empty (In-visible item v) in m.1
