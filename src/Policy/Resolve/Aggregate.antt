-- ===== src/Policy/Resolve/Aggregate.antt =====
-- What `resolve_aggregate` of src/langharness_plugin/scope_policy.py returns: one candidate for
-- each key that a visible candidate has, the nearest.
use langharness.Prelude.{
  ◌≤◌, String, true, false, ◌≡◌, refl, List, [], ◌∷◌, ◌++◌, map, append-nil, append_assoc, ◌==◌,
  string_eq, if◌then◌else◌, filter, contains, In, All, arith, inl, inr, In-filter, filter-In,
  In-append, append-In_left, append-In_right, Bool-cases, ap, sym, ◌∙◌, NoRepeat, position,
}
use langharness.Prelude.Int.{◌≤ℤ◌}
use langharness.Prelude.Order.{sort_by, In-sort, sort-In, IsSorted, sort-IsSorted}
use langharness.Policy.Rank.{rank_order, rank_ltb, rank_not_before}
use langharness.Policy.Resolve.Defs.{
  PluginCandidate, local_rank, take_new, aggregate_from, aggregate_of,
}
use langharness.Policy.Shadow.{
  firsts, In-firsts, firsts-NoRepeat, firsts_complete, firsts_least, IsOrdered, IsOrdered-append,
  IsOrdered-mono,
}
use mathlib.Core.Bool.{false≢true}
use mathlib.Core.Path.{subst, subst⁻¹}
use text.Mathlib.TextEquality.{eq_iff}

away_of :
    (s : String) (ss : List String) (k : String)
    → contains s ss ≡ false
    → contains k ss ≡ true
    → (s == k) ≡ false
away_of s ss k absent present = elim (Bool-cases (s == k)) [
  | inr other ↦ other
  | inl same ↦
      let q : contains s ss ≡ contains k ss = ap (λ a. contains a ss) ((eq_iff s k).0 same) in
      ground arith
]

module _ {Service : Type 0} where
  abbrev pub key_of : PluginCandidate Service → String
  key_of item = item.plugin_key

  -- The sorted candidates of one scope.
  abbrev local_of : String → List (PluginCandidate Service) → List (PluginCandidate Service)
  local_of s candidates =
      sort_by rank_order local_rank (filter (λ item. item.scope_id == s) candidates)

  -- Those of all scopes, the nearest first.
  abbrev pub by_scope :
      List String → List (PluginCandidate Service) → List (PluginCandidate Service)
  by_scope [] candidates = []
  by_scope (s ∷ ss) candidates = local_of s candidates ++ by_scope ss candidates

  abbrev seen_after : List (PluginCandidate Service) → List String → List String
  seen_after [] seen = seen
  seen_after (item ∷ items) seen =
      seen_after items (if contains item.plugin_key seen then seen else item.plugin_key ∷ seen)

  firsts-append :
      (xs ys : List (PluginCandidate Service)) (seen : List String)
      → firsts key_of seen (xs ++ ys)
        ≡ firsts key_of seen xs ++ firsts key_of (seen_after xs seen) ys
  unfolding firsts
  firsts-append [] ys seen = refl
  firsts-append (x ∷ xs) ys seen = elim (Bool-cases (contains x.plugin_key seen)) [
    | inl old ↦ rw old (firsts-append xs ys seen)
    | inr new ↦ rw new (ap (◌∷◌ x) (firsts-append xs ys (x.plugin_key ∷ seen)))
  ]

  take_new-firsts :
      (items : List (PluginCandidate Service)) (seen : List String)
      (resolved : List (PluginCandidate Service))
      → take_new items seen resolved ≡ (seen_after items seen, resolved ++ firsts key_of seen items)
  unfolding firsts
  take_new-firsts [] seen resolved = ap (λ r. (seen, r)) (sym (append-nil resolved))
  take_new-firsts (x ∷ xs) seen resolved = elim (Bool-cases (contains x.plugin_key seen)) [
    | inl old ↦ rw old (take_new-firsts xs seen resolved)
    | inr new ↦ rw new (
        take_new-firsts xs (x.plugin_key ∷ seen) (resolved ++ x ∷ [])
        ∙ ap (λ r. (seen_after xs (x.plugin_key ∷ seen), r))
            (append_assoc resolved (x ∷ []) (firsts key_of (x.plugin_key ∷ seen) xs)))
  ]

  aggregate_from-firsts :
      (scopes : List String) (candidates : List (PluginCandidate Service)) (seen : List String)
      (resolved : List (PluginCandidate Service))
      → aggregate_from scopes candidates (seen, resolved)
        ≡ resolved ++ firsts key_of seen (by_scope scopes candidates)
  aggregate_from-firsts [] candidates seen resolved = unfold firsts in sym (append-nil resolved)
  aggregate_from-firsts (s ∷ ss) candidates seen resolved =
      let local = local_of s candidates in
      ap (aggregate_from ss candidates) (take_new-firsts local seen resolved)
      ∙ (aggregate_from-firsts ss candidates (seen_after local seen)
            (resolved ++ firsts key_of seen local)
          ∙ (append_assoc resolved (firsts key_of seen local)
                (firsts key_of (seen_after local seen) (by_scope ss candidates))
              ∙ ap (λ r. resolved ++ r) (sym (firsts-append local (by_scope ss candidates) seen))))

  In-local :
      (s : String) (candidates : List (PluginCandidate Service)) (c : PluginCandidate Service)
      → In c (local_of s candidates)
      → In c candidates × (c.scope_id ≡ s)
  In-local s candidates c m =
      let (i, h) =
        In-filter (λ item. item.scope_id == s) c candidates
          (In-sort rank_order local_rank c (filter (λ item. item.scope_id == s) candidates) m) in
      (i, (eq_iff c.scope_id s).0 h)

  In-by_scope :
      (scopes : List String) (candidates : List (PluginCandidate Service))
      (c : PluginCandidate Service)
      → In c (by_scope scopes candidates)
      → In c candidates × (contains c.scope_id scopes ≡ true)
  In-by_scope [] candidates c m = absurd m.1
  In-by_scope (s ∷ ss) candidates c m =
      elim (In-append c (local_of s candidates) (by_scope ss candidates) m) [
        | inl here ↦
            let (i, e) = In-local s candidates c here in (i, ground (arith, eq_iff s c.scope_id))
        | inr there ↦ let (i, h) = In-by_scope ss candidates c there in (i, ground arith)
      ]

  by_scope-In :
      (scopes : List String) (candidates : List (PluginCandidate Service))
      (c : PluginCandidate Service)
      → In c candidates
      → contains c.scope_id scopes ≡ true
      → In c (by_scope scopes candidates)
  by_scope-In [] candidates c m h = cc
  by_scope-In (s ∷ ss) candidates c m h = elim (Bool-cases (s == c.scope_id)) [
    | inl same ↦ append-In_left c (local_of s candidates) (by_scope ss candidates) (
        sort-In rank_order local_rank c (filter (λ item. item.scope_id == s) candidates) (
          filter-In (λ item. item.scope_id == s) c candidates m
            ((eq_iff c.scope_id s).1 (sym ((eq_iff s c.scope_id).0 same)))))
    | inr other ↦
        append-In_right c (local_of s candidates) (by_scope ss candidates)
          (by_scope-In ss candidates c m (ground arith))
  ]

  -- `r` is to be preferred to `c`: its scope is nearer, or the same with a ranking no lower.
  abbrev pub IsPreferred : List String → PluginCandidate Service → PluginCandidate Service → Type 0
  IsPreferred scopes r c =
      (position r.scope_id scopes ≤ position c.scope_id scopes)
      × (c.scope_id ≡ r.scope_id → c.ranking ≤ℤ r.ranking)

  IsPreferred-refl : (scopes : List String) (x : PluginCandidate Service) → IsPreferred scopes x x
  IsPreferred-refl scopes x = (omega arith, λ e. omega arith)

  IsPreferred-local :
      (s : String) (ss : List String) (x y : PluginCandidate Service)
      → rank_ltb (local_rank y) (local_rank x) ≡ false
      → x.scope_id ≡ s
      → y.scope_id ≡ s
      → IsPreferred (s ∷ ss) x y
  IsPreferred-local s ss x y h p q =
      let high = (rank_not_before (local_rank y) (local_rank x) h).1 refl in
      let same : position x.scope_id (s ∷ ss) ≡ position y.scope_id (s ∷ ss) =
        ap (λ a. position a (s ∷ ss)) (p ∙ sym q) in
      (omega arith, λ e. high)

  IsPreferred-first :
      (s : String) (ss : List String) (x y : PluginCandidate Service)
      → x.scope_id ≡ s
      → (s == y.scope_id) ≡ false
      → IsPreferred (s ∷ ss) x y
  IsPreferred-first s ss x y p away =
      (ground (arith, eq_iff s x.scope_id), λ e. absurd (ground (arith, eq_iff s y.scope_id)))

  IsPreferred-later :
      (s : String) (ss : List String) (x y : PluginCandidate Service)
      → (s == x.scope_id) ≡ false
      → (s == y.scope_id) ≡ false
      → IsPreferred ss x y
      → IsPreferred (s ∷ ss) x y
  IsPreferred-later s ss x y a b h = (ground arith, h.1)

  first-IsPreferred :
      (s : String) (ss : List String) (x : PluginCandidate Service)
      (xs : List (PluginCandidate Service))
      → All (λ y. rank_ltb (local_rank y) (local_rank x) ≡ false) xs
      → x.scope_id ≡ s
      → ((y : PluginCandidate Service) → In y xs → y.scope_id ≡ s)
      → All (IsPreferred (s ∷ ss) x) xs
  first-IsPreferred s ss x [] h p own = tt
  first-IsPreferred s ss x (y ∷ ys) h p own = (
    IsPreferred-local s ss x y h.0 p (own y (inl refl)),
    first-IsPreferred s ss x ys h.1 p (λ z m. own z (inr m)),
  )

  local-IsOrdered :
      (s : String) (ss : List String) (xs : List (PluginCandidate Service))
      → ((x : PluginCandidate Service) → In x xs → x.scope_id ≡ s)
      → IsSorted rank_order local_rank xs
      → IsOrdered (IsPreferred (s ∷ ss)) xs
  local-IsOrdered s ss [] own sorted = tt
  local-IsOrdered s ss (x ∷ xs) own sorted = (
    first-IsPreferred s ss x xs sorted.0 (own x (inl refl)) (λ y m. own y (inr m)),
    local-IsOrdered s ss xs (λ y m. own y (inr m)) sorted.1,
  )

  by_scope-IsOrdered :
      (scopes : List String) (candidates : List (PluginCandidate Service))
      → NoRepeat scopes
      → IsOrdered (IsPreferred scopes) (by_scope scopes candidates)
  by_scope-IsOrdered [] candidates once = tt
  by_scope-IsOrdered (s ∷ ss) candidates once =
      IsOrdered-append (IsPreferred (s ∷ ss)) (local_of s candidates) (by_scope ss candidates)
        (local-IsOrdered s ss (local_of s candidates) (λ x m. (In-local s candidates x m).1)
          (sort-IsSorted rank_order local_rank (filter (λ item. item.scope_id == s) candidates)))
        (IsOrdered-mono (IsPreferred ss) (IsPreferred (s ∷ ss)) (by_scope ss candidates)
          (λ x y i j. IsPreferred-later s ss x y (away x i) (away y j))
          (by_scope-IsOrdered ss candidates once.1))
        (λ x y i j. IsPreferred-first s ss x y (In-local s candidates x i).1 (away y j))
    where
      away :
          (y : PluginCandidate Service) → In y (by_scope ss candidates) → (s == y.scope_id) ≡ false
      away y m = away_of s ss y.scope_id once.0 (In-by_scope ss candidates y m).1

  -- Over scopes that are listed once, the aggregate holds one candidate for each key that a visible
  -- candidate has: every entry is a visible candidate, no key stands twice, and for each visible
  -- candidate there is an entry with its key whose scope is as near or nearer, and whose ranking
  -- is no lower where the scope is the same.
  pub aggregate_of-nearest :
      (scopes : List String) (candidates : List (PluginCandidate Service))
      → NoRepeat scopes
      → NoRepeat (map key_of (aggregate_of scopes candidates))
        × ((r : PluginCandidate Service)
            → In r (aggregate_of scopes candidates)
            → In r candidates × (contains r.scope_id scopes ≡ true))
        × ((c : PluginCandidate Service)
            → In c candidates
            → contains c.scope_id scopes ≡ true
            → (r : PluginCandidate Service) × In r (aggregate_of scopes candidates)
              × (r.plugin_key ≡ c.plugin_key)
              × IsPreferred scopes r c)
  unfolding aggregate_of
  aggregate_of-nearest scopes candidates once =
      let flat = by_scope scopes candidates in
      let same = aggregate_from-firsts scopes candidates [] [] in
      (
        subst⁻¹ (λ l. NoRepeat (map key_of l)) same (firsts-NoRepeat key_of [] flat),
        λ r m. In-by_scope scopes candidates r (In-firsts key_of [] flat r (subst (In r) same m)).0,
        λ c i h.
            let listed = by_scope-In scopes candidates c i h in
            elim (firsts_complete key_of [] flat c listed) [
              | inl bad ↦ absurd (false≢true bad)
              | inr (r, m, e) ↦ (
                r,
                subst⁻¹ (In r) same m,
                e,
                firsts_least key_of (IsPreferred scopes) (λ x. IsPreferred-refl scopes x) [] flat
                    (by_scope-IsOrdered scopes candidates once) r c m listed (sym e),
              )
            ],
      )
