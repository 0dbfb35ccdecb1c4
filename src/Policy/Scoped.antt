-- ===== src/Policy/Scoped.antt =====
-- `resolve_scoped_aggregate` and `resolve_scoped_best` of
-- src/langharness_plugin/scope_policy.py: the same rules on injected services, whose scope, key and
-- ranking are known by metadata or read off the service.
use langharness.Prelude.{
  ℕ, String, Bool, false, not, ◌&&◌, ◌≡◌, refl, List, [], ◌∷◌, ◌++◌, Option, none, some, string_eq,
  nat_eq, if◌then◌else◌, filter, In, inl, inr, map, NoRepeat, sym, all_in,
}
use langharness.Prelude.Dict.{Dict, lookup, has, insert}
use langharness.Prelude.Int.{ℤ}
use langharness.Prelude.Order.{
  sort_by, min_by, min_by-IsLeast, In-sort, sort-In, IsSorted, sort-IsSorted,
}
use langharness.Prelude.Text.{codes}
use langharness.Policy.Rank.{Rank, rank_order, rank_ltb, rank_irrefl}
use langharness.Policy.Shadow.{
  firsts, In-firsts, firsts-NoRepeat, firsts_complete, firsts_least, IsOrdered,
}
use mathlib.Core.Bool.{false≢true}
use langharness.Policy.Resolve.{distances, distance_of}

-- A service object: its identity, `id(provider)`, and the attributes that the manager sets on it,
-- `_plugin_scope_id`, `_plugin_key` and `_plugin_ranking`; 0 stands for a missing ranking.
pub record Provider : Type 0 where
  pub ident : ℕ
  pub plugin_scope_id : Option String
  pub plugin_key : Option String
  pub plugin_ranking : ℤ

-- `(scope_id, plugin_key, ranking)`
abbrev pub Meta : Type 0
Meta = String × String × ℤ

-- The loop that completes the metadata from the attributes of the services.
abbrev pub complete_metadata : List Provider → Dict ℕ Meta → Dict ℕ Meta
complete_metadata [] complete = complete
complete_metadata (p ∷ ps) complete = complete_metadata ps (elim p.plugin_scope_id [
  | none ↦ complete
  | some scope_id ↦ elim p.plugin_key [
    | none ↦ complete
    | some key ↦
        if has p.ident complete
        then complete
        else insert p.ident (scope_id, key, p.plugin_ranking) complete
  ]
])

abbrev pub no_meta : Meta
no_meta = ("", "", ℤ.pos 0)

-- `complete[id(provider)]` for a provider that is there.
abbrev pub meta_of : Provider → Dict ℕ Meta → Meta
meta_of p complete = elim (lookup p.ident complete) [ none ↦ no_meta | some m ↦ m ]

-- `id(provider) in complete and complete[id(provider)][0] in distance`
abbrev pub is_scoped : Dict ℕ Meta → Dict String ℕ → Provider → Bool
is_scoped complete distance p = has p.ident complete && has (meta_of p complete).0 distance

abbrev pub provider_rank : Dict ℕ Meta → Dict String ℕ → Provider → Rank
provider_rank complete distance p = record {
  distance = distance_of (meta_of p complete).0 distance;
  ranking = (meta_of p complete).2;
  key = codes (meta_of p complete).1;
}

-- `plugin_key` in the last loop of `resolve_scoped_aggregate`.
abbrev pub key_of : Dict ℕ Meta → Provider → String
key_of complete p = (meta_of p complete).1

unfoldable pub resolve_scoped_aggregate : List String → List Provider → Dict ℕ Meta → List Provider
resolve_scoped_aggregate [] providers metadata = providers
resolve_scoped_aggregate (s ∷ ss) providers metadata =
    let distance = distances 0 (s ∷ ss) [] in
    let complete = complete_metadata providers metadata in
    let legacy = filter (λ p. not (has p.ident complete)) providers in
    let scoped =
      sort_by rank_order (provider_rank complete distance)
        (filter (is_scoped complete distance) providers) in
    firsts (key_of complete) [] scoped ++ legacy

unfoldable pub resolve_scoped_best : List String → List Provider → Dict ℕ Meta → Option Provider
resolve_scoped_best visible_scopes providers metadata =
    let distance = distances 0 visible_scopes [] in
    let complete = complete_metadata providers metadata in
    min_by rank_order (provider_rank complete distance)
      (filter (is_scoped complete distance) providers)

IsOrdered-of_sorted :
    (rank : Provider → Rank) (xs : List Provider)
    → IsSorted rank_order rank xs
    → IsOrdered (λ a b. rank_ltb (rank b) (rank a) ≡ false) xs
IsOrdered-of_sorted rank [] h = tt
IsOrdered-of_sorted rank (x ∷ xs) h = (h.0, IsOrdered-of_sorted rank xs h.1)

module _ (s : String) (ss : List String) (providers : List Provider) (metadata : Dict ℕ Meta) where
  abbrev distance : Dict String ℕ
  distance = distances 0 (s ∷ ss) []

  abbrev pub complete : Dict ℕ Meta
  complete = complete_metadata providers metadata

  abbrev pub rank : Provider → Rank
  rank = provider_rank complete distance

  abbrev pub scoped : List Provider
  scoped = filter (is_scoped complete distance) providers

  -- Of the providers with a known and visible scope, the aggregate takes one for each key, and
  -- none of the same key comes before it by nearness, ranking and key; the providers with no
  -- known scope stand behind.
  pub resolve_scoped_aggregate-shadow :
      (chosen : List Provider) × (resolve_scoped_aggregate (s ∷ ss) providers metadata
        ≡ chosen ++ filter (λ p. not (has p.ident complete)) providers)
      × NoRepeat (map (key_of complete) chosen)
      × ((r : Provider) → In r chosen → In r scoped)
      × ((c : Provider)
          → In c scoped
          → (r : Provider) × In r chosen
            × (key_of complete r ≡ key_of complete c)
            × (rank_ltb (rank c) (rank r) ≡ false))
  unfolding resolve_scoped_aggregate
  resolve_scoped_aggregate-shadow =
      let sorted = sort_by rank_order rank scoped in
      (
        firsts (key_of complete) [] sorted,
        refl,
        firsts-NoRepeat (key_of complete) [] sorted,
        λ r m. In-sort rank_order rank r scoped (In-firsts (key_of complete) [] sorted r m).0,
        λ c i.
            let listed = sort-In rank_order rank c scoped i in
            elim (firsts_complete (key_of complete) [] sorted c listed) [
              | inl bad ↦ absurd (false≢true bad)
              | inr (r, m, e) ↦ (
                r,
                m,
                e,
                firsts_least (key_of complete) (λ a b. rank_ltb (rank b) (rank a) ≡ false)
                    (λ a. rank_irrefl (rank a)) [] sorted
                    (IsOrdered-of_sorted rank sorted (sort-IsSorted rank_order rank scoped)) r c m
                    listed (sym e),
              )
            ],
      )

  -- The best service is a scoped provider that no other one comes before.
  pub resolve_scoped_best-least :
      (best : Provider)
      → resolve_scoped_best (s ∷ ss) providers metadata ≡ some best
      → In best scoped × ((c : Provider) → In c scoped → rank_ltb (rank c) (rank best) ≡ false)
  unfolding resolve_scoped_best
  resolve_scoped_best-least best h =
      let (m, least) = min_by-IsLeast rank_order rank scoped best h in
      (m, λ c i. all_in (λ x. rank_ltb (rank x) (rank best) ≡ false) c scoped least i)
