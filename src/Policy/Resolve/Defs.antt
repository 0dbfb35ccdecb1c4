-- ===== src/Policy/Resolve/Defs.antt =====
-- `PluginCandidate`, `resolve_best` and `resolve_aggregate` of
-- src/langharness_plugin/scope_policy.py.
use langharness.Prelude.{
  ℕ, suc, String, List, [], ◌∷◌, ◌++◌, Option, none, some, Result, ok, bind, ◌==◌, string_eq,
  if◌then◌else◌, filter, contains,
}
use langharness.Prelude.Dict.{Dict, lookup, has, insert}
use langharness.Prelude.Int.{ℤ}
use langharness.Prelude.Order.{sort_by, min_by}
use langharness.Prelude.Text.{codes}
use langharness.Policy.Filter.{visible_scopes}
use langharness.Policy.Rank.{Rank, rank_order}
use langharness.Scope.Model.{Scopes}

-- `PluginCandidate`, for any type of services.
pub record PluginCandidate (Service : Type 0) : Type 0 where
  pub scope_id : String
  pub plugin_key : String
  pub ranking : ℤ
  pub service : Service

-- `{scope_id: index for index, scope_id in enumerate(scopes)}`, from an index on.
abbrev pub distances : ℕ → List String → Dict String ℕ → Dict String ℕ
distances i [] d = d
distances i (s ∷ ss) d = distances (suc i) ss (insert s i d)

-- `distance[scope_id]` for a scope that is there.
abbrev pub distance_of : String → Dict String ℕ → ℕ
distance_of s d = elim (lookup s d) [ none ↦ 0 | some i ↦ i ]

module _ {Service : Type 0} where
  abbrev pub best_rank : Dict String ℕ → PluginCandidate Service → Rank
  best_rank d item = record {
    distance = distance_of item.scope_id d;
    ranking = item.ranking;
    key = codes item.plugin_key;
  }

  -- The key of the local sort has no distance.
  abbrev pub local_rank : PluginCandidate Service → Rank
  local_rank item = record { distance = 0; ranking = item.ranking; key = codes item.plugin_key }

  unfoldable pub best_of :
      List String → List (PluginCandidate Service) → Option (PluginCandidate Service)
  best_of scopes candidates =
      let d = distances 0 scopes [] in
      min_by rank_order (best_rank d) (filter (λ item. has item.scope_id d) candidates)

  -- `PluginScopePolicy.resolve_best`
  unfoldable pub resolve_best :
      Scopes → String → List (PluginCandidate Service) → Result (Option (PluginCandidate Service))
  unfolding best_of
  resolve_best tree consumer_scope candidates =
      bind (visible_scopes tree consumer_scope) λ scopes. ok (best_of scopes candidates)

  -- The inner loop of `resolve_aggregate`: the keys seen, and the items taken.
  abbrev pub take_new :
      List (PluginCandidate Service)
      → List String
      → List (PluginCandidate Service)
      → List String × List (PluginCandidate Service)
  take_new [] seen resolved = (seen, resolved)
  take_new (item ∷ items) seen resolved =
      let old = contains item.plugin_key seen in
      take_new items (if old then seen else item.plugin_key ∷ seen)
        (if old then resolved else resolved ++ item ∷ [])

  -- The outer loop of `resolve_aggregate`.
  abbrev pub aggregate_from :
      List String
      → List (PluginCandidate Service)
      → List String × List (PluginCandidate Service)
      → List (PluginCandidate Service)
  aggregate_from [] candidates (seen, resolved) = resolved
  aggregate_from (s ∷ ss) candidates (seen, resolved) =
      let local = sort_by rank_order local_rank (filter (λ item. item.scope_id == s) candidates) in
      aggregate_from ss candidates (take_new local seen resolved)

  unfoldable pub aggregate_of :
      List String → List (PluginCandidate Service) → List (PluginCandidate Service)
  aggregate_of scopes candidates = aggregate_from scopes candidates ([], [])

  -- `PluginScopePolicy.resolve_aggregate`
  unfoldable pub resolve_aggregate :
      Scopes → String → List (PluginCandidate Service) → Result (List (PluginCandidate Service))
  unfolding aggregate_of
  resolve_aggregate tree consumer_scope candidates =
      bind (visible_scopes tree consumer_scope) λ scopes. ok (aggregate_of scopes candidates)
