-- ===== src/Policy/Tests.antt =====
-- The theorems on src/langharness_plugin/scope_policy.py at concrete services.
use langharness.Prelude.{
  ℕ, ◌≡◌, refl, List, [], ◌∷◌, ◌++◌, map, Option, none, some, false, ok, In, NoRepeat, filter, not,
  string_eq, nat_eq,
}
use langharness.Prelude.Dict.{has}
use langharness.Prelude.Int.{pos}
use langharness.Policy.Rank.{rank_ltb}
use langharness.Policy.Resolve.{PluginCandidate, resolve_best}
use langharness.Policy.Resolve.Best.{IsVisible}
use langharness.Policy.Resolve.Aggregate.{IsPreferred}
use langharness.Policy.Scoped.{
  Provider, Meta, resolve_scoped_aggregate, resolve_scoped_best, resolve_scoped_aggregate-shadow,
  resolve_scoped_best-least, rank, scoped, complete,
}
use langharness.Policy.Scoped as Scoped
use langharness.Policy.Visible.{ids, resolve_best-nearest}
use langharness.Scope.Model.{Scope, Scopes, root_scope}
use langharness.Scope.Tree.Path.{IsPath}
use langharness.Scope.Tree.Reload.{root_only-IsTree}

abbrev candidate : PluginCandidate ℕ
candidate = record { scope_id = "root"; plugin_key = "log"; ranking = pos 1; service = 7 }

abbrev provider : Provider
provider = record {
  ident = 1;
  plugin_scope_id = some "root";
  plugin_key = some "log";
  plugin_ranking = pos 1;
}

abbrev unscoped : Provider
unscoped = record { ident = 2; plugin_scope_id = none; plugin_key = none; plugin_ranking = pos 0 }

resolve_scoped_aggregate-shadow_example :
    let all_meta = complete "root" [] (provider ∷ unscoped ∷ []) [] in
    (chosen : List Provider) × (resolve_scoped_aggregate ("root" ∷ []) (provider ∷ unscoped ∷ []) []
      ≡ chosen ++ filter (λ p. not (has p.ident all_meta)) (provider ∷ unscoped ∷ []))
    × NoRepeat (map (Scoped.key_of all_meta) chosen)
    × ((r : Provider) → In r chosen → In r (scoped "root" [] (provider ∷ unscoped ∷ []) []))
    × ((c : Provider)
        → In c (scoped "root" [] (provider ∷ unscoped ∷ []) [])
        → (r : Provider) × In r chosen
          × (Scoped.key_of all_meta r ≡ Scoped.key_of all_meta c)
          × (rank_ltb
                (rank "root" [] (provider ∷ unscoped ∷ []) [] c)
                (rank "root" [] (provider ∷ unscoped ∷ []) [] r)
              ≡ false))
resolve_scoped_aggregate-shadow_example =
    resolve_scoped_aggregate-shadow "root" [] (provider ∷ unscoped ∷ []) []

provider_found : resolve_scoped_best ("root" ∷ []) (provider ∷ unscoped ∷ []) [] ≡ some provider
unfolding resolve_scoped_best
provider_found = refl

abbrev tree : Scopes
tree = ("root", root_scope) ∷ []

resolve_best-nearest_example :
    (above : List Scope) × (best : Option (PluginCandidate ℕ)) × IsPath tree root_scope above
    × (resolve_best tree "root" (candidate ∷ []) ≡ ok best)
    × ((b : PluginCandidate ℕ)
        → best ≡ some b
        → IsVisible (ids (root_scope ∷ above)) (candidate ∷ []) b
          × ((c : PluginCandidate ℕ)
              → IsVisible (ids (root_scope ∷ above)) (candidate ∷ []) c
              → IsPreferred (ids (root_scope ∷ above)) b c))
    × (best ≡ none
        → (c : PluginCandidate ℕ) → ¬ IsVisible (ids (root_scope ∷ above)) (candidate ∷ []) c)
resolve_best-nearest_example =
    resolve_best-nearest "root" root_scope (candidate ∷ []) root_only-IsTree refl
