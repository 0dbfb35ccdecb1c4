-- ===== src/Policy/Visible.antt =====
-- `PluginScopePolicy` of src/langharness_plugin/scope_policy.py over a `ScopeTree`: the consumer's
-- scopes are the path to the root, each once, so the rules for the nearest scope apply.
use langharness.Prelude.{
  ℕ, ◌<◌, ◌≤◌, String, true, false, ◌≡◌, refl, List, [], ◌∷◌, map, Option, none, some, ok, ◌==◌,
  string_eq, contains, All, arith, inl, inr, Bool-cases, ap, NoRepeat,
}
use langharness.Prelude.Dict.{lookup, index}
use langharness.Policy.Filter.{visible_scopes}
use langharness.Policy.Resolve.{PluginCandidate, best_of, resolve_best}
use langharness.Policy.Resolve.Best.{best_of-nearest, best_of-none, IsVisible}
use langharness.Policy.Resolve.Aggregate.{IsPreferred}
use langharness.Scope.Model.{Scope, Scopes}
use langharness.Scope.Tree.Path.{IsPath, ancestors-IsPath}
use langharness.Scope.Tree.Valid.{IsTree, id_of_lookup}
use text.Mathlib.TextEquality.{eq_iff}

abbrev pub ids : List Scope → List String
ids = map (λ s. s.id)

-- The nodes above a node stand before it.
above_before :
    {d : Scopes} (n : ℕ) (k : String) (s : Scope) (l : List Scope)
    → IsTree d
    → lookup k d ≡ some s
    → index k d ≤ n
    → IsPath d s l
    → All (λ x. index x d < n) (ids l)
above_before n k s l t h lt (IsPath.top e) = tt
above_before {d} n k s l t h lt (IsPath.up {above = above} {rest = rest} p e found path) =
    let same = id_of_lookup p above d t.keyed found in
    let lower = t.ordered k p s h e in
    let first : index above.id d < n = rw (ap (λ a. index a d) same) (omega arith) in
    (first, above_before n p above rest t found (omega arith) path)

fresh_of_before :
    (d : Scopes) (k : String) (ks : List String)
    → All (λ x. index x d < index k d) ks
    → contains k ks ≡ false
fresh_of_before d k [] a = refl
fresh_of_before d k (x ∷ ks) a = elim (Bool-cases (x == k)) [
  | inl same ↦
      let q : index x d ≡ index k d = ap (λ a. index a d) ((eq_iff x k).0 same) in
      absurd (omega arith)
  | inr other ↦ ground (arith, fresh_of_before d k ks a.1)
]

path_NoRepeat :
    {d : Scopes} (k : String) (s : Scope) (l : List Scope)
    → IsTree d
    → lookup k d ≡ some s
    → IsPath d s l
    → NoRepeat (s.id ∷ ids l)
path_NoRepeat k s l t h (IsPath.top e) = (refl, tt)
path_NoRepeat {d} k s l t h (IsPath.up {above = above} {rest = rest} p e found path) =
    let own = id_of_lookup k s d t.keyed h in
    let before =
      above_before (index s.id d) k s (above ∷ rest) t h
        (rw (ap (λ a. index a d) own) (omega arith)) (IsPath.up p e found path) in
    (fresh_of_before d s.id (above.id ∷ ids rest) before, path_NoRepeat p above rest t found path)

-- In a tree the visible scopes of a known consumer are the path from it to the root, each once.
pub visible_scopes-IsPath :
    {d : Scopes} (k : String) (s : Scope)
    → IsTree d
    → lookup k d ≡ some s
    → (above : List Scope) × (visible_scopes d k ≡ ok (ids (s ∷ above)))
      × IsPath d s above
      × NoRepeat (ids (s ∷ above))
unfolding visible_scopes
visible_scopes-IsPath k s t h =
    let (above, done, path) = ancestors-IsPath k s true t h in
    (above, ground (arith, done), path, path_NoRepeat k s above t h path)

-- In a tree `resolve_best` succeeds for a known consumer. What it returns is visible, no visible
-- candidate stands nearer to the consumer on the way to the root, and none of its own scope has a
-- higher ranking; it returns nothing only where no candidate is visible.
pub resolve_best-nearest :
    {Service : Type 0} {d : Scopes} (k : String) (s : Scope)
    (candidates : List (PluginCandidate Service))
    → IsTree d
    → lookup k d ≡ some s
    → (above : List Scope) × (best : Option (PluginCandidate Service)) × IsPath d s above
      × (resolve_best d k candidates ≡ ok best)
      × ((b : PluginCandidate Service)
          → best ≡ some b
          → IsVisible (ids (s ∷ above)) candidates b
            × ((c : PluginCandidate Service)
                → IsVisible (ids (s ∷ above)) candidates c
                → IsPreferred (ids (s ∷ above)) b c))
      × (best ≡ none → (c : PluginCandidate Service) → ¬ IsVisible (ids (s ∷ above)) candidates c)
unfolding resolve_best
resolve_best-nearest k s candidates t h =
    let (above, done, path, once) = visible_scopes-IsPath k s t h in
    let scopes = ids (s ∷ above) in
    (
      above,
      best_of scopes candidates,
      path,
      ground (arith, done),
      λ b e. best_of-nearest scopes candidates b once e,
      best_of-none scopes candidates,
    )
