-- ===== src/Plugin/Manager/Placement/Without.antt =====
-- What the loop of `remove_scope` in src/langharness_plugin/plugin_manager.py over the affected
-- instances takes.
use mathlib.Core.Path.{subst, subst⁻¹, sym, ap, ◌∙◌}
use langharness.Prelude.{
  String, List, [], ◌∷◌, map, Option, none, some, ok, Action, pure, ◌>>=◌, ◌==◌, string_eq,
  if◌then◌else◌, contains, ◌≡◌, refl, arith, Bool-cases, inl, inr,
}
use langharness.Prelude.Dict.{lookup, lookup-erase}
use langharness.Scope.Store.{ScopeStore}
use langharness.Plugin.Manager.{
  PluginInstanceSnapshot, RuntimeStateStore, Framework, Manager, remove_instance_record,
  remove_found, drop_instance, on_components,
}
use langharness.Plugin.Manager.Frame.{answered}
use langharness.Plugin.Manager.Placement.Removal.{remove_records}

module _ (S : ScopeStore) (R : RuntimeStateStore) (F : Framework) where
  -- Exactly these instances are gone, and the scopes are as they were.
  abbrev pub Without : List String → Manager R F → Manager R F → Type 0
  Without gone m m' =
      ((j : String)
        → lookup j m'.instances ≡ (if contains j gone then none else lookup j m.instances))
      × (m'.scopes ≡ m.scopes)

  then_drop-Without :
      (k : String) (a : Action (Manager R F) (Unit {0})) (m : Manager R F)
      → ((n : Manager R F) → ((a n).1.instances ≡ n.instances) × ((a n).1.scopes ≡ n.scopes))
      → ((a >>= λ _. drop_instance R F k) m).0 ≡ ok tt
      → Without (k ∷ []) m ((a >>= λ _. drop_instance R F k) m).1
  then_drop-Without k a m same done =
      let (x, n, went, whole) = answered a (λ _. drop_instance R F k) m tt done in
      let kept : n.instances ≡ m.instances = ap (λ p. p.1.instances) (sym went) ∙ (same m).0 in
      let scopes : n.scopes ≡ m.scopes = ap (λ p. p.1.scopes) (sym went) ∙ (same m).1 in
      subst⁻¹ (λ p. Without (k ∷ []) m p.1) whole
        (
          (λ j.
              lookup-erase k j n.instances
              ∙ ap (λ d. if k == j then none else lookup j d) kept
              ∙ ground arith),
          scopes,
        )

  remove_found-Without :
      (k : String) (o : Option PluginInstanceSnapshot) (m : Manager R F)
      → lookup k m.instances ≡ o
      → (remove_found R F k o m).0 ≡ ok tt
      → Without (k ∷ []) m (remove_found R F k o m).1
  remove_found-Without k none m absent done = (
    λ j. elim (Bool-cases (k == j)) [
      | inl same ↦
          let eq : k ≡ j = (string_eq.beq_iff k j).0 same in
          rw same (subst (λ i. lookup i m.instances ≡ none) eq absent)
      | inr other ↦ rw other refl
    ],
    refl,
  )
  remove_found-Without k (some t) m here done =
      then_drop-Without k (if t.status == "active" then on_components R F (F.kill k) else pure tt) m
        (λ n. elim (Bool-cases (t.status == "active")) [
          | inl active ↦ rw active (refl, refl)
          | inr idle ↦ rw idle (refl, refl)
        ])
        done

  remove_record-Without :
      (k : String) (m : Manager R F)
      → (remove_instance_record R F k m).0 ≡ ok tt
      → Without (k ∷ []) m (remove_instance_record R F k m).1
  unfolding remove_instance_record
  remove_record-Without k m done = remove_found-Without k (lookup k m.instances) m refl done

  pub remove_records-Without :
      (ss : List PluginInstanceSnapshot) (m : Manager R F)
      → (remove_records S R F ss m).0 ≡ ok tt
      → Without (map (λ s. s.instance_id) ss) m (remove_records S R F ss m).1
  remove_records-Without [] m done = ((λ j. refl), refl)
  remove_records-Without (t ∷ ts) m done =
      let (x, n, went, whole) =
        answered (remove_instance_record R F t.instance_id) (λ _. remove_records S R F ts) m tt
          done in
      let later = remove_records-Without ts n (sym (ap (λ p. p.0) whole) ∙ done) in
      let first : Without (t.instance_id ∷ []) m n =
        subst (λ p. Without (t.instance_id ∷ []) m p.1) went
          (remove_record-Without t.instance_id m (ap (λ p. p.0) went)) in
      subst⁻¹ (λ p. Without (map (λ s. s.instance_id) (t ∷ ts)) m p.1) whole
        ((λ j. ground (arith, later.0 j, first.0 j)), later.1 ∙ first.1)
