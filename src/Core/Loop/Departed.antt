-- ===== src/Core/Loop/Departed.antt =====
-- What stands in the fields of src/langharness_core/plugins/loop/agent_loop.py after a service has
-- left.
use mathlib.Core.Path.{sym, ap, subst, ◌∙◌}
use langharness.Prelude.{
  ℕ, String, Bool, false, not, List, [], ◌∷◌, filter, ◌==◌, nat_eq, contains, NoRepeat, Bool-cases,
  inl, inr, ◌≡◌, refl, arith, nat_beq_iff,
}
use langharness.Plugin.Validation.Guard.{
  Service, FieldValue, single, several, ContractGuard, held, remove_first, release,
}
use langharness.Core.Loop.Services.{Field, index, list_kind}
use langharness.Core.Loop.Rebuild.{first_of}
use langharness.Core.Loop.Bound.{Injection, idents, same_field}
use langharness.Core.Loop.Conforming.{changed, changed_self, HasShape}

filter_absent :
    (k : ℕ) (ss : List Service)
    → contains k (idents ss) ≡ false
    → filter (λ s. not (contains s.ident (k ∷ []))) ss ≡ ss
filter_absent k [] absent = refl
filter_absent k (s ∷ ss) absent =
    ground (arith, filter_absent k ss, nat_beq_iff s.ident k, nat_beq_iff k s.ident)

filter-remove_first :
    (k : ℕ) (ss : List Service)
    → NoRepeat (idents ss)
    → filter (λ s. not (contains s.ident (k ∷ []))) ss ≡ remove_first k ss
filter-remove_first k [] distinct = refl
filter-remove_first k (s ∷ ss) distinct = elim (Bool-cases (s.ident == k)) [
  | inl here ↦
      let eq : s.ident ≡ k = (nat_beq_iff s.ident k).0 here in
      let absent : contains k (idents ss) ≡ false =
        subst (λ j. contains j (idents ss) ≡ false) eq distinct.0 in
      ground (arith, filter_absent k ss absent, nat_beq_iff k s.ident)
  | inr other ↦
      ground
        (arith, filter-remove_first k ss distinct.1, nat_beq_iff s.ident k, nat_beq_iff k s.ident)
]

-- The values of the guards of a field after `release` there, and after another value is set.
module _ (f : Field) (s : Service) (is_subclass : String → String → Bool) (J : Injection)
    (gs : Field → ContractGuard) where
  unfoldable pub released : Field → ContractGuard
  released = changed is_subclass f (release is_subclass s (gs f)) gs

  unfoldable pub emptied : Field → ContractGuard
  emptied =
      changed is_subclass f
        (record (released f) { field_value = J.eject s (released f).field_value }) released

  released-value : (h : Field) → (released h).field_value ≡ (gs h).field_value
  unfolding released release
  released-value h = elim (Bool-cases (index f == index h)) [
    | inl here ↦ rw here (ap (λ k. (gs k).field_value) (same_field f h here))
    | inr other ↦ rw other refl
  ]

  emptied-value_other :
      (h : Field) → (index f == index h) ≡ false → (emptied h).field_value ≡ (gs h).field_value
  unfolding emptied
  emptied-value_other h other = rw other (released-value h)

  emptied-value_self : (emptied f).field_value ≡ J.eject s (gs f).field_value
  unfolding emptied
  emptied-value_self =
      ap (λ g. g.field_value)
        (changed_self is_subclass f
          (record (released f) { field_value = J.eject s (released f).field_value }) released)
      ∙ ap (J.eject s) (released-value f)

  -- What stands in the fields without the service is what stands there once it is taken out.
  pub kept :
      HasShape list_kind (gs f).field_value
      → NoRepeat (idents (held (gs f).field_value))
      → ((h : Field)
          → (index f == index h) ≡ false
          → contains s.ident (idents (held (gs h).field_value)) ≡ false)
      → (h : Field)
      → filter (λ x. not (contains x.ident (s.ident ∷ []))) (held (released h).field_value)
        ≡ held (emptied h).field_value
  kept shape distinct alone h = elim (Bool-cases (index f == index h)) [
    | inl here ↦
        subst
          (λ k.
            filter (λ x. not (contains x.ident (s.ident ∷ []))) (held (released k).field_value)
            ≡ held (emptied k).field_value)
          (same_field f h here)
          (ap (λ v. filter (λ x. not (contains x.ident (s.ident ∷ []))) (held v)) (released-value f)
            ∙ taken (gs f).field_value shape distinct
            ∙ sym (ap held emptied-value_self))
    | inr other ↦
        ap (λ v. filter (λ x. not (contains x.ident (s.ident ∷ []))) (held v)) (released-value h)
        ∙ filter_absent s.ident (held (gs h).field_value) (alone h other)
        ∙ sym (ap held (emptied-value_other h other))
  ]
    where
      taken :
          (v : FieldValue)
          → HasShape list_kind v
          → NoRepeat (idents (held v))
          → filter (λ x. not (contains x.ident (s.ident ∷ []))) (held v) ≡ held (J.eject s v)
      taken (several ss) shape distinct =
          filter-remove_first s.ident ss distinct ∙ sym (ap held (J.eject_several s ss))
      taken (single o) shape distinct = cc

  -- A list as a single field is none.
  pub same-current :
      HasShape list_kind (gs f).field_value
      → (h : Field) → first_of (released h).field_value ≡ first_of (emptied h).field_value
  same-current shape h = elim (Bool-cases (index f == index h)) [
    | inl here ↦
        subst (λ k. first_of (released k).field_value ≡ first_of (emptied k).field_value)
          (same_field f h here)
          (ap first_of (released-value f)
            ∙ taken (gs f).field_value shape
            ∙ sym (ap first_of emptied-value_self))
    | inr other ↦ ap first_of (released-value h) ∙ sym (ap first_of (emptied-value_other h other))
  ]
    where
      taken : (v : FieldValue) → HasShape list_kind v → first_of v ≡ first_of (J.eject s v)
      taken (several ss) shape = sym (ap first_of (J.eject_several s ss))
      taken (single o) shape = cc
