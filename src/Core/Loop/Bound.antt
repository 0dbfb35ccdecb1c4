-- ===== src/Core/Loop/Bound.antt =====
-- The services that are bound to the fields of src/langharness_core/plugins/loop/agent_loop.py,
-- over the calls of the component framework in any order.
use mathlib.Core.Path.{sym, ap, subst, ◌∙◌}
use langharness.Prelude.{
  ℕ, zero, suc, true, false, List, [], ◌∷◌, ◌++◌, map, Option, none, some, ◌==◌, nat_eq, string_eq,
  contains, In, inl, inr, NoRepeat, Bool-cases, ◌≡◌, refl, arith, nat_beq_iff,
}
use langharness.Plugin.Validation.Guard.{Service, FieldValue, single, several, remove_first}
use langharness.Core.Loop.Services.{
  Field, index, llm_provider, scoped_llm_providers, tool_providers, middleware_providers,
  system_prompt_providers, interrupt_before_providers, interrupt_after_providers,
  transformers_providers, response_format_provider, state_schema_provider, context_schema_provider,
  checkpointer_provider, store_provider, debug_provider, name_provider, cache_provider,
}

-- What the component framework does with a field: a new service is appended, or becomes the
-- single one; a service that leaves is taken out, and a single one leaves nothing behind.
pub record Injection : Type 0 where
  pub inject : Service → FieldValue → FieldValue
  pub eject : Service → FieldValue → FieldValue
  pub inject_several :
      (s : Service) (ss : List Service) → inject s (several ss) ≡ several (ss ++ s ∷ [])
  pub inject_single : (s : Service) (o : Option Service) → inject s (single o) ≡ single (some s)
  pub eject_several :
      (s : Service) (ss : List Service) → eject s (several ss) ≡ several (remove_first s.ident ss)
  pub eject_single : (s : Service) (o : Option Service) → eject s (single o) ≡ single none

abbrev pub fields : List Field
fields =
    llm_provider ∷ scoped_llm_providers ∷ tool_providers ∷ middleware_providers
    ∷ system_prompt_providers ∷ interrupt_before_providers ∷ interrupt_after_providers
    ∷ transformers_providers ∷ response_format_provider ∷ state_schema_provider
    ∷ context_schema_provider ∷ checkpointer_provider ∷ store_provider ∷ debug_provider
    ∷ name_provider ∷ cache_provider ∷ []

abbrev pub field_at : List Field → ℕ → Field
field_at [] n = llm_provider
field_at (f ∷ fs) zero = f
field_at (f ∷ fs) (suc n) = field_at fs n

field_at-index : (f : Field) → field_at fields (index f) ≡ f
field_at-index llm_provider = refl
field_at-index scoped_llm_providers = refl
field_at-index tool_providers = refl
field_at-index middleware_providers = refl
field_at-index system_prompt_providers = refl
field_at-index interrupt_before_providers = refl
field_at-index interrupt_after_providers = refl
field_at-index transformers_providers = refl
field_at-index response_format_provider = refl
field_at-index state_schema_provider = refl
field_at-index context_schema_provider = refl
field_at-index checkpointer_provider = refl
field_at-index store_provider = refl
field_at-index debug_provider = refl
field_at-index name_provider = refl
field_at-index cache_provider = refl

pub same_field : (f h : Field) → (index f == index h) ≡ true → f ≡ h
same_field f h same =
    sym (field_at-index f)
    ∙ ap (field_at fields) ((nat_beq_iff (index f) (index h)).0 same)
    ∙ field_at-index h

abbrev pub idents : List Service → List ℕ
idents = map (λ s. s.ident)

-- The service is not there yet; a single field gives up what it holds.
abbrev pub IsNew : Service → FieldValue → Type 0
IsNew s (several ss) = contains s.ident (idents ss) ≡ false
IsNew s (single o) = Unit

pub remove_first_snoc :
    (s : Service) (ss : List Service)
    → contains s.ident (idents ss) ≡ false
    → remove_first s.ident (ss ++ s ∷ []) ≡ ss
remove_first_snoc s [] new = ground (arith, nat_beq_iff s.ident s.ident)
remove_first_snoc s (x ∷ ss) new = ground (arith, remove_first_snoc s ss)

pub remove_first-In : (k : ℕ) (x : Service) (ss : List Service) → In x (remove_first k ss) → In x ss
remove_first-In k x [] m = m
remove_first-In k x (s ∷ ss) m = elim (Bool-cases (s.ident == k)) [
  | inl here ↦ inr (rw here at m)
  | inr other ↦ elim (subst (In x) (remove_later k s ss other) m) [
    | inl same ↦ inl same
    | inr later ↦ inr (remove_first-In k x ss later)
  ]
]
  where
    remove_later :
        (k : ℕ) (s : Service) (ss : List Service)
        → (s.ident == k) ≡ false
        → remove_first k (s ∷ ss) ≡ s ∷ remove_first k ss
    remove_later k s ss other = rw other refl

remove_first_fresh :
    (j k : ℕ) (ss : List Service)
    → contains j (idents ss) ≡ false
    → contains j (idents (remove_first k ss)) ≡ false
remove_first_fresh j k [] fresh = refl
remove_first_fresh j k (s ∷ ss) fresh = ground (arith, remove_first_fresh j k ss)

pub remove_first-NoRepeat :
    (k : ℕ) (ss : List Service) → NoRepeat (idents ss) → NoRepeat (idents (remove_first k ss))
remove_first-NoRepeat k [] h = tt
remove_first-NoRepeat k (s ∷ ss) h = elim (Bool-cases (s.ident == k)) [
  | inl here ↦ rw here h.1
  | inr other ↦ rw other (remove_first_fresh s.ident k ss h.0, remove_first-NoRepeat k ss h.1)
]
