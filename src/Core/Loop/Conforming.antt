-- ===== src/Core/Loop/Conforming.antt =====
-- The fields of src/langharness_core/plugins/loop/agent_loop.py, whose services conform to the
-- contracts of the fields, but for those that were injected unchecked.
use mathlib.Core.Path.{fun_ext, sym, ap, subst, ◌∙◌}
use mathlib.Core.List.{map-append}
use langharness.Prelude.{
  none, ℕ, String, Bool, true, false, List, [], ◌∷◌, ◌==◌, nat_eq, if◌then◌else◌, In, inl, inr, ◌⊎◌,
  NoRepeat, NoRepeat-snoc, Bool-cases, ◌≡◌, refl, arith, In-append, nat_beq_iff,
}
use langharness.Plugin.Validation.Contract.{Protocol, Violation, validate}
use langharness.Plugin.Validation.Guard.{
  Service, FieldValue, single, several, ContractGuard, held, quarantine, admit_with, Conforms,
}
use langharness.Core.Loop.Services.{
  Field, Kind, index, scoped_kind, list_kind, kind, llm_provider, scoped_llm_providers,
}
use langharness.Core.Loop.Bound.{
  Injection, same_field, idents, IsNew, remove_first_snoc, remove_first-In, remove_first-NoRepeat,
}

nat_eq_refl : (n : ℕ) → (n == n) ≡ true
nat_eq_refl n = (nat_beq_iff n n).1 refl

abbrev pub is_list : Kind → Bool
is_list scoped_kind = true
is_list list_kind = true
is_list _ = false

abbrev pub HasShape : Kind → FieldValue → Type 0
HasShape k (several ss) = is_list k ≡ true
HasShape k (single o) = is_list k ≡ false

module _ (is_subclass : String → String → Bool) where
  abbrev pub changed : Field → ContractGuard → (Field → ContractGuard) → Field → ContractGuard
  changed f g gs h = if index f == index h then g else gs h

  changed-protocol :
      (f : Field) (g : ContractGuard) (gs : Field → ContractGuard)
      → g.protocol ≡ (gs f).protocol
      → (h : Field) → (changed f g gs h).protocol ≡ (gs h).protocol
  changed-protocol f g gs same h = elim (Bool-cases (index f == index h)) [
    | inl here ↦ rw here (same ∙ ap (λ k. (gs k).protocol) (same_field f h here))
    | inr other ↦ rw other refl
  ]

  pub changed_self :
      (f : Field) (g : ContractGuard) (gs : Field → ContractGuard) → changed f g gs f ≡ g
  changed_self f g gs = rw (nat_eq_refl (index f)) refl

  pub changed_twice :
      (f : Field) (g g' : ContractGuard) (gs : Field → ContractGuard)
      → changed f g (changed f g' gs) ≡ changed f g gs
  changed_twice f g g' gs = fun_ext λ h. elim (Bool-cases (index f == index h)) [
    | inl here ↦ rw here refl
    | inr other ↦ rw other refl
  ]

  module _ (unchecked : List Service) where
    -- A service that conforms, or was injected unchecked.
    abbrev pub IsAllowed : Protocol → Service → Type 0
    IsAllowed p x = Conforms is_subclass p x ⊎ In x unchecked

    -- A field with its shape, each service once, all of them allowed.
    abbrev pub Fills : Kind → Protocol → FieldValue → Type 0
    Fills k p v =
        HasShape k v × NoRepeat (idents (held v)) × ((x : Service) → In x (held v) → IsAllowed p x)

    abbrev pub IsFilled : Field → ContractGuard → Type 0
    IsFilled f g = Fills (kind f) g.protocol g.field_value

    -- All fields, and one contract for both fields of models.
    abbrev pub IsBound : (Field → ContractGuard) → Type 0
    IsBound gs =
        ((f : Field) → IsFilled f (gs f))
        × ((gs llm_provider).protocol ≡ (gs scoped_llm_providers).protocol)

    pub changed-IsBound :
        (f : Field) (g : ContractGuard) (gs : Field → ContractGuard)
        → IsBound gs
        → IsFilled f g
        → g.protocol ≡ (gs f).protocol
        → IsBound (changed f g gs)
    changed-IsBound f g gs (filled, models) new same = (
      λ h. elim (Bool-cases (index f == index h)) [
        | inl here ↦ rw here (subst (λ k. IsFilled k g) (same_field f h here) new)
        | inr other ↦ rw other (filled h)
      ],
      changed-protocol f g gs same llm_provider
          ∙ models
          ∙ sym (changed-protocol f g gs same scoped_llm_providers),
    )

    module _ (J : Injection) where
      -- A service that is injected and quarantined at once leaves a list as it was, and a single
      -- field empty.
      quarantine-Fills :
          (k : Kind) (p : Protocol) (s : Service) (v : FieldValue)
          → IsNew s v
          → Fills k p v
          → Fills k p (quarantine s (J.inject s v))
      unfolding quarantine
      quarantine-Fills k p s (several ss) new fills =
          subst (Fills k p)
            (sym
              (ap (quarantine s) (J.inject_several s ss) ∙ ap several (remove_first_snoc s ss new)))
            fills
      quarantine-Fills k p s (single o) new (shape, distinct, allowed) =
          let emptied : quarantine s (J.inject s (single o)) ≡ single none =
            ap (quarantine s) (J.inject_single s o) ∙ ground (arith, nat_beq_iff s.ident s.ident) in
          subst (Fills k p) (sym emptied) (shape, tt, λ x m. absurd m.1)

      pub inject-Fills :
          (k : Kind) (p : Protocol) (s : Service) (v : FieldValue)
          → IsNew s v
          → IsAllowed p s
          → Fills k p v
          → Fills k p (J.inject s v)
      inject-Fills k p s (several ss) new fits (shape, distinct, conform) =
          subst (Fills k p) (sym (J.inject_several s ss)) (
            shape,
            subst NoRepeat (sym (map-append (λ x. x.ident) ss (s ∷ [])))
                (NoRepeat-snoc s.ident (idents ss) distinct new),
            λ x m. elim (In-append x ss (s ∷ []) m) [
              | inl old ↦ conform x old
              | inr here ↦ only k p s fits x here
            ],
          )
        where
          only :
              (k : Kind) (p : Protocol) (s : Service)
              → IsAllowed p s
              → (x : Service) → In x (s ∷ [])
              → IsAllowed p x
          only k p s fits x (inl same) = subst (IsAllowed p) same fits
          only k p s fits x (inr bad) = absurd bad.1
      inject-Fills k p s (single o) new fits (shape, distinct, conform) =
          subst (Fills k p) (sym (J.inject_single s o)) (
            shape,
            (refl, tt),
            λ x m. elim m [ inl same ↦ subst (IsAllowed p) same fits | inr bad ↦ absurd bad.1 ],
          )

      pub eject-Fills :
          (k : Kind) (p : Protocol) (s : Service) (v : FieldValue)
          → Fills k p v
          → Fills k p (J.eject s v)
      eject-Fills k p s (several ss) (shape, distinct, conform) =
          subst (Fills k p) (sym (J.eject_several s ss)) (
            shape,
            remove_first-NoRepeat s.ident ss distinct,
            λ x m. conform x (remove_first-In s.ident x ss m),
          )
      eject-Fills k p s (single o) (shape, distinct, conform) =
          subst (Fills k p) (sym (J.eject_single s o)) (shape, tt, λ x m. absurd m.1)

      -- A guard that is asked for a new service leaves the field filled, with the service or as it
      -- was.
      pub admit_with-Fills :
          (k : Kind) (s : Service) (g : ContractGuard) (vs : List (String × Violation))
          → validate is_subclass s.attributes g.protocol ≡ vs
          → IsNew s g.field_value
          → Fills k g.protocol g.field_value
          → Fills k g.protocol
              (admit_with is_subclass s vs
                (record g { field_value = J.inject s g.field_value })).1.field_value
      admit_with-Fills k s g [] fits new fills =
          inject-Fills k g.protocol s g.field_value new (inl fits) fills
      admit_with-Fills k s g (v ∷ vs) bad new fills =
          quarantine-Fills k g.protocol s g.field_value new fills

  pub admit_with-protocol :
      (s : Service) (g : ContractGuard) (vs : List (String × Violation))
      → (admit_with is_subclass s vs g).1.protocol ≡ g.protocol
  admit_with-protocol s g [] = refl
  admit_with-protocol s g (v ∷ vs) = refl

  -- One more unchecked service.
  pub grown-IsBound :
      (s : Service) (unchecked : List Service) (gs : Field → ContractGuard)
      → IsBound unchecked gs
      → IsBound (s ∷ unchecked) gs
  grown-IsBound s unchecked gs (filled, models) = (
    λ f.
        let (shape, distinct, allowed) = filled f in
        (
          shape,
          distinct,
          λ x m. elim (allowed x m) [ inl fits ↦ inl fits | inr known ↦ inr (inr known) ],
        ),
    models,
  )
