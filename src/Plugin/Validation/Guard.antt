-- ===== src/Plugin/Validation/Guard.antt =====
-- src/langharness_plugin/validation.py: `_quarantine` and `ContractGuard`, on the field of a
-- component that holds one service or a list of services.
use mathlib.Core.Path.{subst⁻¹, sym, ap, ◌∙◌}
use mathlib.Core.Bool.{false≢true}
use langharness.Prelude.{
  ℕ, String, Bool, true, false, List, [], ◌∷◌, map, Option, none, some, ◌==◌, string_eq, nat_eq,
  if◌then◌else◌, ◌≡◌, ◌≢◌, refl, Bool-cases, In, ◌⊎◌, inl, inr, NoRepeat, contains, ◌↔◌,
  In-contains, map-In,
}
use langharness.Prelude.Dict.{Dict, insert, erase}
use langharness.Plugin.Validation.Contract.{Instance, Protocol, Violation, validate}

-- A service object with its identity, `id(service)`.
pub record Service : Type 0 where
  pub ident : ℕ
  pub attributes : Instance

pub data FieldValue : Type 0 where
  single : Option Service → FieldValue
  several : List Service → FieldValue

-- The guard of one field, with the field itself.
pub record ContractGuard : Type 0 where
  pub field_value : FieldValue
  pub protocol : Protocol
  pub rejected : Dict ℕ (List (String × Violation))

abbrev pub remove_first : ℕ → List Service → List Service
remove_first k [] = []
remove_first k (s ∷ ss) = if s.ident == k then ss else s ∷ remove_first k ss

-- `_quarantine`
unfoldable pub quarantine : Service → FieldValue → FieldValue
quarantine service (several ss) = several (remove_first service.ident ss)
quarantine service (single none) = single none
quarantine service (single (some s)) =
    if s.ident == service.ident then single none else single (some s)

abbrev pub held : FieldValue → List Service
held (single none) = []
held (single (some s)) = s ∷ []
held (several ss) = ss

∷≢[] : {A : Type 0} {x : A} {xs : List A} → x ∷ xs ≢ []
∷≢[] h = cc

module _ (is_subclass : String → String → Bool) where
  abbrev pub admit_with : Service → List (String × Violation) → ContractGuard → Bool × ContractGuard
  admit_with service [] g = (true, g)
  admit_with service (v ∷ vs) g = (
    false,
    record g {
      rejected = insert service.ident (v ∷ vs) g.rejected;
      field_value = quarantine service g.field_value;
    },
  )

  unfoldable pub admit : Service → ContractGuard → Bool × ContractGuard
  unfolding quarantine
  admit service g = admit_with service (validate is_subclass service.attributes g.protocol) g

  unfoldable pub release : Service → ContractGuard → ContractGuard
  release service g = record g { rejected = erase service.ident g.rejected }

  abbrev pub Conforms : Protocol → Service → Type 0
  Conforms p s = validate is_subclass s.attributes p ≡ []

  -- The first part of a call of `admit`: what stays in the field.
  remove_first_left :
      (k : ℕ) (x : Service) (ss : List Service)
      → NoRepeat (map (λ s. s.ident) ss)
      → In x (remove_first k ss)
      → In x ss × (x.ident ≢ k)
  remove_first_left k x [] distinct m = absurd m.1
  remove_first_left k x (s ∷ ss) distinct m = elim (Bool-cases (s.ident == k)) [
    | inl same ↦
        let i : In x ss = rw same at m in
        let listed : contains x.ident (map (λ r. r.ident) ss) ≡ true =
          In-contains x.ident (map (λ r. r.ident) ss) (map-In (λ r. r.ident) x ss i) in
        let head : s.ident ≡ k = (nat_eq.beq_iff s.ident k).0 same in
        (
          inr i,
          λ clash. false≢true (
              sym distinct.0
              ∙ subst⁻¹ (λ n. contains n (map (λ r. r.ident) ss) ≡ true) (head ∙ sym clash) listed),
        )
    | inr other ↦
        let n : In x (s ∷ remove_first k ss) = rw other at m in
        elim n [
          | inl here ↦ (
            inl here,
            λ clash.
                false≢true
                  (sym other ∙ (nat_eq.beq_iff s.ident k).1 (ap (λ r. r.ident) here ∙ clash)),
          )
          | inr later ↦
              let (i, differ) = remove_first_left k x ss distinct.1 later in (inr i, differ)
        ]
  ]

  single_left :
      (service x s : Service) (b : Bool)
      → (s.ident == service.ident) ≡ b
      → In x (held (if b then single none else single (some s)))
      → In x (s ∷ []) × (x.ident ≢ service.ident)
  single_left service x s true same m = absurd m.1
  single_left service x s false other (inl here) = (
    inl here,
    λ clash.
        false≢true
          (sym other ∙ (nat_eq.beq_iff s.ident service.ident).1 (ap (λ r. r.ident) here ∙ clash)),
  )
  single_left service x s false other (inr bad) = absurd bad.1

  quarantine_left :
      (service x : Service) (f : FieldValue)
      → NoRepeat (map (λ s. s.ident) (held f))
      → In x (held (quarantine service f))
      → In x (held f) × (x.ident ≢ service.ident)
  unfolding quarantine
  quarantine_left service x (several ss) distinct m =
      remove_first_left service.ident x ss distinct m
  quarantine_left service x (single none) distinct m = absurd m.1
  quarantine_left service x (single (some s)) distinct m =
      single_left service x s (s.ident == service.ident) refl m

  admit_with-Conforms :
      (service : Service) (g : ContractGuard) (vs : List (String × Violation))
      → validate is_subclass service.attributes g.protocol ≡ vs
      → NoRepeat (map (λ s. s.ident) (held g.field_value))
      → ((x : Service) → In x (held g.field_value) → (x ≡ service) ⊎ Conforms g.protocol x)
      → (((admit_with service vs g).0 ≡ true) ↔ Conforms g.protocol service)
        × ((x : Service)
            → In x (held (admit_with service vs g).1.field_value)
            → Conforms g.protocol x)
  admit_with-Conforms service g [] good distinct others = (
    (λ _. good, λ _. refl),
    λ x m. elim (others x m) [
      | inl same ↦ subst⁻¹ (Conforms g.protocol) same good
      | inr fine ↦ fine
    ],
  )
  admit_with-Conforms service g (v ∷ vs) bad distinct others = (
    (λ yes. absurd (false≢true yes), λ good. absurd (∷≢[] (sym bad ∙ good))),
    λ x m.
        let (i, differ) = quarantine_left service x g.field_value distinct m in
        elim (others x i) [ inl same ↦ absurd (differ (ap (λ r. r.ident) same)) | inr fine ↦ fine ],
  )

  -- Where all services of a field but the given one conform, each there once, `admit` answers
  -- whether the given one conforms, and all services then left in the field conform.
  pub admit-Conforms :
      (service : Service) (g : ContractGuard)
      → NoRepeat (map (λ s. s.ident) (held g.field_value))
      → ((x : Service) → In x (held g.field_value) → (x ≡ service) ⊎ Conforms g.protocol x)
      → (((admit service g).0 ≡ true) ↔ Conforms g.protocol service)
        × ((x : Service) → In x (held (admit service g).1.field_value) → Conforms g.protocol x)
  unfolding admit
  admit-Conforms service g distinct others =
      admit_with-Conforms service g (validate is_subclass service.attributes g.protocol) refl
        distinct others
