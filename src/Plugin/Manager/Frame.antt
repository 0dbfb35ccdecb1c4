-- ===== src/Plugin/Manager/Frame.antt =====
-- Calls that leave a part of the state as it is, whether they raise or not: a calculus for the
-- frame conditions on src/langharness_plugin/plugin_manager.py and
-- src/langharness_plugin/coordinator.py.
use mathlib.Core.Path.{sym, ap, ◌∙◌}
use langharness.Prelude.{
  Bool, true, false, ◌≡◌, refl, Option, none, some, Result, ok, err, Error, Action, raise, gets,
  or_raise, ◌>>=◌, ◌≢◌, ◌⊎◌, inl, inr, if◌then◌else◌,
}
use langharness.Plugin.Manager.{on_error}

module _ {S V : Type 0} (view : S → V) where
  pub record Still {A : Type 0} (a : Action S A) : Type 0 where
    pub still : (s : S) → view (a s).1 ≡ view s

  pub bind-Still :
      {A B : Type 0} (a : Action S A) (f : A → Action S B)
      → Still a
      → ((x : A) → Still (f x))
      → Still (a >>= f)
  bind-Still {A} {B} a f ha hf = record { still = λ s. go (a s).0 (a s).1 ∙ ha.still s }
    where
      go :
          (r : Result A) (s : S)
          → view (elim r as (λ _. Result B × S) [ ok x ↦ f x s | err e ↦ (err e, s) ]).1 ≡ view s
      go (ok x) s = (hf x).still s
      go (err e) s = refl

  pub error-Still :
      {A : Type 0} (a : Action S A) (cleanup : Action S (Unit {0}))
      → Still a
      → Still cleanup
      → Still (on_error a cleanup)
  error-Still {A} a cleanup ha hc = record { still = λ s. go (a s).0 (a s).1 ∙ ha.still s }
    where
      go :
          (r : Result A) (s : S)
          → view
              (elim r as (λ _. Result A × S) [
                | ok x ↦ (ok x, s)
                | err e ↦ (cleanup >>= λ _. raise e) s
              ]).1
            ≡ view s
      go (ok x) s = refl
      go (err e) s =
          (bind-Still cleanup (λ _. raise e) hc (λ _. record { still = λ s. refl })).still s

  pub branch-Still :
      {A : Type 0} (b : Bool) (a c : Action S A) → Still a → Still c → Still (if b then a else c)
  branch-Still true a c ha hc = ha
  branch-Still false a c ha hc = hc

  pub found-Still :
      {A B : Type 0} (look : S → Option A) (e : Error) (f : A → Action S B)
      → ((x : A) → Still (f x))
      → Still (gets look >>= λ o. or_raise o e >>= f)
  found-Still {A} look e f hf = record { still = λ s. go s (look s) }
    where
      go : (s : S) (o : Option A) → view ((or_raise o e >>= f) s).1 ≡ view s
      go s none = refl
      go s (some x) = (hf x).still s

-- A chain either stops at its first call or goes on from where that ended.
pub bind_cases :
    {S A B : Type 0} (a : Action S A) (f : A → Action S B) (s : S)
    → ((e : Error) × (t : S) × (a s ≡ (err e, t)) × ((a >>= f) s ≡ (err e, t)))
      ⊎ ((x : A) × (t : S) × (a s ≡ (ok x, t)) × ((a >>= f) s ≡ f x t))
bind_cases {S} {A} {B} a f s = go (a s) refl
  where
    rest : Result A × S → Result B × S
    rest p = elim p.0 as (λ _. Result B × S) [ ok x ↦ f x p.1 | err e ↦ (err e, p.1) ]

    go :
        (p : Result A × S)
        → a s ≡ p
        → ((e : Error) × (t : S) × (a s ≡ (err e, t)) × ((a >>= f) s ≡ (err e, t)))
          ⊎ ((x : A) × (t : S) × (a s ≡ (ok x, t)) × ((a >>= f) s ≡ f x t))
    go (ok x, t) same = inr (x, t, same, ap rest same)
    go (err e, t) same = inl (e, t, same, ap rest same)

pub err_ne_ok : {A : Type 0} {e : Error} {a : A} → err e ≢ ok a
err_ne_ok h = cc

-- A chain that answers has gone on from where its first call ended.
pub answered :
    {S A B : Type 0} (a : Action S A) (f : A → Action S B) (s : S) (b : B)
    → ((a >>= f) s).0 ≡ ok b
    → (x : A) × (t : S) × (a s ≡ (ok x, t)) × ((a >>= f) s ≡ f x t)
answered a f s b h = elim (bind_cases a f s) [
  | inl (e, t, stopped, whole) ↦ absurd (err_ne_ok (sym (ap (λ p. p.0) whole) ∙ h))
  | inr (x, t, went, whole) ↦ (x, t, went, whole)
]

-- Calls whose answers, if any, have a property.
abbrev pub OfResult : {A : Type 0} → (A → Type 0) → Result A → Type 0
OfResult P (ok x) = P x
OfResult P (err e) = Unit

module _ {S A : Type 0} (P : A → Type 0) where
  pub record Answers (a : Action S A) : Type 0 where
    pub answers : (s : S) → OfResult P (a s).0

  pub bind-Answers :
      {B : Type 0} (a : Action S B) (f : B → Action S A)
      → ((x : B) → Answers (f x))
      → Answers (a >>= f)
  bind-Answers {B} a f hf = record { answers = λ s. go (a s).0 (a s).1 }
    where
      go :
          (r : Result B) (s : S)
          → OfResult P (elim r as (λ _. Result A × S) [ ok x ↦ f x s | err e ↦ (err e, s) ]).0
      go (ok x) s = (hf x).answers s
      go (err e) s = tt

  pub found-Answers :
      {B : Type 0} (look : S → Option B) (e : Error) (f : B → Action S A)
      → ((x : B) → Answers (f x))
      → Answers (gets look >>= λ o. or_raise o e >>= f)
  found-Answers {B} look e f hf = record { answers = λ s. go s (look s) }
    where
      go : (s : S) (o : Option B) → OfResult P ((or_raise o e >>= f) s).0
      go s none = tt
      go s (some x) = (hf x).answers s
