-- ===== src/Plugin/Manager/Keeps.antt =====
-- What the steps of `PluginManager` of src/langharness_plugin/plugin_manager.py leave of the
-- definitions and the instances: a calculus for properties of the two.
use langharness.Prelude.{
  ℕ, String, Bool, true, false, ◌≡◌, refl, Option, none, some, Result, ok, err, Error, Action,
  raise, gets, raise_if, or_raise, ◌>>=◌, ◌>>◌, if◌then◌else◌,
}
use langharness.Prelude.Dict.{Dict}
use langharness.Plugin.Registry.{PluginDescriptor}
use langharness.Plugin.Manager.{
  Key, PluginInstanceSnapshot, RuntimeStateStore, Framework, Manager, on_error, persist_state,
  stored_version, snapshot_of,
}

module _ (R : RuntimeStateStore) (F : Framework)
    (P : Dict Key PluginDescriptor → Dict String PluginInstanceSnapshot → Type 0) where
  abbrev pub Holds : Manager R F → Type 0
  Holds m = P m.plugins m.instances

  -- The action keeps the property, whether it raises or not.
  pub record Keeps {A : Type 0} (a : Action (Manager R F) A) : Type 0 where
    pub kept : (m : Manager R F) → Holds m → Holds (a m).1

  pub bind-Keeps :
      {A B : Type 0} (a : Action (Manager R F) A) (f : A → Action (Manager R F) B)
      → Keeps a
      → ((x : A) → Keeps (f x))
      → Keeps (a >>= f)
  bind-Keeps {A} {B} a f ha hf = record { kept = λ m h. go (a m).0 (a m).1 (ha.kept m h) }
    where
      go :
          (r : Result A) (m' : Manager R F)
          → Holds m'
          → Holds
              (elim r as (λ _. Result B × Manager R F) [ ok x ↦ f x m' | err e ↦ (err e, m') ]).1
      go (ok x) m' h' = (hf x).kept m' h'
      go (err e) m' h' = h'

  pub found-Keeps :
      {A B : Type 0} (look : Manager R F → Option A) (e : Error) (f : A → Action (Manager R F) B)
      → ((x : A) (m : Manager R F) → look m ≡ some x → Holds m → Holds (f x m).1)
      → Keeps (gets look >>= λ o. or_raise o e >>= f)
  found-Keeps {A} look e f hf = record { kept = λ m h. go m h (look m) refl }
    where
      go :
          (m : Manager R F)
          → Holds m
          → (o : Option A) → look m ≡ o
          → Holds ((or_raise o e >>= f) m).1
      go m h none q = h
      go m h (some x) q = hf x m q h

  pub look-Keeps :
      {A B : Type 0} (look : Manager R F → A) (f : A → Action (Manager R F) B)
      → ((m : Manager R F) → Holds m → Holds (f (look m) m).1)
      → Keeps (gets look >>= f)
  look-Keeps look f hf = record { kept = λ m h. hf m h }

  pub guard-Keeps :
      {A B : Type 0} (look : Manager R F → A) (test : A → Bool) (e : Error)
      (f : Action (Manager R F) B)
      → ((m : Manager R F) → test (look m) ≡ false → Holds m → Holds (f m).1)
      → Keeps (gets look >>= λ a. raise_if (test a) e >> f)
  guard-Keeps {A} {B} look test e f hf = record { kept = λ m h. go m h (test (look m)) refl }
    where
      go :
          (m : Manager R F)
          → Holds m
          → (c : Bool) → test (look m) ≡ c
          → Holds ((raise_if c e >> f) m).1
      go m h true q = h
      go m h false q = hf m q h

  pub error-Keeps :
      {A : Type 0} (a : Action (Manager R F) A) (cleanup : Action (Manager R F) (Unit {0}))
      → Keeps a
      → Keeps cleanup
      → Keeps (on_error a cleanup)
  error-Keeps {A} a cleanup ha hc = record { kept = λ m h. go (a m).0 (a m).1 (ha.kept m h) }
    where
      go :
          (r : Result A) (m' : Manager R F)
          → Holds m'
          → Holds
              (elim r as (λ _. Result A × Manager R F) [
                | ok x ↦ (ok x, m')
                | err e ↦ (cleanup >> raise e) m'
              ]).1
      go (ok x) m' h' = h'
      go (err e) m' h' =
          (bind-Keeps cleanup (λ _. raise e) hc (λ _. record { kept = λ m'' h''. h'' })).kept m' h'

  pub branch-Keeps :
      {A : Type 0} (c : Bool) (a b : Action (Manager R F) A)
      → Keeps a
      → Keeps b
      → Keeps (if c then a else b)
  branch-Keeps true a b ha hb = ha
  branch-Keeps false a b ha hb = hb

  pub persist-Keeps : Keeps (persist_state R F)
  unfolding persist_state
  persist-Keeps = record {
    kept = λ m h. saved m h (λ st. R.save (snapshot_of R F m) m.state_version st) m.state_store;
  }
    where
      entered :
          (m : Manager R F) → Holds m → (p : Result ℕ × R.State) → Holds (stored_version R F m p).1
      entered m h (ok v, st) = h
      entered m h (err e, st) = h

      saved :
          (m : Manager R F)
          → Holds m
          → (save : R.State → Result ℕ × R.State) (o : Option R.State)
          → Holds
              (elim o as (λ _. Result (Unit {0}) × Manager R F) [
                | none ↦ (ok tt, m)
                | some st ↦ stored_version R F m (save st)
              ]).1
      saved m h save none = h
      saved m h save (some st) = entered m h (save st)
