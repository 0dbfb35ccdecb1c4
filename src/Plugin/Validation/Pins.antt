-- ===== src/Plugin/Validation/Pins.antt =====
-- src/langharness_plugin/validation.py: the two tables of the module, `CONTRACTS` and
-- `_CONTRACT_CACHE`, with `service_contract`, `contract_for` and the cache of `describe`, and
-- `is_runtime_scope`. A class is known by its identity.
use mathlib.Core.Path.{subst⁻¹, sym, ap, ◌∙◌}
use langharness.Prelude.{
  ℕ, String, Bool, false, not, ◌&&◌, ◌||◌, List, [], ◌∷◌, Option, none, some, ok, err, value_error,
  Action, ◌==◌, string_eq, nat_eq, if◌then◌else◌, ◌≡◌, refl, arith, contains, Option-cases, inl,
  inr, some_inj, Bool-cases, ltb, length,
}
use langharness.Prelude.Dict.{Dict, lookup, insert, lookup-insert}
use langharness.Prelude.Text.{codes, starts_with}
use langharness.Plugin.Validation.Contract.{Protocol, ProtocolContract, describe}

pub record Tables : Type 0 where
  pub contracts : Dict String ℕ
  pub cache : Dict ℕ ProtocolContract

-- `existing is not None and existing is not cls`
abbrev pub is_other : Option ℕ → ℕ → Bool
is_other none cls = false
is_other (some existing) cls = not (existing == cls)

-- `service_contract(specification)` applied to a class.
unfoldable pub service_contract : String → ℕ → Action Tables (Unit {0})
service_contract specification cls t =
    if is_other (lookup specification t.contracts) cls
    then (err value_error, t)
    else (ok tt, record t { contracts = insert specification cls t.contracts })

-- `contract_for`
unfoldable pub contract_for : String → Tables → Option ℕ
contract_for specification t = lookup specification t.contracts

module _ (class_of : ℕ → Protocol) where
  abbrev pub describe_found : ℕ → Option ProtocolContract → Tables → ProtocolContract × Tables
  describe_found cls (some cached) t = (cached, t)
  describe_found cls none t =
      let contract = describe (class_of cls) in
      (contract, record t { cache = insert cls contract t.cache })

  -- `describe` with its cache.
  unfoldable pub describe_cached : ℕ → Tables → ProtocolContract × Tables
  describe_cached cls t = describe_found cls (lookup cls t.cache) t

  pub data PinCall : Type 0 where
    pin : String → ℕ → PinCall
    describe_call : ℕ → PinCall

  abbrev pub step : PinCall → Tables → Tables
  step (pin specification cls) t = (service_contract specification cls t).1
  step (describe_call cls) t = (describe_cached cls t).1

  abbrev pub run : List PinCall → Tables → Tables
  run [] t = t
  run (c ∷ cs) t = run cs (step c t)

  service_contract-keeps :
      (s specification : String) (old cls : ℕ) (t : Tables)
      → contract_for s t ≡ some old
      → contract_for s (service_contract specification cls t).1 ≡ some old
  unfolding service_contract contract_for
  service_contract-keeps s specification old cls t h =
      elim (Bool-cases (is_other (lookup specification t.contracts) cls)) [
        | inl refused ↦ rw refused h
        | inr allowed ↦
            rw (allowed, lookup-insert specification s cls t.contracts)
              (elim (Bool-cases (specification == s)) [
                | inl same ↦
                    let eq : specification ≡ s = (string_eq.beq_iff specification s).0 same in
                    let here : lookup specification t.contracts ≡ some old = rw eq h in
                    ground (arith, here, nat_eq.beq_iff old cls)
                | inr other ↦ rw other h
              ])
      ]

  -- The cache holds what `describe` computes.
  abbrev pub IsCacheOf : Dict ℕ ProtocolContract → Type 0
  IsCacheOf cache =
      (cls : ℕ) (c : ProtocolContract) → lookup cls cache ≡ some c → c ≡ describe (class_of cls)

  abbrev pub IsCache : Tables → Type 0
  IsCache t = IsCacheOf t.cache

  service_contract-cache :
      (specification : String) (cls : ℕ) (t : Tables)
      → (service_contract specification cls t).1.cache ≡ t.cache
  unfolding service_contract
  service_contract-cache specification cls t = ground arith

  entered :
      (cls : ℕ) (t : Tables)
      → IsCache t
      → IsCache (record t { cache = insert cls (describe (class_of cls)) t.cache })
  entered cls t valid other c h = elim (Bool-cases (cls == other)) [
    | inl same ↦
        let eq : cls ≡ other = (nat_eq.beq_iff cls other).0 same in
        some_inj (sym h ∙ rw (lookup-insert cls other (describe (class_of cls)) t.cache, same) refl)
        ∙ ap (λ k. describe (class_of k)) eq
    | inr differ ↦
        valid other c (rw (lookup-insert cls other (describe (class_of cls)) t.cache, differ) at h)
  ]

  describe_found-IsCache :
      (cls : ℕ) (t : Tables) → IsCache t → IsCache (describe_found cls (lookup cls t.cache) t).1
  describe_found-IsCache cls t valid = elim (Option-cases (lookup cls t.cache)) [
    | inl missing ↦ subst⁻¹ (λ o. IsCache (describe_found cls o t).1) missing (entered cls t valid)
    | inr (c, found) ↦ subst⁻¹ (λ o. IsCache (describe_found cls o t).1) found valid
  ]

  step-IsCache : (c : PinCall) (t : Tables) → IsCache t → IsCache (step c t)
  unfolding describe_cached service_contract
  step-IsCache (describe_call cls) t valid = describe_found-IsCache cls t valid
  step-IsCache (pin specification cls) t valid =
      subst⁻¹ IsCacheOf (service_contract-cache specification cls t) valid

  step-contract_for :
      (c : PinCall) (s : String) (old : ℕ) (t : Tables)
      → contract_for s t ≡ some old
      → contract_for s (step c t) ≡ some old
  unfolding describe_cached contract_for
  step-contract_for (pin specification cls) s old t h =
      service_contract-keeps s specification old cls t h
  step-contract_for (describe_call cls) s old t h =
      ground (arith, Option-cases (lookup cls t.cache))

  describe_found-describe :
      (cls : ℕ) (t : Tables) (o : Option ProtocolContract)
      → lookup cls t.cache ≡ o
      → IsCache t
      → (describe_found cls o t).0 ≡ describe (class_of cls)
  describe_found-describe cls t none h valid = refl
  describe_found-describe cls t (some c) h valid = valid cls c h

  -- From tables with a cache in step, after any sequence of calls a specification that was pinned
  -- is pinned to the same class still, and the cached `describe` answers what is computed anew.
  pub run-pinned :
      (cs : List PinCall) (s : String) (old cls : ℕ) (t : Tables)
      → IsCache t
      → contract_for s t ≡ some old
      → (contract_for s (run cs t) ≡ some old)
        × ((describe_cached cls (run cs t)).0 ≡ describe (class_of cls))
  unfolding describe_cached
  run-pinned [] s old cls t valid h =
      (h, describe_found-describe cls t (lookup cls t.cache) refl valid)
  run-pinned (c ∷ cs) s old cls t valid h =
      run-pinned cs s old cls (step c t) (step-IsCache c t valid) (step-contract_for c s old t h)

abbrev pub runtime_scopes : List String
runtime_scopes = "root" ∷ "server" ∷ "ui" ∷ "agent" ∷ []

unfoldable pub is_runtime_scope : String → Bool
is_runtime_scope value =
    contains value runtime_scopes
    || (starts_with (codes "agent:") (codes value)
        && ltb (length (codes "agent:")) (length (codes value)))
