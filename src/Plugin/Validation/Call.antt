-- ===== src/Plugin/Validation/Call.antt =====
-- What `_parameter_problems` of src/langharness_plugin/validation.py rules out: a call with
-- keywords that the contract allows and the implementation refuses.
use mathlib.Core.Path.{subst, subst⁻¹, sym, ap, ◌∙◌}
use langharness.Prelude.{
  ℕ, suc, String, Bool, true, not, ◌&&◌, ◌||◌, List, [], ◌∷◌, ◌++◌, Option, none, some, ◌==◌,
  string_eq, if◌then◌else◌, filter, ◌⊎◌, inl, inr, ◌≡◌, contains, refl, arith, Bool-cases, In,
  NoRepeat, In-contains, contains-In, map-In, In-map, all, filter-In, some_inj,
}
use langharness.Prelude.Dict.{Dict, lookup, insert, lookup-insert}
use langharness.Plugin.Validation.Contract.{
  ParameterContract, MethodContract, by_name, names, accepted, match_problems, is_extra, extras,
  count_positional, parameter_problems, Violation,
}
use langharness.Plugin.Validation.Own.{lookup-by_name}

-- How Python binds keyword arguments: each goes to a parameter that takes its name, or to
-- `**kwargs`, and no parameter without a default is left.
abbrev pub takes_name : MethodContract → String → Bool
takes_name m k = contains k (names (filter (λ p. p.keyword) m.parameters)) || m.takes_kwargs

abbrev pub is_filled : List String → ParameterContract → Bool
is_filled given p = p.has_default || (p.keyword && contains p.name given)

abbrev pub binds : MethodContract → List String → Bool
binds m given = all (takes_name m) given && all (is_filled given) m.parameters

abbrev pub keyword_only : ParameterContract → Bool
keyword_only p = p.keyword && not p.positional

append_eq_nil_left : {A : Type 0} (xs ys : List A) → xs ++ ys ≡ [] → xs ≡ []
append_eq_nil_left [] ys h = refl
append_eq_nil_left (x ∷ xs) ys h = cc

append_eq_nil_right : {A : Type 0} (xs ys : List A) → xs ++ ys ≡ [] → ys ≡ []
append_eq_nil_right [] ys h = h
append_eq_nil_right (x ∷ xs) ys h = cc

all_at : {A : Type 0} (p : A → Bool) (x : A) (xs : List A) → all p xs ≡ true → In x xs → p x ≡ true
all_at p x [] h m = absurd m.1
all_at p x (y ∷ xs) h (inl here) = subst (λ z. p z ≡ true) here (ground arith)
all_at p x (y ∷ xs) h (inr later) = all_at p x xs (ground arith) later

by_name_only :
    (n : String) (q : ParameterContract) (ps : List ParameterContract)
    (known : Dict String ParameterContract)
    → lookup n (by_name ps known) ≡ some q
    → (In q ps × (q.name ≡ n)) ⊎ (lookup n known ≡ some q)
by_name_only n q [] known h = inr h
by_name_only n q (p ∷ ps) known h = elim (by_name_only n q ps (insert p.name p known) h) [
  | inl (i, same) ↦ inl (inr i, same)
  | inr old ↦ elim (Bool-cases (p.name == n)) [
    | inl same ↦
        let written : lookup n (insert p.name p known) ≡ some p =
          rw (lookup-insert p.name n p known, same) refl in
        inl (
          inl (some_inj (sym written ∙ old)),
          ap (λ r. r.name) (some_inj (sym old ∙ written)) ∙ (string_eq.beq_iff p.name n).0 same,
        )
    | inr differ ↦ inr (rw (lookup-insert p.name n p known, differ) at old)
  ]
]

module _ (expected actual : MethodContract) where
  accepted_at :
      (q : ParameterContract) (ps : List ParameterContract)
      → accepted actual ps ≡ []
      → In q ps
      → match_problems actual q (lookup q.name (by_name actual.parameters [])) ≡ []
  accepted_at q [] h m = absurd m.1
  accepted_at q (p ∷ ps) h (inl here) =
      subst (λ r. match_problems actual r (lookup r.name (by_name actual.parameters [])) ≡ []) here
        (append_eq_nil_left _ _ h)
  accepted_at q (p ∷ ps) h (inr later) = accepted_at q ps (append_eq_nil_right _ _ h) later

  takes_matched :
      (q : ParameterContract) (found : Option ParameterContract)
      → lookup q.name (by_name actual.parameters []) ≡ found
      → keyword_only q ≡ true
      → match_problems actual q found ≡ []
      → takes_name actual q.name ≡ true
  takes_matched q none here only h = ground arith
  takes_matched q (some p) here only h = elim (by_name_only q.name p actual.parameters [] here) [
    | inl (i, same) ↦
        let kept : p.keyword ≡ true = ground arith in
        let known : contains p.name (names (filter (λ r. r.keyword) actual.parameters)) ≡ true =
          In-contains p.name (names (filter (λ r. r.keyword) actual.parameters)) (
            map-In (λ r. r.name) p (filter (λ r. r.keyword) actual.parameters)
              (filter-In (λ r. r.keyword) p actual.parameters i kept)) in
        subst (λ k. takes_name actual k ≡ true) same (rw known refl)
    | inr bad ↦ cc
  ]

  takes_names :
      (ps : List ParameterContract)
      → accepted actual ps ≡ []
      → all keyword_only ps ≡ true
      → all (takes_name actual) (names ps) ≡ true
  takes_names [] h only = refl
  takes_names (p ∷ ps) h only =
      let found = lookup p.name (by_name actual.parameters []) in
      ground (
        arith,
        takes_matched p found refl (ground arith)
            (append_eq_nil_left (match_problems actual p found) (accepted actual ps) h),
        takes_names ps (append_eq_nil_right (match_problems actual p found) (accepted actual ps) h)
            (ground arith),
      )

  module _ (distinct : NoRepeat (names actual.parameters))
      (fits : accepted actual expected.parameters ≡ [])
      (only : all keyword_only expected.parameters ≡ true) where
    -- A parameter that both sides have is taken by keyword.
    shared_keyword :
        (p : ParameterContract)
        → In p actual.parameters
        → contains p.name (names expected.parameters) ≡ true
        → p.keyword ≡ true
    shared_keyword p i known =
        let (q, j, same) =
          In-map (λ r. r.name) p.name expected.parameters
            (contains-In p.name (names expected.parameters) known) in
        let found : lookup q.name (by_name actual.parameters []) ≡ some p =
          subst⁻¹ (λ k. lookup k (by_name actual.parameters []) ≡ some p) same
            (lookup-by_name actual.parameters [] p distinct i) in
        let here : match_problems actual q (some p) ≡ [] =
          subst (λ o. match_problems actual q o ≡ []) found
            (accepted_at q expected.parameters fits j) in
        let keyword : keyword_only q ≡ true = all_at keyword_only q expected.parameters only j in
        ground arith

    no_positional :
        (ps : List ParameterContract) → all keyword_only ps ≡ true → count_positional ps ≡ 0
    no_positional [] h = refl
    no_positional (p ∷ ps) h = ground (arith, no_positional ps)

    filled :
        (i : ℕ) (ps : List ParameterContract)
        → ((p : ParameterContract) → In p ps → In p actual.parameters)
        → extras expected.parameters i ps ≡ []
        → all (is_filled (names expected.parameters)) ps ≡ true
    filled i [] sub h = refl
    filled i (p ∷ ps) sub h = ground (
      arith,
      shared_keyword p (sub p (inl refl)),
      no_positional expected.parameters only,
      filled (suc i) ps (λ q j. sub q (inr j))
          (append_eq_nil_right
            (if is_extra expected.parameters i p
              then Violation.param_extra_required p.name ∷ []
              else [])
            (extras expected.parameters (suc i) ps) h),
    )

  -- Where a contract has keyword-only parameters and no problem is found with an implementation
  -- of distinct parameters, a call with all the contract's names binds.
  pub parameter_problems-binds :
      NoRepeat (names actual.parameters)
      → all keyword_only expected.parameters ≡ true
      → parameter_problems expected actual ≡ []
      → binds actual (names expected.parameters) ≡ true
  unfolding parameter_problems
  parameter_problems-binds distinct only h =
      let fits : accepted actual expected.parameters ≡ [] =
        append_eq_nil_left (accepted actual expected.parameters)
          (extras expected.parameters 0 actual.parameters) h in
      ground (
        arith,
        takes_names expected.parameters fits only,
        filled distinct fits only 0 actual.parameters (λ p i. i)
            (append_eq_nil_right (accepted actual expected.parameters)
              (extras expected.parameters 0 actual.parameters) h),
      )
