-- ===== src/Plugin/Validation/Own.antt =====
-- An object with the functions of a protocol itself conforms to it: `validate` of
-- src/langharness_plugin/validation.py.
use langharness.Prelude.{
  ℕ, suc, String, Bool, true, false, ◌&&◌, ◌||◌, List, [], ◌∷◌, map, none, some, string_eq,
  if◌then◌else◌, ◌⊎◌, inl, inr, ◌≡◌, contains, refl, arith, In, NoRepeat, beq_refl, In-contains,
  map-In, All,
}
use mathlib.Core.Path.{subst, subst⁻¹, sym, ap, ◌∙◌}
use langharness.Prelude.Dict.{Dict, lookup, insert, lookup-insert}
use langharness.Plugin.Validation.Annotations.{
  Origin, class_origin, literal_origin, special_origin, Annotation, any_type, missing, class_type,
  other, params, generic, union, Annotations, nil, cons, all_of, any_of, equal, equal_each,
  each_among, is_covered, same_origin, is_literal, annotations_match,
}
use langharness.Plugin.Validation.Fits.{same, annotations_match_iff}
use langharness.Plugin.Validation.Contract.{
  Member, SignatureParameter, ParameterContract, MethodContract, Protocol, method_contract,
  public_functions, describe, by_name, names, accepted, signature_contract, kind_conflict, extras,
  parameter_problems, Instance, function, return_problems, annotation_problem, annotation_problems,
  method_problems, check_actual, check_member, check_expected, check_method, check_methods,
  validate,
}

-- Membership in a list of annotations.
abbrev Among : Annotation → Annotations → Type 0
Among a nil = Unit × ⊥
Among a (cons u us) = (u ≡ a) ⊎ Among a us

same_origin_refl : (o : Origin) → same_origin o o ≡ true
same_origin_refl (class_origin c) = beq_refl c
same_origin_refl literal_origin = refl
same_origin_refl (special_origin s) = beq_refl s

both : {a b : Bool} → a ≡ true → b ≡ true → (a && b) ≡ true
both h k = ground arith

left : {a : Bool} (b : Bool) → a ≡ true → (a || b) ≡ true
left b h = ground arith

any_of-Among :
    (p : Annotation → Bool) (a : Annotation) (us : Annotations)
    → Among a us
    → p a ≡ true
    → any_of p us ≡ true
any_of-Among p a nil m h = absurd m.1
any_of-Among p a (cons u us) (inl here) h = rw (here, h) refl
any_of-Among p a (cons u us) (inr later) h = ground (arith, any_of-Among p a us later h)

all_of-Among :
    (p : Annotation → Bool) (us : Annotations)
    → ((a : Annotation) → Among a us → p a ≡ true)
    → all_of p us ≡ true
all_of-Among p nil h = refl
all_of-Among p (cons u us) h = both (h u (inl refl)) (all_of-Among p us (λ a m. h a (inr m)))

by_literal : (b : Bool) {x y : Bool} → x ≡ true → y ≡ true → (if b then x else y) ≡ true
by_literal true h k = h
by_literal false h k = k

mutual
  unfolding equal

  equal_refl : (a : Annotation) → equal a a ≡ true
  equal_refl any_type = refl
  equal_refl missing = refl
  equal_refl (class_type c) = beq_refl c
  equal_refl (other s) = beq_refl s
  equal_refl (params es) = equal_each_refl es
  equal_refl (generic o es) = both (same_origin_refl o) (
      by_literal (is_literal o)
        (both (each_among_refl es es (λ a m. m))
          (all_of-Among (is_covered es) es (is_covered_refl es)))
        (equal_each_refl es))
  equal_refl (union es) =
      both (each_among_refl es es (λ a m. m)) (all_of-Among (is_covered es) es (is_covered_refl es))

  equal_each_refl : (es : Annotations) → equal_each es es ≡ true
  equal_each_refl nil = refl
  equal_each_refl (cons e es) = ground (arith, equal_refl e, equal_each_refl es)

  each_among_refl :
      (es us : Annotations) → ((a : Annotation) → Among a es → Among a us) → each_among es us ≡ true
  each_among_refl nil us sub = refl
  each_among_refl (cons e es) us sub = ground (
    arith,
    any_of-Among (equal e) e us (sub e (inl refl)) (equal_refl e),
    each_among_refl es us (λ a m. sub a (inr m)),
  )

  is_covered_refl : (es : Annotations) (a : Annotation) → Among a es → is_covered es a ≡ true
  is_covered_refl nil a m = absurd m.1
  is_covered_refl (cons e es) a (inl here) =
      subst (λ b. is_covered (cons e es) b ≡ true) here (left (is_covered es e) (equal_refl e))
  is_covered_refl (cons e es) a (inr later) = ground (arith, is_covered_refl es a later)

annotations_match_refl :
    (is_subclass : String → String → Bool) (c : Bool) (a : Annotation)
    → annotations_match is_subclass c a a ≡ true
annotations_match_refl is_subclass c a =
    (annotations_match_iff is_subclass c a a).1 (same (equal_refl a))

-- The dict of parameters by name.
lookup-by_name_other :
    (n : String) (ps : List ParameterContract) (known : Dict String ParameterContract)
    → contains n (names ps) ≡ false
    → lookup n (by_name ps known) ≡ lookup n known
lookup-by_name_other n [] known h = refl
lookup-by_name_other n (p ∷ ps) known h =
    ground
      (arith, lookup-by_name_other n ps (insert p.name p known), lookup-insert p.name n p known)

pub lookup-by_name :
    (ps : List ParameterContract) (known : Dict String ParameterContract) (p : ParameterContract)
    → NoRepeat (names ps)
    → In p ps
    → lookup p.name (by_name ps known) ≡ some p
lookup-by_name [] known p distinct m = absurd m.1
lookup-by_name (q ∷ ps) known p distinct (inl here) =
    subst (λ r. lookup r.name (by_name ps (insert q.name q known)) ≡ some r) here
      (ground (
        arith,
        lookup-by_name_other q.name ps (insert q.name q known) distinct.0,
        lookup-insert q.name q.name q known,
        beq_refl q.name,
      ))
lookup-by_name (q ∷ ps) known p distinct (inr later) =
    lookup-by_name ps (insert q.name q known) p distinct.1 later

kind_conflict_self : (p : ParameterContract) → kind_conflict p p ≡ []
kind_conflict_self p = ground arith

annotation_problem_self :
    (is_subclass : String → String → Bool) (p : ParameterContract)
    → annotation_problem is_subclass p p ≡ []
annotation_problem_self is_subclass p =
    ground (arith, annotations_match_refl is_subclass false p.annotation)

return_problems_self :
    (is_subclass : String → String → Bool) (a : Annotation) → return_problems is_subclass a a ≡ []
return_problems_self is_subclass any_type = refl
return_problems_self is_subclass missing = refl
return_problems_self is_subclass a = ground (arith, annotations_match_refl is_subclass true a)

module _ (m : MethodContract) (distinct : NoRepeat (names m.parameters)) where
  accepted_self :
      (ps : List ParameterContract)
      → ((p : ParameterContract) → In p ps → In p m.parameters)
      → accepted m ps ≡ []
  accepted_self [] sub = refl
  accepted_self (p ∷ ps) sub =
      rw (lookup-by_name m.parameters [] p distinct (sub p (inl refl)), kind_conflict_self p)
        (accepted_self ps (λ q i. sub q (inr i)))

  extras_self :
      (i : ℕ) (ps : List ParameterContract)
      → ((p : ParameterContract) → In p ps → In p m.parameters)
      → extras m.parameters i ps ≡ []
  extras_self i [] sub = refl
  extras_self i (p ∷ ps) sub = ground (
    arith,
    In-contains p.name (names m.parameters)
        (map-In (λ q. q.name) p m.parameters (sub p (inl refl))),
    extras_self (suc i) ps (λ q j. sub q (inr j)),
  )

  module _ (is_subclass : String → String → Bool) where
    annotation_problems_self :
        (ps : List ParameterContract)
        → ((p : ParameterContract) → In p ps → In p m.parameters)
        → annotation_problems is_subclass (by_name m.parameters []) ps ≡ []
    annotation_problems_self [] sub = refl
    annotation_problems_self (p ∷ ps) sub =
        rw
          (
            lookup-by_name m.parameters [] p distinct (sub p (inl refl)),
            annotation_problem_self is_subclass p,
          )
          (annotation_problems_self ps (λ q i. sub q (inr i)))

    method_problems_self : method_problems is_subclass m m ≡ []
    unfolding method_problems parameter_problems
    method_problems_self =
        rw
          (
            accepted_self m.parameters (λ p i. i),
            extras_self 0 m.parameters (λ p i. i),
            return_problems_self is_subclass m.return_annotation,
          )
          (annotation_problems_self m.parameters (λ p i. i))

-- The object has the function under its name, and the function can be read.
abbrev pub IsOwn : Instance → String × Member → Type 0
IsOwn i f =
    (lookup f.0 i ≡ some (function f.1))
    × ((method_contract f.0 f.1).error ≡ none)
    × NoRepeat (names (method_contract f.0 f.1).parameters)

signature_contract_name :
    (n : String) (m : Member) (s : String ⊎ List SignatureParameter)
    → (signature_contract n m s).name ≡ n
signature_contract_name n m (inl error) = refl
signature_contract_name n m (inr parameters) = refl

-- A method against itself, once its name and the member under it are known.
check_expected_self :
    (is_subclass : String → String → Bool) (i : Instance) (n : String) (m : Member)
    (c : MethodContract)
    → c ≡ method_contract n m
    → c.name ≡ n
    → lookup n i ≡ some (function m)
    → c.error ≡ none
    → NoRepeat (names c.parameters)
    → check_expected is_subclass i c c.error ≡ []
check_expected_self is_subclass i n m c whole same_name here readable distinct =
    let found : lookup c.name i ≡ some (function m) = rw same_name here in
    let again : method_contract c.name m ≡ c =
      ap (λ k. method_contract k m) same_name ∙ sym whole in
    let same_actual : check_actual is_subclass c (method_contract c.name m)
          (method_contract c.name m).error
        ≡ [] =
      subst⁻¹ (λ a. check_actual is_subclass c a a.error ≡ []) again
        (subst⁻¹ (λ e. check_actual is_subclass c c e ≡ []) readable
          (method_problems_self c distinct is_subclass)) in
    subst⁻¹ (λ e. check_expected is_subclass i c e ≡ []) readable
      (subst⁻¹ (λ o. check_member is_subclass c o ≡ []) found same_actual)

module _ (is_subclass : String → String → Bool) (i : Instance) where
  check_method_own :
      (f : String × Member) → IsOwn i f → check_method is_subclass i (method_contract f.0 f.1) ≡ []
  unfolding check_method method_contract
  check_method_own f (here, readable, distinct) =
      check_expected_self is_subclass i f.0 f.1 (method_contract f.0 f.1) refl
        (signature_contract_name f.0 f.1 f.1.signature) here readable distinct

  check_methods_own :
      (fs : List (String × Member))
      → All (IsOwn i) fs
      → check_methods is_subclass i (map (λ f. method_contract f.0 f.1) fs) ≡ []
  check_methods_own [] own = refl
  check_methods_own (f ∷ fs) own = rw (check_method_own f own.0) (check_methods_own fs own.1)

  -- An object that has every public function of a protocol, each with a readable signature of
  -- distinct parameters, has no violations.
  pub validate-own :
      (p : Protocol) → All (IsOwn i) (public_functions p) → validate is_subclass i p ≡ []
  unfolding validate describe
  validate-own p own = check_methods_own (public_functions p) own
