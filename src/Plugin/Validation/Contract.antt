-- ===== src/Plugin/Validation/Contract.antt =====
-- src/langharness_plugin/validation.py: the shape of a service contract, `describe` without its
-- cache, `_parameter_problems` and `validate`. A member comes with what `inspect.signature` and
-- `get_type_hints` answer for it. The detail of a violation is kept as a value; its text is made
-- from it by a format.
use langharness.Prelude.{
  ℕ, suc, String, Bool, true, false, not, ◌&&◌, ◌||◌, List, [], ◌∷◌, ◌++◌, map, Option, none, some,
  string_eq, if◌then◌else◌, filter, ltb, length, ◌⊎◌, inl, inr, contains,
}
use langharness.Prelude.Dict.{Dict, lookup, insert}
use langharness.Prelude.Text.{codes, starts_with}
use langharness.Plugin.Validation.Annotations.{Annotation, missing, is_wild, annotations_match}

pub data ParameterKind : Type 0 where
  positional_only positional_or_keyword var_positional keyword_only var_keyword : ParameterKind

-- One parameter of a signature.
pub record SignatureParameter : Type 0 where
  pub name : String
  pub kind : ParameterKind
  pub has_default : Bool

-- A function: its signature and its hints, or the exception that reading them raises.
pub record Member : Type 0 where
  pub signature : String ⊎ List SignatureParameter
  pub hints : String ⊎ Dict String Annotation

pub record ParameterContract : Type 0 where
  pub name : String
  pub positional : Bool
  pub keyword : Bool
  pub has_default : Bool
  pub annotation : Annotation

pub record MethodContract : Type 0 where
  pub name : String
  pub parameters : List ParameterContract
  pub takes_args : Bool
  pub takes_kwargs : Bool
  pub return_annotation : Annotation
  pub error : Option String

pub record ProtocolContract : Type 0 where
  pub specification : Option String
  pub name : String
  pub methods : List MethodContract

-- A class of a protocol: `__SPECIFICATION__` where that is a text, and the functions in the order
-- of `inspect.getmembers`.
pub record Protocol : Type 0 where
  pub name : String
  pub specification : Option String
  pub functions : List (String × Member)

-- `_resolve_hints`
abbrev pub resolve_hints : Member → Dict String Annotation × Option String
resolve_hints m = elim m.hints [ inl error ↦ ([], some error) | inr hints ↦ (hints, none) ]

-- `hints.get(name)`
abbrev pub hint : String → Dict String Annotation → Annotation
hint name hints = elim (lookup name hints) [ none ↦ missing | some a ↦ a ]

abbrev pub is_receiver : SignatureParameter → Bool
is_receiver p = contains p.name ("self" ∷ "cls" ∷ [])

abbrev pub is_var_positional : ParameterKind → Bool
is_var_positional var_positional = true
is_var_positional _ = false

abbrev pub is_var_keyword : ParameterKind → Bool
is_var_keyword var_keyword = true
is_var_keyword _ = false

abbrev pub is_positional : ParameterKind → Bool
is_positional positional_only = true
is_positional positional_or_keyword = true
is_positional _ = false

abbrev pub is_keyword : ParameterKind → Bool
is_keyword positional_or_keyword = true
is_keyword keyword_only = true
is_keyword _ = false

abbrev pub parameter_contract : Dict String Annotation → SignatureParameter → ParameterContract
parameter_contract hints p = record {
  name = p.name;
  positional = is_positional p.kind;
  keyword = is_keyword p.kind;
  has_default = p.has_default;
  annotation = hint p.name hints;
}

abbrev pub any_kind : (ParameterKind → Bool) → List SignatureParameter → Bool
any_kind is_kind [] = false
any_kind is_kind (p ∷ ps) = is_kind p.kind || any_kind is_kind ps

abbrev pub read_signature :
    String → Dict String Annotation × Option String → List SignatureParameter → MethodContract
read_signature name (hints, error) all_parameters =
    let parameters = filter (λ p. not (is_receiver p)) all_parameters in
    record {
      name = name;
      parameters =
          map (parameter_contract hints)
            (filter (λ p. not (is_var_positional p.kind || is_var_keyword p.kind)) parameters);
      takes_args = any_kind is_var_positional parameters;
      takes_kwargs = any_kind is_var_keyword parameters;
      return_annotation = hint "return" hints;
      error = error;
    }

abbrev pub signature_contract : String → Member → String ⊎ List SignatureParameter → MethodContract
signature_contract name m (inl error) = record {
  name = name;
  parameters = [];
  takes_args = false;
  takes_kwargs = false;
  return_annotation = missing;
  error = some error;
}
signature_contract name m (inr parameters) = read_signature name (resolve_hints m) parameters

-- `_method_contract`
unfoldable pub method_contract : String → Member → MethodContract
method_contract name m = signature_contract name m m.signature

-- The functions of a protocol whose names do not start with an underscore.
abbrev pub public_functions : Protocol → List (String × Member)
public_functions p = filter (λ f. not (starts_with (codes "_") (codes f.0))) p.functions

-- `describe`
unfoldable pub describe : Protocol → ProtocolContract
unfolding method_contract
describe p = record {
  specification = p.specification;
  name = p.name;
  methods = map (λ f. method_contract f.0 f.1) (public_functions p);
}

pub data Violation : Type 0 where
  unresolved_signature : String → Violation
  missing_method not_callable : Violation
  param_kind_conflict : String → (is_positional : Bool) → Violation
  param_not_accepted param_extra_required : String → Violation
  return_annotation_missing : Annotation → Violation
  return_annotation_mismatch : (actual expected : Annotation) → Violation
  param_annotation_mismatch : String → (actual expected : Annotation) → Violation

-- `{parameter.name: parameter for parameter in parameters}`
abbrev pub by_name :
    List ParameterContract → Dict String ParameterContract → Dict String ParameterContract
by_name [] known = known
by_name (p ∷ ps) known = by_name ps (insert p.name p known)

abbrev pub kind_conflict : ParameterContract → ParameterContract → List Violation
kind_conflict p found =
    if (p.positional && not found.positional) || (p.keyword && not found.keyword)
    then param_kind_conflict p.name (p.positional && not found.positional) ∷ []
    else []

-- A parameter of the contract that the implementation has no parameter for.
abbrev pub unmatched : MethodContract → ParameterContract → List Violation
unmatched actual p =
    if (p.positional && actual.takes_args) || (p.keyword && actual.takes_kwargs)
    then []
    else param_not_accepted p.name ∷ []

abbrev pub match_problems :
    MethodContract → ParameterContract → Option ParameterContract → List Violation
match_problems actual p none = unmatched actual p
match_problems actual p (some found) = kind_conflict p found

abbrev pub accepted : MethodContract → List ParameterContract → List Violation
accepted actual [] = []
accepted actual (p ∷ ps) =
    match_problems actual p (lookup p.name (by_name actual.parameters [])) ++ accepted actual ps

abbrev pub names : List ParameterContract → List String
names = map (λ p. p.name)

abbrev pub count_positional : List ParameterContract → ℕ
count_positional ps = length (filter (λ p. p.positional) ps)

-- A parameter of the implementation, at this index, that callers by the contract do not fill.
abbrev pub is_extra : List ParameterContract → ℕ → ParameterContract → Bool
is_extra expected index p =
    not (contains p.name (names expected) || p.has_default)
    && not (p.positional && ltb index (count_positional expected))

abbrev pub extras : List ParameterContract → ℕ → List ParameterContract → List Violation
extras expected index [] = []
extras expected index (p ∷ ps) =
    (if is_extra expected index p then param_extra_required p.name ∷ [] else [])
    ++ extras expected (suc index) ps

-- `_parameter_problems`
unfoldable pub parameter_problems : MethodContract → MethodContract → List Violation
parameter_problems expected actual =
    accepted actual expected.parameters ++ extras expected.parameters 0 actual.parameters

-- `getattr(instance, name, None)`: a function, or a value that cannot be called.
pub data Attribute : Type 0 where
  function : Member → Attribute
  plain_value : Attribute

abbrev pub Instance : Type 0
Instance = Dict String Attribute

abbrev pub is_missing : Annotation → Bool
is_missing missing = true
is_missing _ = false

module _ (is_subclass : String → String → Bool) where
  abbrev pub return_problems : Annotation → Annotation → List Violation
  return_problems expected actual =
      if is_wild expected
      then []
      else (if is_missing actual
          then return_annotation_missing expected ∷ []
          else (if annotations_match is_subclass true expected actual
              then []
              else return_annotation_mismatch actual expected ∷ []))

  abbrev pub annotation_problem : ParameterContract → ParameterContract → List Violation
  annotation_problem p found =
      if is_missing p.annotation
        || annotations_match is_subclass false p.annotation found.annotation
      then []
      else param_annotation_mismatch p.name found.annotation p.annotation ∷ []

  abbrev pub annotation_problems :
      Dict String ParameterContract → List ParameterContract → List Violation
  annotation_problems known [] = []
  annotation_problems known (p ∷ ps) =
      elim (lookup p.name known) [ none ↦ [] | some found ↦ annotation_problem p found ]
      ++ annotation_problems known ps

  -- The checks of a method whose signature is known on both sides.
  unfoldable pub method_problems : MethodContract → MethodContract → List Violation
  unfolding parameter_problems
  method_problems expected actual =
      parameter_problems expected actual
      ++ return_problems expected.return_annotation actual.return_annotation
      ++ annotation_problems (by_name actual.parameters []) expected.parameters

  abbrev pub check_actual : MethodContract → MethodContract → Option String → List Violation
  check_actual expected actual (some error) = unresolved_signature error ∷ []
  check_actual expected actual none = method_problems expected actual

  abbrev pub check_member : MethodContract → Option Attribute → List Violation
  check_member expected none = missing_method ∷ []
  check_member expected (some plain_value) = not_callable ∷ []
  check_member expected (some (function m)) =
      let actual = method_contract expected.name m in check_actual expected actual actual.error

  abbrev pub check_expected : Instance → MethodContract → Option String → List Violation
  check_expected i expected (some error) = unresolved_signature error ∷ []
  check_expected i expected none = check_member expected (lookup expected.name i)

  -- The violations of one method of the contract.
  unfoldable pub check_method : Instance → MethodContract → List Violation
  unfolding method_problems method_contract
  check_method i expected = check_expected i expected expected.error

  -- Each violation under the name of its method.
  abbrev pub check_methods : Instance → List MethodContract → List (String × Violation)
  check_methods i [] = []
  check_methods i (e ∷ es) = map (λ v. (e.name, v)) (check_method i e) ++ check_methods i es

  -- `validate`
  unfoldable pub validate : Instance → Protocol → List (String × Violation)
  unfolding check_method describe
  validate i p = check_methods i (describe p).methods
