-- ===== src/Plugin/ValidationTests.antt =====
-- The theorems on src/langharness_plugin/validation.py at a protocol of one method with a
-- keyword-only parameter.
use langharness.Prelude.{
  String, Bool, true, false, [], ◌∷◌, some, ◌≡◌, refl, inl, inr, string_eq, nat_eq, ◌==◌,
  if◌then◌else◌, ◌↔◌, In, ◌⊎◌, length,
}
use mathlib.Core.Path.{subst, sym}
use langharness.Plugin.Validation.Annotations.{
  Annotation, class_type, generic, union, cons, nil, class_origin, annotations_match, match_within,
  shapes_match, parts_match, equal, size, any_type,
}
use langharness.Plugin.Validation.Fits.{Fits, annotations_match_iff}
use langharness.Plugin.Validation.Contract.{
  Member, Protocol, keyword_only, positional_or_keyword, SignatureParameter, Instance, function,
  plain_value, validate, check_method, method_problems, method_contract, describe,
  parameter_problems,
}
use langharness.Plugin.Validation.Own.{validate-own}
use langharness.Plugin.Validation.Call.{binds, parameter_problems-binds}
use langharness.Plugin.Validation.Guard.{
  Service, several, ContractGuard, admit, Conforms, held, admit-Conforms,
}
use langharness.Plugin.Validation.Pins.{Tables, is_runtime_scope}

-- `bool` is a subclass of `int`, and `dict` of `Mapping`.
abbrev is_subclass : String → String → Bool
is_subclass c d =
    if c == "bool" then d == "int" else (if c == "dict" then d == "Mapping" else false)

abbrev optional_int : Annotation
optional_int = union (cons (class_type "int") (cons (class_type "NoneType") nil))

abbrev mapping : Annotation
mapping = generic (class_origin "Mapping") (cons (class_type "str") (cons any_type nil))

abbrev dict : Annotation
dict = generic (class_origin "dict") (cons (class_type "str") (cons (class_type "int") nil))

annotations_match_tests :
    (annotations_match is_subclass true mapping dict ≡ true)
    × (annotations_match is_subclass false mapping dict ≡ false)
    × (annotations_match is_subclass true optional_int (class_type "bool") ≡ true)
    × (annotations_match is_subclass false optional_int (class_type "int") ≡ false)
    × (annotations_match is_subclass false (class_type "int") optional_int ≡ true)
unfolding annotations_match match_within shapes_match parts_match equal size
annotations_match_tests = (refl, refl, refl, refl, refl)

annotations_match_iff_example :
    (annotations_match is_subclass true mapping dict ≡ true) ↔ Fits is_subclass true mapping dict
annotations_match_iff_example = annotations_match_iff is_subclass true mapping dict

abbrev receiver : SignatureParameter
receiver = record { name = "self"; kind = positional_or_keyword; has_default = false }

abbrev query : SignatureParameter
query = record { name = "query"; kind = keyword_only; has_default = false }

abbrev extra : SignatureParameter
extra = record { name = "limit"; kind = keyword_only; has_default = true }

abbrev search : Member
search = record {
  signature = inr (receiver ∷ query ∷ []);
  hints = inr (("query", class_type "str") ∷ ("return", mapping) ∷ []);
}

abbrev wider : Member
wider = record {
  signature = inr (receiver ∷ extra ∷ query ∷ []);
  hints = inr (("query", class_type "str") ∷ ("return", dict) ∷ []);
}

abbrev searching : Protocol
searching = record {
  name = "Searching";
  specification = some "search";
  functions = ("_private", search) ∷ ("search", search) ∷ [];
}

abbrev own : Instance
own = ("search", function search) ∷ []

abbrev other : Instance
other = ("search", function wider) ∷ []

abbrev broken : Instance
broken = ("search", plain_value) ∷ []

validate_tests :
    (validate is_subclass other searching ≡ [])
    × (length (validate is_subclass broken searching) ≡ 1)
unfolding validate check_method method_problems describe method_contract annotations_match
    match_within shapes_match parts_match equal size
validate_tests = (refl, refl)

validate-own_example : validate is_subclass own searching ≡ []
unfolding method_contract
validate-own_example = validate-own is_subclass own searching ((refl, refl, (refl, tt)), tt)

parameter_problems-binds_example : binds (method_contract "search" wider) ("query" ∷ []) ≡ true
unfolding method_contract parameter_problems
parameter_problems-binds_example =
    parameter_problems-binds (method_contract "search" search) (method_contract "search" wider)
      (refl, (refl, tt)) refl refl

abbrev good : Service
good = record { ident = 1; attributes = other }

abbrev bad : Service
bad = record { ident = 2; attributes = broken }

abbrev guard : ContractGuard
guard = record { field_value = several (good ∷ bad ∷ []); protocol = searching; rejected = [] }

good-Conforms : Conforms is_subclass searching good
unfolding validate check_method method_problems describe method_contract annotations_match
    match_within shapes_match parts_match equal size
good-Conforms = refl

others : (x : Service) → In x (good ∷ bad ∷ []) → (x ≡ bad) ⊎ Conforms is_subclass searching x
others x (inl here) = inr (subst (Conforms is_subclass searching) here good-Conforms)
others x (inr (inl here)) = inl (sym here)
others x (inr (inr later)) = absurd later.1

admit-Conforms_example :
    (((admit is_subclass bad guard).0 ≡ true) ↔ Conforms is_subclass searching bad)
    × ((x : Service)
        → In x (held (admit is_subclass bad guard).1.field_value)
        → Conforms is_subclass searching x)
admit-Conforms_example = admit-Conforms is_subclass bad guard (refl, (refl, tt)) others

abbrev tables : Tables
tables = record { contracts = ("search", 7) ∷ []; cache = [] }

is_runtime_scope_tests : (is_runtime_scope "agent:a" ≡ true) × (is_runtime_scope "agent:" ≡ false)
unfolding is_runtime_scope
is_runtime_scope_tests = (refl, refl)
