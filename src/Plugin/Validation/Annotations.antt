-- ===== src/Plugin/Validation/Annotations.antt =====
-- src/langharness_plugin/validation.py: type annotations as `get_type_hints` answers them, their
-- equality, and `_annotations_match`.
use langharness.Prelude.{
  String, Bool, true, false, ◌&&◌, ◌||◌, ◌==◌, string_eq, if◌then◌else◌, ℕ, zero, suc, ◌+◌,
}

-- `get_origin` of a parametrised annotation: a class, `Literal`, or another special form.
pub data Origin : Type 0 where
  class_origin : String → Origin
  literal_origin : Origin
  special_origin : String → Origin

-- `class_type` is a class without parameters, `other` a type variable or a value of a `Literal`,
-- `params` the parameters of a `Callable`, and `missing` stands for `None`.
mutual
  pub data Annotation : Type 0 where
    any_type missing : Annotation
    class_type other : String → Annotation
    params : Annotations → Annotation
    generic : Origin → Annotations → Annotation
    union : Annotations → Annotation

  pub data Annotations : Type 0 where
    nil : Annotations
    cons : Annotation → Annotations → Annotations

abbrev pub is_empty : Annotations → Bool
is_empty nil = true
is_empty (cons a rest) = false

unfoldable mutual
  pub size : Annotation → ℕ
  size (params es) = suc (size_each es)
  size (generic o es) = suc (size_each es)
  size (union es) = suc (size_each es)
  size _ = 1

  pub size_each : Annotations → ℕ
  size_each nil = 0
  size_each (cons e es) = size e + size_each es

abbrev pub same_origin : Origin → Origin → Bool
same_origin (class_origin c) (class_origin d) = c == d
same_origin literal_origin literal_origin = true
same_origin (special_origin s) (special_origin t) = s == t
same_origin _ _ = false

abbrev pub is_literal : Origin → Bool
is_literal literal_origin = true
is_literal _ = false

abbrev pub all_of : (Annotation → Bool) → Annotations → Bool
all_of p nil = true
all_of p (cons a rest) = p a && all_of p rest

abbrev pub any_of : (Annotation → Bool) → Annotations → Bool
any_of p nil = false
any_of p (cons a rest) = p a || any_of p rest

-- `expected == actual`: unions and literals compare as sets, all else by parts.
unfoldable mutual
  pub equal : Annotation → Annotation → Bool
  equal any_type any_type = true
  equal missing missing = true
  equal (class_type c) (class_type d) = c == d
  equal (other s) (other t) = s == t
  equal (params es) (params us) = equal_each es us
  equal (generic o es) (generic p us) =
      same_origin o p
      && (if is_literal o then each_among es us && all_of (is_covered es) us else equal_each es us)
  equal (union es) (union us) = each_among es us && all_of (is_covered es) us
  equal _ _ = false

  pub equal_each : Annotations → Annotations → Bool
  equal_each nil nil = true
  equal_each (cons e es) (cons u us) = equal e u && equal_each es us
  equal_each _ _ = false

  -- Every annotation of the first list is one of the second.
  pub each_among : Annotations → Annotations → Bool
  each_among nil us = true
  each_among (cons e es) us = any_of (equal e) us && each_among es us

  pub is_covered : Annotations → Annotation → Bool
  is_covered nil u = false
  is_covered (cons e es) u = equal e u || is_covered es u

abbrev pub is_wild : Annotation → Bool
is_wild any_type = true
is_wild missing = true
is_wild _ = false

-- `_origin(annotation) is typing.Union`
abbrev pub is_union : Annotation → Bool
is_union (union es) = true
is_union _ = false

-- A union on one side at least, and no list of parameters, which are told apart first.
abbrev pub is_mixed : Annotation → Annotation → Bool
is_mixed (params es) a = false
is_mixed e (params us) = false
is_mixed e a = is_union e || is_union a

-- A type that is no union counts as its one arm.
abbrev pub arms : Annotation → Annotations
arms (union es) = es
arms a = cons a nil

-- `all(... for item, other in zip(...))` on lists of one length.
abbrev pub all_pairs : (Annotation → Annotation → Bool) → Annotations → Annotations → Bool
all_pairs rec nil nil = true
all_pairs rec (cons e es) (cons u us) = rec e u && all_pairs rec es us
all_pairs rec _ _ = false

-- The comparison of two unions, or of a union and another type.
abbrev pub arms_match : (Annotation → Annotation → Bool) → Bool → Annotations → Annotations → Bool
arms_match rec true es us = all_of (λ u. any_of (λ e. rec e u) es) us
arms_match rec false es us = all_of (λ e. any_of (rec e) us) es

-- `is_subclass c d` is `issubclass(c, d)`, false where that raises a `TypeError`.
module _ (is_subclass : String → String → Bool) where
  abbrev pub origins_match : Bool → Origin → Origin → Bool
  origins_match covariance (class_origin c) (class_origin d) =
      (c == d) || (covariance && is_subclass d c)
  origins_match covariance o p = same_origin o p

  -- The comparison of two lists of parameters, two classes or two parametrised types, `rec` the
  -- recursive call; the length is compared first there, which `all_pairs` includes.
  unfoldable pub parts_match :
      (Annotation → Annotation → Bool) → Bool → Annotation → Annotation → Bool
  parts_match rec covariance (params es) (params us) = all_pairs rec es us
  parts_match rec covariance (class_type c) (class_type d) = covariance && is_subclass d c
  parts_match rec covariance (generic o es) (generic p us) =
      origins_match covariance o p && (is_empty es || is_empty us || all_pairs rec es us)
  parts_match rec covariance e a = false

  unfoldable pub shapes_match :
      (Annotation → Annotation → Bool) → Bool → Annotation → Annotation → Bool
  shapes_match rec covariance e a =
      if is_mixed e a
      then arms_match rec covariance (arms e) (arms a)
      else parts_match rec covariance e a

  -- `_annotations_match` with a bound on the depth of the recursion.
  unfoldable pub match_within : ℕ → Bool → Annotation → Annotation → Bool
  match_within zero covariance expected actual = false
  match_within (suc n) covariance expected actual =
      is_wild expected
      || is_wild actual
      || equal expected actual
      || shapes_match (match_within n covariance) covariance expected actual

  -- `_annotations_match`
  unfoldable pub annotations_match : Bool → Annotation → Annotation → Bool
  annotations_match covariance expected actual =
      match_within (size expected + size actual) covariance expected actual
