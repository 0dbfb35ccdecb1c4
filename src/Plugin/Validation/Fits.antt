-- ===== src/Plugin/Validation/Fits.antt =====
-- When an annotation fits another one, as rules in no order, and `_annotations_match` of
-- src/langharness_plugin/validation.py compared with them.
use langharness.Prelude.{
  String, Bool, true, false, ◌&&◌, ◌||◌, ◌≡◌, refl, string_eq, ℕ, zero, suc, ◌+◌, ◌≤◌, arith,
  Bool-cases, inl, inr, ◌↔◌,
}
use langharness.Plugin.Validation.Annotations.{
  Origin, Annotation, any_type, missing, class_type, other, params, generic, union, Annotations,
  nil, cons, is_empty, size, size_each, any_of, equal, is_wild, is_mixed, arms, all_pairs,
  arms_match, origins_match, parts_match, shapes_match, match_within, annotations_match,
}

size_pos : (a : Annotation) → 1 ≤ size a
unfolding size
size_pos any_type = omega arith
size_pos missing = omega arith
size_pos (class_type c) = omega arith
size_pos (other s) = omega arith
size_pos (params es) = omega arith
size_pos (generic o es) = omega arith
size_pos (union es) = omega arith

size_arm : (a : Annotation) → size_each (arms a) ≤ size a
unfolding size
size_arm (union es) = omega arith
size_arm _ = omega arith

size-arms :
    (e a : Annotation)
    → is_mixed e a ≡ true
    → suc (size_each (arms e) + size_each (arms a)) ≤ size e + size a
unfolding size
size-arms (union es) (params us) mixed = cc
size-arms (union es) a mixed = omega (arith, size_arm a)
size-arms e (union us) mixed = omega (arith, size_arm e)
size-arms _ _ mixed = cc

module _ (is_subclass : String → String → Bool) where
  mutual
    -- `Fits true` is for results, which may be narrowed, `Fits false` for parameters, which may be
    -- widened.
    pub data Fits : Bool → Annotation → Annotation → Type 0 where
      wild_expected : {c : Bool} {e a : Annotation} → is_wild e ≡ true → Fits c e a
      wild_actual : {c : Bool} {e a : Annotation} → is_wild a ≡ true → Fits c e a
      same : {c : Bool} {e a : Annotation} → equal e a ≡ true → Fits c e a
      listed : {c : Bool} {es us : Annotations} → FitsEach c es us → Fits c (params es) (params us)
      subclass : {e a : String} → is_subclass a e ≡ true → Fits true (class_type e) (class_type a)
      bare :
          {c : Bool} {o p : Origin} {es us : Annotations}
          → origins_match is_subclass c o p ≡ true
          → (is_empty es || is_empty us) ≡ true
          → Fits c (generic o es) (generic p us)
      by_part :
          {c : Bool} {o p : Origin} {es us : Annotations}
          → origins_match is_subclass c o p ≡ true
          → FitsEach c es us
          → Fits c (generic o es) (generic p us)
      widened : {e a : Annotation} → is_mixed e a ≡ true → Wider (arms e) (arms a) → Fits false e a
      narrowed :
          {e a : Annotation} → is_mixed e a ≡ true → Narrower (arms e) (arms a) → Fits true e a

    pub data FitsEach : Bool → Annotations → Annotations → Type 0 where
      no_part : {c : Bool} → FitsEach c nil nil
      part :
          {c : Bool} {e a : Annotation} {es us : Annotations}
          → Fits c e a
          → FitsEach c es us
          → FitsEach c (cons e es) (cons a us)

    -- Each expected arm fits an actual one.
    pub data Wider : Annotations → Annotations → Type 0 where
      all_wider : {us : Annotations} → Wider nil us
      wider :
          {e : Annotation} {es us : Annotations} → TakenBy e us → Wider es us → Wider (cons e es) us

    pub data TakenBy : Annotation → Annotations → Type 0 where
      taken : {e a : Annotation} {us : Annotations} → Fits false e a → TakenBy e (cons a us)
      taken_later : {e a : Annotation} {us : Annotations} → TakenBy e us → TakenBy e (cons a us)

    -- Each actual arm fits an expected one.
    pub data Narrower : Annotations → Annotations → Type 0 where
      all_narrower : {es : Annotations} → Narrower es nil
      narrower :
          {a : Annotation} {es us : Annotations}
          → GivenBy es a
          → Narrower es us
          → Narrower es (cons a us)

    pub data GivenBy : Annotations → Annotation → Type 0 where
      given : {e a : Annotation} {es : Annotations} → Fits true e a → GivenBy (cons e es) a
      given_later : {e a : Annotation} {es : Annotations} → GivenBy es a → GivenBy (cons e es) a

  module _ (rec : Annotation → Annotation → Bool) where
    module _ {c : Bool} (sound : (e a : Annotation) → rec e a ≡ true → Fits c e a) where
      all_pairs_sound : (es us : Annotations) → all_pairs rec es us ≡ true → FitsEach c es us
      all_pairs_sound nil nil h = no_part
      all_pairs_sound (cons e es) (cons a us) h =
          part (sound e a (ground arith)) (all_pairs_sound es us (ground arith))
      all_pairs_sound _ _ h = cc

    module _ (sound : (e a : Annotation) → rec e a ≡ true → Fits false e a) where
      any_of_sound : (e : Annotation) (us : Annotations) → any_of (rec e) us ≡ true → TakenBy e us
      any_of_sound e nil h = cc
      any_of_sound e (cons a us) h = elim (Bool-cases (rec e a)) [
        | inl here ↦ taken (sound e a here)
        | inr there ↦ taken_later (any_of_sound e us (ground arith))
      ]

      widened_sound : (es us : Annotations) → arms_match rec false es us ≡ true → Wider es us
      widened_sound nil us h = all_wider
      widened_sound (cons e es) us h =
          wider (any_of_sound e us (ground arith)) (widened_sound es us (ground arith))

    module _ (sound : (e a : Annotation) → rec e a ≡ true → Fits true e a) where
      given_sound :
          (es : Annotations) (a : Annotation) → any_of (λ e. rec e a) es ≡ true → GivenBy es a
      given_sound nil a h = cc
      given_sound (cons e es) a h = elim (Bool-cases (rec e a)) [
        | inl here ↦ given (sound e a here)
        | inr there ↦ given_later (given_sound es a (ground arith))
      ]

      narrowed_sound : (es us : Annotations) → arms_match rec true es us ≡ true → Narrower es us
      narrowed_sound es nil h = all_narrower
      narrowed_sound es (cons a us) h =
          narrower (given_sound es a (ground arith)) (narrowed_sound es us (ground arith))

    -- Types that are accepted for their shape fit by one of the rules.
    mixed_sound :
        (c : Bool) (e a : Annotation)
        → ((e a : Annotation) → rec e a ≡ true → Fits c e a)
        → is_mixed e a ≡ true
        → arms_match rec c (arms e) (arms a) ≡ true
        → Fits c e a
    mixed_sound true e a sound mixed h = narrowed mixed (narrowed_sound sound (arms e) (arms a) h)
    mixed_sound false e a sound mixed h = widened mixed (widened_sound sound (arms e) (arms a) h)

    subclass_sound :
        (c : Bool) (d b : String)
        → (c && is_subclass b d) ≡ true
        → Fits c (class_type d) (class_type b)
    subclass_sound true d b h = subclass h
    subclass_sound false d b h = cc

    module _ {c : Bool} (sound : (e a : Annotation) → rec e a ≡ true → Fits c e a) where
      parts_match_sound : (e a : Annotation) → parts_match is_subclass rec c e a ≡ true → Fits c e a
      unfolding parts_match
      parts_match_sound (params es) (params us) h = listed (all_pairs_sound sound es us h)
      parts_match_sound (class_type d) (class_type b) h = subclass_sound c d b h
      parts_match_sound (generic o es) (generic p us) h =
          elim (Bool-cases (is_empty es || is_empty us)) [
            | inl empty ↦ bare (ground arith) empty
            | inr full ↦ by_part (ground arith) (all_pairs_sound sound es us (ground arith))
          ]
      parts_match_sound _ _ h = cc

      shapes_match_sound :
          (e a : Annotation) → shapes_match is_subclass rec c e a ≡ true → Fits c e a
      unfolding shapes_match
      shapes_match_sound e a h = elim (Bool-cases (is_mixed e a)) [
        | inl mixed ↦ mixed_sound c e a sound mixed (ground arith)
        | inr plain ↦ parts_match_sound e a (ground arith)
      ]

  match_within_sound :
      (n : ℕ) (c : Bool) (e a : Annotation) → match_within is_subclass n c e a ≡ true → Fits c e a
  unfolding match_within
  match_within_sound zero c e a h = cc
  match_within_sound (suc n) c e a h = elim (Bool-cases (is_wild e)) [
    | inl wild ↦ wild_expected wild
    | inr known ↦ elim (Bool-cases (is_wild a)) [
      | inl wild ↦ wild_actual wild
      | inr known' ↦ elim (Bool-cases (equal e a)) [
        | inl eq ↦ same eq
        | inr differ ↦
            shapes_match_sound (match_within is_subclass n c) (match_within_sound n c) e a
              (rw (known, known', differ) at h)
      ]
    ]
  ]

  -- Fuel for the two sizes is enough for types that fit.
  module _ (n : ℕ) {c : Bool} (rec : Annotation → Annotation → Bool)
      (complete : (e a : Annotation) → size e + size a ≤ n → Fits c e a → rec e a ≡ true) where
    all_pairs_complete :
        (es us : Annotations)
        → size_each es + size_each us ≤ n
        → FitsEach c es us
        → all_pairs rec es us ≡ true
    unfolding size
    all_pairs_complete nil nil small no_part = refl
    all_pairs_complete nil (cons a us) small f = elim f [ ]
    all_pairs_complete (cons e es) nil small f = elim f [ ]
    all_pairs_complete (cons e es) (cons a us) small (part f fs) =
        ground (arith, complete e a (omega arith) f, all_pairs_complete es us (omega arith) fs)

  module _ (n : ℕ) (rec : Annotation → Annotation → Bool)
      (complete : (e a : Annotation) → size e + size a ≤ n → Fits false e a → rec e a ≡ true) where
    any_of_complete :
        (e : Annotation) (us : Annotations)
        → size e + size_each us ≤ n
        → TakenBy e us
        → any_of (rec e) us ≡ true
    unfolding size
    any_of_complete e nil small t = elim t [ ]
    any_of_complete e (cons a us) small (taken f) = ground (arith, complete e a (omega arith) f)
    any_of_complete e (cons a us) small (taken_later t) =
        ground (arith, any_of_complete e us (omega arith) t)

    widened_complete :
        (es us : Annotations)
        → size_each es + size_each us ≤ n
        → Wider es us
        → arms_match rec false es us ≡ true
    unfolding size
    widened_complete nil us small all_wider = refl
    widened_complete (cons e es) us small (wider t w) =
        ground (arith, any_of_complete e us (omega arith) t, widened_complete es us (omega arith) w)

  module _ (n : ℕ) (rec : Annotation → Annotation → Bool)
      (complete : (e a : Annotation) → size e + size a ≤ n → Fits true e a → rec e a ≡ true) where
    given_complete :
        (es : Annotations) (a : Annotation)
        → size_each es + size a ≤ n
        → GivenBy es a
        → any_of (λ e. rec e a) es ≡ true
    unfolding size
    given_complete nil a small t = elim t [ ]
    given_complete (cons e es) a small (given f) = ground (arith, complete e a (omega arith) f)
    given_complete (cons e es) a small (given_later t) =
        ground (arith, given_complete es a (omega arith) t)

    narrowed_complete :
        (es us : Annotations)
        → size_each es + size_each us ≤ n
        → Narrower es us
        → arms_match rec true es us ≡ true
    unfolding size
    narrowed_complete es nil small all_narrower = refl
    narrowed_complete es (cons a us) small (narrower t w) =
        ground (arith, given_complete es a (omega arith) t, narrowed_complete es us (omega arith) w)

  by_shape :
      (n : ℕ) (c : Bool) (e a : Annotation)
      → shapes_match is_subclass (match_within is_subclass n c) c e a ≡ true
      → match_within is_subclass (suc n) c e a ≡ true
  unfolding match_within
  by_shape n c e a h = ground arith

  match_within_complete :
      (n : ℕ) (c : Bool) (e a : Annotation)
      → size e + size a ≤ n
      → Fits c e a
      → match_within is_subclass n c e a ≡ true
  unfolding match_within shapes_match parts_match size
  match_within_complete zero c e a small f = absurd (omega (arith, size_pos e))
  match_within_complete (suc n) c e a small (wild_expected w) = ground arith
  match_within_complete (suc n) c e a small (wild_actual w) = ground arith
  match_within_complete (suc n) c e a small (same w) = ground arith
  match_within_complete (suc n) c _ _ small (listed {es} {us} fs) =
      by_shape n c (params es) (params us) (
        all_pairs_complete n (match_within is_subclass n c) (match_within_complete n c) es us
          (omega arith) fs)
  match_within_complete (suc n) _ _ _ small (subclass {e} {a} h) =
      by_shape n true (class_type e) (class_type a) h
  match_within_complete (suc n) c _ _ small (bare {o} {p} {es} {us} fit w) =
      by_shape n c (generic o es) (generic p us) (ground arith)
  match_within_complete (suc n) c _ _ small (by_part {o} {p} {es} {us} fit fs) =
      by_shape n c (generic o es) (generic p us) (
        ground (
          arith,
          all_pairs_complete n (match_within is_subclass n c) (match_within_complete n c) es us
              (omega arith) fs,
        ))
  match_within_complete (suc n) _ e a small (widened mixed w) = by_shape n false e a (
      rw mixed (
        widened_complete n (match_within is_subclass n false) (match_within_complete n false)
          (arms e) (arms a) (omega (arith, size-arms e a mixed)) w))
  match_within_complete (suc n) _ e a small (narrowed mixed w) = by_shape n true e a (
      rw mixed (
        narrowed_complete n (match_within is_subclass n true) (match_within_complete n true)
          (arms e) (arms a) (omega (arith, size-arms e a mixed)) w))

  -- An annotation is matched with another one exactly when it fits by the rules.
  pub annotations_match_iff :
      (c : Bool) (e a : Annotation) → (annotations_match is_subclass c e a ≡ true) ↔ Fits c e a
  unfolding annotations_match
  annotations_match_iff c e a = (
    match_within_sound (size e + size a) c e a,
    match_within_complete (size e + size a) c e a (omega arith),
  )
