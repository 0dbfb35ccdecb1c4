-- ===== src/Plugin/Manager/Filters.antt =====
-- `_apply_scoped_filters` of src/langharness_plugin/plugin_manager.py: the visibility filter of the
-- scope in front of the filters of the scoped fields. Texts are lists of code points.
use langharness.Prelude.{
  ℕ, ◌<◌, String, true, false, not, ◌&&◌, ◌≡◌, refl, List, [], ◌∷◌, ◌++◌, Option, none, some,
  string_eq, if◌then◌else◌, is_nonempty, length, length-append, arith, contains, nat_beq_iff,
}
use langharness.Prelude.Dict.{Dict, lookup, insert, lookup-insert}
use langharness.Prelude.Text.{starts_with}

-- `filters.get(field)` as a text; the empty one counts as none.
abbrev pub text_of : Option (List ℕ) → List ℕ
text_of none = []
text_of (some s) = s

-- `f"(&{scope_filter}{user})"`
abbrev pub both : List ℕ → List ℕ → List ℕ
both scope_filter user = b'(' ∷ b'&' ∷ (scope_filter ++ (user ++ b')' ∷ []))

-- What the loop leaves at one field.
unfoldable pub merge_filter : List ℕ → Option (List ℕ) → List ℕ
merge_filter scope_filter user =
    if is_nonempty (text_of user) && starts_with scope_filter (text_of user)
    then text_of user
    else (if not (is_nonempty (text_of user))
        then scope_filter
        else both scope_filter (text_of user))

unfoldable pub apply_scoped_filters :
    List ℕ → List String → Dict String (List ℕ) → Dict String (List ℕ)
unfolding merge_filter
apply_scoped_filters scope_filter [] filters = filters
apply_scoped_filters scope_filter (f ∷ fs) filters =
    apply_scoped_filters scope_filter fs
      (insert f (merge_filter scope_filter (lookup f filters)) filters)

other_field :
    (scope_filter : List ℕ) (f : String) (fs : List String) (filters : Dict String (List ℕ))
    → contains f fs ≡ false
    → lookup f (apply_scoped_filters scope_filter fs filters) ≡ lookup f filters
unfolding apply_scoped_filters
other_field scope_filter f [] filters h = refl
other_field scope_filter f (g ∷ gs) filters h = ground (
  arith,
  other_field scope_filter f gs (insert g (merge_filter scope_filter (lookup g filters)) filters),
  lookup-insert g f (merge_filter scope_filter (lookup g filters)) filters,
)

starts_with_refl : (s : List ℕ) → starts_with s s ≡ true
starts_with_refl [] = refl
starts_with_refl (c ∷ s) = ground (arith, nat_beq_iff c c, starts_with_refl s)

-- A field without a filter of its own gets the visibility filter, and keeps it when the filters are
-- applied again.
pub merge_filter-absent :
    (scope_filter : List ℕ)
    → is_nonempty scope_filter ≡ true
    → (merge_filter scope_filter none ≡ scope_filter)
      × (merge_filter scope_filter (some (merge_filter scope_filter none)) ≡ scope_filter)
unfolding merge_filter
merge_filter-absent scope_filter given = (refl, ground (arith, starts_with_refl scope_filter))

-- A filter that begins with `(|`, as every visibility filter does, is put in front of the
-- user's filter of a field, if that is not empty, again each time the filters are applied: the
-- merged filter begins with `(&`, so the test for the form that is merged already misses it,
-- and it grows.
pub merge_filter-grows :
    (rest user : List ℕ)
    → is_nonempty user ≡ true
    → let scope_filter = b'(' ∷ b'|' ∷ rest in
      let merged = both scope_filter user in
      (merge_filter scope_filter (some merged) ≡ both scope_filter merged)
      × (length merged < length (merge_filter scope_filter (some merged)))
unfolding merge_filter
merge_filter-grows rest user given = (
  refl,
  omega (
    arith,
    length-append rest (both (b'(' ∷ b'|' ∷ rest) user ++ b')' ∷ []),
    length-append (both (b'(' ∷ b'|' ∷ rest) user) (b')' ∷ []),
  ),
)
