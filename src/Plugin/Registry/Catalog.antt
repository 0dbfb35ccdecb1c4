-- ===== src/Plugin/Registry/Catalog.antt =====
-- The catalog `PluginRegistry` of src/langharness_plugin/registry.py: what adding and removing
-- keep, and the file that `save` writes and `load` reads.
use langharness.Prelude.{
  String, Bool, not, ◌≡◌, refl, sym, ap, List, [], ◌∷◌, none, some, ok, err, Error, ◌==◌, string_eq,
  nat_eq, filter, All, In, In-filter, filter-In, inl, inr, arith, Result-cases, Option-cases,
}
use langharness.Prelude.Dict.{
  Dict, lookup, insert, erase, values, Distinct, insert-Distinct, filter-Distinct,
}
use langharness.Plugin.Registry.{
  PluginDescriptor, validate_descriptor, PluginRegistry, add, remove_descriptor, the_only, the_only,
  get_by_name,
}
use mathlib.Core.Path.{subst, subst⁻¹}
use text.Mathlib.TextEquality.{eq_iff}

-- A catalog has each factory once, under its own name, and its descriptors are valid.
pub record IsCatalog (r : PluginRegistry) : Type 0 where
  pub sound : All (λ e. (e.1.factory ≡ e.0) × (validate_descriptor e.1 ≡ ok tt)) r.descriptors
  pub distinct : Distinct r.descriptors

abbrev pub Entries : Type 0
Entries = Dict String PluginDescriptor

insert_sound :
    (d : PluginDescriptor) (es : Entries)
    → validate_descriptor d ≡ ok tt
    → All (λ e. (e.1.factory ≡ e.0) × (validate_descriptor e.1 ≡ ok tt)) es
    → All (λ e. (e.1.factory ≡ e.0) × (validate_descriptor e.1 ≡ ok tt)) (insert d.factory d es)
insert_sound d [] valid h = ((refl, valid), tt)
insert_sound d ((k, w) ∷ es) valid h =
    ground (arith, eq_iff k d.factory, insert_sound d es valid h.1)

filter_sound :
    (p : String → Bool) (es : Entries)
    → All (λ e. (e.1.factory ≡ e.0) × (validate_descriptor e.1 ≡ ok tt)) es
    → All (λ e. (e.1.factory ≡ e.0) × (validate_descriptor e.1 ≡ ok tt)) (filter (λ e. p e.0) es)
filter_sound p [] h = tt
filter_sound p ((k, w) ∷ es) h = ground (arith, filter_sound p es h.1)

pub data Request : Type 0 where
  add_descriptor : PluginDescriptor → Request
  drop_factory : String → Request

abbrev pub step : Request → PluginRegistry → PluginRegistry
step (add_descriptor d) r = (add d r).1
step (drop_factory factory) r = (remove_descriptor factory r).1

abbrev pub run : List Request → PluginRegistry → PluginRegistry
run [] r = r
run (q ∷ qs) r = run qs (step q r)

-- What `add` does, by the validity of the descriptor and whether its factory is taken.
pub add_ok :
    (d : PluginDescriptor) (r : PluginRegistry)
    → validate_descriptor d ≡ ok tt
    → lookup d.factory r.descriptors ≡ none
    → add d r ≡ (ok tt, record { descriptors = insert d.factory d r.descriptors })
unfolding add
add_ok d r valid new = ground (arith, valid, new)

add_taken :
    (d other : PluginDescriptor) (r : PluginRegistry)
    → lookup d.factory r.descriptors ≡ some other
    → (add d r).1 ≡ r
unfolding add
add_taken d other r taken = ground arith

add_invalid :
    (d : PluginDescriptor) (r : PluginRegistry) (e : Error)
    → validate_descriptor d ≡ err e
    → (add d r).1 ≡ r
unfolding add
add_invalid d r e raised = ground arith

remove_missing :
    (factory : String) (r : PluginRegistry)
    → lookup factory r.descriptors ≡ none
    → (remove_descriptor factory r).1 ≡ r
unfolding remove_descriptor
remove_missing factory r missing = ground arith

remove_found :
    (factory : String) (d : PluginDescriptor) (r : PluginRegistry)
    → lookup factory r.descriptors ≡ some d
    → (remove_descriptor factory r).1 ≡ record { descriptors = erase factory r.descriptors }
unfolding remove_descriptor
remove_found factory d r found = ground arith

add-IsCatalog : (d : PluginDescriptor) (r : PluginRegistry) → IsCatalog r → IsCatalog (add d r).1
add-IsCatalog d r h = elim (Result-cases (validate_descriptor d)) [
  | inl (u, valid) ↦ elim (Option-cases (lookup d.factory r.descriptors)) [
    | inl new ↦ subst⁻¹ IsCatalog (ap (λ p. p.1) (add_ok d r valid new)) (record {
      sound = insert_sound d r.descriptors valid h.sound;
      distinct = insert-Distinct d.factory d r.descriptors h.distinct;
    })
    | inr (other, taken) ↦ subst⁻¹ IsCatalog (add_taken d other r taken) h
  ]
  | inr (e, raised) ↦ subst⁻¹ IsCatalog (add_invalid d r e raised) h
]

remove-IsCatalog :
    (factory : String) (r : PluginRegistry)
    → IsCatalog r
    → IsCatalog (remove_descriptor factory r).1
remove-IsCatalog factory r h = elim (Option-cases (lookup factory r.descriptors)) [
  | inl missing ↦ subst⁻¹ IsCatalog (remove_missing factory r missing) h
  | inr (d, found) ↦ subst⁻¹ IsCatalog (remove_found factory d r found) (record {
    sound = filter_sound (λ k. not (k == factory)) r.descriptors h.sound;
    distinct = filter-Distinct (λ k. not (k == factory)) r.descriptors h.distinct;
  })
]

-- Any sequence of additions and removals, refused ones included, keeps a catalog: each factory
-- once, under its own name, with a valid descriptor.
pub run-IsCatalog : (qs : List Request) (r : PluginRegistry) → IsCatalog r → IsCatalog (run qs r)
run-IsCatalog [] r h = h
run-IsCatalog (add_descriptor d ∷ qs) r h = run-IsCatalog qs _ (add-IsCatalog d r h)
run-IsCatalog (drop_factory factory ∷ qs) r h = run-IsCatalog qs _ (remove-IsCatalog factory r h)

only_one : (ds : List PluginDescriptor) (d : PluginDescriptor) → the_only ds ≡ ok d → ds ≡ d ∷ []
only_one [] d h = cc
only_one (x ∷ []) d h = cc
only_one (x ∷ y ∷ ds) d h = cc

-- A descriptor that `get_by_name` answers is in the catalog under that name, and is the only one.
pub get_by_name-only :
    (name : String) (r : PluginRegistry) (d : PluginDescriptor)
    → get_by_name name r ≡ ok d
    → In d (values r.descriptors)
      × (d.name ≡ name)
      × ((other : PluginDescriptor)
          → In other (values r.descriptors)
          → other.name ≡ name
          → other ≡ d)
unfolding get_by_name
get_by_name-only name r d h =
    let same = only_one (filter (λ x. x.name == name) (values r.descriptors)) d h in
    let (held, named) =
      In-filter (λ x. x.name == name) d (values r.descriptors) (subst⁻¹ (In d) same (inl refl)) in
    (
      held,
      (eq_iff d.name name).0 named,
      λ other i e.
          elim (subst (In other) same (
            filter-In (λ x. x.name == name) other (values r.descriptors) i
              ((eq_iff other.name name).1 e))) [ inl q ↦ sym q | inr bad ↦ absurd bad.1 ],
    )
