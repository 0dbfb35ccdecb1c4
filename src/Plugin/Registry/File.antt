-- ===== src/Plugin/Registry/File.antt =====
-- The file that `PluginRegistry.save` of src/langharness_plugin/registry.py writes, and `load`.
use langharness.Prelude.{
  String, Bool, false, not, ◌≡◌, refl, sym, ap, ◌∙◌, List, [], ◌∷◌, ◌++◌, map, Option, none, some,
  Result, ok, err, bind, value_error, ◌==◌, string_eq, nat_eq, if◌then◌else◌, All, arith,
  append_assoc, append-nil,
}
use langharness.Prelude.Dict.{lookup, insert, Distinct, insert_new}
use langharness.Prelude.Int.{pos}
use langharness.Prelude.Json.{
  Json, num, arr, obj, end, field, get, of_items, to_items, of_items-to_items,
}
use langharness.Prelude.Order.{text_order, sort_by, insert_sorted}
use langharness.Prelude.Text.{codes}
use langharness.Plugin.Registry.{
  PluginDescriptor, descriptor_to_dict, descriptor_from_dict, validate_descriptor, PluginRegistry,
  add, add_all, list_descriptors,
}
use langharness.Plugin.Registry.Codec.{descriptor_from_dict-to_dict}
use mathlib.Core.Path.{subst⁻¹}
use text.Mathlib.TextEquality.{eq_iff}
use langharness.Plugin.Registry.Catalog.{IsCatalog, Entries, add_ok}

abbrev by_factory : Entries → Entries
by_factory = sort_by text_order (λ e. codes e.0)

lookup-insert_sorted :
    (f k : String) (v : PluginDescriptor) (es : Entries)
    → lookup k es ≡ none
    → lookup f (insert_sorted text_order (λ e. codes e.0) (k, v) es)
      ≡ (if k == f then some v else lookup f es)
lookup-insert_sorted f k v [] h = refl
lookup-insert_sorted f k v ((j, w) ∷ es) h =
    ground (arith, eq_iff j k, eq_iff k f, eq_iff j f, lookup-insert_sorted f k v es)

lookup-by_factory :
    (f : String) (es : Entries) → Distinct es → lookup f (by_factory es) ≡ lookup f es
lookup-by_factory f [] h = refl
lookup-by_factory f ((k, v) ∷ es) h = ground (
  arith,
  lookup-insert_sorted f k v (by_factory es),
  lookup-by_factory k es h.1,
  lookup-by_factory f es h.1,
)

insert_sorted-Distinct :
    (k : String) (v : PluginDescriptor) (es : Entries)
    → lookup k es ≡ none
    → Distinct es
    → Distinct (insert_sorted text_order (λ e. codes e.0) (k, v) es)
insert_sorted-Distinct k v [] h d = (refl, tt)
insert_sorted-Distinct k v ((j, w) ∷ es) h d =
    ground
      (arith, eq_iff j k, eq_iff k j, lookup-insert_sorted j k v es, insert_sorted-Distinct k v es)

by_factory-Distinct : (es : Entries) → Distinct es → Distinct (by_factory es)
by_factory-Distinct [] h = tt
by_factory-Distinct ((k, v) ∷ es) h =
    insert_sorted-Distinct k v (by_factory es) (lookup-by_factory k es h.1 ∙ h.0)
      (by_factory-Distinct es h.1)

insert_sorted_sound :
    (k : String) (v : PluginDescriptor) (es : Entries)
    → (v.factory ≡ k) × (validate_descriptor v ≡ ok tt)
    → All (λ e. (e.1.factory ≡ e.0) × (validate_descriptor e.1 ≡ ok tt)) es
    → All
        (λ e. (e.1.factory ≡ e.0) × (validate_descriptor e.1 ≡ ok tt))
        (insert_sorted text_order (λ e. codes e.0) (k, v) es)
insert_sorted_sound k v [] p h = (p, tt)
insert_sorted_sound k v ((j, w) ∷ es) p h = ground (arith, insert_sorted_sound k v es p h.1)

by_factory_sound :
    (es : Entries)
    → All (λ e. (e.1.factory ≡ e.0) × (validate_descriptor e.1 ≡ ok tt)) es
    → All (λ e. (e.1.factory ≡ e.0) × (validate_descriptor e.1 ≡ ok tt)) (by_factory es)
by_factory_sound [] h = tt
by_factory_sound ((k, v) ∷ es) h =
    insert_sorted_sound k v (by_factory es) h.0 (by_factory_sound es h.1)

-- `save` writes the list of descriptors by factory.
unfoldable pub save : PluginRegistry → Json
unfolding descriptor_to_dict
save r = obj (
    field "version" (num (pos 1)) (
      field "plugins" (arr (to_items (map (λ d. obj (descriptor_to_dict d)) (list_descriptors r))))
        end))

unfoldable pub read_all : List Json → Result (List PluginDescriptor)
unfolding descriptor_from_dict
read_all [] = ok []
read_all (obj fs ∷ xs) = bind (descriptor_from_dict fs) λ d. bind (read_all xs) λ ds. ok (d ∷ ds)
read_all (x ∷ xs) = err value_error

read_all-map :
    (ds : List PluginDescriptor) → read_all (map (λ d. obj (descriptor_to_dict d)) ds) ≡ ok ds
unfolding read_all
read_all-map [] = refl
read_all-map (d ∷ ds) = ground (arith, descriptor_from_dict-to_dict d, read_all-map ds)

lookup-append_new :
    (k : String) (es fs : Entries) → lookup k es ≡ none → lookup k (es ++ fs) ≡ lookup k fs
lookup-append_new k [] fs h = refl
lookup-append_new k ((j, w) ∷ es) fs h = ground (arith, lookup-append_new k es fs)

add_all_step :
    (d : PluginDescriptor) (ds : List PluginDescriptor) (r r' : PluginRegistry)
    → add d r ≡ (ok tt, r')
    → add_all (d ∷ ds) r ≡ add_all ds r'
unfolding add_all
add_all_step d ds r r' h =
    ap
      (λ p. elim p.0 as (λ _. Result (Unit {0}) × PluginRegistry) [
        | ok a ↦ add_all ds p.1
        | err e ↦ (err e, p.1)
      ])
      h

still_new :
    (k : String) (v : PluginDescriptor) (es acc : Entries)
    → lookup k es ≡ none
    → All (λ e. lookup e.0 acc ≡ none) es
    → All (λ e. lookup e.0 (acc ++ (k, v) ∷ []) ≡ none) es
still_new k v [] acc h new = tt
still_new k v ((j, w) ∷ es) acc h new = (
  ground (arith, eq_iff j k, eq_iff k j, lookup-append_new j acc ((k, v) ∷ [])),
  still_new k v es acc (ground arith) new.1,
)

add_all-append :
    (es acc : Entries)
    → All (λ e. (e.1.factory ≡ e.0) × (validate_descriptor e.1 ≡ ok tt)) es
    → Distinct es
    → All (λ e. lookup e.0 acc ≡ none) es
    → add_all (map (λ e. e.1) es) (record { descriptors = acc })
      ≡ (ok tt, record { descriptors = acc ++ es })
add_all-append [] acc sound distinct new =
    unfold add_all in ap (λ l. (ok tt, record { descriptors = l })) (sym (append-nil acc))
add_all-append ((k, v) ∷ es) acc sound distinct new =
    let fresh : lookup v.factory acc ≡ none = subst⁻¹ (λ f. lookup f acc ≡ none) sound.0.0 new.0 in
    let grown : insert v.factory v acc ≡ acc ++ (k, v) ∷ [] =
      insert_new v.factory v acc fresh ∙ ap (λ f. acc ++ (f, v) ∷ []) sound.0.0 in
    let added : add v (record { descriptors = acc })
        ≡ (ok tt, record { descriptors = acc ++ (k, v) ∷ [] }) =
      add_ok v (record { descriptors = acc }) sound.0.1 fresh
      ∙ ap (λ l. (ok tt, record { descriptors = l })) grown in
    let rest : add_all (map (λ e. e.1) es) (record { descriptors = acc ++ (k, v) ∷ [] })
        ≡ (ok tt, record { descriptors = (acc ++ (k, v) ∷ []) ++ es }) =
      add_all-append es (acc ++ (k, v) ∷ []) sound.1 distinct.1
        (still_new k v es acc distinct.0 new.1) in
    add_all_step v (map (λ e. e.1) es) (record { descriptors = acc })
      (record { descriptors = acc ++ (k, v) ∷ [] }) added
    ∙ rest
    ∙ ap (λ l. (ok tt, record { descriptors = l })) (append_assoc acc ((k, v) ∷ []) es)

All-new : (es : Entries) → All (λ e. lookup {V = PluginDescriptor} e.0 [] ≡ none) es
All-new [] = tt
All-new (e ∷ es) = (refl, All-new es)

-- The constructor on the descriptors that were read.
unfoldable pub build : List PluginDescriptor → Result PluginRegistry
unfolding add_all
build ds = let (r, reg) = add_all ds (record { descriptors = [] }) in bind r (λ _. ok reg)

-- `raw.get("version") != 1`
abbrev is_version : Option Json → Bool
is_version (some (num (pos n))) = n == 1
is_version _ = false

unfoldable build_from : Option Json → Result PluginRegistry
unfolding read_all build
build_from none = build []
build_from (some (arr items)) = bind (read_all (of_items items)) build
build_from (some _) = err value_error

unfoldable pub load : Json → Result PluginRegistry
unfolding build_from
load (obj raw) =
    if not (is_version (get "version" raw)) then err value_error else build_from (get "plugins" raw)
load _ = err value_error

-- A catalog is loaded again from what `save` wrote: the same descriptor for every factory, and
-- none else.
pub load-save :
    (r : PluginRegistry)
    → IsCatalog r
    → (r' : PluginRegistry) × (load (save r) ≡ ok r')
      × IsCatalog r'
      × ((f : String) → lookup f r'.descriptors ≡ lookup f r.descriptors)
unfolding load save
load-save r h =
    let es = by_factory r.descriptors in
    let added : add_all (list_descriptors r) (record { descriptors = [] })
        ≡ (ok tt, record { descriptors = es }) =
      add_all-append es [] (by_factory_sound r.descriptors h.sound)
        (by_factory-Distinct r.descriptors h.distinct) (All-new es) in
    (
      record { descriptors = es },
      ap (λ xs. bind (read_all xs) build)
            (of_items-to_items (map (λ d. obj (descriptor_to_dict d)) (list_descriptors r)))
          ∙ ap (λ ds. bind ds build) (read_all-map (list_descriptors r))
          ∙ ap (λ p. bind p.0 (λ _. ok p.1)) added,
      record {
        sound = by_factory_sound r.descriptors h.sound;
        distinct = by_factory-Distinct r.descriptors h.distinct;
      },
      λ f. lookup-by_factory f r.descriptors h.distinct,
    )
