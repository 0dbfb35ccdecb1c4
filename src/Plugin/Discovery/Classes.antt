-- ===== src/Plugin/Discovery/Classes.antt =====
-- What the scan for plugin classes of src/langharness_plugin/discovery.py answers.
use mathlib.Core.Path.{subst}
use langharness.Prelude.{
  ◌+◌, suc, String, true, false, List, [], ◌∷◌, Option, none, some, Result, ok, err, bind, ◌==◌,
  string_eq, pair_eq, if◌then◌else◌, length, ◌≡◌, ◌≢◌, refl, arith, Bool-cases, some_inj,
  length-append, Option-cases, ap, ◌∙◌, inl, inr,
}
use langharness.Prelude.Dict.{lookup, insert_new, lookup-insert}
use langharness.Plugin.Registry.{PluginDescriptor, validate_descriptor}
use langharness.Plugin.Discovery.{
  ClassEntry, PluginClass, PluginMetadata, Warning, Reading, warned, read, Descriptors, key_of,
  enter, enter_found, read_entry, read_entries, read_class, read_metadata, checked,
  descriptor_discovery, is_elsewhere, descriptor_of, class_of,
}

-- The first descriptor that entry points yield for a module and factory.
abbrev pub at_key : String × String → Reading → Option PluginDescriptor
at_key k (warned w) = none
at_key k (read d) = if key_of d == k then some d else none

abbrev pub or_else : Option PluginDescriptor → Option PluginDescriptor → Option PluginDescriptor
or_else none o = o
or_else (some d) o = some d

abbrev pub first_read : String × String → List ClassEntry → Option PluginDescriptor
first_read k [] = none
first_read k (e ∷ es) = or_else (at_key k (read_entry e)) (first_read k es)

or_else_assoc :
    (a b c : Option PluginDescriptor) → or_else (or_else a b) c ≡ or_else a (or_else b c)
or_else_assoc none b c = refl
or_else_assoc (some d) b c = refl

or_else-none : (o : Option PluginDescriptor) → or_else o none ≡ o
or_else-none none = refl
or_else-none (some d) = refl

entered_self :
    (k : String × String) (name : String) (d : PluginDescriptor) (ds : Descriptors)
    (first : Option PluginDescriptor)
    → (key_of d == k) ≡ true
    → lookup k ds ≡ first
    → lookup k (enter_found name d ds first).0 ≡ or_else first (some d)
entered_self k name d ds none same here = rw (lookup-insert (key_of d) k d ds, same) refl
entered_self k name d ds (some first) same here = here

entered_other :
    (k : String × String) (name : String) (d : PluginDescriptor) (ds : Descriptors)
    (first : Option PluginDescriptor)
    → (key_of d == k) ≡ false
    → lookup k (enter_found name d ds first).0 ≡ lookup k ds
entered_other k name d ds none other = rw (lookup-insert (key_of d) k d ds, other) refl
entered_other k name d ds (some first) other = refl

length-enter_found :
    (name : String) (d : PluginDescriptor) (ds : Descriptors) (first : Option PluginDescriptor)
    → lookup (key_of d) ds ≡ first
    → length (enter_found name d ds first).0 + length (enter_found name d ds first).1
      ≡ suc (length ds)
length-enter_found name d ds none new =
    omega (arith, ap length (insert_new (key_of d) d ds new), length-append ds ((key_of d, d) ∷ []))
length-enter_found name d ds (some first) old = omega arith

lookup-enter_found :
    (k : String × String) (name : String) (d : PluginDescriptor) (ds : Descriptors)
    (first : Option PluginDescriptor)
    → lookup (key_of d) ds ≡ first
    → lookup k (enter_found name d ds first).0
      ≡ or_else (lookup k ds) (if key_of d == k then some d else none)
lookup-enter_found k name d ds first h = elim (Bool-cases (key_of d == k)) [
  | inl same ↦
      let here : lookup k ds ≡ first =
        subst (λ j. lookup j ds ≡ first) ((pair_eq.beq_iff (key_of d) k).0 same) h in
      rw (same, here) (entered_self k name d ds first same here)
  | inr other ↦ rw (other, or_else-none (lookup k ds)) (entered_other k name d ds first other)
]

lookup-enter :
    (k : String × String) (name : String) (r : Reading) (ds : Descriptors)
    → lookup k (enter name r ds).0 ≡ or_else (lookup k ds) (at_key k r)
lookup-enter k name (warned w) ds = ground (arith, Option-cases (lookup k ds))
lookup-enter k name (read d) ds = lookup-enter_found k name d ds (lookup (key_of d) ds) refl

lookup-read_entries :
    (k : String × String) (es : List ClassEntry) (ds : Descriptors)
    → lookup k (read_entries es ds).0 ≡ or_else (lookup k ds) (first_read k es)
lookup-read_entries k [] ds = ground (arith, Option-cases (lookup k ds))
lookup-read_entries k (e ∷ es) ds =
    lookup-read_entries k es (enter e.name (read_entry e) ds).0
    ∙ ap (λ o. or_else o (first_read k es)) (lookup-enter k e.name (read_entry e) ds)
    ∙ or_else_assoc (lookup k ds) (at_key k (read_entry e)) (first_read k es)

length-enter :
    (name : String) (r : Reading) (ds : Descriptors)
    → length (enter name r ds).0 + length (enter name r ds).1 ≡ suc (length ds)
length-enter name (warned w) ds = omega arith
length-enter name (read d) ds = length-enter_found name d ds (lookup (key_of d) ds) refl

length-read_entries :
    (es : List ClassEntry) (ds : Descriptors)
    → length (read_entries es ds).0 + length (read_entries es ds).1 ≡ length ds + length es
length-read_entries [] ds = omega arith
length-read_entries (e ∷ es) ds =
    let (ds', here) = enter e.name (read_entry e) ds in
    let (last, later) = read_entries es ds' in
    omega (
      arith,
      length-enter e.name (read_entry e) ds,
      length-read_entries es (enter e.name (read_entry e) ds).0,
      length-append (enter e.name (read_entry e) ds).1
          (read_entries es (enter e.name (read_entry e) ds).0).1,
    )

read_inj : {d d' : PluginDescriptor} → read d ≡ read d' → d ≡ d'
read_inj h = cc

warned_ne_read : {w : Warning} {d : PluginDescriptor} → warned w ≢ read d
warned_ne_read h = cc

checked-valid :
    (d d' : PluginDescriptor) (r : Result (Unit {0}))
    → validate_descriptor d ≡ r
    → checked d r ≡ read d'
    → validate_descriptor d' ≡ ok tt
checked-valid d d' (ok t) valid h = subst (λ x. validate_descriptor x ≡ ok tt) (read_inj h) valid
checked-valid d d' (err e) valid h = cc

-- A descriptor that was read is valid.
read_metadata-valid :
    (name : String) (m : Option PluginMetadata) (d : PluginDescriptor)
    → read_metadata name m ≡ read d
    → validate_descriptor d ≡ ok tt
read_metadata-valid name none d h = cc
read_metadata-valid name (some m) d h = elim (Bool-cases (is_elsewhere m.module_name name)) [
  | inl elsewhere ↦ absurd (warned_ne_read (rw elsewhere at h))
  | inr here ↦
      checked-valid (descriptor_of name m) d (validate_descriptor (descriptor_of name m)) refl
        (rw here at h)
]

read_class-valid :
    (r : Result (Option PluginClass)) (d : PluginDescriptor)
    → read_class r ≡ read d
    → validate_descriptor d ≡ ok tt
read_class-valid (err e) d h = cc
read_class-valid (ok none) d h = cc
read_class-valid (ok (some c)) d h = read_metadata-valid c.module_name c.metadata d h

read_entry-valid :
    (e : ClassEntry) (d : PluginDescriptor) → read_entry e ≡ read d → validate_descriptor d ≡ ok tt
unfolding read_entry
read_entry-valid e d h = read_class-valid (bind e.load class_of) d h

or_else-valid :
    (k : String × String) (r : Reading) (later : Option PluginDescriptor) (d : PluginDescriptor)
    → ((d' : PluginDescriptor) → r ≡ read d' → validate_descriptor d' ≡ ok tt)
    → (later ≡ some d → (validate_descriptor d ≡ ok tt) × (key_of d ≡ k))
    → or_else (at_key k r) later ≡ some d
    → (validate_descriptor d ≡ ok tt) × (key_of d ≡ k)
or_else-valid k (warned w) later d here there h = there h
or_else-valid k (read d') later d here there h = elim (Bool-cases (key_of d' == k)) [
  | inl same ↦
      let eq : d' ≡ d = some_inj (rw same at h) in
      (
        subst (λ x. validate_descriptor x ≡ ok tt) eq (here d' refl),
        subst (λ x. key_of x ≡ k) eq ((pair_eq.beq_iff (key_of d') k).0 same),
      )
  | inr other ↦ there (rw other at h)
]

first_read-valid :
    (k : String × String) (es : List ClassEntry) (d : PluginDescriptor)
    → first_read k es ≡ some d
    → (validate_descriptor d ≡ ok tt) × (key_of d ≡ k)
first_read-valid k [] d h = cc
first_read-valid k (e ∷ es) d h =
    or_else-valid k (read_entry e) (first_read k es) d (λ d'. read_entry-valid e d')
      (first_read-valid k es d) h

-- A scan of classes holds under each module and factory the first descriptor that an entry point
-- yields for them, which is valid, and there are as many descriptors and warnings as entry points.
pub descriptor_discovery-first :
    (es : List ClassEntry) (k : String × String)
    → (lookup k (descriptor_discovery es).0 ≡ first_read k es)
      × ((d : PluginDescriptor)
          → first_read k es ≡ some d
          → (validate_descriptor d ≡ ok tt) × (key_of d ≡ k))
      × (length (descriptor_discovery es).0 + length (descriptor_discovery es).1 ≡ length es)
unfolding descriptor_discovery
descriptor_discovery-first es k =
    (lookup-read_entries k es [], first_read-valid k es, omega (arith, length-read_entries es []))
