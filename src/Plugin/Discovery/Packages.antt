-- ===== src/Plugin/Discovery/Packages.antt =====
-- What the scan for packages of src/langharness_plugin/discovery.py answers.
use mathlib.Core.Path.{subst}
use langharness.Prelude.{
  ℕ, ◌+◌, suc, String, Bool, true, false, not, ◌||◌, List, [], ◌∷◌, map, Result, ok, err, bind,
  bind_eq_ok, Error, discovery, string_eq, if◌then◌else◌, contains, length, ◌≡◌, refl, arith,
  NoRepeat, All, ok_inj,
}
use langharness.Prelude.Text.{is_blank}
use langharness.Plugin.Registry.{validate_descriptor}
use langharness.Plugin.Discovery.{
  PluginContribution, PluginPackage, valid_targets, exports_wrongly, validate_contribution,
  validate_contributions, validate_package, Loaded, a_package, other_value, Factory, no_callable,
  factory, EntryPoint, check_loaded, call_factory, load_package, DiscoveryResult, add_outcome,
  scan_entries, validate_catalog, scan,
}

-- A contribution that can be installed.
abbrev pub IsUsable : PluginContribution → Type 0
IsUsable c =
    (contains c.target valid_targets ≡ true)
    × (validate_descriptor c.descriptor ≡ ok tt)
    × (exports_wrongly c ≡ false)

-- A package with usable contributions, each under an id of its own.
abbrev pub IsSound : PluginPackage → Type 0
IsSound p =
    (is_blank p.package_id ≡ false)
    × (is_blank p.version ≡ false)
    × All IsUsable p.contributions
    × NoRepeat (map (λ c. c.contribution_id) p.contributions)

-- No element of the second list is in the first.
abbrev Apart : List String → List String → Type 0
Apart known [] = Unit
Apart known (x ∷ xs) = (contains x known ≡ false) × Apart known xs

Apart-cons :
    (k : String) (known xs : List String)
    → Apart (k ∷ known) xs
    → (contains k xs ≡ false) × Apart known xs
Apart-cons k known [] h = (refl, tt)
Apart-cons k known (x ∷ xs) (new, later) =
    let (fresh, apart) = Apart-cons k known xs later in
    (ground (arith, string_eq.beq_iff x k, string_eq.beq_iff k x), (ground arith, apart))

-- A guard of a call that answers.
pub guard_passed {ℓ} :
    {A : Type ℓ} (b : Bool) (e : Error) (rest : Result A) {a : A}
    → (if b then err e else rest) ≡ ok a
    → (b ≡ false) × (rest ≡ ok a)
guard_passed true e rest h = cc
guard_passed false e rest h = (refl, h)

not-false : {b : Bool} → not b ≡ false → b ≡ true
not-false h = ground arith

validate_contribution-IsUsable :
    (known : List String) (c : PluginContribution)
    → validate_contribution known c ≡ ok tt
    → (contains c.contribution_id known ≡ false) × IsUsable c
validate_contribution-IsUsable known c h =
    let wrongly : Result (Unit {0}) = if exports_wrongly c then err discovery else ok tt in
    let described : Result (Unit {0}) = bind (validate_descriptor c.descriptor) λ _. wrongly in
    let targeted : Result (Unit {0}) =
      if not (contains c.target valid_targets) then err discovery else described in
    let (new, h1) = guard_passed (contains c.contribution_id known) discovery targeted h in
    let (target, h2) =
      guard_passed (not (contains c.target valid_targets)) discovery described h1 in
    let (t, valid, h3) = bind_eq_ok (validate_descriptor c.descriptor) (λ _. wrongly) h2 in
    let (right, _) = guard_passed (exports_wrongly c) discovery (ok tt) h3 in
    (new, (not-false target, valid, right))

validate_contributions-IsUsable :
    (known : List String) (cs : List PluginContribution)
    → validate_contributions known cs ≡ ok tt
    → All IsUsable cs
      × NoRepeat (map (λ c. c.contribution_id) cs)
      × Apart known (map (λ c. c.contribution_id) cs)
validate_contributions-IsUsable known [] h = (tt, tt, tt)
validate_contributions-IsUsable known (c ∷ cs) h =
    let (t, here, later) =
      bind_eq_ok (validate_contribution known c)
        (λ _. validate_contributions (c.contribution_id ∷ known) cs) h in
    let (new, usable) = validate_contribution-IsUsable known c here in
    let (rest, distinct, apart) =
      validate_contributions-IsUsable (c.contribution_id ∷ known) cs later in
    let (fresh, apart') =
      Apart-cons c.contribution_id known (map (λ c. c.contribution_id) cs) apart in
    ((usable, rest), (fresh, distinct), (new, apart'))

validate_package-IsSound : (p : PluginPackage) → validate_package p ≡ ok tt → IsSound p
unfolding validate_package
validate_package-IsSound p h =
    let (named, h1) =
      guard_passed (is_blank p.package_id || is_blank p.version) discovery
        (validate_contributions [] p.contributions) h in
    let (usable, distinct, _) = validate_contributions-IsUsable [] p.contributions h1 in
    (ground arith, ground arith, usable, distinct)

check_loaded-IsSound : (l : Loaded) (p : PluginPackage) → check_loaded l ≡ ok p → IsSound p
check_loaded-IsSound other_value p h = cc
check_loaded-IsSound (a_package q) p h =
    let (t, valid, same) = bind_eq_ok (validate_package q) (λ _. ok q) h in
    subst IsSound (ok_inj same) (validate_package-IsSound q valid)

call_factory-IsSound : (f : Factory) (p : PluginPackage) → call_factory f ≡ ok p → IsSound p
call_factory-IsSound no_callable p h = cc
call_factory-IsSound (factory outcome) p h =
    let (l, _, checked) = bind_eq_ok outcome check_loaded h in check_loaded-IsSound l p checked

load_package-IsSound : (e : EntryPoint) (p : PluginPackage) → load_package e ≡ ok p → IsSound p
unfolding load_package
load_package-IsSound e p h =
    let (f, _, called) = bind_eq_ok e.load call_factory h in call_factory-IsSound f p called

add_outcome-IsSound :
    (e : EntryPoint) (outcome : Result PluginPackage)
    → load_package e ≡ outcome
    → (r : DiscoveryResult) → All IsSound r.packages
    → All IsSound (add_outcome e outcome r).packages
add_outcome-IsSound e (ok p) h r rest = (load_package-IsSound e p h, rest)
add_outcome-IsSound e (err error) h r rest = rest

add_outcome-count :
    (e : EntryPoint) (outcome : Result PluginPackage) (r : DiscoveryResult) (n : ℕ)
    → length r.packages + length r.failures ≡ n
    → length (add_outcome e outcome r).packages + length (add_outcome e outcome r).failures ≡ suc n
add_outcome-count e (ok p) r n h = omega arith
add_outcome-count e (err error) r n h = omega arith

scan_entries-IsSound : (es : List EntryPoint) → All IsSound (scan_entries es).packages
scan_entries-IsSound [] = tt
scan_entries-IsSound (e ∷ es) =
    add_outcome-IsSound e (load_package e) refl (scan_entries es) (scan_entries-IsSound es)

-- Every entry point is a package or a failure.
scan_entries-count :
    (es : List EntryPoint)
    → length (scan_entries es).packages + length (scan_entries es).failures ≡ length es
scan_entries-count [] = refl
scan_entries-count (e ∷ es) =
    add_outcome-count e (load_package e) (scan_entries es) (length es) (scan_entries-count es)

validate_catalog-NoRepeat :
    (known : List String) (ps : List PluginPackage)
    → validate_catalog known ps ≡ ok tt
    → NoRepeat (map (λ p. p.package_id) ps) × Apart known (map (λ p. p.package_id) ps)
validate_catalog-NoRepeat known [] h = (tt, tt)
validate_catalog-NoRepeat known (p ∷ ps) h =
    let (new, later) =
      guard_passed (contains p.package_id known) discovery
        (validate_catalog (p.package_id ∷ known) ps) h in
    let (distinct, apart) = validate_catalog-NoRepeat (p.package_id ∷ known) ps later in
    let (fresh, apart') = Apart-cons p.package_id known (map (λ p. p.package_id) ps) apart in
    ((fresh, distinct), (new, apart'))

-- When a scan answers, its packages are sound, no two have the same id, and there are as many
-- packages and failures as entry points.
pub scan-IsSound :
    (entries : List EntryPoint) (r : DiscoveryResult)
    → scan entries ≡ ok r
    → All IsSound r.packages
      × NoRepeat (map (λ p. p.package_id) r.packages)
      × (length r.packages + length r.failures ≡ length entries)
unfolding scan
scan-IsSound entries r h =
    let found = scan_entries entries in
    let (t, unique, same) = bind_eq_ok (validate_catalog [] found.packages) (λ _. ok found) h in
    let eq : found ≡ r = ok_inj same in
    (
      subst (λ q. All IsSound q.packages) eq (scan_entries-IsSound entries),
      subst (λ q. NoRepeat (map (λ p. p.package_id) q.packages)) eq
          (validate_catalog-NoRepeat [] found.packages unique).0,
      subst (λ q. length q.packages + length q.failures ≡ length entries) eq
          (scan_entries-count entries),
    )
