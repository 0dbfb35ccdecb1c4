-- ===== src/Plugin/Config/Store/Run.antt =====
-- Sequences of `update` and `rollback` calls on a store of src/langharness_plugin/config_store.py,
-- and loading the file they leave.
use Prim.Native.String.{String}
use mathlib.Core.Path.{subst, subst⁻¹}
use langharness.Prelude.{
  ℕ, ◌+◌, true, ◌≡◌, refl, sym, ap, ◌∙◌, ok_inj, bind_eq_ok, List, [], ◌∷◌, ◌++◌, Option, none,
  some, ◌==◌, nat_eq, nat_beq_iff, string_eq, Bool-cases, is_nonempty, arith, inl, inr, Error,
  Result, ok, err, bind, Result-cases,
}
use langharness.Plugin.Config.Secrets.{Plugins, clean_config}
use langharness.Plugin.Config.Store.{
  Entry, Payload, File, stored, PluginConfigStore, schema_version, version, plugins, config_of,
  append, update, rollback, load, write,
}
use langharness.Plugin.Config.Store.Versions.{
  IsHistory, append-IsHistory, version-append, version-append_new, plugins-append,
}

pub data Request : Type 0 where
  set_plugins : Plugins → String → String → String → Request
  roll_back : ℕ → String → String → Request

abbrev pub step : Request → PluginConfigStore → PluginConfigStore
step (set_plugins new actor action now) s = (update new actor action now s).1
step (roll_back seq actor now) s = (rollback seq actor now s).1

abbrev pub run : List Request → PluginConfigStore → PluginConfigStore
run [] s = s
run (r ∷ rs) s = run rs (step r s)

-- Where no version is numbered above the current one, `update` answers the number after the
-- current one, `plugins` then answers the given configuration without its secrets, and `history`
-- is the old one with one version behind it.
pub update-plugins :
    (new : Plugins) (actor action now : String) (s : PluginConfigStore)
    → IsHistory s
    → let (r, s') = update new actor action now s in
      (r ≡ ok (s.payload.current + 1))
      × (s'.payload.current ≡ s.payload.current + 1)
      × (plugins s' ≡ ok (clean_config new))
      × ((e : Entry) × (s'.payload.history ≡ s.payload.history ++ e ∷ []))
unfolding update
update-plugins new actor action now s h =
    (refl, refl, plugins-append (some (clean_config new)) action actor none now s h, (_, refl))

abbrev pub or_empty : Option Plugins → Plugins
or_empty none = []
or_empty (some p) = p

abbrev config_result : Result Entry → Result (Option Plugins)
config_result r = bind r (λ e. ok e.config)

pub version_of_config :
    (seq : ℕ) (s : PluginConfigStore) (c : Option Plugins)
    → config_of seq s ≡ ok c
    → (e : Entry) × (version seq s ≡ ok e) × (e.config ≡ c)
unfolding config_of
version_of_config seq s c h =
    let (e, found, q) = bind_eq_ok (version seq s) (λ e. ok e.config) h in (e, found, ok_inj q)

append-answers :
    (c : Option Plugins) (action actor : String) (target : Option ℕ) (now : String)
    (s : PluginConfigStore)
    → (append c action actor target now s).0 ≡ ok (s.payload.current + 1)
unfolding append
append-answers c action actor target now s = refl

rollback-ok :
    (seq : ℕ) (actor now : String) (s : PluginConfigStore) (e : Entry)
    → version seq s ≡ ok e
    → rollback seq actor now s ≡ append e.config "rollback" actor (some seq) now s
unfolding rollback
rollback-ok seq actor now s e h =
    ap
      (λ r. elim r as (λ _. Result ℕ × PluginConfigStore) [
        | ok a ↦ append a.config "rollback" actor (some seq) now s
        | err x ↦ (err x, s)
      ])
      h

rollback-err :
    (seq : ℕ) (actor now : String) (s : PluginConfigStore) (e : Error)
    → version seq s ≡ err e
    → rollback seq actor now s ≡ (err e, s)
unfolding rollback
rollback-err seq actor now s e h =
    ap
      (λ r. elim r as (λ _. Result ℕ × PluginConfigStore) [
        | ok a ↦ append a.config "rollback" actor (some seq) now s
        | err x ↦ (err x, s)
      ])
      h

-- `rollback` to a version that is there appends a version, the current one, with the
-- configuration of that version, and `plugins` then answers it.
pub rollback-plugins :
    (seq : ℕ) (actor now : String) (s : PluginConfigStore) (c : Option Plugins)
    → IsHistory s
    → config_of seq s ≡ ok c
    → let (r, s') = rollback seq actor now s in
      (r ≡ ok (s.payload.current + 1))
      × (config_of (s.payload.current + 1) s' ≡ ok c)
      × (plugins s' ≡ ok (or_empty c))
unfolding config_of
rollback-plugins seq actor now s c h q =
    let (e, found, same) = version_of_config seq s c q in
    subst⁻¹
      (λ p.
        (p.0 ≡ ok (s.payload.current + 1))
        × (config_of (s.payload.current + 1) p.1 ≡ ok c)
        × (plugins p.1 ≡ ok (or_empty c)))
      (rollback-ok seq actor now s e found)
      (
        append-answers e.config "rollback" actor (some seq) now s,
        ap config_result (version-append_new e.config "rollback" actor (some seq) now s h)
            ∙ ap ok same,
        plugins-append e.config "rollback" actor (some seq) now s h
            ∙ ap (λ c. ok (or_empty c)) same,
      )

abbrev Keeps : PluginConfigStore → PluginConfigStore → Type 0
Keeps s s' = IsHistory s' × ((n : ℕ) (e : Entry) → version n s ≡ ok e → version n s' ≡ ok e)

append-Keeps :
    (c : Option Plugins) (action actor : String) (target : Option ℕ) (now : String)
    (s : PluginConfigStore)
    → IsHistory s
    → Keeps s ((append c action actor target now s).1)
append-Keeps c action actor target now s h = (
  append-IsHistory c action actor target now s h,
  λ n e. version-append c action actor target now n e s,
)

step-Keeps : (r : Request) (s : PluginConfigStore) → IsHistory s → Keeps s (step r s)
unfolding update
step-Keeps (set_plugins new actor action now) s h =
    append-Keeps (some (clean_config new)) action actor none now s h
step-Keeps (roll_back seq actor now) s h = elim (Result-cases (version seq s)) [
  | inl (e, found) ↦
      subst⁻¹ (λ p. Keeps s (p.1)) (rollback-ok seq actor now s e found)
        (append-Keeps e.config "rollback" actor (some seq) now s h)
  | inr (e, gone) ↦
      subst⁻¹ (λ p. Keeps s (p.1)) (rollback-err seq actor now s e gone) (h, λ n e q. q)
]

-- In a store with no version numbered above the current one, a version keeps its content
-- through any sequence of calls, those that raise included, and no version is ever numbered
-- above the current one.
pub run-version :
    (rs : List Request) (n : ℕ) (e : Entry) (s : PluginConfigStore)
    → IsHistory s
    → version n s ≡ ok e
    → (version n (run rs s) ≡ ok e) × IsHistory (run rs s)
run-version [] n e s h found = (found, h)
run-version (r ∷ rs) n e s h found =
    let (h', keeps) = step-Keeps r s h in run-version rs n e (step r s) h' (keeps n e found)

-- The file of a store is what it holds, in the present schema and with a version at least.
abbrev IsStored : PluginConfigStore → Type 0
IsStored s =
    (s.file ≡ stored s.payload)
    × (s.payload.schema ≡ schema_version)
    × (is_nonempty s.payload.history ≡ true)

load_passes :
    (scope now : String) (payload : Payload)
    → payload.schema ≡ schema_version
    → is_nonempty payload.history ≡ true
    → load scope now (stored payload) ≡ ok (record { file = stored payload; payload = payload })
unfolding load
load_passes scope now payload schema some_version =
    ground (arith, nat_beq_iff payload.schema schema_version)

nonempty-snoc : (es : List Entry) (e : Entry) → is_nonempty (es ++ e ∷ []) ≡ true
nonempty-snoc [] e = refl
nonempty-snoc (x ∷ es) e = refl

load-IsStored :
    (scope now : String) (file : File) (s : PluginConfigStore)
    → load scope now file ≡ ok s
    → IsStored s
unfolding load write
load-IsStored scope now File.missing s h = subst IsStored (ok_inj h) (refl, refl, refl)
load-IsStored scope now File.malformed s h = cc
load-IsStored scope now (stored payload) s h =
    elim (Bool-cases (payload.schema == schema_version)) [
      | inl same ↦ elim (Bool-cases (is_nonempty payload.history)) [
        | inl some_version ↦
            let schema : payload.schema ≡ schema_version =
              (nat_beq_iff payload.schema schema_version).0 same in
            let same_store : record { file = stored payload; payload = payload } ≡ s =
              ok_inj (sym (load_passes scope now payload schema some_version) ∙ h) in
            subst IsStored same_store (refl, schema, some_version)
        | inr none_there ↦ ground arith
      ]
      | inr other ↦ ground arith
    ]

load_stored :
    (scope now : String) (s : PluginConfigStore) → IsStored s → load scope now s.file ≡ ok s
unfolding load
load_stored scope now s (same, schema, some_version) =
    subst⁻¹ (λ f. load scope now f ≡ ok s) same
      (load_passes scope now s.payload schema some_version
        ∙ ap (λ f. ok (record { file = f; payload = s.payload })) (sym same))

append-IsStored :
    (c : Option Plugins) (action actor : String) (target : Option ℕ) (now : String)
    (s : PluginConfigStore)
    → IsStored s
    → IsStored ((append c action actor target now s).1)
unfolding append write
append-IsStored c action actor target now s (same, h, some_version) =
    (refl, h, nonempty-snoc s.payload.history _)

step-IsStored : (r : Request) (s : PluginConfigStore) → IsStored s → IsStored (step r s)
unfolding update
step-IsStored (set_plugins new actor action now) s h =
    append-IsStored (some (clean_config new)) action actor none now s h
step-IsStored (roll_back seq actor now) s h = elim (Result-cases (version seq s)) [
  | inl (e, found) ↦
      subst⁻¹ (λ p. IsStored (p.1)) (rollback-ok seq actor now s e found)
        (append-IsStored e.config "rollback" actor (some seq) now s h)
  | inr (e, gone) ↦ subst⁻¹ (λ p. IsStored (p.1)) (rollback-err seq actor now s e gone) h
]

run-IsStored : (rs : List Request) (s : PluginConfigStore) → IsStored s → IsStored (run rs s)
run-IsStored [] s h = h
run-IsStored (r ∷ rs) s h = run-IsStored rs (step r s) (step-IsStored r s h)

-- A store that was loaded, from a file or as a new one, and used by any sequence of calls is
-- found again, with every version, by loading the file it left.
pub run-load :
    (scope now later : String) (file : File) (s : PluginConfigStore) (rs : List Request)
    → load scope now file ≡ ok s
    → load scope later ((run rs s).file) ≡ ok (run rs s)
run-load scope now later file s rs h =
    load_stored scope later (run rs s) (run-IsStored rs s (load-IsStored scope now file s h))
