-- ===== src/Plugin/Config/Secrets.antt =====
-- `strip_secrets`, `clean_config` and `merge_overrides` of
-- src/langharness_plugin/config_store.py, on JSON objects.
use Prim.Native.String.{String}
use mathlib.Core.List.{reverse}
use mathlib.Core.Path.{subst}
use langharness.Prelude.{
  ℕ, ◌+◌, Bool, true, false, ◌&&◌, ◌≡◌, refl, List, [], ◌∷◌, ◌++◌, Option, none, some, ◌==◌,
  string_eq, nat_eq, nat_beq, if◌then◌else◌, leb, any, All, ap, ◌∙◌, arith, inl, inr, Bool-cases,
}
use langharness.Prelude.Dict.{Dict}
use langharness.Prelude.Json.{truth, Json, null, bool, num, text, arr, obj, Fields, end, field, get}
use langharness.Prelude.Text.{codes, starts_with}

-- `str.lower` of one character, as far as the suffixes below can tell: besides A to Z only the
-- Kelvin sign and the dotted capital I have an ASCII letter in lower case.
unfoldable pub lower_char : ℕ → List ℕ
lower_char c =
    if leb b'A' c && leb c b'Z'
    then (c + 32) ∷ []
    else (if nat_beq c 0x212a
        then b'k' ∷ []
        else (if nat_beq c 0x130 then b'i' ∷ 0x307 ∷ [] else c ∷ []))

unfoldable pub lower : List ℕ → List ℕ
unfolding lower_char
lower [] = []
lower (c ∷ s) = lower_char c ++ lower s

-- `key.rsplit(".", 1)[-1]`: what stands behind the last dot; `current` is what was read since the
-- last one, in reverse.
unfoldable pub last_part : List ℕ → List ℕ → List ℕ
last_part [] current = reverse current
last_part (c ∷ s) current = last_part s (if nat_beq c b'.' then [] else c ∷ current)

-- `s.endswith(suffix)`
abbrev pub ends_with : List ℕ → List ℕ → Bool
ends_with suffix s = starts_with (reverse suffix) (reverse s)

abbrev pub secret_key_suffixes : List String
secret_key_suffixes = "api_key" ∷ "token" ∷ "secret" ∷ "password" ∷ []

-- The test of `strip_secrets`.
unfoldable pub is_secret : String → Bool
unfolding lower last_part
is_secret key =
    any (λ suffix. ends_with (codes suffix) (lower (last_part (codes key) []))) secret_key_suffixes

unfoldable pub strip_secrets : Fields → Fields
strip_secrets end = end
strip_secrets (field k v fs) =
    let rest = strip_secrets fs in if is_secret k then rest else field k v rest

unfoldable pub clean_value : Json → Json
unfolding strip_secrets
clean_value (obj properties) = obj (strip_secrets properties)
clean_value v = v

-- `item["properties"] = strip_secrets(item["properties"])` where that is an object.
unfoldable pub clean_entry : Fields → Fields
unfolding clean_value
clean_entry end = end
clean_entry (field k v fs) =
    let rest = clean_entry fs in
    if k == "properties" then field k (clean_value v) fs else field k v rest

-- The plugins of one configuration: each name with its entry.
abbrev pub Plugins : Type 0
Plugins = Dict String Fields

unfoldable pub clean_config : Plugins → Plugins
unfolding clean_entry
clean_config [] = []
clean_config ((name, entry) ∷ plugins) = (name, clean_entry entry) ∷ clean_config plugins

-- `d[key] = v` on the fields of an object.
unfoldable pub set_field : String → Json → Fields → Fields
set_field k v end = field k v end
set_field k v (field j w fs) =
    let rest = set_field k v fs in if j == k then field j v fs else field j w rest

-- `properties.update(stored)`
unfoldable pub update_fields : Fields → Fields → Fields
unfolding set_field
update_fields fs end = fs
update_fields fs (field k v stored) = update_fields (set_field k v fs) stored

abbrev pub enabled_of : Option Json → Bool
enabled_of none = true
enabled_of (some v) = truth v

unfoldable pub merge_properties : Fields → Option Json → Fields
unfolding update_fields
merge_properties defaults (some (obj stored)) = update_fields defaults stored
merge_properties defaults _ = defaults

unfoldable pub merge_overrides : Fields → Fields → Bool × Fields
unfolding merge_properties
merge_overrides defaults override =
    (enabled_of (get "enabled" override), merge_properties defaults (get "properties" override))

-- No stored property has the name of a secret.
abbrev pub NoSecret : Fields → Type 0
NoSecret end = Unit
NoSecret (field k v fs) = (is_secret k ≡ false) × NoSecret fs

pub strip_secrets-NoSecret : (fs : Fields) → NoSecret (strip_secrets fs)
unfolding strip_secrets
strip_secrets-NoSecret end = tt
strip_secrets-NoSecret (field k v fs) = ground (arith, strip_secrets-NoSecret fs)

clean_value-NoSecret : (v : Json) (fs : Fields) → clean_value v ≡ obj fs → NoSecret fs
unfolding clean_value
clean_value-NoSecret (obj properties) fs h =
    let same : strip_secrets properties ≡ fs = cc in
    subst NoSecret same (strip_secrets-NoSecret properties)
clean_value-NoSecret null fs h = cc
clean_value-NoSecret (bool b) fs h = cc
clean_value-NoSecret (num n) fs h = cc
clean_value-NoSecret (text s) fs h = cc
clean_value-NoSecret (arr xs) fs h = cc

clean_entry-NoSecret :
    (entry fs : Fields) → get "properties" (clean_entry entry) ≡ some (obj fs) → NoSecret fs
unfolding clean_entry
clean_entry-NoSecret end fs h = cc
clean_entry-NoSecret (field k v rest) fs h = elim (Bool-cases (k == "properties")) [
  | inl same ↦ clean_value-NoSecret v fs (ground arith)
  | inr other ↦ ground (arith, clean_entry-NoSecret rest fs)
]

-- After `clean_config` no plugin's stored properties have a key that names a secret.
pub clean_config-NoSecret :
    (plugins : Plugins)
    → All
        (λ e. (fs : Fields) → get "properties" e.1 ≡ some (obj fs) → NoSecret fs)
        (clean_config plugins)
unfolding clean_config
clean_config-NoSecret [] = tt
clean_config-NoSecret ((name, entry) ∷ plugins) =
    (clean_entry-NoSecret entry, clean_config-NoSecret plugins)

-- Each key once.
abbrev pub IsDistinct : Fields → Type 0
IsDistinct end = Unit
IsDistinct (field k v fs) = (get k fs ≡ none) × IsDistinct fs

get-set_field :
    (k j : String) (v : Json) (fs : Fields)
    → get j (set_field k v fs) ≡ (if k == j then some v else get j fs)
unfolding set_field
get-set_field k j v end = refl
get-set_field k j v (field i w fs) = ground (
  arith,
  string_eq.beq_iff k j,
  string_eq.beq_iff i k,
  string_eq.beq_iff i j,
  get-set_field k j v fs,
)

abbrev pub or_else : Option Json → Option Json → Option Json
or_else none d = d
or_else (some v) d = some v

get-update_fields :
    (j : String) (defaults stored : Fields)
    → IsDistinct stored
    → get j (update_fields defaults stored) ≡ or_else (get j stored) (get j defaults)
unfolding update_fields
get-update_fields j defaults end h = refl
get-update_fields j defaults (field k v stored) (new, h) = elim (Bool-cases (k == j)) [
  | inl same ↦
      let absent : get j stored ≡ none =
        subst (λ i. get i stored ≡ none) ((string_eq.beq_iff k j).0 same) new in
      ground (
        arith,
        get-update_fields j (set_field k v defaults) stored h,
        get-set_field k j v defaults,
        ap (λ o. or_else o (some v)) absent,
      )
  | inr other ↦
      ground
        (arith, get-update_fields j (set_field k v defaults) stored h, get-set_field k j v defaults)
]

-- Where the keys of the stored properties are distinct, `merge_overrides` answers a stored
-- property where the entry has one and the default elsewhere.
pub merge_overrides-get :
    (defaults override stored : Fields) (j : String)
    → IsDistinct stored
    → get "properties" override ≡ some (obj stored)
    → get j ((merge_overrides defaults override).1) ≡ or_else (get j stored) (get j defaults)
unfolding merge_overrides
merge_overrides-get defaults override stored j distinct h =
    ap (λ o. get j (merge_properties defaults o)) h ∙ get-update_fields j defaults stored distinct
