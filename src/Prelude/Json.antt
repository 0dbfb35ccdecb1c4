-- ===== src/Prelude/Json.antt =====
-- JSON values. `json.dumps` and `json.loads` are taken as inverse to one another on these, so a
-- stored text stands for its value.
use Prim.Native.String.{String}
use mathlib.Core.Path.{◌≡◌, refl}
use mathlib.Core.Bool.{Bool, true, false, not}
use mathlib.Core.Option.{Option, none, some}
use mathlib.Core.List.{List, [], ◌∷◌}
use langharness.Prelude.Int.{ℤ, pos, negsuc}
use langharness.Prelude.Outcome.{Result, ok, err, key_error}
use langharness.Prelude.Tests.{if◌then◌else◌, nat_beq}
use langharness.Prelude.Equality.{◌==◌, string_eq}

mutual
  pub data Json : Type 0 where
    null : Json
    bool : Bool → Json
    num : ℤ → Json
    text : String → Json
    arr : Items → Json
    obj : Fields → Json

  pub data Items : Type 0 where
    nil : Items
    cons : Json → Items → Items

  pub data Fields : Type 0 where
    end : Fields
    field : String → Json → Fields → Fields

-- `data.get(key)`
abbrev pub get : String → Fields → Option Json
get k end = none
get k (field j v fs) = if j == k then some v else get k fs

abbrev pub to_items : List Json → Items
to_items [] = nil
to_items (x ∷ xs) = cons x (to_items xs)

abbrev pub of_items : Items → List Json
of_items nil = []
of_items (cons x xs) = x ∷ of_items xs

pub of_items-to_items : (xs : List Json) → of_items (to_items xs) ≡ xs
of_items-to_items [] = refl
of_items-to_items (x ∷ xs) = cc (of_items-to_items xs)

abbrev pub of_option : Option String → Json
of_option none = null
of_option (some s) = text s

-- `item[key]` where a text is stored.
abbrev pub text_at : String → Fields → Result String
text_at key fields = elim (get key fields) [ some (text s) ↦ ok s | _ ↦ err key_error ]

-- `item[key]` where a text or `None` is stored.
abbrev pub optional_at : String → Fields → Result (Option String)
optional_at key fields = elim (get key fields) [
  | some (text s) ↦ ok (some s)
  | some null ↦ ok none
  | _ ↦ err key_error
]

-- Truth of a JSON value, as of `bool(...)`.
abbrev pub truth : Json → Bool
truth null = false
truth (bool b) = b
truth (num (pos n)) = not (nat_beq n 0)
truth (num (negsuc n)) = true
truth (text s) = not (s == "")
truth (arr nil) = false
truth (arr (cons x xs)) = true
truth (obj end) = false
truth (obj (field k v fs)) = true
