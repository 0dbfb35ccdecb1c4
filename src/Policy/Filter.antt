-- ===== src/Policy/Filter.antt =====
-- `visible_scopes`, `visibility_filter` and `_escape_ldap` of
-- src/langharness_plugin/scope_policy.py.
use langharness.Prelude.{
  ℕ, String, true, false, ◌≡◌, refl, ◌≢◌, List, [], ◌∷◌, ◌++◌, map, Result, ok, bind, ◌==◌, nat_eq,
  if◌then◌else◌, All, arith, ap, ◌∙◌, leb, ◌-◌, ◌*◌, ◌+◌,
}
use langharness.Prelude.Text.{codes}
use langharness.Scope.Model.{Scopes}
use langharness.Scope.Tree.Reads.{ancestors}

-- `replacements.get(character, character)` of `_escape_ldap`, on code points.
unfoldable pub escape_char : ℕ → List ℕ
escape_char c =
    if c == 0x5c
    then codes "\\5c"
    else (if c == 0x2a
        then codes "\\2a"
        else (if c == 0x28
            then codes "\\28"
            else (if c == 0x29 then codes "\\29" else (if c == 0 then codes "\\00" else c ∷ []))))

unfoldable pub escape_ldap : List ℕ → List ℕ
unfolding escape_char
escape_ldap [] = []
escape_ldap (c ∷ s) = escape_char c ++ escape_ldap s

-- `PluginScopePolicy.visible_scopes`: the consumer's scope and those above it.
unfoldable pub visible_scopes : Scopes → String → Result (List String)
visible_scopes tree consumer_scope =
    bind (ancestors tree consumer_scope true) λ scopes. ok (map (λ s. s.id) scopes)

-- `f"({PLUGIN_SCOPE_ID}={_escape_ldap(str(scope_id))})"`
unfoldable pub clause : String → List ℕ
unfolding escape_ldap
clause scope_id = codes "(plugin.scope_id=" ++ (escape_ldap (codes scope_id) ++ codes ")")

unfoldable pub clauses : List String → List ℕ
unfolding clause
clauses [] = []
clauses (s ∷ ss) = clause s ++ clauses ss

unfoldable pub visibility_filter : Scopes → String → Result (List ℕ)
unfolding visible_scopes clauses
visibility_filter tree consumer_scope =
    bind (visible_scopes tree consumer_scope) λ ids. ok (codes "(|" ++ (clauses ids ++ codes ")"))

-- A character that has no meaning to a filter by itself.
abbrev pub IsPlain : ℕ → Type 0
IsPlain c = (c ≢ 0x2a) × (c ≢ 0x28) × (c ≢ 0x29) × (c ≢ 0)

-- The value of a hexadecimal digit.
abbrev pub hex : ℕ → ℕ
hex c = if leb c 0x39 then c - 0x30 else c - 0x57

-- Reading an escaped text back, as a filter does: a backslash and two hexadecimal digits stand for
-- a character.
unfoldable pub unescape : List ℕ → List ℕ
unescape [] = []
unescape (c ∷ []) = c ∷ []
unescape (c ∷ x ∷ []) = c ∷ x ∷ []
unescape (c ∷ x ∷ y ∷ s) =
    let escaped = (hex x * 16 + hex y) ∷ unescape s in
    let plain = c ∷ unescape (x ∷ y ∷ s) in if c == 0x5c then escaped else plain

unescape_plain : (c : ℕ) (s : List ℕ) → (c == 0x5c) ≡ false → unescape (c ∷ s) ≡ c ∷ unescape s
unfolding unescape
unescape_plain c [] h = refl
unescape_plain c (x ∷ []) h = refl
unescape_plain c (x ∷ y ∷ s) h = rw h

unescape_char : (c : ℕ) (s : List ℕ) → unescape (escape_char c ++ s) ≡ c ∷ unescape s
unfolding escape_char unescape
unescape_char c s = ground (arith, unescape_plain c s)

-- An escaped text is read back as the text itself.
pub unescape-escape_ldap : (s : List ℕ) → unescape (escape_ldap s) ≡ s
unfolding escape_ldap unescape
unescape-escape_ldap [] = refl
unescape-escape_ldap (c ∷ s) = unescape_char c (escape_ldap s) ∙ ap (◌∷◌ c) (unescape-escape_ldap s)

All-append : (P : ℕ → Type 0) (xs ys : List ℕ) → All P xs → All P ys → All P (xs ++ ys)
All-append P [] ys a b = b
All-append P (x ∷ xs) ys a b = (a.0, All-append P xs ys a.1 b)

escape_char-IsPlain : (c : ℕ) → All IsPlain (escape_char c)
unfolding escape_char
escape_char-IsPlain c = ground arith

-- An escaped text has none of the characters that shape a filter: no star, no parenthesis, no NUL.
pub escape_ldap-IsPlain : (s : List ℕ) → All IsPlain (escape_ldap s)
unfolding escape_ldap
escape_ldap-IsPlain [] = tt
escape_ldap-IsPlain (c ∷ s) =
    All-append IsPlain (escape_char c) (escape_ldap s) (escape_char-IsPlain c)
      (escape_ldap-IsPlain s)
