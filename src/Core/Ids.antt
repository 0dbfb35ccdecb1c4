-- ===== src/Core/Ids.antt =====
-- src/langharness_core/common/ids.py: the check of an identifier, and the memory key of a thread.
-- Texts are lists of code points.
use langharness.Prelude.{
  ℕ, Bool, true, false, not, ◌&&◌, ◌||◌, ◌≡◌, refl, ◌≢◌, List, [], ◌∷◌, ◌++◌, Option, none, some,
  Result, ok, err, Error, bind, nat_eq, nat_beq, if◌then◌else◌, leb, length, all, All, arith, inl,
  inr, Bool-cases, Option-cases, sym, ◌∙◌, bind_eq_ok, ok_inj,
}
use mathlib.Core.Path.{subst}

-- `[A-Za-z0-9._-]`
unfoldable pub is_id_char : ℕ → Bool
is_id_char c =
    (leb b'A' c && leb c b'Z')
    || (leb b'a' c && leb c b'z')
    || (leb b'0' c && leb c b'9')
    || nat_beq c b'.'
    || nat_beq c b'_'
    || nat_beq c b'-'

-- `[A-Za-z0-9._-]{1,64}`, the whole text.
abbrev pub is_id_body : List ℕ → Bool
is_id_body s = leb 1 (length s) && leb (length s) 64 && all is_id_char s

-- The text before one final newline, if it ends in one.
unfoldable pub before_newline : List ℕ → Option (List ℕ)
before_newline [] = none
before_newline (c ∷ []) = if nat_beq c 10 then some [] else none
before_newline (c ∷ d ∷ s) = elim (before_newline (d ∷ s)) [ none ↦ none | some t ↦ some (c ∷ t) ]

-- `ID_PATTERN.match`: `$` matches at the end, and also before a newline at the end.
unfoldable pub matches_id : List ℕ → Bool
unfolding before_newline
matches_id s =
    is_id_body s
    || (elim (before_newline s) as (λ _. Bool) [ none ↦ false | some t ↦ is_id_body t ])

-- `value in _RESERVED_IDS`
abbrev pub is_reserved : List ℕ → Bool
is_reserved (c ∷ []) = nat_beq c b'.'
is_reserved (c ∷ d ∷ []) = nat_beq c b'.' && nat_beq d b'.'
is_reserved _ = false

unfoldable pub validate_id : List ℕ → Result (List ℕ)
validate_id value =
    if is_reserved value || not (matches_id value) then err Error.value_error else ok value

-- `f"{user}::{agent}::{session}"`
abbrev pub join_key : List ℕ → List ℕ → List ℕ → List ℕ
join_key user agent session = user ++ (58 ∷ 58 ∷ (agent ++ (58 ∷ 58 ∷ session)))

unfoldable pub thread_key : List ℕ → List ℕ → List ℕ → Result (List ℕ)
thread_key user_id session_id agent_id = bind (validate_id user_id) λ user.
    bind (validate_id session_id)
      λ session. bind (validate_id agent_id) λ agent. ok (join_key user agent session)

-- No colon in a text.
abbrev NoColon : List ℕ → Type 0
NoColon = All (λ c. c ≢ 58)

body-NoColon : (s : List ℕ) → all is_id_char s ≡ true → NoColon s
unfolding is_id_char
body-NoColon [] h = tt
body-NoColon (c ∷ s) h = (ground arith, body-NoColon s (ground arith))

newline-NoColon : (s t : List ℕ) → before_newline s ≡ some t → NoColon t → NoColon s
unfolding before_newline
newline-NoColon [] t e h = cc
newline-NoColon (c ∷ []) t e h = (ground arith, tt)
newline-NoColon (c ∷ d ∷ s) t e h = elim (Option-cases (before_newline (d ∷ s))) [
  | inl missing ↦ absurd (ground arith)
  | inr (u, found) ↦
      let split : c ∷ u ≡ t = ground arith in
      let n : NoColon (c ∷ u) = subst NoColon (sym split) h in
      (n.0, newline-NoColon (d ∷ s) u found n.1)
]

valid-NoColon : (s t : List ℕ) → validate_id s ≡ ok t → (t ≡ s) × NoColon s
unfolding validate_id matches_id
valid-NoColon s t h = elim (Bool-cases (is_id_body s)) [
  | inl body ↦ (ground arith, body-NoColon s (ground arith))
  | inr other ↦ elim (Option-cases (before_newline s)) [
    | inl missing ↦ absurd (ground arith)
    | inr (u, found) ↦ (ground arith, newline-NoColon s u found (body-NoColon u (ground arith)))
  ]
]

-- Two texts without a colon, each followed by one: the first colon tells where they end.
split_at_colon :
    (a b x y : List ℕ) → NoColon a → NoColon b → a ++ (58 ∷ x) ≡ b ++ (58 ∷ y) → (a ≡ b) × (x ≡ y)
split_at_colon [] [] x y p q e = (refl, cc)
split_at_colon [] (d ∷ b) x y p q e = absurd (ground (arith, q.0))
split_at_colon (c ∷ a) [] x y p q e = absurd (ground (arith, p.0))
split_at_colon (c ∷ a) (d ∷ b) x y p q e =
    let (r, s) = split_at_colon a b x y p.1 q.1 (cc) in (cc, s)

thread_key_parts :
    (u s a key : List ℕ)
    → thread_key u s a ≡ ok key
    → NoColon u × NoColon a × (join_key u a s ≡ key)
unfolding thread_key
thread_key_parts u s a key h =
    let (u', eu, h1) = bind_eq_ok (validate_id u) _ h in
    let (s', es, h2) = bind_eq_ok (validate_id s) _ h1 in
    let (a', ea, h3) = bind_eq_ok (validate_id a) _ h2 in
    let (same_u, pu) = valid-NoColon u u' eu in
    let (same_s, ps) = valid-NoColon s s' es in
    let (same_a, pa) = valid-NoColon a a' ea in (pu, pa, cc (ok_inj h3))

-- Two accepted triples with the same thread key are the same triple: memories of different users,
-- agents and sessions never share a key.
pub thread_key_injective :
    (u s a u' s' a' key : List ℕ)
    → thread_key u s a ≡ ok key
    → thread_key u' s' a' ≡ ok key
    → (u ≡ u') × (s ≡ s') × (a ≡ a')
thread_key_injective u s a u' s' a' key h h' =
    let (pu, pa, e) = thread_key_parts u s a key h in
    let (qu, qa, e') = thread_key_parts u' s' a' key h' in
    let (same_u, rest) =
      split_at_colon u u' (58 ∷ (a ++ (58 ∷ 58 ∷ s))) (58 ∷ (a' ++ (58 ∷ 58 ∷ s'))) pu qu
        (e ∙ sym e') in
    let tail : a ++ (58 ∷ 58 ∷ s) ≡ a' ++ (58 ∷ 58 ∷ s') = cc in
    let (same_a, rest') = split_at_colon a a' (58 ∷ s) (58 ∷ s') pa qa tail in (same_u, cc, same_a)

before_newline-append : (s : List ℕ) → before_newline (s ++ 10 ∷ []) ≡ some s
unfolding before_newline
before_newline-append [] = refl
before_newline-append (c ∷ []) = refl
before_newline-append (c ∷ d ∷ s) = rw (before_newline-append (d ∷ s))

not_reserved-newline : (s : List ℕ) → is_id_body s ≡ true → is_reserved (s ++ 10 ∷ []) ≡ false
not_reserved-newline [] h = cc
not_reserved-newline (c ∷ []) h = ground arith
not_reserved-newline (c ∷ d ∷ []) h = refl
not_reserved-newline (c ∷ d ∷ e ∷ s) h = refl

-- Whatever identifier of the allowed characters there is, it is accepted with a newline at its end
-- too, although a newline is none of the allowed characters.
pub validate_id-newline :
    (s : List ℕ)
    → is_id_body s ≡ true
    → (validate_id (s ++ 10 ∷ []) ≡ ok (s ++ 10 ∷ [])) × (is_id_char 10 ≡ false)
unfolding validate_id matches_id is_id_char
validate_id-newline s h = (ground (arith, before_newline-append s, not_reserved-newline s h), refl)
