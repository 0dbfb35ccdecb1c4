-- ===== src/Core/Sessions/Rows.antt =====
-- The rows of src/langharness_core/plugins/sessions/sqlite.py after any sequence of calls.
use mathlib.Core.Path.{subst}
use langharness.Prelude.{
  ℕ, ◌+◌, ◌≤◌, String, Bool, true, false, List, [], ◌∷◌, Option, none, some, Result, ok, err, ◌==◌,
  string_eq, pair_eq, if◌then◌else◌, contains, ◌≡◌, ◌≢◌, refl, arith, Bool-cases, inl, inr,
  NoRepeat, NoRepeat-snoc, length, length-append, contains-append, beq_refl, is_some,
}
use langharness.Prelude.Dict.{lookup, has, lookup-insert}
use langharness.Core.Sessions.{
  Session, Sessions, new_row, check_id, insert_unless, add_session, use_session, new_session,
  with_agent, touched, check_ids, touch, SessionCall, new_call, touch_call, step, run,
}

-- A row whose agents are listed once, at most one for each turn, the last one among them.
abbrev pub IsSession : Session → Type 0
IsSession r =
    NoRepeat r.agents_used
    × (length r.agents_used ≤ r.turns)
    × (r.turns ≢ 0 → contains r.last_agent_id r.agents_used ≡ true)

abbrev pub IsRow : Option Session → Type 0
IsRow none = Unit
IsRow (some r) = IsSession r

abbrev pub turns_of : Option Session → ℕ
turns_of none = 0
turns_of (some r) = r.turns

abbrev pub turn_if : Bool → Result (Unit {0}) → ℕ
turn_if same (err e) = 0
turn_if same (ok _) = if same then 1 else 0

-- The turns that a call makes in a session: one for a use of it with accepted identifiers.
abbrev pub turns_by : String × String → SessionCall → ℕ
turns_by k (new_call session_id timestamp user) = 0
turns_by k (touch_call timestamp user session agent) =
    turn_if ((user, session) == k) (check_ids user session agent)

abbrev pub turns_in : String × String → List SessionCall → ℕ
turns_in k [] = 0
turns_in k (c ∷ cs) = turns_by k c + turns_in k cs

with_agent-NoRepeat :
    (agent : String) (agents : List String) → NoRepeat agents → NoRepeat (with_agent agent agents)
with_agent-NoRepeat agent agents h = elim (Bool-cases (contains agent agents)) [
  | inl known ↦ rw known h
  | inr new ↦ rw new (NoRepeat-snoc agent agents h new)
]

touched-IsSession :
    (user session agent timestamp : String) (o : Option Session)
    → IsRow o
    → IsSession (touched user session agent timestamp o)
touched-IsSession user session agent timestamp none h =
    ((refl, tt), omega arith, λ _. ground (arith, beq_refl agent))
touched-IsSession user session agent timestamp (some r) (distinct, few, last) = (
  with_agent-NoRepeat agent r.agents_used distinct,
  ground (arith, length-append r.agents_used (agent ∷ [])),
  λ _. ground (arith, contains-append agent r.agents_used (agent ∷ []), beq_refl agent),
)

none_of_has : {A : Type 0} (o : Option A) → is_some o ≡ false → o ≡ none
none_of_has none h = refl
none_of_has (some a) h = cc

-- The row of a key and the turns of it, kept up to some more turns.
abbrev Grown : ℕ → Option Session → Option Session → Type 0
Grown n before after = (IsRow before → IsRow after) × (turns_of after ≡ turns_of before + n)

Grown-refl : (o : Option Session) → Grown 0 o o
Grown-refl o = (λ h. h, omega arith)

touched-Grown :
    (user session agent timestamp : String) (o : Option Session)
    → Grown 1 o (some (touched user session agent timestamp o))
touched-Grown user session agent timestamp none =
    (touched-IsSession user session agent timestamp none, refl)
touched-Grown user session agent timestamp (some r) =
    (touched-IsSession user session agent timestamp (some r), omega arith)

insert_unless-Grown :
    (k : String × String) (session_id timestamp user : String) (taken : Bool) (t : Sessions)
    → has (user, session_id) t ≡ taken
    → Grown 0 (lookup k t) (lookup k (insert_unless taken (new_row user session_id timestamp) t).1)
insert_unless-Grown k session_id timestamp user true t h = Grown-refl (lookup k t)
insert_unless-Grown k session_id timestamp user false t free =
    rw (lookup-insert (user, session_id) k (new_row user session_id timestamp) t)
      (elim (Bool-cases ((user, session_id) == k)) [
        | inl same ↦
            let eq : (user, session_id) ≡ k = (pair_eq.beq_iff (user, session_id) k).0 same in
            let absent : lookup k t ≡ none =
              subst (λ j. lookup j t ≡ none) eq (none_of_has (lookup (user, session_id) t) free) in
            rw (same, absent) (λ _. (tt, omega arith, λ h. absurd (h refl)), refl)
        | inr other ↦ rw other (Grown-refl (lookup k t))
      ])

add_session-Grown :
    (k : String × String) (session_id timestamp user : String) (r : Result (Unit {0}))
    (t : Sessions)
    → Grown 0 (lookup k t) (lookup k (add_session session_id timestamp user r t).1)
add_session-Grown k session_id timestamp user (err e) t = Grown-refl (lookup k t)
add_session-Grown k session_id timestamp user (ok x) t =
    insert_unless-Grown k session_id timestamp user (has (user, session_id) t) t refl

use_session-Grown :
    (k : String × String) (timestamp user session agent : String) (r : Result (Unit {0}))
    (t : Sessions)
    → Grown
        (turn_if ((user, session) == k) r)
        (lookup k t)
        (lookup k (use_session timestamp user session agent r t).1)
use_session-Grown k timestamp user session agent (err e) t = Grown-refl (lookup k t)
use_session-Grown k timestamp user session agent (ok x) t =
    let row = touched user session agent timestamp (lookup (user, session) t) in
    rw (lookup-insert (user, session) k row t) (elim (Bool-cases ((user, session) == k)) [
      | inl same ↦
          let eq : (user, session) ≡ k = (pair_eq.beq_iff (user, session) k).0 same in
          rw same (
            subst (λ j. Grown 1 (lookup j t) (some row)) eq
              (touched-Grown user session agent timestamp (lookup (user, session) t)))
      | inr other ↦ rw other (Grown-refl (lookup k t))
    ])

step-Grown :
    (k : String × String) (c : SessionCall) (t : Sessions)
    → Grown (turns_by k c) (lookup k t) (lookup k (step c t))
unfolding new_session touch
step-Grown k (new_call session_id timestamp user) t =
    add_session-Grown k session_id timestamp user (check_id user) t
step-Grown k (touch_call timestamp user session agent) t =
    use_session-Grown k timestamp user session agent (check_ids user session agent) t

-- From rows that are sound, after any sequence of calls, those that raise included, each row is
-- sound, and the turns of a session are those it had and one for each accepted use.
pub run-turns :
    (cs : List SessionCall) (k : String × String) (t : Sessions)
    → IsRow (lookup k t)
    → IsRow (lookup k (run cs t))
      × (turns_of (lookup k (run cs t)) ≡ turns_of (lookup k t) + turns_in k cs)
run-turns [] k t h = (h, omega arith)
run-turns (c ∷ cs) k t h =
    let (sound, turned) = step-Grown k c t in
    let (sound', turned') = run-turns cs k (step c t) (sound h) in (sound', omega arith)
