-- ===== src/Core/Sessions.antt =====
-- src/langharness_core/plugins/sessions/sqlite.py: the index of sessions. The table is a dict in the
-- order of its rows; each method runs without another one in between. `_now()` and `uuid4().hex`
-- are arguments, and `component_error` stands for the `IntegrityError` of an insert under a key that
-- is there. Opening and closing the database are left out.
use mathlib.Core.List.{reverse}
use langharness.Prelude.{
  ℕ, zero, suc, ◌+◌, ◌≤◌, String, Bool, true, false, not, List, [], ◌∷◌, ◌++◌, Option, none, some,
  Result, ok, err, bind, Error, component_error, Action, pure, lift, ◌>>=◌, ◌==◌, string_eq,
  pair_eq, if◌then◌else◌, filter, contains, ◌≡◌, ◌≢◌, refl, arith, Bool-cases, Result-cases,
  Option-cases, inl, inr, ◌⊎◌, In, In-filter, In-reverse, NoRepeat, NoRepeat-snoc, length,
  length-append, ltb, contains-append, beq_refl,
}
use langharness.Prelude.Dict.{Dict, lookup, has, insert, values}
use langharness.Prelude.Int.{ℤ, pos, negsuc, pos_part}
use langharness.Prelude.Order.{text_order, sort_by, In-sort}
use langharness.Prelude.Text.{codes}
use langharness.Core.Ids.{validate_id}
pub mod Rows
pub mod Listing

-- A row, as `_record` reads it.
pub record Session : Type 0 where
  pub user_id : String
  pub session_id : String
  pub created_at : String
  pub last_used_at : String
  pub turns : ℕ
  pub last_agent_id : String
  pub agents_used : List String

abbrev pub Sessions : Type 0
Sessions = Dict (String × String) Session

abbrev pub new_row : String → String → String → Session
new_row user session timestamp = record {
  user_id = user;
  session_id = session;
  created_at = timestamp;
  last_used_at = timestamp;
  turns = 0;
  last_agent_id = "";
  agents_used = [];
}

unfoldable pub check_id : String → Result (Unit {0})
unfolding validate_id
check_id value = bind (validate_id (codes value)) λ _. ok tt

abbrev pub insert_unless : Bool → Session → Action Sessions (Unit {0})
insert_unless true r t = (err component_error, t)
insert_unless false r t = (ok tt, insert (r.user_id, r.session_id) r t)

-- `INSERT INTO sessions`
abbrev pub insert_row : Session → Action Sessions (Unit {0})
insert_row r t = insert_unless (has (r.user_id, r.session_id) t) r t

abbrev pub add_session : String → String → String → Result (Unit {0}) → Action Sessions String
add_session session_id timestamp user (err e) t = (err e, t)
add_session session_id timestamp user (ok _) t =
    let (r, t') = insert_row (new_row user session_id timestamp) t in
    (bind r λ _. ok session_id, t')

unfoldable pub new_session : String → String → String → Action Sessions String
unfolding check_id
new_session session_id timestamp user = add_session session_id timestamp user (check_id user)

unfoldable pub get_session : String → String → Sessions → Result (Option Session)
unfolding check_id
get_session user session t =
    bind (check_id user) λ _. bind (check_id session) λ _. ok (lookup (user, session) t)

abbrev pub with_agent : String → List String → List String
with_agent agent agents = if contains agent agents then agents else agents ++ agent ∷ []

abbrev pub used_again : String → String → Session → Session
used_again agent timestamp r = record {
  user_id = r.user_id;
  session_id = r.session_id;
  created_at = r.created_at;
  last_used_at = timestamp;
  turns = suc r.turns;
  last_agent_id = agent;
  agents_used = with_agent agent r.agents_used;
}

abbrev pub first_use : String → String → String → String → Session
first_use user session agent timestamp = record {
  user_id = user;
  session_id = session;
  created_at = timestamp;
  last_used_at = timestamp;
  turns = 1;
  last_agent_id = agent;
  agents_used = agent ∷ [];
}

-- The row that `touch` writes.
abbrev pub touched : String → String → String → String → Option Session → Session
touched user session agent timestamp none = first_use user session agent timestamp
touched user session agent timestamp (some r) = used_again agent timestamp r

unfoldable pub check_ids : String → String → String → Result (Unit {0})
unfolding check_id
check_ids user session agent = bind (check_id user) λ _. bind (check_id session) λ _. check_id agent

abbrev pub use_session :
    String → String → String → String → Result (Unit {0}) → Action Sessions (Unit {0})
use_session timestamp user session agent (err e) t = (err e, t)
use_session timestamp user session agent (ok _) t = (
  ok tt,
  insert (user, session) (touched user session agent timestamp (lookup (user, session) t)) t,
)

unfoldable pub touch : String → String → String → String → Action Sessions (Unit {0})
unfolding check_ids
touch timestamp user session agent =
    use_session timestamp user session agent (check_ids user session agent)

abbrev pub take {ℓ} : {A : Type ℓ} → ℕ → List A → List A
take zero xs = []
take (suc n) [] = []
take (suc n) (x ∷ xs) = x ∷ take n xs

-- `ORDER BY last_used_at DESC, rowid DESC`: the reverse of a stable order.
abbrev pub newest_first : List Session → List Session
newest_first rows = reverse (sort_by text_order (λ r. codes r.last_used_at) rows)

unfoldable pub list_sessions : String → ℤ → Sessions → Result (List Session)
unfolding check_id
list_sessions user limit t =
    bind (check_id user)
      λ _. ok (take (pos_part limit) (newest_first (filter (λ r. r.user_id == user) (values t))))

pub data SessionCall : Type 0 where
  new_call : (session_id timestamp user : String) → SessionCall
  touch_call : (timestamp user session agent : String) → SessionCall

abbrev pub step : SessionCall → Sessions → Sessions
step (new_call session_id timestamp user) t = (new_session session_id timestamp user t).1
step (touch_call timestamp user session agent) t = (touch timestamp user session agent t).1

abbrev pub run : List SessionCall → Sessions → Sessions
run [] t = t
run (c ∷ cs) t = run cs (step c t)
