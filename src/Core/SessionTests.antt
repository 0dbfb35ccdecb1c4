-- ===== src/Core/SessionTests.antt =====
-- The theorems on src/langharness_core/plugins/sessions/sqlite.py at a short run.
use langharness.Prelude.{◌+◌, List, [], ◌∷◌, some, ok, ◌≡◌, refl, string_eq, pair_eq, length, In}
use langharness.Prelude.Dict.{lookup, values}
use langharness.Prelude.Int.{pos, negsuc}
use langharness.Core.Ids.{validate_id, matches_id, is_id_char}
use langharness.Core.Sessions.{
  Session, Sessions, SessionCall, new_call, touch_call, run, new_session, touch, check_id,
  check_ids, list_sessions, get_session,
}
use langharness.Core.Sessions.Rows.{IsRow, turns_of, turns_in, run-turns}
use langharness.Core.Sessions.Listing.{least, list_sessions-bounded}

abbrev calls : List SessionCall
calls =
    new_call "s" "1" "u"
    ∷ touch_call "2" "u" "s" "a"
    ∷ touch_call "3" "u" "s" "a"
    ∷ touch_call "4" "u" "t" "b"
    ∷ touch_call "5" "u" "" "b"
    ∷ []

abbrev table : Sessions
table = run calls []

abbrev second : Session
second = record {
  user_id = "u";
  session_id = "t";
  created_at = "4";
  last_used_at = "4";
  turns = 1;
  last_agent_id = "b";
  agents_used = "b" ∷ [];
}

list_sessions_tests :
    (list_sessions "u" (pos 1) table ≡ ok (second ∷ []))
    × (list_sessions "u" (negsuc 0) table ≡ ok [])
    × (get_session "u" "t" table ≡ ok (some second))
unfolding list_sessions get_session new_session touch check_ids check_id validate_id matches_id
    is_id_char
list_sessions_tests = (refl, refl, refl)

run-turns_example :
    IsRow (lookup ("u", "s") table)
    × (turns_of (lookup ("u", "s") table) ≡ 0 + turns_in ("u", "s") calls)
run-turns_example = run-turns calls ("u", "s") [] tt

list_sessions-bounded_example :
    (length (second ∷ []) ≡ least 1 2)
    × ((r : Session) → In r (second ∷ []) → In r (values table) × (r.user_id ≡ "u"))
unfolding list_sessions new_session touch check_ids check_id validate_id matches_id is_id_char
list_sessions-bounded_example = list_sessions-bounded "u" (pos 1) table (second ∷ []) refl
