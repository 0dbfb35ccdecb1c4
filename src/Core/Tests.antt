-- ===== src/Core/Tests.antt =====
-- The theorems on src/langharness_core/ at concrete identifiers and calls.
use langharness.Prelude.{none, some, ℕ, ◌≡◌, refl, List, [], ◌∷◌, ok, false}
use langharness.Core.Agents.{missing}
use langharness.Core.Agents.Distinct.{
  Request, create_request, update_request, delete_request, run, IsDistinct, run-IsDistinct,
}
use langharness.Core.Ids.{
  validate_id, thread_key, thread_key_injective, is_id_char, matches_id, join_key,
}

abbrev id_a : List ℕ
id_a = b'a' ∷ []

abbrev id_s : List ℕ
id_s = b's' ∷ []

abbrev id_g : List ℕ
id_g = b'g' ∷ []

key_of_a : thread_key id_a id_s id_g ≡ ok (join_key id_a id_g id_s)
unfolding thread_key validate_id matches_id is_id_char
key_of_a = refl

thread_key_injective_example : (id_a ≡ id_a) × (id_s ≡ id_s) × (id_g ≡ id_g)
thread_key_injective_example =
    thread_key_injective id_a id_s id_g id_a id_s id_g (join_key id_a id_g id_s) key_of_a key_of_a

abbrev requests : List Request
requests =
    create_request "now" id_a id_s "an agent"
    ∷ update_request "now" id_a none none (some false)
    ∷ delete_request "now" id_g
    ∷ []

run-IsDistinct_example : IsDistinct (run requests missing)
run-IsDistinct_example = run-IsDistinct requests missing tt
