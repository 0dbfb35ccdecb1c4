-- ===== src/Core/Agents.antt =====
-- `AgentRegistryPlugin` of src/langharness_core/plugins/agents/registry.py: the agents in a JSON
-- document. An id is a list of code points, as in Core/Ids; the time is an argument.
use langharness.Prelude.{
  ℕ, String, Bool, true, false, not, ◌≡◌, refl, List, [], ◌∷◌, ◌++◌, map, Option, none, some,
  Result, ok, err, bind, Error, value_error, key_error, Action, pure, raise, lift, gets, modify,
  raise_if, or_raise, ◌>>=◌, ◌>>◌, ◌==◌, nat_eq, string_eq, if◌then◌else◌, any, filter, find,
  is_nonempty, All,
}
use langharness.Core.Ids.{validate_id}
pub mod Distinct

-- Equality of ids.
abbrev pub same_id : List ℕ → List ℕ → Bool
same_id [] [] = true
same_id (c ∷ s) (d ∷ t) = if c == d then same_id s t else false
same_id _ _ = false

pub record Agent : Type 0 where
  pub id : List ℕ
  pub name : List ℕ
  pub description : String
  pub enabled : Bool
  pub created_at : String
  pub updated_at : String

-- The document at the path: not there, none that `_read` accepts, or its agents.
pub data Document : Type 0 where
  missing : Document
  invalid : Document
  agents : List Agent → Document

abbrev pub default_agent : String → Agent
default_agent now = record {
  id = b's' ∷ b'i' ∷ b'm' ∷ b'p' ∷ b'l' ∷ b'e' ∷ b'_' ∷ b'a' ∷ b'g' ∷ b'e' ∷ b'n' ∷ b't' ∷ [];
  name = b'S' ∷ b'i' ∷ b'm' ∷ b'p' ∷ b'l' ∷ b'e' ∷ b' ' ∷ b'A' ∷ b'g' ∷ b'e' ∷ b'n' ∷ b't' ∷ [];
  description = "Built-in agent backed by the default plugin set.";
  enabled = true;
  created_at = now;
  updated_at = now;
}

-- `_ensure_file`
unfoldable pub ensure_file : String → Action Document (Unit {0})
ensure_file now missing = (ok tt, agents (default_agent now ∷ []))
ensure_file now invalid = (ok tt, invalid)
ensure_file now (agents l) = (ok tt, agents l)

unfoldable pub read_document : String → Action Document (List Agent)
read_document now missing = (ok (default_agent now ∷ []), agents (default_agent now ∷ []))
read_document now invalid = (err value_error, invalid)
read_document now (agents l) = (ok l, agents l)

unfoldable pub write_document : List Agent → Action Document (Unit {0})
write_document l _ = (ok tt, agents l)

unfoldable pub list_agents : String → Action Document (List Agent)
unfolding read_document
list_agents now = read_document now

unfoldable pub get_agent : String → List ℕ → Action Document (Option Agent)
unfolding read_document validate_id
get_agent now agent_id = do
  wanted ← lift (validate_id agent_id)
  l ← read_document now
  pure (find (λ a. same_id a.id wanted) l)

-- `name or wanted`
abbrev pub name_or : List ℕ → List ℕ → List ℕ
name_or [] wanted = wanted
name_or (c ∷ s) wanted = c ∷ s

abbrev pub new_agent : String → List ℕ → List ℕ → String → Agent
new_agent now wanted name description = record {
  id = wanted;
  name = name_or name wanted;
  description = description;
  enabled = true;
  created_at = now;
  updated_at = now;
}

unfoldable pub create_agent : String → List ℕ → List ℕ → String → Action Document Agent
unfolding read_document write_document validate_id
create_agent now agent_id name description = do
  wanted ← lift (validate_id agent_id)
  l ← read_document now
  raise_if (any (λ a. same_id a.id wanted) l) value_error
  let agent = new_agent now wanted name description
  write_document (l ++ agent ∷ [])
  pure agent

-- `_find`
abbrev pub find_agent : List ℕ → List Agent → Result Agent
find_agent agent_id l = elim (find (λ a. same_id a.id agent_id) l) [
  | none ↦ err key_error
  | some a ↦ ok a
]

abbrev pub given {ℓ} : {A : Type ℓ} → A → Option A → A
given old none = old
given old (some new) = new

abbrev pub changed : String → Option (List ℕ) → Option String → Option Bool → Agent → Agent
changed now name description enabled a = record a {
  name = given a.name name;
  description = given a.description description;
  enabled = given a.enabled enabled;
  updated_at = now;
}

-- The first agent with the id is the one that changes.
abbrev pub change_first : (Agent → Agent) → List ℕ → List Agent → List Agent
change_first f agent_id [] = []
change_first f agent_id (a ∷ l) =
    let rest = change_first f agent_id l in if same_id a.id agent_id then f a ∷ l else a ∷ rest

unfoldable pub update_agent :
    String → List ℕ → Option (List ℕ) → Option String → Option Bool → Action Document Agent
unfolding read_document write_document validate_id
update_agent now agent_id name description enabled = do
  wanted ← lift (validate_id agent_id)
  l ← read_document now
  old ← lift (find_agent wanted l)
  write_document (change_first (changed now name description enabled) wanted l)
  pure (changed now name description enabled old)

unfoldable pub delete_agent : String → List ℕ → Action Document (Unit {0})
unfolding read_document write_document validate_id
delete_agent now agent_id = do
  wanted ← lift (validate_id agent_id)
  l ← read_document now
  lift (find_agent wanted l)
  write_document (filter (λ a. not (same_id a.id wanted)) l)
