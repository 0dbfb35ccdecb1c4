-- ===== src/Plugin/Config/Store.antt =====
-- The class `PluginConfigStore` of src/langharness_plugin/config_store.py: one scope's plugin
-- configuration with its versions, and the file it is written to.
use Prim.Native.String.{String}
use langharness.Prelude.{
  ℕ, suc, ◌+◌, Bool, true, false, not, ◌≡◌, List, [], ◌∷◌, ◌++◌, Option, none, some, ◌==◌, nat_eq,
  string_eq, if◌then◌else◌, find, is_nonempty, Error, value_error, key_error, Result, ok, err, bind,
  Action, pure, gets, lift, modify, ◌>>=◌, ◌>>◌,
}
use langharness.Plugin.Config.Secrets.{Plugins, clean_config}
pub mod Versions
pub mod Run

-- One version. `config` is the object {"plugins": ...}, `none` where it lacks the key.
pub record Entry : Type 0 where
  pub seq : ℕ
  pub ts : String
  pub action : String
  pub actor : String
  pub target_seq : Option ℕ
  pub config : Option Plugins

-- `self._payload`
pub record Payload : Type 0 where
  pub schema : ℕ
  pub scope : String
  pub current : ℕ
  pub history : List Entry

-- The file at the store's path: not there, no JSON object with a list of versions, or a payload.
pub data File : Type 0 where
  missing : File
  malformed : File
  stored : Payload → File

-- The store and the file it writes.
pub record PluginConfigStore : Type 0 where
  pub file : File
  pub payload : Payload

abbrev pub schema_version : ℕ
schema_version = 1

abbrev pub init_entry : String → Entry
init_entry now = record {
  seq = 1;
  ts = now;
  action = "init";
  actor = "system";
  target_seq = none;
  config = some [];
}

abbrev pub init_payload : String → String → Payload
init_payload scope now = record {
  schema = schema_version;
  scope = scope;
  current = 1;
  history = init_entry now ∷ [];
}

-- `self._write()`
unfoldable pub write : Payload → PluginConfigStore
write payload = record { file = stored payload; payload = payload }

unfoldable pub load : String → String → File → Result PluginConfigStore
unfolding write
load scope now missing = ok (write (init_payload scope now))
load scope now malformed = err value_error
load scope now (stored payload) =
    if not (payload.schema == schema_version)
    then err value_error
    else (if not (is_nonempty payload.history)
        then err value_error
        else ok (record { file = stored payload; payload = payload }))

abbrev pub found : Option Entry → Result Entry
found none = err key_error
found (some e) = ok e

-- `self._version(seq)`: the first entry with that number.
unfoldable pub version : ℕ → PluginConfigStore → Result Entry
version seq s = found (find (λ e. e.seq == seq) s.payload.history)

unfoldable pub current : PluginConfigStore → Result Entry
unfolding version
current s = version s.payload.current s

unfoldable pub current_seq : PluginConfigStore → ℕ
current_seq s = s.payload.current

unfoldable pub plugins : PluginConfigStore → Result Plugins
unfolding current
plugins s = bind (current s) (λ e. ok (elim e.config as (λ _. Plugins) [ none ↦ [] | some p ↦ p ]))

unfoldable pub config_of : ℕ → PluginConfigStore → Result (Option Plugins)
unfolding version
config_of seq s = bind (version seq s) (λ e. ok e.config)

-- `self._append(config, action, actor, target_seq)`
unfoldable pub append :
    Option Plugins → String → String → Option ℕ → String → Action PluginConfigStore ℕ
unfolding write
append config action actor target now s =
    let seq = s.payload.current + 1 in
    let entry : Entry = record {
      seq = seq;
      ts = now;
      action = action;
      actor = actor;
      target_seq = target;
      config = config;
    } in
    (
      ok seq,
      write (record {
        schema = s.payload.schema;
        scope = s.payload.scope;
        current = seq;
        history = s.payload.history ++ entry ∷ [];
      }),
    )

unfoldable pub update : Plugins → String → String → String → Action PluginConfigStore ℕ
unfolding append
update plugins actor action now = append (some (clean_config plugins)) action actor none now

unfoldable pub rollback : ℕ → String → String → Action PluginConfigStore ℕ
unfolding append version
rollback seq actor now = do
  target ← λ s. lift (version seq s) s
  append target.config "rollback" actor (some seq) now
