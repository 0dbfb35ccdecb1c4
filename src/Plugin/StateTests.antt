-- ===== src/Plugin/StateTests.antt =====
-- The theorems on src/langharness_plugin/registry.py and state_store.py at concrete values.
use langharness.Prelude.{
  ◌≡◌, ◌≢◌, ◌⊎◌, refl, [], ◌∷◌, map, none, some, String, ok, err, string_eq, nat_eq, state_conflict,
}
use langharness.Prelude.Dict.{lookup}
use langharness.Prelude.Json.{end}
use langharness.Plugin.Registry.{PluginDescriptor, PluginRegistry, validate_descriptor, get_by_name}
use langharness.Plugin.Registry.Catalog.{IsCatalog}
use langharness.Plugin.Registry.File.{load, save, load-save}
use langharness.Plugin.State.{RuntimeStateSnapshot}
use langharness.Plugin.State.History.{HistoryEntry, table_entries, read_row}
use langharness.Plugin.State.Stores.{
  InMemoryRuntimeStateStore, RuntimeStateTable, memory_load, memory_save, table_load, table_save,
  row_version, Agrees, table_save-Agrees, table_save-load,
}

abbrev descriptor : PluginDescriptor
descriptor = record {
  name = "log";
  version = "1";
  module_name = "m";
  factory = "f";
  specification = "s";
  description = "d";
  swap_policy = "hot";
}

descriptor_valid : validate_descriptor descriptor ≡ ok tt
unfolding validate_descriptor
descriptor_valid = refl

abbrev catalog : PluginRegistry
catalog = record { descriptors = ("f", descriptor) ∷ [] }

catalog-IsCatalog : IsCatalog catalog
catalog-IsCatalog = record { sound = ((refl, descriptor_valid), tt); distinct = (refl, tt) }

log_found : get_by_name "log" catalog ≡ ok descriptor
unfolding get_by_name
log_found = refl

load-save_example :
    (r' : PluginRegistry) × (load (save catalog) ≡ ok r')
    × IsCatalog r'
    × ((f : String) → lookup f r'.descriptors ≡ lookup f catalog.descriptors)
load-save_example = load-save catalog catalog-IsCatalog

abbrev snapshot : RuntimeStateSnapshot
snapshot = record { version = 0; scopes = []; descriptors = []; instances = []; registrations = [] }

abbrev empty_table : RuntimeStateTable
empty_table = record { row = none }

abbrev empty_store : InMemoryRuntimeStateStore
empty_store = record { snapshot = none }

empty-Agrees : Agrees empty_table empty_store
unfolding table_load memory_load
empty-Agrees = record { same = refl; version = refl }

table_save-Agrees_example :
    ((table_save snapshot 0 empty_table).0 ≡ (memory_save snapshot 0 empty_store).0)
    × Agrees (table_save snapshot 0 empty_table).1 (memory_save snapshot 0 empty_store).1
table_save-Agrees_example = table_save-Agrees snapshot 0 empty_table empty_store empty-Agrees

table_save-load_example :
    ((row_version none ≡ 0)
      × (table_load (table_save snapshot 0 empty_table).1
          ≡ ok (some (record snapshot { version = 1 }))))
    ⊎ ((row_version none ≢ 0)
        × (table_save snapshot 0 empty_table ≡ (err state_conflict, empty_table)))
table_save-load_example = table_save-load snapshot 0 empty_table

abbrev entry : HistoryEntry
entry = record {
  ts = "t";
  action = "create_instance";
  factory = some "f";
  module_name = some "";
  scope_id = none;
  instance_id = none;
  detail = end;
}

no_rows : table_entries (record { rows = [] }) ≡ map read_row []
unfolding table_entries
no_rows = refl
