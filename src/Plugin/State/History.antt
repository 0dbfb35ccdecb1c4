-- ===== src/Plugin/State/History.antt =====
-- The append-only history of src/langharness_plugin/state_store.py: the list in memory, and the
-- rows of the table `plugin_history` in the order of their numbers.
use langharness.Prelude.{
  String, ◌≡◌, ap, sym, ◌∙◌, List, [], ◌∷◌, ◌++◌, map, map-append, Option, none, some, ◌==◌,
  string_eq, if◌then◌else◌,
}
use langharness.Prelude.Json.{Fields}

pub record HistoryEntry : Type 0 where
  pub ts : String
  pub action : String
  pub factory : Option String
  pub module_name : Option String
  pub scope_id : Option String
  pub instance_id : Option String
  pub detail : Fields

pub record InMemoryPluginHistoryStore : Type 0 where
  pub entries : List HistoryEntry

unfoldable pub memory_append :
    HistoryEntry → InMemoryPluginHistoryStore → InMemoryPluginHistoryStore
memory_append e m = record { entries = m.entries ++ e ∷ [] }

-- The rows of the table, the lowest number first; a new row gets the highest number.
pub record HistoryTable : Type 0 where
  pub rows : List HistoryEntry

unfoldable pub table_append : HistoryEntry → HistoryTable → HistoryTable
table_append e t = record { rows = t.rows ++ e ∷ [] }

-- `str(row[i]) if row[i] else None`: the empty text reads as `None`.
abbrev pub given : Option String → Option String
given none = none
given (some s) = if s == "" then none else some s

abbrev pub read_row : HistoryEntry → HistoryEntry
read_row e = record {
  ts = e.ts;
  action = e.action;
  factory = given e.factory;
  module_name = given e.module_name;
  scope_id = given e.scope_id;
  instance_id = given e.instance_id;
  detail = e.detail;
}

unfoldable pub table_entries : HistoryTable → List HistoryEntry
table_entries t = map read_row t.rows

abbrev pub append_all : List HistoryEntry → HistoryTable → HistoryTable
append_all [] t = t
append_all (e ∷ es) t = append_all es (table_append e t)

abbrev pub remember_all :
    List HistoryEntry → InMemoryPluginHistoryStore → InMemoryPluginHistoryStore
remember_all [] m = m
remember_all (e ∷ es) m = remember_all es (memory_append e m)

step_entries :
    (e : HistoryEntry) (t : HistoryTable) (m : InMemoryPluginHistoryStore)
    → table_entries t ≡ map read_row m.entries
    → table_entries (table_append e t) ≡ map read_row ((memory_append e m).entries)
unfolding table_entries table_append memory_append
step_entries e t m h =
    map-append read_row t.rows (e ∷ [])
    ∙ ap (λ l. l ++ read_row e ∷ []) h
    ∙ sym (map-append read_row m.entries (e ∷ []))

-- From entries that are the same up to empty texts, after the same calls the table answers what
-- the store in memory answers, in the same order, up to empty texts, which it reads as absent.
pub append_all-entries :
    (es : List HistoryEntry) (t : HistoryTable) (m : InMemoryPluginHistoryStore)
    → table_entries t ≡ map read_row m.entries
    → table_entries (append_all es t) ≡ map read_row ((remember_all es m).entries)
append_all-entries [] t m h = h
append_all-entries (e ∷ es) t m h =
    append_all-entries es (table_append e t) (memory_append e m) (step_entries e t m h)
