-- ===== src/Plugins.antt =====
-- internal/store/plugin.go: the table of plugins and the log lines that are kept for each. The
-- statements may fail (`fails`), which leaves the table alone. The channel that tells the UI is
-- left out: sending to it never blocks and changes nothing else.
pub mod Logs
pub mod Registry
mod Tests
use shiv.Prelude.{
  ltb, if◌then◌else◌, length, drop, ℕ, ◌-◌, Bool, true, false, ◌||◌, Option, none, some, List, [],
  ◌∷◌, ◌++◌, map,
}
use shiv.Text.{Bytes, same, less}
use shiv.Events.Event.{PluginLogEvent, SetPluginEnabledEvent}

abbrev pub max_plugin_log_lines : ℕ
max_plugin_log_lines = 500

pub record PluginEntry : Type 0 where
  pub name : Bytes
  pub path : Bytes
  pub enabled : Bool

-- `INSERT … ON CONFLICT(name) DO UPDATE SET path = excluded.path`
unfoldable pub upsert_plugin : Bytes → Bytes → List PluginEntry → List PluginEntry
upsert_plugin name path [] = record { name = name; path = path; enabled = true } ∷ []
upsert_plugin name path (e ∷ es) =
    if same e.name name then record e { path = path } ∷ es else e ∷ upsert_plugin name path es

-- `DELETE FROM plugins WHERE name = ?`
unfoldable pub delete_plugin : Bytes → List PluginEntry → List PluginEntry
delete_plugin name [] = []
delete_plugin name (e ∷ es) =
    let rest = delete_plugin name es in if same e.name name then rest else e ∷ rest

-- `UPDATE plugins SET enabled = ? WHERE name = ?`
unfoldable pub update_enabled : Bytes → Bool → List PluginEntry → List PluginEntry
update_enabled name enabled [] = []
update_enabled name enabled (e ∷ es) =
    (if same e.name name then record e { enabled = enabled } else e)
    ∷ update_enabled name enabled es

unfoldable pub register_plugin : Bool → Bytes → Bytes → List PluginEntry → Bool × List PluginEntry
register_plugin fails name path es =
    if fails then (false, es) else (true, upsert_plugin name path es)

-- `SELECT enabled FROM plugins WHERE name = ?`
unfoldable pub find_enabled : Bytes → List PluginEntry → Option Bool
find_enabled name [] = none
find_enabled name (e ∷ es) = if same e.name name then some e.enabled else find_enabled name es

unfoldable pub enabled_or_true : Option Bool → Bool
enabled_or_true none = true
enabled_or_true (some b) = b

-- The state that is returned, true where there is no row or the query fails.
unfoldable pub plugin_enabled : Bool → Bytes → List PluginEntry → Bool
unfolding enabled_or_true
plugin_enabled fails name es = if fails then true else enabled_or_true (find_enabled name es)

unfoldable pub has_name : Bytes → List Bytes → Bool
has_name name [] = false
has_name name (n ∷ ns) = same n name || has_name name ns

-- The loop of `ScanPlugins` over all the entries: the first delete that fails ends it with an error
-- (false). `fails` says for which names the delete fails.
unfoldable pub remove_absent :
    (Bytes → Bool) → List Bytes → List PluginEntry → List PluginEntry → Bool × List PluginEntry
remove_absent fails active [] table = (true, table)
remove_absent fails active (e ∷ es) table = elim (has_name e.name active) [
  | true ↦ remove_absent fails active es table
  | false ↦ elim (fails e.name) [
    | true ↦ (false, table)
    | false ↦ remove_absent fails active es (delete_plugin e.name table)
  ]
]

-- `SELECT name, path, enabled FROM plugins ORDER BY name ASC`
unfoldable pub insert_entry : PluginEntry → List PluginEntry → List PluginEntry
insert_entry e [] = e ∷ []
insert_entry e (f ∷ fs) =
    let later = insert_entry e fs in if less f.name e.name then f ∷ later else e ∷ f ∷ fs

unfoldable pub sort_entries : List PluginEntry → List PluginEntry
sort_entries [] = []
sort_entries (e ∷ es) = insert_entry e (sort_entries es)

unfoldable pub all_plugins : Bool → List PluginEntry → Option (List PluginEntry)
unfolding sort_entries
all_plugins fails table = if fails then none else some (sort_entries table)

-- The names on the disk are given, and whether the query for all the entries fails.
unfoldable pub scan_plugins :
    Bool → (Bytes → Bool) → List Bytes → List PluginEntry → Bool × List PluginEntry
unfolding all_plugins
scan_plugins query_fails fails active table = elim (all_plugins query_fails table) [
  | none ↦ (false, table)
  | some es ↦ remove_absent fails active es table
]

unfoldable pub observe_plugin_enabled :
    Bool → SetPluginEnabledEvent → List PluginEntry → List PluginEntry
observe_plugin_enabled fails e es = if fails then es else update_enabled e.name e.enabled es

-- `s.pluginLogs`, a map from names to lines.
abbrev pub PluginLogs : Type 0
PluginLogs = List (Bytes × List Bytes)

-- `s.pluginLogs[name]`; a missing name reads as no lines, and `PluginLogs` returns a copy of it.
unfoldable pub plugin_logs : Bytes → PluginLogs → List Bytes
plugin_logs name [] = []
plugin_logs name ((n, lines) ∷ logs) = if same n name then lines else plugin_logs name logs

-- `s.pluginLogs[name] = lines`
unfoldable pub set_logs : Bytes → List Bytes → PluginLogs → PluginLogs
set_logs name lines [] = (name, lines) ∷ []
set_logs name lines ((n, old) ∷ logs) =
    if same n name then (n, lines) ∷ logs else (n, old) ∷ set_logs name lines logs

-- `if len(lines) > max { lines = lines[len(lines)-max:] }`
unfoldable pub keep_last : ℕ → List Bytes → List Bytes
keep_last max lines = if ltb max (length lines) then drop (length lines - max) lines else lines

unfoldable pub observe_plugin_log : PluginLogEvent → PluginLogs → PluginLogs
observe_plugin_log e logs =
    set_logs e.name (keep_last max_plugin_log_lines (plugin_logs e.name logs ++ e.message ∷ []))
      logs
