-- ===== src/Plugins/Registry.antt =====
-- The table of plugins keeps the state that the user chose.
use shiv.Prelude.{
  if◌then◌else◌, Option-cases, ◌≡◌, refl, inl, inr, Bool, true, false, not, ◌&&◌, Option, none,
  some, List, [], ◌∷◌, arith,
}
use shiv.Text.{Bytes, same}
use shiv.Text.Equality.{same_iff}
use shiv.Events.Event.{SetPluginEnabledEvent}
use shiv.Plugins.{
  upsert_plugin, delete_plugin, update_enabled, register_plugin, find_enabled, enabled_or_true,
  plugin_enabled, has_name, remove_absent, insert_entry, sort_entries, scan_plugins,
  observe_plugin_enabled, PluginEntry,
}

pub find_enabled-upsert_plugin :
    (name path other : Bytes) (es : List PluginEntry)
    → find_enabled other (upsert_plugin name path es) ≡ (
        if same name other
        then some (enabled_or_true (find_enabled name es))
        else find_enabled other es)
unfolding find_enabled upsert_plugin enabled_or_true
find_enabled-upsert_plugin name path other [] = ground (arith, same_iff name other)
find_enabled-upsert_plugin name path other (e ∷ es) = ground (
  arith,
  find_enabled-upsert_plugin name path other es,
  same_iff e.name name,
  same_iff e.name other,
  same_iff name other,
)

-- Registering a plugin changes the enabled state of none: a known one keeps the state that is
-- stored, a new one is enabled, which is also what an unknown one reads as, and a failed statement
-- leaves all as they are.
pub plugin_enabled-register_plugin :
    (fails : Bool) (name path other : Bytes) (es : List PluginEntry)
    → plugin_enabled false other (register_plugin fails name path es).1
      ≡ plugin_enabled false other es
unfolding plugin_enabled register_plugin enabled_or_true
plugin_enabled-register_plugin true name path other es = refl
plugin_enabled-register_plugin false name path other es =
    ground (arith, find_enabled-upsert_plugin name path other es, same_iff name other)

abbrev pub set_if_some : Bool → Option Bool → Option Bool
set_if_some b none = none
set_if_some b (some _) = some b

pub find_enabled-update_enabled :
    (name other : Bytes) (b : Bool) (es : List PluginEntry)
    → find_enabled other (update_enabled name b es)
      ≡ (if same name other then set_if_some b (find_enabled other es) else find_enabled other es)
unfolding find_enabled update_enabled
find_enabled-update_enabled name other b [] = ground (arith)
find_enabled-update_enabled name other b (e ∷ es) = ground (
  arith,
  find_enabled-update_enabled name other b es,
  same_iff e.name name,
  same_iff e.name other,
  same_iff name other,
)

find_enabled-delete_plugin :
    (name other : Bytes) (es : List PluginEntry)
    → find_enabled other (delete_plugin name es)
      ≡ (if same name other then none else find_enabled other es)
unfolding find_enabled delete_plugin
find_enabled-delete_plugin name other [] = ground arith
find_enabled-delete_plugin name other (e ∷ es) = ground (
  arith,
  find_enabled-delete_plugin name other es,
  same_iff e.name name,
  same_iff e.name other,
  same_iff name other,
)

-- An active plugin keeps its row, whatever fails.
remove_absent-active :
    (fails : Bytes → Bool) (active : List Bytes) (name : Bytes) (es table : List PluginEntry)
    → has_name name active ≡ true
    → find_enabled name (remove_absent fails active es table).1 ≡ find_enabled name table
unfolding remove_absent
remove_absent-active fails active name [] table h = refl
remove_absent-active fails active name (e ∷ es) table h = ground (
  arith,
  remove_absent-active fails active name es table h,
  remove_absent-active fails active name es (delete_plugin e.name table) h,
  find_enabled-delete_plugin e.name name table,
  same_iff e.name name,
)

remove_absent-none :
    (fails : Bytes → Bool) (active : List Bytes) (name : Bytes) (es table : List PluginEntry)
    → find_enabled name table ≡ none
    → find_enabled name (remove_absent fails active es table).1 ≡ none
unfolding remove_absent
remove_absent-none fails active name [] table h = h
remove_absent-none fails active name (e ∷ es) table h = ground (
  arith,
  remove_absent-none fails active name es table h,
  remove_absent-none fails active name es (delete_plugin e.name table),
  find_enabled-delete_plugin e.name name table,
)

-- A plugin that is not active loses the row that the loop meets.
remove_absent-inactive :
    (fails : Bytes → Bool) (active : List Bytes) (name : Bytes) (b : Bool)
    (es table : List PluginEntry)
    → has_name name active ≡ false
    → find_enabled name es ≡ some b
    → (remove_absent fails active es table).0 ≡ true
    → find_enabled name (remove_absent fails active es table).1 ≡ none
unfolding remove_absent find_enabled
remove_absent-inactive fails active name b [] table h f ok = ground arith
remove_absent-inactive fails active name b (e ∷ es) table h f ok = ground (
  arith,
  remove_absent-inactive fails active name b es table h,
  remove_absent-inactive fails active name b es (delete_plugin e.name table) h,
  remove_absent-none fails active name es (delete_plugin e.name table),
  find_enabled-delete_plugin e.name name table,
  same_iff e.name name,
)

insert_entry-none :
    (name : Bytes) (e : PluginEntry) (es : List PluginEntry)
    → find_enabled name (insert_entry e es) ≡ none
    → (same e.name name ≡ false) × (find_enabled name es ≡ none)
unfolding insert_entry find_enabled
insert_entry-none name e [] h = ground arith
insert_entry-none name e (f ∷ es) h = ground (arith, insert_entry-none name e es)

-- Sorting hides no row.
sort_entries-none :
    (name : Bytes) (es : List PluginEntry)
    → find_enabled name (sort_entries es) ≡ none
    → find_enabled name es ≡ none
unfolding sort_entries find_enabled
sort_entries-none name [] h = refl
sort_entries-none name (e ∷ es) h =
    let (other, rest) = insert_entry-none name e (sort_entries es) h in
    ground (arith, other, sort_entries-none name es rest)

-- A scan keeps the row of every plugin that is on the disk, with its state, whatever fails.
pub scan_plugins_active :
    (query_fails : Bool) (fails : Bytes → Bool) (active : List Bytes) (name : Bytes)
    (table : List PluginEntry)
    → has_name name active ≡ true
    → find_enabled name (scan_plugins query_fails fails active table).1 ≡ find_enabled name table
unfolding scan_plugins
scan_plugins_active true fails active name table h = refl
scan_plugins_active false fails active name table h =
    remove_absent-active fails active name (sort_entries table) table h

-- A scan that reports no error leaves no row of a plugin that is not on the disk.
pub scan_plugins_inactive :
    (query_fails : Bool) (fails : Bytes → Bool) (active : List Bytes) (name : Bytes)
    (table : List PluginEntry)
    → has_name name active ≡ false
    → (scan_plugins query_fails fails active table).0 ≡ true
    → find_enabled name (scan_plugins query_fails fails active table).1 ≡ none
unfolding scan_plugins
scan_plugins_inactive true fails active name table h ok = ground arith
scan_plugins_inactive false fails active name table h ok =
    elim (Option-cases (find_enabled name (sort_entries table))) [
      | inl gone ↦
          remove_absent-none fails active name (sort_entries table) table
            (sort_entries-none name table gone)
      | inr (b, found) ↦
          remove_absent-inactive fails active name b (sort_entries table) table h found ok
    ]

-- A user's choice reads back until the next one, and touches no other plugin: a plugin with a row
-- has the state that was set, an unknown one stays enabled, a failed statement changes nothing.
pub plugin_enabled-observe_plugin_enabled :
    (fails : Bool) (e : SetPluginEnabledEvent) (other : Bytes) (es : List PluginEntry)
    → plugin_enabled false other (observe_plugin_enabled fails e es) ≡ (
        if not fails && same e.name other
        then enabled_or_true (set_if_some e.enabled (find_enabled other es))
        else plugin_enabled false other es)
unfolding plugin_enabled observe_plugin_enabled
plugin_enabled-observe_plugin_enabled fails e other es =
    ground (arith, find_enabled-update_enabled e.name other e.enabled es)
