-- ===== src/Engine/Session.antt =====
-- The enabled state of the plugins: what the user chose, over a restart of the program and over a
-- plugin that is loaded twice. internal/plugin/engine.go with internal/store/plugin.go behind it.
use shiv.Prelude.{
  if◌then◌else◌, get_elem?, All, All-get, ℕ, ◌≡◌, refl, ◌∙◌, Bool, true, false, some, List, [], ◌∷◌,
  ◌++◌, map, arith,
}
use shiv.Text.{Bytes}
use shiv.Text.Equality.{same_iff}
use shiv.Events.Event.{SetPluginEnabledEvent}
use shiv.Plugins.{
  register_plugin, find_enabled, enabled_or_true, has_name, observe_plugin_enabled, PluginEntry,
}
use shiv.Plugins.Registry.{
  find_enabled-upsert_plugin, find_enabled-update_enabled, scan_plugins_active,
}
use shiv.Engine.{or_old, Plugin}
use shiv.Engine.Loading.{set_enabled, loaded_plugin, observe_load_plugin, start_plugins, new_engine}

find_enabled-register_plugin :
    (fails : Bool) (name path other : Bytes) (b : Bool) (es : List PluginEntry)
    → find_enabled other es ≡ some b
    → find_enabled other (register_plugin fails name path es).1 ≡ some b
unfolding register_plugin enabled_or_true
find_enabled-register_plugin true name path other b es h = h
find_enabled-register_plugin false name path other b es h =
    ground (arith, find_enabled-upsert_plugin name path other es, same_iff name other)

module _ {V : Type 0} (fails unread : Bytes → Bool) (name : Bytes) (b : Bool)
    (readable : unread name ≡ false) where
  start_plugins-find :
      (ps : List (Plugin V)) (table : List PluginEntry)
      → find_enabled name table ≡ some b
      → find_enabled name (start_plugins fails unread ps table).result ≡ some b
  unfolding start_plugins
  start_plugins-find [] table h = h
  start_plugins-find (p ∷ ps) table h =
      start_plugins-find ps (register_plugin (fails p.name) p.name p.path table).1
        (find_enabled-register_plugin (fails p.name) p.name p.path name b table h)

  state_read :
      (p : Plugin V) (table : List PluginEntry)
      → find_enabled name table ≡ some b
      → p.name ≡ name
      → (if unread p.name then p.enabled else or_old (find_enabled p.name table) p.enabled) ≡ b
  unfolding or_old
  state_read p table h e = rw (e, readable, h) refl

  start_plugins-All :
      (ps : List (Plugin V)) (table : List PluginEntry)
      → find_enabled name table ≡ some b
      → All
          (λ (p : Plugin V). p.name ≡ name → p.enabled ≡ b)
          (start_plugins fails unread ps table).plugins
  unfolding start_plugins
  start_plugins-All [] table h = tt
  start_plugins-All (p ∷ ps) table h =
      let table' = (register_plugin (fails p.name) p.name p.path table).1 in
      let h' = find_enabled-register_plugin (fails p.name) p.name p.path name b table h in
      (λ e. state_read p table' h' e, start_plugins-All ps table' h')

chosen :
    (ev : SetPluginEnabledEvent) (b : Bool) (es : List PluginEntry)
    → find_enabled ev.name es ≡ some b
    → find_enabled ev.name (observe_plugin_enabled false ev es) ≡ some ev.enabled
unfolding observe_plugin_enabled
chosen ev b es h =
    ground
      (arith, find_enabled-update_enabled ev.name ev.name ev.enabled es, same_iff ev.name ev.name)

-- A choice of the user that the table has taken survives a restart: a plugin of that name that is
-- loaded by the next `NewEngine` has the chosen state, and if its file is among those that were
-- loaded, the row still has that state behind the scan. The plugin had a row, and its state can be
-- read; any other statement may fail.
pub new_engine-observe_plugin_enabled :
    {V : Type 0} (fails unread : Bytes → Bool) (query_fails : Bool) (deletes : Bytes → Bool)
    (ps : List (Plugin V)) (ev : SetPluginEnabledEvent) (b : Bool) (es : List PluginEntry) (i : ℕ)
    (p : Plugin V)
    → find_enabled ev.name es ≡ some b
    → unread ev.name ≡ false
    → has_name ev.name (map (λ (q : Plugin V). q.name) ps) ≡ true
    → get_elem?
        (new_engine fails unread query_fails deletes ps
          (observe_plugin_enabled false ev es)).plugins
        i
      ≡ some p
    → p.name ≡ ev.name
    → (p.enabled ≡ ev.enabled)
      × (find_enabled ev.name
            (new_engine fails unread query_fails deletes ps
              (observe_plugin_enabled false ev es)).result
          ≡ some ev.enabled)
unfolding new_engine
new_engine-observe_plugin_enabled fails unread query_fails deletes ps ev b es i p row readable
      loaded at named =
    let table = observe_plugin_enabled false ev es in
    let h = chosen ev b es row in
    (
      All-get (λ (q : Plugin _). q.name ≡ ev.name → q.enabled ≡ ev.enabled)
          (start_plugins fails unread ps table).plugins i
          (start_plugins-All fails unread ev.name ev.enabled readable ps table h) at named,
      scan_plugins_active query_fails deletes (map (λ (q : Plugin _). q.name) ps) ev.name
            (start_plugins fails unread ps table).result loaded
          ∙ start_plugins-find fails unread ev.name ev.enabled readable ps table h,
    )

set_enabled-append :
    {V : Type 0} (ev : SetPluginEnabledEvent) (ps qs : List (Plugin V))
    → has_name ev.name (map (λ (q : Plugin V). q.name) ps) ≡ true
    → set_enabled ev (ps ++ qs) ≡ set_enabled ev ps ++ qs
unfolding set_enabled has_name
set_enabled-append ev [] qs h = cc
set_enabled-append ev (p ∷ ps) qs h = ground (arith, set_enabled-append ev ps qs)

-- If a plugin is loaded while one of its name is there already, both stay, and what the user then
-- chooses for that name changes the old one alone: the one that was loaded last stays enabled,
-- whatever the user chooses and whatever the table says.
pub set_enabled-observe_load_plugin :
    {V : Type 0} (fails : Bool) (path : Bytes) (vm : V) (lines : List Bytes) (ps : List (Plugin V))
    (table : List PluginEntry) (ev : SetPluginEnabledEvent)
    → has_name ev.name (map (λ (q : Plugin V). q.name) ps) ≡ true
    → set_enabled ev
        (observe_load_plugin fails (some (loaded_plugin ev.name path vm lines)) ps table).plugins
      ≡ set_enabled ev ps
        ++ record { name = ev.name; path = path; enabled = true; vm = vm; log_buf = [] } ∷ []
unfolding observe_load_plugin loaded_plugin
set_enabled-observe_load_plugin fails path vm lines ps table ev there =
    set_enabled-append ev ps
      (record { name = ev.name; path = path; enabled = true; vm = vm; log_buf = [] } ∷ []) there
