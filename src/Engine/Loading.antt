-- ===== src/Engine/Loading.antt =====
-- internal/plugin/engine.go: the plugins that the engine has, from NewEngine, and as they are switched
-- and loaded while it runs.
use shiv.Prelude.{if◌then◌else◌, Bool, true, Option, none, some, List, [], ◌∷◌, ◌++◌, map}
use shiv.Text.{Bytes, same}
use shiv.Events.Event.{SetPluginEnabledEvent}
use shiv.Plugins.{register_plugin, find_enabled, scan_plugins, PluginEntry}
use shiv.Engine.{or_old, log_events, behind, Plugin, Handled}

module _ {V : Type 0} where
  -- `ObservePluginEnabled`: the first plugin of the name.
  unfoldable pub set_enabled : SetPluginEnabledEvent → List (Plugin V) → List (Plugin V)
  unfolding same
  set_enabled ev [] = []
  set_enabled ev (p ∷ ps) =
      if same p.name ev.name then record p { enabled = ev.enabled } ∷ ps else p ∷ set_enabled ev ps

  -- What `load` gives where the script runs: the machine, and the lines that it has logged.
  unfoldable pub loaded_plugin : Bytes → Bytes → V → List Bytes → Plugin V
  loaded_plugin name path vm lines = record {
    name = name;
    path = path;
    enabled = true;
    vm = vm;
    log_buf = lines;
  }

  -- `ObserveLoadPlugin`, where the file was copied; `load` gives the plugin, `none` on an error.
  unfoldable pub observe_load_plugin :
      Bool → Option (Plugin V) → List (Plugin V) → List PluginEntry → Handled V (List PluginEntry)
  unfolding log_events
  observe_load_plugin fails none ps table = record { result = table; plugins = ps; logs = [] }
  observe_load_plugin fails (some p) ps table = record {
    result = (register_plugin fails p.name p.path table).1;
    plugins = ps ++ record p { log_buf = [] } ∷ [];
    logs = log_events p.name p.log_buf;
  }

  -- The loop of `NewEngine` over the plugins that `loadDir` gives. `fails` says for which names the
  -- registration fails, `unread` for which the query of the state does.
  unfoldable pub start_plugins :
      (Bytes → Bool)
      → (Bytes → Bool)
      → List (Plugin V)
      → List PluginEntry
      → Handled V (List PluginEntry)
  unfolding log_events behind or_old
  start_plugins fails unread [] table = record { result = table; plugins = []; logs = [] }
  start_plugins fails unread (p ∷ ps) table =
      let table' = (register_plugin (fails p.name) p.name p.path table).1 in
      let on = if unread p.name then p.enabled else or_old (find_enabled p.name table') p.enabled in
      behind (record p { enabled = on; log_buf = [] }) (log_events p.name p.log_buf)
        (start_plugins fails unread ps table')

  unfoldable pub new_engine :
      (Bytes → Bool)
      → (Bytes → Bool)
      → Bool
      → (Bytes → Bool)
      → List (Plugin V)
      → List PluginEntry
      → Handled V (List PluginEntry)
  unfolding start_plugins
  new_engine fails unread query_fails deletes ps table =
      let h = start_plugins fails unread ps table in
      record h {
        result = (scan_plugins query_fails deletes (map (λ (p : Plugin V). p.name) ps) h.result).1;
      }
