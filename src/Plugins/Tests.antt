-- ===== src/Plugins/Tests.antt =====
-- The log lines of two plugins.
use shiv.Prelude.{length, ◌≡◌, List, [], ◌∷◌, ◌++◌}
use shiv.Text.{Bytes, codes, same}
use shiv.Events.Event.{PluginLogEvent}
use shiv.Plugins.{plugin_logs}
use shiv.Plugins.Logs.{observe_logs, plugin_logs-observe_logs}

abbrev logged : List PluginLogEvent
logged =
    record { name = codes "one"; message = codes "hello" }
    ∷ record { name = codes "two"; message = codes "hi" }
    ∷ record { name = codes "one"; message = codes "bye" }
    ∷ []

abbrev kept : List Bytes
kept = plugin_logs (codes "one") (observe_logs logged [])

plugin_logs-observe_logs_example :
    (older : List Bytes) × (codes "hello" ∷ codes "bye" ∷ [] ≡ older ++ kept) × (length kept ≡ 2)
unfolding same plugin_logs
plugin_logs-observe_logs_example = plugin_logs-observe_logs logged (codes "one")
