-- ===== src/Engine/Tests.antt =====
-- Two plugins: one whose hooks fail, and one that sets the method of a request.
use shiv.Prelude.{
  if◌then◌else◌, ℕ, ◌+◌, ◌≡◌, refl, inr, Bool, true, false, none, some, List, [], ◌∷◌,
}
use shiv.Text.{Bytes, codes, same}
use shiv.Http.Message.{Request}
use shiv.Events.Event.{SetPluginEnabledEvent}
use shiv.Plugins.{
  register_plugin, upsert_plugin, update_enabled, find_enabled, has_name, observe_plugin_enabled,
  PluginEntry,
}
use shiv.Engine.{
  raised, no_table, returned, handle_plugins, Answer, Call, RequestAnswer, Lua, Plugin,
}
use shiv.Engine.Loading.{new_engine}
use shiv.Engine.Isolation.{handle_plugins-silent}
use shiv.Engine.Session.{new_engine-observe_plugin_enabled}

-- The machine says whether the plugin works. The shared store counts the requests that it has changed.
abbrev call : {A : Type 0} → Answer A → Bool → ℕ → Call Bool ℕ A
call a vm n = record { answer = a; lines = codes "called" ∷ []; vm = vm; world = n }

abbrev set_method : Bool → Answer RequestAnswer
set_method false = raised
set_method true = returned (record {
  dropped = some false;
  method = some (codes "PUT");
  url = none;
  body = none;
  headers = none;
})

abbrev lua : Lua Bool ℕ
lua = record {
  has = λ name vm. true;
  on_request = λ t vm n. call (set_method vm) vm (if vm then n + 1 else n);
  on_response = λ t vm n. call no_table vm n;
  on_websocket_frame = λ t vm n. call no_table vm n;
  parse = λ base url. some url;
}

abbrev plugin : Bytes → Bool → Plugin Bool
plugin name vm = record { name = name; path = name; enabled = true; vm = vm; log_buf = [] }

abbrev broken : Plugin Bool
broken = plugin (codes "a.lua") false

abbrev working : Plugin Bool
working = plugin (codes "b.lua") true

abbrev request : Request
request = record { method = codes "GET"; url = codes "/"; host = codes "a.test"; header = [] }

handle_plugins-silent_example :
    (handle_plugins lua (working ∷ broken ∷ working ∷ []) request [] 0).result
    ≡ (handle_plugins lua (working ∷ working ∷ []) request [] 0).result
handle_plugins-silent_example =
    handle_plugins-silent lua (working ∷ []) broken (working ∷ []) request [] 0
      (inr (λ t n. (tt, refl)))

-- The broken plugin is called, and the request is changed by the other.
method_set :
    (handle_plugins lua (broken ∷ working ∷ []) request [] 0).result.0.request.method ≡ codes "PUT"
unfolding handle_plugins
method_set = refl

abbrev entries : List PluginEntry
entries = record { name = codes "a.lua"; path = codes "a.lua"; enabled = true } ∷ []

abbrev choice : SetPluginEnabledEvent
choice = record { name = codes "a.lua"; enabled = false }

abbrev none_fails : Bytes → Bool
none_fails name = false

new_engine-observe_plugin_enabled_example :
    (false ≡ choice.enabled)
    × (find_enabled choice.name
          (new_engine none_fails none_fails false none_fails
            (broken ∷ working ∷ [])
            (observe_plugin_enabled false choice entries)).result
        ≡ some choice.enabled)
unfolding new_engine observe_plugin_enabled find_enabled has_name same register_plugin upsert_plugin
    update_enabled
new_engine-observe_plugin_enabled_example =
    new_engine-observe_plugin_enabled none_fails none_fails false none_fails (broken ∷ working ∷ [])
      choice true entries 0 (record broken { enabled = false }) refl refl refl refl refl
