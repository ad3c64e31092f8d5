-- ===== src/Events/Bus.antt =====
-- internal/events/bus.go. A handler acts on the world `W` that all handlers share; it implements an
-- interface where the field for that interface is given. The locks only guard the lists, which
-- change in `register` alone.
pub mod Order
pub mod Keeps
use shiv.Prelude.{
  ◌==◌, if◌then◌else◌, ℕ, Bool, true, false, not, ◌&&◌, ◌||◌, Option, none, some, List, [], ◌∷◌,
  ◌++◌,
}
use shiv.Text.{Bytes}
use shiv.Events.Event.{
  RequestEvent, ResponseEvent, RequestResult, WebSocketConnectionEvent, WebSocketFrameResult,
  WebSocketFrameEvent, PluginLogEvent, SetPluginEnabledEvent, LoadPluginEvent, ProxyRestartEvent,
}

abbrev pub Middleware : Type 0 → Type 0
Middleware W = RequestEvent → W → RequestResult × W

abbrev pub Observer : Type 0 → Type 0 → Type 0
Observer E W = E → W → W

abbrev pub ConnectionObserver : Type 0 → Type 0
ConnectionObserver W = WebSocketConnectionEvent → W → ℕ × W

abbrev pub FrameObserver : Type 0 → Type 0
FrameObserver W = WebSocketFrameEvent → W → WebSocketFrameResult × W

pub record ProxyCommands (W : Type 0) : Type 0 where
  pub restart : Observer ProxyRestartEvent W
  pub stop : W → W

-- The interfaces that a value implements.
pub record Handler (W : Type 0) : Type 0 where
  pub request_middleware : Option (Middleware W)
  pub response_observer : Option (Observer ResponseEvent W)
  pub ws_conn_observer : Option (ConnectionObserver W)
  pub ws_frame_observer : Option (FrameObserver W)
  pub plugin_log_observer : Option (Observer PluginLogEvent W)
  pub plugin_enabled_observer : Option (Observer SetPluginEnabledEvent W)
  pub plugin_load_observer : Option (Observer LoadPluginEvent W)
  pub proxy_command_observer : Option (ProxyCommands W)

pub record Bus (W : Type 0) : Type 0 where
  pub request_middlewares : List (Middleware W)
  pub response_observers : List (Observer ResponseEvent W)
  pub ws_conn_observers : List (ConnectionObserver W)
  pub ws_frame_observers : List (FrameObserver W)
  pub plugin_log_observers : List (Observer PluginLogEvent W)
  pub plugin_enabled_observers : List (Observer SetPluginEnabledEvent W)
  pub plugin_load_observers : List (Observer LoadPluginEvent W)
  pub proxy_command_observers : List (ProxyCommands W)

-- `if v, ok := h.(I); ok { xs = append(xs, v) }`
abbrev pub add_if {ℓ} : {A : Type ℓ} → List A → Option A → List A
add_if xs none = xs
add_if xs (some v) = xs ++ v ∷ []

abbrev pub given {ℓ} : {A : Type ℓ} → Option A → Bool
given none = false
given (some v) = true

-- `if r.Payload != nil { result.Payload = r.Payload; e.Payload = r.Payload }`
unfoldable pub take_payload : Option Bytes → Option Bytes → Option Bytes
take_payload none kept = kept
take_payload (some p) kept = some p

module _ {W : Type 0} where
  unfoldable pub new_bus : Bus W
  new_bus = record {
    request_middlewares = [];
    response_observers = [];
    ws_conn_observers = [];
    ws_frame_observers = [];
    plugin_log_observers = [];
    plugin_enabled_observers = [];
    plugin_load_observers = [];
    proxy_command_observers = [];
  }

  matches : Handler W → Bool
  matches h =
      given h.request_middleware
      || given h.response_observer
      || given h.ws_conn_observer
      || given h.ws_frame_observer
      || given h.plugin_log_observer
      || given h.plugin_enabled_observer
      || given h.plugin_load_observer
      || given h.proxy_command_observer

  -- `none` is the panic on a value that implements no interface.
  unfoldable pub register : Handler W → Bus W → Option (Bus W)
  unfolding matches
  register h b =
      if matches h
      then some (record {
        request_middlewares = add_if b.request_middlewares h.request_middleware;
        response_observers = add_if b.response_observers h.response_observer;
        ws_conn_observers = add_if b.ws_conn_observers h.ws_conn_observer;
        ws_frame_observers = add_if b.ws_frame_observers h.ws_frame_observer;
        plugin_log_observers = add_if b.plugin_log_observers h.plugin_log_observer;
        plugin_enabled_observers = add_if b.plugin_enabled_observers h.plugin_enabled_observer;
        plugin_load_observers = add_if b.plugin_load_observers h.plugin_load_observer;
        proxy_command_observers = add_if b.proxy_command_observers h.proxy_command_observer;
      })
      else none

  -- the loop of `EmitRequest`, on the result so far
  pub run_middlewares : List (Middleware W) → RequestResult → W → RequestResult × W
  run_middlewares [] result w = (result, w)
  run_middlewares (mw ∷ mws) result w =
      let (result', w') = mw (record { request = result.request; body = result.body }) w in
      let rest = run_middlewares mws result' w' in if result'.dropped then (result', w') else rest

  unfoldable pub emit_request : Bus W → RequestEvent → W → RequestResult × W
  unfolding run_middlewares
  emit_request b e w =
      run_middlewares b.request_middlewares
        (record { dropped = false; request = e.request; body = e.body }) w

  -- the loop of the emitters that only call
  unfoldable pub notify : {E : Type 0} → List (Observer E W) → E → W → W
  notify [] e w = w
  notify (o ∷ obs) e w = notify obs e (o e w)

  unfoldable pub emit_response : Bus W → ResponseEvent → W → W
  unfolding notify
  emit_response b e w = notify b.response_observers e w

  pub run_connections : List (ConnectionObserver W) → WebSocketConnectionEvent → ℕ → W → ℕ × W
  run_connections [] e conn_id w = (conn_id, w)
  run_connections (o ∷ obs) e conn_id w =
      let (id, w') = o e w in
      run_connections obs e (if not (id == 0) && conn_id == 0 then id else conn_id) w'

  unfoldable pub emit_web_socket_connection : Bus W → WebSocketConnectionEvent → W → ℕ × W
  unfolding run_connections
  emit_web_socket_connection b e w = run_connections b.ws_conn_observers e 0 w

  pub run_frames :
      List (FrameObserver W)
      → WebSocketFrameEvent
      → WebSocketFrameResult
      → W
      → WebSocketFrameResult × W
  unfolding take_payload
  run_frames [] e result w = (result, w)
  run_frames (o ∷ obs) e result w =
      let (r, w') = o e w in
      run_frames obs (record e { payload = take_payload r.payload e.payload })
        (record { payload = take_payload r.payload result.payload }) w'

  unfoldable pub emit_web_socket_frame : Bus W → WebSocketFrameEvent → W → WebSocketFrameResult × W
  unfolding run_frames
  emit_web_socket_frame b e w = run_frames b.ws_frame_observers e (record { payload = e.payload }) w

  unfoldable pub emit_plugin_log : Bus W → PluginLogEvent → W → W
  unfolding notify
  emit_plugin_log b e w = notify b.plugin_log_observers e w

  unfoldable pub emit_set_plugin_enabled : Bus W → SetPluginEnabledEvent → W → W
  unfolding notify
  emit_set_plugin_enabled b e w = notify b.plugin_enabled_observers e w

  unfoldable pub emit_load_plugin : Bus W → LoadPluginEvent → W → W
  unfolding notify
  emit_load_plugin b e w = notify b.plugin_load_observers e w

  restart_all : List (ProxyCommands W) → ProxyRestartEvent → W → W
  restart_all [] e w = w
  restart_all (o ∷ obs) e w = restart_all obs e (o.restart e w)

  unfoldable pub emit_proxy_restart : Bus W → ProxyRestartEvent → W → W
  unfolding restart_all
  emit_proxy_restart b e w = restart_all b.proxy_command_observers e w

  stop_all : List (ProxyCommands W) → W → W
  stop_all [] w = w
  stop_all (o ∷ obs) w = stop_all obs (o.stop w)

  unfoldable pub emit_proxy_stop : Bus W → W → W
  unfolding stop_all
  emit_proxy_stop b w = stop_all b.proxy_command_observers w
