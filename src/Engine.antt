-- ===== src/Engine.antt =====
-- internal/plugin/engine.go, and what internal/plugin/plugin.go does around a call of a hook. The Lua
-- machine of a plugin is a parameter (`Lua`): which globals it has, and what a call of a hook gives
-- back and logs, an error, a panic and the time limit of a call being `raised`. `W` is what the
-- machines share, the store that internal/plugin/api.go lets every script read and write: a call of a
-- hook takes it and gives it back, whether it raised an error or not. `parse` is `URL.Parse`, on the
-- URL as it is printed. The events that are emitted are in their order.
pub mod Loading
pub mod Isolation
pub mod Session
mod Tests
use shiv.Prelude.{
  if◌then◌else◌, ℕ, Bool, true, false, ◌&&◌, Option, none, some, List, [], ◌∷◌, ◌++◌, map,
}
use shiv.Text.{Bytes, codes, same, join, split_host_port}
use shiv.Http.Header.{Header, set_value}
use shiv.Http.Message.{Request}
use shiv.Events.Event.{
  direction_code, opcode_code, RequestEvent, ResponseEvent, RequestResult, WebSocketFrameResult,
  WebSocketFrameEvent, PluginLogEvent, SetPluginEnabledEvent,
}
use shiv.Plugins.{register_plugin, find_enabled, scan_plugins, PluginEntry}

-- What a call of a hook returns.
pub data Answer (A : Type 0) : Type 0 where
  raised : Answer A
  no_table : Answer A
  returned : A → Answer A

pub record Call (V W A : Type 0) : Type 0 where
  pub answer : Answer A
  pub lines : List Bytes
  pub vm : V
  pub world : W

-- The table for `on_request`, in which `drop` is false.
pub record RequestTable : Type 0 where
  pub method : Bytes
  pub url : Bytes
  pub body : Bytes
  pub headers : List (Bytes × Bytes)

-- The fields that are read back, `none` where they are absent or of another type.
pub record RequestAnswer : Type 0 where
  pub dropped : Option Bool
  pub method : Option Bytes
  pub url : Option Bytes
  pub body : Option Bytes
  pub headers : Option (List (Bytes × Bytes))

pub record ResponseTable : Type 0 where
  pub host : Bytes
  pub event : ResponseEvent
  pub req_headers : List (Bytes × Bytes)
  pub resp_headers : List (Bytes × Bytes)

pub record FrameTable : Type 0 where
  pub connection_id : ℕ
  pub direction : ℕ
  pub opcode : ℕ
  pub payload : Bytes

pub record Lua (V W : Type 0) : Type 0 where
  pub has : Bytes → V → Bool
  pub on_request : RequestTable → V → W → Call V W RequestAnswer
  pub on_response : ResponseTable → V → W → Call V W (Unit {0})
  pub on_websocket_frame : FrameTable → V → W → Call V W (Option Bytes)
  pub parse : Bytes → Bytes → Option Bytes

pub record Plugin (V : Type 0) : Type 0 where
  pub name : Bytes
  pub path : Bytes
  pub enabled : Bool
  pub vm : V
  pub log_buf : List Bytes

pub joined : Header → List (Bytes × Bytes)
unfolding join
joined [] = []
joined ((k, vs) ∷ h) = (k, join vs (codes ", ")) ∷ joined h

request_table : Request → Bytes → RequestTable
unfolding joined
request_table req body = record {
  method = req.method;
  url = req.url;
  body = body;
  headers = joined req.header;
}

set_all : List (Bytes × Bytes) → Header → Header
set_all [] h = h
set_all ((k, v) ∷ kvs) h = set_all kvs (set_value h k v)

-- What takes the place of a value: a text that is not empty.
given_text : Option Bytes → Bytes → Bytes
given_text none old = old
given_text (some []) old = old
given_text (some (c ∷ s)) old = c ∷ s

or_old : {A : Type 0} → Option A → A → A
or_old none old = old
or_old (some x) old = x

new_url : (Bytes → Bytes → Option Bytes) → Option Bytes → Bytes → Bytes
unfolding or_old
new_url parse none old = old
new_url parse (some []) old = old
new_url parse (some (c ∷ s)) old = or_old (parse old (c ∷ s)) old

new_header : Option (List (Bytes × Bytes)) → Header → Header
unfolding set_all
new_header none old = old
new_header (some kvs) old = set_all kvs []

is_dropped : Option Bool → Bool
is_dropped none = false
is_dropped (some b) = b

log_events : Bytes → List Bytes → List PluginLogEvent
log_events name lines = map (λ line. record { name = name; message = line }) lines

module _ {V W : Type 0} where
  -- `emitLogs` behind a call: the events, and the plugin with its buffer drained.
  emit_logs : {A : Type 0} → Plugin V → Call V W A → List PluginLogEvent × Plugin V
  unfolding log_events
  emit_logs p c = (log_events p.name (p.log_buf ++ c.lines), record p { vm = c.vm; log_buf = [] })

-- What a loop over the plugins leaves: its result, the plugins, and the log events.
pub record Handled (V R : Type 0) : Type 0 where
  pub result : R
  pub plugins : List (Plugin V)
  pub logs : List PluginLogEvent

pub behind : {V R : Type 0} → Plugin V → List PluginLogEvent → Handled V R → Handled V R
behind p logs h = record h { plugins = p ∷ h.plugins; logs = logs ++ h.logs }

module _ {V W : Type 0} (lua : Lua V W) where
  pub read_back : RequestAnswer → Request → Request
  unfolding given_text new_url new_header
  read_back a req = record req {
    method = given_text a.method req.method;
    url = new_url lua.parse a.url req.url;
    header = new_header a.headers req.header;
  }

  -- The loop of `HandleRequest`, with what it leaves of the shared world.
  unfoldable pub handle_plugins :
      List (Plugin V) → Request → Bytes → W → Handled V (RequestResult × W)
  unfolding request_table emit_logs behind is_dropped read_back or_old
  handle_plugins [] req body w = record {
    result = (record { dropped = false; request = req; body = body }, w);
    plugins = [];
    logs = [];
  }
  handle_plugins (p ∷ ps) req body w = elim (p.enabled && lua.has (codes "on_request") p.vm) [
    | false ↦ behind p [] (handle_plugins ps req body w)
    | true ↦
        let c = lua.on_request (request_table req body) p.vm w in
        let (logs, p') = emit_logs p c in
        elim c.answer [
          | raised ↦ behind p' logs (handle_plugins ps req body c.world)
          | no_table ↦ behind p' logs (handle_plugins ps req body c.world)
          | returned a ↦ elim (is_dropped a.dropped) [
            | true ↦ record {
              result = (record { dropped = true; request = req; body = body }, c.world);
              plugins = p' ∷ ps;
              logs = logs;
            }
            | false ↦
                behind p' logs (handle_plugins ps (read_back a req) (or_old a.body body) c.world)
          ]
        ]
  ]

  -- The host without its port.
  response_table : ResponseEvent → ResponseTable
  unfolding joined
  response_table ev = record {
    host = elim (split_host_port ev.host) [ none ↦ ev.host | some (h, port) ↦ h ];
    event = ev;
    req_headers = joined ev.req_headers;
    resp_headers = joined ev.resp_headers;
  }

  -- The loop of `ObserveResponse`: an error is only logged.
  observe_plugins : List (Plugin V) → ResponseTable → W → Handled V W
  unfolding emit_logs behind
  observe_plugins [] t w = record { result = w; plugins = []; logs = [] }
  observe_plugins (p ∷ ps) t w = elim (p.enabled && lua.has (codes "on_response") p.vm) [
    | false ↦ behind p [] (observe_plugins ps t w)
    | true ↦
        let c = lua.on_response t p.vm w in
        let (logs, p') = emit_logs p c in behind p' logs (observe_plugins ps t c.world)
  ]

  unfoldable pub observe_response : ResponseEvent → List (Plugin V) → W → Handled V W
  unfolding response_table observe_plugins
  observe_response ev ps w = observe_plugins ps (response_table ev) w

  -- The loop of `ObserveWebSocketFrame`, on the payload and what the next hook sees of it.
  unfoldable pub frame_plugins :
      WebSocketFrameEvent
      → List (Plugin V)
      → Option Bytes
      → Bytes
      → W
      → Handled V (WebSocketFrameResult × W)
  unfolding emit_logs behind or_old
  frame_plugins ev [] payload snap w = record {
    result = (record { payload = payload }, w);
    plugins = [];
    logs = [];
  }
  frame_plugins ev (p ∷ ps) payload snap w =
      elim (p.enabled && lua.has (codes "on_websocket_frame") p.vm) [
        | false ↦ behind p [] (frame_plugins ev ps payload snap w)
        | true ↦
            let t : FrameTable = record {
              connection_id = ev.connection_id;
              direction = direction_code ev.direction;
              opcode = opcode_code ev.opcode;
              payload = snap;
            } in
            let c = lua.on_websocket_frame t p.vm w in
            let (logs, p') = emit_logs p c in
            elim c.answer [
              | returned (some text) ↦ behind p' logs (frame_plugins ev ps (some text) text c.world)
              | returned none ↦ behind p' logs (frame_plugins ev ps payload snap c.world)
              | no_table ↦ behind p' logs (frame_plugins ev ps payload snap c.world)
              | raised ↦ behind p' logs (frame_plugins ev ps payload snap c.world)
            ]
      ]

  unfoldable pub handle_request : RequestEvent → List (Plugin V) → W → Handled V (RequestResult × W)
  unfolding handle_plugins
  handle_request ev ps w = handle_plugins ps ev.request ev.body w

  unfoldable pub observe_web_socket_frame :
      WebSocketFrameEvent → List (Plugin V) → W → Handled V (WebSocketFrameResult × W)
  unfolding frame_plugins or_old
  observe_web_socket_frame ev ps w = frame_plugins ev ps ev.payload (or_old ev.payload []) w
