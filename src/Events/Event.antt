-- ===== src/Events/Event.antt =====
-- internal/events/events.go. A payload is an `Option`, since the code tells a nil slice from an
-- empty one; a time is a number.
use shiv.Prelude.{ℕ, Bool, Option}
use shiv.Text.{Bytes}
use shiv.Http.Header.{Header}
use shiv.Http.Message.{Request}

pub record RequestEvent : Type 0 where
  pub request : Request
  pub body : Bytes

pub record ResponseEvent : Type 0 where
  pub timestamp : ℕ
  pub host : Bytes
  pub proto : Bytes
  pub method : Bytes
  pub url : Bytes
  pub req_headers : Header
  pub req_body : Bytes
  pub status_code : ℕ
  pub resp_headers : Header
  pub resp_body : Option Bytes
  pub duration_ms : ℕ
  pub tls : Bool

pub record RequestResult : Type 0 where
  pub dropped : Bool
  pub request : Request
  pub body : Bytes

pub data WebSocketDirection : Type 0 where
  client : WebSocketDirection
  server : WebSocketDirection

pub data WebSocketOpcode : Type 0 where
  text_frame : WebSocketOpcode
  binary_frame : WebSocketOpcode
  close_frame : WebSocketOpcode
  ping_frame : WebSocketOpcode
  pong_frame : WebSocketOpcode

-- The constants of the two enumerations.
unfoldable pub direction_code : WebSocketDirection → ℕ
direction_code client = 0
direction_code server = 1

unfoldable pub opcode_code : WebSocketOpcode → ℕ
opcode_code text_frame = 1
opcode_code binary_frame = 2
opcode_code close_frame = 8
opcode_code ping_frame = 9
opcode_code pong_frame = 10

pub record WebSocketConnectionEvent : Type 0 where
  pub host : Bytes
  pub url : Bytes
  pub tls : Bool
  pub timestamp : ℕ

pub record WebSocketFrameResult : Type 0 where
  pub payload : Option Bytes

pub record WebSocketFrameEvent : Type 0 where
  pub connection_id : ℕ
  pub timestamp : ℕ
  pub direction : WebSocketDirection
  pub opcode : WebSocketOpcode
  pub payload : Option Bytes

pub record PluginLogEvent : Type 0 where
  pub name : Bytes
  pub message : Bytes

pub record SetPluginEnabledEvent : Type 0 where
  pub name : Bytes
  pub enabled : Bool

pub record LoadPluginEvent : Type 0 where
  pub source_path : Bytes

pub record ProxyRestartEvent : Type 0 where
  pub addr : Bytes
