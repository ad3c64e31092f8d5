-- ===== src/Proxy/WebSocket.antt =====
-- internal/proxy/websocket.go: the headers of the upstream handshake, and the loop that relays the
-- frames of one direction. The handshakes are outside the model; the loop is given the messages that
-- it reads, up to the first error, and whether each could be written to the other side.
pub mod Relay
use shiv.Prelude.{if◌then◌else◌, ℕ, Bool, Option, some, List, [], ◌∷◌}
use shiv.Text.{Bytes, codes}
use shiv.Http.Header.{Header, put}
use shiv.Http.Headers.{is_one_of}
use shiv.Events.Event.{WebSocketFrameEvent, WebSocketDirection, WebSocketOpcode}
use shiv.Events.Bus.{given, emit_web_socket_frame, Bus}

-- The keys of the handshake, which the dialer writes itself.
abbrev pub handshake_keys : List Bytes
handshake_keys =
    codes "Upgrade"
    ∷ codes "Connection"
    ∷ codes "Sec-Websocket-Key"
    ∷ codes "Sec-Websocket-Version"
    ∷ codes "Sec-Websocket-Extensions"
    ∷ codes "Sec-Websocket-Protocol"
    ∷ []

unfoldable pub upstream_headers : Header → Header
upstream_headers [] = []
upstream_headers ((k, vs) ∷ h) =
    let rest = upstream_headers h in if is_one_of k handshake_keys then rest else put rest k vs

pub record Message : Type 0 where
  pub opcode : WebSocketOpcode
  pub payload : Bytes
  pub timestamp : ℕ
  pub writes : Bool

module _ {W : Type 0} (b : Bus W) (conn_id : ℕ) (direction : WebSocketDirection) where
  frame_event : Message → WebSocketFrameEvent
  frame_event m = record {
    connection_id = conn_id;
    timestamp = m.timestamp;
    direction = direction;
    opcode = m.opcode;
    payload = some m.payload;
  }

  -- What is written to the other side, and the world after the loop.
  unfoldable pub relay : List Message → W → List (WebSocketOpcode × Option Bytes) × W
  unfolding frame_event
  relay [] w = ([], w)
  relay (m ∷ ms) w =
      let (result, w') = emit_web_socket_frame b (frame_event m) w in
      let rest = relay ms w' in
      if m.writes then ((m.opcode, result.payload) ∷ rest.0, rest.1) else ([], w')
