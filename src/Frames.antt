-- ===== src/Frames.antt =====
-- internal/store/websocket.go: the tables of WebSocket connections and frames. The rows stand in the
-- order of their ids, which only grow, and foreign keys are not enforced, as in SQLite's default. A
-- time is a number; `fails` is an error of the database. The channels that tell the UI are left out:
-- sending to them never blocks and changes nothing else.
pub mod Log
mod Tests
use mathlib.Core.List.{reverse}
use shiv.Prelude.{
  ltb, ◌==◌, if◌then◌else◌, length, take, count_p, ℕ, ◌+◌, ◌^◌, Bool, true, false, not, Option,
  none, some, List, [], ◌∷◌, ◌++◌,
}
use shiv.Text.{Bytes, join}
use shiv.Events.Event.{
  WebSocketConnectionEvent, WebSocketFrameResult, WebSocketFrameEvent, WebSocketDirection,
  WebSocketOpcode,
}

abbrev pub ws_frame_size_limit : ℕ
ws_frame_size_limit = 2 ^ 20

pub record WebSocketFrame : Type 0 where
  pub id : ℕ
  pub connection_id : ℕ
  pub timestamp : ℕ
  pub direction : WebSocketDirection
  pub opcode : WebSocketOpcode
  pub payload : Option Bytes

pub record WebSocketConnection : Type 0 where
  pub id : ℕ
  pub history_id : ℕ
  pub host : Bytes
  pub url : Bytes
  pub tls : Bool
  pub in_scope : Bool
  pub timestamp : ℕ
  pub frame_count : ℕ

pub record FrameStore : Type 0 where
  pub connections : List WebSocketConnection
  pub frames : List WebSocketFrame
  pub next_connection : ℕ
  pub next_frame : ℕ

-- The id of the new row, `none` for an error.
unfoldable pub log_web_socket_connection :
    Bool → WebSocketConnection → FrameStore → Option ℕ × FrameStore
log_web_socket_connection fails conn s = if fails then (none, s) else (
  some s.next_connection,
  record s {
    connections = s.connections ++ record conn { id = s.next_connection; frame_count = 0 } ∷ [];
    next_connection = s.next_connection + 1;
  },
)

-- The flag says that there was no error.
unfoldable pub log_web_socket_frame : Bool → WebSocketFrame → FrameStore → Bool × FrameStore
log_web_socket_frame fails frame s = if fails then (false, s) else (
  true,
  record s {
    frames = s.frames ++ record frame { id = s.next_frame } ∷ [];
    next_frame = s.next_frame + 1;
  },
)

-- `WHERE connection_id = ? ORDER BY id ASC`
unfoldable pub frames_for_connection : ℕ → List WebSocketFrame → List WebSocketFrame
frames_for_connection id [] = []
frames_for_connection id (f ∷ fs) =
    let rest = frames_for_connection id fs in if f.connection_id == id then f ∷ rest else rest

-- `COUNT(f.id)` of the join, for the rows in the order of their ids
count_frames : List WebSocketFrame → List WebSocketConnection → List WebSocketConnection
count_frames fs [] = []
count_frames fs (c ∷ cs) =
    record c { frame_count = count_p (λ f. f.connection_id == c.id) fs } ∷ count_frames fs cs

unfoldable pub all_web_socket_connections : Bool → FrameStore → Option (List WebSocketConnection)
unfolding count_frames
all_web_socket_connections fails s =
    if fails then none else some (reverse (count_frames s.frames s.connections))

id_or_zero : Option ℕ → ℕ
id_or_zero none = 0
id_or_zero (some id) = id

-- `in_scope` is the answer of `InScope` for the host.
unfoldable pub observe_web_socket_connection :
    Bool → Bool → WebSocketConnectionEvent → FrameStore → ℕ × FrameStore
unfolding id_or_zero log_web_socket_connection
observe_web_socket_connection fails in_scope e s =
    let (id, s') =
      log_web_socket_connection fails
        (record {
          id = 0;
          history_id = 0;
          host = e.host;
          url = e.url;
          tls = e.tls;
          in_scope = in_scope;
          timestamp = e.timestamp;
          frame_count = 0;
        })
        s in
    (id_or_zero id, s')

-- `if len(payload) > wsFrameSizeLimit { payload = payload[:wsFrameSizeLimit] }`
unfoldable pub cut_payload : Option Bytes → Option Bytes
cut_payload none = none
cut_payload (some p) =
    some (if ltb ws_frame_size_limit (length p) then take ws_frame_size_limit p else p)

frame_of : WebSocketFrameEvent → WebSocketFrame
unfolding cut_payload
frame_of e = record {
  id = 0;
  connection_id = e.connection_id;
  timestamp = e.timestamp;
  direction = e.direction;
  opcode = e.opcode;
  payload = cut_payload e.payload;
}

unfoldable pub observe_web_socket_frame :
    Bool → WebSocketFrameEvent → FrameStore → WebSocketFrameResult × FrameStore
unfolding log_web_socket_frame frame_of
observe_web_socket_frame fails e s =
    let logged = (log_web_socket_frame fails (frame_of e) s).1 in
    (record { payload = e.payload }, if e.connection_id == 0 then s else logged)
