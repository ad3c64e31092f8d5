-- ===== src/Proxy/Tests.antt =====
-- The proxy in front of a concrete server, with a middleware that passes everything or nothing.
use shiv.Prelude.{◌≡◌, ◌⊎◌, refl, Bool, true, false, Option, none, some, List, [], ◌∷◌, ◌++◌}
use shiv.Text.{Bytes, codes, same, contains_byte}
use shiv.Text.Host.{IsPlain}
use shiv.Http.Message.{Request, Response}
use shiv.Http.Compression.{Decoders}
use shiv.Events.Event.{RequestEvent, client, text_frame}
use shiv.Events.Bus.{emit_request, emit_response, Bus}
use shiv.Frames.{FrameStore}
use shiv.Proxy.Forward.{Client}
use shiv.Proxy.Upstream.{Watches, Sends}
use shiv.Proxy.Plain.{serve_http, Served}
use shiv.Proxy.Tunnel.{to_https, Incoming}
use shiv.Proxy.WebSocket.{relay, Message}
use shiv.Proxy.WebSocket.Relay.{store_observer, as_read, relay-as_read}
use shiv.Proxy.Stream.{serve_stream, Stream, StreamReply}
use shiv.Proxy.Stream.Traffic.{IsStreamed, IsRefusedStream, PassesStream, serve_stream-Sends}

abbrev page : Request
page = record {
  method = codes "GET";
  url = codes "/";
  host = codes "edited.test";
  header = (codes "Te", codes "trailers" ∷ []) ∷ (codes "Accept", codes "*/*" ∷ []) ∷ [];
}

abbrev answer : Response
answer = record { status = 200; header = []; body = codes "ok" }

-- The world is the requests that the server got.
abbrev server_of : Option Response → Client (List (Request × Bytes))
server_of resp req body got = (resp, got ++ (req, body) ∷ [])

abbrev gate : Bool → Bus (List (Request × Bytes))
gate drops = record {
  request_middlewares =
      (λ e w. (record { dropped = drops; request = e.request; body = e.body }, w)) ∷ [];
  response_observers = [];
  ws_conn_observers = [];
  ws_frame_observers = [];
  plugin_log_observers = [];
  plugin_enabled_observers = [];
  plugin_load_observers = [];
  proxy_command_observers = [];
}

abbrev got : List (Request × Bytes) → List (Request × Bytes)
got xs = xs

watched : (drops : Bool) → Watches got (gate drops) (server_of (some answer))
watched drops = record {
  middlewares = (λ e w. refl, tt);
  observers = tt;
  sends = λ req body w. refl;
}

abbrev failing : Decoders
failing = record {
  gzip = λ _. none;
  zlib = λ _. none;
  flate = λ _. none;
  brotli = λ _. none;
  zstd = λ _. none;
}

abbrev url_host : Bytes → Bytes
url_host url = codes "a.test"

abbrev served : Served × List (Request × Bytes)
served =
    serve_http (gate false) (server_of (some answer)) url_host (λ _. true) failing 0 1 page
      (some (codes "q")) []

abbrev get_host : List (Request × Bytes) → Bytes
get_host [] = []
get_host (r ∷ rs) = r.0.host

abbrev page_event : RequestEvent
page_event = record { request = page; body = codes "q" }

-- The request that is sent names the host of the URL, not the one that was edited.
served_host : get_host served.1 ≡ codes "a.test"
unfolding serve_http emit_request emit_response same
served_host = refl

abbrev incoming : Incoming
incoming = record {
  request = page;
  body = some (codes "q");
  is_upgrade = false;
  writes = true;
  start = 0;
  elapsed = 1;
}

a_test-IsPlain : IsPlain (codes "a.test")
unfolding contains_byte
a_test-IsPlain = (refl, refl, refl)

abbrev stream : Stream
stream = record { request = page; body = some (codes "q"); writes = false; start = 0; elapsed = 1 }

abbrev streamed : StreamReply × List (Request × Bytes)
streamed =
    serve_stream (gate false) (server_of (some answer)) (λ _. true) failing (codes "a.test:443")
      (codes "a.test") stream []

abbrev streamed_event : RequestEvent
streamed_event = record { request = to_https (codes "a.test:443") page; body = codes "q" }

serve_stream-Sends_example :
    ((streamed.1 ≡ []) × IsRefusedStream streamed.0)
    ⊎ Sends
        (server_of (some answer))
        (emit_request (gate false) streamed_event []).0
        (IsStreamed (codes "a.test"))
        (PassesStream streamed.0)
        []
        streamed.1
serve_stream-Sends_example =
    serve_stream-Sends got (gate false) (server_of (some answer)) (watched false) (λ _. true)
      failing (codes "a.test:443") (codes "a.test") a_test-IsPlain stream (codes "q") []

-- A relay whose only observer of frames is the store, with a database that always fails.
abbrev stored : Bus FrameStore
stored = record {
  request_middlewares = [];
  response_observers = [];
  ws_conn_observers = [];
  ws_frame_observers = store_observer (λ _. true) ∷ [];
  plugin_log_observers = [];
  plugin_enabled_observers = [];
  plugin_load_observers = [];
  proxy_command_observers = [];
}

abbrev no_rows : FrameStore
no_rows = record { connections = []; frames = []; next_connection = 1; next_frame = 1 }

abbrev message : Bytes → Bool → Message
message p writes = record { opcode = text_frame; payload = p; timestamp = 0; writes = writes }

relay-as_read_example :
    (relay stored 1 client
      (message (codes "a") true ∷ message (codes "b") false ∷ message (codes "c") true ∷ [])
      no_rows).0
    ≡ (text_frame, some (codes "a")) ∷ []
unfolding as_read
relay-as_read_example =
    relay-as_read (λ _. true) stored refl 1 client
      (message (codes "a") true ∷ message (codes "b") false ∷ message (codes "c") true ∷ []) no_rows
