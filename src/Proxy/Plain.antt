-- ===== src/Proxy/Plain.antt =====
-- `ServeHTTP` of internal/proxy/proxy.go, for a request that is not CONNECT. The world `W` is what
-- the handlers on the bus and the HTTP client share; the time of the start and the elapsed
-- milliseconds are arguments.
pub mod Traffic
use shiv.Prelude.{
  if◌then◌else◌, take, ℕ, ◌*◌, ◌^◌, Bool, false, not, Option, none, some, List, [], ◌∷◌,
}
use shiv.Text.{Bytes, codes, same}
use shiv.Http.Header.{Header, add}
use shiv.Http.Message.{Request, Response}
use shiv.Http.Compression.{decompress, is_binary, Decoders}
use shiv.Events.Event.{ResponseEvent, RequestResult, client, server}
use shiv.Events.Bus.{emit_request, emit_response, Bus}
use shiv.Proxy.Forward.{Client, forward}

abbrev pub max_body_size : ℕ
max_body_size = 10 * 2 ^ 20

-- What is written to the browser. `refused` is an error reply of `http.Error`.
pub data Reply : Type 0 where
  refused : ℕ → Bytes → Reply
  answered : ℕ → Header → Bytes → Reply

pub data Served : Type 0 where
  connect : Served
  replied : Reply → Served

-- `for k, vals := range resp.Header { for _, v := range vals { w.Header().Add(k, v) } }`
add_values : Bytes → List Bytes → Header → Header
add_values k [] out = out
add_values k (v ∷ vs) out = add_values k vs (add out k v)

unfoldable pub reply_header : Header → Header → Header
unfolding add_values
reply_header [] out = out
reply_header ((k, vs) ∷ h) out = reply_header h (add_values k vs out)

-- `logBody`: decoded, and nil for a binary response.
unfoldable pub log_body : Decoders → Header → Bytes → Option Bytes
log_body d h body = if is_binary h then none else some (decompress d h body)

module _ {W : Type 0} (b : Bus W) (client : Client W) (url_host : Bytes → Bytes)
    (builds : Request → Bool) (d : Decoders) (start elapsed : ℕ) where
  response_event : Request → Bytes → Response → Bytes → ResponseEvent
  unfolding log_body
  response_event req body resp resp_body = record {
    timestamp = start;
    host = req.host;
    proto = codes "HTTP/1.1";
    method = req.method;
    url = req.url;
    req_headers = req.header;
    req_body = body;
    status_code = resp.status;
    resp_headers = resp.header;
    resp_body = log_body d resp.header resp_body;
    duration_ms = elapsed;
    tls = false;
  }

  -- the answer of the server, logged and passed back
  finish : RequestResult → Option Response × W → Served × W
  unfolding response_event reply_header
  finish result (none, w) = (replied (refused 502 (codes "bad gateway")), w)
  finish result (some resp, w) =
      let resp_body = take max_body_size resp.body in
      (
        replied (answered resp.status (reply_header resp.header []) resp_body),
        emit_response b (response_event result.request result.body resp resp_body) w,
      )

  -- the request as the middlewares left it
  after_intercept : RequestResult × W → Served × W
  unfolding finish forward
  after_intercept (result, w) =
      let sent = finish result (forward client url_host builds result.request result.body w) in
      if result.dropped then (replied (refused 403 (codes "request dropped")), w) else sent

  -- The body is `none` where reading it failed.
  unfoldable pub serve_http : Request → Option Bytes → W → Served × W
  unfolding after_intercept emit_request
  serve_http r body w = if same r.method (codes "CONNECT") then (connect, w) else elim body [
    | none ↦ (replied (refused 400 (codes "failed to read request body")), w)
    | some bytes ↦
        after_intercept (emit_request b (record { request = r; body = take max_body_size bytes }) w)
  ]
