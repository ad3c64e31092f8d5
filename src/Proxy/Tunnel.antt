-- ===== src/Proxy/Tunnel.antt =====
-- The requests of one HTTPS tunnel over HTTP/1.1: the loop of `handleConnect` in
-- internal/proxy/mitm.go. The TLS handshakes and the connection are outside the model: the loop is
-- given the requests that it reads, and whether each answer could be written.
pub mod Traffic
pub mod Log
use shiv.Prelude.{
  if◌then◌else◌, take, ℕ, Bool, true, false, Option, none, some, List, [], ◌∷◌, ◌++◌,
}
use shiv.Text.{Bytes, codes, split_host_port}
use shiv.Http.Message.{Request, Response}
use shiv.Http.Headers.{normalize_host, strip_request_cache_headers, strip_response_cache_headers}
use shiv.Http.Compression.{Decoders}
use shiv.Events.Event.{ResponseEvent, RequestResult, client, server}
use shiv.Events.Bus.{given, emit_request, emit_response, Bus}
use shiv.Proxy.Forward.{Client}
use shiv.Proxy.Plain.{max_body_size, log_body}

-- One request read from the browser. `request.url` is its target, as in the request line; `body` is
-- `none` where reading it failed.
pub record Incoming : Type 0 where
  pub request : Request
  pub body : Option Bytes
  pub is_upgrade : Bool
  pub writes : Bool
  pub start : ℕ
  pub elapsed : ℕ

-- How one round of the loop ends. `upgraded` hands the connection to the WebSocket handler.
pub data Round : Type 0 where
  closed : Round
  upgraded : Round
  forbidden : Response → Round
  answered : Response → Round

-- The answer to a request that is dropped.
abbrev pub drop_answer : Response
drop_answer = record { status = 403; header = []; body = [] }

-- `req.URL.Scheme = "https"; req.URL.Host = r.Host`
unfoldable pub to_https : Bytes → Request → Request
to_https connect_host req = record req { url = codes "https://" ++ (connect_host ++ req.url) }

-- `bareHost`
unfoldable pub bare_host : Bytes → Bytes
bare_host host = elim (split_host_port host) [ none ↦ host | some (h, port) ↦ h ]

-- `outReq`
unfoldable pub upstream_request : Bytes → Request → Request
unfolding bare_host
upstream_request connect_host req = record req {
  host = normalize_host (bare_host connect_host) true;
  header = strip_request_cache_headers req.header;
}

module _ {W : Type 0} (b : Bus W) (client : Client W) (builds : Request → Bool) (d : Decoders)
    (connect_host : Bytes) where
  tunnel_event : Incoming → RequestResult → Response → ResponseEvent
  unfolding log_body
  tunnel_event inc result resp = record {
    timestamp = inc.start;
    host = connect_host;
    proto = codes "HTTP/1.1";
    method = result.request.method;
    url = result.request.url;
    req_headers = result.request.header;
    req_body = result.body;
    status_code = resp.status;
    resp_headers = resp.header;
    resp_body = log_body d resp.header resp.body;
    duration_ms = inc.elapsed;
    tls = true;
  }

  -- what the server answered, as it is written to the browser
  passed_back : Response → Response
  passed_back resp = record resp {
    header = strip_response_cache_headers resp.header;
    body = take max_body_size resp.body;
  }

  finish_round : Incoming → RequestResult → Option Response × W → Round × W
  unfolding tunnel_event passed_back
  finish_round inc result (none, w) = (closed, w)
  finish_round inc result (some resp, w) =
      let resp' = passed_back resp in
      if inc.writes
      then (answered resp', emit_response b (tunnel_event inc result resp') w)
      else (closed, w)

  send_round : Incoming → RequestResult × W → Round × W
  unfolding finish_round upstream_request
  send_round inc (result, w) =
      let sent =
        finish_round inc result
          (client (upstream_request connect_host result.request) result.body w) in
      if result.dropped
      then (forbidden drop_answer, w)
      else if builds result.request
      then sent
      else (closed, w)

  -- One round of the loop, on the request that was read.
  unfoldable pub tunnel_round : Incoming → W → Round × W
  unfolding send_round to_https emit_request
  tunnel_round inc w = elim inc.body [
    | none ↦ (closed, w)
    | some body ↦
        let req = to_https connect_host inc.request in
        let sent =
          send_round inc
            (emit_request b (record { request = req; body = take max_body_size body }) w) in
        if inc.is_upgrade then (upgraded, w) else sent
  ]

  goes_on : Round → Bool
  goes_on closed = false
  goes_on upgraded = false
  goes_on (forbidden resp) = true
  goes_on (answered resp) = true

  -- The loop over the requests that the browser sends, up to the end of the connection.
  unfoldable pub tunnel_loop : List Incoming → W → List Round × W
  unfolding tunnel_round goes_on
  tunnel_loop [] w = ([], w)
  tunnel_loop (inc ∷ incs) w =
      let (round, w') = tunnel_round inc w in
      let rest = tunnel_loop incs w' in
      if goes_on round then (round ∷ rest.0, rest.1) else (round ∷ [], w')
