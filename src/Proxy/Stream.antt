-- ===== src/Proxy/Stream.antt =====
-- One stream of an HTTPS tunnel over HTTP/2: the handler of `handleConnectH2` in
-- internal/proxy/mitm2.go. The connections, their TLS, and the server that runs the handler for each
-- stream are outside the model. `host` is the one of the CONNECT request, `bare` is it without a port.
pub mod Traffic
use shiv.Prelude.{if◌then◌else◌, take, ℕ, Bool, true, false, Option, none, some, []}
use shiv.Text.{Bytes, codes}
use shiv.Http.Header.{Header, del}
use shiv.Http.Message.{Request, Response}
use shiv.Http.Headers.{normalize_host, strip_request_cache_headers, strip_response_cache_headers}
use shiv.Http.Compression.{Decoders}
use shiv.Events.Event.{ResponseEvent, RequestResult, client, server}
use shiv.Events.Bus.{emit_request, emit_response, Bus}
use shiv.Proxy.Forward.{Client}
use shiv.Proxy.Plain.{max_body_size, reply_header, log_body}
use shiv.Proxy.Tunnel.{to_https}

-- A request of a stream. `body` is `none` where reading it failed, and `writes` says whether the
-- answer's body could be written to the browser.
pub record Stream : Type 0 where
  pub request : Request
  pub body : Option Bytes
  pub writes : Bool
  pub start : ℕ
  pub elapsed : ℕ

-- What the browser gets; `broken` is an answer whose body broke off.
pub data StreamReply : Type 0 where
  refused_stream : ℕ → Bytes → StreamReply
  answered_stream : ℕ → Header → Bytes → StreamReply
  broken : ℕ → Header → StreamReply

-- `outReq`
unfoldable pub stream_request : Bytes → Request → Request
stream_request bare req = record req {
  host = normalize_host bare true;
  header = strip_request_cache_headers (del req.header (codes "Transfer-Encoding"));
}

-- The headers of the answer, without those that HTTP/2 forbids.
unfoldable pub stream_header : Header → Header
stream_header h = strip_response_cache_headers (del h (codes "Transfer-Encoding"))

-- `respBuf`: what was read under the limit, and behind a failed write all that is left besides.
unfoldable pub buffered : Bool → Bytes → Bytes
buffered true body = take max_body_size body
buffered false body = body

module _ {W : Type 0} (b : Bus W) (client : Client W) (builds : Request → Bool) (d : Decoders)
    (host bare : Bytes) where
  stream_event : Stream → RequestResult → Response → Bytes → ResponseEvent
  unfolding log_body
  stream_event st result resp resp_body = record {
    timestamp = st.start;
    host = host;
    proto = codes "HTTP/2";
    method = result.request.method;
    url = result.request.url;
    req_headers = result.request.header;
    req_body = result.body;
    status_code = resp.status;
    resp_headers = resp.header;
    resp_body = log_body d resp.header resp_body;
    duration_ms = st.elapsed;
    tls = true;
  }

  finish_stream : Stream → RequestResult → Option Response × W → StreamReply × W
  unfolding stream_event stream_header buffered reply_header
  finish_stream st result (none, w) = (refused_stream 502 (codes "bad gateway"), w)
  finish_stream st result (some resp, w) =
      let resp' = record resp { header = stream_header resp.header } in
      let sent = reply_header (stream_header resp.header) [] in
      (
        if st.writes
            then answered_stream resp.status sent (take max_body_size resp.body)
            else broken resp.status sent,
        emit_response b (stream_event st result resp' (buffered st.writes resp.body)) w,
      )

  send_stream : Stream → RequestResult × W → StreamReply × W
  unfolding finish_stream stream_request
  send_stream st (result, w) =
      let sent =
        finish_stream st result (client (stream_request bare result.request) result.body w) in
      if result.dropped
      then (refused_stream 403 (codes "request dropped"), w)
      else if builds result.request
      then sent
      else (refused_stream 500 (codes "internal error"), w)

  -- `streamHandler`
  unfoldable pub serve_stream : Stream → W → StreamReply × W
  unfolding send_stream to_https emit_request
  serve_stream st w = elim st.body [
    | none ↦ (refused_stream 400 (codes "bad request"), w)
    | some body ↦ send_stream st (
        emit_request b
          (record { request = to_https host st.request; body = take max_body_size body }) w)
  ]
