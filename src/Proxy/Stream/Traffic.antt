-- ===== src/Proxy/Stream/Traffic.antt =====
-- What a stream of internal/proxy/mitm2.go sends to the server, and what the browser gets.
use shiv.Prelude.{
  Bool-cases, take, ◌*◌, ◌^◌, ◌≡◌, refl, ◌∙◌, subst, ◌⊎◌, inl, inr, Bool, true, false, Option, none,
  some, List, [], ◌∷◌, arith,
}
use shiv.Text.{Bytes, codes, same}
use shiv.Text.Host.{IsPlain, split_host_port-none}
use shiv.Http.Header.{values, del}
use shiv.Http.Header.Laws.{header_laws}
use shiv.Http.Message.{Request, Response}
use shiv.Http.Headers.{is_one_of, normalize_host}
use shiv.Http.Headers.Strip.{values-strip_request_cache_headers}
use shiv.Http.Compression.{Decoders}
use shiv.Events.Event.{RequestEvent, RequestResult}
use shiv.Events.Bus.{emit_request, Bus}
use shiv.Events.Bus.Keeps.{emit_request-keeps, emit_response-keeps}
use shiv.Proxy.Forward.{Client}
use shiv.Proxy.Upstream.{IsWithout, conditional_keys, Watches, Sends}
use shiv.Proxy.Plain.{max_body_size}
use shiv.Proxy.Tunnel.{to_https}
use shiv.Proxy.Stream.{
  refused_stream, answered_stream, broken, stream_request, send_stream, finish_stream, serve_stream,
  Stream, StreamReply,
}

-- The request names the bare host, and has no Transfer-Encoding and no conditional-request header.
abbrev pub IsStreamed : Bytes → Request → Type 0
IsStreamed bare req =
    (req.host ≡ bare)
    × IsWithout conditional_keys req
    × IsWithout (codes "Transfer-Encoding" ∷ []) req

stream_request-IsStreamed :
    (bare : Bytes) (req : Request) → IsPlain bare → IsStreamed bare (stream_request bare req)
unfolding stream_request normalize_host is_one_of same values del
stream_request-IsStreamed bare req p =
    let h = del req.header (codes "Transfer-Encoding") in
    let law = values-strip_request_cache_headers h in
    (
      ground (arith, split_host_port-none bare p.0),
      (
        law (codes "If-None-Match"),
        (
          law (codes "If-Modified-Since"),
          (
            law (codes "If-Range"),
            (law (codes "If-Match"), (law (codes "If-Unmodified-Since"), tt)),
          ),
        ),
      ),
      (law (codes "Transfer-Encoding") ∙ simp header_laws refl, tt),
    )

-- An error reply that says that no request was sent, or that none could be.
abbrev pub IsRefusedStream : StreamReply → Type 0
IsRefusedStream (refused_stream status text) = (status ≡ 403) ⊎ (status ≡ 500)
IsRefusedStream (answered_stream status header body) = ⊥
IsRefusedStream (broken status header) = ⊥

-- What the browser gets for an answer of the server, or for none.
abbrev pub PassesStream : StreamReply → Option Response → Type 0
PassesStream (refused_stream status text) none = status ≡ 502
PassesStream (refused_stream status text) (some resp) = ⊥
PassesStream (answered_stream status header body) none = ⊥
PassesStream (answered_stream status header body) (some resp) =
    (status ≡ resp.status) × (body ≡ take (10 * 2 ^ 20) resp.body)
PassesStream (broken status header) none = ⊥
PassesStream (broken status header) (some resp) = status ≡ resp.status

module _ {W : Type 0} (sent : W → List (Request × Bytes)) (b : Bus W) (client : Client W)
    (watched : Watches sent b client) (builds : Request → Bool) (d : Decoders) (host bare : Bytes)
    (named : IsPlain bare) where
  through : Stream → RequestResult × W → StreamReply × W
  through = send_stream b client builds d host bare

  abbrev Came : RequestResult → List (Request × Bytes) → StreamReply × W → Type 0
  Came result before o =
      ((sent o.1 ≡ before) × IsRefusedStream o.0)
      ⊎ Sends client result (IsStreamed bare) (PassesStream o.0) before (sent o.1)

  through_dropped :
      (st : Stream) (result : RequestResult) (w : W)
      → result.dropped ≡ true
      → through st (result, w) ≡ (refused_stream 403 (codes "request dropped"), w)
  unfolding through send_stream
  through_dropped st result w gone = simp gone refl

  through_unbuilt :
      (st : Stream) (result : RequestResult) (w : W)
      → result.dropped ≡ false
      → builds result.request ≡ false
      → through st (result, w) ≡ (refused_stream 500 (codes "internal error"), w)
  unfolding through send_stream
  through_unbuilt st result w kept unbuilt = simp (kept, unbuilt) refl

  through_sent :
      (st : Stream) (result : RequestResult) (w : W)
      → result.dropped ≡ false
      → builds result.request ≡ true
      → through st (result, w)
        ≡ finish_stream b client builds d host bare st result
            (client (stream_request bare result.request) result.body w)
  unfolding through send_stream
  through_sent st result w kept built = simp (kept, built) refl

  finish-PassesStream :
      (st : Stream) (result : RequestResult) (answer : Option Response) (w : W)
      → PassesStream (finish_stream b client builds d host bare st result (answer, w)).0 answer
  unfolding finish_stream
  finish-PassesStream st result none w = refl
  finish-PassesStream st result (some resp) w = elim (Bool-cases st.writes) [
    | inl written ↦ rw written (refl, refl)
    | inr broke ↦ rw broke refl
  ]

  finish-keeps :
      (st : Stream) (result : RequestResult) (answer : Option Response) (w : W)
      → sent (finish_stream b client builds d host bare st result (answer, w)).1 ≡ sent w
  unfolding finish_stream
  finish-keeps st result none w = refl
  finish-keeps st result (some resp) w = emit_response-keeps sent b _ w watched.observers

  through-Came :
      (st : Stream) (result : RequestResult) (w : W) → Came result (sent w) (through st (result, w))
  through-Came st result w =
      let out = stream_request bare result.request in
      let (answer, w') = client out result.body w in
      elim (Bool-cases result.dropped) [
        | inl gone ↦ rw (through_dropped st result w gone) (inl (refl, inl refl))
        | inr kept ↦ elim (Bool-cases (builds result.request)) [
          | inr unbuilt ↦ rw (through_unbuilt st result w kept unbuilt) (inl (refl, inr refl))
          | inl built ↦ rw (through_sent st result w kept built) (
              inr (record {
                request = out;
                at = w;
                once = finish-keeps st result answer w' ∙ watched.sends out result.body w;
                clean = stream_request-IsStreamed bare result.request named;
                kept = kept;
                method = unfold stream_request in refl;
                url = unfold stream_request in refl;
                answer = finish-PassesStream st result answer w';
              }))
        ]
      ]

  -- Where the request's body was read, and the host of the tunnel is a plain name, either nothing is
  -- sent to the server and the browser gets an error reply, or one request is: the one that the
  -- middlewares let through, with its method, its URL and its body, under the bare host, and without
  -- Transfer-Encoding and conditional-request headers. The browser then gets the server's status, and its
  -- body up to 10 MiB unless writing it breaks off, or 502 where the server gave no answer. The client
  -- sends what it is given, and the handlers on the bus send nothing.
  pub serve_stream-Sends :
      (st : Stream) (body : Bytes) (w : W)
      → (let o = serve_stream b client builds d host bare (record st { body = some body }) w in
          let e : RequestEvent = record {
            request = to_https host st.request;
            body = take (10 * 2 ^ 20) body;
          } in
          ((sent o.1 ≡ sent w) × IsRefusedStream o.0)
          ⊎ Sends client
              (emit_request b e w).0
              (IsStreamed bare)
              (PassesStream o.0)
              (sent w)
              (sent o.1))
  unfolding serve_stream through
  serve_stream-Sends st body w =
      let st' = record st { body = some body } in
      let e : RequestEvent = record {
        request = to_https host st.request;
        body = take max_body_size body;
      } in
      let (result, w') = emit_request b e w in
      subst (λ before. Came result before (through st' (result, w')))
        (emit_request-keeps sent b e w watched.middlewares) (through-Came st' result w')
