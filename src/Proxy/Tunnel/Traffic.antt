-- ===== src/Proxy/Tunnel/Traffic.antt =====
-- What one round of a tunnel sends to the server.
use shiv.Prelude.{
  subst, Bool-cases, Option-cases, take, ◌≡◌, refl, ◌∙◌, ◌⊎◌, inl, inr, Bool, true, false, Option,
  none, some, List, [], ◌∷◌, ◌++◌, arith,
}
use shiv.Text.{Bytes, codes, same}
use shiv.Text.Host.{IsPlain, split_host_port-append, split_host_port-none}
use shiv.Http.Message.{Request, Response}
use shiv.Http.Headers.{is_one_of, normalize_host}
use shiv.Http.Headers.Strip.{values-strip_request_cache_headers}
use shiv.Http.Compression.{Decoders}
use shiv.Events.Event.{RequestEvent, RequestResult}
use shiv.Events.Bus.{emit_request, Bus}
use shiv.Events.Bus.Keeps.{emit_request-keeps, emit_response-keeps}
use shiv.Proxy.Forward.{Client}
use shiv.Proxy.Upstream.{IsWithout, conditional_keys, Watches}
use shiv.Proxy.Plain.{max_body_size}
use shiv.Proxy.Tunnel.{
  closed, upgraded, forbidden, answered, to_https, upstream_request, send_round, finish_round,
  tunnel_round, Incoming, Round,
}

-- For a tunnel to `host:port`, the request that goes to the server names the bare host in its Host
-- header, whatever the port is.
pub upstream_request_host :
    (host port : Bytes) (req : Request)
    → IsPlain host
    → IsPlain port
    → (upstream_request (host ++ b':' ∷ port) req).host ≡ host
unfolding upstream_request normalize_host
upstream_request_host host port req h p =
    ground (arith, split_host_port-append host port h p, split_host_port-none host h.0)

-- The request names the bare host, and has no conditional-request header.
abbrev pub IsTunnelled : Bytes → Request → Type 0
IsTunnelled host req = (req.host ≡ host) × IsWithout conditional_keys req

upstream_request-IsTunnelled :
    (host port : Bytes) (req : Request)
    → IsPlain host
    → IsPlain port
    → IsTunnelled host (upstream_request (host ++ b':' ∷ port) req)
unfolding upstream_request is_one_of same
upstream_request-IsTunnelled host port req h p =
    let law = values-strip_request_cache_headers req.header in
    (
      upstream_request_host host port req h p,
      (
        law (codes "If-None-Match"),
        (
          law (codes "If-Modified-Since"),
          (
            law (codes "If-Range"),
            (law (codes "If-Match"), (law (codes "If-Unmodified-Since"), tt)),
          ),
        ),
      ),
    )

abbrev pub is_answered : Round → Bool
is_answered (answered resp) = true
is_answered _ = false

abbrev pub is_last : Round → Bool
is_last closed = true
is_last upgraded = true
is_last _ = false

-- The answer to a request that is dropped is a 403.
abbrev pub Forbids : Round → Type 0
Forbids (forbidden resp) = resp.status ≡ 403
Forbids _ = Unit

abbrev pub IsUnsent : Round → Type 0
IsUnsent (answered resp) = ⊥
IsUnsent round = Forbids round

abbrev pub IsSent : Round → Type 0
IsSent closed = Unit
IsSent (answered resp) = Unit
IsSent _ = ⊥

module _ {W : Type 0} (sent : W → List (Request × Bytes)) (b : Bus W) (client : Client W)
    (watched : Watches sent b client) (builds : Request → Bool) (d : Decoders) (host port : Bytes)
    (h : IsPlain host) (p : IsPlain port) where
  abbrev pub connect_host : Bytes
  connect_host = host ++ b':' ∷ port

  through : Incoming → RequestResult × W → Round × W
  through = send_round b client builds d connect_host

  abbrev pub Went : List (Request × Bytes) → Round × W → Type 0
  Went before o =
      ((sent o.1 ≡ before) × IsUnsent o.0)
      ⊎ ((req : Request) × (body : Bytes) × (sent o.1 ≡ before ++ (req, body) ∷ [])
          × IsTunnelled host req
          × IsSent o.0)

  finish-sent :
      (inc : Incoming) (result : RequestResult) (answer : Option Response) (w : W)
      → (sent (finish_round b client builds d connect_host inc result (answer, w)).1 ≡ sent w)
        × IsSent (finish_round b client builds d connect_host inc result (answer, w)).0
  unfolding finish_round
  finish-sent inc result none w = (refl, tt)
  finish-sent inc result (some resp) w = elim (Bool-cases inc.writes) [
    | inl written ↦ rw written (emit_response-keeps sent b _ w watched.observers, tt)
    | inr broke ↦ rw broke (refl, tt)
  ]

  through_dropped :
      (inc : Incoming) (result : RequestResult) (w : W)
      → result.dropped ≡ true
      → Went (sent w) (through inc (result, w))
  unfolding through send_round
  through_dropped inc result w gone = simp gone (inl (refl, refl))

  through-Went :
      (inc : Incoming) (result : RequestResult) (w : W) → Went (sent w) (through inc (result, w))
  unfolding through send_round
  through-Went inc result w =
      let out = upstream_request connect_host result.request in
      let (answer, w') = client out result.body w in
      elim (Bool-cases result.dropped) [
        | inl gone ↦ through_dropped inc result w gone
        | inr kept ↦ elim (Bool-cases (builds result.request)) [
          | inr unbuilt ↦ rw (kept, unbuilt) (inl (refl, tt))
          | inl built ↦
              let done = finish-sent inc result answer w' in
              rw (kept, built)
                (inr (
                  out,
                  result.body,
                  done.0 ∙ watched.sends out result.body w,
                  upstream_request-IsTunnelled host port result.request h p,
                  done.1,
                ))
        ]
      ]

  pub round-Went :
      (inc : Incoming) (w : W) → Went (sent w) (tunnel_round b client builds d connect_host inc w)
  unfolding tunnel_round through
  round-Went inc w = elim (Option-cases inc.body) [
    | inl unread ↦ rw (unread, tunnel_round) (inl (refl, tt))
    | inr (body, read) ↦ elim (Bool-cases inc.is_upgrade) [
      | inl upgrade ↦ rw (read, tunnel_round) (rw upgrade (inl (refl, tt)))
      | inr plain ↦
          let e : RequestEvent = record {
            request = to_https connect_host inc.request;
            body = take max_body_size body;
          } in
          let (result, w') = emit_request b e w in
          rw (read, tunnel_round)
            (rw plain (
              subst (λ before. Went before (through inc (result, w')))
                (emit_request-keeps sent b e w watched.middlewares) (through-Went inc result w')))
    ]
  ]
