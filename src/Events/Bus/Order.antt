-- ===== src/Events/Bus/Order.antt =====
-- The order in which the bus calls the handlers, and what comes of their results.
use shiv.Prelude.{
  ◌==◌, if◌then◌else◌, Bool-cases, Option-cases, ℕ, ◌≡◌, refl, sym, ap, ◌∙◌, inl, inr, true, false,
  not, ◌&&◌, Option, none, some, List, [], ◌∷◌, ◌++◌, append-nil, append_assoc, arith,
}
use shiv.Text.{Bytes}
use shiv.Http.Message.{Request}
use shiv.Events.Event.{
  RequestEvent, RequestResult, WebSocketConnectionEvent, WebSocketFrameResult, WebSocketFrameEvent,
}
use shiv.Events.Bus.{
  Middleware, ConnectionObserver, FrameObserver, add_if, take_payload, new_bus, register,
  run_middlewares, emit_request, run_connections, emit_web_socket_connection, run_frames,
  emit_web_socket_frame, Handler, Bus,
}

add_if-append {ℓ} : {A : Type ℓ} (xs : List A) (o : Option A) → add_if xs o ≡ xs ++ add_if [] o
add_if-append xs none = sym (append-nil xs)
add_if-append xs (some v) = refl

-- The first number other than 0, or 0.
unfoldable pub first_nonzero : List ℕ → ℕ
first_nonzero [] = 0
first_nonzero (n ∷ ns) = if n == 0 then first_nonzero ns else n

-- The last value given, or the first argument.
unfoldable pub last_given : Option Bytes → List (Option Bytes) → Option Bytes
last_given p [] = p
last_given p (q ∷ qs) = last_given (take_payload q p) qs

-- The calls that an emitted request makes: `Chain mws req body w result w'` says that in the world
-- `w` the middlewares turn the request and the body into the result, and leave the world `w'`.
pub data Chain {W : Type 0}
    : List (Middleware W) → Request → Bytes → W → RequestResult → W → Type 0 where
  ended :
      {req : Request} {body : Bytes} {w : W}
      → Chain [] req body w (record { dropped = false; request = req; body = body }) w
  drops :
      {mw : Middleware W} {mws : List (Middleware W)} {req : Request} {body : Bytes} {w w' : W}
      {r : RequestResult}
      → mw (record { request = req; body = body }) w ≡ (r, w')
      → r.dropped ≡ true
      → Chain (mw ∷ mws) req body w r w'
  passes :
      {mw : Middleware W} {mws : List (Middleware W)} {req : Request} {body : Bytes} {w w' w'' : W}
      {r result : RequestResult}
      → mw (record { request = req; body = body }) w ≡ (r, w')
      → r.dropped ≡ false
      → Chain mws r.request r.body w' result w''
      → Chain (mw ∷ mws) req body w result w''

module _ {W : Type 0} where
  -- The registration of several handlers in turn.
  unfoldable pub register_all : List (Handler W) → Bus W → Option (Bus W)
  register_all [] b = some b
  register_all (h ∷ hs) b = elim (register h b) [ none ↦ none | some c ↦ register_all hs c ]

  abbrev pub implementers {ℓ} : {A : Type ℓ} → (Handler W → Option A) → List (Handler W) → List A
  implementers f [] = []
  implementers f (h ∷ hs) = add_if [] (f h) ++ implementers f hs

  module _ {ℓ} {A : Type ℓ} (list_of : Bus W → List A) (field_of : Handler W → Option A)
      (extends : (h : Handler W) (b c : Bus W)
        → register h b ≡ some c
        → list_of c ≡ add_if (list_of b) (field_of h)) where
    register_all-implementers :
        (hs : List (Handler W)) (b c : Bus W)
        → register_all hs b ≡ some c
        → list_of c ≡ list_of b ++ implementers field_of hs
    unfolding register_all
    register_all-implementers [] b c e =
        let same : b ≡ c = cc in rw (← same) (sym (append-nil (list_of b)))
    register_all-implementers (h ∷ hs) b c e = elim (Option-cases (register h b)) [
      | inl panics ↦ absurd (ground arith)
      | inr (d, done) ↦
          register_all-implementers hs d c (ground arith)
          ∙ ap (λ xs. xs ++ implementers field_of hs)
              (extends h b d done ∙ add_if-append (list_of b) (field_of h))
          ∙ append_assoc (list_of b) (add_if [] (field_of h)) (implementers field_of hs)
    ]

  -- Registering handlers in turn gives, for each interface, the handlers that implement it, in the
  -- order of their registration.
  pub register_all-new_bus :
      (hs : List (Handler W)) (c : Bus W)
      → register_all hs new_bus ≡ some c
      → (c.request_middlewares ≡ implementers (λ h. h.request_middleware) hs)
        × (c.response_observers ≡ implementers (λ h. h.response_observer) hs)
        × (c.ws_conn_observers ≡ implementers (λ h. h.ws_conn_observer) hs)
        × (c.ws_frame_observers ≡ implementers (λ h. h.ws_frame_observer) hs)
        × (c.plugin_log_observers ≡ implementers (λ h. h.plugin_log_observer) hs)
        × (c.plugin_enabled_observers ≡ implementers (λ h. h.plugin_enabled_observer) hs)
        × (c.plugin_load_observers ≡ implementers (λ h. h.plugin_load_observer) hs)
        × (c.proxy_command_observers ≡ implementers (λ h. h.proxy_command_observer) hs)
  unfolding register new_bus
  register_all-new_bus hs c e = (
    register_all-implementers (λ b. b.request_middlewares) (λ h. h.request_middleware)
        (λ h b d x. ground arith) hs new_bus c e,
    register_all-implementers (λ b. b.response_observers) (λ h. h.response_observer)
        (λ h b d x. ground arith) hs new_bus c e,
    register_all-implementers (λ b. b.ws_conn_observers) (λ h. h.ws_conn_observer)
        (λ h b d x. ground arith) hs new_bus c e,
    register_all-implementers (λ b. b.ws_frame_observers) (λ h. h.ws_frame_observer)
        (λ h b d x. ground arith) hs new_bus c e,
    register_all-implementers (λ b. b.plugin_log_observers) (λ h. h.plugin_log_observer)
        (λ h b d x. ground arith) hs new_bus c e,
    register_all-implementers (λ b. b.plugin_enabled_observers) (λ h. h.plugin_enabled_observer)
        (λ h b d x. ground arith) hs new_bus c e,
    register_all-implementers (λ b. b.plugin_load_observers) (λ h. h.plugin_load_observer)
        (λ h b d x. ground arith) hs new_bus c e,
    register_all-implementers (λ b. b.proxy_command_observers) (λ h. h.proxy_command_observer)
        (λ h b d x. ground arith) hs new_bus c e,
  )

  run_middlewares_dropped :
      (mw : Middleware W) (mws : List (Middleware W)) (result : RequestResult) (w : W)
      → (mw (record { request = result.request; body = result.body }) w).0.dropped ≡ true
      → run_middlewares (mw ∷ mws) result w
        ≡ mw (record { request = result.request; body = result.body }) w
  unfolding run_middlewares
  run_middlewares_dropped mw mws result w gone = ground arith

  run_middlewares_passed :
      (mw : Middleware W) (mws : List (Middleware W)) (result : RequestResult) (w : W)
      → (mw (record { request = result.request; body = result.body }) w).0.dropped ≡ false
      → run_middlewares (mw ∷ mws) result w ≡ (
          let (result', w') = mw (record { request = result.request; body = result.body }) w in
          run_middlewares mws result' w')
  unfolding run_middlewares
  run_middlewares_passed mw mws result w kept = ground arith

  pub run_middlewares-Chain :
      (mws : List (Middleware W)) (result : RequestResult) (w : W)
      → result.dropped ≡ false
      → Chain mws result.request result.body w
          (run_middlewares mws result w).0
          (run_middlewares mws result w).1
  unfolding run_middlewares
  run_middlewares-Chain [] result w h = rw h ended
  run_middlewares-Chain (mw ∷ mws) result w h =
      let (result', w') = mw (record { request = result.request; body = result.body }) w in
      elim (Bool-cases result'.dropped) [
        | inl gone ↦ rw (run_middlewares_dropped mw mws result w gone) (drops refl gone)
        | inr kept ↦
            rw (run_middlewares_passed mw mws result w kept)
              (passes refl kept (run_middlewares-Chain mws result' w' kept))
      ]

  -- A request that is emitted on a bus in which handlers were registered in turn goes through their
  -- middlewares in the order of registration: each is called once, on the request and the body that
  -- the one before it returned, the first on those of the event, up to the first that drops the
  -- request. The result is that of the last middleware called; where there is none, it is the
  -- request and the body of the event, not dropped.
  pub emit_request-Chain :
      (hs : List (Handler W)) (b : Bus W) (e : RequestEvent) (w : W)
      → register_all hs new_bus ≡ some b
      → Chain
          (implementers (λ h. h.request_middleware) hs)
          e.request
          e.body
          w
          (emit_request b e w).0
          (emit_request b e w).1
  unfolding emit_request
  emit_request-Chain hs b e w registered = rw (← (register_all-new_bus hs b registered).0) (
      run_middlewares-Chain b.request_middlewares
        (record { dropped = false; request = e.request; body = e.body }) w refl)

  -- What the connection observers return, in order, when each is called once on the event.
  unfoldable pub call_all : List (ConnectionObserver W) → WebSocketConnectionEvent → W → List ℕ × W
  call_all [] e w = ([], w)
  call_all (o ∷ obs) e w =
      let (id, w') = o e w in let (ids, w'') = call_all obs e w' in (id ∷ ids, w'')

  run_connections-first_nonzero :
      (obs : List (ConnectionObserver W)) (e : WebSocketConnectionEvent) (conn_id : ℕ) (w : W)
      → run_connections obs e conn_id w
        ≡ (first_nonzero (conn_id ∷ (call_all obs e w).0), (call_all obs e w).1)
  unfolding run_connections call_all first_nonzero
  run_connections-first_nonzero [] e conn_id w = ground arith
  run_connections-first_nonzero (o ∷ obs) e conn_id w =
      let (id, w') = o e w in
      ground (
        arith,
        run_connections-first_nonzero obs e (if not (id == 0) && conn_id == 0 then id else conn_id)
            w',
      )

  -- Every connection observer is called once, in the order of registration, and the connection's id
  -- is the first id other than 0 that one of them returned, or 0.
  pub emit_web_socket_connection-first_nonzero :
      (b : Bus W) (e : WebSocketConnectionEvent) (w : W)
      → emit_web_socket_connection b e w
        ≡ (first_nonzero (call_all b.ws_conn_observers e w).0, (call_all b.ws_conn_observers e w).1)
  unfolding emit_web_socket_connection first_nonzero
  emit_web_socket_connection-first_nonzero b e w =
      run_connections-first_nonzero b.ws_conn_observers e 0 w

  -- The payloads that the frame observers return, when each is called on the frame with the payload
  -- that the ones before it left.
  unfoldable pub frame_payloads :
      List (FrameObserver W) → WebSocketFrameEvent → W → List (Option Bytes) × W
  frame_payloads [] e w = ([], w)
  frame_payloads (o ∷ obs) e w =
      let (r, w') = o e w in
      let (ps, w'') =
        frame_payloads obs (record e { payload = take_payload r.payload e.payload }) w' in
      (r.payload ∷ ps, w'')

  run_frames-last_given :
      (obs : List (FrameObserver W)) (e : WebSocketFrameEvent) (result : WebSocketFrameResult)
      (w : W)
      → run_frames obs e result w ≡ (
        record { payload = last_given result.payload (frame_payloads obs e w).0 },
        (frame_payloads obs e w).1,
      )
  unfolding run_frames frame_payloads last_given
  run_frames-last_given [] e result w = refl
  run_frames-last_given (o ∷ obs) e result w =
      let (r, w') = o e w in
      run_frames-last_given obs (record e { payload = take_payload r.payload e.payload })
        (record { payload = take_payload r.payload result.payload }) w'

  -- Every frame observer is called once, in the order of registration, on the payload that the ones
  -- before it left; the last payload that is not nil is forwarded, or else the frame's own.
  pub emit_web_socket_frame-last_given :
      (b : Bus W) (e : WebSocketFrameEvent) (w : W)
      → emit_web_socket_frame b e w ≡ (
        record { payload = last_given e.payload (frame_payloads b.ws_frame_observers e w).0 },
        (frame_payloads b.ws_frame_observers e w).1,
      )
  unfolding emit_web_socket_frame
  emit_web_socket_frame-last_given b e w =
      run_frames-last_given b.ws_frame_observers e (record { payload = e.payload }) w
