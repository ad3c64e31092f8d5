-- ===== src/Proxy/WebSocket/Relay.antt =====
-- The relay with the store behind it, and what the handshake passes on.
use shiv.Prelude.{
  if◌then◌else◌, Bool-cases, ℕ, ◌≡◌, refl, ap, ◌∙◌, inl, inr, Bool, Option, none, some, List, [],
  ◌∷◌, arith,
}
use shiv.Text.{Bytes, same}
use shiv.Text.Equality.{same_iff}
use shiv.Http.Header.{Header, values}
use shiv.Http.Header.Laws.{values-put}
use shiv.Http.Headers.{is_one_of}
use shiv.Events.Event.{WebSocketFrameEvent, WebSocketDirection, WebSocketOpcode}
use shiv.Events.Bus.{FrameObserver, take_payload, emit_web_socket_frame, Bus}
use shiv.Events.Bus.Order.{last_given, frame_payloads, emit_web_socket_frame-last_given}
use shiv.Frames.{observe_web_socket_frame, FrameStore}
use shiv.Proxy.WebSocket.{handshake_keys, upstream_headers, frame_event, relay, Message}

-- The upstream handshake carries every header of the browser's but those that belong to the
-- handshake itself.
values-upstream_headers :
    (h : Header) (k : Bytes)
    → values (upstream_headers h) k ≡ (if is_one_of k handshake_keys then none else values h k)
unfolding upstream_headers values
values-upstream_headers [] k = ground arith
values-upstream_headers ((j, vs) ∷ h) k = elim (Bool-cases (same j k)) [
  | inl eq ↦
      let alike : is_one_of j handshake_keys ≡ is_one_of k handshake_keys =
        ap (λ x. is_one_of x handshake_keys) ((same_iff j k).0 eq) in
      ground (arith, alike, values-put (upstream_headers h) j vs k, values-upstream_headers h k)
  | inr ne ↦ ground (arith, values-put (upstream_headers h) j vs k, values-upstream_headers h k)
]

-- The store as an observer of frames; `fails` says on which frames its database fails.
abbrev pub store_observer : (WebSocketFrameEvent → Bool) → FrameObserver FrameStore
store_observer fails e s = observe_web_socket_frame (fails e) e s

-- The messages up to the first that cannot be written, as they came.
unfoldable pub as_read : List Message → List (WebSocketOpcode × Option Bytes)
as_read [] = []
as_read (m ∷ ms) =
    let rest = as_read ms in if m.writes then (m.opcode, some m.payload) ∷ rest else []

take_payload_same : (p : Option Bytes) → take_payload p p ≡ p
unfolding take_payload
take_payload_same none = refl
take_payload_same (some p) = refl

module _ (fails : WebSocketFrameEvent → Bool) (b : Bus FrameStore)
    (alone : b.ws_frame_observers ≡ store_observer fails ∷ []) where
  emit-store :
      (e : WebSocketFrameEvent) (s : FrameStore)
      → (emit_web_socket_frame b e s).0.payload ≡ e.payload
  unfolding frame_payloads last_given observe_web_socket_frame
  emit-store e s =
      ap (λ r. r.0.payload) (emit_web_socket_frame-last_given b e s)
      ∙ simp (alone, take_payload_same) refl

  -- With the store as the only observer of frames, every message that is read is written to the other
  -- side unchanged and in order, up to the first that cannot be written, whatever the database does.
  pub relay-as_read :
      (conn_id : ℕ) (direction : WebSocketDirection) (ms : List Message) (s : FrameStore)
      → (relay b conn_id direction ms s).0 ≡ as_read ms
  unfolding relay as_read
  relay-as_read conn_id direction [] s = refl
  relay-as_read conn_id direction (m ∷ ms) s =
      let e = frame_event b conn_id direction m in
      let (result, s') = emit_web_socket_frame b e s in
      ground (arith, emit-store e s, relay-as_read conn_id direction ms s')
