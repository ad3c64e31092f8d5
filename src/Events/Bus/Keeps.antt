-- ===== src/Events/Bus/Keeps.antt =====
-- What the handlers leave alone, an emitter of internal/events/bus.go leaves alone.
use shiv.Prelude.{All, ◌≡◌, refl, sym, ap, ◌∙◌, false, List, [], ◌∷◌}
use shiv.Text.{Bytes}
use shiv.Http.Message.{Request}
use shiv.Events.Event.{RequestEvent, ResponseEvent, RequestResult}
use shiv.Events.Bus.{Middleware, Observer, notify, emit_request, emit_response, Bus}
use shiv.Events.Bus.Order.{ended, drops, passes, run_middlewares-Chain, Chain}

module _ {W A : Type 0} (f : W → A) where
  abbrev pub MiddlewareKeeps : Middleware W → Type 0
  MiddlewareKeeps mw = (e : RequestEvent) (w : W) → f (mw e w).1 ≡ f w

  abbrev pub ObserverKeeps : {E : Type 0} → Observer E W → Type 0
  ObserverKeeps {E} o = (e : E) (w : W) → f (o e w) ≡ f w

  Chain-keeps :
      {mws : List (Middleware W)} {req : Request} {body : Bytes} {w w' : W} {r : RequestResult}
      → Chain mws req body w r w'
      → All MiddlewareKeeps mws
      → f w' ≡ f w
  Chain-keeps ended h = refl
  Chain-keeps (drops {req = req} {body} {w} called gone) h =
      sym (ap (λ x. f x.1) called) ∙ h.0 (record { request = req; body = body }) w
  Chain-keeps (passes {req = req} {body} {w} called kept rest) h =
      Chain-keeps rest h.1
      ∙ sym (ap (λ x. f x.1) called)
      ∙ h.0 (record { request = req; body = body }) w

  pub emit_request-keeps :
      (b : Bus W) (e : RequestEvent) (w : W)
      → All MiddlewareKeeps b.request_middlewares
      → f (emit_request b e w).1 ≡ f w
  unfolding emit_request
  emit_request-keeps b e w h =
      Chain-keeps
        (run_middlewares-Chain b.request_middlewares
          (record { dropped = false; request = e.request; body = e.body }) w refl)
        h

  notify-keeps :
      {E : Type 0} (os : List (Observer E W)) (e : E) (w : W)
      → All ObserverKeeps os
      → f (notify os e w) ≡ f w
  unfolding notify
  notify-keeps [] e w h = refl
  notify-keeps (o ∷ os) e w h = notify-keeps os e (o e w) h.1 ∙ h.0 e w

  pub emit_response-keeps :
      (b : Bus W) (e : ResponseEvent) (w : W)
      → All ObserverKeeps b.response_observers
      → f (emit_response b e w) ≡ f w
  unfolding emit_response
  emit_response-keeps b e w h = notify-keeps b.response_observers e w h
