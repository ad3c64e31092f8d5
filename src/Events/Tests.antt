-- ===== src/Events/Tests.antt =====
-- The bus with handlers that write down, in the shared world, that they were called.
use shiv.Prelude.{ℕ, ◌≡◌, refl, Bool, true, false, Option, none, some, List, [], ◌∷◌}
use shiv.Text.{Bytes, codes}
use shiv.Http.Message.{Request}
use shiv.Events.Bus.{
  Middleware, ConnectionObserver, FrameObserver, new_bus, register, emit_request, Handler, Bus,
}
use shiv.Events.Bus.Order.{register_all, emit_request-Chain, Chain}

abbrev page : Request
page = record { method = codes "GET"; url = codes "/"; host = codes "a.test"; header = [] }

abbrev nothing : Handler (List ℕ)
nothing = record {
  request_middleware = none;
  response_observer = none;
  ws_conn_observer = none;
  ws_frame_observer = none;
  plugin_log_observer = none;
  plugin_enabled_observer = none;
  plugin_load_observer = none;
  proxy_command_observer = none;
}

-- A middleware that notes its number, and drops the request if it is told to.
abbrev noting : ℕ → Bool → Middleware (List ℕ)
noting n drops e w = (record { dropped = drops; request = e.request; body = n ∷ e.body }, n ∷ w)

abbrev numbering : ℕ → ConnectionObserver (List ℕ)
numbering n e w = (n, n ∷ w)

abbrev rewriting : Option Bytes → FrameObserver (List ℕ)
rewriting p e w = (record { payload = p }, 0 ∷ w)

abbrev handlers : List (Handler (List ℕ))
handlers =
    record nothing {
      request_middleware = some (noting 1 false);
      ws_conn_observer = some (numbering 0);
    }
    ∷ record nothing {
      request_middleware = some (noting 2 true);
      ws_conn_observer = some (numbering 7);
    }
    ∷ record nothing {
      request_middleware = some (noting 3 false);
      ws_frame_observer = some (rewriting none);
    }
    ∷ []

abbrev registered : Bus (List ℕ)
registered = record {
  request_middlewares = noting 1 false ∷ noting 2 true ∷ noting 3 false ∷ [];
  response_observers = [];
  ws_conn_observers = numbering 0 ∷ numbering 7 ∷ [];
  ws_frame_observers = rewriting none ∷ [];
  plugin_log_observers = [];
  plugin_enabled_observers = [];
  plugin_load_observers = [];
  proxy_command_observers = [];
}

-- The second middleware drops the request, and the third is not called.
dropped_test : (emit_request registered (record { request = page; body = [] }) []).1 ≡ 2 ∷ 1 ∷ []
unfolding emit_request
dropped_test = refl

emit_request-Chain_example :
    Chain
      (noting 1 false ∷ noting 2 true ∷ noting 3 false ∷ [])
      page
      []
      []
      (record { dropped = true; request = page; body = 2 ∷ 1 ∷ [] })
      (2 ∷ 1 ∷ [])
unfolding register_all register new_bus emit_request
emit_request-Chain_example =
    emit_request-Chain handlers registered (record { request = page; body = [] }) [] refl
