-- ===== src/Proxy/Upstream.antt =====
-- What the proxies of internal/proxy send to a server: the requests are counted in the world, where
-- the HTTP client alone adds to them.
use shiv.Prelude.{All, ◌≡◌, false, Option, none, List, [], ◌∷◌, ◌++◌}
use shiv.Text.{Bytes, codes}
use shiv.Http.Header.{values}
use shiv.Http.Message.{Request, Response}
use shiv.Events.Event.{RequestResult}
use shiv.Events.Bus.{Bus}
use shiv.Events.Bus.Keeps.{MiddlewareKeeps, ObserverKeeps}
use shiv.Proxy.Forward.{Client}

-- `sent` is the requests that the server got, with their bodies, the last one last: the client adds its own, and the
-- handlers on the bus add none.
pub record Watches {W : Type 0} (sent : W → List (Request × Bytes)) (b : Bus W) (client : Client W)
    : Type 0 where
  pub middlewares : All (MiddlewareKeeps sent) b.request_middlewares
  pub observers : All (ObserverKeeps sent) b.response_observers
  pub sends :
      (req : Request) (body : Bytes) (w : W)
      → sent (client req body w).1 ≡ sent w ++ (req, body) ∷ []

-- The request has no header of these names.
abbrev pub IsWithout : List Bytes → Request → Type 0
IsWithout keys req = All (λ k. values req.header k ≡ none) keys

abbrev pub conditional_keys : List Bytes
conditional_keys =
    codes "If-None-Match"
    ∷ codes "If-Modified-Since"
    ∷ codes "If-Range"
    ∷ codes "If-Match"
    ∷ codes "If-Unmodified-Since"
    ∷ []

abbrev pub connection_keys : List Bytes
connection_keys =
    codes "Connection"
    ∷ codes "Proxy-Connection"
    ∷ codes "Keep-Alive"
    ∷ codes "Proxy-Authenticate"
    ∷ codes "Proxy-Authorization"
    ∷ codes "Te"
    ∷ codes "Trailers"
    ∷ codes "Transfer-Encoding"
    ∷ codes "Upgrade"
    ∷ []

-- One request was sent where `before` and `after` are the requests of the server: the one that the
-- middlewares let through, with its method, its URL and its body, and `Answers` holds of what the
-- server said.
pub record Sends {W : Type 0} (client : Client W) (result : RequestResult)
    (IsClean : Request → Type 0) (Answers : Option Response → Type 0)
    (before after : List (Request × Bytes)) : Type 0 where
  pub request : Request
  pub at : W
  pub once : after ≡ before ++ (request, result.body) ∷ []
  pub clean : IsClean request
  pub kept : result.dropped ≡ false
  pub method : request.method ≡ result.request.method
  pub url : request.url ≡ result.request.url
  pub answer : Answers (client request result.body at).0
