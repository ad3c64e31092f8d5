-- ===== src/Proxy/Plain/Traffic.antt =====
-- What a request to the plain proxy sends to the server, and what the browser gets.
use shiv.Prelude.{take, ℕ, ◌*◌, ◌^◌, ◌≡◌, ◌⊎◌, Bool, Option, none, some, List}
use shiv.Text.{Bytes}
use shiv.Http.Message.{Request, Response}
use shiv.Http.Compression.{Decoders}
use shiv.Events.Event.{RequestResult}
use shiv.Events.Bus.{Bus}
use shiv.Proxy.Forward.{Client}
use shiv.Proxy.Upstream.{IsWithout, conditional_keys, connection_keys, Watches, Sends}
use shiv.Proxy.Plain.{Served, refused, answered, connect, replied, after_intercept}

-- The request names the host of its URL, and has no header that must not be forwarded.
abbrev pub IsForwardable : (Bytes → Bytes) → Request → Type 0
IsForwardable url_host req =
    (req.host ≡ url_host req.url) × IsWithout conditional_keys req × IsWithout connection_keys req

-- An error reply that says that no request was sent, or that none could be.
abbrev pub IsRefused : Served → Type 0
IsRefused connect = Unit
IsRefused (replied (refused status text)) = (status ≡ 403) ⊎ (status ≡ 502)
IsRefused (replied (answered status header body)) = ⊥

-- What the browser gets for an answer of the server, or for none.
abbrev pub PassesBack : Served → Option Response → Type 0
PassesBack connect resp = ⊥
PassesBack (replied (refused status text)) none = status ≡ 502
PassesBack (replied (refused status text)) (some resp) = ⊥
PassesBack (replied (answered status header body)) none = ⊥
PassesBack (replied (answered status header body)) (some resp) =
    (status ≡ resp.status) × (body ≡ take (10 * 2 ^ 20) resp.body)

module _ {W : Type 0} (sent : W → List (Request × Bytes)) (b : Bus W) (client : Client W)
    (watched : Watches sent b client) (url_host : Bytes → Bytes) (builds : Request → Bool)
    (d : Decoders) (start elapsed : ℕ) where
  through : RequestResult × W → Served × W
  through = after_intercept b client url_host builds d start elapsed

  abbrev Came : RequestResult → W → Served × W → Type 0
  Came result w o =
      ((sent o.1 ≡ sent w) × IsRefused o.0)
      ⊎ Sends client result (IsForwardable url_host) (PassesBack o.0) (sent w) (sent o.1)
