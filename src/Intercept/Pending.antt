-- ===== src/Intercept/Pending.antt =====
-- A request held at the gate, and the user's decision on it. `Reply` is a channel with one place,
-- `done` a channel that is only ever closed.
use shiv.Prelude.{Bool, true, false, Option, none}
use shiv.Text.{Bytes}
use shiv.Http.Message.{Request}

pub record Decision : Type 0 where
  pub forward : Bool
  pub request : Request
  pub body : Bytes

pub record PendingRequest : Type 0 where
  pub request : Request
  pub body : Bytes
  pub reply : Option Decision
  pub done_closed : Bool

unfoldable pub new_pending_request : Request → Bytes → PendingRequest
new_pending_request req body = record {
  request = req;
  body = body;
  reply = none;
  done_closed = false;
}

-- Closing twice is a panic in Go, so the code tests first; the result is closed either way.
unfoldable pub cancel : PendingRequest → PendingRequest
cancel p = elim p.done_closed [ true ↦ p | false ↦ record p { done_closed = true } ]

unfoldable pub is_done : PendingRequest → Bool
is_done p = elim p.done_closed [ true ↦ true | false ↦ false ]
