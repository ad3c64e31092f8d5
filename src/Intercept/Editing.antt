-- ===== src/Intercept/Editing.antt =====
-- The text of the intercept tab: formatLiveRequest, parseRawRequest and the decision that decide makes,
-- internal/ui/intercept.go. `uri` is `URL.RequestURI` of a printed URL, `with_origin` puts the scheme
-- and the host of one URL into another, `read` is `http.ReadRequest` with the reading of the body.
use shiv.Prelude.{
  Option-cases, inl, inr, ◌≡◌, refl, Bool, true, false, Option, none, some, List, [], ◌∷◌, ◌++◌,
}
use shiv.Text.{Bytes, codes}
use shiv.Http.Header.{Header}
use shiv.Http.Message.{Request}
use shiv.Http.RawRequest.{crlf}
use shiv.Intercept.Pending.{Decision, PendingRequest}

-- What is read of a text; `body` is `none` where reading the body fails.
pub record Parsed : Type 0 where
  pub request : Request
  pub body : Option Bytes

path_or_slash : Bytes → Bytes
path_or_slash [] = codes "/"
path_or_slash (c ∷ path) = c ∷ path

value_lines : Bytes → List Bytes → Bytes
value_lines k [] = []
value_lines k (v ∷ vs) = k ++ (codes ": " ++ (v ++ (crlf ++ value_lines k vs)))

header_text : Header → Bytes
unfolding value_lines
header_text [] = []
header_text ((k, vs) ∷ h) = value_lines k vs ++ header_text h

unfoldable pub format_live_request : (Bytes → Bytes) → Request → Bytes → Bytes
unfolding path_or_slash header_text
format_live_request uri req body =
    req.method
    ++ (codes " "
        ++ (path_or_slash (uri req.url)
            ++ (codes " HTTP/1.1\r\nHost: "
                ++ (req.host ++ (crlf ++ (header_text req.header ++ (crlf ++ body)))))))

-- A host that was not given is that of the original.
host_or : Bytes → Bytes → Bytes
host_or [] original = original
host_or (c ∷ host) original = c ∷ host

module _ (with_origin : Bytes → Bytes → Bytes) (read : Bytes → Option Parsed) where
  at_origin : Request → Request → Request
  unfolding host_or
  at_origin original req = record req {
    url = with_origin original.url req.url;
    host = host_or req.host original.host;
  }

  unfoldable pub parse_raw_request : Bytes → Request → Option (Request × Bytes)
  unfolding at_origin
  parse_raw_request raw original = elim (read raw) [
    | none ↦ none
    | some p ↦ elim p.body [ none ↦ none | some body ↦ some (at_origin original p.request, body) ]
  ]

  -- What `decide` sends to the waiting call: a text that cannot be read forwards the original.
  unfoldable pub decision_of : Bool → Bytes → PendingRequest → Decision
  unfolding parse_raw_request
  decision_of false raw p = record { forward = false; request = p.request; body = p.body }
  decision_of true raw p = elim (parse_raw_request raw p.request) [
    | none ↦ record { forward = true; request = p.request; body = p.body }
    | some (req, body) ↦ record { forward = true; request = req; body = body }
  ]

  -- Whatever the user has typed, the decision says what was chosen, and its request goes to the
  -- scheme and the host of the URL of the one that waits.
  pub decision_of-origin :
      (origin : Bytes → Bytes)
      → ((original url : Bytes) → origin (with_origin original url) ≡ origin original)
      → (forward : Bool) (raw : Bytes) (p : PendingRequest)
      → ((decision_of forward raw p).forward ≡ forward)
        × (origin (decision_of forward raw p).request.url ≡ origin p.request.url)
  unfolding decision_of
  decision_of-origin origin keeps false raw p = (refl, refl)
  decision_of-origin origin keeps true raw p = elim (Option-cases (read raw)) [
    | inl unread ↦ rw (unread, decision_of) (refl, refl)
    | inr (r, at) ↦ elim (Option-cases r.body) [
      | inl broken ↦ rw (at, decision_of) (rw broken (refl, refl))
      | inr (body, whole) ↦
          rw (at, decision_of) (rw whole (refl, keeps p.request.url r.request.url))
    ]
  ]
