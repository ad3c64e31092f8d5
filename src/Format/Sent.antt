-- ===== src/Format/Sent.antt =====
-- Where a request of the history goes when it is handed to the repeater's raw form or the intruder:
-- `ParseHostFromRaw` of internal/http/rawrequest.go on the text of `FormatStoreRequest`.
mod Lines
use shiv.Prelude.{
  ◌==◌, if◌then◌else◌, Bool-cases, All-append, ℕ, ◌≤◌, ◌≡◌, refl, ap, inl, inr, Bool, true, false,
  not, Option, some, [], ◌∷◌, ◌++◌, arith,
}
use shiv.Prelude.Int.{pos}
use shiv.Text.{Bytes, split, is_space, split_host_port}
use shiv.Text.Host.{IsPlain, split_host_port-append, split_host_port-none}
use shiv.Text.Split.{Lacks}
use shiv.Text.Words.{HasNoSpace}
use shiv.Text.Number.{itoa, max_int, atoi}
use shiv.Text.Number.Digits.{itoa-IsPlain, itoa-HasNoSpace, atoi-itoa}
use shiv.Http.RawRequest.{lf, host_value, scheme_tls, parse_host_from_raw}
use shiv.Http.RawRequest.HostGuess.{parse_host_from_raw_no_scheme}
use shiv.History.{proto_or_http, Transaction}
use shiv.Format.{
  path_of, itoa_int, is_default_port, host_header, request_rest, format_store_request,
}
use shiv.Format.Sent.Lines.{IsMethod, IsPath, IsHostName, request_facts}

parse_with_port :
    (is_ip : Bytes → Bool) (raw value h digits : Bytes) (p : ℕ)
    → host_value (split raw lf) ≡ some value
    → split_host_port value ≡ some (h, digits)
    → atoi digits ≡ pos p
    → parse_host_from_raw is_ip raw ≡ record { host = h; port = pos p; use_tls = p == 443 }
unfolding parse_host_from_raw
parse_with_port is_ip raw value h digits p v e d = ground arith

host_first :
    (h : Bytes) → IsHostName h → (a : ℕ) × (s : Bytes) × (h ≡ a ∷ s) × HasNoSpace h × IsPlain h
host_first [] n = absurd n
host_first (a ∷ s) n = (a, s, refl, n.0, n.1)

-- A transaction whose raw form is well formed: method and path without white space at the wrong
-- places, a protocol on one line, and a host name with no colon and no bracket.
pub record IsTidy (t : Transaction) : Type 0 where
  pub method : IsMethod t.method
  pub path : IsPath (path_of t.url)
  pub proto : Lacks b'\n' (proto_or_http t.proto)
  pub host : IsHostName t.host

module _ (indent : Bytes → Option Bytes) (is_ip : Bytes → Bool) (t : Transaction) where
  sent_to :
      (host : Bytes) (a : ℕ) (s : Bytes)
      → IsTidy t
      → host_header t ≡ host
      → host ≡ a ∷ s
      → HasNoSpace host
      → (host_value (split (format_store_request indent t) lf) ≡ some host)
        × (scheme_tls (format_store_request indent t) ≡ false)
  unfolding format_store_request
  sent_to host a s tidy e first h = rw e (
      request_facts t.method (path_of t.url) (proto_or_http t.proto) host (request_rest indent t) a
        s tidy.method tidy.path tidy.proto first h)

  default_port_sent :
      IsTidy t
      → is_default_port t.tls t.port ≡ true
      → parse_host_from_raw is_ip (format_store_request indent t)
        ≡ record { host = t.host; port = pos 80; use_tls = false }
  default_port_sent tidy default =
      let (a, s, first, spaces, plain) = host_first t.host tidy.host in
      let bare : host_header t ≡ t.host = unfold host_header in rw default refl in
      let (found, scheme) = sent_to t.host a s tidy bare first spaces in
      parse_host_from_raw_no_scheme is_ip (format_store_request indent t) t.host scheme found
        (split_host_port-none t.host plain.0)

  other_port_sent :
      (p : ℕ)
      → t.port ≡ pos p
      → p ≤ max_int
      → IsTidy t
      → is_default_port t.tls t.port ≡ false
      → parse_host_from_raw is_ip (format_store_request indent t)
        ≡ record { host = t.host; port = pos p; use_tls = p == 443 }
  other_port_sent p port small tidy other =
      let (a, s, first, spaces, plain) = host_first t.host tidy.host in
      let value = t.host ++ b':' ∷ itoa p in
      let whole : host_header t ≡ value = unfold host_header itoa_int in rw other (rw port refl) in
      let words : HasNoSpace value =
        All-append (λ c. is_space c ≡ false) t.host (b':' ∷ itoa p) spaces
          (unfold is_space in refl, itoa-HasNoSpace p) in
      let (found, scheme) =
        sent_to value a (s ++ b':' ∷ itoa p) tidy whole (ap (λ x. x ++ b':' ∷ itoa p) first)
          words in
      parse_with_port is_ip (format_store_request indent t) value t.host (itoa p) p found
        (split_host_port-append t.host (itoa p) plain (itoa-IsPlain p)) (atoi-itoa p small)

  -- The text that `FormatStoreRequest` makes of a tidy transaction is sent, by `ParseHostFromRaw`,
  -- to the transaction's host. Where its port is a default one of its scheme, so that it is not
  -- written, that is port 80 without TLS, also if the transaction used TLS; another port is kept,
  -- and TLS is used exactly if it is 443.
  pub parse_host_from_raw-format_store_request :
      (p : ℕ)
      → t.port ≡ pos p
      → p ≤ max_int
      → IsTidy t
      → parse_host_from_raw is_ip (format_store_request indent t) ≡ (
          if is_default_port t.tls t.port
          then record { host = t.host; port = pos 80; use_tls = false }
          else record { host = t.host; port = pos p; use_tls = p == 443 })
  parse_host_from_raw-format_store_request p port small tidy =
      elim (Bool-cases (is_default_port t.tls t.port)) [
        | inl default ↦ rw default (default_port_sent tidy default)
        | inr other ↦ rw other (other_port_sent p port small tidy other)
      ]
