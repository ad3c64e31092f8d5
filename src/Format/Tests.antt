-- ===== src/Format/Tests.antt =====
-- A transaction over TLS on its default port: its raw form is sent without TLS.
use shiv.Prelude.{◌==◌, if◌then◌else◌, ◌≡◌, refl, true, false, some, [], ◌∷◌, arith}
use shiv.Prelude.Int.{pos}
use shiv.Text.{codes, contains_byte, is_space}
use shiv.Http.RawRequest.{parse_host_from_raw}
use shiv.History.{proto_or_http, Transaction}
use shiv.Format.{path_of, is_default_port, format_store_request}
use shiv.Format.Sent.{IsTidy, parse_host_from_raw-format_store_request}

abbrev secure : Transaction
secure = record {
  id = 1;
  timestamp = 0;
  host = codes "a.test";
  port = pos 443;
  method = codes "GET";
  url = codes "https://a.test/x";
  proto = codes "HTTP/2.0";
  req_headers = (codes "Accept", codes "*/*" ∷ []) ∷ [];
  req_body = [];
  status_code = 200;
  resp_headers = [];
  resp_body = [];
  resp_size = 0;
  duration_ms = 1;
  tls = true;
  in_scope = true;
}

secure-IsTidy : IsTidy secure
unfolding contains_byte is_space path_of proto_or_http
secure-IsTidy = record {
  method = ((refl, (refl, (refl, tt))), refl);
  path = (refl, refl);
  proto = refl;
  host = ((refl, (refl, (refl, (refl, (refl, (refl, tt)))))), (refl, refl, refl));
}

parse_host_from_raw-format_store_request_example :
    parse_host_from_raw (λ s. false) (format_store_request (λ s. some s) secure) ≡ (
      if is_default_port true (pos 443)
      then record { host = codes "a.test"; port = pos 80; use_tls = false }
      else record { host = codes "a.test"; port = pos 443; use_tls = 443 == 443 })
parse_host_from_raw-format_store_request_example =
    parse_host_from_raw-format_store_request (λ s. some s) (λ s. false) secure 443 refl
      (omega arith) secure-IsTidy
