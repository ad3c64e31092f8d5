-- ===== src/Format.antt =====
-- internal/ui/format.go: the texts that the UI makes of a stored transaction, as far as they do not
-- draw. `indent` is json.Indent, `none` where it returns an error.
pub mod Sent
mod Tests
use shiv.Prelude.{
  ◌==◌, if◌then◌else◌, drop, suc, Bool, false, not, ◌&&◌, ◌||◌, Option, none, some, List, [], ◌∷◌,
  ◌++◌,
}
use shiv.Prelude.Int.{ℤ, pos, negsuc}
use shiv.Text.{Bytes, codes, same, has_prefix, contains, to_lower}
use shiv.Text.Number.{itoa}
use shiv.Text.Sort.{sort}
use shiv.Http.Header.{Header, values, get}
use shiv.Http.RawRequest.{crlf}
use shiv.History.{same_int, proto_or_http, Transaction}

-- `rest[slash:]`, or "/" where there is no slash
unfoldable pub from_slash : Bytes → Bytes
from_slash [] = codes "/"
from_slash (c ∷ s) = let later = from_slash s in if c == b'/' then c ∷ s else later

unfoldable pub path_of : Bytes → Bytes
unfolding from_slash has_prefix
path_of url =
    if has_prefix url (codes "https://")
    then from_slash (drop 8 url)
    else if has_prefix url (codes "http://")
    then from_slash (drop 7 url)
    else url

-- strconv.Itoa
unfoldable pub itoa_int : ℤ → Bytes
itoa_int (pos n) = itoa n
itoa_int (negsuc n) = b'-' ∷ itoa (suc n)

unfoldable pub is_default_port : Bool → ℤ → Bool
unfolding same_int
is_default_port tls port =
    same_int port (pos 0) || (tls && same_int port (pos 443) || not tls && same_int port (pos 80))

unfoldable pub host_header : Transaction → Bytes
unfolding is_default_port itoa_int
host_header t =
    if is_default_port t.tls t.port then t.host else t.host ++ (codes ":" ++ itoa_int t.port)

keys_of : Header → List Bytes
keys_of [] = []
keys_of ((k, vs) ∷ h) = k ∷ keys_of h

unfoldable pub sorted_keys : Header → List Bytes
unfolding keys_of sort
sorted_keys h = sort (keys_of h)

-- strings.EqualFold(k, "host")
is_host_key : Bytes → Bool
unfolding to_lower same
is_host_key k = same (to_lower k) (codes "host")

value_lines : Bytes → List Bytes → Bytes
value_lines k [] = []
value_lines k (v ∷ vs) = k ++ (codes ": " ++ (v ++ (crlf ++ value_lines k vs)))

values_or_empty : Option (List Bytes) → List Bytes
values_or_empty none = []
values_or_empty (some vs) = vs

key_lines : (Bytes → Bool) → Header → List Bytes → Bytes
unfolding value_lines values values_or_empty
key_lines skip h [] = []
key_lines skip h (k ∷ ks) =
    (if skip k then [] else value_lines k (values_or_empty (values h k))) ++ key_lines skip h ks

module _ (indent : Bytes → Option Bytes) where
  unfoldable pub pretty_json : Bytes → Bytes
  pretty_json [] = []
  pretty_json (c ∷ s) = elim (indent (c ∷ s)) [ none ↦ c ∷ s | some text ↦ text ]

  -- What stands behind the request line and the Host header.
  request_rest : Transaction → Bytes
  unfolding key_lines sorted_keys is_host_key pretty_json
  request_rest t =
      key_lines is_host_key t.req_headers (sorted_keys t.req_headers)
      ++ (crlf ++ pretty_json t.req_body)

  unfoldable pub format_store_request : Transaction → Bytes
  unfolding path_of proto_or_http host_header request_rest
  format_store_request t =
      t.method
      ++ (codes " "
          ++ (path_of t.url
              ++ (codes " "
                  ++ (proto_or_http t.proto
                      ++ (crlf
                          ++ (codes "Host: " ++ (host_header t ++ (crlf ++ request_rest t))))))))

  response_body : Header → Bytes → Bytes
  unfolding pretty_json get contains
  response_body h body =
      if contains (get h (codes "Content-Type")) (codes "application/json")
      then pretty_json body
      else body

  unfoldable pub format_store_response : Transaction → Bytes
  unfolding key_lines sorted_keys response_body
  format_store_response t =
      codes "HTTP/1.1 "
      ++ (itoa t.status_code
          ++ (crlf
              ++ (key_lines (λ k. false) t.resp_headers (sorted_keys t.resp_headers)
                  ++ (crlf ++ response_body t.resp_headers t.resp_body))))
