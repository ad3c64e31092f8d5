-- ===== src/Http/Headers.antt =====
-- internal/http/headers.go.
pub mod Strip
use shiv.Prelude.{
  Bool, true, false, not, ◌&&◌, ◌||◌, Option, none, some, List, [], ◌∷◌, if◌then◌else◌,
}
use shiv.Text.{Bytes, codes, same, split_host_port}
use shiv.Http.Header.{Header, del, set_value}

unfoldable pub normalize_host : Bytes → Bool → Bytes
unfolding same
normalize_host host tls = elim (split_host_port host) [
  | none ↦ host
  | some (h, port) ↦
      if tls && same port (codes "443") || not tls && same port (codes "80") then h else host
]

unfoldable pub strip_request_cache_headers : Header → Header
unfolding del
strip_request_cache_headers h =
    let h1 = del h (codes "If-None-Match") in
    let h2 = del h1 (codes "If-Modified-Since") in
    let h3 = del h2 (codes "If-Range") in
    let h4 = del h3 (codes "If-Match") in del h4 (codes "If-Unmodified-Since")

abbrev pub no_store : Bytes
no_store = codes "no-store, no-cache, must-revalidate"

unfoldable pub strip_response_cache_headers : Header → Header
unfolding del set_value
strip_response_cache_headers h =
    let h1 = del h (codes "Cache-Control") in
    let h2 = del h1 (codes "Expires") in
    let h3 = del h2 (codes "ETag") in
    let h4 = del h3 (codes "Last-Modified") in
    let h5 = del h4 (codes "Pragma") in set_value h5 (codes "Cache-Control") no_store

abbrev pub hop_by_hop_keys : List Bytes
hop_by_hop_keys =
    codes "Connection"
    ∷ codes "Proxy-Connection"
    ∷ codes "Keep-Alive"
    ∷ codes "Proxy-Authenticate"
    ∷ codes "Proxy-Authorization"
    ∷ codes "Te"
    ∷ codes "Trailers"
    ∷ codes "Transfer-Encoding"
    ∷ codes "Upgrade"
    ∷ []

unfoldable pub is_one_of : Bytes → List Bytes → Bool
is_one_of k [] = false
is_one_of k (j ∷ js) = same j k || is_one_of k js

-- HopByHop[k]
unfoldable pub hop_by_hop : Bytes → Bool
unfolding is_one_of
hop_by_hop k = is_one_of k hop_by_hop_keys
