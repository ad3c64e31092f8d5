-- ===== src/Http/Headers/Strip.antt =====
-- What the strip functions leave of a header.
use shiv.Prelude.{◌≡◌, arith, none, some, List, [], ◌∷◌, if◌then◌else◌}
use shiv.Text.{Bytes, codes, same}
use shiv.Http.Header.{Header, values}
use shiv.Http.Header.Laws.{header_laws, values-remove}
use shiv.Http.Headers.{
  strip_request_cache_headers, strip_response_cache_headers, is_one_of, no_store,
}

-- The conditional-request headers.
abbrev pub conditional : List Bytes
conditional =
    codes "If-None-Match"
    ∷ codes "If-Modified-Since"
    ∷ codes "If-Range"
    ∷ codes "If-Match"
    ∷ codes "If-Unmodified-Since"
    ∷ []

-- After the strip, every conditional-request header is absent and every other key has its values.
pub values-strip_request_cache_headers :
    (h : Header) (k : Bytes)
    → values (strip_request_cache_headers h) k
      ≡ (if is_one_of k conditional then none else values h k)
unfolding strip_request_cache_headers is_one_of
values-strip_request_cache_headers h k = simp values-remove (ground arith)

-- The caching directives of a response.
abbrev pub caching : List Bytes
caching =
    codes "Cache-Control"
    ∷ codes "Expires"
    ∷ codes "Etag"
    ∷ codes "Last-Modified"
    ∷ codes "Pragma"
    ∷ []

-- After the strip, Cache-Control is the one value no-store, the other caching directives are
-- absent, and every other key has its values.
pub values-strip_response_cache_headers :
    (h : Header) (k : Bytes)
    → values (strip_response_cache_headers h) k ≡ (
        if same (codes "Cache-Control") k
        then some (no_store ∷ [])
        else if is_one_of k caching
        then none
        else values h k)
unfolding strip_response_cache_headers is_one_of
values-strip_response_cache_headers h k = simp header_laws (ground arith)
