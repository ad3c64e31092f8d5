-- ===== src/Proxy/Forward.antt =====
-- internal/proxy/forward.go. The HTTP client is a parameter: its answer to a request, `none` for an
-- error, and what it does to the world. So is `url_host`, the host of a URL that is printed, which
-- `http.NewRequestWithContext` makes the Host of the new request, whatever the Host of the old one is.
use shiv.Prelude.{
  if◌then◌else◌, Bool-cases, ◌≡◌, ap, inl, inr, Bool, ◌||◌, Option, none, some, [], ◌∷◌, arith,
}
use shiv.Text.{Bytes, same}
use shiv.Text.Equality.{same_iff}
use shiv.Http.Header.{Header, values, put}
use shiv.Http.Header.Laws.{values-put}
use shiv.Http.Message.{Request, Response}
use shiv.Http.Headers.{
  strip_request_cache_headers, strip_response_cache_headers, is_one_of, hop_by_hop,
}
use shiv.Http.Headers.Strip.{conditional, values-strip_request_cache_headers}

abbrev pub Client : Type 0 → Type 0
Client W = Request → Bytes → W → Option Response × W

-- The loop that copies the headers which may be forwarded.
unfoldable pub copy_end_to_end : Header → Header
copy_end_to_end [] = []
copy_end_to_end ((k, vs) ∷ h) =
    let rest = copy_end_to_end h in if hop_by_hop k then rest else put rest k vs

unfoldable pub outgoing : (Bytes → Bytes) → Request → Request
outgoing url_host req = record req {
  host = url_host req.url;
  header = strip_request_cache_headers (copy_end_to_end req.header);
}

stripped : Option Response → Option Response
stripped none = none
stripped (some resp) = some (record resp { header = strip_response_cache_headers resp.header })

-- `none` is an error: a request that cannot be built (`builds` is false), or one of the client.
unfoldable pub forward :
    {W : Type 0}
    → Client W
    → (Bytes → Bytes)
    → (Request → Bool)
    → Request
    → Bytes
    → W
    → Option Response × W
unfolding outgoing stripped
forward client url_host builds req body w =
    if builds req
    then (let (resp, w') = client (outgoing url_host req) body w in (stripped resp, w'))
    else (none, w)

values-copy_end_to_end :
    (h : Header) (k : Bytes)
    → values (copy_end_to_end h) k ≡ (if hop_by_hop k then none else values h k)
unfolding copy_end_to_end values
values-copy_end_to_end [] k = ground arith
values-copy_end_to_end ((j, vs) ∷ h) k = elim (Bool-cases (same j k)) [
  | inl eq ↦
      let alike : hop_by_hop j ≡ hop_by_hop k = ap hop_by_hop ((same_iff j k).0 eq) in
      ground (arith, alike, values-put (copy_end_to_end h) j vs k, values-copy_end_to_end h k)
  | inr ne ↦ ground (arith, values-put (copy_end_to_end h) j vs k, values-copy_end_to_end h k)
]

-- The request that goes upstream has no hop-by-hop header and no conditional-request header, and
-- every other header as it came.
pub values-outgoing :
    (url_host : Bytes → Bytes) (req : Request) (k : Bytes)
    → values (outgoing url_host req).header k
      ≡ (if is_one_of k conditional || hop_by_hop k then none else values req.header k)
unfolding outgoing
values-outgoing url_host req k =
    rw values-strip_request_cache_headers (ground (arith, values-copy_end_to_end req.header k))
