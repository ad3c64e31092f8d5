-- ===== src/Http/RawRequest/HostGuess.antt =====
-- Where a raw request is sent: the host, port and TLS flag of `ParseHostFromRaw`.
use shiv.Prelude.{◌≡◌, Bool, false, none, some, arith}
use shiv.Prelude.Int.{pos}
use shiv.Text.{Bytes, split, split_host_port}
use shiv.Http.RawRequest.{lf, host_value, scheme_tls, parse_host_from_raw}

-- A request whose request line has no https scheme, and whose Host header has no port, is sent in
-- plain text to port 80, whatever kind of host it names.
pub parse_host_from_raw_no_scheme :
    (is_ip : Bytes → Bool) (raw value : Bytes)
    → scheme_tls raw ≡ false
    → host_value (split raw lf) ≡ some value
    → split_host_port value ≡ none
    → parse_host_from_raw is_ip raw ≡ record { host = value; port = pos 80; use_tls = false }
unfolding parse_host_from_raw
parse_host_from_raw_no_scheme is_ip raw value t v p = ground arith
