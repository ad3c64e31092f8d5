-- ===== src/Attack/Redirect.antt =====
-- `followRedirect` of internal/ui/intruder.go: the request that it sends for an answer, if any.
-- The number behind the protocol in the first line of an answer, 0 without one.
use shiv.Prelude.{
  ltb, leb, if◌then◌else◌, drop, Bool, true, false, not, ◌&&◌, ◌||◌, Option, none, some, List, [],
  ◌∷◌, ◌++◌,
}
use shiv.Prelude.Int.{ℤ, pos, negsuc}
use shiv.Text.{
  Bytes, codes, same, has_prefix, has_suffix, cut, split, trim_space, fields, to_lower,
  split_host_port,
}
use shiv.Http.RawRequest.{crlf}
use shiv.IntruderConfig.{IntruderConfig}
use shiv.Attack.{is_empty, RawRequestOptions}

second_field : List Bytes → Option Bytes
second_field (a ∷ b ∷ rest) = some b
second_field _ = none

first_part : List Bytes → Bytes
first_part [] = []
first_part (p ∷ ps) = p

unfoldable pub status_text : Bytes → Option Bytes
unfolding second_field first_part fields split
status_text raw = second_field (fields (first_part (split raw crlf)))

unfoldable pub location_of : List Bytes → Bytes
unfolding to_lower has_prefix trim_space
location_of [] = []
location_of (line ∷ lines) =
    let rest = location_of lines in
    if has_prefix (to_lower line) (codes "location:") then trim_space (drop 9 line) else rest

-- Host and path of what stands behind the scheme.
host_and_path : Bytes → Bytes × Bytes
host_and_path rest = elim (cut rest (codes "/")) [
  | none ↦ (rest, codes "/")
  | some (host, path) ↦ (host, b'/' ∷ path)
]

-- What the scope is asked about under "in-scope".
unfoldable pub scope_host : Bytes → Bytes
unfolding host_and_path has_prefix
scope_host location =
    if has_prefix location (codes "http://")
    then (host_and_path (drop 7 location)).0
    else if has_prefix location (codes "https://")
    then (host_and_path (drop 8 location)).0
    else location

pub record Target : Type 0 where
  pub host : Bytes
  pub path : Bytes
  pub tls : Bool

unfoldable pub redirect_target : Bytes → Bytes → Target
unfolding host_and_path has_prefix has_suffix
redirect_target location original =
    if has_prefix location (codes "https://")
    then (let (host, path) = host_and_path (drop 8 location) in
        record { host = host; path = path; tls = true })
    else if has_prefix location (codes "http://")
    then (let (host, path) = host_and_path (drop 7 location) in
        record { host = host; path = path; tls = false })
    else record { host = original; path = location; tls = has_suffix original (codes ":443") }

or_default : ℤ → Option ℤ → ℤ
or_default default none = default
or_default default (some n) = n

default_port : Bool → ℤ
default_port tls = if tls then pos 443 else pos 80

is_redirect : ℤ → Bool
is_redirect (pos n) = leb 300 n && ltb n 400
is_redirect (negsuc n) = false

-- Whether `followRedirect` goes on to a location, as the setting and the scope say.
unfoldable pub may_follow : (Bytes → Bool) → Bytes → Bytes → Bool
unfolding same scope_host is_empty
may_follow in_scope setting location =
    not (is_empty location)
    && (not (same setting (codes "never"))
        && (not (same setting (codes "in-scope")) || in_scope (scope_host location)))

module _ (scan : Bytes → Option ℤ) where
  -- The host and the port of the connection; a port in the host takes the place of the default.
  unfoldable pub host_port_of : Target → Bytes × ℤ
  unfolding split_host_port or_default default_port
  host_port_of t = elim (split_host_port t.host) [
    | none ↦ (t.host, default_port t.tls)
    | some (host, port) ↦ (host, or_default (default_port t.tls) (scan port))
  ]

  unfoldable pub redirect_options : ℤ → Target → RawRequestOptions
  unfolding host_port_of
  redirect_options timeout t =
      let (host, port) = host_port_of t in
      record {
        host = host;
        port = port;
        tls = t.tls;
        raw_req =
            codes "GET " ++ (t.path ++ (codes " HTTP/1.1\r\nHost: " ++ (host ++ codes "\r\n\r\n")));
        timeout_ms = timeout;
      }

  unfoldable pub status_of : Bytes → ℤ
  unfolding status_text or_default
  status_of raw = elim (status_text raw) [
    | none ↦ pos 0
    | some text ↦ or_default (pos 0) (scan text)
  ]

  -- The request of `followRedirect`; `none` where it follows none.
  unfoldable pub redirect_request :
      (Bytes → Bool) → IntruderConfig → Bytes → Bytes → Option RawRequestOptions
  unfolding is_redirect status_of location_of may_follow redirect_options redirect_target split
  redirect_request in_scope config raw_resp original =
      let location = location_of (split raw_resp crlf) in
      if is_redirect (status_of raw_resp) && may_follow in_scope config.follow_redirects location
      then some (redirect_options config.timeout_ms (redirect_target location original))
      else none
