-- ===== src/Http/RawRequest.antt =====
-- internal/http/rawrequest.go, less the dialling of `SendRaw`: the rewriting of a raw request
-- before it is sent, and what the UI reads from one. `net.ParseIP` is a parameter, as is the text
-- of a status code.
pub mod Lines
pub mod HostGuess
use shiv.Prelude.{
  ◌==◌, if◌then◌else◌, length, drop, ℕ, ◌+◌, Bool, true, false, not, ◌||◌, Option, none, some, List,
  [], ◌∷◌, ◌++◌, map,
}
use shiv.Prelude.Int.{ℤ, pos, negsuc}
use shiv.Text.{
  Bytes, codes, same, has_prefix, cut, split, replace_all, join, trim_space, fields, to_lower,
  split_host_port,
}
use shiv.Text.Number.{itoa, atoi}
use shiv.Http.Header.{Header, add}
use shiv.Http.Message.{Response}

abbrev pub crlf : Bytes
crlf = codes "\r\n"

abbrev pub lf : Bytes
lf = codes "\n"

-- The body is `none` where it is nil.
unfoldable pub split_raw : Bytes → Bytes × Option Bytes
split_raw raw = elim (cut raw (codes "\r\n\r\n")) [
  | some (header, body) ↦ (header, some body)
  | none ↦ elim (cut raw (codes "\n\n")) [
    | some (header, body) ↦ (header, some body)
    | none ↦ (raw, none)
  ]
]

text_of : Option Bytes → Bytes
text_of none = []
text_of (some s) = s

-- The two `ReplaceAll` of `NormalizeLineEndings`.
unfoldable pub to_crlf : Bytes → Bytes
to_crlf header = replace_all (replace_all header crlf lf) lf crlf

unfoldable pub normalize_line_endings : Bytes → Bytes
unfolding split_raw to_crlf text_of
normalize_line_endings raw =
    let (header, body) = split_raw raw in to_crlf header ++ (codes "\r\n\r\n" ++ text_of body)

-- METHOD PATH HTTP/1.1
first_line : List Bytes → Option Bytes
first_line (method ∷ path ∷ rest) = some (method ++ (codes " " ++ (path ++ codes " HTTP/1.1")))
first_line _ = none

unfoldable pub rewrite_request_line : Bytes → Bytes
unfolding first_line
rewrite_request_line raw = elim (cut raw crlf) [
  | none ↦ raw
  | some (line, rest) ↦ elim (first_line (fields line)) [
    | none ↦ raw
    | some line' ↦ line' ++ (crlf ++ rest)
  ]
]

-- The cases of the switch in `rewriteHeaders`, by the first prefix that fits.
pub data LineKind : Type 0 where
  cookie_line accept_encoding_line content_length_line : LineKind
  transfer_encoding_line connection_line host_line other_line : LineKind

unfoldable pub kind_of : Bytes → LineKind
unfolding to_lower has_prefix
kind_of line =
    let lower = to_lower line in
    if has_prefix lower (codes "cookie:")
    then cookie_line
    else if has_prefix lower (codes "accept-encoding:")
    then accept_encoding_line
    else if has_prefix lower (codes "content-length:")
    then content_length_line
    else if has_prefix lower (codes "transfer-encoding:")
    then transfer_encoding_line
    else if has_prefix lower (codes "connection:")
    then connection_line
    else if has_prefix lower (codes "host:")
    then host_line
    else other_line

abbrev pub connection_close : Bytes
connection_close = codes "Connection: close"

-- A host line loses a default port.
unfoldable pub rewrite_host_line : Bytes → Bytes
rewrite_host_line line = elim (split_host_port (trim_space (drop 5 line))) [
  | none ↦ line
  | some (h, port) ↦
      if same port (codes "443") || same port (codes "80") then codes "Host: " ++ h else line
]

-- What the loop appends for one line.
unfoldable pub rewrite_line : Bool → LineKind → Bytes → List Bytes
unfolding rewrite_host_line
rewrite_line has_jar cookie_line line = if has_jar then [] else line ∷ []
rewrite_line has_jar accept_encoding_line line = []
rewrite_line has_jar content_length_line line = []
rewrite_line has_jar transfer_encoding_line line = []
rewrite_line has_jar connection_line line = connection_close ∷ []
rewrite_line has_jar host_line line = rewrite_host_line line ∷ []
rewrite_line has_jar other_line line = line ∷ []

unfoldable pub rewrite_lines : Bool → List Bytes → List Bytes
rewrite_lines has_jar [] = []
rewrite_lines has_jar (line ∷ lines) =
    rewrite_line has_jar (kind_of line) line ++ rewrite_lines has_jar lines

is_connection : LineKind → Bool
is_connection connection_line = true
is_connection _ = false

-- `connectionSeen` after the loop
unfoldable pub connection_seen : List Bytes → Bool
unfolding is_connection
connection_seen [] = false
connection_seen (line ∷ lines) = is_connection (kind_of line) || connection_seen lines

-- `k + "=" + v`
cookie_pairs : List (Bytes × Bytes) → List Bytes
cookie_pairs [] = []
cookie_pairs ((k, v) ∷ jar) = (k ++ (codes "=" ++ v)) ∷ cookie_pairs jar

is_empty {ℓ} : {A : Type ℓ} → List A → Bool
is_empty [] = true
is_empty (x ∷ xs) = false

unfoldable pub cookie_header : List (Bytes × Bytes) → List Bytes
unfolding cookie_pairs
cookie_header [] = []
cookie_header (kv ∷ jar) = (codes "Cookie: " ++ join (cookie_pairs (kv ∷ jar)) (codes "; ")) ∷ []

unfoldable pub length_header : Bytes → List Bytes
length_header [] = []
length_header (c ∷ body) = (codes "Content-Length: " ++ itoa (length (c ∷ body))) ∷ []

-- The lines of the rewritten header section.
unfoldable pub header_lines : List Bytes → List (Bytes × Bytes) → Bytes → List Bytes
unfolding is_empty
header_lines lines jar body =
    rewrite_lines (not (is_empty jar)) lines
    ++ ((if connection_seen lines then [] else connection_close ∷ [])
        ++ (cookie_header jar ++ length_header body))

-- `strings.SplitN(raw, "\r\n\r\n", 2)`, with an empty body where there is one part
header_and_body : Bytes → Bytes × Bytes
header_and_body raw = elim (cut raw (codes "\r\n\r\n")) [ none ↦ (raw, []) | some p ↦ p ]

-- The cookie jar is the list of its pairs, in the order in which Go walks the map.
unfoldable pub rewrite_headers : Bytes → List (Bytes × Bytes) → Bytes
unfolding header_lines header_and_body
rewrite_headers raw jar =
    let (header, body) = header_and_body raw in
    join (header_lines (split header crlf) jar body) crlf ++ (codes "\r\n\r\n" ++ body)

-- The text that `SendRaw` writes to the connection.
unfoldable pub wire_text : Bytes → List (Bytes × Bytes) → Bytes
wire_text raw jar = rewrite_headers (rewrite_request_line (normalize_line_endings raw)) jar

-- `strings.SplitN(raw, "\n", 2)[0]`
unfoldable pub first_raw_line : Bytes → Bytes
first_raw_line raw = elim (cut raw lf) [ none ↦ raw | some (line, rest) ↦ line ]

second_or : Bytes → List Bytes → Bytes
second_or missing (a ∷ b ∷ rest) = b
second_or missing _ = missing

first_or : Bytes → List Bytes → Bytes
first_or missing [] = missing
first_or missing (a ∷ rest) = a

unfoldable pub extract_url : Bytes → Bytes
unfolding second_or
extract_url raw = second_or (codes "/") (fields (first_raw_line raw))

unfoldable pub extract_method : Bytes → Bytes
unfolding first_or
extract_method raw = first_or (codes "GET") (fields (first_raw_line raw))

-- The value of the first line that is a Host header.
unfoldable pub host_value : List Bytes → Option Bytes
host_value [] = none
host_value (line ∷ lines) =
    let trimmed = trim_space line in
    let rest = host_value lines in
    if has_prefix (to_lower trimmed) (codes "host:")
    then some (trim_space (drop 5 trimmed))
    else rest

pub record HostInfo : Type 0 where
  pub host : Bytes
  pub port : ℤ
  pub use_tls : Bool

-- `useTLS` from the scheme of the request line
unfoldable pub scheme_tls : Bytes → Bool
unfolding second_or
scheme_tls raw = has_prefix (second_or [] (fields (first_raw_line raw))) (codes "https://")

unfoldable pub is_443 : ℤ → Bool
is_443 (pos n) = n == 443
is_443 (negsuc n) = false

-- The branch for a Host value. `port` is 0 at its start, since only this branch sets it.
host_info : (Bytes → Bool) → Bool → Bytes → HostInfo
unfolding is_443
host_info is_ip tls value = elim (split_host_port value) [
  | some (h, port_str) ↦ record { host = h; port = atoi port_str; use_tls = is_443 (atoi port_str) }
  | none ↦
      if is_ip value
      then record { host = value; port = pos 80; use_tls = false }
      else let port = if tls then 443 else 80 in
        record { host = value; port = pos port; use_tls = port == 443 || tls }
]

unfoldable pub parse_host_from_raw : (Bytes → Bool) → Bytes → HostInfo
unfolding host_value scheme_tls host_info
parse_host_from_raw is_ip raw = elim (host_value (split raw lf)) [
  | none ↦ record { host = []; port = pos 0; use_tls = false }
  | some value ↦ host_info is_ip (scheme_tls raw) value
]

add_line : Bytes → Header → Header
add_line line h = elim (cut line (codes ": ")) [ none ↦ h | some (k, v) ↦ add h k v ]

add_lines : List Bytes → Header → Header
unfolding add_line
add_lines [] h = h
add_lines ([] ∷ lines) h = h
add_lines ((c ∷ line) ∷ lines) h = add_lines lines (add_line (c ∷ line) h)

tail_of : List Bytes → List Bytes
tail_of [] = []
tail_of (line ∷ lines) = lines

unfoldable pub parse_raw_headers : Bytes → Header
unfolding add_lines tail_of
parse_raw_headers raw = add_lines (tail_of (split raw crlf)) []

value_lines : Bytes → List Bytes → Bytes
value_lines k [] = []
value_lines k (v ∷ vs) = k ++ (codes ": " ++ (v ++ (crlf ++ value_lines k vs)))

field_lines : Header → Bytes
unfolding value_lines
field_lines [] = []
field_lines ((k, vs) ∷ h) = value_lines k vs ++ field_lines h

unfoldable pub build_raw_response : (ℕ → Bytes) → Response → Bytes → Bytes
unfolding field_lines
build_raw_response status_text resp body =
    codes "HTTP/1.1 "
    ++ (itoa resp.status
        ++ (codes " "
            ++ (status_text resp.status ++ (crlf ++ (field_lines resp.header ++ (crlf ++ body))))))
