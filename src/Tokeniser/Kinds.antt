-- ===== src/Tokeniser/Kinds.antt =====
-- The tokens, and those of the header section.
use shiv.Prelude.{◌==◌, if◌then◌else◌, Bool, none, some, List, [], ◌∷◌, ◌++◌}
use shiv.Text.{Bytes, codes, same, has_prefix, contains, cut, join, trim_space, fields, to_lower}

pub data TokenKind : Type 0 where
  plain method path version : TokenKind
  status2xx status3xx status4xx status5xx : TokenKind
  hdr_name hdr_colon hdr_value : TokenKind
  json_key json_str json_num json_bool json_punct : TokenKind
  low : TokenKind

pub record Token : Type 0 where
  pub text : Bytes
  pub kind : TokenKind

pub record Line : Type 0 where
  pub tokens : List Token
  pub raw : Bytes

abbrev pub token : TokenKind → Bytes → Token
token k s = record { text = s; kind = k }

-- The text of a row of tokens.
unfoldable pub text_of : List Token → Bytes
text_of [] = []
text_of (t ∷ ts) = t.text ++ text_of ts

unfoldable pub is_blank : Bytes → Bool
unfolding trim_space same
is_blank s = same (trim_space s) []

unfoldable pub detect_content_type : List Bytes → Bytes
detect_content_type [] = codes "text"
detect_content_type (line ∷ lines) =
    let lower = to_lower line in
    let rest = detect_content_type lines in
    if has_prefix lower (codes "content-type:")
    then (if contains lower (codes "json")
        then codes "json"
        else if contains lower (codes "html")
        then codes "html"
        else codes "text")
    else if same line []
    then codes "text"
    else rest

status_kind : Bytes → TokenKind
status_kind [] = status2xx
status_kind (c ∷ s) =
    if c == b'3'
    then status3xx
    else if c == b'4'
    then status4xx
    else if c == b'5'
    then status5xx
    else status2xx

reason_tokens : List Bytes → List Token
reason_tokens [] = []
reason_tokens (p ∷ ps) = token low (codes " " ++ join (p ∷ ps) (codes " ")) ∷ []

-- The cases on `parts`, for a response line and for a request line.
response_tokens : Bytes → List Bytes → List Token
unfolding status_kind reason_tokens
response_tokens line (proto ∷ code ∷ rest) =
    token version (proto ++ codes " ") ∷ token (status_kind code) code ∷ reason_tokens rest
response_tokens line _ = token plain line ∷ []

request_tokens : Bytes → List Bytes → List Token
request_tokens line (m ∷ p ∷ v ∷ rest) =
    token method (m ++ codes " ")
    ∷ token path p
    ∷ token version (codes " " ++ join (v ∷ rest) (codes " "))
    ∷ []
request_tokens line _ = token plain line ∷ []

parts_tokens : Bytes → List Bytes → List Token
unfolding response_tokens request_tokens
parts_tokens line [] = token plain line ∷ []
parts_tokens line (first ∷ rest) =
    if has_prefix first (codes "HTTP/")
    then response_tokens line (first ∷ rest)
    else request_tokens line (first ∷ rest)

unfoldable pub tokenise_first_line : Bytes → List Token
unfolding is_blank parts_tokens
tokenise_first_line line =
    if is_blank line then token plain line ∷ [] else parts_tokens line (fields line)

unfoldable pub tokenise_http_meta : Bytes → Bool → List Token
unfolding tokenise_first_line
tokenise_http_meta [] is_first = token plain [] ∷ []
tokenise_http_meta (c ∷ line) is_first =
    let other = elim (cut (c ∷ line) (codes ":")) as (λ _. List Token) [
      | none ↦ token plain (c ∷ line) ∷ []
      | some (before, after) ↦
          token hdr_name before ∷ token hdr_colon (codes ":") ∷ token hdr_value after ∷ []
    ] in
    if is_first then tokenise_first_line (c ∷ line) else other
