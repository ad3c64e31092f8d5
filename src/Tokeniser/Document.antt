-- ===== src/Tokeniser/Document.antt =====
-- `parseAndWrap`: a whole message. The number of runes to a line is an argument.
use shiv.Prelude.{
  if◌then◌else◌, ℕ, ◌≡◌, refl, Bool, true, false, not, ◌&&◌, List, [], ◌∷◌, ◌++◌, arith,
}
use shiv.Text.{Bytes, codes, split, replace_all}
use shiv.Tokeniser.Kinds.{token, is_blank, detect_content_type, tokenise_http_meta, Line, plain}
use shiv.Tokeniser.Json.{tokenise_json, tokenise_body}
use shiv.Tokeniser.Json.Text.{tokenise_body-text}
use shiv.Tokeniser.Wrap.{flush, put_pieces, is_json_text, put_token, put_tokens, wrap_tokens}
use shiv.Tokeniser.Wrap.Bounds.{raws, raws-append, raws-wrap_tokens}

abbrev pub empty_line : Line
empty_line = record { tokens = token plain [] ∷ []; raw = [] }

-- The loop, once it is in the body.
unfoldable pub body_lines : Bytes → ℕ → List Bytes → List Line
body_lines content_type width [] = []
body_lines content_type width (line ∷ lines) =
    wrap_tokens (tokenise_body line content_type) width ++ body_lines content_type width lines

-- The loop before the body; the flag is `i == 0`.
unfoldable pub header_rows : Bytes → ℕ → Bool → List Bytes → List Line
unfolding is_blank
header_rows content_type width first [] = []
header_rows content_type width first (line ∷ lines) =
    let body = empty_line ∷ body_lines content_type width lines in
    let row =
      wrap_tokens (tokenise_http_meta line first) width
      ++ header_rows content_type width false lines in
    if is_blank line && not first then body else row

unfoldable pub logical_lines : Bytes → List Bytes
logical_lines s =
    split (replace_all (replace_all s (codes "\r\n") (codes "\n")) (codes "\r") (codes "\n"))
      (codes "\n")

unfoldable pub parse_and_wrap : Bytes → ℕ → List Line
parse_and_wrap [] chars_per_line = []
parse_and_wrap (c ∷ s) chars_per_line =
    let lines = logical_lines (c ∷ s) in
    header_rows (detect_content_type lines) chars_per_line true lines

-- All the lines, one after the other.
concat_lines : List Bytes → Bytes
concat_lines [] = []
concat_lines (l ∷ ls) = l ++ concat_lines ls

-- The visual lines of the body show all of its text, in order.
raws-body_lines :
    (content_type : Bytes) (width : ℕ) (lines : List Bytes)
    → raws (body_lines content_type width lines) ≡ concat_lines lines
unfolding body_lines concat_lines raws
raws-body_lines content_type width [] = refl
raws-body_lines content_type width (line ∷ lines) =
    rw (raws-append, raws-wrap_tokens, tokenise_body-text, raws-body_lines content_type width lines)

-- An empty line of the body shows nothing, not even an empty line: with it or without it, the
-- message looks the same.
pub body_lines_empty :
    (content_type : Bytes) (width : ℕ) (lines : List Bytes)
    → body_lines content_type width ([] ∷ lines) ≡ body_lines content_type width lines
unfolding body_lines tokenise_body tokenise_json wrap_tokens put_tokens put_token put_pieces
    is_json_text flush
body_lines_empty content_type width lines = ground arith
