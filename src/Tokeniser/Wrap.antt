-- ===== src/Tokeniser/Wrap.antt =====
-- `wrapTokens`: tokens into lines of a given width.
pub mod Bounds
pub mod Width
use shiv.Prelude.{
  ltb, leb, if◌then◌else◌, length, take, drop, ℕ, zero, suc, ◌+◌, ◌-◌, Bool, true, false, none,
  List, [], ◌∷◌, ◌++◌,
}
use shiv.Text.{Bytes, split}
use shiv.Tokeniser.Kinds.{token, text_of, Token, Line, TokenKind, json_key, json_str}

-- The variables of the loop: the lines made, the tokens of the current one, and its length.
pub record Wrapping : Type 0 where
  pub result : List Line
  pub current : List Token
  pub current_len : ℕ

flush_row : Wrapping → List Token → Wrapping
unfolding text_of
flush_row w [] = w
flush_row w (t ∷ ts) = record {
  result = w.result ++ record { tokens = t ∷ ts; raw = text_of (t ∷ ts) } ∷ [];
  current = [];
  current_len = 0;
}

unfoldable pub flush : Wrapping → Wrapping
unfolding flush_row
flush w = flush_row w w.current

unfoldable pub append_token : Token → ℕ → Wrapping → Wrapping
append_token t n w = record w { current = w.current ++ t ∷ []; current_len = w.current_len + n }

-- A JSON string is never split.
unfoldable pub put_whole : ℕ → Token → Wrapping → Wrapping
put_whole width t w =
    append_token t (length t.text)
      (if ltb width (w.current_len + length t.text) then flush w else w)

-- `spaceLeft`: the room on the line, or a whole new line where there is none.
unfoldable pub space_left : ℕ → Wrapping → ℕ
space_left width w = if leb width w.current_len then width else width - w.current_len

-- The state in which the next piece is put.
unfoldable pub with_room : ℕ → Wrapping → Wrapping
with_room width w = if leb width w.current_len then flush w else w

-- `n := min(len(runes), spaceLeft)`
unfoldable pub piece_len : ℕ → Wrapping → Bytes → ℕ
unfolding space_left
piece_len width w runes =
    if ltb (space_left width w) (length runes) then space_left width w else length runes

-- `for len(runes) > 0`, on fuel; each round takes at least one rune, so the number of runes is
-- enough.
unfoldable pub put_pieces : ℕ → ℕ → TokenKind → Bytes → Wrapping → Wrapping
put_pieces zero width kind runes w = w
put_pieces (suc fuel) width kind [] w = w
put_pieces (suc fuel) width kind (c ∷ runes) w =
    let n = piece_len width w (c ∷ runes) in
    put_pieces fuel width kind (drop n (c ∷ runes))
      (append_token (token kind (take n (c ∷ runes))) n (with_room width w))

unfoldable pub is_json_text : TokenKind → Bool
is_json_text json_str = true
is_json_text json_key = true
is_json_text _ = false

unfoldable pub put_token : ℕ → Token → Wrapping → Wrapping
put_token width t w =
    if is_json_text t.kind
    then put_whole width t w
    else put_pieces (length t.text) width t.kind t.text w

unfoldable pub put_tokens : ℕ → List Token → Wrapping → Wrapping
put_tokens width [] w = w
put_tokens width (t ∷ ts) w = put_tokens width ts (put_token width t w)

abbrev pub no_lines : Wrapping
no_lines = record { result = []; current = []; current_len = 0 }

-- `if charsPerLine <= 0 { charsPerLine = 80 }`
unfoldable pub line_width : ℕ → ℕ
line_width zero = 80
line_width (suc n) = suc n

unfoldable pub wrap_tokens : List Token → ℕ → List Line
wrap_tokens tokens chars_per_line =
    (flush (put_tokens (line_width chars_per_line) tokens no_lines)).result
