-- ===== src/Tokeniser/Wrap/Bounds.antt =====
-- Wrapping loses no text, and keeps every line to the width.
use shiv.Prelude.{
  ltb, leb, Bool-cases, length, take, drop, take-append-drop, length-drop, ℕ, zero, suc, ◌+◌, ◌≤◌,
  ◌<◌, ◌≡◌, refl, sym, ap, ◌∙◌, inl, inr, List, [], ◌∷◌, ◌++◌, append-nil, append_assoc, arith,
}
use shiv.Text.{Bytes}
use shiv.Tokeniser.Kinds.{token, text_of, Token, Line, TokenKind}
use shiv.Tokeniser.Wrap.{
  flush_row, flush, append_token, put_whole, with_room, piece_len, put_pieces, is_json_text,
  put_token, put_tokens, no_lines, line_width, wrap_tokens, Wrapping,
}

-- The text of the lines, one after the other.
unfoldable pub raws : List Line → Bytes
raws [] = []
raws (l ∷ ls) = l.raw ++ raws ls

pub raws-append : (xs ys : List Line) → raws (xs ++ ys) ≡ raws xs ++ raws ys
unfolding raws
raws-append [] ys = refl
raws-append (l ∷ xs) ys = rw (raws-append xs ys, append_assoc)

pub text_of-append : (xs ys : List Token) → text_of (xs ++ ys) ≡ text_of xs ++ text_of ys
unfolding text_of
text_of-append [] ys = refl
text_of-append (t ∷ xs) ys = rw (text_of-append xs ys, append_assoc)

pub text_of-one : (t : Token) → text_of (t ∷ []) ≡ t.text
unfolding text_of
text_of-one t = append-nil t.text

-- What has been written so far, with the line that is still open.
written : Wrapping → Bytes
written w = raws w.result ++ text_of w.current

written-flush_row :
    (w : Wrapping) (ts : List Token) → w.current ≡ ts → written (flush_row w ts) ≡ written w
unfolding written flush_row raws
written-flush_row w [] e = refl
written-flush_row w (t ∷ ts) e = simp (raws-append, e, append-nil) refl

written-flush : (w : Wrapping) → written (flush w) ≡ written w
unfolding flush
written-flush w = written-flush_row w w.current refl

written-append_token :
    (t : Token) (n : ℕ) (w : Wrapping) → written (append_token t n w) ≡ written w ++ t.text
unfolding written append_token
written-append_token t n w = simp (text_of-append, text_of-one, append_assoc) refl

written-put_whole :
    (width : ℕ) (t : Token) (w : Wrapping) → written (put_whole width t w) ≡ written w ++ t.text
unfolding put_whole
written-put_whole width t w = elim (Bool-cases (ltb width (w.current_len + length t.text))) [
  | inl over ↦ simp (over, written-append_token, written-flush) refl
  | inr fits ↦ simp (fits, written-append_token) refl
]

written-with_room : (width : ℕ) (w : Wrapping) → written (with_room width w) ≡ written w
unfolding with_room
written-with_room width w = elim (Bool-cases (leb width w.current_len)) [
  | inl full ↦ simp full (written-flush w)
  | inr room ↦ simp room refl
]

-- A piece has one rune at least, and no more than there are.
pub piece_len_bounds :
    (width : ℕ) (w : Wrapping) (c : ℕ) (runes : Bytes)
    → 0 < width
    → (0 < piece_len width w (c ∷ runes)) × (piece_len width w (c ∷ runes) ≤ length (c ∷ runes))
unfolding piece_len
piece_len_bounds width w c runes h = ground arith

written-put_pieces :
    (fuel width : ℕ) (kind : TokenKind) (runes : Bytes) (w : Wrapping)
    → 0 < width
    → length runes ≤ fuel
    → written (put_pieces fuel width kind runes w) ≡ written w ++ runes
unfolding put_pieces
written-put_pieces zero width kind [] w h enough = sym (append-nil (written w))
written-put_pieces zero width kind (c ∷ runes) w h enough = absurd (omega arith)
written-put_pieces (suc fuel) width kind [] w h enough = sym (append-nil (written w))
written-put_pieces (suc fuel) width kind (c ∷ runes) w h enough =
    let n = piece_len width w (c ∷ runes) in
    let some_taken = piece_len_bounds width w c runes h in
    written-put_pieces fuel width kind (drop n (c ∷ runes))
      (append_token (token kind (take n (c ∷ runes))) n (with_room width w)) h
      (omega (arith, length-drop n (c ∷ runes)))
    ∙ simp (written-append_token, written-with_room, append_assoc, take-append-drop) refl

written-put_token :
    (width : ℕ) (t : Token) (w : Wrapping)
    → 0 < width
    → written (put_token width t w) ≡ written w ++ t.text
unfolding put_token
written-put_token width t w h = elim (Bool-cases (is_json_text t.kind)) [
  | inl whole ↦ rw whole (written-put_whole width t w)
  | inr pieces ↦
      rw pieces (written-put_pieces (length t.text) width t.kind t.text w h (omega arith))
]

written-put_tokens :
    (width : ℕ) (ts : List Token) (w : Wrapping)
    → 0 < width
    → written (put_tokens width ts w) ≡ written w ++ text_of ts
unfolding put_tokens text_of
written-put_tokens width [] w h = sym (append-nil (written w))
written-put_tokens width (t ∷ ts) w h =
    written-put_tokens width ts (put_token width t w) h
    ∙ ap (λ s. s ++ text_of ts) (written-put_token width t w h)
    ∙ append_assoc (written w) t.text (text_of ts)

pub line_width_pos : (n : ℕ) → 0 < line_width n
unfolding line_width
line_width_pos zero = omega arith
line_width_pos (suc n) = omega arith

-- after a flush no line is open
flushed : (w : Wrapping) → (flush w).current ≡ []
unfolding flush flush_row
flushed w = ground arith

all_written : (w : Wrapping) → w.current ≡ [] → raws w.result ≡ written w
unfolding written text_of
all_written w e = rw (e, append-nil)

-- The lines hold the text of the tokens, whole and in order.
pub raws-wrap_tokens : (ts : List Token) (n : ℕ) → raws (wrap_tokens ts n) ≡ text_of ts
unfolding wrap_tokens
raws-wrap_tokens ts n =
    let w = put_tokens (line_width n) ts no_lines in
    all_written (flush w) (flushed w)
    ∙ written-flush w
    ∙ written-put_tokens (line_width n) ts no_lines (line_width_pos n)
    ∙ unfold written raws text_of in refl
