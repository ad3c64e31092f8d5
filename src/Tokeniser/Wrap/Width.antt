-- ===== src/Tokeniser/Wrap/Width.antt =====
-- No line is longer than the width, but for a JSON string that stands alone.
use shiv.Prelude.{
  ltb, leb, ltb→le, Bool-cases, length, take, drop, length-append, length-take, All, All-append, ℕ,
  zero, suc, ◌+◌, ◌≤◌, ◌<◌, ◌≡◌, refl, ap, ◌∙◌, ◌⊎◌, inl, inr, true, List, [], ◌∷◌, arith,
}
use shiv.Text.{Bytes}
use shiv.Tokeniser.Kinds.{token, text_of, Token, Line, TokenKind}
use shiv.Tokeniser.Wrap.{
  flush_row, flush, append_token, put_whole, with_room, piece_len, put_pieces, is_json_text,
  put_token, put_tokens, no_lines, line_width, wrap_tokens, Wrapping,
}
use shiv.Tokeniser.Wrap.Bounds.{text_of-append, text_of-one, piece_len_bounds, line_width_pos}

-- The tokens fit the width, or are one JSON string.
abbrev pub FitsWidth : ℕ → List Token → Type 0
FitsWidth width ts =
    (length (text_of ts) ≤ width) ⊎ ((t : Token) × (ts ≡ t ∷ []) × (is_json_text t.kind ≡ true))

pub record LineFits (width : ℕ) (l : Line) : Type 0 where
  pub raw_is_text : l.raw ≡ text_of l.tokens
  pub fits : FitsWidth width l.tokens

record WrapFits (width : ℕ) (w : Wrapping) : Type 0 where
  counted : w.current_len ≡ length (text_of w.current)
  open_fits : FitsWidth width w.current
  lines : All (LineFits width) w.result

flush_row-WrapFits :
    (width : ℕ) (w : Wrapping) (ts : List Token)
    → w.current ≡ ts
    → WrapFits width w
    → WrapFits width (flush_row w ts)
unfolding flush_row
flush_row-WrapFits width w [] e v = v
flush_row-WrapFits width w (t ∷ ts) e v = record {
  counted = unfold text_of in refl;
  open_fits = inl (unfold text_of in omega arith);
  lines =
      All-append (LineFits width) w.result _ v.lines
        (record { raw_is_text = refl; fits = rw e at v.open_fits }, tt);
}

flush-WrapFits : (width : ℕ) (w : Wrapping) → WrapFits width w → WrapFits width (flush w)
unfolding flush
flush-WrapFits width w v = flush_row-WrapFits width w w.current refl v

-- after a flush the open line is empty
flush_empties : (w : Wrapping) → (flush w).current ≡ []
unfolding flush flush_row
flush_empties w = ground arith

appended_length :
    (t : Token) (n : ℕ) (w : Wrapping)
    → w.current_len ≡ length (text_of w.current)
    → length t.text ≡ n
    → (append_token t n w).current_len ≡ length (text_of (append_token t n w).current)
unfolding append_token
appended_length t n w c e = omega (
  arith,
  ap length (text_of-append w.current (t ∷ [])),
  ap length (text_of-one t),
  length-append (text_of w.current) (text_of (t ∷ [])),
)

current_len-append_token :
    (t : Token) (n : ℕ) (w : Wrapping) → (append_token t n w).current_len ≡ w.current_len + n
unfolding append_token
current_len-append_token t n w = refl

-- A token that leaves the open line within the width is appended.
append_token-WrapFits :
    (width : ℕ) (t : Token) (n : ℕ) (w : Wrapping)
    → WrapFits width w
    → length t.text ≡ n
    → w.current_len + n ≤ width
    → WrapFits width (append_token t n w)
append_token-WrapFits width t n w v e le = record {
  counted = appended_length t n w v.counted e;
  open_fits =
      inl (omega (arith, appended_length t n w v.counted e, current_len-append_token t n w));
  lines = unfold append_token in v.lines;
}

-- A JSON string on a line of its own.
alone-WrapFits :
    (width : ℕ) (t : Token) (w : Wrapping)
    → WrapFits width w
    → w.current ≡ []
    → is_json_text t.kind ≡ true
    → WrapFits width (append_token t (length t.text) w)
alone-WrapFits width t w v e json = record {
  counted = appended_length t (length t.text) w v.counted refl;
  open_fits = inr (t, unfold append_token in rw e refl, json);
  lines = unfold append_token in v.lines;
}

put_whole-WrapFits :
    (width : ℕ) (t : Token) (w : Wrapping)
    → is_json_text t.kind ≡ true
    → WrapFits width w
    → WrapFits width (put_whole width t w)
unfolding put_whole
put_whole-WrapFits width t w json v =
    elim (Bool-cases (ltb width (w.current_len + length t.text))) [
      | inl over ↦
          simp over
            (alone-WrapFits width t (flush w) (flush-WrapFits width w v) (flush_empties w) json)
      | inr room ↦
          simp room (append_token-WrapFits width t (length t.text) w v refl (ltb→le _ _ room))
    ]

-- Where the open line is full it is closed, and the piece fits the line then.
with_room-WrapFits :
    (width : ℕ) (w : Wrapping) (c : ℕ) (runes : Bytes)
    → WrapFits width w
    → WrapFits width (with_room width w)
      × ((with_room width w).current_len + piece_len width w (c ∷ runes) ≤ width)
unfolding with_room piece_len
with_room-WrapFits width w c runes v = elim (Bool-cases (leb width w.current_len)) [
  | inl full ↦
      let shut = flush-WrapFits width w v in
      let none_left : (flush w).current_len ≡ 0 =
        shut.counted ∙ ap (λ ts. length (text_of ts)) (flush_empties w) ∙ unfold text_of in refl in
      simp full (shut, ground arith)
  | inr room ↦ simp room (v, ground arith)
]

put_pieces-WrapFits :
    (fuel width : ℕ) (kind : TokenKind) (runes : Bytes) (w : Wrapping)
    → 0 < width
    → WrapFits width w
    → WrapFits width (put_pieces fuel width kind runes w)
unfolding put_pieces
put_pieces-WrapFits zero width kind runes w h v = v
put_pieces-WrapFits (suc fuel) width kind [] w h v = v
put_pieces-WrapFits (suc fuel) width kind (c ∷ runes) w h v =
    let n = piece_len width w (c ∷ runes) in
    let some_taken = piece_len_bounds width w c runes h in
    let (roomy, fits) = with_room-WrapFits width w c runes v in
    let piece = token kind (take n (c ∷ runes)) in
    put_pieces-WrapFits fuel width kind (drop n (c ∷ runes))
      (append_token piece n (with_room width w)) h
      (append_token-WrapFits width piece n (with_room width w) roomy
        (length-take n (c ∷ runes) some_taken.1) fits)

put_token-WrapFits :
    (width : ℕ) (t : Token) (w : Wrapping)
    → 0 < width
    → WrapFits width w
    → WrapFits width (put_token width t w)
unfolding put_token
put_token-WrapFits width t w h v = elim (Bool-cases (is_json_text t.kind)) [
  | inl whole ↦ rw whole (put_whole-WrapFits width t w whole v)
  | inr pieces ↦ rw pieces (put_pieces-WrapFits (length t.text) width t.kind t.text w h v)
]

put_tokens-WrapFits :
    (width : ℕ) (ts : List Token) (w : Wrapping)
    → 0 < width
    → WrapFits width w
    → WrapFits width (put_tokens width ts w)
unfolding put_tokens
put_tokens-WrapFits width [] w h v = v
put_tokens-WrapFits width (t ∷ ts) w h v =
    put_tokens-WrapFits width ts (put_token width t w) h (put_token-WrapFits width t w h v)

-- Every line shows the text of its tokens, and is no longer than the width unless it is a JSON
-- string, key or value, that stands alone.
pub wrap_tokens-LineFits :
    (ts : List Token) (n : ℕ) → All (LineFits (line_width n)) (wrap_tokens ts n)
unfolding wrap_tokens
wrap_tokens-LineFits ts n =
    let start : WrapFits (line_width n) no_lines = record {
      counted = unfold text_of in refl;
      open_fits = inl (unfold text_of in omega arith);
      lines = tt;
    } in
    (flush-WrapFits (line_width n) (put_tokens (line_width n) ts no_lines)
      (put_tokens-WrapFits (line_width n) ts no_lines (line_width_pos n) start)).lines
