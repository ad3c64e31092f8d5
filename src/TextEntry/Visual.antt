-- ===== src/TextEntry/Visual.antt =====
-- Lines wrapped to the width of the window, and where the cursor stands among them.
use shiv.Prelude.{
  ltb, leb, ◌==◌, if◌then◌else◌, length, take, drop, ℕ, zero, suc, ◌+◌, ◌-◌, Bool, true, false, not,
  ◌&&◌, Option, none, some, List, [], ◌∷◌, ◌++◌,
}
use shiv.Text.{Bytes, codes, same}
use shiv.Tokeniser.Kinds.{detect_content_type, tokenise_http_meta, Token}
use shiv.Tokeniser.Json.{tokenise_body}
use shiv.TextEntry.Lines.{split_raw}
use shiv.TextEntry.State.{Entry}

pub record VisualLine : Type 0 where
  pub tokens : List Token
  pub raw : Bytes
  pub logical_idx : ℕ
  pub col_offset : ℕ

-- `bodyStartLine`: the first empty line behind the first line; `i` is the index of the first.
unfoldable pub first_empty : ℕ → List Bytes → Option ℕ
first_empty i [] = none
first_empty i (l ∷ ls) =
    let rest = first_empty (i + 1) ls in if same l [] && ltb 0 i then some i else rest

unfoldable pub behind : Option ℕ → ℕ → Bool
behind none i = false
behind (some start) i = ltb start i

unfoldable pub content_type : Option ℕ → List Bytes → Bytes
content_type none lines = codes "text"
content_type (some start) lines = detect_content_type lines

-- The tokens of a piece, which starts at column `off` of the line `idx`.
piece_tokens : Bool → Bytes → ℕ → ℕ → Bytes → List Token
piece_tokens in_body ct idx off piece =
    if in_body then tokenise_body piece ct else tokenise_http_meta piece (idx == 0 && off == 0)

unfoldable pub visual_line : Bool → Bytes → ℕ → ℕ → Bytes → VisualLine
unfolding piece_tokens
visual_line in_body ct idx off piece = record {
  tokens = piece_tokens in_body ct idx off piece;
  raw = piece;
  logical_idx = idx;
  col_offset = off;
}

-- `for colOffset < len(runes)`, on the runes that are left; each round takes one at least, so that
-- their number is enough fuel.
unfoldable pub pieces : ℕ → ℕ → Bool → Bytes → ℕ → ℕ → Bytes → List VisualLine
unfolding visual_line
pieces zero cpl in_body ct idx off runes = []
pieces (suc fuel) cpl in_body ct idx off [] = []
pieces (suc fuel) cpl in_body ct idx off (c ∷ runes) =
    visual_line in_body ct idx off (take cpl (c ∷ runes))
    ∷ pieces fuel cpl in_body ct idx (off + length (take cpl (c ∷ runes))) (drop cpl (c ∷ runes))

unfoldable pub line_pieces : ℕ → Bool → Bytes → ℕ → Bytes → List VisualLine
unfolding pieces visual_line
line_pieces cpl in_body ct idx [] = visual_line in_body ct idx 0 [] ∷ []
line_pieces cpl in_body ct idx (c ∷ runes) =
    pieces (length (c ∷ runes)) cpl in_body ct idx 0 (c ∷ runes)

unfoldable pub all_pieces : ℕ → Option ℕ → Bytes → ℕ → List Bytes → List VisualLine
unfolding line_pieces behind
all_pieces cpl start ct idx [] = []
all_pieces cpl start ct idx (l ∷ ls) =
    line_pieces cpl (behind start idx) ct idx l ++ all_pieces cpl start ct (idx + 1) ls

-- `if charsPerLine < 10 { charsPerLine = 10 }`
unfoldable pub at_least_ten : ℕ → ℕ
at_least_ten cpl = if ltb cpl 10 then 10 else cpl

unfoldable pub build_visual_lines : List Bytes → ℕ → List VisualLine
unfolding all_pieces first_empty content_type at_least_ten
build_visual_lines lines cpl =
    let start = first_empty 0 lines in
    all_pieces (at_least_ten cpl) start (content_type start lines) 0 lines

-- `v+1 >= len(visual) || visual[v+1].logicalIdx != logicalLine`
unfoldable pub is_last_chunk : ℕ → List VisualLine → Bool
is_last_chunk l [] = true
is_last_chunk l (vl ∷ rest) = not (vl.logical_idx == l)

-- The loop of `logicalToVisual` from index `v`, with `lastMatchV` and the length of that line.
unfoldable pub find_visual : ℕ → ℕ → ℕ → Option (ℕ × ℕ) → List VisualLine → Option (ℕ × ℕ)
unfolding is_last_chunk
find_visual l c v last [] = last
find_visual l c v last (vl ∷ rest) =
    let skipped = find_visual l c (v + 1) last rest in
    let later = find_visual l c (v + 1) (some (v, length vl.raw)) rest in
    let chunk_end = vl.col_offset + length vl.raw in
    if not (vl.logical_idx == l)
    then skipped
    else if leb vl.col_offset c && ltb c chunk_end
    then some (v, c - vl.col_offset)
    else if is_last_chunk l rest && leb chunk_end c
    then some (v, length vl.raw)
    else later

unfoldable pub or_start : Option (ℕ × ℕ) → ℕ × ℕ
or_start none = (0, 0)
or_start (some r) = r

unfoldable pub logical_to_visual : List VisualLine → ℕ → ℕ → ℕ × ℕ
unfolding find_visual or_start
logical_to_visual visual l c = or_start (find_visual l c 0 none visual)

unfoldable pub visual : ℕ → Entry → List VisualLine
unfolding build_visual_lines
visual cpl e = build_visual_lines (split_raw e.raw) cpl

module _ (cpl visible : ℕ) where
  unfoldable pub ensure_cursor_visible : Entry → Entry
  unfolding visual logical_to_visual
  ensure_cursor_visible e =
      let v = (logical_to_visual (visual cpl e) e.cursor.line e.cursor.col).0 in
      if visible == 0
      then e
      else if ltb v e.scroll_offset
      then record e { scroll_offset = v }
      else if leb (e.scroll_offset + visible) v
      then record e { scroll_offset = v + 1 - visible }
      else e
