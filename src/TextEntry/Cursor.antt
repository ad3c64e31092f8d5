-- ===== src/TextEntry/Cursor.antt =====
-- `logicalToVisual` of textviewentry.go on the lines that `buildVisualLines` makes.
use shiv.Prelude.{
  ◌==◌, length, get_elem?, take, drop, All, ℕ, zero, suc, ◌+◌, ◌≤◌, ◌<◌, ◌≡◌, refl, sym, ap, ◌∙◌,
  subst, Bool, true, false, Option, none, some, List, [], ◌∷◌, ◌++◌, arith,
}
use shiv.Text.{Bytes}
use shiv.TextEntry.Lines.{pos, Pos}
use shiv.TextEntry.Visual.{
  first_empty, behind, content_type, visual_line, pieces, line_pieces, all_pieces, at_least_ten,
  build_visual_lines, is_last_chunk, find_visual, or_start, logical_to_visual, visual, VisualLine,
}
use shiv.TextEntry.Flat.{InText}
use shiv.TextEntry.Wrapping.{Found, skip-Found, line_pieces-Found}

module _ (cpl : ℕ) (start : Option ℕ) (ct : Bytes) (l : ℕ) where
  next_line :
      (idx : ℕ) (lines : List Bytes)
      → (idx == l) ≡ false
      → is_last_chunk l (all_pieces cpl start ct idx lines) ≡ true
  unfolding is_last_chunk all_pieces line_pieces pieces visual_line
  next_line idx [] h = refl
  next_line idx ([] ∷ lines) h = rw h refl
  next_line idx ((d ∷ ds) ∷ lines) h = rw h refl

  other_pieces :
      (fuel : ℕ) (in_body : Bool) (idx off : ℕ) (r : Bytes)
      → (idx == l) ≡ false
      → All
          (λ (vl : VisualLine). (vl.logical_idx == l) ≡ false)
          (pieces fuel cpl in_body ct idx off r)
  unfolding pieces visual_line
  other_pieces zero in_body idx off r h = tt
  other_pieces (suc fuel) in_body idx off [] h = tt
  other_pieces (suc fuel) in_body idx off (d ∷ ds) h =
      (h, other_pieces fuel in_body idx (off + length (take cpl (d ∷ ds))) (drop cpl (d ∷ ds)) h)

  other_lines :
      (in_body : Bool) (idx : ℕ) (r : Bytes)
      → (idx == l) ≡ false
      → All (λ (vl : VisualLine). (vl.logical_idx == l) ≡ false) (line_pieces cpl in_body ct idx r)
  unfolding line_pieces visual_line
  other_lines in_body idx [] h = (h, tt)
  other_lines in_body idx (d ∷ ds) h = other_pieces (length (d ∷ ds)) in_body idx 0 (d ∷ ds) h

  all_pieces-Found :
      (c idx i v : ℕ) (lines : List Bytes) (last : Option (ℕ × ℕ)) {r : Bytes}
      → 0 < cpl
      → get_elem? lines i ≡ some r
      → c ≤ length r
      → idx + i ≡ l
      → Found
          (all_pieces cpl start ct idx lines)
          l
          c
          v
          (find_visual l c v last (all_pieces cpl start ct idx lines))
  unfolding all_pieces
  all_pieces-Found c idx i v [] last positive here inside at = absurd (ground arith)
  all_pieces-Found c idx zero v (x ∷ lines) last {r} positive here inside at =
      let same : x ≡ r = cc in
      let size : length x ≡ length r = ap length same in
      let this : idx ≡ l = omega arith in
      let rest = all_pieces cpl start ct (idx + 1) lines in
      subst
        (λ k.
          Found (line_pieces cpl (behind start idx) ct k x ++ rest) l c v
            (find_visual l c v last (line_pieces cpl (behind start idx) ct k x ++ rest)))
        (sym this)
        (line_pieces-Found cpl (behind start idx) ct l c rest positive
          (next_line (idx + 1) lines (ground arith)) x v last (omega arith))
  all_pieces-Found c idx (suc i) v (x ∷ lines) last positive here inside at =
      skip-Found l c v (line_pieces cpl (behind start idx) ct idx x)
        (all_pieces cpl start ct (idx + 1) lines)
        (other_lines (behind start idx) idx x (ground arith))
        (λ w last'. all_pieces-Found c (idx + 1) i w lines last' positive here inside (omega arith))
        last

Found-place :
    (visual : List VisualLine) (l c : ℕ)
    → Found visual l c 0 (find_visual l c 0 none visual)
    → (vl : VisualLine) × (get_elem? visual (logical_to_visual visual l c).0 ≡ some vl)
      × (pos vl.logical_idx (vl.col_offset + (logical_to_visual visual l c).1) ≡ pos l c)
      × ((logical_to_visual visual l c).1 ≤ length vl.raw)
unfolding logical_to_visual or_start
Found-place visual l c (i, vl, k, found, at, line, col, inside) =
    let place : or_start (find_visual l c 0 none visual) ≡ (0 + i, k) = ap or_start found in
    let first : 0 + i ≡ i = omega arith in
    (
      vl,
      ap (λ (q : ℕ × ℕ). get_elem? visual q.0) place ∙ ap (get_elem? visual) first ∙ at,
      ap (λ (q : ℕ × ℕ). pos vl.logical_idx (vl.col_offset + q.1)) place
          ∙ ap (λ n. pos n (vl.col_offset + k)) line
          ∙ ap (λ n. pos l n) col,
      subst (λ (q : ℕ × ℕ). q.1 ≤ length vl.raw) (sym place) inside,
    )

at_least_ten-pos : (cpl : ℕ) → 0 < at_least_ten cpl
unfolding at_least_ten
at_least_ten-pos cpl = ground arith

-- For a position in the text, and any width, `logicalToVisual` gives a visual line that exists and a
-- column in it, and the line's first column plus that column is the position again.
pub logical_to_visual-lem :
    (cpl : ℕ) (lines : List Bytes) (p : Pos)
    → InText lines p
    → (vl : VisualLine) × (get_elem?
          (build_visual_lines lines cpl)
          (logical_to_visual (build_visual_lines lines cpl) p.line p.col).0
        ≡ some vl)
      × (pos vl.logical_idx
            (vl.col_offset + (logical_to_visual (build_visual_lines lines cpl) p.line p.col).1)
          ≡ p)
      × ((logical_to_visual (build_visual_lines lines cpl) p.line p.col).1 ≤ length vl.raw)
unfolding build_visual_lines
logical_to_visual-lem cpl lines p (r, here, inside) =
    let start = first_empty 0 lines in
    let at_line : 0 + p.line ≡ p.line = omega arith in
    Found-place (build_visual_lines lines cpl) p.line p.col (
      all_pieces-Found (at_least_ten cpl) start (content_type start lines) p.line p.col 0 p.line 0
        lines none (at_least_ten-pos cpl) here inside at_line)
