-- ===== src/TextEntry/Mouse.antt =====
-- The pointer: `MouseDown`, `MouseUp`, `Dragged` and `DoubleTapped` of the input layer, off its
-- scrollbar. The position under the pointer, from `posFromPoint`, is an argument, as are Unicode's
-- letters and digits.
use shiv.Prelude.{
  leb, ◌==◌, if◌then◌else◌, length, get_elem?, drop, ℕ, zero, suc, ◌+◌, ◌-◌, Bool, true, false, not,
  ◌||◌, none, some, List, [], ◌∷◌,
}
use shiv.Text.{Bytes}
use shiv.TextEntry.Lines.{split_raw, pos, same_pos, clamp_col, Pos}
use shiv.TextEntry.State.{origin, Entry}
use shiv.TextEntry.Visual.{visual, VisualLine}

-- `posFromPoint`, with the visual line and the column that the point measures, which are 0 where they
-- are negative.
unfoldable pub pos_from_point : ℕ → ℕ → List VisualLine → Pos
unfolding clamp_col
pos_from_point v col visual =
    elim (get_elem? visual (if leb (length visual) v then length visual - 1 else v)) [
      | none ↦ origin
      | some vl ↦ pos vl.logical_idx (vl.col_offset + clamp_col vl.raw col)
    ]

unfoldable pub mouse_down : Pos → Entry → Entry
mouse_down p e = record e {
  sel_anchor = p;
  sel = p;
  cursor = p;
  has_selection = false;
  shift_selecting = false;
  shift_held = false;
  dragging = false;
}

unfoldable pub mouse_up : Entry → Entry
mouse_up e = record e { dragging = false }

-- Both widgets' `Dragged`, for a drag that is not of the scrollbar.
unfoldable pub dragged : Pos → Entry → Entry
unfolding same_pos
dragged p e = record e {
  sel = p;
  cursor = p;
  has_selection = not (same_pos e.sel_anchor p);
  dragging = true;
}

module _ (letter? digit? : ℕ → Bool) where
  unfoldable pub is_word_rune : ℕ → Bool
  is_word_rune r = letter? r || digit? r || r == b'_' || r == b'-'

  -- `for wordStart > 0 && tveIsWordRune(runes[wordStart-1])`
  unfoldable pub word_start : Bytes → ℕ → ℕ
  unfolding is_word_rune
  word_start runes zero = 0
  word_start runes (suc n) =
      let before = word_start runes n in
      elim (get_elem? runes n) [ none ↦ suc n | some r ↦ if is_word_rune r then before else suc n ]

  -- `for wordEnd < len(runes) && tveIsWordRune(runes[wordEnd])`: how far the runes are a word's.
  unfoldable pub word_length : Bytes → ℕ
  unfolding is_word_rune
  word_length [] = 0
  word_length (r ∷ rs) = let n = word_length rs in if is_word_rune r then suc n else 0

  unfoldable pub select_word : ℕ → Bytes → ℕ → Entry → Entry
  unfolding word_start word_length
  select_word line runes col e =
      let from = word_start runes col in
      let to = col + word_length (drop col runes) in
      record e {
        sel_anchor = pos line from;
        sel = pos line to;
        cursor = pos line to;
        has_selection = not (from == to);
      }

  unfoldable pub double_tapped : Pos → Entry → Entry
  unfolding select_word
  double_tapped p e = elim (get_elem? (split_raw e.raw) p.line) [
    | none ↦ e
    | some [] ↦ e
    | some (r ∷ runes) ↦
        select_word p.line (r ∷ runes)
          (if leb (length (r ∷ runes)) p.col then length (r ∷ runes) - 1 else p.col) e
  ]
