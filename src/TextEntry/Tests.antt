-- ===== src/TextEntry/Tests.antt =====
-- The editor on a text of two lines.
use shiv.Prelude.{
  length, get_elem?, ◌+◌, ◌≤◌, ◌≡◌, refl, ap, true, false, some, [], ◌∷◌, ◌++◌, arith,
}
use shiv.Text.{Bytes, codes, contains_byte, join}
use shiv.TextEntry.Lines.{normal, split_raw, join_lines, pos, after_pos}
use shiv.TextEntry.Lines.Split.{split_raw-join_lines}
use shiv.TextEntry.State.{origin, normalise_selection, Entry}
use shiv.TextEntry.Flat.{before_at, after_at, before, after, InText}
use shiv.TextEntry.Valid.{selection, left_part, right_part, IsValid}
use shiv.TextEntry.Edited.{Edited}
use shiv.TextEntry.Typing.{typed_rune-Edited}
use shiv.TextEntry.Pasting.{paste-Edited}
use shiv.TextEntry.Backspace.{backspace-Edited}
use shiv.TextEntry.Cursor.{logical_to_visual-lem}
use shiv.TextEntry.Walking.{Walks, typed_key-Walks}
use shiv.TextEntry.Cutting.{cut_key-Edited}
use shiv.TextEntry.Visual.{build_visual_lines, logical_to_visual, VisualLine}
use shiv.TextEntry.Keys.{typed_rune, typed_key, backspace, arrow_down}
use shiv.TextEntry.Shortcuts.{paste, cut_key}

-- Two lines, with the cursor inside the second.
abbrev plain : Entry
plain = record {
  raw = codes "ab\ncd";
  scroll_offset = 0;
  sel_anchor = origin;
  sel = origin;
  has_selection = false;
  cursor = pos 1 1;
  undo_stack = [];
  shift_selecting = false;
  shift_held = false;
  dragging = false;
}

-- The text from column 1 of the first line to column 1 of the second is selected.
abbrev selected : Entry
selected = record plain {
  sel_anchor = pos 1 1;
  sel = pos 0 1;
  cursor = pos 0 1;
  has_selection = true;
  shift_selecting = true;
  shift_held = true;
}

two_lines : split_raw (codes "ab\ncd") ≡ codes "ab" ∷ codes "cd" ∷ []
unfolding contains_byte join_lines join
two_lines = split_raw-join_lines (codes "ab") (codes "cd" ∷ []) ((refl, refl), ((refl, refl), tt))

line_zero : InText (split_raw (codes "ab\ncd")) (pos 0 1)
line_zero = (codes "ab", ap (λ ls. get_elem? ls 0) two_lines, omega arith)

line_one : InText (split_raw (codes "ab\ncd")) (pos 1 1)
line_one = (codes "cd", ap (λ ls. get_elem? ls 1) two_lines, omega arith)

plain-IsValid : IsValid plain
plain-IsValid = (line_one, tt, omega arith)

selected-IsValid : IsValid selected
selected-IsValid = (line_zero, (line_one, line_zero), omega arith)

plain_left : left_part plain ≡ codes "ab\nc"
unfolding left_part selection before before_at
plain_left = ap (λ ls. before ls (pos 1 1)) two_lines

plain_right : right_part plain ≡ codes "d"
unfolding right_part selection after after_at join_lines join
plain_right = ap (λ ls. after ls (pos 1 1)) two_lines

selected_left : left_part selected ≡ codes "a"
unfolding left_part selection normalise_selection after_pos before before_at
selected_left = ap (λ ls. before ls (pos 0 1)) two_lines

typed_rune-Edited_example :
    Edited selected
      (left_part selected ++ b'x' ∷ [])
      (right_part selected)
      (typed_rune 80 3 b'x' selected)
unfolding contains_byte
typed_rune-Edited_example = typed_rune-Edited 80 3 b'x' selected (refl, refl) selected-IsValid

paste-Edited_example :
    Edited selected
      (left_part selected ++ normal (codes "x\r\ny"))
      (right_part selected)
      (paste 80 3 (codes "x\r\ny") selected)
paste-Edited_example = paste-Edited 80 3 b'x' (codes "\r\ny") selected selected-IsValid

backspace-Edited_example :
    Edited plain (codes "ab\n") (right_part plain) (typed_key 80 3 backspace plain)
backspace-Edited_example =
    backspace-Edited 80 3 plain plain-IsValid refl b'c' (codes "ab\n") plain_left

typed_key-Walks_example : Walks selected (typed_key 80 3 arrow_down selected)
typed_key-Walks_example = typed_key-Walks 80 3 arrow_down selected refl (selected-IsValid, line_one)

logical_to_visual-lem_example :
    (vl : VisualLine) × (get_elem?
        (build_visual_lines (split_raw (codes "ab\ncd")) 80)
        (logical_to_visual (build_visual_lines (split_raw (codes "ab\ncd")) 80) 1 1).0
      ≡ some vl)
    × (pos vl.logical_idx (
          vl.col_offset
          + (logical_to_visual (build_visual_lines (split_raw (codes "ab\ncd")) 80) 1 1).1)
        ≡ pos 1 1)
    × ((logical_to_visual (build_visual_lines (split_raw (codes "ab\ncd")) 80) 1 1).1
        ≤ length vl.raw)
logical_to_visual-lem_example =
    logical_to_visual-lem 80 (split_raw (codes "ab\ncd")) (pos 1 1) line_one

cut_key-Edited_example :
    (text : Bytes) × (e' : Entry) × (cut_key 80 3 selected ≡ some (some text, e'))
    × (left_part selected ++ (text ++ right_part selected) ≡ join_lines (split_raw selected.raw))
    × Edited selected (left_part selected) (right_part selected) (some e')
cut_key-Edited_example = cut_key-Edited 80 3 selected refl selected-IsValid
