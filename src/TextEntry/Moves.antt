-- ===== src/TextEntry/Moves.antt =====
-- The keys that move the cursor, alone or with the shift key held.
use mathlib.Core.Option
use shiv.Prelude.{
  ltb, leb, if◌then◌else◌, length, get_elem?, ℕ, suc, ◌+◌, ◌-◌, Option, none, some, List,
}
use shiv.TextEntry.Lines.{pos, clamp_col, Pos}
use shiv.TextEntry.State.{Entry}
use shiv.TextEntry.Visual.{logical_to_visual, visual, VisualLine}
use shiv.TextEntry.Spot.{begin_shift, update_shift, cancel_shift, Spot}

unfoldable pub move_left : Spot → Entry → Option Entry
move_left s e =
    if ltb 0 s.cc
    then some (record e { cursor = pos e.cursor.line (e.cursor.col - 1) })
    else if ltb 0 s.cl
    then elim (get_elem? s.lines (e.cursor.line - 1)) [
      | none ↦ none
      | some runes ↦ some (record e { cursor = pos (e.cursor.line - 1) (length runes) })
    ]
    else some e

unfoldable pub move_right : Spot → Entry → Option Entry
move_right s e =
    if ltb s.cc (length s.runes)
    then some (record e { cursor = pos e.cursor.line (e.cursor.col + 1) })
    else if ltb s.cl (length s.lines - 1)
    then some (record e { cursor = pos (suc e.cursor.line) 0 })
    else some e

-- The line `l`, at the cursor's column or the line's end.
unfoldable pub to_line : Spot → ℕ → Entry → Option Entry
unfolding clamp_col
to_line s l e = elim (get_elem? s.lines l) [
  | none ↦ none
  | some runes ↦ some (record e { cursor = pos l (clamp_col runes e.cursor.col) })
]

unfoldable pub move_up : Spot → Entry → Option Entry
unfolding to_line
move_up s e = if ltb 0 s.cl then to_line s (e.cursor.line - 1) e else some e

unfoldable pub move_down : Spot → Entry → Option Entry
unfolding to_line
move_down s e = if ltb s.cl (length s.lines - 1) then to_line s (suc e.cursor.line) e else some e

unfoldable pub move_home : Spot → Entry → Option Entry
move_home s e = some (record e { cursor = pos e.cursor.line 0 })

unfoldable pub move_end : Spot → Entry → Option Entry
move_end s e = some (record e { cursor = pos e.cursor.line (length s.runes) })

-- `isShift`: the selection runs from its anchor to where the cursor goes.
unfoldable pub extend : Spot → (Entry → Option Entry) → Entry → Option Entry
unfolding begin_shift update_shift
extend s move e = Option.map update_shift (move (begin_shift s e))

-- Left and right: a selection is left at its end.
unfoldable pub step_key : Spot → (Entry → Option Entry) → Pos → Entry → Option Entry
unfolding extend cancel_shift
step_key s move side e =
    if e.shift_held
    then extend s move e
    else if e.has_selection
    then some (cancel_shift (record e { cursor = side }))
    else move e

-- Up, down, home and end.
unfoldable pub line_key : Spot → (Entry → Option Entry) → Entry → Option Entry
unfolding extend cancel_shift
line_key s move e = if e.shift_held then extend s move e else move (cancel_shift e)

-- The page keys go to the start of a visual line.
unfoldable pub to_visual : ℕ → List VisualLine → Entry → Option Entry
unfolding cancel_shift
to_visual v lines e = elim (get_elem? lines v) [
  | none ↦ none
  | some vl ↦ some (cancel_shift (record e { cursor = pos vl.logical_idx vl.col_offset }))
]

module _ (cpl visible : ℕ) where
  unfoldable pub page_up : Entry → Option Entry
  unfolding to_visual visual logical_to_visual
  page_up e =
      let lines = visual cpl e in
      to_visual ((logical_to_visual lines e.cursor.line e.cursor.col).0 - visible) lines e

  unfoldable pub page_down : Entry → Option Entry
  unfolding to_visual visual logical_to_visual
  page_down e =
      let lines = visual cpl e in
      let v = (logical_to_visual lines e.cursor.line e.cursor.col).0 + visible in
      to_visual (if leb (length lines) v then length lines - 1 else v) lines e
