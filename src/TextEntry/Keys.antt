-- ===== src/TextEntry/Keys.antt =====
-- `TypedRune`, `TypedKey`, and the keys that are held. `none` is a panic.
use mathlib.Core.Option
use shiv.Prelude.{
  if◌then◌else◌, length, set, take, drop, ℕ, ◌+◌, Bool, true, false, Option, none, some, List, [],
  ◌∷◌, ◌++◌,
}
use shiv.Text.{Bytes}
use shiv.TextEntry.Lines.{split_raw, join_lines, pos}
use shiv.TextEntry.State.{save, normalise_selection, delete_selection, place, UndoEntry, Entry}
use shiv.TextEntry.Visual.{ensure_cursor_visible}
use shiv.TextEntry.Spot.{spot, Spot}
use shiv.TextEntry.Edits.{backspace_key, delete_key, return_key, tab_key}
use shiv.TextEntry.Moves.{
  move_left, move_right, move_up, move_down, move_home, move_end, step_key, line_key, page_up,
  page_down,
}

pub data Key : Type 0 where
  backspace delete enter tab : Key
  arrow_left arrow_right arrow_up arrow_down home end : Key
  pg_up pg_down other_key : Key

-- `KeyDown` and `KeyUp` of a shift key
unfoldable pub key_down : Bool → Entry → Entry
key_down is_shift e = if is_shift then record e { shift_held = true } else e

unfoldable pub key_up : Bool → Entry → Entry
key_up is_shift e = if is_shift then record e { shift_held = false; shift_selecting = false } else e

unfoldable pub focus_lost : Entry → Entry
focus_lost e = record e {
  shift_held = false;
  shift_selecting = if e.dragging then e.shift_selecting else false;
}

-- `text` put at the cursor, on its line; `back` is the text and the cursor to return to.
unfoldable pub insert : UndoEntry → Bytes → List Bytes → Entry → Option Entry
unfolding place save
insert back text lines e = elim (place lines e.cursor) [
  | none ↦ none
  | some (cl, cc, runes) ↦
      some
        (record (save back.raw back.cursor (set lines cl (take cc runes ++ (text ++ drop cc runes)))
          e) { cursor = pos cl (cc + length text) })
]

-- The text and the cursor that an edit saves.
unfoldable pub back : List Bytes → Entry → UndoEntry
back lines e = record { raw = join_lines lines; cursor = e.cursor }

module _ (cpl visible : ℕ) where
  unfoldable pub typed_rune : ℕ → Entry → Option Entry
  unfolding back delete_selection insert ensure_cursor_visible
  typed_rune r e =
      let lines = split_raw e.raw in
      elim (delete_selection lines e) [
        | none ↦ none
        | some (lines', e') ↦
            Option.map (ensure_cursor_visible cpl visible)
              (insert (back lines e) (r ∷ []) lines' e')
      ]

  unfoldable pub key_action : Key → Spot → Entry → Option Entry
  unfolding normalise_selection
  key_action backspace s e = backspace_key s e
  key_action delete s e = delete_key s e
  key_action enter s e = return_key s e
  key_action tab s e = tab_key s e
  key_action arrow_left s e = step_key s (move_left s) (normalise_selection e).0 e
  key_action arrow_right s e = step_key s (move_right s) (normalise_selection e).1 e
  key_action arrow_up s e = line_key s (move_up s) e
  key_action arrow_down s e = line_key s (move_down s) e
  key_action home s e = line_key s (move_home s) e
  key_action end s e = line_key s (move_end s) e
  key_action pg_up s e = page_up cpl visible e
  key_action pg_down s e = page_down cpl visible e
  key_action other_key s e = some e

  unfoldable pub typed_key : Key → Entry → Option Entry
  unfolding spot key_action ensure_cursor_visible
  typed_key k e = elim (spot e) [
    | none ↦ none
    | some s ↦ Option.map (ensure_cursor_visible cpl visible) (key_action k s e)
  ]
