-- ===== src/TextEntry/Spot.antt =====
-- The closures that `TypedKey` makes first, and the edits that its keys share.
use shiv.Prelude.{if◌then◌else◌, ℕ, true, false, not, Option, none, some, List}
use shiv.Text.{Bytes}
use shiv.TextEntry.Lines.{split_raw, join_lines, pos, same_pos, Pos}
use shiv.TextEntry.State.{save, delete_selection, place, Entry}

-- What `TypedKey` reads first: the lines, and the cursor's line, column and runes, within range.
pub record Spot : Type 0 where
  pub lines : List Bytes
  pub cl : ℕ
  pub cc : ℕ
  pub runes : Bytes

unfoldable pub spot : Entry → Option Spot
unfolding place
spot e =
    let lines = split_raw e.raw in
    elim (place lines e.cursor) [
      | none ↦ none
      | some (cl, cc, runes) ↦ some (record { lines = lines; cl = cl; cc = cc; runes = runes })
    ]

-- `beginShift`
unfoldable pub begin_shift : Spot → Entry → Entry
begin_shift s e =
    if e.shift_selecting then e else record e { shift_selecting = true; sel_anchor = pos s.cl s.cc }

-- `updateShift`
unfoldable pub update_shift : Entry → Entry
unfolding same_pos
update_shift e = record e { sel = e.cursor; has_selection = not (same_pos e.sel_anchor e.cursor) }

-- `cancelShift`
unfoldable pub cancel_shift : Entry → Entry
cancel_shift e = record e { shift_selecting = false; shift_held = false; has_selection = false }

-- The edit that leaves `lines` and puts the cursor at `p`, from the entry `e`, where `back` is the
-- cursor to return to.
unfoldable pub edit : Spot → Pos → List Bytes → Pos → Entry → Entry
unfolding save
edit s back lines p e = record (save (join_lines s.lines) back lines e) { cursor = p }

-- The edit that removes the selection.
unfoldable pub remove_selection : Spot → Entry → Option Entry
unfolding delete_selection save
remove_selection s e = elim (delete_selection s.lines e) [
  | none ↦ none
  | some (lines, e') ↦ some (save (join_lines s.lines) e.cursor lines e')
]
