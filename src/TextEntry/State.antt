-- ===== src/TextEntry/State.antt =====
-- The state of the editor, and the parts that its handlers share. An index out of range, at which Go
-- panics, is `none`.
use shiv.Prelude.{
  leb, ◌==◌, if◌then◌else◌, length, get_elem?, set, take, drop, ℕ, suc, ◌-◌, Bool, false, not,
  Option, none, some, List, [], ◌∷◌, ◌++◌,
}
use shiv.Text.{Bytes}
use shiv.TextEntry.Lines.{join_lines, pos, after_pos, clamp_line, clamp_col, Pos}

pub record UndoEntry : Type 0 where
  pub raw : Bytes
  pub cursor : Pos

-- The undo stack has its newest entry first here. The cache of visual lines is left out: it is read
-- only where it was built from the same text and width.
pub record Entry : Type 0 where
  pub raw : Bytes
  pub scroll_offset : ℕ
  pub sel_anchor : Pos
  pub sel : Pos
  pub has_selection : Bool
  pub cursor : Pos
  pub undo_stack : List UndoEntry
  pub shift_selecting : Bool
  pub shift_held : Bool
  pub dragging : Bool

abbrev pub max_undo : ℕ
max_undo = 100

abbrev pub origin : Pos
origin = record { line = 0; col = 0 }

unfoldable pub new_entry : Entry
new_entry = record {
  raw = [];
  scroll_offset = 0;
  sel_anchor = origin;
  sel = origin;
  has_selection = false;
  cursor = origin;
  undo_stack = [];
  shift_selecting = false;
  shift_held = false;
  dragging = false;
}

unfoldable pub set_text : Bytes → Entry → Entry
set_text s e = record e {
  raw = s;
  scroll_offset = 0;
  has_selection = false;
  shift_selecting = false;
  shift_held = false;
  cursor = origin;
  undo_stack = [];
}

-- `e.undoStack[1:]` where the stack is full: the oldest entry goes.
unfoldable pub push_undo : Bytes → Pos → Entry → Entry
push_undo prev_raw prev_cursor e = record e {
  undo_stack =
      record { raw = prev_raw; cursor = prev_cursor }
      ∷ (if leb max_undo (length e.undo_stack)
          then take (length e.undo_stack - 1) e.undo_stack
          else e.undo_stack);
}

unfoldable pub commit_lines : List Bytes → Entry → Entry
unfolding join_lines
commit_lines lines e = record e { raw = join_lines lines }

-- `pushUndo` and `commitLines`, as each edit calls them.
unfoldable pub save : Bytes → Pos → List Bytes → Entry → Entry
unfolding push_undo commit_lines
save prev_raw prev_cursor lines e = commit_lines lines (push_undo prev_raw prev_cursor e)

-- The selection's ends in the order of the text.
unfoldable pub normalise_selection : Entry → Pos × Pos
unfolding after_pos
normalise_selection e =
    if after_pos e.sel_anchor e.sel then (e.sel, e.sel_anchor) else (e.sel_anchor, e.sel)

-- The text between two positions taken out, with what Go does where a position is out of range.
unfoldable pub cut_lines : Pos → Pos → List Bytes → Option (List Bytes × Pos)
unfolding clamp_line clamp_col
cut_lines from to lines =
    let sl = clamp_line lines from.line in
    let el = clamp_line lines to.line in
    elim (get_elem? lines sl) [
      | none ↦ none
      | some first ↦ elim (get_elem? lines el) [
        | none ↦ none
        | some last ↦
            let sc = clamp_col first from.col in
            let merged = take sc first ++ drop (clamp_col last to.col) last in
            some (
              if sl == el
                  then set lines sl merged
                  else take sl lines ++ merged ∷ drop (suc el) lines,
              pos sl sc,
            )
      ]
    ]

unfoldable pub delete_selection : List Bytes → Entry → Option (List Bytes × Entry)
unfolding normalise_selection cut_lines
delete_selection lines e =
    let (from, to) = normalise_selection e in
    let cut = cut_lines from to lines in
    if not e.has_selection then some (lines, e) else elim cut [
      | none ↦ none
      | some (lines', p) ↦
          some (lines', record e { cursor = p; has_selection = false; shift_selecting = false })
    ]

-- The place of the cursor as the handlers read it: its line and column within range, and the runes
-- of that line.
unfoldable pub place : List Bytes → Pos → Option (ℕ × ℕ × Bytes)
unfolding clamp_line clamp_col
place lines p =
    let cl = clamp_line lines p.line in
    elim (get_elem? lines cl) [ none ↦ none | some runes ↦ some (cl, clamp_col runes p.col, runes) ]
