-- ===== src/TextEntry/Shortcuts.antt =====
-- `TypedShortcut`, for an entry that has a window, and `selectedText`.
use mathlib.Core.Option
use shiv.Prelude.{
  ltb, ◌==◌, if◌then◌else◌, length, get_elem?, take, drop, ℕ, suc, ◌+◌, ◌-◌, true, false, not, ◌||◌,
  Option, none, some, List, [], ◌∷◌, ◌++◌,
}
use shiv.Text.{Bytes, same, split}
use shiv.TextEntry.Lines.{lf, normal, split_raw, join_lines, pos, clamp_col, Pos}
use shiv.TextEntry.State.{
  origin, save, normalise_selection, delete_selection, place, UndoEntry, Entry,
}
use shiv.TextEntry.Visual.{ensure_cursor_visible}
use shiv.TextEntry.Keys.{insert, back}

-- The loop of `selectedText` from line `i`: the columns from `lo` to `hi` of the lines `start` to
-- `stop`.
unfoldable pub selected_lines : Pos → Pos → ℕ → List Bytes → Bytes
unfolding clamp_col
selected_lines from to i [] = []
selected_lines from to i (l ∷ ls) =
    let rest = selected_lines from to (i + 1) ls in
    let hi = if i == to.line then clamp_col l to.col else length l in
    let lo = if i == from.line then clamp_col l from.col else 0 in
    if ltb i from.line || ltb to.line i
    then rest
    else drop lo (take hi l) ++ (if ltb i to.line then lf ++ rest else rest)

unfoldable pub selected_text : Entry → Option Bytes
unfolding selected_lines normalise_selection clamp_col
selected_text e =
    let lines = split_raw e.raw in
    let (from, to) = normalise_selection e in
    if not e.has_selection
    then some []
    else if from.line == to.line
    then Option.map (λ l. drop (clamp_col l from.col) (take (clamp_col l to.col) l))
        (get_elem? lines from.line)
    else some (selected_lines from to 0 lines)

unfoldable pub undo : Entry → Entry
undo e = elim (e.undo_stack) [
  | [] ↦ e
  | u ∷ us ↦ record e {
    undo_stack = us;
    raw = u.raw;
    cursor = u.cursor;
    has_selection = false;
    shift_selecting = false;
    shift_held = false;
  }
]

unfoldable pub select_all : Entry → Option Entry
select_all e =
    let lines = split_raw e.raw in
    Option.map
      (λ last. record e {
        sel_anchor = origin;
        sel = pos (length lines - 1) (length last);
        has_selection = true;
      })
      (get_elem? lines (length lines - 1))

-- `ReplaceAll` of both, and `Split`
unfoldable pub paste_lines : Bytes → List Bytes
unfolding normal
paste_lines text = split (normal text) lf

-- The lines behind the first that is pasted, with `rest` behind the last.
unfoldable pub end_with : Bytes → Bytes → List Bytes → List Bytes
end_with rest p [] = (p ++ rest) ∷ []
end_with rest p (q ∷ ps) = p ∷ end_with rest q ps

unfoldable pub last_or : Bytes → List Bytes → Bytes
last_or p [] = p
last_or p (q ∷ ps) = last_or q ps

-- Several lines put at the cursor.
unfoldable pub insert_lines :
    UndoEntry → Bytes → Bytes → List Bytes → List Bytes → Entry → Option Entry
unfolding place save end_with last_or
insert_lines back p q ps lines e = elim (place lines e.cursor) [
  | none ↦ none
  | some (cl, cc, runes) ↦
      some
        (record (save back.raw back.cursor
          (take cl lines
            ++ (take cc runes ++ p) ∷ (end_with (drop cc runes) q ps ++ drop (suc cl) lines))
          e) { cursor = pos (cl + length (q ∷ ps)) (length (last_or q ps)) })
]

-- `Split` has a line at least.
unfoldable pub insert_text : UndoEntry → List Bytes → List Bytes → Entry → Option Entry
unfolding insert insert_lines
insert_text back [] lines e = none
insert_text back (p ∷ []) lines e = insert back p lines e
insert_text back (p ∷ q ∷ ps) lines e = insert_lines back p q ps lines e

module _ (cpl visible : ℕ) where
  unfoldable pub paste : Bytes → Entry → Option Entry
  unfolding back delete_selection insert_text paste_lines ensure_cursor_visible
  paste text e =
      let lines = split_raw e.raw in
      if same text [] then some e else elim (delete_selection lines e) [
        | none ↦ none
        | some (lines', e') ↦
            Option.map (ensure_cursor_visible cpl visible)
              (insert_text (back lines e) (paste_lines text) lines' e')
      ]

  -- What goes to the clipboard, and the entry.
  unfoldable pub cut_key : Entry → Option (Option Bytes × Entry)
  unfolding selected_text back delete_selection save ensure_cursor_visible
  cut_key e =
      let lines = split_raw e.raw in
      if not e.has_selection then some (none, e) else elim (selected_text e) [
        | none ↦ none
        | some text ↦ elim (delete_selection lines e) [
          | none ↦ none
          | some (lines', e') ↦ some (
            some text,
            ensure_cursor_visible cpl visible (save (join_lines lines) e.cursor lines' e'),
          )
        ]
      ]
