-- ===== src/TextEntry/Edits.antt =====
-- The keys that change the text: backspace, delete, return and tab.
use mathlib.Core.Option
use shiv.Prelude.{
  ltb, leb, ◌==◌, if◌then◌else◌, length, get_elem?, set, take, drop, ℕ, zero, suc, ◌+◌, ◌-◌, Option,
  none, some, List, [], ◌∷◌, ◌++◌,
}
use shiv.Text.{Bytes, codes}
use shiv.TextEntry.Lines.{join_lines, pos}
use shiv.TextEntry.State.{save, normalise_selection, delete_selection, Entry}
use shiv.TextEntry.Spot.{cancel_shift, edit, remove_selection, Spot}

unfoldable pub backspace_plain : Spot → Entry → Option Entry
unfolding edit
backspace_plain s e =
    if ltb 0 s.cc
    then some (
        edit s e.cursor (set s.lines s.cl (take (s.cc - 1) s.runes ++ drop s.cc s.runes))
          (pos e.cursor.line (s.cc - 1)) e)
    else if ltb 0 s.cl
    then elim (get_elem? s.lines (s.cl - 1)) [
      | none ↦ none
      | some before ↦ some (
          edit s e.cursor (take (s.cl - 1) s.lines ++ (before ++ s.runes) ∷ drop (suc s.cl) s.lines)
            (pos (s.cl - 1) (length before)) e)
    ]
    else some e

unfoldable pub delete_plain : Spot → Entry → Option Entry
unfolding edit
delete_plain s e =
    if ltb s.cc (length s.runes)
    then some (
        edit s e.cursor (set s.lines s.cl (take s.cc s.runes ++ drop (suc s.cc) s.runes)) e.cursor
          e)
    else if ltb s.cl (length s.lines - 1)
    then elim (get_elem? s.lines (suc s.cl)) [
      | none ↦ none
      | some next ↦ some (
          edit s e.cursor (take s.cl s.lines ++ (s.runes ++ next) ∷ drop (suc (suc s.cl)) s.lines)
            e.cursor e)
    ]
    else some e

unfoldable pub backspace_key : Spot → Entry → Option Entry
unfolding remove_selection backspace_plain
backspace_key s e =
    Option.map cancel_shift (if e.has_selection then remove_selection s e else backspace_plain s e)

unfoldable pub delete_key : Spot → Entry → Option Entry
unfolding remove_selection delete_plain
delete_key s e =
    Option.map cancel_shift (if e.has_selection then remove_selection s e else delete_plain s e)

-- The line `cl` cut at column `cc`.
unfoldable pub broken : List Bytes → ℕ → ℕ → Bytes → List Bytes
broken lines cl cc runes = take cl lines ++ take cc runes ∷ drop cc runes ∷ drop (suc cl) lines

-- Behind a selection that was removed, the line and column are the cursor's.
unfoldable pub return_key : Spot → Entry → Option Entry
unfolding edit broken delete_selection
return_key s e = Option.map cancel_shift (
    if e.has_selection
    then elim (delete_selection s.lines e) [
      | none ↦ none
      | some (lines, e') ↦ elim (get_elem? lines e'.cursor.line) [
        | none ↦ none
        | some runes ↦ some (
            edit s e.cursor (broken lines e'.cursor.line e'.cursor.col runes)
              (pos (suc e'.cursor.line) 0) e')
      ]
    ]
    else some (edit s e.cursor (broken s.lines s.cl s.cc s.runes) (pos (suc s.cl) 0) e))

abbrev pub tab_width : ℕ
tab_width = 4

abbrev pub indent : Bytes
indent = codes "    "

-- `for i := startLine; i <= endLine; i++ { lines[i] = indent + lines[i] }`, over `n` lines
unfoldable pub indent_lines : ℕ → ℕ → List Bytes → List Bytes
indent_lines i n [] = []
indent_lines (suc i) n (l ∷ ls) = l ∷ indent_lines i n ls
indent_lines zero zero (l ∷ ls) = l ∷ ls
indent_lines zero (suc n) (l ∷ ls) = (indent ++ l) ∷ indent_lines zero n ls

-- The selection stays, moved with its lines.
unfoldable pub tab_selection : Spot → Entry → Option Entry
unfolding indent_lines save normalise_selection
tab_selection s e =
    let (from, to) = normalise_selection e in
    let lines = indent_lines from.line (to.line + 1 - from.line) s.lines in
    let saved = save (join_lines s.lines) e.cursor lines e in
    let moved = pos to.line (to.col + tab_width) in
    if leb (length s.lines) to.line
    then none
    else some (record saved {
      sel_anchor = pos from.line (if ltb 0 from.col then from.col + tab_width else 0);
      sel = moved;
      cursor =
          if e.cursor.line == from.line then pos from.line (e.cursor.col + tab_width) else moved;
    })

unfoldable pub tab_key : Spot → Entry → Option Entry
unfolding tab_selection edit
tab_key s e =
    if e.has_selection
    then tab_selection s e
    else some (
        edit s e.cursor (set s.lines s.cl (take s.cc s.runes ++ (indent ++ drop s.cc s.runes)))
          (pos e.cursor.line (s.cc + tab_width)) e)
