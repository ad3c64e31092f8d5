-- ===== src/TextEntry/Breaking.antt =====
-- `TypedKey` of textviewentry.go on return, on the keys that erase a selection, and on tab.
use mathlib.Core.Option
use shiv.Prelude.{
  if◌then◌else◌, Bool-cases, length, get_elem?, set, take, drop, All-get, ℕ, suc, ◌+◌, ◌≤◌, ◌≡◌,
  refl, sym, ap, ◌∙◌, subst, inl, inr, Bool, true, false, some, List, ◌∷◌, ◌++◌, append_assoc,
  arith,
}
use shiv.Text.{Bytes, contains_byte}
use shiv.TextEntry.Lines.{lf, split_raw, join_lines, pos, Pos}
use shiv.TextEntry.Lines.Split.{IsLine}
use shiv.TextEntry.State.{push_undo, commit_lines, save, delete_selection, Entry}
use shiv.TextEntry.Flat.{
  before_at, after_at, before, after, after-lem, Stands, start, Stands-append, before-start,
}
use shiv.TextEntry.Replace.{get_elem?-lt}
use shiv.TextEntry.Valid.{left_part, right_part, IsValid}
use shiv.TextEntry.Parts.{IsLine-take, IsLine-drop, IsLines-drop, IsLines-splice, Leaves}
use shiv.TextEntry.Removal.{Stands-as, cursor-Leaves, delete_selection-Removes}
use shiv.TextEntry.Edited.{Edited, saved-Edited}
use shiv.TextEntry.Typing.{insertion-Leaves}
use shiv.TextEntry.Spot.{cancel_shift, edit, remove_selection, Spot}
use shiv.TextEntry.Edits.{backspace_key, delete_key, broken, return_key, indent, tab_key}
use shiv.TextEntry.Keys.{key_action, typed_key, Key, backspace, delete, enter, tab}
use shiv.TextEntry.Visual.{behind, ensure_cursor_visible}
use shiv.TextEntry.Pressed.{spotted, typed_key_at}

return_on :
    (s : Spot) (e e' : Entry) (lines : List Bytes) {r : Bytes}
    → e.has_selection ≡ true
    → delete_selection s.lines e ≡ some (lines, e')
    → get_elem? lines e'.cursor.line ≡ some r
    → return_key s e
      ≡ some (
          cancel_shift (
            edit s e.cursor
              (broken lines e'.cursor.line e'.cursor.col r)
              (pos (suc e'.cursor.line) 0)
              e'))
unfolding return_key delete_selection
return_on s e e' lines on removed here = ground arith

return_off :
    (s : Spot) (e : Entry)
    → e.has_selection ≡ false
    → return_key s e
      ≡ some
          (cancel_shift (edit s e.cursor (broken s.lines s.cl s.cc s.runes) (pos (suc s.cl) 0) e))
unfolding return_key
return_off s e off = ground arith

second_line :
    (c d : Bytes) (rest : List Bytes)
    → Stands (c ∷ d ∷ rest) (pos 1 0) (c ++ lf) (join_lines (d ∷ rest))
unfolding before after before_at after_at
second_line c d rest = ((d, refl, omega arith), refl, refl)

-- A line that is broken at a position.
broken-Leaves :
    (lines : List Bytes) (p : Pos) {before_it behind_it r : Bytes}
    → Leaves lines p before_it behind_it
    → get_elem? lines p.line ≡ some r
    → Leaves (broken lines p.line p.col r) (pos (suc p.line) 0) (before_it ++ lf) behind_it
unfolding broken
broken-Leaves lines p {before_it} {behind_it} {r} (all, (in_text, front, behind)) here =
    let l = p.line in
    let c = take p.col r in
    let d = drop p.col r in
    let rest = drop (suc l) lines in
    let one = All-get IsLine lines l all here in
    let ending : Stands (c ∷ d ∷ rest) (pos 1 0) (c ++ lf) (join_lines (d ∷ rest)) =
      second_line c d rest in
    let next : l + 1 ≡ suc l = omega arith in
    (
      IsLines-splice l lines (c ∷ d ∷ rest) all
          (IsLine-take p.col r one, (IsLine-drop p.col r one, IsLines-drop (suc l) lines all)),
      Stands-as (take l lines ++ c ∷ d ∷ rest) (pos (suc l) 0)
          (subst
            (λ k.
              Stands (take l lines ++ c ∷ d ∷ rest) (pos k 0) (start lines l ++ (c ++ lf))
                (join_lines (d ∷ rest)))
            next
            (Stands-append lines l (c ∷ d ∷ rest) 1 0 (c ++ lf) (join_lines (d ∷ rest))
              (omega (arith, get_elem?-lt lines l here)) ending))
          (sym (append_assoc (start lines l) c lf)
            ∙ ap (λ t. t ++ lf) (sym (before-start lines p here) ∙ front))
          (sym (after-lem lines p here) ∙ behind),
    )

backspace_on :
    (s : Spot) (e e' : Entry) (lines : List Bytes)
    → e.has_selection ≡ true
    → delete_selection s.lines e ≡ some (lines, e')
    → backspace_key s e ≡ some (cancel_shift (edit s e.cursor lines e'.cursor e'))
unfolding backspace_key remove_selection delete_selection edit
backspace_on s e e' lines on removed = ground arith

delete_on :
    (s : Spot) (e e' : Entry) (lines : List Bytes)
    → e.has_selection ≡ true
    → delete_selection s.lines e ≡ some (lines, e')
    → delete_key s e ≡ some (cancel_shift (edit s e.cursor lines e'.cursor e'))
unfolding delete_key remove_selection delete_selection edit
delete_on s e e' lines on removed = ground arith

tab_off :
    (s : Spot) (e : Entry)
    → e.has_selection ≡ false
    → tab_key s e
      ≡ some (
          edit s e.cursor
            (set s.lines s.cl (take s.cc s.runes ++ (indent ++ drop s.cc s.runes)))
            (pos e.cursor.line (s.cc + length indent))
            e)
unfolding tab_key
tab_off s e off = ground arith

indent-IsLine : IsLine indent
unfolding contains_byte
indent-IsLine = (refl, refl)

module _ (cpl visible : ℕ) (e : Entry) (h : IsValid e) where
  -- The edit of a key, on what the removal of the selection leaves.
  pressed-Edited :
      (k : Key) (r : Bytes) (e' : Entry) (lines : List Bytes) (p : Pos)
      {before_it behind_it : Bytes}
      → get_elem? (split_raw e.raw) e.cursor.line ≡ some r
      → e.cursor.col ≤ length r
      → key_action cpl visible k (spotted e r) e
        ≡ some (cancel_shift (edit (spotted e r) e.cursor lines p e'))
      → e'.undo_stack ≡ e.undo_stack
      → Leaves lines p before_it behind_it
      → Edited e before_it behind_it (typed_key cpl visible k e)
  unfolding edit save push_undo commit_lines cancel_shift
  pressed-Edited k r e' lines p {before_it} {behind_it} here in_line result stack leaves =
      let e'' = cancel_shift (edit (spotted e r) e.cursor lines p e') in
      subst (Edited e before_it behind_it)
        (sym (
          typed_key_at cpl visible k e here in_line
          ∙ ap (Option.map (ensure_cursor_visible cpl visible)) result))
        (saved-Edited cpl visible e e' e'' lines p h stack leaves refl refl refl refl)

  -- From an entry whose cursor and selection stand in the text, with at most 100 entries to undo, the
  -- return key puts one line end in the place of the selection, or at the cursor, which then starts
  -- the next line; undoing gives the old text with the old cursor.
  pub enter-Edited : Edited e (left_part e ++ lf) (right_part e) (typed_key cpl visible enter e)
  unfolding key_action
  enter-Edited =
      let (r, here, in_line) = h.0 in
      let ((lines, e'), removed, (leaves, off', stack)) = delete_selection-Removes e h in
      elim (Bool-cases e.has_selection) [
        | inl on ↦
            let (r', here', in_line') = leaves.1.0 in
            pressed-Edited enter r e' (broken lines e'.cursor.line e'.cursor.col r')
              (pos (suc e'.cursor.line) 0) here in_line
              (return_on (spotted e r) e e' lines on removed here') stack
              (broken-Leaves lines e'.cursor leaves here')
        | inr off ↦
            pressed-Edited enter r e (broken (split_raw e.raw) e.cursor.line e.cursor.col r)
              (pos (suc e.cursor.line) 0) here in_line (return_off (spotted e r) e off) refl
              (broken-Leaves (split_raw e.raw) e.cursor (cursor-Leaves e off h) here)
      ]

  -- Where something is selected, backspace and the delete key take out the selection and nothing else;
  -- undoing gives the old text with the old cursor.
  pub erase_selection-Edited :
      (is_backspace : Bool)
      → e.has_selection ≡ true
      → Edited e
          (left_part e)
          (right_part e)
          (typed_key cpl visible (if is_backspace then backspace else delete) e)
  unfolding key_action
  erase_selection-Edited true on =
      let (r, here, in_line) = h.0 in
      let ((lines, e'), removed, (leaves, off', stack)) = delete_selection-Removes e h in
      pressed-Edited backspace r e' lines e'.cursor here in_line
        (backspace_on (spotted e r) e e' lines on removed) stack leaves
  erase_selection-Edited false on =
      let (r, here, in_line) = h.0 in
      let ((lines, e'), removed, (leaves, off', stack)) = delete_selection-Removes e h in
      pressed-Edited delete r e' lines e'.cursor here in_line
        (delete_on (spotted e r) e e' lines on removed) stack leaves

  tab_result :
      (r : Bytes) {before_it behind_it : Bytes}
      → e.has_selection ≡ false
      → get_elem? (split_raw e.raw) e.cursor.line ≡ some r
      → e.cursor.col ≤ length r
      → Leaves
          (set
            (split_raw e.raw)
            e.cursor.line
            (take e.cursor.col r ++ (indent ++ drop e.cursor.col r)))
          (pos e.cursor.line (e.cursor.col + length indent))
          before_it
          behind_it
      → Edited e before_it behind_it (typed_key cpl visible tab e)
  unfolding key_action edit save push_undo commit_lines
  tab_result r {before_it} {behind_it} off here in_line leaves =
      let lines =
        set (split_raw e.raw) e.cursor.line
          (take e.cursor.col r ++ (indent ++ drop e.cursor.col r)) in
      let p = pos e.cursor.line (e.cursor.col + length indent) in
      subst (Edited e before_it behind_it)
        (sym (
          typed_key_at cpl visible tab e here in_line
          ∙ ap (Option.map (ensure_cursor_visible cpl visible)) (tab_off (spotted e r) e off)))
        (saved-Edited cpl visible e e (edit (spotted e r) e.cursor lines p e) lines p h refl leaves
          refl refl off refl)

  -- Where nothing is selected, the tab key puts four blanks at the cursor, which then stands behind
  -- them; undoing gives the old text with the old cursor.
  pub tab-Edited :
      e.has_selection ≡ false
      → Edited e (left_part e ++ indent) (right_part e) (typed_key cpl visible tab e)
  unfolding key_action
  tab-Edited off =
      let (r, here, in_line) = h.0 in
      let lines = split_raw e.raw in
      let n = e.cursor.col in
      tab_result r off here in_line
        (insertion-Leaves lines e.cursor indent (cursor-Leaves e off h) indent-IsLine here in_line)
