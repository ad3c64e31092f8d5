-- ===== src/TextEntry/Pasting.antt =====
-- The paste of textviewentry.go, of one line or several.
use mathlib.Core.Option
use shiv.Prelude.{
  length, get_elem?, take, drop, length-append, drop-append_length, take-append_length, All-append,
  All-get, ℕ, suc, ◌+◌, ◌≡◌, refl, sym, ap, ◌∙◌, subst, false, some, List, [], ◌∷◌, ◌++◌,
  append_assoc, arith,
}
use shiv.Text.{Bytes, same, join}
use shiv.Text.Split.{split_nonempty, join-split}
use shiv.TextEntry.Lines.{lf, normal, split_raw, join_lines, pos, Pos}
use shiv.TextEntry.Lines.Split.{IsLine, IsLines, split-normal-IsLines}
use shiv.TextEntry.State.{push_undo, commit_lines, save, delete_selection, place, UndoEntry, Entry}
use shiv.TextEntry.Flat.{
  before_at, after_at, before, after, after-lem, join_lines-next, Stands, start, Stands-append,
  before-start,
}
use shiv.TextEntry.Replace.{get_elem?-lt, place-lem}
use shiv.TextEntry.Valid.{left_part, right_part, IsValid}
use shiv.TextEntry.Parts.{
  IsLine-append, IsLine-take, IsLine-drop, IsLines-drop, IsLines-splice, Leaves,
}
use shiv.TextEntry.Removal.{Stands-as, delete_selection-Removes}
use shiv.TextEntry.Edited.{Edited, saved-Edited}
use shiv.TextEntry.Typing.{insert-Edited}
use shiv.TextEntry.Keys.{insert, back}
use shiv.TextEntry.Shortcuts.{paste_lines, end_with, last_or, insert_lines, insert_text, paste}
use shiv.TextEntry.Visual.{ensure_cursor_visible}

-- The last line of the text, with `d` behind it.
pasted_end :
    (d q : Bytes) (ps rest : List Bytes)
    → Stands
        (end_with d q ps ++ rest)
        (pos (length ps) (length (last_or q ps)))
        (join_lines (q ∷ ps))
        (join_lines (d ∷ rest))
unfolding before after before_at after_at end_with last_or join_lines join
pasted_end d q [] rest = (
  (q ++ d, refl, omega (arith, length-append q d)),
  take-append_length q d,
  ap (λ t. join_lines (t ∷ rest)) (drop-append_length q d),
)
pasted_end d q (p ∷ ps) rest =
    let ((r, at, in_line), front, behind) = pasted_end d p ps rest in
    ((r, at, in_line), ap (λ t. q ++ (lf ++ t)) front, behind)

end_with-IsLines :
    (d q : Bytes) (ps : List Bytes) → IsLine d → IsLines (q ∷ ps) → IsLines (end_with d q ps)
unfolding end_with
end_with-IsLines d q [] h k = (IsLine-append q d k.0 h, tt)
end_with-IsLines d q (p ∷ ps) h k = (k.0, end_with-IsLines d p ps h k.1)

pasted_behind :
    (front d q : Bytes) (ps rest : List Bytes)
    → Stands
        (front ∷ (end_with d q ps ++ rest))
        (pos (length (q ∷ ps)) (length (last_or q ps)))
        (front ++ (lf ++ join_lines (q ∷ ps)))
        (join_lines (d ∷ rest))
unfolding before after before_at after_at
pasted_behind front d q ps rest =
    let (in_text, left, right) = pasted_end d q ps rest in
    (in_text, ap (λ t. front ++ (lf ++ t)) left, right)

-- Several lines put in at a position.
lines_in : Bytes → Bytes → List Bytes → List Bytes → Pos → Bytes → List Bytes
unfolding end_with
lines_in p q ps lines at r =
    take at.line lines
    ++ (take at.col r ++ p) ∷ (end_with (drop at.col r) q ps ++ drop (suc at.line) lines)

lines_in-Leaves :
    (p q : Bytes) (ps lines : List Bytes) (at : Pos) {left right r : Bytes}
    → Leaves lines at left right
    → IsLines (p ∷ q ∷ ps)
    → get_elem? lines at.line ≡ some r
    → Leaves
        (lines_in p q ps lines at r)
        (pos (at.line + length (q ∷ ps)) (length (last_or q ps)))
        (left ++ join_lines (p ∷ q ∷ ps))
        right
unfolding lines_in
lines_in-Leaves p q ps lines at {left} {right} {r} (all, (in_text, front, behind)) h here =
    let c = take at.col r in
    let d = drop at.col r in
    let rest = drop (suc at.line) lines in
    let one = All-get IsLine lines at.line all here in
    let text = lf ++ join_lines (q ∷ ps) in
    (
      IsLines-splice at.line lines ((c ++ p) ∷ (end_with d q ps ++ rest)) all (
        IsLine-append c p (IsLine-take at.col r one) h.0,
        All-append IsLine (end_with d q ps) rest
            (end_with-IsLines d q ps (IsLine-drop at.col r one) h.1)
            (IsLines-drop (suc at.line) lines all),
      ),
      Stands-as (lines_in p q ps lines at r)
          (pos (at.line + length (q ∷ ps)) (length (last_or q ps)))
          (Stands-append lines at.line ((c ++ p) ∷ (end_with d q ps ++ rest)) (length (q ∷ ps))
            (length (last_or q ps)) ((c ++ p) ++ text) (join_lines (d ∷ rest))
            (omega (arith, get_elem?-lt lines at.line here)) (pasted_behind (c ++ p) d q ps rest))
          (ap (λ t. start lines at.line ++ t) (append_assoc c p text)
            ∙ sym (append_assoc (start lines at.line) c (p ++ text))
            ∙ ap (λ t. t ++ (p ++ text)) (sym (before-start lines at here) ∙ front)
            ∙ ap (λ t. left ++ t) (sym (join_lines-next p q ps)))
          (sym (after-lem lines at here) ∙ behind),
    )

insert_lines-some :
    (u : UndoEntry) (p q : Bytes) (ps lines : List Bytes) (e : Entry) {r : Bytes}
    → place lines e.cursor ≡ some (e.cursor.line, e.cursor.col, r)
    → insert_lines u p q ps lines e
      ≡ some (record (save u.raw u.cursor (lines_in p q ps lines e.cursor r) e) {
        cursor = pos (e.cursor.line + length (q ∷ ps)) (length (last_or q ps));
      })
unfolding insert_lines place lines_in end_with last_or
insert_lines-some u p q ps lines e h = ground arith

join_lines-one : (p : Bytes) → join_lines (p ∷ []) ≡ p
unfolding join_lines join
join_lines-one p = refl

module _ (cpl visible : ℕ) where
  insert_lines-Edited :
      (e e' : Entry) (p q : Bytes) (ps lines : List Bytes) {before_it behind_it : Bytes}
      → IsValid e
      → IsLines (p ∷ q ∷ ps)
      → Leaves lines e'.cursor before_it behind_it
      → e'.has_selection ≡ false
      → e'.undo_stack ≡ e.undo_stack
      → Edited e (before_it ++ join_lines (p ∷ q ∷ ps)) behind_it (
          Option.map
            (ensure_cursor_visible cpl visible)
            (insert_lines (back (split_raw e.raw) e) p q ps lines e'))
  unfolding back save push_undo commit_lines
  insert_lines-Edited e e' p q ps lines {before_it} {behind_it} h all leaves off stack =
      let (r, here, in_line) = leaves.1.0 in
      let at = e'.cursor in
      let lines' = lines_in p q ps lines at r in
      let p' = pos (at.line + length (q ∷ ps)) (length (last_or q ps)) in
      let e'' = record (save (join_lines (split_raw e.raw)) e.cursor lines' e') { cursor = p' } in
      subst
        (λ o.
          Edited e (before_it ++ join_lines (p ∷ q ∷ ps)) behind_it
            (Option.map (ensure_cursor_visible cpl visible) o))
        (sym (
          insert_lines-some (back (split_raw e.raw) e) p q ps lines e'
            (place-lem lines at here in_line)))
        (saved-Edited cpl visible e e' e'' lines' p' h stack
          (lines_in-Leaves p q ps lines at leaves all here) refl refl off refl)

  insert_text-Edited :
      (e e' : Entry) (p : Bytes) (ps lines : List Bytes) {before_it behind_it : Bytes}
      → IsValid e
      → IsLines (p ∷ ps)
      → Leaves lines e'.cursor before_it behind_it
      → e'.has_selection ≡ false
      → e'.undo_stack ≡ e.undo_stack
      → Edited e (before_it ++ join_lines (p ∷ ps)) behind_it (
          Option.map
            (ensure_cursor_visible cpl visible)
            (insert_text (back (split_raw e.raw) e) (p ∷ ps) lines e'))
  unfolding insert_text
  insert_text-Edited e e' p [] lines {before_it} {behind_it} h all leaves off stack =
      subst
        (λ t. Edited e (before_it ++ t) behind_it (
          Option.map (ensure_cursor_visible cpl visible)
            (insert (back (split_raw e.raw) e) p lines e')))
        (sym (join_lines-one p)) (insert-Edited cpl visible e e' p lines h all.0 leaves off stack)
  insert_text-Edited e e' p (q ∷ ps) lines h all leaves off stack =
      insert_lines-Edited e e' p q ps lines h all leaves off stack

  paste_after :
      (c : ℕ) (s : Bytes) (e e' : Entry) (lines : List Bytes)
      → delete_selection (split_raw e.raw) e ≡ some (lines, e')
      → paste cpl visible (c ∷ s) e
        ≡ Option.map
            (ensure_cursor_visible cpl visible)
            (insert_text (back (split_raw e.raw) e) (paste_lines (c ∷ s)) lines e')
  unfolding paste delete_selection same
  paste_after c s e e' lines h = ground arith

  -- From an entry whose cursor and selection stand in the text, with at most 100 entries to undo, a
  -- text of one or more lines that is pasted takes the place of the selection, its line ends made
  -- equal; the cursor stands behind it, and undoing gives the old text with the old cursor.
  pub paste-Edited :
      (c : ℕ) (s : Bytes) (e : Entry)
      → IsValid e
      → Edited e (left_part e ++ normal (c ∷ s)) (right_part e) (paste cpl visible (c ∷ s) e)
  unfolding paste_lines join_lines
  paste-Edited c s e h =
      let text = normal (c ∷ s) in
      let ((lines, e'), removed, (leaves, off, stack)) = delete_selection-Removes e h in
      let (p, ps, parts) = split_nonempty text in
      let whole : join_lines (p ∷ ps) ≡ text = ap join_lines (sym parts) ∙ join-split text in
      let o =
        Option.map (ensure_cursor_visible cpl visible)
          (insert_text (back (split_raw e.raw) e) (p ∷ ps) lines e') in
      let same_result =
        paste_after c s e e' lines removed
        ∙ ap
            (λ ls.
              Option.map (ensure_cursor_visible cpl visible)
                (insert_text (back (split_raw e.raw) e) ls lines e'))
            parts in
      subst (λ t. Edited e (left_part e ++ t) (right_part e) (paste cpl visible (c ∷ s) e)) whole
        (subst (Edited e (left_part e ++ join_lines (p ∷ ps)) (right_part e)) (sym same_result) (
          insert_text-Edited e e' p ps lines h (subst IsLines parts (split-normal-IsLines (c ∷ s)))
            leaves off stack))
