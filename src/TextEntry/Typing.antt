-- ===== src/TextEntry/Typing.antt =====
-- `TypedRune` of textviewentry.go.
use mathlib.Core.Option
use shiv.Prelude.{
  length, get_elem?, set, take, drop, length-append, length-take, All-set, All-get, ℕ, suc, ◌+◌,
  ◌≤◌, ◌≡◌, refl, sym, ap, ◌∙◌, subst, false, some, List, [], ◌∷◌, ◌++◌, append_assoc, arith,
}
use shiv.Text.{Bytes}
use shiv.TextEntry.Lines.{split_raw, join_lines, pos, Pos}
use shiv.TextEntry.Lines.Split.{IsLine}
use shiv.TextEntry.State.{push_undo, commit_lines, save, delete_selection, place, UndoEntry, Entry}
use shiv.TextEntry.Flat.{after-lem, set-splice, Stands, start, before-start}
use shiv.TextEntry.Replace.{get_elem?-lt, place-lem, Stands-splice}
use shiv.TextEntry.Valid.{left_part, right_part, IsValid}
use shiv.TextEntry.Parts.{IsLine-append, IsLine-take, IsLine-drop, Leaves}
use shiv.TextEntry.Removal.{Stands-as, delete_selection-Removes}
use shiv.TextEntry.Edited.{Edited, saved-Edited}
use shiv.TextEntry.Keys.{insert, back, typed_rune}
use shiv.TextEntry.Visual.{ensure_cursor_visible}

pub insertion-Leaves :
    (lines : List Bytes) (p : Pos) (text : Bytes) {left right r : Bytes}
    → Leaves lines p left right
    → IsLine text
    → get_elem? lines p.line ≡ some r
    → p.col ≤ length r
    → Leaves
        (set lines p.line (take p.col r ++ (text ++ drop p.col r)))
        (pos p.line (p.col + length text))
        (left ++ text)
        right
insertion-Leaves lines p text {left} {right} {r} (all, (in_text, front, behind)) h at in_line =
    let c = take p.col r in
    let x = drop p.col r in
    let rest = drop (suc p.line) lines in
    let one = All-get IsLine lines p.line all at in
    let size : p.col + length text ≡ length (c ++ text) =
      omega (arith, length-append c text, length-take p.col r in_line) in
    let same : set lines p.line (c ++ (text ++ x))
        ≡ take p.line lines ++ ((c ++ text) ++ x) ∷ rest =
      set-splice lines p.line (c ++ (text ++ x)) at
      ∙ ap (λ l. take p.line lines ++ l ∷ rest) (sym (append_assoc c text x)) in
    (
      All-set IsLine lines p.line (c ++ (text ++ x)) all (
          IsLine-append c (text ++ x) (IsLine-take p.col r one)
            (IsLine-append text x h (IsLine-drop p.col r one))),
      subst (λ ls. Stands ls (pos p.line (p.col + length text)) (left ++ text) right) (sym same)
          (Stands-as (take p.line lines ++ ((c ++ text) ++ x) ∷ rest)
            (pos p.line (p.col + length text))
            (Stands-splice lines p.line (p.col + length text) (c ++ text) x rest
              (omega (arith, get_elem?-lt lines p.line at)) size)
            (sym (append_assoc (start lines p.line) c text)
              ∙ ap (λ t. t ++ text) (sym (before-start lines p at) ∙ front))
            (sym (after-lem lines p at) ∙ behind)),
    )

insert-some :
    (u : UndoEntry) (text : Bytes) (lines : List Bytes) (e : Entry) {l c : ℕ} {r : Bytes}
    → place lines e.cursor ≡ some (l, c, r)
    → insert u text lines e
      ≡ some (record (save u.raw u.cursor (set lines l (take c r ++ (text ++ drop c r))) e) {
        cursor = pos l (c + length text);
      })
unfolding insert place
insert-some u text lines e h = ground arith

module _ (cpl visible : ℕ) where
  pub insert-Edited :
      (e e' : Entry) (text : Bytes) (lines : List Bytes) {left right : Bytes}
      → IsValid e
      → IsLine text
      → Leaves lines e'.cursor left right
      → e'.has_selection ≡ false
      → e'.undo_stack ≡ e.undo_stack
      → Edited e (left ++ text) right (
          Option.map
            (ensure_cursor_visible cpl visible)
            (insert (back (split_raw e.raw) e) text lines e'))
  unfolding back save push_undo commit_lines
  insert-Edited e e' text lines {left} {right} h one leaves off stack =
      let (r, at, in_line) = leaves.1.0 in
      let p = e'.cursor in
      let lines' = set lines p.line (take p.col r ++ (text ++ drop p.col r)) in
      let p' = pos p.line (p.col + length text) in
      let e'' = record (save (join_lines (split_raw e.raw)) e.cursor lines' e') { cursor = p' } in
      subst (λ o. Edited e (left ++ text) right (Option.map (ensure_cursor_visible cpl visible) o))
        (sym (insert-some (back (split_raw e.raw) e) text lines e' (place-lem lines p at in_line)))
        (saved-Edited cpl visible e e' e'' lines' p' h stack
          (insertion-Leaves lines p text leaves one at in_line) refl refl off refl)

  typed_after :
      (r : ℕ) (e e' : Entry) (lines : List Bytes)
      → delete_selection (split_raw e.raw) e ≡ some (lines, e')
      → typed_rune cpl visible r e
        ≡ Option.map
            (ensure_cursor_visible cpl visible)
            (insert (back (split_raw e.raw) e) (r ∷ []) lines e')
  unfolding typed_rune delete_selection
  typed_after r e e' lines h = ground arith

  -- From an entry whose cursor and selection stand in the text, with at most 100 entries to undo, a
  -- rune other than a line end takes the place of the selection, or goes in at the cursor, which then
  -- stands behind it. The result is such an entry again, and undoing the edit gives the old text with
  -- the old cursor. `TypedRune` does not panic.
  pub typed_rune-Edited :
      (r : ℕ) (e : Entry)
      → IsLine (r ∷ [])
      → IsValid e
      → Edited e (left_part e ++ r ∷ []) (right_part e) (typed_rune cpl visible r e)
  typed_rune-Edited r e one h =
      let ((lines, e'), removed, (leaves, off, stack)) = delete_selection-Removes e h in
      subst (Edited e (left_part e ++ r ∷ []) (right_part e))
        (sym (typed_after r e e' lines removed))
        (insert-Edited e e' (r ∷ []) lines h one leaves off stack)
