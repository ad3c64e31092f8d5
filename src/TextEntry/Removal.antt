-- ===== src/TextEntry/Removal.antt =====
-- `deleteSelection` of textviewentry.go.
use shiv.Prelude.{
  Bool-cases, length, get_elem?, take, drop, length-take, All-get, suc, ◌≤◌, ◌≡◌, refl, sym, ap,
  ◌∙◌, subst, inl, inr, true, false, some, List, ◌∷◌, ◌++◌, arith,
}
use shiv.Text.{Bytes}
use shiv.TextEntry.Lines.{split_raw, Pos}
use shiv.TextEntry.Lines.Split.{IsLine, IsLines, split_raw-IsLines}
use shiv.TextEntry.State.{normalise_selection, cut_lines, delete_selection, Entry}
use shiv.TextEntry.Flat.{before, after, after-lem, Stands, before-start}
use shiv.TextEntry.Replace.{get_elem?-lt, Stands-splice, cut_out, cut_lines-lem}
use shiv.TextEntry.Valid.{
  selection, left_part, right_part, IsValid, selection_on, selection_off, selection-InText,
}
use shiv.TextEntry.Parts.{
  IsLine-append, IsLine-take, IsLine-drop, IsLines-drop, IsLines-splice, Leaves,
}

-- The same place, with what stands around it named another way.
pub Stands-as :
    (lines : List Bytes) (p : Pos) {left right left' right' : Bytes}
    → Stands lines p left right
    → left ≡ left'
    → right ≡ right'
    → Stands lines p left' right'
Stands-as lines p (in_text, front, behind) h k = (in_text, front ∙ h, behind ∙ k)

cut_out-Leaves :
    (from to : Pos) (lines : List Bytes) {first last : Bytes}
    → IsLines lines
    → get_elem? lines from.line ≡ some first
    → from.col ≤ length first
    → get_elem? lines to.line ≡ some last
    → Leaves (cut_out from to first last lines) from (before lines from) (after lines to)
cut_out-Leaves from to lines {first} {last} all h in_first k =
    let x = drop to.col last in
    let rest = drop (suc to.line) lines in
    (
      IsLines-splice from.line lines ((take from.col first ++ x) ∷ rest) all (
        IsLine-append (take from.col first) x
            (IsLine-take from.col first (All-get IsLine lines from.line all h))
            (IsLine-drop to.col last (All-get IsLine lines to.line all k)),
        IsLines-drop (suc to.line) lines all,
      ),
      Stands-as (cut_out from to first last lines) from
          (Stands-splice lines from.line from.col (take from.col first) x rest
            (omega (arith, get_elem?-lt lines from.line h))
            (sym (length-take from.col first in_first)))
          (sym (before-start lines from h)) (sym (after-lem lines to k)),
    )

-- What is left of a selection: the lines, and the entry with its cursor between them.
abbrev pub Removes : Entry → List Bytes × Entry → Type 0
Removes e (lines, e') =
    Leaves lines e'.cursor (left_part e) (right_part e)
    × (e'.has_selection ≡ false)
    × (e'.undo_stack ≡ e.undo_stack)

removed : List Bytes → Pos → Entry → List Bytes × Entry
removed lines p e = (lines, record e { cursor = p; has_selection = false; shift_selecting = false })

delete_selection_on :
    (lines lines' : List Bytes) (p : Pos) (e : Entry)
    → e.has_selection ≡ true
    → cut_lines (normalise_selection e).0 (normalise_selection e).1 lines ≡ some (lines', p)
    → delete_selection lines e ≡ some (removed lines' p e)
unfolding delete_selection removed cut_lines normalise_selection
delete_selection_on lines lines' p e on taken = ground arith

delete_selection_off :
    (lines : List Bytes) (e : Entry)
    → e.has_selection ≡ false
    → delete_selection lines e ≡ some (lines, e)
unfolding delete_selection
delete_selection_off lines e off = ground arith

-- Where nothing is selected, the cursor stands between the two parts.
pub cursor-Leaves :
    (e : Entry)
    → e.has_selection ≡ false
    → IsValid e
    → Leaves (split_raw e.raw) e.cursor (left_part e) (right_part e)
unfolding left_part right_part
cursor-Leaves e off h =
    let lines = split_raw e.raw in
    let same = selection_off e off in
    (
      split_raw-IsLines e.raw,
      (h.0, ap (λ q. before lines q.0) (sym same), ap (λ q. after lines q.1) (sym same)),
    )

removal_off :
    (e : Entry)
    → e.has_selection ≡ false
    → IsValid e
    → (r : List Bytes × Entry) × (delete_selection (split_raw e.raw) e ≡ some r) × Removes e r
removal_off e off h = (
  (split_raw e.raw, e),
  delete_selection_off (split_raw e.raw) e off,
  (cursor-Leaves e off h, off, refl),
)

removal_on :
    (e : Entry)
    → e.has_selection ≡ true
    → IsValid e
    → (r : List Bytes × Entry) × (delete_selection (split_raw e.raw) e ≡ some r) × Removes e r
unfolding left_part right_part removed
removal_on e on h =
    let ((first, at_first, in_first), (last, at_last, in_last)) = selection-InText e h in
    let lines = split_raw e.raw in
    let from = (selection e).0 in
    let to = (selection e).1 in
    let left = cut_out from to first last lines in
    let taken : cut_lines from to lines ≡ some (left, from) =
      cut_lines-lem from to lines at_first in_first at_last in_last in
    let taken' =
      subst (λ (q : Pos × Pos). cut_lines q.0 q.1 lines ≡ some (left, from)) (selection_on e on)
        taken in
    (
      removed left from e,
      delete_selection_on lines left from e on taken',
      (
        cut_out-Leaves from to lines (split_raw-IsLines e.raw) at_first in_first at_last,
        refl,
        refl,
      ),
    )

pub delete_selection-Removes :
    (e : Entry)
    → IsValid e
    → (r : List Bytes × Entry) × (delete_selection (split_raw e.raw) e ≡ some r) × Removes e r
delete_selection-Removes e h = elim (Bool-cases e.has_selection) [
  | inl on ↦ removal_on e on h
  | inr off ↦ removal_off e off h
]
