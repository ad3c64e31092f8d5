-- ===== src/TextEntry/Edited.antt =====
-- What `pushUndo`, `commitLines` and undo of textviewentry.go come to, for any edit.
use shiv.Prelude.{
  ltb, leb, ◌==◌, if◌then◌else◌, Bool-cases, length, take, length-take, ℕ, ◌+◌, ◌-◌, ◌≤◌, ◌<◌, ◌≡◌,
  refl, sym, subst, inl, inr, false, Option, some, List, ◌∷◌, arith,
}
use shiv.Text.{Bytes, same}
use shiv.TextEntry.Lines.{split_raw, join_lines, Pos}
use shiv.TextEntry.Lines.Split.{split_raw-IsLines}
use shiv.TextEntry.State.{max_undo, UndoEntry, Entry}
use shiv.TextEntry.Flat.{before, after}
use shiv.TextEntry.Valid.{IsValid}
use shiv.TextEntry.Parts.{Shows, Leaves, Shows-lem}
use shiv.TextEntry.Shortcuts.{undo}
use shiv.TextEntry.Visual.{logical_to_visual, visual, ensure_cursor_visible}

-- What every edit leaves: a place between two texts, and the text before it to return to.

-- The result shows two texts, and undoing it shows the old text with the old cursor.
abbrev pub Edited : Entry → Bytes → Bytes → Option Entry → Type 0
Edited e left right o =
    (e' : Entry) × (o ≡ some e')
    × Shows e' left right
    × Shows (undo e') (before (split_raw e.raw) e.cursor) (after (split_raw e.raw) e.cursor)
    × ((undo e').cursor ≡ e.cursor)

abbrev pub saved : Entry → UndoEntry
saved e = record { raw = join_lines (split_raw e.raw); cursor = e.cursor }

-- The stack that an edit puts its entry on: the oldest goes where it is full.
abbrev pub kept : Entry → List UndoEntry
kept e =
    if leb max_undo (length e.undo_stack)
    then take (length e.undo_stack - 1) e.undo_stack
    else e.undo_stack

kept-lt : (e : Entry) → length e.undo_stack ≤ max_undo → length (kept e) < max_undo
kept-lt e h =
    let shorter = length-take (length e.undo_stack - 1) e.undo_stack in
    elim (Bool-cases (leb max_undo (length e.undo_stack))) [
      | inl full ↦ rw full (let size = shorter (omega arith) in ground arith)
      | inr room ↦ rw room (ground arith)
    ]

undo_fields :
    (e e' : Entry) (us : List UndoEntry)
    → e'.undo_stack ≡ saved e ∷ us
    → ((undo e').raw ≡ join_lines (split_raw e.raw))
      × ((undo e').cursor ≡ e.cursor)
      × ((undo e').has_selection ≡ false)
      × ((undo e').undo_stack ≡ us)
unfolding undo
undo_fields e e' us h = ground arith

undo-Shows :
    (e e' : Entry) (us : List UndoEntry)
    → IsValid e
    → length us ≤ max_undo
    → e'.undo_stack ≡ saved e ∷ us
    → Shows (undo e') (before (split_raw e.raw) e.cursor) (after (split_raw e.raw) e.cursor)
      × ((undo e').cursor ≡ e.cursor)
undo-Shows e e' us h bound stack =
    let (raw, at, off, older) = undo_fields e e' us stack in
    let bound' = subst (λ x. length x ≤ max_undo) (sym older) bound in
    (
      Shows-lem (undo e') (split_raw e.raw) e.cursor (split_raw-IsLines e.raw, (h.0, refl, refl))
          raw at off bound',
      at,
    )

module _ (cpl visible : ℕ) where
  -- Scrolling changes nothing else.
  pub scrolled :
      (e : Entry) → (n : ℕ) × (ensure_cursor_visible cpl visible e ≡ record e { scroll_offset = n })
  unfolding ensure_cursor_visible
  scrolled e =
      let v = (logical_to_visual (visual cpl e) e.cursor.line e.cursor.col).0 in
      elim (Bool-cases (visible == 0)) [
        | inl none_visible ↦ (e.scroll_offset, rw none_visible refl)
        | inr some_visible ↦ elim (Bool-cases (ltb v e.scroll_offset)) [
          | inl above ↦ (v, rw (some_visible, above) refl)
          | inr not_above ↦ elim (Bool-cases (leb (e.scroll_offset + visible) v)) [
            | inl below ↦ (v + 1 - visible, rw (some_visible, not_above, below) refl)
            | inr inside ↦ (e.scroll_offset, rw (some_visible, not_above, inside) refl)
          ]
        ]
      ]

  -- An edit that saves the text of `e`, leaves `lines`, and puts the cursor at `p`; `e1` is the entry
  -- that it starts from, behind the removal of the selection.
  pub saved-Edited :
      (e e1 e' : Entry) (lines : List Bytes) (p : Pos) {left right : Bytes}
      → IsValid e
      → e1.undo_stack ≡ e.undo_stack
      → Leaves lines p left right
      → e'.raw ≡ join_lines lines
      → e'.cursor ≡ p
      → e'.has_selection ≡ false
      → e'.undo_stack ≡ saved e ∷ kept e1
      → Edited e left right (some (ensure_cursor_visible cpl visible e'))
  saved-Edited e e1 e' lines p {left} {right} h older leaves raw at off stack =
      let (n, same) = scrolled e' in
      let e'' = record e' { scroll_offset = n } in
      let room = kept-lt e1 (subst (λ x. length x ≤ max_undo) (sym older) h.2) in
      let (shown, back_at) = undo-Shows e e'' (kept e1) h (omega arith) stack in
      let bound =
        subst (λ x. length x ≤ max_undo) (sym stack)
          (let b : length (saved e ∷ kept e1) ≤ max_undo = omega arith in b) in
      subst (λ x. Edited e left right (some x)) (sym same)
        (e'', refl, Shows-lem e'' lines p leaves raw at off bound, shown, back_at)
