-- ===== src/TextEntry/Cutting.antt =====
-- The cut of textviewentry.go: what the clipboard gets, and what stays.
use shiv.Prelude.{
  ◌==◌, if◌then◌else◌, Bool-cases, length, get_elem?, take, drop, take-append-drop, ℕ, zero, suc,
  ◌≤◌, ◌<◌, ◌≡◌, refl, sym, ap, ◌∙◌, subst, ◌⊎◌, inl, inr, true, false, some, List, [], ◌∷◌, ◌++◌,
  append_assoc, arith,
}
use shiv.Text.{Bytes, less}
use shiv.TextEntry.Lines.{split_raw, join_lines, after_pos, clamp_col, Pos}
use shiv.TextEntry.State.{
  push_undo, commit_lines, save, normalise_selection, delete_selection, Entry,
}
use shiv.TextEntry.Flat.{before, after, InText, before-append-after, start, before-start}
use shiv.TextEntry.Replace.{clamp_col-lem}
use shiv.TextEntry.Valid.{
  selection, left_part, right_part, When, IsValid, selection_on, normalise_selection-both,
}
use shiv.TextEntry.Removal.{delete_selection-Removes}
use shiv.TextEntry.Edited.{Edited, saved-Edited}
use shiv.TextEntry.Selected.{selected_between}
use shiv.TextEntry.Shortcuts.{selected_lines, selected_text, cut_key}
use shiv.TextEntry.Visual.{ensure_cursor_visible}

take-take : (m n : ℕ) (s : Bytes) → m ≤ n → take m (take n s) ≡ take m s
take-take zero n s h = refl
take-take (suc m) zero s h = absurd (omega arith)
take-take (suc m) (suc n) [] h = refl
take-take (suc m) (suc n) (c ∷ s) h = ap (◌∷◌ c) (take-take m n s (omega arith))

not_after : (p q : Pos) → after_pos p q ≡ true → after_pos q p ≡ false
unfolding after_pos
not_after p q h = ground arith

-- The ends stand in order.
in_order : (e : Entry) → after_pos (normalise_selection e).0 (normalise_selection e).1 ≡ false
unfolding normalise_selection
in_order e =
    let InOrder = λ (q : Pos × Pos). after_pos q.0 q.1 ≡ false in
    elim (Bool-cases (after_pos e.sel_anchor e.sel)) [
      | inl swapped ↦
          subst InOrder
            (ap (λ b. if b then (e.sel, e.sel_anchor) else (e.sel_anchor, e.sel)) (sym swapped))
            (not_after e.sel_anchor e.sel swapped)
      | inr kept_so ↦
          subst InOrder
            (ap (λ b. if b then (e.sel, e.sel_anchor) else (e.sel_anchor, e.sel)) (sym kept_so))
            kept_so
    ]

order_cases :
    (p q : Pos)
    → after_pos p q ≡ false
    → (((p.line == q.line) ≡ true) × (p.line ≡ q.line) × (p.col ≤ q.col))
      ⊎ (((p.line == q.line) ≡ false) × (p.line < q.line))
unfolding after_pos
order_cases p q h = elim (Bool-cases (p.line == q.line)) [
  | inl one ↦ inl (one, (ground arith), (ground arith))
  | inr two ↦ inr (two, ground arith)
]

selected_one :
    (e : Entry) {r : Bytes}
    → e.has_selection ≡ true
    → ((normalise_selection e).0.line == (normalise_selection e).1.line) ≡ true
    → get_elem? (split_raw e.raw) (normalise_selection e).0.line ≡ some r
    → (normalise_selection e).0.col ≤ length r
    → (normalise_selection e).1.col ≤ length r
    → selected_text e
      ≡ some (drop (normalise_selection e).0.col (take (normalise_selection e).1.col r))
unfolding selected_text clamp_col
selected_one e {r} on one here inside inside' =
    let to_in = clamp_col-lem r (normalise_selection e).1.col inside' in ground arith

selected_more :
    (e : Entry)
    → e.has_selection ≡ true
    → ((normalise_selection e).0.line == (normalise_selection e).1.line) ≡ false
    → selected_text e
      ≡ some
          (selected_lines (normalise_selection e).0 (normalise_selection e).1 0 (split_raw e.raw))
unfolding selected_text
selected_more e on more = ground arith

-- The text that is selected on one line.
one_between :
    (lines : List Bytes) (from to : Pos) {r : Bytes}
    → from.line ≡ to.line
    → from.col ≤ to.col
    → get_elem? lines from.line ≡ some r
    → get_elem? lines to.line ≡ some r
    → to.col ≤ length r
    → before lines from ++ (drop from.col (take to.col r) ++ after lines to) ≡ join_lines lines
one_between lines from to {r} one order here here' inside =
    let front = start lines from.line in
    let part = drop from.col (take to.col r) in
    let whole : take from.col r ++ part ≡ take to.col r =
      ap (λ t. t ++ part) (sym (take-take from.col to.col r order))
      ∙ take-append-drop from.col (take to.col r) in
    sym (append_assoc (before lines from) part (after lines to))
    ∙ ap (λ t. (t ++ part) ++ after lines to) (before-start lines from here)
    ∙ ap (λ t. t ++ after lines to) (append_assoc front (take from.col r) part)
    ∙ ap (λ t. (front ++ t) ++ after lines to) whole
    ∙ ap (λ l. (start lines l ++ take to.col r) ++ after lines to) one
    ∙ ap (λ t. t ++ after lines to) (sym (before-start lines to here'))
    ∙ sym (before-append-after lines to (r, here', inside))

more_between :
    (lines : List Bytes) (from to : Pos)
    → from.line < to.line
    → InText lines from
    → InText lines to
    → before lines from ++ (selected_lines from to 0 lines ++ after lines to) ≡ join_lines lines
unfolding before after
more_between lines from to less (r, here, inside) (r', here', inside') =
    selected_between from to 0 from.line to.line lines (omega arith) (omega arith) less here inside
      here' inside'

-- The selected text stands between the two parts.
text_between :
    (e : Entry)
    → e.has_selection ≡ true
    → IsValid e
    → (text : Bytes) × (selected_text e ≡ some text)
      × (left_part e ++ (text ++ right_part e) ≡ join_lines (split_raw e.raw))
unfolding left_part right_part
text_between e on h =
    let lines = split_raw e.raw in
    let ends = subst (λ b. When b (InText lines e.sel_anchor × InText lines e.sel)) on h.1 in
    let from = (normalise_selection e).0 in
    let to = (normalise_selection e).1 in
    let (at_from, at_to) = normalise_selection-both (InText lines) e ends.0 ends.1 in
    let parts : (text : Bytes)
        → (before lines from ++ (text ++ after lines to) ≡ join_lines lines)
        → (before lines (selection e).0 ++ (text ++ after lines (selection e).1)
            ≡ join_lines lines) =
      λ text k.
        subst (λ (q : Pos × Pos). before lines q.0 ++ (text ++ after lines q.1) ≡ join_lines lines)
          (sym (selection_on e on)) k in
    elim (order_cases from to (in_order e)) [
      | inl (test, one, order) ↦
          let (r, here', inside') = at_to in
          let here : get_elem? lines from.line ≡ some r = ap (get_elem? lines) one ∙ here' in
          (
            drop from.col (take to.col r),
            selected_one e on test here (omega arith) inside',
            parts (drop from.col (take to.col r))
                (one_between lines from to one order here here' inside'),
          )
      | inr (test, less) ↦ (
        selected_lines from to 0 lines,
        selected_more e on test,
        parts (selected_lines from to 0 lines) (more_between lines from to less at_from at_to),
      )
    ]

module _ (cpl visible : ℕ) where
  cut_after :
      (e e' : Entry) (lines : List Bytes) (text : Bytes)
      → e.has_selection ≡ true
      → selected_text e ≡ some text
      → delete_selection (split_raw e.raw) e ≡ some (lines, e')
      → cut_key cpl visible e
        ≡ some (
          some text,
          ensure_cursor_visible cpl visible (save (join_lines (split_raw e.raw)) e.cursor lines e'),
        )
  unfolding cut_key selected_text delete_selection
  cut_after e e' lines text on chosen removed = ground arith

  -- From an entry whose cursor and selection stand in the text, with something selected, the cut gives
  -- the clipboard exactly the text between the part in front of the selection and the part behind it,
  -- leaves these two parts, and can be undone. It does not panic.
  pub cut_key-Edited :
      (e : Entry)
      → e.has_selection ≡ true
      → IsValid e
      → (text : Bytes) × (e' : Entry) × (cut_key cpl visible e ≡ some (some text, e'))
        × (left_part e ++ (text ++ right_part e) ≡ join_lines (split_raw e.raw))
        × Edited e (left_part e) (right_part e) (some e')
  unfolding save push_undo commit_lines
  cut_key-Edited e on h =
      let ((lines, e'), removed, (leaves, off, stack)) = delete_selection-Removes e h in
      let (text, chosen, between) = text_between e on h in
      let e'' = save (join_lines (split_raw e.raw)) e.cursor lines e' in
      (
        text,
        ensure_cursor_visible cpl visible e'',
        cut_after e e' lines text on chosen removed,
        between,
        saved-Edited cpl visible e e' e'' lines e'.cursor h stack leaves refl refl off refl,
      )
