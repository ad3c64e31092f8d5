-- ===== src/TextEntry/Walking.antt =====
-- `TypedKey` of textviewentry.go on the arrow keys, home and end, with and without shift.
use mathlib.Core.Option
use shiv.Prelude.{
  if◌then◌else◌, Bool-cases, length, get_elem?, ℕ, ◌≤◌, ◌≡◌, refl, sym, ap, ◌∙◌, subst, inl, inr,
  Bool, true, false, Option, some, arith,
}
use shiv.Text.{Bytes, same}
use shiv.TextEntry.Lines.{split_raw, Pos}
use shiv.TextEntry.State.{max_undo, normalise_selection, Entry}
use shiv.TextEntry.Flat.{InText}
use shiv.TextEntry.Valid.{When, IsValid, normalise_selection-both}
use shiv.TextEntry.Edited.{scrolled}
use shiv.TextEntry.Pressed.{spotted, typed_key_at}
use shiv.TextEntry.Spot.{begin_shift, update_shift, cancel_shift}
use shiv.TextEntry.Moves.{
  move_left, move_right, move_up, move_down, move_home, move_end, extend, step_key, line_key,
}
use shiv.TextEntry.Keys.{
  key_action, typed_key, Key, backspace, delete, enter, tab, arrow_left, arrow_right, arrow_up,
  arrow_down, home, end, pg_up, pg_down, other_key,
}
use shiv.TextEntry.Visual.{ensure_cursor_visible}
use shiv.TextEntry.Moving.{
  Reads, Lands, move_up-Lands, move_down-Lands, move_left-Lands, move_right-Lands, move_home-Lands,
  move_end-Lands,
}

-- While the shift key selects, the place where it began stands in the text too.
abbrev pub IsHeld : Entry → Type 0
IsHeld e = IsValid e × When e.shift_selecting (InText (split_raw e.raw) e.sel_anchor)

-- The result has the same text and the same entries to return to.
abbrev pub Walks : Entry → Option Entry → Type 0
Walks e o =
    (e' : Entry) × (o ≡ some e') × (e'.raw ≡ e.raw) × (e'.undo_stack ≡ e.undo_stack) × IsHeld e'

abbrev pub is_walk : Key → Bool
is_walk backspace = false
is_walk delete = false
is_walk enter = false
is_walk tab = false
is_walk pg_up = false
is_walk pg_down = false
is_walk other_key = false
is_walk arrow_left = true
is_walk arrow_right = true
is_walk arrow_up = true
is_walk arrow_down = true
is_walk home = true
is_walk end = true

when {ℓ} : (b : Bool) {P : Type ℓ} → P → When b P
when true p = p
when false p = tt

if_true {ℓ} : {A : Type ℓ} (b : Bool) (x y : A) → b ≡ true → (if b then x else y) ≡ x
if_true b x y h = ap (λ c. if c then x else y) h

if_false {ℓ} : {A : Type ℓ} (b : Bool) (x y : A) → b ≡ false → (if b then x else y) ≡ y
if_false b x y h = ap (λ c. if c then x else y) h

both_at {ℓ} :
    (b : Bool) {P Q P' Q' : Type ℓ} → (P × Q → P' × Q') → When b (P × Q) → When b P' × When b Q'
both_at true f h = f h
both_at false f h = (tt, tt)

module _ (e : Entry) (r : Bytes) (h : IsHeld e)
    (here : get_elem? (split_raw e.raw) e.cursor.line ≡ some r)
    (inside : e.cursor.col ≤ length r) where
  begun :
      ((begin_shift (spotted e r) e).cursor ≡ e.cursor)
      × ((begin_shift (spotted e r) e).raw ≡ e.raw)
      × ((begin_shift (spotted e r) e).undo_stack ≡ e.undo_stack)
      × InText (split_raw e.raw) (begin_shift (spotted e r) e).sel_anchor
  unfolding begin_shift
  begun = elim (Bool-cases e.shift_selecting) [
    | inl on ↦
        let anchor = subst (λ b. When b (InText (split_raw e.raw) e.sel_anchor)) on h.1 in
        rw on (refl, refl, refl, anchor)
    | inr off ↦ rw off (refl, refl, refl, (r, here, inside))
  ]

  extend-Walks :
      (move : Entry → Option Entry)
      → ((e1 : Entry) → Reads (spotted e r) e1 → Lands (spotted e r) e1 (move e1))
      → Walks e (extend (spotted e r) move e)
  unfolding extend update_shift
  extend-Walks move lands =
      let s = spotted e r in
      let e1 = begin_shift s e in
      let (cursor, raw, stack, anchor) = begun in
      let (p, landed, there) =
        lands e1 (ap Pos.line (sym cursor), ap Pos.col (sym cursor), here, inside) in
      let e' = update_shift (record e1 { cursor = p }) in
      let in_text = subst (λ t. InText (split_raw t) p) (sym raw) there in
      let held = subst (λ t. InText (split_raw t) e1.sel_anchor) (sym raw) anchor in
      let bound = subst (λ x. length x ≤ max_undo) (sym stack) h.0.2 in
      (
        e',
        ap (Option.map update_shift) landed,
        raw,
        stack,
        ((in_text, when e'.has_selection (held, in_text), bound), when e1.shift_selecting held),
      )

  line_key-Walks :
      (move : Entry → Option Entry)
      → ((e1 : Entry) → Reads (spotted e r) e1 → Lands (spotted e r) e1 (move e1))
      → Walks e (line_key (spotted e r) move e)
  unfolding line_key cancel_shift
  line_key-Walks move lands = elim (Bool-cases e.shift_held) [
    | inl on ↦ subst (Walks e) (sym (if_true e.shift_held _ _ on)) (extend-Walks move lands)
    | inr off ↦
        let (p, landed, there) = lands (cancel_shift e) (refl, refl, here, inside) in
        (
          record (cancel_shift e) { cursor = p },
          if_false e.shift_held _ _ off ∙ landed,
          refl,
          refl,
          ((there, tt, h.0.2), tt),
        )
  ]

  -- Left and right, with the end of the selection where the cursor goes.
  step_key-Walks :
      (move : Entry → Option Entry) (side : Pos)
      → ((e1 : Entry) → Reads (spotted e r) e1 → Lands (spotted e r) e1 (move e1))
      → When e.has_selection (InText (split_raw e.raw) side)
      → Walks e (step_key (spotted e r) move side e)
  unfolding step_key cancel_shift
  step_key-Walks move side lands at_side = elim (Bool-cases e.shift_held) [
    | inl on ↦ subst (Walks e) (sym (if_true e.shift_held _ _ on)) (extend-Walks move lands)
    | inr off ↦ elim (Bool-cases e.has_selection) [
      | inl on ↦
          let there = subst (λ b. When b (InText (split_raw e.raw) side)) on at_side in
          (
            cancel_shift (record e { cursor = side }),
            if_false e.shift_held _ _ off ∙ if_true e.has_selection _ _ on,
            refl,
            refl,
            ((there, tt, h.0.2), tt),
          )
      | inr none_on ↦
          let (p, landed, there) = lands e (refl, refl, here, inside) in
          (
            record e { cursor = p },
            if_false e.shift_held _ _ off ∙ if_false e.has_selection _ _ none_on ∙ landed,
            refl,
            refl,
            ((there, h.0.1, h.0.2), h.1),
          )
    ]
  ]

  ends :
      When e.has_selection (InText (split_raw e.raw) (normalise_selection e).0)
      × When e.has_selection (InText (split_raw e.raw) (normalise_selection e).1)
  ends =
      both_at e.has_selection
        (λ pq. normalise_selection-both (InText (split_raw e.raw)) e pq.0 pq.1) h.0.1

  key_action-Walks :
      (cpl visible : ℕ) (k : Key)
      → is_walk k ≡ true
      → Walks e (key_action cpl visible k (spotted e r) e)
  unfolding key_action
  key_action-Walks cpl visible backspace w = absurd (ground arith)
  key_action-Walks cpl visible delete w = absurd (ground arith)
  key_action-Walks cpl visible enter w = absurd (ground arith)
  key_action-Walks cpl visible tab w = absurd (ground arith)
  key_action-Walks cpl visible pg_up w = absurd (ground arith)
  key_action-Walks cpl visible pg_down w = absurd (ground arith)
  key_action-Walks cpl visible other_key w = absurd (ground arith)
  key_action-Walks cpl visible arrow_left w =
      step_key-Walks (move_left (spotted e r)) (normalise_selection e).0
        (move_left-Lands (spotted e r)) ends.0
  key_action-Walks cpl visible arrow_right w =
      step_key-Walks (move_right (spotted e r)) (normalise_selection e).1
        (move_right-Lands (spotted e r)) ends.1
  key_action-Walks cpl visible arrow_up w =
      line_key-Walks (move_up (spotted e r)) (move_up-Lands (spotted e r))
  key_action-Walks cpl visible arrow_down w =
      line_key-Walks (move_down (spotted e r)) (move_down-Lands (spotted e r))
  key_action-Walks cpl visible home w =
      line_key-Walks (move_home (spotted e r)) (move_home-Lands (spotted e r))
  key_action-Walks cpl visible end w =
      line_key-Walks (move_end (spotted e r)) (move_end-Lands (spotted e r))

-- Scrolling to the cursor changes nothing of it.
scrolled-Walks :
    (cpl visible : ℕ) (e : Entry) (o : Option Entry)
    → Walks e o
    → Walks e (Option.map (ensure_cursor_visible cpl visible) o)
scrolled-Walks cpl visible e o (e', result, raw, stack, held) =
    let (n, same) = scrolled cpl visible e' in
    (
      record e' { scroll_offset = n },
      ap (Option.map (ensure_cursor_visible cpl visible)) result ∙ ap some same,
      raw,
      stack,
      held,
    )

-- From an entry whose cursor and selection stand in the text, and where the shift key selects, the
-- place where it began, the arrow keys, home and end lead to such an entry again, with or without the
-- shift key held. They do not panic, and change neither the text nor what can be undone.
pub typed_key-Walks :
    (cpl visible : ℕ) (k : Key) (e : Entry)
    → is_walk k ≡ true
    → IsHeld e
    → Walks e (typed_key cpl visible k e)
typed_key-Walks cpl visible k e w h =
    let (r, here, inside) = h.0.0 in
    subst (Walks e) (sym (typed_key_at cpl visible k e here inside)) (
      scrolled-Walks cpl visible e (key_action cpl visible k (spotted e r) e)
        (key_action-Walks e r h here inside cpl visible k w))
