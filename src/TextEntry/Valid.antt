-- ===== src/TextEntry/Valid.antt =====
-- The entries of textviewentry.go whose cursor and selection stand in the text, and the two parts of
-- the text that the selection stands between.
use shiv.Prelude.{
  if◌then◌else◌, Bool-cases, length, ◌≤◌, ◌≡◌, refl, sym, subst, inl, inr, Bool, true, false,
}
use shiv.Text.{Bytes}
use shiv.TextEntry.Lines.{split_raw, after_pos, Pos}
use shiv.TextEntry.State.{max_undo, normalise_selection, Entry}
use shiv.TextEntry.Flat.{before, after, InText}

-- The stretch that an edit replaces: the selection, or nothing at the cursor.
unfoldable pub selection : Entry → Pos × Pos
unfolding normalise_selection
selection e = if e.has_selection then normalise_selection e else (e.cursor, e.cursor)

unfoldable pub left_part : Entry → Bytes
unfolding selection
left_part e = before (split_raw e.raw) (selection e).0

unfoldable pub right_part : Entry → Bytes
unfolding selection
right_part e = after (split_raw e.raw) (selection e).1

abbrev pub When {ℓ} : Bool → Type ℓ → Type ℓ
When true P = P
When false P = Unit

abbrev pub IsValid : Entry → Type 0
IsValid e =
    InText (split_raw e.raw) e.cursor
    × When e.has_selection (InText (split_raw e.raw) e.sel_anchor × InText (split_raw e.raw) e.sel)
    × (length e.undo_stack ≤ max_undo)

pub selection_on : (e : Entry) → e.has_selection ≡ true → selection e ≡ normalise_selection e
unfolding selection
selection_on e h = rw h refl

pub selection_off : (e : Entry) → e.has_selection ≡ false → selection e ≡ (e.cursor, e.cursor)
unfolding selection
selection_off e h = rw h refl

if_both {ℓ κ} :
    {A : Type ℓ} (Q : A → Type κ) (b : Bool) {x y : A} → Q x → Q y → Q (if b then x else y)
if_both Q true p q = p
if_both Q false p q = q

-- What holds of both ends holds of them in the order of the text.
pub normalise_selection-both {ℓ} :
    (P : Pos → Type ℓ) (e : Entry)
    → P e.sel_anchor
    → P e.sel
    → P (normalise_selection e).0 × P (normalise_selection e).1
unfolding normalise_selection
normalise_selection-both P e a c =
    if_both (λ (q : Pos × Pos). P q.0 × P q.1) (after_pos e.sel_anchor e.sel) (c, a) (a, c)

pub selection-InText :
    (e : Entry)
    → IsValid e
    → InText (split_raw e.raw) (selection e).0 × InText (split_raw e.raw) (selection e).1
selection-InText e h =
    let Both = λ (p : Pos × Pos). InText (split_raw e.raw) p.0 × InText (split_raw e.raw) p.1 in
    elim (Bool-cases e.has_selection) [
      | inl on ↦
          let ends =
            subst
              (λ b. When b (InText (split_raw e.raw) e.sel_anchor × InText (split_raw e.raw) e.sel))
              on h.1 in
          subst Both (sym (selection_on e on))
            (normalise_selection-both (InText (split_raw e.raw)) e ends.0 ends.1)
      | inr off ↦ subst Both (sym (selection_off e off)) (h.0, h.0)
    ]
