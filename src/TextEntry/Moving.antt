-- ===== src/TextEntry/Moving.antt =====
-- The moves of the cursor in `TypedKey` of textviewentry.go, one by one.
use shiv.Prelude.{
  ltb, ltb→lt, Bool-cases, length, get_elem?, get_elem?-some, ℕ, suc, ◌+◌, ◌-◌, ◌≤◌, ◌<◌, ◌≡◌, refl,
  sym, ap, ◌∙◌, inl, inr, Option, some, arith,
}
use shiv.Text.{Bytes}
use shiv.TextEntry.Lines.{pos, clamp_col, Pos}
use shiv.TextEntry.State.{Entry}
use shiv.TextEntry.Flat.{InText}
use shiv.TextEntry.Replace.{get_elem?-lt}
use shiv.TextEntry.Spot.{Spot}
use shiv.TextEntry.Moves.{move_left, move_right, to_line, move_up, move_down, move_home, move_end}

-- The spot of an entry whose cursor stands in the text, as `TypedKey` reads it.
abbrev pub Reads : Spot → Entry → Type 0
Reads s e =
    (s.cl ≡ e.cursor.line)
    × (s.cc ≡ e.cursor.col)
    × (get_elem? s.lines s.cl ≡ some s.runes)
    × (s.cc ≤ length s.runes)

-- A move leads to a place in the text, and changes nothing else.
abbrev pub Lands : Spot → Entry → Option Entry → Type 0
Lands s e o = (p : Pos) × (o ≡ some (record e { cursor = p })) × InText s.lines p

stays : (s : Spot) (e : Entry) → Reads s e → Lands s e (some e)
stays s e (line, col, here, inside) =
    (e.cursor, refl, (s.runes, ap (get_elem? s.lines) (sym line) ∙ here, omega arith))

goes :
    (s : Spot) (e : Entry) (l c : ℕ) (r : Bytes) (o : Option Entry)
    → o ≡ some (record e { cursor = pos l c })
    → get_elem? s.lines l ≡ some r
    → c ≤ length r
    → Lands s e o
goes s e l c r o h here inside = (pos l c, h, (r, here, inside))

on_line : (s : Spot) (e : Entry) → Reads s e → get_elem? s.lines e.cursor.line ≡ some s.runes
on_line s e (line, col, here, inside) = ap (get_elem? s.lines) (sym line) ∙ here

to_line-Lands : (s : Spot) (l : ℕ) (e : Entry) → l < length s.lines → Lands s e (to_line s l e)
unfolding to_line clamp_col
to_line-Lands s l e h =
    let (r, here) = get_elem?-some s.lines l h in
    goes s e l (clamp_col r e.cursor.col) r (to_line s l e) (ground arith) here (ground arith)

pub move_up-Lands : (s : Spot) (e : Entry) → Reads s e → Lands s e (move_up s e)
unfolding move_up
move_up-Lands s e h = elim (Bool-cases (ltb 0 s.cl)) [
  | inl more ↦
      let lt = get_elem?-lt s.lines s.cl h.2 in
      rw more (to_line-Lands s (e.cursor.line - 1) e (omega (arith, h.0, lt)))
  | inr first ↦ rw first (stays s e h)
]

pub move_down-Lands : (s : Spot) (e : Entry) → Reads s e → Lands s e (move_down s e)
unfolding move_down
move_down-Lands s e h = elim (Bool-cases (ltb s.cl (length s.lines - 1))) [
  | inl more ↦
      let lt = ltb→lt s.cl (length s.lines - 1) more in
      rw more (to_line-Lands s (suc e.cursor.line) e (omega (arith, h.0, lt)))
  | inr last ↦ rw last (stays s e h)
]

pub move_left-Lands : (s : Spot) (e : Entry) → Reads s e → Lands s e (move_left s e)
unfolding move_left
move_left-Lands s e (line, col, here, inside) = elim (Bool-cases (ltb 0 s.cc)) [
  | inl in_line ↦
      goes s e e.cursor.line (e.cursor.col - 1) s.runes (move_left s e) (ground arith)
        (ap (get_elem? s.lines) (sym line) ∙ here) (omega arith)
  | inr at_start ↦ elim (Bool-cases (ltb 0 s.cl)) [
    | inl more ↦
        let lt = get_elem?-lt s.lines s.cl here in
        let (r, above) = get_elem?-some s.lines (e.cursor.line - 1) (omega arith) in
        goes s e (e.cursor.line - 1) (length r) r (move_left s e) (ground arith) above (omega arith)
    | inr first ↦ rw (at_start, first) (stays s e (line, col, here, inside))
  ]
]

pub move_right-Lands : (s : Spot) (e : Entry) → Reads s e → Lands s e (move_right s e)
unfolding move_right
move_right-Lands s e (line, col, here, inside) = elim (Bool-cases (ltb s.cc (length s.runes))) [
  | inl in_line ↦
      let lt = ltb→lt s.cc (length s.runes) in_line in
      goes s e e.cursor.line (e.cursor.col + 1) s.runes (move_right s e) (rw in_line refl)
        (ap (get_elem? s.lines) (sym line) ∙ here) (omega arith)
  | inr at_end ↦ elim (Bool-cases (ltb s.cl (length s.lines - 1))) [
    | inl more ↦
        let lt = ltb→lt s.cl (length s.lines - 1) more in
        let (r, below) = get_elem?-some s.lines (suc e.cursor.line) (omega arith) in
        goes s e (suc e.cursor.line) 0 r (move_right s e) (rw (at_end, more) refl) below
          (omega arith)
    | inr last ↦ rw (at_end, last) (stays s e (line, col, here, inside))
  ]
]

pub move_home-Lands : (s : Spot) (e : Entry) → Reads s e → Lands s e (move_home s e)
unfolding move_home
move_home-Lands s e h =
    goes s e e.cursor.line 0 s.runes (move_home s e) refl (on_line s e h) (omega arith)

pub move_end-Lands : (s : Spot) (e : Entry) → Reads s e → Lands s e (move_end s e)
unfolding move_end
move_end-Lands s e h =
    goes s e e.cursor.line (length s.runes) s.runes (move_end s e) refl (on_line s e h)
      (omega arith)
