-- ===== src/TextEntry/Parts.antt =====
-- Lines without line ends, and what an entry of textviewentry.go shows of its lines.
use shiv.Prelude.{
  length, take, drop, All-append, ℕ, zero, suc, ◌≤◌, ◌≡◌, refl, sym, ap, ◌∙◌, subst, false, List,
  [], ◌∷◌, ◌++◌, arith,
}
use shiv.Text.{Bytes, same, contains_byte}
use shiv.Text.Split.{Lacks, Lacks-append}
use shiv.TextEntry.Lines.{split_raw, join_lines, Pos}
use shiv.TextEntry.Lines.Split.{IsLine, IsLines, split_raw-join_lines}
use shiv.TextEntry.State.{max_undo, Entry}
use shiv.TextEntry.Flat.{InText, before-append-after, Stands}
use shiv.TextEntry.Valid.{left_part, right_part, IsValid, selection_off}

pub Lacks-take : (b n : ℕ) (s : Bytes) → Lacks b s → Lacks b (take n s)
unfolding contains_byte
Lacks-take b zero s h = refl
Lacks-take b (suc n) [] h = refl
Lacks-take b (suc n) (c ∷ s) h = ground (arith, Lacks-take b n s)

pub Lacks-drop : (b n : ℕ) (s : Bytes) → Lacks b s → Lacks b (drop n s)
unfolding contains_byte
Lacks-drop b zero s h = h
Lacks-drop b (suc n) [] h = refl
Lacks-drop b (suc n) (c ∷ s) h = Lacks-drop b n s (ground arith)

pub IsLine-append : (x y : Bytes) → IsLine x → IsLine y → IsLine (x ++ y)
IsLine-append x y h k = (Lacks-append b'\n' x y h.0 k.0, Lacks-append b'\r' x y h.1 k.1)

pub IsLine-take : (n : ℕ) (x : Bytes) → IsLine x → IsLine (take n x)
IsLine-take n x h = (Lacks-take b'\n' n x h.0, Lacks-take b'\r' n x h.1)

pub IsLine-drop : (n : ℕ) (x : Bytes) → IsLine x → IsLine (drop n x)
IsLine-drop n x h = (Lacks-drop b'\n' n x h.0, Lacks-drop b'\r' n x h.1)

pub IsLines-take : (n : ℕ) (ls : List Bytes) → IsLines ls → IsLines (take n ls)
IsLines-take zero ls h = tt
IsLines-take (suc n) [] h = tt
IsLines-take (suc n) (l ∷ ls) h = (h.0, IsLines-take n ls h.1)

pub IsLines-drop : (n : ℕ) (ls : List Bytes) → IsLines ls → IsLines (drop n ls)
IsLines-drop zero ls h = h
IsLines-drop (suc n) [] h = tt
IsLines-drop (suc n) (l ∷ ls) h = IsLines-drop n ls h.1

-- The lines up to `l`, with others behind.
pub IsLines-splice :
    (l : ℕ) (lines rest : List Bytes)
    → IsLines lines
    → IsLines rest
    → IsLines (take l lines ++ rest)
IsLines-splice l lines rest h k = All-append IsLine (take l lines) rest (IsLines-take l lines h) k

-- What an entry shows: no selection, and a cursor between two texts.
abbrev pub Shows : Entry → Bytes → Bytes → Type 0
Shows e left right =
    IsValid e
    × (e.has_selection ≡ false)
    × (left_part e ≡ left)
    × (right_part e ≡ right)
    × (e.raw ≡ left ++ right)

-- The lines that an edit leaves, and its place in them.
abbrev pub Leaves : List Bytes → Pos → Bytes → Bytes → Type 0
Leaves lines p left right = IsLines lines × Stands lines p left right

Shows-split_raw :
    (e : Entry) (lines : List Bytes) {left right : Bytes}
    → split_raw e.raw ≡ lines
    → e.raw ≡ join_lines lines
    → Stands lines e.cursor left right
    → e.has_selection ≡ false
    → length e.undo_stack ≤ max_undo
    → Shows e left right
unfolding left_part right_part
Shows-split_raw e lines {left} {right} same raw (in_text, front, behind) off bound =
    let here = subst (λ ls. InText ls e.cursor) (sym same) in_text in
    let front' : left_part e ≡ left = rw (selection_off e off, same) front in
    let behind' : right_part e ≡ right = rw (selection_off e off, same) behind in
    (
      (here, rw off tt, bound),
      off,
      front',
      behind',
      raw ∙ before-append-after lines e.cursor in_text ∙ rw (front, behind) refl,
    )

pub Shows-lem :
    (e : Entry) (lines : List Bytes) (p : Pos) {left right : Bytes}
    → Leaves lines p left right
    → e.raw ≡ join_lines lines
    → e.cursor ≡ p
    → e.has_selection ≡ false
    → length e.undo_stack ≤ max_undo
    → Shows e left right
Shows-lem e [] p (all_lines, ((r, h, c), front, behind)) raw at off bound = absurd (ground arith)
Shows-lem e (l ∷ ls) p {left} {right} (all_lines, stands) raw at off bound =
    Shows-split_raw e (l ∷ ls) (ap split_raw raw ∙ split_raw-join_lines l ls all_lines) raw
      (subst (λ q. Stands (l ∷ ls) q left right) (sym at) stands) off bound
