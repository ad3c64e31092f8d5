-- ===== src/TextEntry/Pressed.antt =====
-- What a key does to an entry whose cursor stands in the text, where nothing is selected: the place
-- that `TypedKey` reads, and the edit that the key makes of it.
use mathlib.Core.Option
use shiv.Prelude.{
  ltb, length, get_elem?, set, take, drop, ℕ, zero, suc, ◌-◌, ◌≤◌, ◌≡◌, refl, sym, ap, ◌∙◌, subst,
  true, false, some, List, [], ◌∷◌, ◌++◌, append_assoc, arith,
}
use shiv.Text.{Bytes}
use shiv.TextEntry.Lines.{lf, split_raw, join_lines, pos, Pos}
use shiv.TextEntry.Lines.Split.{IsLine, IsLines}
use shiv.TextEntry.State.{push_undo, commit_lines, save, place, Entry}
use shiv.TextEntry.Flat.{before_at, before, after, after-lem, start, before-start}
use shiv.TextEntry.Replace.{place-lem, Stands-splice}
use shiv.TextEntry.Valid.{left_part, right_part, IsValid, selection_off}
use shiv.TextEntry.Parts.{IsLine-append, IsLines-splice, Leaves}
use shiv.TextEntry.Removal.{Stands-as}
use shiv.TextEntry.Edited.{Edited, saved-Edited}
use shiv.TextEntry.Spot.{spot, cancel_shift, edit, Spot}
use shiv.TextEntry.Edits.{backspace_plain, delete_plain, backspace_key, delete_key}
use shiv.TextEntry.Keys.{key_action, typed_key, Key}
use shiv.TextEntry.Visual.{ensure_cursor_visible}

-- What `TypedKey` reads of an entry whose cursor stands in the text.
abbrev pub spotted : Entry → Bytes → Spot
spotted e r = record { lines = split_raw e.raw; cl = e.cursor.line; cc = e.cursor.col; runes = r }

pub typed_key_at :
    (cpl visible : ℕ) (k : Key) (e : Entry) {r : Bytes}
    → get_elem? (split_raw e.raw) e.cursor.line ≡ some r
    → e.cursor.col ≤ length r
    → typed_key cpl visible k e
      ≡ Option.map (ensure_cursor_visible cpl visible) (key_action cpl visible k (spotted e r) e)
unfolding typed_key spot place
typed_key_at cpl visible k e {r} h in_line =
    let here = place-lem (split_raw e.raw) e.cursor h in_line in ground arith

pub before_first : (lines : List Bytes) → before_at 0 0 lines ≡ []
unfolding before_at
before_first [] = refl
before_first (x ∷ xs) = refl

pub start-next :
    (lines : List Bytes) (l : ℕ) {r : Bytes}
    → get_elem? lines l ≡ some r
    → start lines (suc l) ≡ (start lines l ++ r) ++ lf
unfolding start before_at
start-next [] l h = absurd (ground arith)
start-next (x ∷ xs) zero {r} h =
    let same : x ≡ r = cc in ap (λ t. x ++ (lf ++ t)) (before_first xs) ∙ ap (λ t. t ++ lf) same
start-next (x ∷ xs) (suc l) {r} h =
    ap (λ t. x ++ (lf ++ t)) (start-next xs l h)
    ∙ sym (
        ap (λ t. t ++ lf) (append_assoc x (lf ++ before_at 0 l xs) r)
        ∙ append_assoc x (lf ++ (before_at 0 l xs ++ r)) lf)

-- The line `l` made of two texts, with the cursor between.
pub two-Leaves :
    (lines : List Bytes) (l n : ℕ) (front x : Bytes) (rest : List Bytes)
    {before_it behind_it : Bytes}
    → IsLines lines
    → IsLine front
    → IsLine x
    → IsLines rest
    → l ≤ length lines
    → n ≡ length front
    → start lines l ++ front ≡ before_it
    → join_lines (x ∷ rest) ≡ behind_it
    → Leaves (take l lines ++ (front ++ x) ∷ rest) (pos l n) before_it behind_it
two-Leaves lines l n front x rest all h k others in_text size left_of right_of = (
  IsLines-splice l lines ((front ++ x) ∷ rest) all (IsLine-append front x h k, others),
  Stands-as (take l lines ++ (front ++ x) ∷ rest) (pos l n)
      (Stands-splice lines l n front x rest in_text size) left_of right_of,
)

pub delete_inside :
    (s : Spot) (e : Entry)
    → e.has_selection ≡ false
    → ltb s.cc (length s.runes) ≡ true
    → delete_key s e
      ≡ some (
          cancel_shift (
            edit s e.cursor
              (set s.lines s.cl (take s.cc s.runes ++ drop (suc s.cc) s.runes))
              e.cursor
              e))
unfolding delete_key delete_plain
delete_inside s e off inside = ground arith

pub delete_at_end :
    (s : Spot) (e : Entry) {next : Bytes}
    → e.has_selection ≡ false
    → ltb s.cc (length s.runes) ≡ false
    → ltb s.cl (length s.lines - 1) ≡ true
    → get_elem? s.lines (suc s.cl) ≡ some next
    → delete_key s e
      ≡ some (
          cancel_shift (
            edit s e.cursor
              (take s.cl s.lines ++ (s.runes ++ next) ∷ drop (suc (suc s.cl)) s.lines)
              e.cursor
              e))
unfolding delete_key delete_plain
delete_at_end s e off at_end more next = ground arith

pub backspace_inside :
    (s : Spot) (e : Entry)
    → e.has_selection ≡ false
    → ltb 0 s.cc ≡ true
    → backspace_key s e
      ≡ some (
          cancel_shift (
            edit s e.cursor
              (set s.lines s.cl (take (s.cc - 1) s.runes ++ drop s.cc s.runes))
              (pos e.cursor.line (s.cc - 1))
              e))
unfolding backspace_key backspace_plain
backspace_inside s e off inside = ground arith

pub backspace_at_start :
    (s : Spot) (e : Entry) {before_it : Bytes}
    → e.has_selection ≡ false
    → ltb 0 s.cc ≡ false
    → ltb 0 s.cl ≡ true
    → get_elem? s.lines (s.cl - 1) ≡ some before_it
    → backspace_key s e
      ≡ some (
          cancel_shift (
            edit s e.cursor
              (take (s.cl - 1) s.lines ++ (before_it ++ s.runes) ∷ drop (suc s.cl) s.lines)
              (pos (s.cl - 1) (length before_it))
              e))
unfolding backspace_key backspace_plain
backspace_at_start s e off at_start more last = ground arith

module _ (cpl visible : ℕ) (e : Entry) (h : IsValid e) (off : e.has_selection ≡ false) where
  -- An edit of a key, which leaves `lines` with the cursor at `p`.
  edit-Edited :
      (r : Bytes) (lines : List Bytes) (p : Pos) {before_it behind_it : Bytes}
      → Leaves lines p before_it behind_it
      → Edited e before_it behind_it (
          some (
            ensure_cursor_visible cpl visible
              (cancel_shift (edit (spotted e r) e.cursor lines p e))))
  unfolding edit save push_undo commit_lines cancel_shift
  edit-Edited r lines p leaves =
      saved-Edited cpl visible e e (cancel_shift (edit (spotted e r) e.cursor lines p e)) lines p h
        refl leaves refl refl refl refl

  pub key-Edited :
      (k : Key) (r : Bytes) (lines : List Bytes) (p : Pos) {before_it behind_it : Bytes}
      → get_elem? (split_raw e.raw) e.cursor.line ≡ some r
      → e.cursor.col ≤ length r
      → key_action cpl visible k (spotted e r) e
        ≡ some (cancel_shift (edit (spotted e r) e.cursor lines p e))
      → Leaves lines p before_it behind_it
      → Edited e before_it behind_it (typed_key cpl visible k e)
  key-Edited k r lines p {before_it} {behind_it} here in_line result leaves =
      subst (Edited e before_it behind_it)
        (sym (
          typed_key_at cpl visible k e here in_line
          ∙ ap (Option.map (ensure_cursor_visible cpl visible)) result))
        (edit-Edited r lines p leaves)

  pub right_of :
      {r : Bytes}
      → get_elem? (split_raw e.raw) e.cursor.line ≡ some r
      → right_part e ≡ join_lines (drop e.cursor.col r ∷ drop (suc e.cursor.line) (split_raw e.raw))
  unfolding right_part
  right_of here =
      ap (λ q. after (split_raw e.raw) q.1) (selection_off e off)
      ∙ after-lem (split_raw e.raw) e.cursor here

  pub left_of :
      {r : Bytes}
      → get_elem? (split_raw e.raw) e.cursor.line ≡ some r
      → left_part e ≡ start (split_raw e.raw) e.cursor.line ++ take e.cursor.col r
  unfolding left_part
  left_of here =
      ap (λ q. before (split_raw e.raw) q.0) (selection_off e off)
      ∙ before-start (split_raw e.raw) e.cursor here
