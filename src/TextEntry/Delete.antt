-- ===== src/TextEntry/Delete.antt =====
-- `TypedKey` of textviewentry.go on the delete key, where nothing is selected.
use shiv.Prelude.{
  ltb, ltb→lt, ltb→le, Bool-cases, Option-cases, length, get_elem?, set, take, drop, length-take,
  drop_all, All-get, ℕ, suc, ◌-◌, ◌<◌, ◌≡◌, sym, ap, ◌∙◌, ◌≢◌, inl, inr, true, false, none, some,
  [], ◌∷◌, ◌++◌, arith,
}
use shiv.Text.{Bytes, join}
use shiv.TextEntry.Lines.{lf, split_raw, join_lines}
use shiv.TextEntry.Lines.Split.{IsLine, split_raw-IsLines}
use shiv.TextEntry.State.{Entry}
use shiv.TextEntry.Flat.{join_lines-front, set-splice, join_lines-next, start}
use shiv.TextEntry.Replace.{get_elem?-lt}
use shiv.TextEntry.Valid.{left_part, right_part, IsValid}
use shiv.TextEntry.Parts.{IsLine-take, IsLine-drop, IsLines-drop}
use shiv.TextEntry.Slices.{drop-suc, take_all, drop-some, drop-none, tail_of}
use shiv.TextEntry.Edited.{Edited}
use shiv.TextEntry.Spot.{cancel_shift, edit}
use shiv.TextEntry.Keys.{key_action, typed_key, delete}
use shiv.TextEntry.Pressed.{
  spotted, two-Leaves, delete_inside, delete_at_end, key-Edited, right_of, left_of,
}

module _ (cpl visible : ℕ) (e : Entry) (h : IsValid e) (off : e.has_selection ≡ false) where
  -- Delete inside a line.
  delete_rune :
      (r : Bytes) (b : ℕ) (t : Bytes)
      → get_elem? (split_raw e.raw) e.cursor.line ≡ some r
      → e.cursor.col < length r
      → right_part e ≡ b ∷ t
      → Edited e (left_part e) t (typed_key cpl visible delete e)
  unfolding key_action
  delete_rune r b t here inside right =
      let lines = split_raw e.raw in
      let l = e.cursor.line in
      let n = e.cursor.col in
      let rest = drop (suc l) lines in
      let one = All-get IsLine lines l (split_raw-IsLines e.raw) here in
      let (y, taken) = drop-suc n r inside in
      let test : ltb n (length r) ≡ true = ground arith in
      let lines' = take l lines ++ (take n r ++ drop (suc n) r) ∷ rest in
      let same : set lines l (take n r ++ drop (suc n) r) ≡ lines' =
        set-splice lines l (take n r ++ drop (suc n) r) here in
      let tail : y ∷ join_lines (drop (suc n) r ∷ rest) ≡ b ∷ t =
        sym (join_lines-front (y ∷ []) (drop (suc n) r) rest)
        ∙ ap (λ x. join_lines (x ∷ rest)) (sym taken)
        ∙ sym (right_of cpl visible e h off here)
        ∙ right in
      key-Edited cpl visible e h off delete r lines' e.cursor here (omega arith)
        (let result : key_action cpl visible delete (spotted e r) e
              ≡ some (
                  cancel_shift (
                    edit (spotted e r) e.cursor (set lines l (take n r ++ drop (suc n) r)) e.cursor
                      e)) =
            delete_inside (spotted e r) e off test in
          result ∙ ap (λ ls. some (cancel_shift (edit (spotted e r) e.cursor ls e.cursor e))) same)
        (two-Leaves lines l n (take n r) (drop (suc n) r) rest (split_raw-IsLines e.raw)
          (IsLine-take n r one) (IsLine-drop (suc n) r one)
          (IsLines-drop (suc l) lines (split_raw-IsLines e.raw))
          (omega (arith, get_elem?-lt lines l here)) (sym (length-take n r (omega arith)))
          (sym (left_of cpl visible e h off here)) (tail_of tail))

  -- Delete at the end of a line.
  delete_line_end :
      (r next : Bytes) (b : ℕ) (t : Bytes)
      → get_elem? (split_raw e.raw) e.cursor.line ≡ some r
      → e.cursor.col ≡ length r
      → get_elem? (split_raw e.raw) (suc e.cursor.line) ≡ some next
      → right_part e ≡ b ∷ t
      → Edited e (left_part e) t (typed_key cpl visible delete e)
  unfolding key_action
  delete_line_end r next b t here at_end below right =
      let lines = split_raw e.raw in
      let l = e.cursor.line in
      let n = e.cursor.col in
      let rest = drop (suc (suc l)) lines in
      let all = split_raw-IsLines e.raw in
      let lt = get_elem?-lt lines (suc l) below in
      let more : ltb l (length lines - 1) ≡ true = ground arith in
      let not_inside : ltb n (length r) ≡ false = ground arith in
      let nothing : drop n r ≡ [] = drop_all n r (omega arith) in
      let tail : lf ++ join_lines (next ∷ rest) ≡ b ∷ t =
        sym (join_lines-next [] next rest)
        ∙ ap (λ ls. join_lines ([] ∷ ls)) (sym (drop-some lines (suc l) below))
        ∙ ap (λ x. join_lines (x ∷ drop (suc l) lines)) (sym nothing)
        ∙ sym (right_of cpl visible e h off here)
        ∙ right in
      key-Edited cpl visible e h off delete r (take l lines ++ (r ++ next) ∷ rest) e.cursor here
        (omega arith) (delete_at_end (spotted e r) e off not_inside more below)
        (two-Leaves lines l n r next rest all (All-get IsLine lines l all here)
          (All-get IsLine lines (suc l) all below) (IsLines-drop (suc (suc l)) lines all)
          (omega (arith, lt)) at_end
          (ap (λ x. start lines l ++ x) (sym (take_all n r (omega arith)))
            ∙ sym (left_of cpl visible e h off here))
          (tail_of tail))

  -- Behind the last rune there is nothing to delete.
  nothing_behind :
      (r : Bytes) (b : ℕ) (t : Bytes)
      → get_elem? (split_raw e.raw) e.cursor.line ≡ some r
      → e.cursor.col ≡ length r
      → get_elem? (split_raw e.raw) (suc e.cursor.line) ≡ none
      → right_part e ≢ b ∷ t
  unfolding join_lines join
  nothing_behind r b t here at_end below right =
      let lines = split_raw e.raw in
      let empty : join_lines ([] ∷ []) ≡ b ∷ t =
        ap (λ ls. join_lines ([] ∷ ls)) (sym (drop-none lines (suc e.cursor.line) below))
        ∙ ap (λ x. join_lines (x ∷ drop (suc e.cursor.line) lines))
            (sym (drop_all e.cursor.col r (omega arith)))
        ∙ sym (right_of cpl visible e h off here)
        ∙ right in
      ground arith

  -- Where nothing is selected, the delete key takes out the rune or line end right behind the cursor,
  -- and nothing else; the cursor stays, and undoing gives the old text with the old cursor.
  pub delete-Edited :
      (b : ℕ) (t : Bytes)
      → right_part e ≡ b ∷ t
      → Edited e (left_part e) t (typed_key cpl visible delete e)
  delete-Edited b t right =
      let (r, here, in_line) = h.0 in
      elim (Bool-cases (ltb e.cursor.col (length r))) [
        | inl inside ↦ delete_rune r b t here (ltb→lt e.cursor.col (length r) inside) right
        | inr at_end ↦
            let last : e.cursor.col ≡ length r =
              omega (arith, ltb→le e.cursor.col (length r) at_end) in
            elim (Option-cases (get_elem? (split_raw e.raw) (suc e.cursor.line))) [
              | inl below ↦ absurd (nothing_behind r b t here last below right)
              | inr (next, below) ↦ delete_line_end r next b t here last below right
            ]
      ]
