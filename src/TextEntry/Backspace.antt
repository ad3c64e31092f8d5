-- ===== src/TextEntry/Backspace.antt =====
-- `TypedKey` of textviewentry.go on backspace, where nothing is selected.
use shiv.Prelude.{
  ltb, Bool-cases, length, get_elem?, set, take, drop, length-append, length-take, get_elem?-some,
  All-get, ℕ, suc, ◌-◌, ◌<◌, ◌≡◌, refl, sym, ap, ◌∙◌, ◌≢◌, inl, inr, true, false, some, [], ◌∷◌,
  ◌++◌, append-nil, append_assoc, arith,
}
use shiv.Text.{Bytes}
use shiv.TextEntry.Lines.{split_raw, join_lines, pos}
use shiv.TextEntry.Lines.Split.{IsLine, split_raw-IsLines}
use shiv.TextEntry.State.{Entry}
use shiv.TextEntry.Flat.{set-splice, start}
use shiv.TextEntry.Replace.{get_elem?-lt}
use shiv.TextEntry.Valid.{left_part, right_part, IsValid}
use shiv.TextEntry.Parts.{IsLine-take, IsLine-drop, IsLines-drop}
use shiv.TextEntry.Slices.{same_front, take-suc}
use shiv.TextEntry.Edited.{Edited}
use shiv.TextEntry.Spot.{cancel_shift, edit}
use shiv.TextEntry.Keys.{key_action, typed_key, backspace}
use shiv.TextEntry.Pressed.{
  spotted, before_first, start-next, two-Leaves, backspace_inside, backspace_at_start, key-Edited,
  right_of, left_of,
}

module _ (cpl visible : ℕ) (e : Entry) (h : IsValid e) (off : e.has_selection ≡ false) where
  -- Backspace inside a line.
  backspace_rune :
      (r : Bytes) (m : ℕ) (b : ℕ) (t : Bytes)
      → get_elem? (split_raw e.raw) e.cursor.line ≡ some r
      → e.cursor.col ≡ suc m
      → m < length r
      → left_part e ≡ t ++ b ∷ []
      → Edited e t (right_part e) (typed_key cpl visible backspace e)
  unfolding key_action
  backspace_rune r m b t here col inside left_is =
      let lines = split_raw e.raw in
      let l = e.cursor.line in
      let n = e.cursor.col in
      let rest = drop (suc l) lines in
      let all = split_raw-IsLines e.raw in
      let one = All-get IsLine lines l all here in
      let (y, taken) = take-suc m r inside in
      let test : ltb 0 n ≡ true = ground arith in
      let less : n - 1 ≡ m = omega arith in
      let lines' = take l lines ++ (take m r ++ drop n r) ∷ rest in
      let front : (start lines l ++ take m r) ++ y ∷ [] ≡ t ++ b ∷ [] =
        append_assoc (start lines l) (take m r) (y ∷ [])
        ∙ ap (λ x. start lines l ++ x) (sym taken)
        ∙ ap (λ k. start lines l ++ take k r) (sym col)
        ∙ sym (left_of cpl visible e h off here)
        ∙ left_is in
      key-Edited cpl visible e h off backspace r lines' (pos l m) here (omega arith)
        (backspace_inside (spotted e r) e off test
          ∙ ap
              (λ k. some (
                cancel_shift
                  (edit (spotted e r) e.cursor (set lines l (take k r ++ drop n r)) (pos l k) e)))
              less
          ∙ ap (λ ls. some (cancel_shift (edit (spotted e r) e.cursor ls (pos l m) e)))
              (set-splice lines l (take m r ++ drop n r) here))
        (two-Leaves lines l m (take m r) (drop n r) rest all (IsLine-take m r one)
          (IsLine-drop n r one) (IsLines-drop (suc l) lines all)
          (omega (arith, get_elem?-lt lines l here)) (sym (length-take m r (omega arith)))
          (same_front (start lines l ++ take m r) t y b front)
          (sym (right_of cpl visible e h off here)))

  -- Backspace at the start of a line.
  backspace_line_end :
      (r last : Bytes) (m : ℕ) (b : ℕ) (t : Bytes)
      → get_elem? (split_raw e.raw) e.cursor.line ≡ some r
      → e.cursor.col ≡ 0
      → e.cursor.line ≡ suc m
      → get_elem? (split_raw e.raw) m ≡ some last
      → left_part e ≡ t ++ b ∷ []
      → Edited e t (right_part e) (typed_key cpl visible backspace e)
  unfolding key_action
  backspace_line_end r last m b t here col line above left_is =
      let lines = split_raw e.raw in
      let l = e.cursor.line in
      let rest = drop (suc l) lines in
      let all = split_raw-IsLines e.raw in
      let at_start : ltb 0 e.cursor.col ≡ false = ground arith in
      let more : ltb 0 l ≡ true = ground arith in
      let less : l - 1 ≡ m = omega arith in
      let above' : get_elem? lines (l - 1) ≡ some last = ap (get_elem? lines) less ∙ above in
      let front : (start lines m ++ last) ++ b'\n' ∷ [] ≡ t ++ b ∷ [] =
        sym (start-next lines m above)
        ∙ ap (start lines) (sym line)
        ∙ sym (append-nil (start lines l))
        ∙ ap (λ k. start lines l ++ take k r) (sym col)
        ∙ sym (left_of cpl visible e h off here)
        ∙ left_is in
      key-Edited cpl visible e h off backspace r (take m lines ++ (last ++ r) ∷ rest)
        (pos m (length last)) here (omega arith)
        (backspace_at_start (spotted e r) e off at_start more above'
          ∙ ap
              (λ k. some (
                cancel_shift (
                  edit (spotted e r) e.cursor (take k lines ++ (last ++ r) ∷ rest)
                    (pos k (length last)) e)))
              less)
        (two-Leaves lines m (length last) last r rest all (All-get IsLine lines m all above)
          (All-get IsLine lines l all here) (IsLines-drop (suc l) lines all)
          (omega (arith, get_elem?-lt lines m above)) refl
          (same_front (start lines m ++ last) t b'\n' b front)
          (ap (λ k. join_lines (drop k r ∷ rest)) (sym col)
            ∙ sym (right_of cpl visible e h off here)))

  -- In front of the first rune there is nothing to take out.
  nothing_before :
      (r : Bytes) (b : ℕ) (t : Bytes)
      → get_elem? (split_raw e.raw) e.cursor.line ≡ some r
      → e.cursor.col ≡ 0
      → e.cursor.line ≡ 0
      → left_part e ≢ t ++ b ∷ []
  unfolding start
  nothing_before r b t here col line left_is =
      let lines = split_raw e.raw in
      let size = length-append t (b ∷ []) in
      let empty : t ++ b ∷ [] ≡ [] =
        sym left_is
        ∙ left_of cpl visible e h off here
        ∙ ap (λ k. start lines e.cursor.line ++ take k r) col
        ∙ append-nil (start lines e.cursor.line)
        ∙ ap (start lines) line
        ∙ before_first lines in
      let none_left : length (t ++ b ∷ []) ≡ 0 = ap length empty in omega arith

  -- Where nothing is selected, backspace takes out the rune or line end right in front of the cursor,
  -- and nothing else; undoing gives the old text with the old cursor.
  pub backspace-Edited :
      (b : ℕ) (t : Bytes)
      → left_part e ≡ t ++ b ∷ []
      → Edited e t (right_part e) (typed_key cpl visible backspace e)
  backspace-Edited b t left_is =
      let lines = split_raw e.raw in
      let l = e.cursor.line in
      let (r, here, in_line) = h.0 in
      elim (Bool-cases (ltb 0 e.cursor.col)) [
        | inl inside ↦
            backspace_rune r (e.cursor.col - 1) b t here (ground arith) (ground arith) left_is
        | inr at_start ↦
            let col : e.cursor.col ≡ 0 = ground arith in
            elim (Bool-cases (ltb 0 l)) [
              | inl more ↦
                  let (last, above) =
                    get_elem?-some lines (l - 1)
                      (let lt = get_elem?-lt lines l here in ground arith) in
                  backspace_line_end r last (l - 1) b t here col (ground arith) above left_is
              | inr first ↦ absurd (nothing_before r b t here col (ground arith) left_is)
            ]
      ]
