-- ===== src/TextEntry/Selected.antt =====
-- `selectedText` of textviewentry.go, between the text in front of the selection and behind it.
use shiv.Prelude.{
  length, get_elem?, take, drop, take-append-drop, ℕ, zero, suc, ◌+◌, ◌≤◌, ◌<◌, ◌≡◌, refl, sym, ap,
  ◌∙◌, some, List, [], ◌∷◌, ◌++◌, append-nil, append_assoc, arith,
}
use shiv.Text.{Bytes, less}
use shiv.TextEntry.Lines.{lf, join_lines, clamp_col, Pos}
use shiv.TextEntry.Flat.{before_at, after_at, join_lines-front, join_lines-next}
use shiv.TextEntry.Slices.{take_all}
use shiv.TextEntry.Shortcuts.{selected_lines}

module _ (from to : Pos) where
  step_before :
      (i : ℕ) (l : Bytes) (ls : List Bytes)
      → i < from.line
      → selected_lines from to i (l ∷ ls) ≡ selected_lines from to (i + 1) ls
  unfolding selected_lines
  step_before i l ls h = ground arith

  step_first :
      (i : ℕ) (l : Bytes) (ls : List Bytes)
      → i ≡ from.line
      → i < to.line
      → from.col ≤ length l
      → selected_lines from to i (l ∷ ls)
        ≡ drop from.col (take (length l) l) ++ (lf ++ selected_lines from to (i + 1) ls)
  unfolding selected_lines clamp_col
  step_first i l ls h k inside = ground arith

  step_inner :
      (i : ℕ) (l : Bytes) (ls : List Bytes)
      → from.line < i
      → i < to.line
      → selected_lines from to i (l ∷ ls)
        ≡ take (length l) l ++ (lf ++ selected_lines from to (i + 1) ls)
  unfolding selected_lines clamp_col
  step_inner i l ls h k = ground arith

  step_last :
      (i : ℕ) (l : Bytes) (ls : List Bytes)
      → from.line < i
      → i ≡ to.line
      → to.col ≤ length l
      → selected_lines from to i (l ∷ ls) ≡ take to.col l ++ selected_lines from to (i + 1) ls
  unfolding selected_lines clamp_col
  step_last i l ls h k inside = ground arith

  nothing_after : (i : ℕ) (ls : List Bytes) → to.line < i → selected_lines from to i ls ≡ []
  unfolding selected_lines
  nothing_after i [] h = refl
  nothing_after i (l ∷ ls) h = let rest = nothing_after (i + 1) ls (omega arith) in ground arith

  -- Behind the first line of the selection.
  selected_behind :
      (i m : ℕ) (ls : List Bytes) {r : Bytes}
      → from.line < i
      → i + m ≡ to.line
      → get_elem? ls m ≡ some r
      → to.col ≤ length r
      → selected_lines from to i ls ++ after_at to.col m ls ≡ join_lines ls
  unfolding after_at
  selected_behind i m [] h k at inside = absurd (ground arith)
  selected_behind i zero (l ∷ ls) {r} h k at inside =
      let same : l ≡ r = cc in
      let size : length l ≡ length r = ap length same in
      ap (λ t. t ++ join_lines (drop to.col l ∷ ls))
        (step_last i l ls h (omega arith) (omega arith)
          ∙ ap (λ t. take to.col l ++ t) (nothing_after (i + 1) ls (omega arith))
          ∙ append-nil (take to.col l))
      ∙ sym (join_lines-front (take to.col l) (drop to.col l) ls)
      ∙ ap (λ x. join_lines (x ∷ ls)) (take-append-drop to.col l)
  selected_behind i (suc m) (l ∷ []) h k at inside = absurd (ground arith)
  selected_behind i (suc m) (l ∷ l' ∷ ls) h k at inside =
      let rest = selected_lines from to (i + 1) (l' ∷ ls) in
      let behind_it = after_at to.col m (l' ∷ ls) in
      ap (λ t. t ++ behind_it)
        (step_inner i l (l' ∷ ls) h (omega arith)
          ∙ ap (λ t. t ++ (lf ++ rest)) (take_all (length l) l (omega arith)))
      ∙ append_assoc l (lf ++ rest) behind_it
      ∙ ap (λ t. l ++ (lf ++ t))
          (selected_behind (i + 1) m (l' ∷ ls) (omega arith) (omega arith) at inside)
      ∙ sym (join_lines-next l l' ls)

  -- The selection over several lines stands between the two parts.
  pub selected_between :
      (i k m : ℕ) (ls : List Bytes) {r r' : Bytes}
      → i + k ≡ from.line
      → i + m ≡ to.line
      → k < m
      → get_elem? ls k ≡ some r
      → from.col ≤ length r
      → get_elem? ls m ≡ some r'
      → to.col ≤ length r'
      → before_at from.col k ls ++ (selected_lines from to i ls ++ after_at to.col m ls)
        ≡ join_lines ls
  unfolding before_at after_at
  selected_between i k m [] a b less at inside at' inside' = absurd (ground arith)
  selected_between i k zero (l ∷ ls) a b less at inside at' inside' = absurd (omega arith)
  selected_between i k (suc m) (l ∷ []) a b less at inside at' inside' = absurd (ground arith)
  selected_between i zero (suc m) (l ∷ l' ∷ ls) {r} a b less at inside at' inside' =
      let same : l ≡ r = cc in
      let size : length l ≡ length r = ap length same in
      let c = from.col in
      let rest = selected_lines from to (i + 1) (l' ∷ ls) in
      let behind_it = after_at to.col m (l' ∷ ls) in
      ap (λ t. take c l ++ (t ++ behind_it))
        (step_first i l (l' ∷ ls) (omega arith) (omega arith) (omega arith)
          ∙ ap (λ t. drop c t ++ (lf ++ rest)) (take_all (length l) l (omega arith)))
      ∙ ap (λ t. take c l ++ t) (append_assoc (drop c l) (lf ++ rest) behind_it)
      ∙ sym (append_assoc (take c l) (drop c l) (lf ++ (rest ++ behind_it)))
      ∙ ap (λ t. t ++ (lf ++ (rest ++ behind_it))) (take-append-drop c l)
      ∙ ap (λ t. l ++ (lf ++ t))
          (selected_behind (i + 1) m (l' ∷ ls) (omega arith) (omega arith) at' inside')
      ∙ sym (join_lines-next l l' ls)
  selected_between i (suc k) (suc m) (l ∷ l' ∷ ls) a b less at inside at' inside' =
      let front = before_at from.col k (l' ∷ ls) in
      let others = selected_lines from to (i + 1) (l' ∷ ls) ++ after_at to.col m (l' ∷ ls) in
      ap (λ t. (l ++ (lf ++ front)) ++ (t ++ after_at to.col m (l' ∷ ls)))
        (step_before i l (l' ∷ ls) (omega arith))
      ∙ append_assoc l (lf ++ front) others
      ∙ ap (λ t. l ++ (lf ++ t))
          (selected_between (i + 1) k m (l' ∷ ls) (omega arith) (omega arith) (omega arith) at
            inside at' inside')
      ∙ sym (join_lines-next l l' ls)
