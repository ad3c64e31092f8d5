-- ===== src/TextEntry/Wrapping.antt =====
-- The loop of `logicalToVisual` of textviewentry.go, over the visual lines of one line.
use shiv.Prelude.{
  ltb, ◌==◌, ltb→lt, ltb→le, Bool-cases, length, get_elem?, take, drop, length-append,
  take-append-drop, All, ℕ, zero, suc, ◌+◌, ◌-◌, ◌≤◌, ◌<◌, ◌≡◌, refl, sym, ap, ◌∙◌, subst, ◌⊎◌, inl,
  inr, Bool, true, false, Option, some, List, [], ◌∷◌, ◌++◌, arith,
}
use shiv.Text.{Bytes}
use shiv.TextEntry.Visual.{
  visual_line, pieces, line_pieces, is_last_chunk, find_visual, visual, VisualLine,
}

-- Where `find_visual` stops: the index of a visual line that holds the column `c` of line `l`.
abbrev pub Found : List VisualLine → ℕ → ℕ → ℕ → Option (ℕ × ℕ) → Type 0
Found visual l c v o =
    (i : ℕ) × (vl : VisualLine) × (k : ℕ) × (o ≡ some (v + i, k))
    × (get_elem? visual i ≡ some vl)
    × (vl.logical_idx ≡ l)
    × (vl.col_offset + k ≡ c)
    × (k ≤ length vl.raw)

find_other :
    (l c v : ℕ) (last : Option (ℕ × ℕ)) (vl : VisualLine) (rest : List VisualLine)
    → (vl.logical_idx == l) ≡ false
    → find_visual l c v last (vl ∷ rest) ≡ find_visual l c (v + 1) last rest
unfolding find_visual
find_other l c v last vl rest h = ground arith

find_inside :
    (l c v : ℕ) (last : Option (ℕ × ℕ)) (vl : VisualLine) (rest : List VisualLine)
    → vl.logical_idx ≡ l
    → vl.col_offset ≤ c
    → c < vl.col_offset + length vl.raw
    → find_visual l c v last (vl ∷ rest) ≡ some (v, c - vl.col_offset)
unfolding find_visual
find_inside l c v last vl rest h from to = ground arith

find_end :
    (l c v : ℕ) (last : Option (ℕ × ℕ)) (vl : VisualLine) (rest : List VisualLine)
    → vl.logical_idx ≡ l
    → vl.col_offset + length vl.raw ≡ c
    → is_last_chunk l rest ≡ true
    → find_visual l c v last (vl ∷ rest) ≡ some (v, length vl.raw)
unfolding find_visual is_last_chunk
find_end l c v last vl rest h at_end is_last = ground arith

find_later :
    (l c v : ℕ) (last : Option (ℕ × ℕ)) (vl : VisualLine) (rest : List VisualLine)
    → vl.logical_idx ≡ l
    → vl.col_offset + length vl.raw ≤ c
    → is_last_chunk l rest ≡ false
    → find_visual l c v last (vl ∷ rest) ≡ find_visual l c (v + 1) (some (v, length vl.raw)) rest
unfolding find_visual is_last_chunk
find_later l c v last vl rest h behind_it more = ground arith

-- One visual line further on.
later-Found :
    (l c v : ℕ) (vl : VisualLine) (rest : List VisualLine) (o : Option (ℕ × ℕ))
    → Found rest l c (v + 1) o
    → Found (vl ∷ rest) l c v o
later-Found l c v vl rest o (i, w, k, found, here, line, col, inside) =
    let next : (v + 1) + i ≡ v + suc i = omega arith in
    (suc i, w, k, found ∙ ap (λ n. some (n, k)) next, here, line, col, inside)

-- The visual lines of other lines are passed over.
pub skip-Found :
    (l c v : ℕ) (xs rest : List VisualLine)
    → All (λ (vl : VisualLine). (vl.logical_idx == l) ≡ false) xs
    → ((w : ℕ) (last : Option (ℕ × ℕ)) → Found rest l c w (find_visual l c w last rest))
    → (last : Option (ℕ × ℕ)) → Found (xs ++ rest) l c v (find_visual l c v last (xs ++ rest))
skip-Found l c v [] rest h found last = found v last
skip-Found l c v (x ∷ xs) rest h found last =
    subst (Found (x ∷ (xs ++ rest)) l c v) (sym (find_other l c v last x (xs ++ rest) h.0)) (
      later-Found l c v x (xs ++ rest) (find_visual l c (v + 1) last (xs ++ rest))
        (skip-Found l c (v + 1) xs rest h.1 found last))

start-Found :
    (l c v : ℕ) (vl : VisualLine) (rest : List VisualLine) (k : ℕ) (o : Option (ℕ × ℕ))
    → o ≡ some (v, k)
    → vl.logical_idx ≡ l
    → vl.col_offset + k ≡ c
    → k ≤ length vl.raw
    → Found (vl ∷ rest) l c v o
start-Found l c v vl rest k o h line col inside =
    let same : v ≡ v + 0 = omega arith in
    (0, vl, k, h ∙ ap (λ n. some (n, k)) same, refl, line, col, inside)

list_cases {ℓ} : {A : Type ℓ} (xs : List A) → (xs ≡ []) ⊎ ((y : A) × (ys : List A) × (xs ≡ y ∷ ys))
list_cases [] = inl refl
list_cases (x ∷ xs) = inr (x, xs, refl)

length-take-drop {ℓ} :
    {A : Type ℓ} (n : ℕ) (xs : List A) → length (take n xs) + length (drop n xs) ≡ length xs
length-take-drop n xs =
    sym (length-append (take n xs) (drop n xs)) ∙ ap length (take-append-drop n xs)

-- The visual lines of a line with other lines behind it: the column is found in one of them.
module _ (cpl : ℕ) (in_body : Bool) (ct : Bytes) (l c : ℕ) (rest : List VisualLine)
    (positive : 0 < cpl) (last_line : is_last_chunk l rest ≡ true) where
  no_pieces : (fuel off : ℕ) → pieces fuel cpl in_body ct l off [] ≡ []
  unfolding pieces
  no_pieces zero off = refl
  no_pieces (suc fuel) off = refl

  more_pieces :
      (fuel off d : ℕ) (ds : Bytes)
      → length (d ∷ ds) ≤ fuel
      → is_last_chunk l (pieces fuel cpl in_body ct l off (d ∷ ds) ++ rest) ≡ false
  unfolding pieces is_last_chunk visual_line
  more_pieces zero off d ds h = absurd (omega arith)
  more_pieces (suc fuel) off d ds h = ground arith

  some_taken : (d : ℕ) (ds : Bytes) → 0 < length (take cpl (d ∷ ds))
  some_taken d ds = taken_of cpl positive
    where
      taken_of : (n : ℕ) → 0 < n → 0 < length (take n (d ∷ ds))
      taken_of zero h = absurd (omega arith)
      taken_of (suc n) h = omega arith

  pieces-Found :
      (fuel off : ℕ) (d : ℕ) (ds : Bytes) (v : ℕ) (last : Option (ℕ × ℕ))
      → length (d ∷ ds) ≤ fuel
      → off ≤ c
      → c ≤ off + length (d ∷ ds)
      → Found
          (pieces fuel cpl in_body ct l off (d ∷ ds) ++ rest)
          l
          c
          v
          (find_visual l c v last (pieces fuel cpl in_body ct l off (d ∷ ds) ++ rest))
  unfolding pieces visual_line
  pieces-Found zero off d ds v last h from to = absurd (omega arith)
  pieces-Found (suc fuel) off d ds v last h from to =
      let chunk = take cpl (d ∷ ds) in
      let left = drop cpl (d ∷ ds) in
      let off' = off + length chunk in
      let vl = visual_line in_body ct l off chunk in
      let others = λ (xs : Bytes). pieces fuel cpl in_body ct l off' xs ++ rest in
      let sizes = length-take-drop cpl (d ∷ ds) in
      let taken = some_taken d ds in
      elim (Bool-cases (ltb c off')) [
        | inl inside ↦
            let lt = ltb→lt c off' inside in
            start-Found l c v vl (others left) (c - off) (find_visual l c v last (vl ∷ others left))
              (find_inside l c v last vl (others left) refl from lt) refl (omega arith)
              (omega arith)
        | inr behind_it ↦
            let le = ltb→le c off' behind_it in
            elim (list_cases left) [
              | inl none_left ↦
                  let nothing : pieces fuel cpl in_body ct l off' left ≡ [] =
                    ap (pieces fuel cpl in_body ct l off') none_left ∙ no_pieces fuel off' in
                  let size : length left ≡ 0 = ap length none_left in
                  subst
                    (λ ys.
                      Found (vl ∷ (ys ++ rest)) l c v (find_visual l c v last (vl ∷ (ys ++ rest))))
                    (sym nothing)
                    (start-Found l c v vl rest (length chunk) (find_visual l c v last (vl ∷ rest))
                      (find_end l c v last vl rest refl (omega arith) last_line) refl (omega arith)
                      (omega arith))
              | inr (d', ds', e) ↦
                  let size : length left ≡ length (d' ∷ ds') = ap length e in
                  let xs = d' ∷ ds' in
                  subst
                    (λ xs. Found (vl ∷ others xs) l c v (find_visual l c v last (vl ∷ others xs)))
                    (sym e)
                    (subst (Found (vl ∷ others xs) l c v)
                      (sym (
                        find_later l c v last vl (others xs) refl le
                          (more_pieces fuel off' d' ds' (omega arith))))
                      (later-Found l c v vl (others xs)
                        (find_visual l c (v + 1) (some (v, length chunk)) (others xs))
                        (pieces-Found fuel off' d' ds' (v + 1) (some (v, length chunk))
                          (omega arith) le (omega arith))))
            ]
      ]

  pub line_pieces-Found :
      (r : Bytes) (v : ℕ) (last : Option (ℕ × ℕ))
      → c ≤ length r
      → Found
          (line_pieces cpl in_body ct l r ++ rest)
          l
          c
          v
          (find_visual l c v last (line_pieces cpl in_body ct l r ++ rest))
  unfolding line_pieces visual_line
  line_pieces-Found [] v last h =
      let vl = visual_line in_body ct l 0 [] in
      start-Found l c v vl rest 0 (find_visual l c v last (vl ∷ rest))
        (find_end l c v last vl rest refl (omega arith) last_line) refl (omega arith) (omega arith)
  line_pieces-Found (d ∷ ds) v last h =
      pieces-Found (length (d ∷ ds)) 0 d ds v last (omega arith) (omega arith) (omega arith)
