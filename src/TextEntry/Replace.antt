-- ===== src/TextEntry/Replace.antt =====
-- The cuts and the insertions of textviewentry.go, read as edits of the flat text.
use shiv.Prelude.{
  ◌==◌, if◌then◌else◌, Bool-cases, length, get_elem?, set, take, drop, length-append,
  drop-append_length, take-append_length, ℕ, zero, suc, ◌+◌, ◌≤◌, ◌<◌, ◌≡◌, refl, ap, ◌∙◌, subst,
  inl, inr, some, List, [], ◌∷◌, ◌++◌, arith,
}
use shiv.Text.{Bytes}
use shiv.TextEntry.Lines.{join_lines, pos, clamp_line, clamp_col, Pos}
use shiv.TextEntry.State.{cut_lines, place}
use shiv.TextEntry.Flat.{
  before_at, after_at, before, after, set-splice, Stands, start, Stands-append,
}

-- What the edits of the lines do to the flat text: each takes out what stands between two positions,
-- or puts a text in at one.

pub get_elem?-lt {ℓ} :
    {A : Type ℓ} (xs : List A) (i : ℕ) {x : A} → get_elem? xs i ≡ some x → i < length xs
get_elem?-lt [] i h = absurd (ground arith)
get_elem?-lt (y ∷ xs) zero h = omega arith
get_elem?-lt (y ∷ xs) (suc i) h = omega (arith, get_elem?-lt xs i h)

pub clamp_line-lem : (lines : List Bytes) (l : ℕ) → l < length lines → clamp_line lines l ≡ l
unfolding clamp_line
clamp_line-lem lines l h = ground arith

pub clamp_col-lem : (r : Bytes) (c : ℕ) → c ≤ length r → clamp_col r c ≡ c
unfolding clamp_col
clamp_col-lem r c h = ground arith

-- A position in range is read as it is.
pub place-lem :
    (lines : List Bytes) (p : Pos) {r : Bytes}
    → get_elem? lines p.line ≡ some r
    → p.col ≤ length r
    → place lines p ≡ some (p.line, p.col, r)
unfolding place clamp_line clamp_col
place-lem lines p {r} h in_line = let lt = get_elem?-lt lines p.line h in ground arith

-- A first line that is cut at its column `n`.
Stands-first :
    (front x : Bytes) (rest : List Bytes) (n : ℕ)
    → n ≡ length front
    → Stands ((front ++ x) ∷ rest) (pos 0 n) front (join_lines (x ∷ rest))
unfolding before after before_at after_at
Stands-first front x rest n h = (
  (front ++ x, refl, omega (arith, length-append front x)),
  ap (λ k. take k (front ++ x)) h ∙ take-append_length front x,
  ap (λ k. join_lines (drop k (front ++ x) ∷ rest)) h
      ∙ ap (λ t. join_lines (t ∷ rest)) (drop-append_length front x),
)

-- The line `p.line` becomes `front` and `x`, with `rest` behind: the place between the two.
pub Stands-splice :
    (lines : List Bytes) (l n : ℕ) (front x : Bytes) (rest : List Bytes)
    → l ≤ length lines
    → n ≡ length front
    → Stands
        (take l lines ++ (front ++ x) ∷ rest)
        (pos l n)
        (start lines l ++ front)
        (join_lines (x ∷ rest))
Stands-splice lines l n front x rest in_text h =
    let same : l + 0 ≡ l = omega arith in
    subst
      (λ k.
        Stands (take l lines ++ (front ++ x) ∷ rest) (pos k n) (start lines l ++ front)
          (join_lines (x ∷ rest)))
      same
      (Stands-append lines l ((front ++ x) ∷ rest) 0 n front (join_lines (x ∷ rest)) in_text
        (Stands-first front x rest n h))

-- What is left where a stretch is taken out.
abbrev pub cut_out : Pos → Pos → Bytes → Bytes → List Bytes → List Bytes
cut_out from to first last lines =
    take from.line lines ++ (take from.col first ++ drop to.col last) ∷ drop (suc to.line) lines

cut_one :
    (from to : Pos) (first last : Bytes) (lines : List Bytes)
    → get_elem? lines from.line ≡ some first
    → get_elem? lines to.line ≡ some last
    → (if from.line == to.line
        then set lines from.line (take from.col first ++ drop to.col last)
        else take from.line lines
          ++ (take from.col first ++ drop to.col last) ∷ drop (suc to.line) lines)
      ≡ cut_out from to first last lines
cut_one from to first last lines h k = elim (Bool-cases (from.line == to.line)) [
  | inl one ↦
      let same : from.line ≡ to.line = ground arith in
      rw one (
        set-splice lines from.line (take from.col first ++ drop to.col last) h
        ∙ ap
            (λ l.
              take from.line lines
              ++ (take from.col first ++ drop to.col last) ∷ drop (suc l) lines)
            same)
  | inr two ↦ rw two refl
]

pub cut_lines-lem :
    (from to : Pos) (lines : List Bytes) {first last : Bytes}
    → get_elem? lines from.line ≡ some first
    → from.col ≤ length first
    → get_elem? lines to.line ≡ some last
    → to.col ≤ length last
    → cut_lines from to lines ≡ some (cut_out from to first last lines, from)
unfolding cut_lines clamp_line clamp_col
cut_lines-lem from to lines {first} {last} h in_first k in_last =
    let lt = get_elem?-lt lines from.line h in
    let lt' = get_elem?-lt lines to.line k in
    let one = cut_one from to first last lines h k in ground arith
