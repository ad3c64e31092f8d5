-- ===== src/TextEntry/Flat.antt =====
-- The text in front of a position and the text behind it, as flat texts: what the edits of the
-- lines of textviewentry.go are compared with.
use shiv.Prelude.{
  length, get_elem?, set, take, drop, take-append-drop, ℕ, zero, suc, ◌+◌, ◌≤◌, ◌≡◌, refl, sym, ap,
  ◌∙◌, some, List, [], ◌∷◌, ◌++◌, append_assoc, arith,
}
use shiv.Text.{Bytes, join}
use shiv.TextEntry.Lines.{lf, join_lines, pos, Pos}

unfoldable pub before_at : ℕ → ℕ → List Bytes → Bytes
before_at c l [] = []
before_at c zero (x ∷ xs) = take c x
before_at c (suc l) (x ∷ xs) = x ++ (lf ++ before_at c l xs)

unfoldable pub after_at : ℕ → ℕ → List Bytes → Bytes
after_at c l [] = []
after_at c zero (x ∷ xs) = join_lines (drop c x ∷ xs)
after_at c (suc l) (x ∷ xs) = after_at c l xs

unfoldable pub before : List Bytes → Pos → Bytes
unfolding before_at
before lines p = before_at p.col p.line lines

unfoldable pub after : List Bytes → Pos → Bytes
unfolding after_at
after lines p = after_at p.col p.line lines

-- A position that stands in the text.
abbrev pub InText : List Bytes → Pos → Type 0
InText lines p = (runes : Bytes) × (get_elem? lines p.line ≡ some runes) × (p.col ≤ length runes)

pub join_lines-front :
    (x y : Bytes) (ls : List Bytes) → join_lines ((x ++ y) ∷ ls) ≡ x ++ join_lines (y ∷ ls)
unfolding join_lines join
join_lines-front x y [] = refl
join_lines-front x y (l ∷ ls) = append_assoc x y (lf ++ join (l ∷ ls) lf)

join_behind :
    (c : ℕ) (lines : List Bytes) (l : ℕ) {runes : Bytes}
    → get_elem? lines l ≡ some runes
    → after_at c l lines ≡ join_lines (drop c runes ∷ drop (suc l) lines)
unfolding after_at
join_behind c [] l h = absurd (ground arith)
join_behind c (y ∷ ys) zero {runes = r} h = let same : y ≡ r = cc in rw same refl
join_behind c (y ∷ ys) (suc l) h = join_behind c ys l h

pub after-lem :
    (lines : List Bytes) (p : Pos) {runes : Bytes}
    → get_elem? lines p.line ≡ some runes
    → after lines p ≡ join_lines (drop p.col runes ∷ drop (suc p.line) lines)
unfolding after
after-lem lines p h = join_behind p.col lines p.line h

pub set-splice {ℓ} :
    {A : Type ℓ} (xs : List A) (i : ℕ) (v : A) {x : A}
    → get_elem? xs i ≡ some x
    → set xs i v ≡ take i xs ++ v ∷ drop (suc i) xs
set-splice [] i v h = absurd (ground arith)
set-splice (y ∷ xs) zero v h = refl
set-splice (y ∷ xs) (suc i) v h = ap (◌∷◌ y) (set-splice xs i v h)

pub join_lines-next :
    (y z : Bytes) (ys : List Bytes) → join_lines (y ∷ z ∷ ys) ≡ y ++ (lf ++ join_lines (z ∷ ys))
unfolding join_lines join
join_lines-next y z ys = refl

both_parts :
    (c : ℕ) (lines : List Bytes) (l : ℕ) {r : Bytes}
    → get_elem? lines l ≡ some r
    → join_lines lines ≡ before_at c l lines ++ after_at c l lines
unfolding before_at after_at
both_parts c [] l h = absurd (ground arith)
both_parts c (y ∷ ys) zero h =
    ap (λ x. join_lines (x ∷ ys)) (sym (take-append-drop c y))
    ∙ join_lines-front (take c y) (drop c y) ys
both_parts c (y ∷ []) (suc l) h = absurd (ground arith)
both_parts c (y ∷ z ∷ ys) (suc l) h =
    join_lines-next y z ys
    ∙ ap (λ t. y ++ (lf ++ t)) (both_parts c (z ∷ ys) l h)
    ∙ ap (λ t. y ++ t) (sym (append_assoc lf (before_at c l (z ∷ ys)) (after_at c l (z ∷ ys))))
    ∙ sym (append_assoc y (lf ++ before_at c l (z ∷ ys)) (after_at c l (z ∷ ys)))

suc_add : (l k : ℕ) → suc l + k ≡ suc (l + k)
suc_add l k = omega arith

zero_add : (k : ℕ) → 0 + k ≡ k
zero_add k = omega arith

get_elem?-take_append {ℓ} :
    {A : Type ℓ} (xs : List A) (l : ℕ) (zs : List A) (k : ℕ)
    → l ≤ length xs
    → get_elem? (take l xs ++ zs) (l + k) ≡ get_elem? zs k
get_elem?-take_append xs zero zs k h = ap (get_elem? zs) (zero_add k)
get_elem?-take_append [] (suc l) zs k h = absurd (omega arith)
get_elem?-take_append (x ∷ xs) (suc l) zs k h =
    ap (get_elem? (x ∷ (take l xs ++ zs))) (suc_add l k)
    ∙ get_elem?-take_append xs l zs k (omega arith)

before_at-append :
    (c k : ℕ) (zs lines : List Bytes) (l : ℕ)
    → l ≤ length lines
    → before_at c (l + k) (take l lines ++ zs) ≡ before_at 0 l lines ++ before_at c k zs
unfolding before_at
before_at-append c k zs [] zero h = ap (λ n. before_at c n zs) (zero_add k)
before_at-append c k zs (x ∷ xs) zero h = ap (λ n. before_at c n zs) (zero_add k)
before_at-append c k zs [] (suc l) h = absurd (omega arith)
before_at-append c k zs (x ∷ xs) (suc l) h =
    ap (λ n. before_at c n (x ∷ (take l xs ++ zs))) (suc_add l k)
    ∙ ap (λ t. x ++ (lf ++ t)) (before_at-append c k zs xs l (omega arith))
    ∙ ap (λ t. x ++ t) (sym (append_assoc lf (before_at 0 l xs) (before_at c k zs)))
    ∙ sym (append_assoc x (lf ++ before_at 0 l xs) (before_at c k zs))

after_at-append :
    (c k : ℕ) (zs lines : List Bytes) (l : ℕ)
    → l ≤ length lines
    → after_at c (l + k) (take l lines ++ zs) ≡ after_at c k zs
unfolding after_at
after_at-append c k zs lines zero h = ap (λ n. after_at c n zs) (zero_add k)
after_at-append c k zs [] (suc l) h = absurd (omega arith)
after_at-append c k zs (x ∷ xs) (suc l) h =
    ap (λ n. after_at c n (x ∷ (take l xs ++ zs))) (suc_add l k)
    ∙ after_at-append c k zs xs l (omega arith)

before_at-start :
    (c : ℕ) (lines : List Bytes) (l : ℕ) {r : Bytes}
    → get_elem? lines l ≡ some r
    → before_at c l lines ≡ before_at 0 l lines ++ take c r
unfolding before_at
before_at-start c [] l h = absurd (ground arith)
before_at-start c (x ∷ xs) zero {r} h = let same : x ≡ r = cc in ap (take c) same
before_at-start c (x ∷ xs) (suc l) {r} h =
    ap (λ t. x ++ (lf ++ t)) (before_at-start c xs l h)
    ∙ ap (λ t. x ++ t) (sym (append_assoc lf (before_at 0 l xs) (take c r)))
    ∙ sym (append_assoc x (lf ++ before_at 0 l xs) (take c r))

-- The text is what stands in front of a position and what stands behind it.
pub before-append-after :
    (lines : List Bytes) (p : Pos)
    → InText lines p
    → join_lines lines ≡ before lines p ++ after lines p
unfolding before after
before-append-after lines p (runes, h, in_line) = both_parts p.col lines p.line h

-- A position that stands in the text, with the text in front of it and the text behind it.
abbrev pub Stands : List Bytes → Pos → Bytes → Bytes → Type 0
Stands lines p left right = InText lines p × (before lines p ≡ left) × (after lines p ≡ right)

-- The text in front of the line `l`.
unfoldable pub start : List Bytes → ℕ → Bytes
unfolding before_at
start lines l = before_at 0 l lines

-- What stands in the last lines of a text stands in the text.
pub Stands-append :
    (lines : List Bytes) (l : ℕ) (zs : List Bytes) (k c : ℕ) (left right : Bytes)
    → l ≤ length lines
    → Stands zs (pos k c) left right
    → Stands (take l lines ++ zs) (pos (l + k) c) (start lines l ++ left) right
unfolding before after start
Stands-append lines l zs k c left right in_text ((r, h, in_line), front, behind) = (
  (r, get_elem?-take_append lines l zs k in_text ∙ h, in_line),
  before_at-append c k zs lines l in_text ∙ ap (λ t. before_at 0 l lines ++ t) front,
  after_at-append c k zs lines l in_text ∙ behind,
)

pub before-start :
    (lines : List Bytes) (p : Pos) {r : Bytes}
    → get_elem? lines p.line ≡ some r
    → before lines p ≡ start lines p.line ++ take p.col r
unfolding before start
before-start lines p h = before_at-start p.col lines p.line h
