-- ===== src/TextEntry/Slices.antt =====
-- Parts of a list at an index, and the first and the last element of a text.
use shiv.Prelude.{
  length, get_elem?, take, drop, drop_all, ℕ, zero, suc, ◌≤◌, ◌<◌, ◌≡◌, refl, sym, ap, ◌∙◌, none,
  some, List, [], ◌∷◌, ◌++◌, arith,
}
use shiv.Text.{Bytes}

-- The text without its last rune.
init : Bytes → Bytes
init [] = []
init (c ∷ []) = []
init (c ∷ d ∷ s) = c ∷ init (d ∷ s)

init-append : (s : Bytes) (b : ℕ) → init (s ++ b ∷ []) ≡ s
unfolding init
init-append [] b = refl
init-append (c ∷ []) b = refl
init-append (c ∷ d ∷ s) b = ap (◌∷◌ c) (init-append (d ∷ s) b)

pub same_front : (s t : Bytes) (a b : ℕ) → s ++ a ∷ [] ≡ t ++ b ∷ [] → s ≡ t
same_front s t a b h = sym (init-append s a) ∙ ap init h ∙ init-append t b

pub take-suc : (n : ℕ) (r : Bytes) → n < length r → (y : ℕ) × (take (suc n) r ≡ take n r ++ y ∷ [])
take-suc n [] h = absurd (omega arith)
take-suc zero (c ∷ r) h = (c, refl)
take-suc (suc n) (c ∷ r) h = let (y, e) = take-suc n r (omega arith) in (y, ap (◌∷◌ c) e)

pub drop-suc : (n : ℕ) (r : Bytes) → n < length r → (y : ℕ) × (drop n r ≡ y ∷ drop (suc n) r)
drop-suc n [] h = absurd (omega arith)
drop-suc zero (c ∷ r) h = (c, refl)
drop-suc (suc n) (c ∷ r) h = drop-suc n r (omega arith)

pub take_all : (n : ℕ) (r : Bytes) → length r ≤ n → take n r ≡ r
take_all zero [] h = refl
take_all zero (c ∷ r) h = absurd (omega arith)
take_all (suc n) [] h = refl
take_all (suc n) (c ∷ r) h = ap (◌∷◌ c) (take_all n r (omega arith))

pub drop-some {ℓ} :
    {A : Type ℓ} (xs : List A) (i : ℕ) {x : A}
    → get_elem? xs i ≡ some x
    → drop i xs ≡ x ∷ drop (suc i) xs
drop-some [] i h = absurd (ground arith)
drop-some (y ∷ xs) zero {x} h = let same : y ≡ x = cc in ap (λ z. z ∷ xs) same
drop-some (y ∷ xs) (suc i) h = drop-some xs i h

pub drop-none {ℓ} : {A : Type ℓ} (xs : List A) (i : ℕ) → get_elem? xs i ≡ none → drop i xs ≡ []
drop-none [] i h = drop_all i [] (omega arith)
drop-none (y ∷ xs) zero h = absurd (ground arith)
drop-none (y ∷ xs) (suc i) h = drop-none xs i h

pub tail_of {ℓ} : {A : Type ℓ} {x y : A} {xs ys : List A} → x ∷ xs ≡ y ∷ ys → xs ≡ ys
tail_of h = cc
