-- ===== src/Text/Number.antt =====
-- Decimal numbers of Go's `strconv` and `fmt`: `Itoa`, `%d` and `Atoi`.
pub mod Digits
use shiv.Prelude.{
  ltb, leb, ◌==◌, if◌then◌else◌, Bool-cases, ℕ, zero, suc, ◌+◌, ◌-◌, ◌*◌, ◌/◌, ◌%◌, ◌^◌, ◌<◌, ◌≡◌,
  ap, ◌∙◌, inl, inr, Bool, true, false, ◌&&◌, Option, none, some, [], ◌∷◌, arith,
}
use shiv.Prelude.Int.{negate_ℕ, ℤ, pos}
use shiv.Text.{Bytes}

-- The digits of `n`, before those that are there already. The fuel `n + 1` is never used up, since
-- each round divides by ten.
digits_before : ℕ → ℕ → Bytes → Bytes
digits_before zero n tail = tail
digits_before (suc fuel) n tail =
    let d = b'0' + n % 10 in
    let more = digits_before fuel (n / 10) (d ∷ tail) in if ltb n 10 then d ∷ tail else more

-- strconv.Itoa(n), for n ≥ 0
unfoldable pub itoa : ℕ → Bytes
unfolding digits_before
itoa n = digits_before (n + 1) n []

unfoldable pub is_digit : ℕ → Bool
is_digit c = leb b'0' c && leb c b'9'

-- The value of a text of digits, on top of `acc`; `none` at a byte that is no digit.
unfoldable pub digits_value : ℕ → Bytes → Option ℕ
unfolding is_digit
digits_value acc [] = some acc
digits_value acc (c ∷ s) =
    let rest = digits_value (acc * 10 + (c - b'0')) s in if is_digit c then rest else none

abbrev pub max_int : ℕ
max_int = 2 ^ 63 - 1

unsigned : Bytes → Option ℕ
unfolding digits_value
unsigned [] = none
unsigned (c ∷ s) = digits_value 0 (c ∷ s)

capped : Bool → Option ℕ → ℤ
capped negative none = pos 0
capped true (some n) = negate_ℕ (if ltb (max_int + 1) n then max_int + 1 else n)
capped false (some n) = pos (if ltb max_int n then max_int else n)

-- The number that strconv.Atoi(s) returns, whatever its error: 0 for a text that is no number, and
-- the nearest int for one that is out of range.
unfoldable pub atoi : Bytes → ℤ
unfolding unsigned capped
atoi [] = pos 0
atoi (c ∷ s) =
    if c == b'-'
    then capped true (unsigned s)
    else if c == b'+'
    then capped false (unsigned s)
    else capped false (unsigned (c ∷ s))

digits_value-digit :
    (acc d : ℕ) (tail : Bytes)
    → d < 10
    → digits_value acc ((b'0' + d) ∷ tail) ≡ digits_value (acc * 10 + d) tail
unfolding digits_value
digits_value-digit acc d tail h =
    let test : is_digit (b'0' + d) ≡ true = unfold is_digit in ground arith in
    let back : b'0' + d - b'0' ≡ d = omega arith in rw (test, back)

digits_before-value :
    (fuel n : ℕ) (tail : Bytes)
    → n < fuel
    → (k : ℕ) × ((acc : ℕ)
        → digits_value acc (digits_before fuel n tail) ≡ digits_value (acc * k + n) tail)
unfolding digits_before
digits_before-value zero n tail h = absurd (omega arith)
digits_before-value (suc fuel) n tail h = elim (Bool-cases (ltb n 10)) [
  | inl last ↦ (
    10,
    λ acc. simp last (
        digits_value-digit acc (n % 10) tail (omega arith)
        ∙ ap (λ a. digits_value a tail) (ground arith)),
  )
  | inr more ↦
      let (k, f) = digits_before-value fuel (n / 10) ((b'0' + n % 10) ∷ tail) (ground arith) in
      (
        k * 10,
        λ acc. simp more (
            f acc
            ∙ digits_value-digit (acc * k + n / 10) (n % 10) tail (omega arith)
            ∙ ap (λ a. digits_value a tail) (omega arith)),
      )
]

-- The digits that are printed read back as the number.
pub digits_value-itoa : (n : ℕ) → digits_value 0 (itoa n) ≡ some n
unfolding itoa
digits_value-itoa n =
    let (k, f) = digits_before-value (n + 1) n [] (omega arith) in
    f 0 ∙ unfold digits_value in ap some (omega arith)
