-- ===== src/Text/Number/Digits.antt =====
-- The digits that `strconv.Itoa` writes, and `strconv.Atoi` of them.
use shiv.Prelude.{
  ltb, ◌==◌, Bool-cases, All, All-map, ℕ, zero, suc, ◌+◌, ◌/◌, ◌%◌, ◌≤◌, ◌≡◌, refl, inl, inr, true,
  false, some, [], ◌∷◌, arith,
}
use shiv.Prelude.Int.{pos}
use shiv.Text.{Bytes, contains_byte, is_space}
use shiv.Text.Number.{digits_before, itoa, is_digit, digits_value, max_int, atoi, digits_value-itoa}
use shiv.Text.Host.{IsPlain}
use shiv.Text.Words.{HasNoSpace}

abbrev AreDigits : Bytes → Type 0
AreDigits s = All (λ c. is_digit c ≡ true) s

digits_before-AreDigits :
    (fuel n : ℕ) (tail : Bytes) → AreDigits tail → AreDigits (digits_before fuel n tail)
unfolding digits_before
digits_before-AreDigits zero n tail h = h
digits_before-AreDigits (suc fuel) n tail h =
    let digit : is_digit (b'0' + n % 10) ≡ true = unfold is_digit in ground arith in
    elim (Bool-cases (ltb n 10)) [
      | inl last ↦ rw last (digit, h)
      | inr more ↦
          rw more (digits_before-AreDigits fuel (n / 10) ((b'0' + n % 10) ∷ tail) (digit, h))
    ]

itoa-AreDigits : (n : ℕ) → AreDigits (itoa n)
unfolding itoa
itoa-AreDigits n = digits_before-AreDigits (n + 1) n [] tt

digit_lacks : (b : ℕ) (s : Bytes) → is_digit b ≡ false → AreDigits s → contains_byte b s ≡ false
unfolding contains_byte
digit_lacks b [] h d = refl
digit_lacks b (c ∷ s) h d = elim (Bool-cases (c == b)) [
  | inl same ↦ absurd (let e : c ≡ b = ground arith in let t = rw e at (d.0) in cc)
  | inr other ↦ rw other (digit_lacks b s h d.1)
]

pub itoa-IsPlain : (n : ℕ) → IsPlain (itoa n)
itoa-IsPlain n =
    let d = itoa-AreDigits n in
    unfold is_digit in
    (
      digit_lacks b':' (itoa n) refl d,
      digit_lacks b'[' (itoa n) refl d,
      digit_lacks b']' (itoa n) refl d,
    )

pub itoa-no_bar : (n : ℕ) → contains_byte b'|' (itoa n) ≡ false
itoa-no_bar n = unfold is_digit in digit_lacks b'|' (itoa n) refl (itoa-AreDigits n)

pub itoa-HasNoSpace : (n : ℕ) → HasNoSpace (itoa n)
itoa-HasNoSpace n =
    All-map (λ c. is_digit c ≡ true) (λ c. is_space c ≡ false)
      (λ c h. unfold is_digit is_space in ground arith) (itoa n) (itoa-AreDigits n)

atoi_digits :
    (s : Bytes) (n : ℕ) → AreDigits s → digits_value 0 s ≡ some n → n ≤ max_int → atoi s ≡ pos n
unfolding atoi
atoi_digits [] n d e h = unfold digits_value in ground arith
atoi_digits (c ∷ s) n d e h =
    let minus : (c == b'-') ≡ false = let t = d.0 in unfold is_digit in ground arith in
    let plus : (c == b'+') ≡ false = let t = d.0 in unfold is_digit in ground arith in
    rw (minus, plus, e) (let small : ltb max_int n ≡ false = ground arith in rw small refl)

-- Every number that an int holds reads back.
pub atoi-itoa : (n : ℕ) → n ≤ max_int → atoi (itoa n) ≡ pos n
atoi-itoa n h = atoi_digits (itoa n) n (itoa-AreDigits n) (digits_value-itoa n) h
