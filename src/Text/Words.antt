-- ===== src/Text/Words.antt =====
-- What `strings.TrimSpace`, `strings.Fields` and `strings.Cut` give on the lines of a request.
use mathlib.Core.List.{reverse, reverse-append, reverse-reverse}
use shiv.Prelude.{
  ◌==◌, Bool-cases, Option-cases, All, ℕ, ◌≡◌, refl, sym, ap, ◌∙◌, inl, inr, true, false, some,
  List, [], ◌∷◌, ◌++◌, append-nil, append_assoc, arith,
}
use shiv.Text.{
  Bytes, has_prefix, contains_byte, cut, is_space, trim_left, trim_space, fields_in, fields,
  lower_byte, to_lower,
}
use shiv.Text.Split.{Lacks}

abbrev pub HasNoSpace : Bytes → Type 0
HasNoSpace s = All (λ c. is_space c ≡ false) s

trim_left_word : (c : ℕ) (s : Bytes) → is_space c ≡ false → trim_left (c ∷ s) ≡ c ∷ s
unfolding trim_left
trim_left_word c s h = ground arith

-- A text that starts and ends with other bytes is kept, and a carriage return behind it is not.
pub trim_space_word :
    (c : ℕ) (s : Bytes) (d : ℕ) (t : Bytes)
    → is_space c ≡ false
    → is_space d ≡ false
    → c ∷ s ≡ t ++ d ∷ []
    → trim_space (c ∷ s) ≡ c ∷ s
unfolding trim_space
trim_space_word c s d t first last e =
    let ends : reverse (c ∷ s) ≡ d ∷ reverse t = ap reverse e ∙ reverse-append t (d ∷ []) in
    ap (λ x. reverse (trim_left (reverse x))) (trim_left_word c s first)
    ∙ ap (λ x. reverse (trim_left x)) ends
    ∙ ap reverse (trim_left_word d (reverse t) last)
    ∙ ap reverse (sym ends)
    ∙ reverse-reverse (c ∷ s)

pub trim_space_return :
    (c : ℕ) (s : Bytes)
    → is_space c ≡ false
    → trim_space (c ∷ (s ++ b'\r' ∷ [])) ≡ trim_space (c ∷ s)
unfolding trim_space
trim_space_return c s first =
    let ends : reverse (c ∷ (s ++ b'\r' ∷ [])) ≡ b'\r' ∷ reverse (c ∷ s) =
      reverse-append (c ∷ s) (b'\r' ∷ []) in
    ap (λ x. reverse (trim_left (reverse x))) (trim_left_word c (s ++ b'\r' ∷ []) first)
    ∙ ap (λ x. reverse (trim_left x)) ends
    ∙ unfold trim_left is_space in
      ap (λ x. reverse (trim_left (reverse x))) (sym (trim_left_word c s first))

-- A blank in front of a word is trimmed.
pub trim_space_blank : (s : Bytes) → trim_space (b' ' ∷ s) ≡ trim_space s
unfolding trim_space trim_left is_space
trim_space_blank s = refl

fields_in-word :
    (w : ℕ) (word s : Bytes)
    → (t : Bytes) × (ts : List Bytes) × (fields_in (w ∷ word) s ≡ (reverse (w ∷ word) ++ t) ∷ ts)
unfolding fields_in
fields_in-word w word [] = ([], [], ap (λ x. x ∷ []) (sym (append-nil (reverse (w ∷ word)))))
fields_in-word w word (c ∷ s) = elim (Bool-cases (is_space c)) [
  | inl space ↦ (
    [],
    fields_in [] s,
    rw space (ap (λ x. x ∷ fields_in [] s) (sym (append-nil (reverse (w ∷ word))))),
  )
  | inr other ↦
      let (t, ts, e) = fields_in-word c (w ∷ word) s in
      (
        c ∷ t,
        ts,
        rw other (
            e
            ∙ ap (λ x. x ∷ ts)
                (ap (λ x. x ++ t) (reverse-append (c ∷ []) (w ∷ word))
                  ∙ append_assoc (reverse (w ∷ word)) (c ∷ []) t)),
      )
]

fields_in-blank :
    (w : ℕ) (word m s : Bytes)
    → HasNoSpace m
    → (x : Bytes) × (fields_in (w ∷ word) (m ++ b' ' ∷ s) ≡ x ∷ fields_in [] s)
unfolding fields_in
fields_in-blank w word [] s h = (reverse (w ∷ word), unfold is_space in refl)
fields_in-blank w word (c ∷ m) s h =
    let (x, e) = fields_in-blank c (w ∷ word) m s h.1 in (x, rw h.0 e)

-- The second field of a line of words.
pub fields_second :
    (c : ℕ) (m : Bytes) (d : ℕ) (s : Bytes)
    → HasNoSpace (c ∷ m)
    → is_space d ≡ false
    → (x t : Bytes) × (ts : List Bytes) × (fields (c ∷ (m ++ b' ' ∷ d ∷ s)) ≡ x ∷ (d ∷ t) ∷ ts)
unfolding fields
fields_second c m d s h k =
    let (x, e) = fields_in-blank c [] m (d ∷ s) h.1 in
    let (t, ts, e') = fields_in-word d [] s in
    (x, t, ts, unfold fields_in in rw (h.0, e, k) (ap (λ r. x ∷ r) e'))

pub fields_nil : fields [] ≡ []
unfolding fields fields_in
fields_nil = refl

pub cut-append : (b : ℕ) (l s : Bytes) → Lacks b l → cut (l ++ b ∷ s) (b ∷ []) ≡ some (l, s)
unfolding cut has_prefix contains_byte
cut-append b [] s h = ground arith
cut-append b (c ∷ l) s h = ground (arith, cut-append b l s)

pub cut_split : (b : ℕ) (s p q : Bytes) → cut s (b ∷ []) ≡ some (p, q) → s ≡ p ++ b ∷ q
unfolding cut has_prefix
cut_split b [] p q h = ground arith
cut_split b (c ∷ s) p q h = elim (Bool-cases (c == b)) [
  | inl met ↦ ground arith
  | inr other ↦ elim (Option-cases (cut s (b ∷ []))) [
    | inl none_there ↦ ground arith
    | inr ((x, y), e) ↦ ground (arith, cut_split b s x y)
  ]
]

pub to_lower-append : (a b : Bytes) → to_lower (a ++ b) ≡ to_lower a ++ to_lower b
unfolding to_lower
to_lower-append [] b = refl
to_lower-append (c ∷ a) b = ap (◌∷◌ (lower_byte c)) (to_lower-append a b)

pub has_prefix-longer : (a b p : Bytes) → has_prefix (a ++ b) p ≡ false → has_prefix a p ≡ false
unfolding has_prefix
has_prefix-longer a b [] h = h
has_prefix-longer [] b (y ∷ p) h = refl
has_prefix-longer (x ∷ a) b (y ∷ p) h = ground (arith, has_prefix-longer a b p)

-- Up to a blank and with no colon, no text starts with a field name.
pub no_field :
    (m s p : Bytes)
    → contains_byte b':' m ≡ false
    → contains_byte b':' p ≡ true
    → contains_byte b' ' p ≡ false
    → has_prefix (to_lower (m ++ b' ' ∷ s)) p ≡ false
unfolding to_lower has_prefix contains_byte
no_field m s [] h colon blank = absurd (ground arith)
no_field [] s (y ∷ p) h colon blank = unfold lower_byte in ground arith
no_field (c ∷ m) s (y ∷ p) h colon blank = unfold lower_byte in ground (arith, no_field m s p)

trim_left_split : (s : Bytes) → (w : Bytes) × (s ≡ w ++ trim_left s)
unfolding trim_left
trim_left_split [] = ([], refl)
trim_left_split (c ∷ s) = elim (Bool-cases (is_space c)) [
  | inl space ↦ let (w, e) = trim_left_split s in (c ∷ w, rw space (ap (◌∷◌ c) e))
  | inr other ↦ ([], rw other refl)
]

pub trim_space_split :
    (c : ℕ) (s : Bytes) → is_space c ≡ false → (w : Bytes) × (c ∷ s ≡ trim_space (c ∷ s) ++ w)
unfolding trim_space
trim_space_split c s h =
    let (w, e) = trim_left_split (reverse (c ∷ s)) in
    let whole : trim_left (c ∷ s) ≡ c ∷ s = unfold trim_left in rw h refl in
    (
      reverse w,
      sym (reverse-reverse (c ∷ s))
          ∙ ap reverse e
          ∙ reverse-append w (trim_left (reverse (c ∷ s)))
          ∙ ap (λ x. reverse (trim_left (reverse x)) ++ reverse w) (sym whole),
    )

pub last_of :
    (c : ℕ) (s : Bytes)
    → HasNoSpace (c ∷ s)
    → (t : Bytes) × (d : ℕ) × (c ∷ s ≡ t ++ d ∷ []) × (is_space d ≡ false)
last_of c [] h = ([], c, refl, h.0)
last_of c (x ∷ s) h = let (t, d, e, k) = last_of x s h.1 in (c ∷ t, d, ap (◌∷◌ c) e, k)

pub no_newline : (s : Bytes) → HasNoSpace s → Lacks b'\n' s
unfolding contains_byte is_space
no_newline [] h = refl
no_newline (c ∷ s) h = ground (arith, no_newline s h.1, h.0)
