-- ===== src/Tokeniser/Json/Text.antt =====
-- The tokens of a JSON line are its text, cut into pieces.
use shiv.Prelude.{
  ◌==◌, if◌then◌else◌, Bool-cases, Option-cases, length, drop, length-drop, ℕ, zero, suc, ◌+◌, ◌≤◌,
  ◌<◌, ◌≡◌, refl, ap, ◌∙◌, inl, inr, Bool, true, some, [], ◌∷◌, ◌++◌, append-nil, arith,
}
use shiv.Text.{Bytes, codes, has_prefix}
use shiv.Text.Equality.{has_prefix_split}
use shiv.Tokeniser.Kinds.{text_of, Token}
use shiv.Tokeniser.Json.{
  scan_string, span, in_number, in_space, keyword, next_token, json_tokens, tokenise_json,
  tokenise_body,
}

scan_string-append :
    (n : ℕ) (s : Bytes)
    → ((scan_string n s).0 ++ (scan_string n s).1 ≡ s) × (length (scan_string n s).1 ≤ length s)
unfolding scan_string
scan_string-append n [] = ground arith
scan_string-append n (c ∷ s) =
    ground (arith, scan_string-append (if c == b'\\' then n + 1 else 0) s)

span-append :
    (p : ℕ → Bool) (s : Bytes)
    → ((span p s).0 ++ (span p s).1 ≡ s) × (length (span p s).1 ≤ length s)
unfolding span
span-append p [] = ground arith
span-append p (c ∷ s) = ground (arith, span-append p s)

front :
    (s w word : Bytes)
    → has_prefix s w ≡ true
    → 0 < length w
    → w ≡ word
    → (s ≡ word ++ drop (length word) s) × (0 < length word)
front s w word h le q = rw (← q) (has_prefix_split s w h, le)

-- A keyword that is found stands in front.
keyword_front :
    (s word : Bytes)
    → keyword s ≡ some word
    → (s ≡ word ++ drop (length word) s) × (0 < length word)
unfolding keyword
keyword_front s word e = elim (Bool-cases (has_prefix s (codes "true"))) [
  | inl t ↦ front s (codes "true") word t (omega arith) (ground arith)
  | inr not_t ↦ elim (Bool-cases (has_prefix s (codes "false"))) [
    | inl f ↦ front s (codes "false") word f (omega arith) (ground arith)
    | inr not_f ↦ elim (Bool-cases (has_prefix s (codes "null"))) [
      | inl n ↦ front s (codes "null") word n (omega arith) (ground arith)
      | inr not_n ↦ absurd (ground arith)
    ]
  ]
]

-- What a round takes and what it leaves make up the text, and it takes one rune at least.
abbrev Splits : ℕ → Bytes → Token × Bytes → Type 0
Splits c s (t, rest) = (t.text ++ rest ≡ c ∷ s) × (length rest ≤ length s)

next_token-Splits : (c : ℕ) (s : Bytes) → Splits c s (next_token c s)
unfolding next_token
next_token-Splits c s = elim (Option-cases (keyword (c ∷ s))) [
  | inl none_found ↦
      ground (arith, scan_string-append 0 s, span-append in_number s, span-append in_space s)
  | inr (word, found) ↦ ground (
    arith,
    scan_string-append 0 s,
    span-append in_number s,
    span-append in_space s,
    keyword_front (c ∷ s) word found,
    length-drop (length word) (c ∷ s),
  )
]

json_tokens-text : (fuel : ℕ) (s : Bytes) → length s ≤ fuel → text_of (json_tokens fuel s) ≡ s
unfolding json_tokens text_of
json_tokens-text zero [] h = refl
json_tokens-text zero (c ∷ s) h = absurd (omega arith)
json_tokens-text (suc fuel) [] h = refl
json_tokens-text (suc fuel) (c ∷ s) h =
    let (t, rest) = next_token c s in
    let parts : Splits c s (t, rest) = next_token-Splits c s in
    ap (λ r. t.text ++ r) (json_tokens-text fuel rest (omega (arith, parts.1))) ∙ parts.0

-- The tokens of a body line, one after the other, are the line, whatever the content type.
pub tokenise_body-text :
    (line content_type : Bytes) → text_of (tokenise_body line content_type) ≡ line
unfolding tokenise_body tokenise_json text_of
tokenise_body-text [] content_type = ground arith
tokenise_body-text (c ∷ s) content_type =
    ground (arith, json_tokens-text (length (c ∷ s)) (c ∷ s), append-nil (c ∷ s))
