-- ===== src/Tokeniser/Json.antt =====
-- `tokeniseJSON` and `tokeniseBody`: one pass over the runes of a line. A line is given as its runes: a
-- line that is not valid UTF-8, in which `[]rune(line)` puts U+FFFD for a byte, is outside the model.
pub mod Text
use shiv.Prelude.{
  leb, ◌==◌, if◌then◌else◌, length, drop, ℕ, zero, suc, ◌+◌, ◌%◌, ◌<◌, Bool, false, not, ◌&&◌, ◌||◌,
  Option, none, some, List, [], ◌∷◌,
}
use shiv.Text.{Bytes, codes, same, has_prefix}
use shiv.Tokeniser.Kinds.{token, Token, plain, json_key, json_str, json_num, json_bool, json_punct}

-- The runes up to the end of a string, its closing quote included, and the runes behind it. The
-- first argument is the number of backslashes directly in front of the first rune.
unfoldable pub scan_string : ℕ → Bytes → Bytes × Bytes
scan_string n [] = ([], [])
scan_string n (c ∷ s) =
    let (body, rest) = scan_string (if c == b'\\' then n + 1 else 0) s in
    if c == b'"' && n % 2 == 0 then (c ∷ [], s) else (c ∷ body, rest)

-- The longest start of the text whose runes pass the test, and what follows.
unfoldable pub span : (ℕ → Bool) → Bytes → Bytes × Bytes
span p [] = ([], [])
span p (c ∷ s) = let (run, rest) = span p s in if p c then (c ∷ run, rest) else ([], c ∷ s)

abbrev is_punct : ℕ → Bool
is_punct c = c == b'{' || c == b'}' || c == b'[' || c == b']' || c == b',' || c == b':'

abbrev is_decimal : ℕ → Bool
is_decimal c = leb b'0' c && leb c b'9'

abbrev in_number : ℕ → Bool
in_number c = is_decimal c || c == b'.' || c == b'e' || c == b'E' || c == b'+' || c == b'-'

abbrev in_space : ℕ → Bool
in_space c = c == b' ' || c == b'\t'

-- the rune behind the spaces is a colon
before_colon : Bytes → Bool
before_colon [] = false
before_colon (c ∷ s) = if c == b' ' then before_colon s else c == b':'

-- The keyword that the text starts with, of `true`, `false` and `null`.
unfoldable pub keyword : Bytes → Option Bytes
unfolding has_prefix
keyword s =
    if has_prefix s (codes "true")
    then some (codes "true")
    else if has_prefix s (codes "false")
    then some (codes "false")
    else if has_prefix s (codes "null")
    then some (codes "null")
    else none

-- The first token of a text that is not empty, and what follows it.
unfoldable pub next_token : ℕ → Bytes → Token × Bytes
unfolding before_colon
next_token c s =
    if c == b'"'
    then (let (body, rest) = scan_string 0 s in
        (token (if before_colon rest then json_key else json_str) (c ∷ body), rest))
    else if is_punct c
    then (token json_punct (c ∷ []), s)
    else if c == b'-' || is_decimal c
    then (let (run, rest) = span in_number s in (token json_num (c ∷ run), rest))
    else if c == b't' || c == b'f' || c == b'n'
    then elim (keyword (c ∷ s)) [
      | some word ↦ (token json_bool word, drop (length word) (c ∷ s))
      | none ↦ (token plain (c ∷ []), s)
    ]
    else if in_space c
    then (let (run, rest) = span in_space s in (token plain (c ∷ run), rest))
    else (token plain (c ∷ []), s)

-- `for pos < len(runes)`, on fuel: each round takes a rune at least, so as much fuel as there are
-- runes is enough.
unfoldable pub json_tokens : ℕ → Bytes → List Token
json_tokens zero s = []
json_tokens (suc fuel) [] = []
json_tokens (suc fuel) (c ∷ s) = let (t, rest) = next_token c s in t ∷ json_tokens fuel rest

unfoldable pub tokenise_json : Bytes → List Token
tokenise_json [] = token plain [] ∷ []
tokenise_json (c ∷ s) = json_tokens (length (c ∷ s)) (c ∷ s)

unfoldable pub tokenise_body : Bytes → Bytes → List Token
tokenise_body line content_type =
    if same content_type (codes "json") then tokenise_json line else token plain line ∷ []
