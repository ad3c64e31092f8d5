-- ===== src/Text.antt =====
-- The functions of Go's packages `strings` and `net` that the program calls, over texts as lists of
-- bytes. Case and white space are those of ASCII. What returns an error or -1 returns `none`.
pub mod Equality
pub mod Host
pub mod Number
pub mod Sort
pub mod Split
pub mod Words
use Prim.Native.Char.{code}
use mathlib.Core.List.{reverse}
use shiv.Prelude.{
  ℕ, zero, suc, ◌+◌, ◌-◌, Bool, true, false, not, ◌&&◌, ◌||◌, Option, none, some, List, [], ◌∷◌,
  ◌++◌, String, length, drop, leb, ltb, ◌==◌, if◌then◌else◌,
}

abbrev pub Bytes : Type 0
Bytes = List ℕ

-- The bytes of an ASCII literal.
abbrev pub codes : String → Bytes
codes String.[] = []
codes (String.◌∷◌ c s) = code c ∷ codes s

-- s == t
unfoldable pub same : Bytes → Bytes → Bool
same [] [] = true
same (x ∷ xs) (y ∷ ys) = x == y && same xs ys
same _ _ = false

-- s < t
unfoldable pub less : Bytes → Bytes → Bool
less [] [] = false
less [] (y ∷ ys) = true
less (x ∷ xs) [] = false
less (x ∷ xs) (y ∷ ys) = ltb x y || x == y && less xs ys

-- strings.HasPrefix(s, prefix)
unfoldable pub has_prefix : Bytes → Bytes → Bool
has_prefix s [] = true
has_prefix [] (y ∷ p) = false
has_prefix (x ∷ s) (y ∷ p) = x == y && has_prefix s p

-- strings.HasSuffix(s, suffix)
unfoldable pub has_suffix : Bytes → Bytes → Bool
unfolding same
has_suffix s p = leb (length p) (length s) && same (drop (length s - length p) s) p

-- strings.IndexByte(s, b) >= 0
unfoldable pub contains_byte : ℕ → Bytes → Bool
contains_byte b [] = false
contains_byte b (c ∷ s) = c == b || contains_byte b s

-- strings.Contains(s, sub)
unfoldable pub contains : Bytes → Bytes → Bool
unfolding has_prefix
contains [] sub = has_prefix [] sub
contains (c ∷ s) sub = has_prefix (c ∷ s) sub || contains s sub

abbrev cons_first : ℕ → Option (Bytes × Bytes) → Option (Bytes × Bytes)
cons_first c none = none
cons_first c (some (a, b)) = some (c ∷ a, b)

-- strings.Cut(s, sep): the text before the first `sep` and the text behind it.
unfoldable pub cut : Bytes → Bytes → Option (Bytes × Bytes)
unfolding has_prefix
cut [] sep = if has_prefix [] sep then some ([], []) else none
cut (c ∷ s) sep =
    let later = cons_first c (cut s sep) in
    if has_prefix (c ∷ s) sep then some ([], drop (length sep) (c ∷ s)) else later

-- The text before the last byte `b`, and the text behind it.
unfoldable pub cut_last : ℕ → Bytes → Option (Bytes × Bytes)
cut_last b [] = none
cut_last b (c ∷ s) = elim (cut_last b s) [
  | some (x, y) ↦ some (c ∷ x, y)
  | none ↦ if c == b then some ([], s) else none
]

abbrev cons_head : ℕ → List Bytes → List Bytes
cons_head c [] = (c ∷ []) ∷ []
cons_head c (p ∷ ps) = (c ∷ p) ∷ ps

-- One pass over the text; `k` bytes of a separator that was met are still to be skipped.
split_skip : ℕ → Bytes → Bytes → List Bytes
unfolding has_prefix
split_skip k sep [] = [] ∷ []
split_skip (suc k) sep (c ∷ s) = split_skip k sep s
split_skip zero sep (c ∷ s) =
    let met = [] ∷ split_skip (length sep - 1) sep s in
    let plain = cons_head c (split_skip zero sep s) in if has_prefix (c ∷ s) sep then met else plain

-- strings.Split(s, sep), for a separator that is not empty
unfoldable pub split : Bytes → Bytes → List Bytes
unfolding split_skip
split s sep = split_skip zero sep s

replace_skip : ℕ → Bytes → Bytes → Bytes → Bytes
unfolding has_prefix
replace_skip k old new [] = []
replace_skip (suc k) old new (c ∷ s) = replace_skip k old new s
replace_skip zero old new (c ∷ s) =
    let met = new ++ replace_skip (length old - 1) old new s in
    let plain = c ∷ replace_skip zero old new s in if has_prefix (c ∷ s) old then met else plain

-- strings.ReplaceAll(s, old, new), for an `old` that is not empty
unfoldable pub replace_all : Bytes → Bytes → Bytes → Bytes
unfolding replace_skip
replace_all s old new = replace_skip zero old new s

-- strings.Join(parts, sep)
unfoldable pub join : List Bytes → Bytes → Bytes
join [] sep = []
join (p ∷ []) sep = p
join (p ∷ q ∷ ps) sep = p ++ (sep ++ join (q ∷ ps) sep)

unfoldable pub is_space : ℕ → Bool
is_space c = c == b' ' || leb 9 c && leb c 13

trim_left : Bytes → Bytes
unfolding is_space
trim_left [] = []
trim_left (c ∷ s) = if is_space c then trim_left s else c ∷ s

-- strings.TrimSpace(s)
unfoldable pub trim_space : Bytes → Bytes
unfolding trim_left
trim_space s = reverse (trim_left (reverse (trim_left s)))

-- the word that is being read stands in front, and is closed by a space
fields_in : Bytes → Bytes → List Bytes
unfolding is_space
fields_in [] [] = []
fields_in (w ∷ word) [] = reverse (w ∷ word) ∷ []
fields_in [] (c ∷ s) = if is_space c then fields_in [] s else fields_in (c ∷ []) s
fields_in (w ∷ word) (c ∷ s) =
    let closed = reverse (w ∷ word) ∷ fields_in [] s in
    let longer = fields_in (c ∷ w ∷ word) s in if is_space c then closed else longer

-- strings.Fields(s)
unfoldable pub fields : Bytes → List Bytes
unfolding fields_in
fields s = fields_in [] s

unfoldable pub lower_byte : ℕ → ℕ
lower_byte c = if leb b'A' c && leb c b'Z' then c + 32 else c

unfoldable pub upper_byte : ℕ → ℕ
upper_byte c = if leb b'a' c && leb c b'z' then c - 32 else c

-- strings.ToLower(s)
unfoldable pub to_lower : Bytes → Bytes
unfolding lower_byte
to_lower [] = []
to_lower (c ∷ s) = lower_byte c ∷ to_lower s

-- net.SplitHostPort(hostport) on an address whose host stands in brackets: `inside` is what
-- follows the `[`, up to the last colon
split_bracketed : Bytes → Bytes → Option (Bytes × Bytes)
unfolding cut contains_byte
split_bracketed inside port = elim (cut inside (b']' ∷ [])) [
  | some (host, []) ↦
      if contains_byte b'[' host || contains_byte b'[' port || contains_byte b']' port
      then none
      else some (host, port)
  | _ ↦ none
]

split_before : Bytes → Bytes → Option (Bytes × Bytes)
unfolding split_bracketed contains_byte
split_before [] port =
    if contains_byte b'[' port || contains_byte b']' port then none else some ([], port)
split_before (c ∷ host) port =
    if c == b'['
    then split_bracketed host port
    else if contains_byte b':' (c ∷ host)
        || contains_byte b'[' (c ∷ host)
        || contains_byte b']' (c ∷ host)
        || contains_byte b'[' port
        || contains_byte b']' port
    then none
    else some (c ∷ host, port)

-- net.SplitHostPort(hostport)
unfoldable pub split_host_port : Bytes → Option (Bytes × Bytes)
unfolding cut_last split_before
split_host_port s = elim (cut_last b':' s) [
  | none ↦ none
  | some (before, port) ↦ split_before before port
]
