-- ===== src/TextEntry/Lines.antt =====
-- The text as lines, and positions in it.
pub mod Split
use shiv.Prelude.{ltb, leb, ◌==◌, if◌then◌else◌, length, ℕ, ◌-◌, Bool, ◌&&◌, ◌||◌, List, [], ◌∷◌}
use shiv.Text.{Bytes, codes, cut, split, replace_all, join}

abbrev pub lf : Bytes
lf = codes "\n"

-- The line ends are made equal.
unfoldable pub normal : Bytes → Bytes
normal s = replace_all (replace_all s (codes "\r\n") lf) (codes "\r") lf

-- `splitRaw`: the text is cut at its line ends.
unfoldable pub split_raw : Bytes → List Bytes
unfolding normal
split_raw [] = [] ∷ []
split_raw (c ∷ s) = split (normal (c ∷ s)) lf

-- `strings.Join(lines, "\n")`
unfoldable pub join_lines : List Bytes → Bytes
unfolding join
join_lines lines = join lines lf

pub record Pos : Type 0 where
  pub line : ℕ
  pub col : ℕ

abbrev pub pos : ℕ → ℕ → Pos
pos l c = record { line = l; col = c }

unfoldable pub same_pos : Pos → Pos → Bool
same_pos p q = p.line == q.line && p.col == q.col

-- `al > cl || (al == cl && ac > cc)`
unfoldable pub after_pos : Pos → Pos → Bool
after_pos p q = ltb q.line p.line || p.line == q.line && ltb q.col p.col

-- `if cl >= len(lines) { cl = len(lines) - 1 }`
unfoldable pub clamp_line : List Bytes → ℕ → ℕ
clamp_line lines l = if leb (length lines) l then length lines - 1 else l

-- `if cc > len(runes) { cc = len(runes) }`
unfoldable pub clamp_col : Bytes → ℕ → ℕ
clamp_col runes c = if ltb (length runes) c then length runes else c
