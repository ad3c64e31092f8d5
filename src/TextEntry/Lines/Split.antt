-- ===== src/TextEntry/Lines/Split.antt =====
-- `splitRaw` of textviewentry.go and the join of lines, one behind the other.
use shiv.Prelude.{All, All-map, ◌≡◌, refl, sym, ap, ◌∙◌, List, [], ◌∷◌, ◌++◌}
use shiv.Text.{Bytes, codes, contains_byte, split, replace_all, join}
use shiv.Text.Split.{
  Lacks, split-nil, split_nonempty, split-join, replace_all_absent, Lacks-append, Lacks-replace_all,
  split-Lacks_end, split-Lacks, replace_all-nil,
}
use shiv.TextEntry.Lines.{lf, normal, split_raw, join_lines}

abbrev pub cr : Bytes
cr = codes "\r"

-- A line without a line end.
abbrev pub IsLine : Bytes → Type 0
IsLine s = Lacks b'\n' s × Lacks b'\r' s

abbrev pub IsLines : List Bytes → Type 0
IsLines = All IsLine

only_lf : (ls : List Bytes) → IsLines ls → All (Lacks b'\n') ls
only_lf ls = All-map IsLine (Lacks b'\n') (λ l h. h.0) ls

join-Lacks : (ls : List Bytes) → IsLines ls → Lacks b'\r' (join ls lf)
unfolding join contains_byte
join-Lacks [] h = refl
join-Lacks (l ∷ []) h = h.0.1
join-Lacks (l ∷ m ∷ ls) h =
    Lacks-append b'\r' l (lf ++ join (m ∷ ls) lf) h.0.1 (join-Lacks (m ∷ ls) h.1)

split_raw_normal : (s : Bytes) → Lacks b'\r' s → split_raw s ≡ split s lf
unfolding split_raw normal
split_raw_normal [] h = sym (split-nil)
split_raw_normal (c ∷ s) h =
    ap (λ x. split (replace_all x cr lf) lf) (replace_all_absent b'\r' lf lf (c ∷ s) h)
    ∙ ap (λ x. split x lf) (replace_all_absent b'\r' [] lf (c ∷ s) h)

-- Lines without a line end inside, one at least, that are joined are read as the same lines again.
pub split_raw-join_lines :
    (l : Bytes) (ls : List Bytes) → IsLines (l ∷ ls) → split_raw (join_lines (l ∷ ls)) ≡ l ∷ ls
unfolding join_lines
split_raw-join_lines l ls h =
    split_raw_normal (join (l ∷ ls) lf) (join-Lacks (l ∷ ls) h)
    ∙ split-join l ls (only_lf (l ∷ ls) h)

both : (ls : List Bytes) → All (Lacks b'\n') ls → All (Lacks b'\r') ls → IsLines ls
both [] h k = tt
both (l ∷ ls) h k = ((h.0, k.0), both ls h.1 k.1)

split_raw-normal : (s : Bytes) → split_raw s ≡ split (normal s) lf
unfolding split_raw normal
split_raw-normal [] = rw (replace_all-nil, replace_all-nil) (sym split-nil)
split_raw-normal (c ∷ s) = refl

pub split-normal-IsLines : (s : Bytes) → IsLines (split (normal s) lf)
unfolding normal contains_byte
split-normal-IsLines s = both (split (normal s) lf) (split-Lacks_end (normal s)) (
    split-Lacks b'\r' (normal s)
      (Lacks-replace_all b'\r' lf (replace_all s (codes "\r\n") lf) refl))

-- The lines of any text have no line end inside.
pub split_raw-IsLines : (s : Bytes) → IsLines (split_raw s)
split_raw-IsLines s = rw (split_raw-normal s) (split-normal-IsLines s)

-- A text has a line.
pub split_raw_nonempty : (s : Bytes) → (l : Bytes) × (ls : List Bytes) × (split_raw s ≡ l ∷ ls)
split_raw_nonempty s = let (l, ls, e) = split_nonempty (normal s) in (l, ls, split_raw-normal s ∙ e)
