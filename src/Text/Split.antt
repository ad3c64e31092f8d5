-- ===== src/Text/Split.antt =====
-- `strings.Split` at line ends, `strings.Join` and `strings.ReplaceAll`.
use shiv.Prelude.{
  ◌==◌, if◌then◌else◌, Bool-cases, All, ℕ, zero, ◌≡◌, refl, sym, ap, ◌∙◌, inl, inr, false, List, [],
  ◌∷◌, ◌++◌, append-nil, arith,
}
use shiv.Text.{
  Bytes, has_prefix, contains_byte, cons_head, split_skip, split, replace_skip, replace_all, join,
}

abbrev pub Lacks : ℕ → Bytes → Type 0
Lacks b s = contains_byte b s ≡ false

pub split-cons :
    (c : ℕ) (s : Bytes)
    → split (c ∷ s) (b'\n' ∷ [])
      ≡ (if c == b'\n' then [] ∷ split s (b'\n' ∷ []) else cons_head c (split s (b'\n' ∷ [])))
unfolding split split_skip has_prefix
split-cons c s = ground arith

pub split-nil : split [] (b'\n' ∷ []) ≡ [] ∷ []
unfolding split split_skip
split-nil = refl

-- A text has a first line, and it is the text's start.
pub split_nonempty : (s : Bytes) → (p : Bytes) × (ps : List Bytes) × (split s (b'\n' ∷ []) ≡ p ∷ ps)
split_nonempty [] = ([], [], unfold split split_skip in refl)
split_nonempty (c ∷ s) =
    let (p, ps, e) = split_nonempty s in
    elim (Bool-cases (c == b'\n')) [
      | inl end ↦ ([], split s (b'\n' ∷ []), rw (split-cons c s, end) refl)
      | inr inside ↦ (c ∷ p, ps, rw (split-cons c s, inside, e) refl)
    ]

-- The first part of a line in front of a text goes to the first line.
abbrev pub glue : Bytes → List Bytes → List Bytes
glue l [] = l ∷ []
glue l (p ∷ ps) = (l ++ p) ∷ ps

pub split-append :
    (l s : Bytes) → Lacks b'\n' l → split (l ++ s) (b'\n' ∷ []) ≡ glue l (split s (b'\n' ∷ []))
unfolding contains_byte
split-append [] s h = let (p, ps, e) = split_nonempty s in rw e refl
split-append (c ∷ l) s h =
    let (p, ps, e) = split_nonempty s in
    let inside : (c == b'\n') ≡ false = ground arith in
    let ih : split (l ++ s) (b'\n' ∷ []) ≡ (l ++ p) ∷ ps =
      split-append l s (ground arith) ∙ rw e refl in
    split-cons c (l ++ s) ∙ rw (inside, ih, e) refl

pub split-join :
    (l : Bytes) (ls : List Bytes)
    → All (Lacks b'\n') (l ∷ ls)
    → split (join (l ∷ ls) (b'\n' ∷ [])) (b'\n' ∷ []) ≡ l ∷ ls
unfolding join
split-join l [] h =
    ap (λ x. split x (b'\n' ∷ [])) (sym (append-nil l))
    ∙ split-append l [] h.0
    ∙ unfold split split_skip in ap (λ x. x ∷ []) (append-nil l)
split-join l (m ∷ ls) h =
    split-append l ((b'\n' ∷ []) ++ join (m ∷ ls) (b'\n' ∷ [])) h.0
    ∙ ap (glue l)
        (split-cons b'\n' (join (m ∷ ls) (b'\n' ∷ [])) ∙ ap (λ x. [] ∷ x) (split-join m ls h.1))
    ∙ ap (λ x. x ∷ m ∷ ls) (append-nil l)

-- Nothing is replaced where the first byte of what is looked for does not stand.
pub replace_all_absent : (b : ℕ) (old new s : Bytes) → Lacks b s → replace_all s (b ∷ old) new ≡ s
unfolding contains_byte replace_all replace_skip has_prefix
replace_all_absent b old new [] h = refl
replace_all_absent b old new (c ∷ s) h = ground (arith, replace_all_absent b old new s)

pub Lacks-append : (b : ℕ) (x y : Bytes) → Lacks b x → Lacks b y → Lacks b (x ++ y)
unfolding contains_byte
Lacks-append b [] y h k = k
Lacks-append b (c ∷ x) y h k = ground (arith, Lacks-append b x y)

pub Lacks-replace_all : (b : ℕ) (new s : Bytes) → Lacks b new → Lacks b (replace_all s (b ∷ []) new)
unfolding contains_byte replace_all replace_skip has_prefix
Lacks-replace_all b new [] h = refl
Lacks-replace_all b new (c ∷ s) h =
    ground
      (arith, Lacks-replace_all b new s h, Lacks-append b new (replace_skip zero (b ∷ []) new s) h)

pub split-Lacks_end : (s : Bytes) → All (Lacks b'\n') (split s (b'\n' ∷ []))
unfolding contains_byte
split-Lacks_end [] = rw split-nil (refl, tt)
split-Lacks_end (c ∷ s) =
    let (p, ps, e) = split_nonempty s in
    let rest : All (Lacks b'\n') (p ∷ ps) = rw e at (split-Lacks_end s) in
    elim (Bool-cases (c == b'\n')) [
      | inl end ↦ rw (split-cons c s, end, e) (refl, rest)
      | inr inside ↦ rw (split-cons c s, inside, e) (ground (arith, rest.0), rest.1)
    ]

pub split-Lacks : (b : ℕ) (s : Bytes) → Lacks b s → All (Lacks b) (split s (b'\n' ∷ []))
unfolding contains_byte
split-Lacks b [] h = rw split-nil (refl, tt)
split-Lacks b (c ∷ s) h =
    let (p, ps, e) = split_nonempty s in
    let rest : All (Lacks b) (p ∷ ps) = rw e at (split-Lacks b s (ground arith)) in
    elim (Bool-cases (c == b'\n')) [
      | inl end ↦ rw (split-cons c s, end, e) (refl, rest)
      | inr inside ↦ rw (split-cons c s, inside, e) (ground (arith, rest.0), rest.1)
    ]

pub replace_all-nil : (old new : Bytes) → replace_all [] old new ≡ []
unfolding replace_all replace_skip
replace_all-nil old new = refl

join-first :
    (c : ℕ) (p : Bytes) (ps : List Bytes) (x : Bytes) → join ((c ∷ p) ∷ ps) x ≡ c ∷ join (p ∷ ps) x
unfolding join
join-first c p [] x = refl
join-first c p (q ∷ ps) x = refl

-- A text that is cut and joined is as it was.
pub join-split : (s : Bytes) → join (split s (b'\n' ∷ [])) (b'\n' ∷ []) ≡ s
unfolding join
join-split [] = rw split-nil refl
join-split (c ∷ s) =
    let (p, ps, e) = split_nonempty s in
    let ih : join (p ∷ ps) (b'\n' ∷ []) ≡ s =
      ap (λ l. join l (b'\n' ∷ [])) (sym e) ∙ join-split s in
    elim (Bool-cases (c == b'\n')) [
      | inl end ↦
          let same : c ≡ b'\n' = ground arith in
          rw (split-cons c s, end, e) (ap (◌∷◌ b'\n') ih ∙ ap (λ x. x ∷ s) (sym same))
      | inr inside ↦ rw (split-cons c s, inside, e) (join-first c p ps (b'\n' ∷ []) ∙ ap (◌∷◌ c) ih)
    ]
