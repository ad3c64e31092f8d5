-- ===== src/History/Paging.antt =====
-- The pages of `TransactionsPage` in internal/store/history.go, one behind the other.
use shiv.Prelude.{
  ltb, ltb→lt, ltb→le, Bool-cases, length, get_elem?, take, drop, take-append-drop, length-take,
  length-drop, drop_add, get_elem?-some, All, All-get, All-map, ℕ, zero, suc, ◌+◌, ◌≤◌, ◌<◌, ◌≡◌,
  refl, sym, ap, ◌∙◌, subst, inl, inr, Bool, true, false, ◌&&◌, Option, some, List, [], ◌∷◌, ◌++◌,
  map, arith,
}
use shiv.Text.{Bytes}
use shiv.Http.Header.{Header}
use shiv.History.{
  page_size, select, is_before, matches_filter, scan, without_bodies, transactions_page,
  Transaction, Row, HistoryTable, TransactionFilter,
}
use shiv.History.Export.{last_id, next_page, collect_pages}

-- The ids are positive and fall from row to row.
abbrev pub IsFalling : List Row → Type 0
IsFalling [] = Unit
IsFalling (r ∷ rs) = (0 < r.entry.id) × All (λ (q : Row). q.entry.id < r.entry.id) rs × IsFalling rs

pub All-select {ℓ κ} :
    {A : Type ℓ} (P : A → Type κ) (p : A → Bool) (xs : List A) → All P xs → All P (select p xs)
All-select P p [] h = tt
All-select P p (x ∷ xs) h = elim (Bool-cases (p x)) [
  | inl on ↦ rw on (h.0, All-select P p xs h.1)
  | inr off ↦ rw off (All-select P p xs h.1)
]

pub select-IsFalling : (p : Row → Bool) (rs : List Row) → IsFalling rs → IsFalling (select p rs)
select-IsFalling p [] h = tt
select-IsFalling p (r ∷ rs) h = elim (Bool-cases (p r)) [
  | inl on ↦
      rw on
        (h.0, All-select (λ (q : Row). q.entry.id < r.entry.id) p rs h.1, select-IsFalling p rs h.2)
  | inr off ↦ rw off (select-IsFalling p rs h.2)
]

pub select-and {ℓ} :
    {A : Type ℓ} (p q : A → Bool) (xs : List A)
    → select (λ x. p x && q x) xs ≡ select p (select q xs)
select-and p q [] = refl
select-and p q (x ∷ xs) = ground (arith, select-and p q xs)

length-select {ℓ} : {A : Type ℓ} (p : A → Bool) (xs : List A) → length (select p xs) ≤ length xs
length-select p [] = omega arith
length-select p (x ∷ xs) =
    let ih = length-select p xs in
    elim (Bool-cases (p x)) [ inl on ↦ rw on (omega arith) | inr off ↦ rw off (omega arith) ]

-- Where all pass, nothing is left out.
pub select_all {ℓ} :
    {A : Type ℓ} (p : A → Bool) (xs : List A) → All (λ (x : A). p x ≡ true) xs → select p xs ≡ xs
select_all p [] h = refl
select_all p (x ∷ xs) h = ground (arith, select_all p xs h.1)

before-All :
    (b : ℕ) (rs : List Row)
    → All (λ (q : Row). q.entry.id < b) rs
    → All (λ (q : Row). is_before b q ≡ true) rs
unfolding is_before
before-All b rs h =
    All-map (λ (q : Row). q.entry.id < b) (λ (q : Row). is_before b q ≡ true) (λ q lt. ground arith)
      rs h

not_before : (b : ℕ) (q : Row) → 0 < b → b ≤ q.entry.id → is_before b q ≡ false
unfolding is_before
not_before b q h k = ground arith

-- The rows before the id of a row are those behind it.
pub select-is_before :
    (rs : List Row) (n : ℕ) {r : Row}
    → IsFalling rs
    → get_elem? rs n ≡ some r
    → (0 < r.entry.id) × (select (is_before r.entry.id) rs ≡ drop (suc n) rs)
select-is_before [] n h at = absurd (ground arith)
select-is_before (q ∷ qs) zero {r} h at =
    let same : q ≡ r = cc in
    subst (λ (r : Row). (0 < r.entry.id) × (select (is_before r.entry.id) (q ∷ qs) ≡ qs)) same
      (
        h.0,
        rw (not_before q.entry.id q h.0 (omega arith))
            (select_all (is_before q.entry.id) qs (before-All q.entry.id qs h.1)),
      )
select-is_before (q ∷ qs) (suc n) {r} h at =
    let (positive, ih) = select-is_before qs n h.2 at in
    let less = All-get (λ (x : Row). x.entry.id < q.entry.id) qs n h.1 at in
    (positive, rw (not_before r.entry.id q positive (omega (arith, less))) ih)

get_elem?-drop {ℓ} :
    {A : Type ℓ} (k : ℕ) (xs : List A) (n : ℕ) → get_elem? (drop k xs) n ≡ get_elem? xs (k + n)
get_elem?-drop zero xs n = ap (get_elem? xs) (let e : n ≡ 0 + n = omega arith in e)
get_elem?-drop (suc k) [] n = refl
get_elem?-drop (suc k) (x ∷ xs) n =
    get_elem?-drop k xs n
    ∙ ap (get_elem? (x ∷ xs)) (let e : suc (k + n) ≡ suc k + n = omega arith in e)

pub take_short {ℓ} : {A : Type ℓ} (n : ℕ) (xs : List A) → length xs ≤ n → take n xs ≡ xs
take_short zero [] h = refl
take_short zero (x ∷ xs) h = absurd (omega arith)
take_short (suc n) [] h = refl
take_short (suc n) (x ∷ xs) h = ap (◌∷◌ x) (take_short n xs (omega arith))

pub length-map {ℓ} : {A B : Type ℓ} (g : A → B) (xs : List A) → length (map g xs) ≡ length xs
length-map g [] = refl
length-map g (x ∷ xs) = ap suc (length-map g xs)

pub map-append {ℓ} :
    {A B : Type ℓ} (g : A → B) (xs ys : List A) → map g xs ++ map g ys ≡ map g (xs ++ ys)
map-append g [] ys = refl
map-append g (x ∷ xs) ys = ap (◌∷◌ (g x)) (map-append g xs ys)

pub first_page : (rs : List Row) → All (λ (q : Row). is_before 0 q ≡ true) rs
unfolding is_before
first_page [] = tt
first_page (q ∷ qs) = (refl, first_page qs)

module _ (like : Bytes → Bytes → Bool) (unmarshal : Bytes → Option Header) (f : TransactionFilter)
    (s : HistoryTable) where
  pub last_id-take :
      (rs : List Row) (n : ℕ) {r : Row}
      → get_elem? rs n ≡ some r
      → last_id (map (without_bodies unmarshal) (take (suc n) rs)) ≡ r.entry.id
  unfolding last_id without_bodies scan
  last_id-take [] n h = absurd (ground arith)
  last_id-take (q ∷ qs) zero {r} h = let same : q ≡ r = cc in ap (λ (x : Row). x.entry.id) same
  last_id-take (q ∷ []) (suc n) h = absurd (ground arith)
  last_id-take (q ∷ q' ∷ qs) (suc n) h = last_id-take (q' ∷ qs) n h

  rows_left : ℕ → List Row
  rows_left k = drop k (select (matches_filter like f) s.rows)

  page_at :
      (k cursor : ℕ)
      → select (is_before cursor) (select (matches_filter like f) s.rows) ≡ rows_left k
      → transactions_page unmarshal like false cursor f s
        ≡ some (map (without_bodies unmarshal) (take page_size (rows_left k)))
  unfolding transactions_page
  page_at k cursor h =
      ap (λ rs. some (map (without_bodies unmarshal) (take page_size rs)))
        (select-and (is_before cursor) (matches_filter like f) s.rows ∙ h)

  last_page :
      (rs : List Row) (rest : Option (List Transaction))
      → length rs < page_size
      → next_page (map (without_bodies unmarshal) (take page_size rs)) rest
        ≡ some (map (without_bodies unmarshal) rs)
  unfolding next_page
  last_page rs rest h =
      let short = take_short page_size rs (omega arith) in
      let size : length (map (without_bodies unmarshal) rs) ≡ length rs =
        length-map (without_bodies unmarshal) rs in
      ap (λ xs. next_page (map (without_bodies unmarshal) xs) rest) short
      ∙ (let test : ltb (length (map (without_bodies unmarshal) rs)) page_size ≡ true =
            ground arith in
          rw test refl)

  full_page :
      (rs rest : List Row)
      → page_size ≤ length rs
      → next_page
          (map (without_bodies unmarshal) (take page_size rs))
          (some (map (without_bodies unmarshal) rest))
        ≡ some (map (without_bodies unmarshal) (take page_size rs ++ rest))
  unfolding next_page
  full_page rs rest h =
      let page = take page_size rs in
      let size = length-map (without_bodies unmarshal) page in
      let full = length-take page_size rs h in
      (let test : ltb (length (map (without_bodies unmarshal) page)) page_size ≡ false =
          ground arith in
        rw test refl)
      ∙ ap some (map-append (without_bodies unmarshal) page rest)

  collect_round :
      (fuel cursor : ℕ) {page : List Transaction}
      → transactions_page unmarshal like false cursor f s ≡ some page
      → collect_pages like unmarshal (λ c. false) f s (suc fuel) cursor
        ≡ next_page page (collect_pages like unmarshal (λ c. false) f s fuel (last_id page))
  unfolding collect_pages transactions_page
  collect_round fuel cursor h = ground arith

  -- The rounds from a cursor collect all the rows that are left.
  collect_pages-rows_left :
      (fuel k cursor : ℕ)
      → IsFalling s.rows
      → select (is_before cursor) (select (matches_filter like f) s.rows) ≡ rows_left k
      → length (rows_left k) < fuel
      → collect_pages like unmarshal (λ c. false) f s fuel cursor
        ≡ some (map (without_bodies unmarshal) (rows_left k))
  unfolding rows_left
  collect_pages-rows_left zero k cursor h at room = absurd (omega arith)
  collect_pages-rows_left (suc fuel) k cursor h at room =
      let rs = rows_left k in
      let all = select (matches_filter like f) s.rows in
      let page = map (without_bodies unmarshal) (take page_size rs) in
      let collect = collect_pages like unmarshal (λ c. false) f s fuel in
      collect_round fuel cursor (page_at k cursor at)
      ∙ elim (Bool-cases (ltb (length rs) page_size)) [
        | inl short ↦ last_page rs (collect (last_id page)) (ltb→lt (length rs) page_size short)
        | inr full ↦
            let le = ltb→le (length rs) page_size full in
            let (r, last) = get_elem?-some rs 99 (omega arith) in
            let id_of : last_id page ≡ r.entry.id = last_id-take rs 99 last in
            let in_all : get_elem? all (k + 99) ≡ some r = sym (get_elem?-drop k all 99) ∙ last in
            let (positive, behind) =
              select-is_before all (k + 99) (select-IsFalling (matches_filter like f) s.rows h)
                in_all in
            let count : suc (k + 99) ≡ k + page_size = omega arith in
            let at' : select (is_before (last_id page)) all ≡ rows_left (k + page_size) =
              ap (λ i. select (is_before i) all) id_of ∙ behind ∙ ap (λ n. drop n all) count in
            let behind_page : drop page_size rs ≡ rows_left (k + page_size) =
              drop_add k page_size all in
            let size = length-drop page_size rs in
            let fewer : length (rows_left (k + page_size)) < fuel =
              let same = ap length behind_page in omega arith in
            ap (next_page page)
              (collect_pages-rows_left fuel (k + page_size) (last_id page) h at' fewer)
            ∙ full_page rs (rows_left (k + page_size)) le
            ∙ ap (λ xs. some (map (without_bodies unmarshal) (take page_size rs ++ xs)))
                (sym behind_page)
            ∙ ap (λ xs. some (map (without_bodies unmarshal) xs)) (take-append-drop page_size rs)
      ]

  -- The pages are the rows that match, newest first, each once.
  pub collect_pages-lem :
      IsFalling s.rows
      → collect_pages like unmarshal (λ c. false) f s (suc (length s.rows)) 0
        ≡ some (map (without_bodies unmarshal) (select (matches_filter like f) s.rows))
  unfolding rows_left
  collect_pages-lem h =
      let all = select (matches_filter like f) s.rows in
      let size = length-select (matches_filter like f) s.rows in
      collect_pages-rows_left (suc (length s.rows)) 0 0 h
        (select_all (is_before 0) all (first_page all)) (omega arith)
